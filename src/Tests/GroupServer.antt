-- ===== src/Tests/GroupServer.antt =====
-- A group with one member, and the theorems about its server applied to it.
use nymstr.Prelude.{
  ℕ, ◌-◌, ◌≤◌, ◌<◌, ◌^◌, String, true, List, [], ◌∷◌, Option, some, ◌≡◌, ◌≢◌, ◌↔◌, length,
  length-keep-le, keep, ◌==◌, string_eq, drop, arith,
}
use nymstr.Prelude.Int.{pos}
use nymstr.Server.Freshness.Proofs.{distance}
use nymstr.GroupServer.Tables.{
  Tables, User, Group, Membership, Message, Welcome, Commit, exists, find_user, find_group, is_row,
}
use nymstr.GroupServer.Tables.Queues.{welcomes_of, commits_of, cleanup_old_commits}
use nymstr.GroupServer.State.{GroupEnv, GroupServer}
use nymstr.GroupServer.Process.{process_message}
use nymstr.GroupServer.Steps.{Steps}
use nymstr.GroupServer.Steps.Process.{process_message-Steps, run}
use nymstr.GroupServer.Steps.Growth.{Grows, run-Grows}
use nymstr.GroupServer.Steps.Consistent.{IsConsistent, run-IsConsistent}
use nymstr.GroupServer.Paging.{gather, gather_lem, after}
use nymstr.GroupServer.Accounts.{is_expired}
use nymstr.GroupServer.Accounts.Expiry.{is_expired_iff}
use nymstr.GroupServer.Commits.Kept.{cleanup_old_commits_lem}
use nymstr.Tests.Fixture.{env, at_time, tag}

abbrev decoded : String → Option (List ℕ)
decoded t = some (1 ∷ 2 ∷ [])

abbrev pub group_env : GroupEnv
group_env = record {
  env = env;
  admin_public_key = some "admin-key";
  group_id = "club";
  encode = λ l. "bytes";
  decode = decoded;
}

abbrev pub hello : Message
hello = record { id = 3; sender = "alice"; ciphertext = "hello"; timestamp = "then" }

abbrev commit_of : ℕ → String → Commit
commit_of id group_id = record {
  id = id;
  group_id = group_id;
  epoch = pos 0;
  commit_msg = [];
  sender = "alice";
  created_at = "then";
}

abbrev pub invitation : Welcome
invitation = record { username = "alice"; group_id = "club"; welcome = 7 ∷ []; created_at = "then" }

abbrev pub tables : Tables
tables = record {
  users = record { username = "alice"; public_key = "alice-key" } ∷ [];
  groups = [];
  group_members = record { group_id = "club"; username = "alice" } ∷ [];
  group_invites = [];
  pending_users = record { username = "carol"; public_key = "carol-key" } ∷ [];
  messages = hello ∷ record hello { id = 5 } ∷ [];
  next_message = 6;
  key_packages = [];
  pending_welcomes = invitation ∷ record invitation { username = "dave" } ∷ [];
  buffered_commits = commit_of 1 "club" ∷ commit_of 2 "other" ∷ commit_of 3 "club" ∷ [];
  next_commit = 4;
  recent_message_hashes = [];
}

abbrev pub group_server : GroupServer
group_server = record {
  tables = tables;
  faults = [];
  rate_limiter = record { attempts = []; max_attempts = 10; window_secs = 60 };
  rate_limiter_general = record { attempts = []; max_attempts = 60; window_secs = 60 };
  sent = [];
}

process_message-Steps_example :
    Steps group_env
      (at_time 1000)
      tables
      (process_message group_env (at_time 1000) (some tag) (0 ∷ []) group_server).tables
process_message-Steps_example =
    process_message-Steps group_env (at_time 1000) (some tag) (0 ∷ []) group_server

run-Grows_example :
    Grows group_env tables
      (run group_env group_server ((at_time 1000, some tag, 0 ∷ []) ∷ [])).tables
run-Grows_example = run-Grows group_env ((at_time 1000, some tag, 0 ∷ []) ∷ []) group_server

consistent : IsConsistent tables
unfolding welcomes_of
consistent = record {
  messages = omega arith;
  commits = omega arith;
  quota = λ name. omega (arith, length-keep-le (λ v. v.username == name) tables.pending_welcomes);
}

run-IsConsistent_example :
    IsConsistent (run group_env group_server ((at_time 1000, some tag, 0 ∷ []) ∷ [])).tables
run-IsConsistent_example =
    run-IsConsistent group_env ((at_time 1000, some tag, 0 ∷ []) ∷ []) group_server consistent

gather_lem_example : gather 3 2 tables ≡ keep (after 2) tables.messages
unfolding keep nymstr.GroupServer.Tables.Queues.is_after
gather_lem_example = gather_lem tables (omega arith) 3 2 (omega arith)

is_expired_iff_example :
    (is_expired 1000 (pos 1400) ≡ true)
    ↔ ((300 < distance 1000 (pos 1400)) × (distance 1000 (pos 1400) ≢ 2 ^ 63))
is_expired_iff_example = is_expired_iff 1000 (pos 1400) (omega arith) (omega arith)

cleanup_old_commits_lem_example :
    (commits_of "club" (cleanup_old_commits "club" 1 tables).1.buffered_commits
      ≡ drop
          (length (commits_of "club" tables.buffered_commits) - 1)
          (commits_of "club" tables.buffered_commits))
    × (length (commits_of "club" (cleanup_old_commits "club" 1 tables).1.buffered_commits) ≤ 1)
    × (commits_of "other" (cleanup_old_commits "club" 1 tables).1.buffered_commits
        ≡ commits_of "other" tables.buffered_commits)
cleanup_old_commits_lem_example = cleanup_old_commits_lem "club" 1 tables (omega arith) "other" (cc)
