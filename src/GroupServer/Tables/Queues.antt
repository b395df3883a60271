-- ===== src/GroupServer/Tables/Queues.antt =====
-- nymstr-group/src/db_utils.rs: messages, key packages, welcomes, commits and message hashes.
use nymstr.Prelude.{
  ℕ, ◌+◌, ◌-◌, String, Bool, true, false, not, List, [], ◌∷◌, ◌++◌, Option, none, some, keep, first,
  contains, length, take, drop, map, ltb, ◌==◌, ◌&&◌, if◌then◌else◌, string_eq, nat_eq,
}
use nymstr.Prelude.Int.{ℤ, pos, negsuc}
use nymstr.Db.Tables.{ok, err, order_by}
use nymstr.GroupServer.Tables.{
  Message, KeyPackage, Welcome, Commit, MessageHash, Call, exists, find_user,
}

-- `LIMIT 100`.
abbrev pub page_size : ℕ
page_size = 100

-- `id > ?`.
unfoldable pub is_after : ℤ → ℕ → Bool
is_after (pos n) id = ltb n id
is_after (negsuc n) id = true

-- The sender is a foreign key.
unfoldable pub store_message : String → String → String → Call ℕ
unfolding find_user
store_message sender ciphertext now t =
    if exists (find_user sender t.users)
    then (
      ok t.next_message,
      record t {
        messages =
            t.messages
            ++ record {
              id = t.next_message;
              sender = sender;
              ciphertext = ciphertext;
              timestamp = now;
            }
              ∷ [];
        next_message = t.next_message + 1;
      },
    )
    else (err, t)

unfoldable pub get_messages_since : ℤ → Call (List Message)
unfolding keep is_after order_by
get_messages_since since_id t =
    (ok (take page_size (order_by (λ m. m.id) (keep (λ m. is_after since_id m.id) t.messages))), t)

max_id : List Message → ℕ
max_id [] = 0
max_id (m ∷ l) = let rest = max_id l in if ltb rest m.id then m.id else rest

unfoldable pub get_latest_message_id : Call ℕ
unfolding max_id
get_latest_message_id t = (ok (max_id t.messages), t)

-- `INSERT OR REPLACE`.
unfoldable pub store_key_package : String → List ℕ → String → Call Bool
unfolding keep
store_key_package username key_package now t = (
  ok true,
  record t {
    key_packages =
        keep (λ k. not (k.username == username)) t.key_packages
        ++ record { username = username; key_package = key_package; created_at = now } ∷ [];
  },
)

abbrev package_bytes : Option KeyPackage → Option (List ℕ)
package_bytes none = none
package_bytes (some k) = some k.key_package

unfoldable pub get_key_package : String → Call (Option (List ℕ))
unfolding first
get_key_package username t =
    (ok (package_bytes (first (λ k. k.username == username) t.key_packages)), t)

unfoldable pub remove_key_package : String → Call Bool
unfolding first keep
remove_key_package username t = (
  ok (exists (first (λ k. k.username == username) t.key_packages)),
  record t { key_packages = keep (λ k. not (k.username == username)) t.key_packages },
)

unfoldable pub is_for : String → String → Welcome → Bool
is_for username group_id w = w.username == username && w.group_id == group_id

-- `INSERT OR REPLACE`, by UNIQUE(username, group_id).
unfoldable pub store_welcome : String → String → List ℕ → String → Call Bool
unfolding keep is_for
store_welcome username group_id welcome now t = (
  ok true,
  record t {
    pending_welcomes =
        keep (λ w. not (is_for username group_id w)) t.pending_welcomes
        ++ record { username = username; group_id = group_id; welcome = welcome; created_at = now }
          ∷ [];
  },
)

unfoldable pub welcomes_of : String → List Welcome → List Welcome
unfolding keep
welcomes_of username = keep λ w. w.username == username

unfoldable pub get_pending_welcomes : String → Call (List Welcome)
unfolding welcomes_of
get_pending_welcomes username t = (ok (welcomes_of username t.pending_welcomes), t)

abbrev welcome_bytes : Option Welcome → Option (List ℕ)
welcome_bytes none = none
welcome_bytes (some w) = some w.welcome

unfoldable pub get_welcome : String → String → Call (Option (List ℕ))
unfolding first is_for
get_welcome username group_id t =
    (ok (welcome_bytes (first (is_for username group_id) t.pending_welcomes)), t)

unfoldable pub remove_welcome : String → String → Call Bool
unfolding first keep is_for
remove_welcome username group_id t = (
  ok (exists (first (is_for username group_id) t.pending_welcomes)),
  record t { pending_welcomes = keep (λ w. not (is_for username group_id w)) t.pending_welcomes },
)

unfoldable pub count_pending_welcomes_for_user : String → Call ℕ
unfolding welcomes_of
count_pending_welcomes_for_user username t =
    (ok (length (welcomes_of username t.pending_welcomes)), t)

unfoldable pub buffer_commit : String → ℤ → List ℕ → String → String → Call ℕ
buffer_commit group_id epoch commit_msg sender now t = (
  ok t.next_commit,
  record t {
    buffered_commits =
        t.buffered_commits
        ++ record {
          id = t.next_commit;
          group_id = group_id;
          epoch = epoch;
          commit_msg = commit_msg;
          sender = sender;
          created_at = now;
        }
          ∷ [];
    next_commit = t.next_commit + 1;
  },
)

unfoldable pub commits_of : String → List Commit → List Commit
unfolding keep
commits_of group_id = keep λ c. c.group_id == group_id

unfoldable pub get_commits_since_id : String → ℤ → Call (List Commit)
unfolding keep is_after order_by
get_commits_since_id group_id since_id t = (
  ok (
      take page_size (
        order_by (λ c. c.id)
          (keep (λ c. c.group_id == group_id && is_after since_id c.id) t.buffered_commits))),
  t,
)

-- `SELECT id … ORDER BY id DESC LIMIT keep_count`: the last of the ascending order.
unfoldable pub newest : String → ℕ → List Commit → List ℕ
unfolding commits_of order_by
newest group_id keep_count l =
    let mine = order_by (λ c. c.id) (commits_of group_id l) in
    map (λ c. c.id) (drop (length mine - keep_count) mine)

unfoldable pub is_surplus : String → List ℕ → Commit → Bool
unfolding contains
is_surplus group_id ids c = c.group_id == group_id && not (contains c.id ids)

-- `keep_count` is the numeral of the one caller.
unfoldable pub cleanup_old_commits : String → ℕ → Call ℕ
unfolding newest is_surplus keep
cleanup_old_commits group_id keep_count t =
    let ids = newest group_id keep_count t.buffered_commits in
    (
      ok (length (keep (is_surplus group_id ids) t.buffered_commits)),
      record t {
        buffered_commits = keep (λ c. not (is_surplus group_id ids c)) t.buffered_commits;
      },
    )

unfoldable pub find_hash : String → List MessageHash → Option MessageHash
unfolding first
find_hash hash = first λ h. h.hash == hash

unfoldable pub check_and_store_message_hash : String → ℕ → Call Bool
unfolding find_hash
check_and_store_message_hash hash now t =
    if exists (find_hash hash t.recent_message_hashes) then (ok false, t) else (
      ok true,
      record t {
        recent_message_hashes =
            t.recent_message_hashes ++ record { hash = hash; created_at = now } ∷ [];
      },
    )

-- `created_at < now - max_age`, written without subtraction.
unfoldable pub is_old : ℕ → ℕ → MessageHash → Bool
is_old now max_age_secs h = ltb (h.created_at + max_age_secs) now

unfoldable pub cleanup_old_message_hashes : ℕ → ℕ → Call ℕ
unfolding keep is_old
cleanup_old_message_hashes max_age_secs now t = (
  ok (length (keep (is_old now max_age_secs) t.recent_message_hashes)),
  record t {
    recent_message_hashes = keep (λ h. not (is_old now max_age_secs h)) t.recent_message_hashes;
  },
)
