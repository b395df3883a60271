-- ===== src/Tests/GroupRuns.antt =====
-- Handlers of the group server run in a group with one member.
use nymstr.Prelude.{
  ℕ, ◌+◌, String, Bool, true, false, List, [], ◌∷◌, ◌++◌, Option, none, some, ◌≡◌, refl, sym, subst,
  ap, ◌∙◌, ◌||◌, map, arith,
}
use nymstr.Prelude.Int.{pos}
use nymstr.Json.{null, get_str}
use nymstr.Common.RateLimiter.{check_and_record, cleanup}
use nymstr.Server.State.{World, tag_text}
use nymstr.Transport.{ReplyTag}
use nymstr.GroupServer.Tables.{exists, find_user, find_group, is_row}
use nymstr.GroupServer.Tables.Queues.{
  cleanup_old_message_hashes, welcomes_of, find_hash, get_key_package,
}
use nymstr.GroupServer.State.{GroupServer, attempt, call, reply, found, send_encapsulated_reply}
use nymstr.GroupServer.Requests.{SendGroupRequest, ApproveGroupRequest}
use nymstr.GroupServer.Messages.{dedup_hash, handle_send_group_core}
use nymstr.GroupServer.Accounts.{is_expired, handle_approve_group_core, approved_text}
use nymstr.GroupServer.Accounts.Admission.{MayApprove, approve-admits}
use nymstr.GroupServer.Welcomes.{handle_fetch_welcome, welcomes_text, welcome_json}
use nymstr.GroupServer.Welcomes.HandOver.{fetch_welcome-hands_over}
use nymstr.GroupServer.Runs.{MayAct, limited}
use nymstr.GroupServer.Steps.Process.{run}
use nymstr.GroupServer.Process.{process_message, tidy}
use nymstr.GroupServer.Messages.{stored_text}
use nymstr.GroupServer.Sends.{at_faults, posted, marked, MaySend, stores_new, loses_new}
use nymstr.GroupServer.Once.{send-once, send-loses_failed}
use nymstr.Tests.Fixture.{at_time, tag}
use nymstr.Tests.GroupServer.{group_env, group_server, tables}

abbrev bye : SendGroupRequest
bye = record { username = "alice"; ciphertext = "bye"; signature = "alice-key/bye" }

abbrev broken : GroupServer
broken = record group_server { faults = false ∷ false ∷ false ∷ true ∷ [] }

limiter_open : GroupServer → Bool
limiter_open s =
    (check_and_record (at_time 1000).instant (tag_text group_env.env tag) s.rate_limiter_general).0

-- alice may send wherever she is a user and a member still.
may_send :
    (s : GroupServer)
    → limiter_open s ≡ true
    → s.tables.users ≡ tables.users
    → s.tables.group_members ≡ tables.group_members
    → MaySend group_env (at_time 1000) tag s bye
unfolding limiter_open nymstr.Common.Validation.is_valid_username dedup_hash is_row find_user
may_send s o users members = record {
  acts = record {
    limiter_open = o;
    named = refl;
    signed = refl;
    user = record { username = "alice"; public_key = "alice-key" };
    registered = ap (find_user "alice") users;
    verified = refl;
  };
  present = refl;
  member = ap (is_row "club" "alice") members;
  hashed = refl;
}

first_opens : limiter_open group_server ≡ true
unfolding limiter_open check_and_record nymstr.Prelude.find nymstr.Prelude.keep
first_opens = refl

MaySend-first :
    (fs : List Bool)
    → MaySend group_env (at_time 1000) tag (record group_server { faults = fs }) bye
unfolding limiter_open
MaySend-first fs = may_send (record group_server { faults = fs }) first_opens refl refl

unseen : find_hash (dedup_hash group_env "alice" "bye") [] ≡ none
unfolding find_hash
unseen = refl

again_opens :
    limiter_open (limited group_env (at_time 1000) tag "sendGroupResponse" group_server) ≡ true
unfolding limiter_open check_and_record nymstr.Prelude.find nymstr.Prelude.keep
    nymstr.Prelude.insert nymstr.Prelude.remove nymstr.Transport.to_string
again_opens = refl

-- Two messages come between, which say nothing.
abbrev between : List (World × Option ReplyTag × List ℕ)
between = (at_time 1200, none, []) ∷ (at_time 1600, some tag, 9 ∷ []) ∷ []

abbrev once_sent : GroupServer
once_sent = (handle_send_group_core group_env (at_time 1000) tag bye group_server).1

once_known :
    once_sent
    ≡ (reply group_env (at_time 1000) tag "sendGroupResponse" (stored_text group_env 6) (
        at_faults group_env
          (at_time 1000)
          tag
          group_server
          bye
          (MaySend-first [])
          (posted "alice" "bye" "now" (marked (dedup_hash group_env "alice" "bye") 1000 tables))
          [])).1
once_known =
    ap (λ p. p.1)
      (stores_new group_env (at_time 1000) tag group_server bye (MaySend-first []) unseen refl)

between_quiet :
    (s : GroupServer)
    → s.faults ≡ []
    → ((run group_env s between).faults ≡ [])
      × ((run group_env s between).tables.users ≡ s.tables.users)
      × ((run group_env s between).tables.group_members ≡ s.tables.group_members)
      × ((run group_env s between).rate_limiter_general ≡ cleanup (cleanup s.rate_limiter_general))
unfolding run process_message tidy attempt call cleanup_old_message_hashes nymstr.Db.Tables.fails
    nymstr.Db.Tables.rest nymstr.GroupServer.Process.process_value get_str
    nymstr.GroupServer.Process.unified_action nymstr.GroupServer.State.pure
between_quiet s healthy = rw healthy (refl, refl, refl, refl)

once_limiter :
    limiter_open
      (record once_sent { rate_limiter_general = cleanup (cleanup once_sent.rate_limiter_general) })
    ≡ true
unfolding reply send_encapsulated_reply limiter_open check_and_record cleanup nymstr.Prelude.find
    nymstr.Prelude.keep nymstr.Prelude.insert nymstr.Prelude.remove nymstr.Transport.to_string
once_limiter =
    ap
      (λ u.
        limiter_open (record u { rate_limiter_general = cleanup (cleanup u.rate_limiter_general) }))
      once_known
    ∙ refl

once_healthy : once_sent.faults ≡ []
unfolding reply send_encapsulated_reply
once_healthy = ap (λ u. u.faults) once_known

MaySend-again : MaySend group_env (at_time 1000) tag (run group_env once_sent between) bye
unfolding reply send_encapsulated_reply limiter_open
MaySend-again =
    let (healthy, users, members, limiter) = between_quiet once_sent once_healthy in
    may_send (run group_env once_sent between)
      (ap (λ l. (check_and_record (at_time 1000).instant (tag_text group_env.env tag) l).0) limiter
        ∙ once_limiter)
      (users ∙ ap (λ u. u.tables.users) once_known)
      (members ∙ ap (λ u. u.tables.group_members) once_known)

MaySend-after_failure :
    MaySend group_env
      (at_time 1000)
      tag
      (handle_send_group_core group_env (at_time 1000) tag bye broken).1
      bye
unfolding reply send_encapsulated_reply limiter_open
MaySend-after_failure =
    subst (λ p. MaySend group_env (at_time 1000) tag (p.1) bye)
      (sym (loses_new group_env (at_time 1000) tag broken bye (MaySend-first _) unseen refl))
      (may_send _ again_opens refl refl)

abbrev send : GroupServer → GroupServer
send s = (handle_send_group_core group_env (at_time 1000) tag bye s).1

send-once_example :
    ((send group_server).tables.messages
      ≡ tables.messages
        ++ record { id = 6; sender = "alice"; ciphertext = "bye"; timestamp = "now" } ∷ [])
    × ((send (run group_env (send group_server) between)).tables
        ≡ (run group_env (send group_server) between).tables)
send-once_example =
    send-once group_env (at_time 1000) tag group_server bye unseen between (at_time 1000) tag bye
      refl refl (MaySend-first []) (omega arith, (omega arith, tt)) MaySend-again refl
      (between_quiet once_sent once_healthy).0

send-loses_failed_example :
    ((send broken).tables.messages ≡ tables.messages)
    × ((send (send broken)).tables.messages ≡ tables.messages)
send-loses_failed_example =
    send-loses_failed group_env (at_time 1000) tag broken bye unseen (at_time 1000) tag bye refl
      refl (MaySend-first _) MaySend-after_failure refl

abbrev approval : ApproveGroupRequest
approval = record {
  username = "carol";
  group_id = "club";
  timestamp = pos 1000;
  signature = "admin-key/approveGroup:carol:club:1000";
}

may_approve : MayApprove group_env (at_time 1000) tag group_server approval
unfolding limiter_open is_expired find_user nymstr.Prelude.Int.show_ℤ
may_approve = record {
  limiter_open = first_opens;
  signed = refl;
  admin_key = "admin-key";
  configured = refl;
  same_group = refl;
  fresh = refl;
  verified = refl;
  key = "carol-key";
  waits = refl;
  unknown = refl;
}

approve-admits_example :
    let u = (handle_approve_group_core group_env (at_time 1000) tag approval group_server).1 in
    (find_user "carol" u.tables.users
      ≡ some (record { username = "carol"; public_key = "carol-key" }))
    × (find_user "carol" u.tables.pending_users ≡ none)
    × (is_row "club" "carol" u.tables.group_members
        ≡ (is_row "club" "carol" tables.group_members || exists (find_group "club" tables.groups)))
    × (u.sent
        ≡ (send_encapsulated_reply group_env
            (at_time 1000)
            tag
            (approved_text group_env
              (at_time 1000)
              tag
              "carol"
              (found (get_key_package "carol" tables).0))
            "approveGroupResponse"
            none
            group_server).sent)
unfolding may_approve
approve-admits_example =
    approve-admits group_env (at_time 1000) tag group_server approval may_approve refl

may_fetch :
    MayAct group_env
      (at_time 1000)
      tag
      group_server
      "alice"
      "alice-key/fetchWelcome:alice"
      "fetchWelcome:alice"
unfolding limiter_open nymstr.Common.Validation.is_valid_username find_user
may_fetch = record {
  limiter_open = first_opens;
  named = refl;
  signed = refl;
  user = record { username = "alice"; public_key = "alice-key" };
  registered = refl;
  verified = refl;
}

no_group : get_str "groupId" null ≡ none
unfolding get_str
no_group = refl

fetch_welcome-hands_over_example :
    let mine = welcomes_of "alice" tables.pending_welcomes in
    let u =
      (handle_fetch_welcome group_env
        (at_time 1000)
        tag
        null
        "alice"
        "alice-key/fetchWelcome:alice"
        group_server).1 in
    (u.sent
      ≡ (send_encapsulated_reply group_env
          (at_time 1000)
          tag
          (welcomes_text group_env
            (at_time 1000)
            tag
            (map (λ x. welcome_json group_env (at_time 1000) tag x.group_id x.welcome) mine))
          "fetchWelcomeResponse"
          none
          group_server).sent)
    × (welcomes_of "alice" u.tables.pending_welcomes ≡ [])
    × (welcomes_of "dave" u.tables.pending_welcomes ≡ welcomes_of "dave" tables.pending_welcomes)
fetch_welcome-hands_over_example =
    fetch_welcome-hands_over group_env (at_time 1000) tag null "alice"
      "alice-key/fetchWelcome:alice" "dave" group_server no_group may_fetch refl (cc)
