-- ===== src/GroupServer/Accounts/Admission.antt =====
-- An approval lets the waiting user in.
use nymstr.Prelude.{
  ℕ, String, true, not, List, [], ◌∷◌, ◌++◌, Option, none, some, ◌≡◌, refl, ap, ◌∙◌, ◌==◌, ◌||◌,
  ==_self, keep, first, string_eq, inl, inr, Bool-cases, arith,
}
use nymstr.Common.RateLimiter.{check_and_record}
use nymstr.Transport.{ReplyTag}
use nymstr.Db.Tables.{ok, fails, rest}
use nymstr.Server.State.{World, tag_text}
use nymstr.GroupServer.Tables.{
  Tables, User, Membership, exists, find_user, find_group, is_row, has_parents, key_of, add_user,
  add_group_member, get_pending_user, remove_pending_user,
}
use nymstr.GroupServer.Tables.Queues.{get_key_package}
use nymstr.GroupServer.State.{
  GroupEnv, GroupServer, call, attempt, reply, require, expect, found, check_general_rate_limit,
  send_encapsulated_reply,
}
use nymstr.GroupServer.Requests.{ApproveGroupRequest}
use nymstr.GroupServer.Accounts.{
  is_expired, approve_content, approved_text, approve, handle_approve_group_core,
}
use nymstr.GroupServer.Runs.{
  bind-some, call-Works, require-true, expect-some, limited, general-passes, attempt-works,
}

-- A fresh approval of a waiting user, signed by the configured admin.
pub record MayApprove (g : GroupEnv) (w : World) (tag : ReplyTag) (s : GroupServer)
    (r : ApproveGroupRequest) : Type 0 where
  pub limiter_open :
      (check_and_record w.instant (tag_text g.env tag) s.rate_limiter_general).0 ≡ true
  pub signed : not (r.signature == "") ≡ true
  pub admin_key : String
  pub configured : g.admin_public_key ≡ some admin_key
  pub same_group : (r.group_id == g.group_id) ≡ true
  pub fresh : not (is_expired w.unix r.timestamp) ≡ true
  pub verified : g.env.verify_signature admin_key (approve_content r) r.signature ≡ true
  pub key : String
  pub waits : key_of (find_user r.username s.tables.pending_users) ≡ some key
  pub unknown : find_user r.username s.tables.users ≡ none

find_user-append :
    (name key : String) (l : List User)
    → find_user name l ≡ none
    → find_user name (l ++ record { username = name; public_key = key } ∷ [])
      ≡ some (record { username = name; public_key = key })
unfolding find_user first
find_user-append name key [] h = rw (==_self name) refl
find_user-append name key (u ∷ l) h = ground (arith, find_user-append name key l)

find_user-keep :
    (name : String) (l : List User) → find_user name (keep (λ u. not (u.username == name)) l) ≡ none
unfolding find_user first keep
find_user-keep name [] = refl
find_user-keep name (u ∷ l) = ground (arith, find_user-keep name l)

is_row-append :
    (id name : String) (l : List Membership)
    → is_row id name (l ++ record { group_id = id; username = name } ∷ []) ≡ true
unfolding is_row first
is_row-append id name [] = rw (==_self id, ==_self name) refl
is_row-append id name (m ∷ l) = ground (arith, is_row-append id name l)

-- A registered user is a member afterwards if the group has its row, and not otherwise.
is_row-add_group_member :
    (id name : String) (t : Tables)
    → exists (find_user name t.users) ≡ true
    → is_row id name (add_group_member id name t).1.group_members
      ≡ (is_row id name t.group_members || exists (find_group id t.groups))
unfolding add_group_member has_parents
is_row-add_group_member id name t known = elim (Bool-cases (is_row id name t.group_members)) [
  | inl e ↦ rw (e, add_group_member) e
  | inr e ↦ elim (Bool-cases (exists (find_group id t.groups))) [
    | inl f ↦ rw (e, f, known, add_group_member) (is_row-append id name t.group_members)
    | inr f ↦ rw (e, f, add_group_member) e
  ]
]

add_user-new :
    (name key : String) (t : Tables)
    → find_user name t.users ≡ none
    → add_user name key t
      ≡ (ok true, record t { users = t.users ++ record { username = name; public_key = key } ∷ [] })
unfolding add_user
add_user-new name key t e = rw (e, add_user) refl

module _ (id name : String) (t : Tables) where
  joined-users : (add_group_member id name t).1.users ≡ t.users
  unfolding add_group_member
  joined-users = ground arith

  joined-pending : (add_group_member id name t).1.pending_users ≡ t.pending_users
  unfolding add_group_member
  joined-pending = ground arith

module _ (g : GroupEnv) (w : World) (tag : ReplyTag) (s : GroupServer) (r : ApproveGroupRequest)
    (h : MayApprove g w tag s r) where
  abbrev let_in : Tables
  let_in = record s.tables {
    users = s.tables.users ++ record { username = r.username; public_key = h.key } ∷ [];
  }

  abbrev settled : Tables
  settled = (remove_pending_user r.username let_in).1

  abbrev admitted : Tables
  admitted = (add_group_member g.group_id r.username settled).1

  abbrev at_tables : Tables → GroupServer
  at_tables t = record (limited g w tag "approveGroupResponse" s) { tables = t; faults = [] }

  -- What is done once the user is added.
  approve-runs :
      (kp : Option (List ℕ))
      → approve g w tag r.username kp (ok true) (at_tables let_in)
        ≡ reply g w tag "approveGroupResponse"
            (approved_text g w tag r.username kp)
            (at_tables admitted)
  unfolding approve
  approve-runs kp =
      bind-some (attempt (remove_pending_user r.username)) _ (at_tables let_in) (at_tables settled)
        tt (attempt-works (remove_pending_user r.username) (at_tables let_in) refl)
      ∙ bind-some (attempt (add_group_member g.group_id r.username)) _ (at_tables settled)
          (at_tables admitted) tt
          (attempt-works (add_group_member g.group_id r.username) (at_tables settled) refl)

  abbrev stored_package : Option (List ℕ)
  stored_package = found (get_key_package r.username s.tables).0

  handle-runs :
      s.faults ≡ []
      → handle_approve_group_core g w tag r s
        ≡ reply g w tag "approveGroupResponse"
            (approved_text g w tag r.username stored_package)
            (at_tables admitted)
  unfolding handle_approve_group_core get_pending_user get_key_package fails rest
  handle-runs healthy =
      let l : GroupServer = limited g w tag "approveGroupResponse" s in
      let t = s.tables in
      let pending = get_pending_user r.username in
      let packages = get_key_package r.username in
      let adding = add_user r.username h.key in
      bind-some (check_general_rate_limit g w tag _) _ s l tt
        (general-passes g w tag _ s h.limiter_open)
      ∙ bind-some (require g w tag _ _ _) _ l l tt (require-true g w tag _ l _ _ h.signed)
      ∙ bind-some (expect g w tag _ _ _) _ l l h.admin_key
          (expect-some g w tag _ l _ _ h.admin_key h.configured)
      ∙ bind-some (require g w tag _ _ _) _ l l tt (require-true g w tag _ l _ _ h.same_group)
      ∙ bind-some (require g w tag _ _ _) _ l l tt (require-true g w tag _ l _ _ h.fresh)
      ∙ bind-some (require g w tag _ _ _) _ l l tt (require-true g w tag _ l _ _ h.verified)
      ∙ bind-some (call pending) _ l (at_tables t) (pending t).0
          (call-Works pending l [] (rw healthy refl, rw healthy refl))
      ∙ bind-some (expect g w tag _ _ _) _ (at_tables t) (at_tables t) h.key
          (expect-some g w tag _ (at_tables t) _ _ h.key h.waits)
      ∙ bind-some (call packages) _ (at_tables t) (at_tables t) (packages t).0
          (call-Works packages (at_tables t) [] (refl, refl))
      ∙ bind-some (call adding) _ (at_tables t) (at_tables (adding t).1) (adding t).0
          (call-Works adding (at_tables t) [] (refl, refl))
      ∙ ap (λ p. approve g w tag r.username stored_package p.0 (at_tables p.1))
          (add_user-new r.username h.key t h.unknown)
      ∙ approve-runs stored_package

  -- With a healthy database, the admin's fresh approval registers a waiting user under the key of
  -- the registration, ends the waiting and reports success; it makes the user a member just if the
  -- group has its row, which only the admin's own registration creates, or the user was one.
  pub approve-admits :
      s.faults ≡ []
      → let u = (handle_approve_group_core g w tag r s).1 in
        (find_user r.username u.tables.users
          ≡ some (record { username = r.username; public_key = h.key }))
        × (find_user r.username u.tables.pending_users ≡ none)
        × (is_row g.group_id r.username u.tables.group_members ≡ (
            is_row g.group_id r.username s.tables.group_members
            || exists (find_group g.group_id s.tables.groups)))
        × (u.sent
            ≡ (send_encapsulated_reply g w tag
                (approved_text g w tag r.username stored_package)
                "approveGroupResponse"
                none
                s).sent)
  unfolding reply send_encapsulated_reply remove_pending_user
  approve-admits healthy =
      let run = handle-runs healthy in
      let new = find_user-append r.username h.key s.tables.users h.unknown in
      (
        ap (λ p. find_user r.username p.1.tables.users) run
            ∙ ap (find_user r.username) (joined-users g.group_id r.username settled)
            ∙ new,
        ap (λ p. find_user r.username p.1.tables.pending_users) run
            ∙ ap (find_user r.username) (joined-pending g.group_id r.username settled)
            ∙ find_user-keep r.username s.tables.pending_users,
        ap (λ p. is_row g.group_id r.username p.1.tables.group_members) run
            ∙ is_row-add_group_member g.group_id r.username settled (ap exists new),
        ap (λ p. p.1.sent) run,
      )
