-- ===== src/GroupServer/Accounts.antt =====
-- nymstr-group/src/message_utils.rs: registration and approval.
pub mod Expiry
pub mod Admission
use Prim.Native.String.{◌++◌}
use nymstr.Prelude.{
  ℕ, ◌^◌, String, Bool, true, false, not, List, [], ◌∷◌, Option, none, some, ltb, ◌==◌, ◌&&◌, ◌||◌,
  if◌then◌else◌, string_eq, nat_eq,
}
use nymstr.Prelude.Int.{ℤ, show_ℤ}
use nymstr.Json.{Value, str, object}
use nymstr.Common.Validation.{is_valid_username}
use nymstr.Transport.{ReplyTag}
use nymstr.Db.Tables.{Result, ok, err}
use nymstr.Server.State.{World, tag_text}
use nymstr.Server.Freshness.{age}
use nymstr.GroupServer.Text.{trim}
use nymstr.GroupServer.Tables.{
  add_user, create_group, add_group_member, add_pending_user, get_pending_user, remove_pending_user,
}
use nymstr.GroupServer.Tables.Queues.{store_key_package, get_key_package}
use nymstr.GroupServer.State.{
  GroupEnv, Handler, ◌>>=◌, ◌>>◌, pure, call, attempt, reply, refuse, require, expect, found,
  check_rate_limit, check_general_rate_limit,
}
use nymstr.GroupServer.Requests.{RegisterRequest, ApproveGroupRequest}

-- `(now - timestamp).abs() > 300`, in a release build: both operations wrap, so that the one
-- difference that has no absolute value, -2 ^ 63, stays negative.
unfoldable pub is_expired : ℕ → ℤ → Bool
unfolding age
is_expired now timestamp = ltb 300 (age now timestamp) && not (age now timestamp == 2 ^ 63)

abbrev pub register_content : RegisterRequest → String
register_content r =
    "register:" ++ r.username ++ ":" ++ r.server_address ++ ":" ++ show_ℤ r.timestamp

abbrev pub approve_content : ApproveGroupRequest → String
approve_content r = "approveGroup:" ++ r.username ++ ":" ++ r.group_id ++ ":" ++ show_ℤ r.timestamp

unfoldable pub is_admin_key : Option String → String → Bool
unfolding trim
is_admin_key none key = false
is_admin_key (some admin_key) key = trim admin_key == trim key

-- A key package that cannot be stored is only logged.
unfoldable pub store_package : String → Option (List ℕ) → String → Handler (Unit {0})
store_package username none now = pure tt
store_package username (some kp) now = attempt (store_key_package username kp now)

module _ (g : GroupEnv) (w : World) (tag : ReplyTag) where
  abbrev now : String
  now = g.env.rfc3339 w.unix

  -- The answers to a registration, after `add_user` or `add_pending_user`.
  abbrev pub registered : Result Bool → Handler (Unit {0}) → Handler (Unit {0})
  registered (ok true) next = next
  registered (ok false) next = refuse g w tag "registerResponse" "error: user already registered"
  registered err next = refuse g w tag "registerResponse" "error: registration failed"

  unfoldable pub register_admin : RegisterRequest → Handler (Unit {0})
  register_admin r = do
    added ← call (add_user r.username r.public_key)
    registered added (do
      store_package r.username r.key_package now
      attempt (create_group g.group_id g.group_id r.username true true)
      attempt (add_group_member g.group_id r.username)
      reply g w tag "registerResponse" "approved")

  unfoldable pub register_pending : RegisterRequest → Handler (Unit {0})
  register_pending r = do
    added ← call (add_pending_user r.username r.public_key)
    registered added
        (do store_package r.username r.key_package now; reply g w tag "registerResponse" "pending")

  unfoldable pub handle_register_core : RegisterRequest → Handler (Unit {0})
  handle_register_core r = do
    check_rate_limit g w tag "registerResponse" (tag_text g.env tag)
    check_rate_limit g w tag "registerResponse" ("user:" ++ r.username)
    require g w tag "registerResponse" (is_valid_username r.username)
        "error: invalid username format"
    require g w tag "registerResponse" (not (is_expired w.unix r.timestamp))
        "error: timestamp expired"
    require g w tag "registerResponse" (not (r.signature == "")) "error: missing signature"
    require g w tag "registerResponse"
        (g.env.verify_signature r.public_key (register_content r) r.signature)
        "error: bad signature"
    if is_admin_key g.admin_public_key r.public_key then register_admin r else register_pending r

  abbrev package_field : Option (List ℕ) → List (String × Value)
  package_field none = []
  package_field (some kp) = ("keyPackage", str (g.encode kp)) ∷ []

  abbrev pub approved_text : String → Option (List ℕ) → String
  approved_text username kp =
      g.env.print
        (object (("status", str "success") ∷ ("username", str username) ∷ package_field kp))

  unfoldable pub approve : String → Option (List ℕ) → Result Bool → Handler (Unit {0})
  approve username kp (ok true) = do
    attempt (remove_pending_user username)
    attempt (add_group_member g.group_id username)
    reply g w tag "approveGroupResponse" (approved_text username kp)
  approve username kp (ok false) = refuse g w tag "approveGroupResponse" "error: approve failed"
  approve username kp err = refuse g w tag "approveGroupResponse" "error: approve failed"

  unfoldable pub handle_approve_group_core : ApproveGroupRequest → Handler (Unit {0})
  handle_approve_group_core r = do
    check_general_rate_limit g w tag "approveGroupResponse"
    require g w tag "approveGroupResponse" (not (r.signature == "")) "error: missing signature"
    admin_key ←
        expect g w tag "approveGroupResponse" g.admin_public_key "error: no admin configured"
    require g w tag "approveGroupResponse" (r.group_id == g.group_id) "error: group_id mismatch"
    require g w tag "approveGroupResponse" (not (is_expired w.unix r.timestamp))
        "error: timestamp expired"
    require g w tag "approveGroupResponse"
        (g.env.verify_signature admin_key (approve_content r) r.signature)
        "error: unauthorized or bad signature"
    pending ← call (get_pending_user r.username)
    key ← expect g w tag "approveGroupResponse" (found pending) "error: user not in pending list"
    kp ← call (get_key_package r.username)
    added ← call (add_user r.username key)
    approve r.username (found kp) added
