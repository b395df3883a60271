-- ===== src/GroupServer/Welcomes.antt =====
-- nymstr-group/src/message_utils.rs: `storeWelcome` and `fetchWelcome`.
pub mod HandOver
use Prim.Native.String.{◌++◌, len}
use nymstr.Prelude.{
  ℕ, String, Bool, true, false, not, List, [], ◌∷◌, Option, none, some, map, length, ltb, leb, ◌==◌,
  if◌then◌else◌, string_eq,
}
use nymstr.Json.{Value, str, object, array, get_str}
use nymstr.Common.Validation.{is_valid_username, is_valid_group_id}
use nymstr.Transport.{ReplyTag}
use nymstr.Db.Tables.{Result, ok, err}
use nymstr.Server.State.{World}
use nymstr.GroupServer.Text.{trim}
use nymstr.GroupServer.Tables.{Welcome, get_user_by_username}
use nymstr.GroupServer.Tables.Queues.{
  store_welcome, get_welcome, get_pending_welcomes, remove_welcome, count_pending_welcomes_for_user,
}
use nymstr.GroupServer.State.{
  GroupEnv, Handler, ◌>>=◌, ◌>>◌, pure, call, attempt, reply, refuse, require, expect, found,
  check_general_rate_limit, authenticate_request_core,
}

abbrev pub max_welcome_b64_len : ℕ
max_welcome_b64_len = 174763

abbrev pub max_welcome_decoded_size : ℕ
max_welcome_decoded_size = 131072

abbrev pub max_welcomes_per_user : ℕ
max_welcomes_per_user = 20

-- `Some(t) if p(t)`.
unfoldable pub checked : (String → Bool) → Option String → Option String
checked p none = none
checked p (some t) = if p t then some t else none

abbrev pub is_present : String → Bool
is_present t = not (t == "")

module _ (g : GroupEnv) (w : World) (tag : ReplyTag) where
  -- Only where an admin is configured.
  unfoldable pub check_admin : Option String → String → Handler (Unit {0})
  check_admin none sender = pure tt
  check_admin (some admin_key) sender = do
    r ← call (get_user_by_username sender)
    u ← expect g w tag "storeWelcomeResponse" (found r) "error: sender not found"
    require g w tag "storeWelcomeResponse" (trim u.public_key == trim admin_key)
        "error: only admin can store welcome messages"

  unfoldable pub check_quota : Result ℕ → Handler (Unit {0})
  check_quota (ok count) =
      require g w tag "storeWelcomeResponse" (ltb count max_welcomes_per_user)
        "error: too many pending welcomes for this user"
  check_quota err = refuse g w tag "storeWelcomeResponse" "error: internal error"

  unfoldable pub welcome_stored : Result Bool → Handler (Unit {0})
  welcome_stored (ok true) =
      reply g w tag "storeWelcomeResponse" (g.env.print (object (("status", str "success") ∷ [])))
  welcome_stored (ok false) = reply g w tag "storeWelcomeResponse" "error: failed to store welcome"
  welcome_stored err = reply g w tag "storeWelcomeResponse" "error: failed to store welcome"

  unfoldable pub handle_store_welcome : Value → String → String → Handler (Unit {0})
  handle_store_welcome payload sender signature = do
    check_general_rate_limit g w tag "storeWelcomeResponse"
    group_id ←
        expect g w tag "storeWelcomeResponse"
          (checked is_valid_group_id (get_str "groupId" payload))
          "error: missing or invalid groupId"
    target ←
        expect g w tag "storeWelcomeResponse"
          (checked is_valid_username (get_str "targetUsername" payload))
          "error: missing or invalid targetUsername"
    welcome_b64 ←
        expect g w tag "storeWelcomeResponse" (checked is_present (get_str "welcome" payload))
          "error: missing welcome"
    require g w tag "storeWelcomeResponse" (leb (len welcome_b64) max_welcome_b64_len)
        "error: welcome message too large"
    welcome ←
        expect g w tag "storeWelcomeResponse" (g.decode welcome_b64) "error: invalid base64 welcome"
    require g w tag "storeWelcomeResponse" (leb (length welcome) max_welcome_decoded_size)
        "error: welcome message too large"
    user ←
        authenticate_request_core g w tag "storeWelcomeResponse" sender signature
          (group_id ++ ":" ++ target)
    check_admin g.admin_public_key sender
    count ← call (count_pending_welcomes_for_user target)
    check_quota count
    done ← call (store_welcome target group_id welcome (g.env.rfc3339 w.unix))
    welcome_stored done

  abbrev pub welcome_json : String → List ℕ → Value
  welcome_json group_id welcome =
      object (("groupId", str group_id) ∷ ("welcome", str (g.encode welcome)) ∷ [])

  unfoldable pub welcomes_text : List Value → String
  welcomes_text l = g.env.print (object (("welcomes", array l) ∷ []))

  unfoldable pub remove_all : String → List Welcome → Handler (Unit {0})
  remove_all username [] = pure tt
  remove_all username (x ∷ l) =
      attempt (remove_welcome username x.group_id) >> remove_all username l

  unfoldable pub fetch_one : String → String → Result (Option (List ℕ)) → Handler (Unit {0})
  fetch_one username group_id (ok (some welcome)) = do
    attempt (remove_welcome username group_id)
    reply g w tag "fetchWelcomeResponse" (welcomes_text (welcome_json group_id welcome ∷ []))
  fetch_one username group_id (ok none) = reply g w tag "fetchWelcomeResponse" (welcomes_text [])
  fetch_one username group_id err =
      reply g w tag "fetchWelcomeResponse" "error: failed to fetch welcome"

  -- The welcomes are removed before the reply is signed and sent.
  unfoldable pub fetch_all : String → Result (List Welcome) → Handler (Unit {0})
  fetch_all username (ok l) = do
    remove_all username l
    reply g w tag "fetchWelcomeResponse"
        (welcomes_text (map (λ x. welcome_json x.group_id x.welcome) l))
  fetch_all username err = reply g w tag "fetchWelcomeResponse" "error: failed to fetch welcomes"

  unfoldable pub deliver : String → Option String → Handler (Unit {0})
  deliver username none = do l ← call (get_pending_welcomes username); fetch_all username l
  deliver username (some group_id) = do
    r ← call (get_welcome username group_id)
    fetch_one username group_id r

  unfoldable pub handle_fetch_welcome : Value → String → String → Handler (Unit {0})
  handle_fetch_welcome payload sender signature = do
    check_general_rate_limit g w tag "fetchWelcomeResponse"
    user ←
        authenticate_request_core g w tag "fetchWelcomeResponse" sender signature
          ("fetchWelcome:" ++ sender)
    deliver sender (get_str "groupId" payload)
