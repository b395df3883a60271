-- ===== src/GroupServer/Messages.antt =====
-- nymstr-group/src/message_utils.rs: the log of messages, `sendGroup` and `fetchGroup`.
use Prim.Native.String.{◌++◌}
use nymstr.Prelude.{
  ℕ, String, Bool, true, false, not, List, [], ◌∷◌, map, ◌==◌, if◌then◌else◌, string_eq,
}
use nymstr.Prelude.Int.{pos, show_ℤ}
use nymstr.Json.{Value, str, int, object, array}
use nymstr.Transport.{ReplyTag}
use nymstr.Db.Tables.{Result, ok, err}
use nymstr.Server.State.{World}
use nymstr.GroupServer.Text.{hex}
use nymstr.GroupServer.Tables.{Message}
use nymstr.GroupServer.Tables.Queues.{
  store_message, get_messages_since, check_and_store_message_hash,
}
use nymstr.GroupServer.State.{
  GroupEnv, Handler, ◌>>=◌, ◌>>◌, pure, call, reply, refuse, require, check_general_rate_limit,
  authenticate_request_core, authorize_member,
}
use nymstr.GroupServer.Requests.{SendGroupRequest, FetchGroupRequest}

module _ (g : GroupEnv) where
  -- The digest of "{sender}:{ciphertext}".
  unfoldable pub dedup_hash : String → String → String
  unfolding hex
  dedup_hash username ciphertext = hex (g.env.sha256 (username ++ ":" ++ ciphertext))

  unfoldable pub message_json : Message → Value
  message_json m = object (
      ("id", int (pos m.id))
      ∷ ("sender", str m.sender)
      ∷ ("ciphertext", str m.ciphertext)
      ∷ ("timestamp", str m.timestamp)
      ∷ [])

  unfoldable pub messages_text : List Message → String
  messages_text l = g.env.print (object (("messages", array (map message_json l)) ∷ []))

  abbrev pub stored_text : ℕ → String
  stored_text id =
      g.env.print (object (("status", str "success") ∷ ("messageId", int (pos id)) ∷ []))

  abbrev pub duplicate_text : String
  duplicate_text =
      g.env.print (object (("status", str "error") ∷ ("message", str "duplicate message") ∷ []))

  module _ (w : World) (tag : ReplyTag) where
    -- A message is let through also where its hash cannot be checked.
    unfoldable pub unless_duplicate : Result Bool → Handler (Unit {0})
    unless_duplicate (ok true) = pure tt
    unless_duplicate (ok false) = refuse g w tag "sendGroupResponse" duplicate_text
    unless_duplicate err = pure tt

    unfoldable pub check_duplicate : String → Handler (Unit {0})
    check_duplicate hash_hex =
        if not (hash_hex == "")
        then (do r ← call (check_and_store_message_hash hash_hex w.unix); unless_duplicate r)
        else pure tt

    unfoldable pub stored : Result ℕ → Handler (Unit {0})
    stored (ok id) = reply g w tag "sendGroupResponse" (stored_text id)
    stored err = reply g w tag "sendGroupResponse" "error: failed to store message"

    unfoldable pub handle_send_group_core : SendGroupRequest → Handler (Unit {0})
    handle_send_group_core r = do
      check_general_rate_limit g w tag "sendGroupResponse"
      require g w tag "sendGroupResponse" (not (r.ciphertext == "")) "error: missing ciphertext"
      username ←
          authenticate_request_core g w tag "sendGroupResponse" r.username r.signature r.ciphertext
      authorize_member g w tag "sendGroupResponse" username
      check_duplicate (dedup_hash username r.ciphertext)
      id ← call (store_message username r.ciphertext (g.env.rfc3339 w.unix))
      stored id

    unfoldable pub fetched : Result (List Message) → Handler (Unit {0})
    fetched (ok l) = reply g w tag "fetchGroupResponse" (messages_text l)
    fetched err = reply g w tag "fetchGroupResponse" "error: failed to fetch messages"

    unfoldable pub handle_fetch_group_core : FetchGroupRequest → Handler (Unit {0})
    handle_fetch_group_core r = do
      check_general_rate_limit g w tag "fetchGroupResponse"
      username ←
          authenticate_request_core g w tag "fetchGroupResponse" r.username r.signature
            (show_ℤ r.last_seen_id)
      authorize_member g w tag "fetchGroupResponse" username
      l ← call (get_messages_since r.last_seen_id)
      fetched l
