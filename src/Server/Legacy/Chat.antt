-- ===== src/Server/Legacy/Chat.antt =====
-- nymstr-server/src/message_utils.rs: sends in the legacy message format, and its four stubs.
use nymstr.Prelude.{
  String, List, [], ◌∷◌, ◌++◌, Option, none, some, or_else, if◌then◌else◌, string_eq,
}
use nymstr.Json.{Value, null, str, object, get, get_str}
use nymstr.Transport.{ReplyTag, tag_eq, from_stored_string}
use nymstr.Db.Tables.{User, ok_or}
use nymstr.Db.Users.{get_user_by_username}
use nymstr.Server.State.{Env, World, Server, queried, send_encapsulated_reply}
use nymstr.Server.Legacy.{follow_tag}

module _ (env : Env) (w : World) where
  respond_send : Server → ReplyTag → String → Server
  unfolding send_encapsulated_reply
  respond_send s tag content =
      send_encapsulated_reply env w s tag content "sendResponse" (some "chat")

  abbrev sender_key : Value → List (String × Value)
  sender_key content = elim (get "senderPublicKey" content) [
    | none ↦ []
    | some k ↦ ("senderPublicKey", k) ∷ []
  ]

  abbrev forward_text : String → Value → String
  forward_text sender content = env.print (
      object (
        (("sender", str sender) ∷ ("body", or_else (get "body" content) null) ∷ [])
        ++ sender_key content))

  -- A stored tag that does not parse gets nothing, and the sender hears of success all the same.
  forward : Server → Option ReplyTag → String → Value → Server
  unfolding send_encapsulated_reply
  forward s none sender content = s
  forward s (some to) sender content =
      send_encapsulated_reply env w s to (forward_text sender content) "incomingMessage"
        (some "chat")

  unfoldable pub route_message_to_recipient : Server → String → String → Value → ReplyTag → Server
  unfolding respond_send forward
  route_message_to_recipient s sender recipient content tag =
      elim (ok_or (get_user_by_username s.db recipient) none) [
        | none ↦ respond_send (queried s) tag "error: recipient not found"
        | some u ↦
            respond_send
              (forward (queried s) (from_stored_string env.try_from_base58 u.sender_tag) sender
                content)
              tag "success"
      ]

  -- The two lookups of `extract_usernames`.
  unfoldable pub extract_usernames : Value → Option (String × String)
  extract_usernames content = elim (get_str "sender" content) [
    | none ↦ none
    | some sender ↦ elim (get_str "recipient" content) [
      | none ↦ none
      | some recipient ↦ some (sender, recipient)
    ]
  ]

  unfoldable pub verify_content :
      Server → Option User → ReplyTag → String → String → String → String → Value → Server
  unfolding respond_send follow_tag route_message_to_recipient
  verify_content s none tag text signature sender recipient content =
      respond_send s tag "error: unrecognized sender username"
  verify_content s (some u) tag text signature sender recipient content =
      if env.verify_signature u.public_key text signature
      then route_message_to_recipient (follow_tag env w s (some u) tag sender) sender recipient
          content tag
      else respond_send s tag "error: invalid signature"

  -- The request parsed.
  unfoldable pub send_parsed : Server → ReplyTag → String → String → Value → Server
  unfolding respond_send
  send_parsed s tag text signature content = elim (extract_usernames content) [
    | none ↦ respond_send s tag "error: missing 'sender' or 'recipient' field"
    | some (sender, recipient) ↦
        verify_content (queried s) (ok_or (get_user_by_username s.db sender) none) tag text
          signature sender recipient content
  ]

  -- `validate_send_request` is the two lookups and the parse.
  unfoldable pub handle_send : Server → Value → ReplyTag → Server
  unfolding respond_send
  handle_send s v tag = elim (get_str "content" v) [
    | none ↦ respond_send s tag "error: missing 'content' or 'signature'"
    | some text ↦ elim (get_str "signature" v) [
      | none ↦ respond_send s tag "error: missing 'content' or 'signature'"
      | some signature ↦ elim (env.parse text) [
        | none ↦ respond_send s tag "error: invalid JSON in content"
        | some content ↦ send_parsed s tag text signature content
      ]
    ]
  ]

  -- The four handlers that are stubs in the source.
  unimplemented : Server → ReplyTag → String → Server
  unfolding send_encapsulated_reply
  unimplemented s tag action =
      send_encapsulated_reply env w s tag "error: unimplemented" action none

  unfoldable pub handle_create_group : Server → ReplyTag → Server
  unfolding unimplemented
  handle_create_group s tag = unimplemented s tag "createGroupResponse"

  unfoldable pub handle_send_group : Server → ReplyTag → Server
  unfolding unimplemented
  handle_send_group s tag = unimplemented s tag "sendGroupResponse"

  unfoldable pub handle_send_invite : Server → ReplyTag → Server
  unfolding unimplemented
  handle_send_invite s tag = unimplemented s tag "inviteGroupResponse"

  unfoldable pub handle_update : Server → ReplyTag → Server
  unfolding unimplemented
  handle_update s tag = unimplemented s tag "updateResponse"
