-- ===== src/Server/Delivery.antt =====
-- nymstr-server/src/message_utils.rs: relaying of messages, by a reply block (SURB) or the queue.
pub mod Relay
pub mod Unsigned
pub mod Guards
pub mod Growth
pub mod Packages
use nymstr.Prelude.{
  String, Bool, true, false, not, List, [], ◌∷◌, Option, none, some, ◌==◌, if◌then◌else◌, string_eq,
}
use Prim.Native.String.{◌++◌}
use nymstr.Json.{Value, str, object, get_str}
use nymstr.Common.RateLimiter.{check_and_record}
use nymstr.Transport.{ReplyTag}
use nymstr.Db.Tables.{User, Result, ok, err, ok_or}
use nymstr.Db.Users.{get_user_by_username}
use nymstr.Db.Pending.{new_message, queue_pending_message, after_queue}
use nymstr.Server.State.{
  Env, World, Server, queried, tag_text, get_user_sender_tag, has_surbs_for_tag, send_envelope,
  send_unified_reply, send_unified_message,
}

module _ (env : Env) (w : World) where
  -- `{"status": "error", "message": …}`.
  abbrev pub failure : String → Value
  failure message = object (("status", str "error") ∷ ("message", str message) ∷ [])

  abbrev pub sent_json : String → String → Value
  sent_json recipient message =
      object (("status", str "sent") ∷ ("recipient", str recipient) ∷ ("message", str message) ∷ [])

  -- The recipient's tag, if a message can go out to it now.
  unfoldable pub reachable : Server → String → Option ReplyTag
  reachable s recipient = elim (get_user_sender_tag env s recipient) [
    | none ↦ none
    | some tag ↦ if has_surbs_for_tag env w tag then some tag else none
  ]

  -- The id of the queued message; the texts of its errors are put in where they are sent.
  unfoldable pub queue : Server → String → String → Value → String → Result String × Server
  queue s recipient sender payload action =
      let m = new_message w.unix w.uuid recipient sender (env.print payload) action in
      (queue_pending_message s.db m, record s { db = after_queue s.db m })

  -- `Ok("surb_delivered")` on delivery, whatever became of the sending.
  unfoldable pub relay_with_persistence :
      Server → String → String → Value → String → Result String × Server
  unfolding reachable queue send_unified_message
  relay_with_persistence s recipient sender payload action = elim (reachable s recipient) [
    | some tag ↦ (
      ok "surb_delivered",
      send_unified_message env w (queried s) tag payload action recipient sender,
    )
    | none ↦ queue (queried s) recipient sender payload action
  ]

  unfoldable pub relay_sealed_with_persistence : Server → String → Value → Result String × Server
  unfolding reachable queue send_envelope
  relay_sealed_with_persistence s recipient payload = elim (reachable s recipient) [
    | some tag ↦ (
      ok "surb_delivered",
      send_envelope env w (queried s) tag "sealed" "send" "__sealed__" recipient payload,
    )
    | none ↦ queue (queried s) recipient "__sealed__" payload "send"
  ]

  respond : Server → ReplyTag → String → Value → Server
  unfolding send_unified_reply
  respond s tag user payload = send_unified_reply env w s tag payload "sendResponse" user

  -- A recipient that is missing or empty is refused.
  unfoldable pub named : Option String → Option String
  named none = none
  named (some r) = if r == "" then none else some r

  relayed : Result String × Server → ReplyTag → String → String → String → Server
  unfolding respond
  relayed (ok id, s) tag user recipient message = respond s tag user (sent_json recipient message)
  relayed (err, s) tag user recipient message =
      respond s tag user (failure "failed to queue message")

  -- The signature was good.
  route_verified : Server → Value → ReplyTag → String → Option String → Server
  unfolding relayed respond named
  route_verified s payload tag sender recipient = elim (get_str "conversation_id" payload) [
    | none ↦ respond s tag sender (failure "missing conversation_id or mls_message")
    | some conversation_id ↦ elim (get_str "mls_message" payload) [
      | none ↦ respond s tag sender (failure "missing conversation_id or mls_message")
      | some mls_message ↦ elim (named recipient) [
        | none ↦ respond s tag sender (failure "missing recipient field")
        | some r ↦ elim (ok_or (get_user_by_username s.db r) none) [
          | none ↦ respond (queried s) tag sender (failure "recipient not found")
          | some u ↦
              relayed (relay_with_persistence (queried s) r sender payload "send") tag sender r
                "Message accepted for delivery"
        ]
      ]
    ]
  ]

  verify_send : Server → User → Value → ReplyTag → String → Option String → Option String → Server
  unfolding route_verified respond
  verify_send s u payload tag sender recipient none =
      respond s tag sender (failure "missing signature")
  verify_send s u payload tag sender recipient (some signature) =
      if env.verify_signature u.public_key (env.print payload) signature
      then route_verified s payload tag sender recipient
      else respond s tag sender (failure "invalid signature")

  pub handle_send_unified :
      Server → Value → ReplyTag → String → Option String → Option String → Server
  unfolding respond
  handle_send_unified s payload tag sender recipient signature =
      let (allowed, limiter) = check_and_record w.instant (tag_text env tag) s.send_rate_limiter in
      let s' : Server = record s { send_rate_limiter = limiter } in
      if not allowed
      then respond s' tag sender (failure "rate limit exceeded, please try again later")
      else elim (get_user_by_username s'.db sender) [
        | ok (some u) ↦ verify_send (queried s') u payload tag sender recipient signature
        | ok none ↦ respond (queried s') tag sender (failure "sender not registered")
        | err ↦ respond (queried s') tag sender (failure "database error")
      ]

  route_sealed : Server → String → ReplyTag → Option String → Server
  unfolding relayed respond named
  route_sealed s sealed tag recipient = elim (named recipient) [
    | none ↦ respond s tag "__sealed__" (failure "missing recipient field")
    | some r ↦ elim (ok_or (get_user_by_username s.db r) none) [
      | none ↦ respond (queried s) tag "__sealed__" (failure "recipient not found")
      | some u ↦
          relayed
            (relay_sealed_with_persistence (queried s) r
              (object (("sealed_payload", str sealed) ∷ [])))
            tag "__sealed__" r "Sealed message accepted for delivery"
    ]
  ]

  pub handle_sealed_send : Server → Value → ReplyTag → Option String → Server
  unfolding route_sealed respond
  handle_sealed_send s payload tag recipient =
      let (allowed, limiter) = check_and_record w.instant (tag_text env tag) s.send_rate_limiter in
      let s' : Server = record s { send_rate_limiter = limiter } in
      if not allowed
      then respond s' tag "__sealed__" (failure "rate limit exceeded, please try again later")
      else elim (get_str "sealed_payload" payload) [
        | none ↦ respond s' tag "__sealed__" (failure "missing sealed_payload")
        | some sealed ↦ route_sealed s' sealed tag recipient
      ]

  -- The three relays between clients: `keyPackageRequest`, `keyPackageResponse`, `groupJoinResponse`.
  relay_or_report : Server → Value → ReplyTag → String → String → String → String → String → Server
  unfolding send_unified_reply
  relay_or_report s payload tag sender recipient action reply_action what =
      let (result, s') = relay_with_persistence s recipient sender payload action in
      elim result [
        | ok id ↦ s'
        | err ↦
            send_unified_reply env w s' tag
              (failure (
                "Failed to relay " ++ what ++ ": " ++ "Failed to queue pending message: "
                ++ w.db_error))
              reply_action sender
      ]

  pub handle_key_package_request_unified :
      Server → Value → ReplyTag → String → Option String → Server
  unfolding relay_or_report send_unified_reply
  handle_key_package_request_unified s payload tag sender none =
      send_unified_reply env w s tag (failure "Missing recipient field") "keyPackageResponse" sender
  handle_key_package_request_unified s payload tag sender (some recipient) =
      relay_or_report s payload tag sender recipient "keyPackageRequest" "keyPackageResponse"
        "key package request"

  pub handle_key_package_response_unified :
      Server → Value → ReplyTag → String → Option String → Server
  unfolding relay_or_report
  handle_key_package_response_unified s payload tag sender none = s
  handle_key_package_response_unified s payload tag sender (some recipient) =
      relay_or_report s payload tag sender recipient "keyPackageResponse" "keyPackageResponse"
        "key package response"

  pub handle_group_join_response_unified :
      Server → Value → ReplyTag → String → Option String → Server
  unfolding relay_or_report
  handle_group_join_response_unified s payload tag sender none = s
  handle_group_join_response_unified s payload tag sender (some recipient) =
      relay_or_report s payload tag sender recipient "groupJoinResponse" "groupJoinResponse"
        "group join response"
