-- ===== src/Server/Inbox.antt =====
-- nymstr-server/src/message_utils.rs: reading, draining and acknowledging the waiting messages.
pub mod Proofs
pub mod Growth
pub mod Drain
pub mod Waits
use nymstr.Prelude.{
  ℕ, ◌+◌, ◌%◌, String, Bool, true, false, not, List, [], ◌∷◌, Option, none, some, map, or_else,
  length, ◌==◌, if◌then◌else◌, nat_eq,
}
use Prim.Native.String.{◌++◌}
use nymstr.Prelude.Int.{ℤ, pos, show_ℤ}
use nymstr.Json.{Value, str, int, object, array, get_str, get_i64, get_array, texts}
use nymstr.Common.RateLimiter.{check_and_record}
use nymstr.Transport.{ReplyTag}
use nymstr.Db.Tables.{Db, User, PendingMessage, Result, ok, err, called, rest}
use nymstr.Db.Users.{get_user_by_username, after_update_user_field}
use nymstr.Db.Pending.{get_pending_messages, after_delete_for_recipient}
use nymstr.Db.KeyPackages.{cleanup_expired_key_packages}
use nymstr.Server.State.{
  Env, World, Server, queried, tag_text, send_unified_reply, send_unified_message,
}
use nymstr.Server.Delivery.{failure}
use nymstr.Server.Freshness.{is_stale}

-- The texts that a user signs to fetch, to ping and to acknowledge.
abbrev pub fetch_text : String → ℤ → String
fetch_text user timestamp = "fetchPending:" ++ user ++ ":" ++ show_ℤ timestamp

abbrev pub ping_text : String → ℤ → String
ping_text user timestamp = "ping:" ++ user ++ ":" ++ show_ℤ timestamp

-- `pending_ids.join(",")`.
unfoldable pub join : List String → String
join [] = ""
join (i ∷ []) = i
join (i ∷ j ∷ is) = i ++ "," ++ join (j ∷ is)

abbrev pub ack_text : String → ℤ → List String → String
ack_text user timestamp ids = "ack:" ++ user ++ ":" ++ show_ℤ timestamp ++ ":" ++ join ids

module _ (env : Env) (w : World) where
  respond : Server → ReplyTag → String → Value → Server
  unfolding send_unified_reply
  respond s tag user payload = send_unified_reply env w s tag payload "fetchPendingResponse" user

  -- A payload that does not parse is shown as `{}`.
  abbrev message_json : PendingMessage → Value
  message_json m = object (
      ("id", str m.id)
      ∷ ("sender", str m.sender)
      ∷ ("payload", or_else (env.parse m.payload) (object []))
      ∷ ("action", str m.action)
      ∷ ("timestamp", int (pos m.created_at))
      ∷ [])

  abbrev messages_json : List PendingMessage → Value
  messages_json ms = object (
      ("status", str "success")
      ∷ ("messages", array (map message_json ms))
      ∷ ("count", int (pos (length ms)))
      ∷ [])

  -- One call in ten or so drops the expired key packages.
  sweep : Server → Server
  sweep s =
      if w.random_byte % 10 == 0
      then record s {
        db = record (s.db) {
          key_packages = cleanup_expired_key_packages w.unix s.db;
          faults = rest s.db.faults;
        };
      }
      else s

  list_pending : Server → ReplyTag → String → Server
  unfolding respond sweep
  list_pending s tag user = elim (get_pending_messages w.unix s.db user) [
    | ok ms ↦ sweep (respond (queried s) tag user (messages_json ms))
    | err ↦ sweep (respond (queried s) tag user (failure env w "failed to fetch messages"))
  ]

  verify_fetch : Server → User → Value → ReplyTag → String → Option String → Server
  unfolding respond list_pending
  verify_fetch s u payload tag user none = respond s tag user (failure env w "missing signature")
  verify_fetch s u payload tag user (some signature) =
      if env.verify_signature u.public_key
        (fetch_text user (or_else (get_i64 "timestamp" payload) (pos 0))) signature
      then list_pending s tag user
      else respond s tag user (failure env w "invalid signature")

  pub handle_fetch_pending_unified : Server → Value → ReplyTag → String → Option String → Server
  unfolding respond verify_fetch
  handle_fetch_pending_unified s payload tag user signature =
      elim (get_user_by_username s.db user) [
        | ok (some u) ↦ verify_fetch (queried s) u payload tag user signature
        | ok none ↦ respond (queried s) tag user (failure env w "user not registered")
        | err ↦ respond (queried s) tag user (failure env w "database error")
      ]

  pong_error : Server → ReplyTag → String → String → Server
  unfolding send_unified_reply
  pong_error s tag user error =
      send_unified_reply env w s tag (object (("status", str "error") ∷ ("error", str error) ∷ []))
        "pong" user

  pong : Server → ReplyTag → String → Server
  unfolding send_unified_reply
  pong s tag user =
      send_unified_reply env w s tag
        (object (("status", str "success") ∷ ("serverTime", int (pos w.unix)) ∷ [])) "pong" user

  -- The loop of the drain: each message whose payload parses is sent …
  unfoldable pub send_all : Server → ReplyTag → String → List PendingMessage → Server
  unfolding send_unified_message
  send_all s tag user [] = s
  send_all s tag user (m ∷ ms) = elim (env.parse m.payload) [
    | none ↦ send_all s tag user ms
    | some payload ↦
        send_all (send_unified_message env w s tag payload m.action user m.sender) tag user ms
  ]

  -- … and counts as delivered, whether or not it could be signed and sent.
  unfoldable pub delivered_ids : List PendingMessage → List String
  delivered_ids [] = []
  delivered_ids (m ∷ ms) =
      let others = delivered_ids ms in
      elim (env.parse m.payload) [ none ↦ others | some payload ↦ m.id ∷ others ]

  pub drain : Server → ReplyTag → String → Server
  drain s tag user = elim (get_pending_messages w.unix s.db user) [
    | err ↦ queried s
    | ok ms ↦
        let s' = send_all (queried s) tag user ms in
        record s' { db = after_delete_for_recipient s'.db user (delivered_ids ms) }
  ]

  verify_ping : Server → User → ReplyTag → String → String → ℤ → Server
  unfolding pong pong_error drain
  verify_ping s u tag user signature timestamp =
      if env.verify_signature u.public_key (ping_text user timestamp) signature
      then drain
          (pong (record s { db = after_update_user_field s.db user "senderTag" (tag_text env tag) })
            tag user)
          tag user
      else pong_error s tag user "invalid_signature"

  pub ping_at : Server → ReplyTag → String → String → ℤ → Server
  unfolding pong_error
  ping_at s tag user signature timestamp =
      if is_stale w.unix timestamp
      then pong_error s tag user "stale_timestamp"
      else elim (get_user_by_username s.db user) [
        | ok (some u) ↦ verify_ping (queried s) u tag user signature timestamp
        | ok none ↦ pong_error (queried s) tag user "user_not_found"
        | err ↦ pong_error (queried s) tag user "internal_error"
      ]

  pub handle_ping_unified : Server → Value → ReplyTag → String → Option String → Server
  unfolding pong_error
  handle_ping_unified s payload tag user signature =
      let (allowed, limiter) = check_and_record w.instant (tag_text env tag) s.rate_limiter in
      let s' : Server = record s { rate_limiter = limiter } in
      if not allowed then pong_error s' tag user "rate_limited" else elim signature [
        | none ↦ pong_error s' tag user "missing_signature"
        | some sig ↦ elim (get_i64 "timestamp" payload) [
          | none ↦ pong_error s' tag user "missing_timestamp"
          | some timestamp ↦ ping_at s' tag user sig timestamp
        ]
      ]

  ack_error : Server → ReplyTag → String → String → Server
  unfolding send_unified_reply
  ack_error s tag user message =
      send_unified_reply env w s tag (failure env w message) "ackResponse" user

  verify_ack : Server → User → ReplyTag → String → List String → String → ℤ → Server
  unfolding ack_error
  verify_ack s u tag user ids signature timestamp =
      if env.verify_signature u.public_key (ack_text user timestamp ids) signature
      then record s { db = after_delete_for_recipient s.db user ids }
      else ack_error s tag user "invalid signature"

  ack_at : Server → ReplyTag → String → List String → String → ℤ → Server
  unfolding verify_ack ack_error
  ack_at s tag user ids signature timestamp =
      if is_stale w.unix timestamp
      then ack_error s tag user "stale timestamp"
      else elim (get_user_by_username s.db user) [
        | ok (some u) ↦ verify_ack (queried s) u tag user ids signature timestamp
        | ok none ↦ ack_error (queried s) tag user "user not registered"
        | err ↦ queried s
      ]

  ack_ids : Server → Value → ReplyTag → String → List String → Option String → Server
  unfolding ack_at ack_error
  ack_ids s payload tag user [] signature = s
  ack_ids s payload tag user (i ∷ is) none = ack_error s tag user "missing signature"
  ack_ids s payload tag user (i ∷ is) (some sig) = elim (get_i64 "timestamp" payload) [
    | none ↦ ack_error s tag user "missing timestamp"
    | some timestamp ↦ ack_at s tag user (i ∷ is) sig timestamp
  ]

  pub handle_ack_unified : Server → Value → ReplyTag → String → Option String → Server
  unfolding ack_ids
  handle_ack_unified s payload tag user signature = elim (get_array "pendingIds" payload) [
    | none ↦ s
    | some l ↦ ack_ids s payload tag user (texts l) signature
  ]
