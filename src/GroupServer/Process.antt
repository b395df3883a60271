-- ===== src/GroupServer/Process.antt =====
-- nymstr-group/src/message_utils.rs: `process_message`.
use nymstr.Prelude.{ℕ, String, List, Option, none, some, or_else, ◌==◌, if◌then◌else◌, string_eq}
use nymstr.Json.{Value, null, get, get_str}
use nymstr.Common.RateLimiter.{cleanup}
use nymstr.Transport.{ReplyTag}
use nymstr.Server.State.{World}
use nymstr.GroupServer.Tables.Queues.{cleanup_old_message_hashes}
use nymstr.GroupServer.State.{GroupEnv, GroupServer, Handler, ◌>>=◌, pure, expect, attempt}
use nymstr.GroupServer.Requests.{
  register_from_legacy, register_from_unified, approve_from_legacy, approve_from_unified,
  send_from_legacy, send_from_unified, fetch_from_legacy, fetch_from_unified,
}
use nymstr.GroupServer.Accounts.{handle_register_core, handle_approve_group_core}
use nymstr.GroupServer.Messages.{handle_send_group_core, handle_fetch_group_core}
use nymstr.GroupServer.Welcomes.{handle_store_welcome, handle_fetch_welcome}
use nymstr.GroupServer.Commits.{handle_sync_epoch, handle_buffer_commit}

pub data Action : Type 0 where
  register approve_group send_group fetch_group : Action
  -- Of the unified format alone.
  store_welcome fetch_welcome sync_epoch buffer_commit : Action

unfoldable pub unified_action : String → Option Action
unified_action a =
    if a == "register"
    then some register
    else if a == "approveGroup"
    then some approve_group
    else if a == "sendGroup"
    then some send_group
    else if a == "fetchGroup"
    then some fetch_group
    else if a == "storeWelcome"
    then some store_welcome
    else if a == "fetchWelcome"
    then some fetch_welcome
    else if a == "syncEpoch"
    then some sync_epoch
    else if a == "bufferCommit"
    then some buffer_commit
    else none

unfoldable pub legacy_action : String → Option Action
legacy_action a =
    if a == "register"
    then some register
    else if a == "approveGroup"
    then some approve_group
    else if a == "sendGroup"
    then some send_group
    else if a == "fetchGroup"
    then some fetch_group
    else none

-- The fields of a unified message.
pub record Envelope : Type 0 where
  pub payload : Value
  pub sender : String
  pub signature : String

unfoldable pub envelope_of : Value → Envelope
envelope_of v = record {
  payload = or_else (get "payload" v) null;
  sender = or_else (get_str "sender" v) "unknown";
  signature = or_else (get_str "signature" v) "";
}

module _ (g : GroupEnv) (w : World) (tag : ReplyTag) where
  unfoldable pub dispatch_unified : Envelope → Action → Handler (Unit {0})
  dispatch_unified m register = do
    r ←
        expect g w tag "registerResponse"
          (register_from_unified g.decode m.payload m.sender m.signature)
          "error: missing required fields"
    handle_register_core g w tag r
  dispatch_unified m approve_group = do
    r ←
        expect g w tag "approveGroupResponse" (approve_from_unified m.payload m.signature)
          "error: missing required fields"
    handle_approve_group_core g w tag r
  dispatch_unified m send_group = do
    r ←
        expect g w tag "sendGroupResponse" (send_from_unified m.payload m.sender m.signature)
          "error: missing ciphertext"
    handle_send_group_core g w tag r
  dispatch_unified m fetch_group = do
    r ←
        expect g w tag "fetchGroupResponse" (fetch_from_unified m.payload m.sender m.signature)
          "error: missing credentials"
    handle_fetch_group_core g w tag r
  dispatch_unified m store_welcome = handle_store_welcome g w tag m.payload m.sender m.signature
  dispatch_unified m fetch_welcome = handle_fetch_welcome g w tag m.payload m.sender m.signature
  dispatch_unified m sync_epoch = handle_sync_epoch g w tag m.payload m.sender m.signature
  dispatch_unified m buffer_commit = handle_buffer_commit g w tag m.payload m.sender m.signature

  unfoldable pub dispatch_legacy : Value → Action → Handler (Unit {0})
  dispatch_legacy v register = do
    r ←
        expect g w tag "registerResponse" (register_from_legacy g.decode v)
          "error: missing required fields"
    handle_register_core g w tag r
  dispatch_legacy v approve_group = do
    r ←
        expect g w tag "approveGroupResponse" (approve_from_legacy v)
          "error: unauthorized or bad signature"
    handle_approve_group_core g w tag r
  dispatch_legacy v send_group = do
    r ←
        expect g w tag "sendGroupResponse" (send_from_legacy v)
          "error: missing ciphertext or credentials"
    handle_send_group_core g w tag r
  dispatch_legacy v fetch_group = do
    r ← expect g w tag "fetchGroupResponse" (fetch_from_legacy v) "error: missing credentials"
    handle_fetch_group_core g w tag r
  dispatch_legacy v _ = pure tt

  -- A message with a `type` is of the unified format.
  unfoldable pub process_value : Value → Handler (Unit {0})
  process_value v = elim (get_str "type" v) [
    | some kind ↦ elim (get_str "action" v) [
      | none ↦ pure tt
      | some a ↦ elim (unified_action a) [
        | none ↦ pure tt
        | some action ↦ dispatch_unified (envelope_of v) action
      ]
    ]
    | none ↦ elim (get_str "action" v) [
      | none ↦ pure tt
      | some a ↦ elim (legacy_action a) [ none ↦ pure tt | some action ↦ dispatch_legacy v action ]
    ]
  ]

module _ (g : GroupEnv) (w : World) where
  -- Both limiters are cleaned, and hashes older than ten minutes deleted.
  unfoldable pub tidy : GroupServer → GroupServer
  unfolding attempt
  tidy s =
      (attempt (cleanup_old_message_hashes 600 w.unix) (record s {
        rate_limiter = cleanup s.rate_limiter;
        rate_limiter_general = cleanup s.rate_limiter_general;
      })).1

  unfoldable pub process_message : Option ReplyTag → List ℕ → GroupServer → GroupServer
  unfolding tidy
  process_message tag raw_bytes s = elim tag [
    | none ↦ tidy s
    | some t ↦ elim (g.env.decode_utf8 raw_bytes) [
      | none ↦ tidy s
      | some raw ↦ elim (g.env.parse raw) [
        | none ↦ tidy s
        | some v ↦ (process_value g w t v (tidy s)).1
      ]
    ]
  ]
