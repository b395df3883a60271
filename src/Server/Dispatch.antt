-- ===== src/Server/Dispatch.antt =====
-- nymstr-server/src/message_utils.rs: `process_message`.
pub mod Cases
pub mod Accountable
pub mod Invariant
pub mod Queueing
pub mod Waiting
use nymstr.Prelude.{ℕ, String, List, Option, none, some, or_else, ◌==◌, if◌then◌else◌, string_eq}
use nymstr.Json.{Value, null, get, get_str}
use nymstr.Transport.{ReplyTag}
use nymstr.Server.State.{Env, World, Server, cleanup_stale_entries}
use nymstr.Server.Accounts
use nymstr.Server.Registry
use nymstr.Server.Delivery
use nymstr.Server.Inbox
use nymstr.Server.KeyExchange
use nymstr.Server.Legacy
use nymstr.Server.Legacy.Chat

pub data Action : Type 0 where
  query register registration_response login login_response send fetch_pending : Action
  key_package_request key_package_response group_join_response ping ack : Action
  publish_key_package fetch_kp_challenge fetch_key_package : Action
  -- Of the legacy format alone.
  update send_group create_group invite_group : Action
  register_group register_group_response query_groups : Action

-- The arms of the match on the unified format's action.
unfoldable pub unified_action : String → Option Action
unified_action a =
    if a == "query"
    then some query
    else if a == "register"
    then some register
    else if a == "registrationResponse"
    then some registration_response
    else if a == "login"
    then some login
    else if a == "loginResponse"
    then some login_response
    else if a == "send"
    then some send
    else if a == "fetchPending"
    then some fetch_pending
    else if a == "keyPackageRequest"
    then some key_package_request
    else if a == "keyPackageResponse"
    then some key_package_response
    else if a == "groupJoinResponse"
    then some group_join_response
    else if a == "ping"
    then some ping
    else if a == "ack"
    then some ack
    else if a == "publishKeyPackage"
    then some publish_key_package
    else if a == "fetchKeyPackageChallenge"
    then some fetch_kp_challenge
    else if a == "fetchKeyPackage"
    then some fetch_key_package
    else none

unfoldable pub legacy_action : String → Option Action
legacy_action a =
    if a == "query"
    then some query
    else if a == "register"
    then some register
    else if a == "registrationResponse"
    then some registration_response
    else if a == "login"
    then some login
    else if a == "loginResponse"
    then some login_response
    else if a == "update"
    then some update
    else if a == "send"
    then some send
    else if a == "sendGroup"
    then some send_group
    else if a == "createGroup"
    then some create_group
    else if a == "inviteGroup"
    then some invite_group
    else if a == "registerGroup"
    then some register_group
    else if a == "registerGroupResponse"
    then some register_group_response
    else if a == "queryGroups"
    then some query_groups
    else none

-- The fields of a unified message that the handlers take.
pub record Envelope : Type 0 where
  pub kind : String
  pub payload : Value
  pub sender : String
  pub recipient : Option String
  pub signature : Option String

unfoldable pub envelope_of : String → Value → Envelope
envelope_of kind v = record {
  kind = kind;
  payload = or_else (get "payload" v) null;
  sender = or_else (get_str "sender" v) "unknown";
  recipient = get_str "recipient" v;
  signature = get_str "signature" v;
}

module _ (env : Env) (w : World) where
  unfoldable pub dispatch_unified : Server → ReplyTag → Envelope → Action → Server
  dispatch_unified s tag m query = Registry.handle_query_unified env w s m.payload tag m.sender
  dispatch_unified s tag m register =
      Accounts.handle_register_unified env w s m.payload tag m.sender
  dispatch_unified s tag m registration_response =
      Accounts.handle_registration_response_unified env w s tag m.signature
  dispatch_unified s tag m login = Accounts.handle_login_unified env w s m.payload tag m.sender
  dispatch_unified s tag m login_response =
      Accounts.handle_login_response_unified env w s tag m.signature
  dispatch_unified s tag m send =
      if m.kind == "sealed"
      then Delivery.handle_sealed_send env w s m.payload tag m.recipient
      else Delivery.handle_send_unified env w s m.payload tag m.sender m.recipient m.signature
  dispatch_unified s tag m fetch_pending =
      Inbox.handle_fetch_pending_unified env w s m.payload tag m.sender m.signature
  dispatch_unified s tag m key_package_request =
      Delivery.handle_key_package_request_unified env w s m.payload tag m.sender m.recipient
  dispatch_unified s tag m key_package_response =
      Delivery.handle_key_package_response_unified env w s m.payload tag m.sender m.recipient
  dispatch_unified s tag m group_join_response =
      Delivery.handle_group_join_response_unified env w s m.payload tag m.sender m.recipient
  dispatch_unified s tag m ping =
      Inbox.handle_ping_unified env w s m.payload tag m.sender m.signature
  dispatch_unified s tag m ack = Inbox.handle_ack_unified env w s m.payload tag m.sender m.signature
  dispatch_unified s tag m publish_key_package =
      KeyExchange.handle_publish_key_package env w s m.payload tag m.sender m.signature
  dispatch_unified s tag m fetch_kp_challenge =
      KeyExchange.handle_fetch_kp_challenge env w s m.payload tag
  dispatch_unified s tag m fetch_key_package =
      KeyExchange.handle_fetch_key_package env w s m.payload tag
  dispatch_unified s tag m _ = s

  unfoldable pub dispatch_legacy : Server → ReplyTag → Value → Action → Server
  dispatch_legacy s tag v query = Registry.handle_query env w s v tag
  dispatch_legacy s tag v register = Legacy.handle_register env w s v tag
  dispatch_legacy s tag v registration_response = Legacy.handle_registration_response env w s v tag
  dispatch_legacy s tag v login = Legacy.handle_login env w s v tag
  dispatch_legacy s tag v login_response = Legacy.handle_login_response env w s v tag
  dispatch_legacy s tag v update = Chat.handle_update env w s tag
  dispatch_legacy s tag v send = Chat.handle_send env w s v tag
  dispatch_legacy s tag v send_group = Chat.handle_send_group env w s tag
  dispatch_legacy s tag v create_group = Chat.handle_create_group env w s tag
  dispatch_legacy s tag v invite_group = Chat.handle_send_invite env w s tag
  dispatch_legacy s tag v register_group = Registry.handle_register_group env w s v tag
  dispatch_legacy s tag v register_group_response =
      Registry.handle_register_group_response env w s v tag
  dispatch_legacy s tag v query_groups = Registry.handle_query_groups env w s v tag
  dispatch_legacy s tag v _ = s

  -- A message with a `type` is of the unified format.
  unfoldable pub process_value : Server → ReplyTag → Value → Server
  process_value s tag v = elim (get_str "type" v) [
    | some kind ↦ elim (get_str "action" v) [
      | none ↦ s
      | some a ↦ elim (unified_action a) [
        | none ↦ s
        | some action ↦ dispatch_unified s tag (envelope_of kind v) action
      ]
    ]
    | none ↦ elim (get_str "action" v) [
      | none ↦ s
      | some a ↦ elim (legacy_action a) [ none ↦ s | some action ↦ dispatch_legacy s tag v action ]
    ]
  ]

  -- Stale entries go first; a message with no tag, no UTF-8 or no JSON is dropped.
  unfoldable pub process_message : Server → Option ReplyTag → List ℕ → Server
  process_message s tag raw_bytes =
      let s' = cleanup_stale_entries w.instant s in
      elim tag [
        | none ↦ s'
        | some t ↦ elim (env.decode_utf8 raw_bytes) [
          | none ↦ s'
          | some raw ↦ elim (env.parse raw) [ none ↦ s' | some v ↦ process_value s' t v ]
        ]
      ]
