-- ===== src/Server/Accounts.antt =====
-- nymstr-server/src/message_utils.rs: registration and login in the unified format.
pub mod Proofs
pub mod Logins
pub mod Growth
pub mod Flow
use nymstr.Prelude.{
  String, Bool, true, false, not, List, [], ◌∷◌, Option, none, some, find, remove, insert,
  if◌then◌else◌, string_eq,
}
use nymstr.Json.{Value, str, object, get_str}
use nymstr.Common.RateLimiter.{check_and_record}
use nymstr.Common.Validation.{is_valid_username}
use nymstr.Transport.{ReplyTag, tag_eq}
use nymstr.Db.Tables.{Result, ok, err, ok_or}
use nymstr.Db.Users.{
  get_user_by_username, add_user, after_add_user, update_user_field, after_update_user_field,
}
use nymstr.Server.State.{
  Env, World, Server, PendingEntry, PendingUser, queried, tag_text, send_unified_reply,
}

abbrev pub pending : String → String → String → World → PendingEntry PendingUser
pending username public_key nonce w = record {
  item = record { username = username; public_key = public_key; nonce = nonce };
  created_at = w.instant;
}

module _ (env : Env) (w : World) where
  -- `{"result": "error", "context": …, "message": …}`.
  abbrev refusal : String → String → Value
  refusal context message =
      object (("result", str "error") ∷ ("context", str context) ∷ ("message", str message) ∷ [])

  abbrev success : String → Value
  success context = object (("result", str "success") ∷ ("context", str context) ∷ [])

  abbrev challenge : String → String → Value
  challenge nonce context = object (("nonce", str nonce) ∷ ("context", str context) ∷ [])

  refuse : Server → ReplyTag → String → String → String → Server
  unfolding send_unified_reply
  refuse s tag context message recipient =
      send_unified_reply env w s tag (refusal context message) "challengeResponse" recipient

  -- The registration of a well-formed pair of name and key.
  register_named : Server → ReplyTag → String → String → String → Server
  unfolding refuse send_unified_reply
  register_named s tag sender username public_key =
      if not (is_valid_username username)
      then refuse s tag "registration" "invalid username" sender
      else elim (ok_or (get_user_by_username s.db username) none) [
        | some u ↦ refuse (queried s) tag "registration" "user already exists" sender
        | none ↦
            send_unified_reply env w
              (record (queried s) {
                pending_users = insert tag (pending username public_key w.uuid w) s.pending_users;
              })
              tag (challenge w.uuid "registration") "challenge" sender
      ]

  pub handle_register_unified : Server → Value → ReplyTag → String → Server
  unfolding register_named refuse send_unified_reply
  handle_register_unified s payload tag sender =
      let (allowed, limiter) = check_and_record w.instant (tag_text env tag) s.rate_limiter in
      let s' : Server = record s { rate_limiter = limiter } in
      if not allowed
      then refuse s' tag "registration" "rate limit exceeded, please try again later" sender
      else elim (get_str "username" payload) [
        | none ↦ refuse s' tag "registration" "missing username or publicKey" sender
        | some username ↦ elim (get_str "publicKey" payload) [
          | none ↦ refuse s' tag "registration" "missing username or publicKey" sender
          | some public_key ↦ register_named s' tag sender username public_key
        ]
      ]

  -- The response to a challenge that was pending and is now removed.
  confirm_registration : Server → ReplyTag → PendingUser → String → Server
  unfolding refuse send_unified_reply
  confirm_registration s tag p signature =
      if env.verify_signature p.public_key p.nonce signature
      then elim (add_user s.db p.username p.public_key (tag_text env tag)) [
        | err ↦
            refuse
              (record s { db = after_add_user s.db p.username p.public_key (tag_text env tag) }) tag
              "registration" "database error" p.username
        | ok b ↦
            send_unified_reply env w
              (record s { db = after_add_user s.db p.username p.public_key (tag_text env tag) }) tag
              (success "registration") "challengeResponse" p.username
      ]
      else refuse s tag "registration" "invalid signature" p.username

  pub handle_registration_response_unified : Server → ReplyTag → Option String → Server
  unfolding refuse send_unified_reply
  handle_registration_response_unified s tag none =
      refuse s tag "registration" "missing signature" "unknown"
  handle_registration_response_unified s tag (some signature) = elim (find tag s.pending_users) [
    | none ↦ refuse s tag "registration" "no pending registration" "unknown"
    | some e ↦
        confirm_registration (record s { pending_users = remove tag s.pending_users }) tag e.item
          signature
  ]

  pub handle_login_unified : Server → Value → ReplyTag → String → Server
  unfolding refuse send_unified_reply
  handle_login_unified s payload tag sender =
      let (allowed, limiter) = check_and_record w.instant (tag_text env tag) s.rate_limiter in
      let s' : Server = record s { rate_limiter = limiter } in
      if not allowed
      then refuse s' tag "login" "rate limit exceeded, please try again later" sender
      else elim (get_str "username" payload) [
        | none ↦ refuse s' tag "login" "missing username" sender
        | some username ↦ elim (ok_or (get_user_by_username s'.db username) none) [
          | none ↦ refuse (queried s') tag "login" "user not found" sender
          | some u ↦
              send_unified_reply env w
                (record (queried s') {
                  nonces = insert tag (pending username u.public_key w.uuid w) s'.nonces;
                })
                tag (challenge w.uuid "login") "challenge" sender
        ]
      ]

  confirm_login : Server → ReplyTag → PendingUser → String → Server
  unfolding refuse send_unified_reply
  confirm_login s tag p signature =
      if env.verify_signature p.public_key p.nonce signature
      then send_unified_reply env w
          (record s { db = after_update_user_field s.db p.username "senderTag" (tag_text env tag) })
          tag (success "login") "challengeResponse" p.username
      else refuse s tag "login" "invalid signature" p.username

  pub handle_login_response_unified : Server → ReplyTag → Option String → Server
  unfolding refuse send_unified_reply
  handle_login_response_unified s tag none = refuse s tag "login" "missing signature" "unknown"
  handle_login_response_unified s tag (some signature) = elim (find tag s.nonces) [
    | none ↦ refuse s tag "login" "no pending login" "unknown"
    | some e ↦ confirm_login (record s { nonces = remove tag s.nonces }) tag e.item signature
  ]
