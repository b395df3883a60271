-- ===== src/Server/Legacy.antt =====
-- nymstr-server/src/message_utils.rs: the handshakes of the legacy message format.
pub mod Chat
pub mod Proofs
pub mod Logins
pub mod Sends
pub mod Growth
use nymstr.Prelude.{
  String, Bool, true, false, not, List, [], ◌∷◌, ◌++◌, Option, none, some, find, remove, insert,
  or_else, ◌==◌, if◌then◌else◌, string_eq,
}
use nymstr.Json.{Value, null, str, object, get, get_str}
use nymstr.Common.RateLimiter.{check_and_record}
use nymstr.Common.Validation.{is_valid_username}
use nymstr.Transport.{ReplyTag, tag_eq, from_stored_string}
use nymstr.Db.Tables.{Db, User, Result, ok, err, ok_or}
use nymstr.Db.Users.{get_user_by_username, add_user, after_add_user, after_update_user_field}
use nymstr.Server.State.{
  Env, World, Server, PendingUser, queried, tag_text, send_encapsulated_reply,
}
use nymstr.Server.Accounts.{pending}

module _ (env : Env) (w : World) where
  respond : Server → ReplyTag → String → String → Server
  unfolding send_encapsulated_reply
  respond s tag context content =
      send_encapsulated_reply env w s tag content "challengeResponse" (some context)

  challenge : Server → ReplyTag → String → Server
  unfolding send_encapsulated_reply
  challenge s tag context =
      send_encapsulated_reply env w s tag (env.print (object (("nonce", str w.uuid) ∷ [])))
        "challenge" (some context)

  -- `{"status": "error", "error_code": …, "message": …}` as text.
  abbrev coded : String → String → String
  coded error_code message = env.print (
      object
        (("status", str "error") ∷ ("error_code", str error_code) ∷ ("message", str message) ∷ []))

  register_named : Server → ReplyTag → String → String → Server
  unfolding respond challenge
  register_named s tag username public_key =
      if not (is_valid_username username)
      then respond s tag "registration" "error: invalid username format"
      else elim (get_user_by_username s.db username) [
        | err ↦ respond (queried s) tag "registration" (coded "INTERNAL_ERROR" "Database error")
        | ok (some u) ↦
            respond (queried s) tag "registration" (coded "USER_EXISTS" "Username already in use")
        | ok none ↦
            challenge
              (record (queried s) {
                pending_users = insert tag (pending username public_key w.uuid w) s.pending_users;
              })
              tag "registration"
      ]

  pub handle_register : Server → Value → ReplyTag → Server
  unfolding respond register_named
  handle_register s v tag =
      let (allowed, limiter) = check_and_record w.instant (tag_text env tag) s.rate_limiter in
      let s' : Server = record s { rate_limiter = limiter } in
      if not allowed
      then respond s' tag "registration" "error: rate limit exceeded, please try again later"
      else elim (get_str "username" v) [
        | none ↦ respond s' tag "registration" "error: missing username or public key"
        | some username ↦ elim (get_str "publicKey" v) [
          | none ↦ respond s' tag "registration" "error: missing username or public key"
          | some public_key ↦ register_named s' tag username public_key
        ]
      ]

  confirm_registration : Server → ReplyTag → PendingUser → String → Server
  unfolding respond
  confirm_registration s tag p signature =
      if env.verify_signature p.public_key p.nonce signature
      then respond
          (record s { db = after_add_user s.db p.username p.public_key (tag_text env tag) }) tag
          "registration"
          (if ok_or (add_user s.db p.username p.public_key (tag_text env tag)) false
            then "success"
            else "error: database failure")
      else respond s tag "registration" "error: signature verification failed"

  pub handle_registration_response : Server → Value → ReplyTag → Server
  unfolding respond
  handle_registration_response s v tag = elim (get_str "signature" v) [
    | none ↦ respond s tag "registration" "error: missing signature"
    | some signature ↦ elim (find tag s.pending_users) [
      | none ↦ respond s tag "registration" "error: no pending registration"
      | some e ↦
          confirm_registration (record s { pending_users = remove tag s.pending_users }) tag e.item
            signature
    ]
  ]

  pub handle_login : Server → Value → ReplyTag → Server
  unfolding respond challenge
  handle_login s v tag =
      let (allowed, limiter) = check_and_record w.instant (tag_text env tag) s.rate_limiter in
      let s' : Server = record s { rate_limiter = limiter } in
      if not allowed
      then respond s' tag "login" "error: rate limit exceeded, please try again later"
      else elim (get_str "username" v) [
        | none ↦ respond s' tag "login" "error: missing username"
        | some username ↦ elim (ok_or (get_user_by_username s'.db username) none) [
          | none ↦ respond (queried s') tag "login" "error: user not found"
          | some u ↦
              challenge
                (record (queried s') {
                  nonces = insert tag (pending username u.public_key w.uuid w) s'.nonces;
                })
                tag "login"
        ]
      ]

  -- The stored tag follows the client, if it has changed.
  follow_tag : Server → Option User → ReplyTag → String → Server
  follow_tag s none tag username = s
  follow_tag s (some u) tag username =
      if u.sender_tag == tag_text env tag
      then s
      else record s { db = after_update_user_field s.db username "senderTag" (tag_text env tag) }

  confirm_login : Server → ReplyTag → PendingUser → String → Server
  unfolding respond follow_tag
  confirm_login s tag p signature =
      if env.verify_signature p.public_key p.nonce signature
      then respond
          (follow_tag (queried s) (ok_or (get_user_by_username s.db p.username) none) tag
            p.username)
          tag "login" "success"
      else respond s tag "login" "error: invalid signature"

  pub handle_login_response : Server → Value → ReplyTag → Server
  unfolding respond
  handle_login_response s v tag = elim (get_str "signature" v) [
    | none ↦ respond s tag "login" "error: missing signature"
    | some signature ↦ elim (find tag s.nonces) [
      | none ↦ respond s tag "login" "error: no pending login"
      | some e ↦ confirm_login (record s { nonces = remove tag s.nonces }) tag e.item signature
    ]
  ]
