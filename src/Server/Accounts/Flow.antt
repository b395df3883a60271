-- ===== src/Server/Accounts/Flow.antt =====
-- Registering and logging in from the first message to the answer.
use nymstr.Prelude.{
  String, true, [], ◌∷◌, ◌++◌, none, some, find, remove, insert, find-insert_self, find-remove_self,
  ◌≡◌, refl, ap, ◌∙◌, arith, string_eq,
}
use nymstr.Json.{Value, get_str}
use nymstr.Common.RateLimiter.{check_and_record}
use nymstr.Common.Validation.{is_valid_username}
use nymstr.Transport.{ReplyTag, tag_eq}
use nymstr.Db.Tables.{User, rest}
use nymstr.Db.Users.{
  find_user, get_user_by_username, add_user, users_with, users_set, set_column, sender_tag,
}
use nymstr.Db.Users.Laws.{find_user-append_self, find_user-set_column_self}
use nymstr.Server.State.{Env, World, Server, PendingEntry, PendingUser, tag_text}
use nymstr.Server.Accounts.{
  pending, handle_register_unified, confirm_registration, handle_registration_response_unified,
  handle_login_unified, confirm_login, handle_login_response_unified,
}

module _ (env : Env) (w : World) (s : Server) (t : ReplyTag) where
  -- An answer to a challenge uses it up, whether its signature is right or wrong: after an answer to
  -- a registration the sender has none pending, and after an answer to a login no login.
  pub response-once :
      (signature : String)
      → (find t (handle_registration_response_unified env w s t (some signature)).pending_users
          ≡ none)
        × (find t (handle_login_response_unified env w s t (some signature)).nonces ≡ none)
  unfolding handle_registration_response_unified confirm_registration handle_login_response_unified
      confirm_login
  response-once signature = (
    ground (arith, find-remove_self t s.pending_users),
    ground (arith, find-remove_self t s.nonces),
  )

  -- The first half of a registration.
  register_pending :
      (payload : Value) (from name key : String)
      → (check_and_record w.instant (tag_text env t) s.rate_limiter).0 ≡ true
      → get_str "username" payload ≡ some name
      → get_str "publicKey" payload ≡ some key
      → is_valid_username name ≡ true
      → find_user name s.db.users ≡ none
      → s.db.faults ≡ []
      → ((handle_register_unified env w s payload t from).db.users ≡ s.db.users)
        × ((handle_register_unified env w s payload t from).db.faults ≡ [])
        × ((handle_register_unified env w s payload t from).pending_users
            ≡ insert t (pending name key w.uuid w) s.pending_users)
  unfolding handle_register_unified get_user_by_username rest
  register_pending payload from name key allowed hn hk valid free healthy = ground arith

  -- The second half.
  confirm_registration_lem :
      (p : PendingUser) (signature : String)
      → env.verify_signature p.public_key p.nonce signature ≡ true
      → find_user p.username s.db.users ≡ none
      → s.db.faults ≡ []
      → (confirm_registration env w s t p signature).db.users
        ≡ s.db.users
          ++ record {
            username = p.username;
            public_key = p.public_key;
            sender_tag = tag_text env t;
          }
            ∷ []
  unfolding confirm_registration add_user users_with
  confirm_registration_lem p signature good free healthy = ground arith

  response_step :
      (e : PendingEntry PendingUser) (signature : String)
      → find t s.pending_users ≡ some e
      → handle_registration_response_unified env w s t (some signature)
        ≡ confirm_registration env w
            (record s { pending_users = remove t s.pending_users })
            t
            e.item
            signature
  unfolding handle_registration_response_unified
  response_step e signature h = rw (h, handle_registration_response_unified) refl

  -- The first half of a login.
  login_pending :
      (payload : Value) (from name : String) (u : User)
      → (check_and_record w.instant (tag_text env t) s.rate_limiter).0 ≡ true
      → get_str "username" payload ≡ some name
      → find_user name s.db.users ≡ some u
      → s.db.faults ≡ []
      → ((handle_login_unified env w s payload t from).db.users ≡ s.db.users)
        × ((handle_login_unified env w s payload t from).db.faults ≡ [])
        × ((handle_login_unified env w s payload t from).nonces
            ≡ insert t (pending name u.public_key w.uuid w) s.nonces)
  unfolding handle_login_unified get_user_by_username rest
  login_pending payload from name u allowed hn found healthy = ground arith

  login_response_lem :
      (e : PendingEntry PendingUser) (signature : String)
      → find t s.nonces ≡ some e
      → env.verify_signature e.item.public_key e.item.nonce signature ≡ true
      → s.db.faults ≡ []
      → (handle_login_response_unified env w s t (some signature)).db.users
        ≡ set_column sender_tag e.item.username (tag_text env t) s.db.users
  unfolding handle_login_response_unified confirm_login users_set
  login_response_lem e signature h good healthy = ground arith

module _ (env : Env) (w w' : World) (s : Server) (t : ReplyTag) where
  -- Who is not over the rate limit, asks for a valid and free name while the database is healthy,
  -- and then signs the nonce with the key that was given, is registered: with that name, that key
  -- and the address of the messages.
  pub registration_response-register :
      (payload : Value) (from name key signature : String)
      → (check_and_record w.instant (tag_text env t) s.rate_limiter).0 ≡ true
      → get_str "username" payload ≡ some name
      → get_str "publicKey" payload ≡ some key
      → is_valid_username name ≡ true
      → find_user name s.db.users ≡ none
      → s.db.faults ≡ []
      → env.verify_signature key w.uuid signature ≡ true
      → find_user name
          (handle_registration_response_unified env w'
            (handle_register_unified env w s payload t from)
            t
            (some signature)).db.users
        ≡ some (record { username = name; public_key = key; sender_tag = tag_text env t })
  registration_response-register payload from name key signature allowed hn hk valid free healthy
        good =
      let s' = handle_register_unified env w s payload t from in
      let (users, faults, waits) =
        register_pending env w s t payload from name key allowed hn hk valid free healthy in
      let e = pending name key w.uuid w in
      let found = ap (find t) waits ∙ find-insert_self t e s.pending_users in
      let s'' = record s' { pending_users = remove t s'.pending_users } in
      rw
        (
          response_step env w' s' t e signature found,
          confirm_registration_lem env w' s'' t e.item signature good
              (ap (find_user name) users ∙ free) faults,
          users,
        )
        (find_user-append_self s.db.users
          (record { username = name; public_key = key; sender_tag = tag_text env t }) free)

  -- A registered user who is not over the rate limit, asks to log in while the database is healthy,
  -- and then signs the nonce with the registered key, is found with the address of the messages,
  -- and the key stays.
  pub login_response-login :
      (payload : Value) (from name signature : String) (u : User)
      → (check_and_record w.instant (tag_text env t) s.rate_limiter).0 ≡ true
      → get_str "username" payload ≡ some name
      → find_user name s.db.users ≡ some u
      → s.db.faults ≡ []
      → env.verify_signature u.public_key w.uuid signature ≡ true
      → find_user name
          (handle_login_response_unified env w'
            (handle_login_unified env w s payload t from)
            t
            (some signature)).db.users
        ≡ some (record u { sender_tag = tag_text env t })
  login_response-login payload from name signature u allowed hn found healthy good =
      let s' = handle_login_unified env w s payload t from in
      let (users, faults, waits) =
        login_pending env w s t payload from name u allowed hn found healthy in
      let e = pending name u.public_key w.uuid w in
      rw
        (
          login_response_lem env w' s' t e signature
              (ap (find t) waits ∙ find-insert_self t e s.nonces) good faults,
          users,
        )
        (find_user-set_column_self name (tag_text env t) s.db.users u found)
