-- ===== src/Server/Legacy/Logins.antt =====
-- What the messages of a legacy login change.
use nymstr.Prelude.{
  String, true, none, some, find, remove, insert, ◌≡◌, refl, ◌⊎◌, inl, inr, arith, Option-cases,
}
use nymstr.Json.{Value, get_str}
use nymstr.Transport.{ReplyTag, tag_eq}
use nymstr.Db.Tables.{User, called}
use nymstr.Db.Users.{find_user, get_user_by_username, set_column, sender_tag}
use nymstr.Db.Users.Laws.{users_set_cases}
use nymstr.Server.State.{Env, World, Server, PendingEntry, PendingUser, tag_text}
use nymstr.Server.State.Quiet.{Quiet}
use nymstr.Server.State.Change.{
  Claims, UserChange, PendingChange, NonceChange, Change, Change-Quiet,
}
use nymstr.Server.Accounts.{pending}
use nymstr.Server.Legacy.{confirm_login, handle_login, handle_login_response}

module _ (env : Env) (w : World) where
  login_frame :
      (s : Server) (v : Value) (t : ReplyTag)
      → ((handle_login env w s v t).db.users ≡ s.db.users)
        × ((handle_login env w s v t).pending_users ≡ s.pending_users)
  unfolding handle_login
  login_frame s v t = ground arith

  login_with :
      (s : Server) (v : Value) (t : ReplyTag) (name : String) (u : User)
      → get_str "username" v ≡ some name
      → find_user name s.db.users ≡ some u
      → ((handle_login env w s v t).nonces ≡ s.nonces)
        ⊎ ((handle_login env w s v t).nonces
            ≡ insert t (pending name u.public_key w.uuid w) s.nonces)
  unfolding handle_login get_user_by_username
  login_with s v t name u hn hu = ground arith

  login_unknown :
      (s : Server) (v : Value) (t : ReplyTag) (name : String)
      → get_str "username" v ≡ some name
      → find_user name s.db.users ≡ none
      → (handle_login env w s v t).nonces ≡ s.nonces
  unfolding handle_login get_user_by_username
  login_unknown s v t name hn hu = ground arith

  login_unnamed :
      (s : Server) (v : Value) (t : ReplyTag)
      → get_str "username" v ≡ none
      → (handle_login env w s v t).nonces ≡ s.nonces
  unfolding handle_login
  login_unnamed s v t h = ground arith

  login-NonceChange :
      (s : Server) (v : Value) (t : ReplyTag) → NonceChange w t s (handle_login env w s v t)
  login-NonceChange s v t = elim (Option-cases (get_str "username" v)) [
    | inl e ↦ NonceChange.kept (login_unnamed s v t e)
    | inr (name, hn) ↦ elim (Option-cases (find_user name s.db.users)) [
      | inl e ↦ NonceChange.kept (login_unknown s v t name hn e)
      | inr (u, hu) ↦ elim (login_with s v t name u hn hu) [
        | inl same ↦ NonceChange.kept same
        | inr new ↦ NonceChange.issued (pending name u.public_key w.uuid w) u hu refl refl new
      ]
    ]
  ]

  pub login-Change :
      {said : Claims} (s : Server) (v : Value) (t : ReplyTag)
      → Change said env w t s (handle_login env w s v t)
  login-Change s v t = record {
    users = UserChange.kept (login_frame s v t).0;
    pending = PendingChange.kept (login_frame s v t).1;
    nonces = login-NonceChange s v t;
  }

  confirm_login_users :
      (s : Server) (t : ReplyTag) (p : PendingUser) (sig : String)
      → ((confirm_login env w s t p sig).db.users ≡ s.db.users)
        ⊎ ((env.verify_signature p.public_key p.nonce sig ≡ true)
            × ((confirm_login env w s t p sig).db.users
                ≡ set_column sender_tag p.username (tag_text env t) s.db.users))
  unfolding confirm_login
  confirm_login_users s t p sig =
      ground (arith, users_set_cases (called s.db) p.username (tag_text env t))

  confirm_login_rest :
      (s : Server) (t : ReplyTag) (p : PendingUser) (sig : String)
      → ((confirm_login env w s t p sig).pending_users ≡ s.pending_users)
        × ((confirm_login env w s t p sig).nonces ≡ s.nonces)
  unfolding confirm_login
  confirm_login_rest s t p sig = ground arith

  login_response_cases :
      (s : Server) (v : Value) (t : ReplyTag) (sig : String) (e : PendingEntry PendingUser)
      → get_str "signature" v ≡ some sig
      → find t s.nonces ≡ some e
      → handle_login_response env w s v t
        ≡ confirm_login env w (record s { nonces = remove t s.nonces }) t e.item sig
  unfolding handle_login_response
  login_response_cases s v t sig e hs h = ground arith

  login_response_idle :
      (s : Server) (v : Value) (t : ReplyTag)
      → (get_str "signature" v ≡ none) ⊎ (find t s.nonces ≡ none)
      → Quiet s (handle_login_response env w s v t)
  unfolding handle_login_response
  login_response_idle s v t h = ground arith

  -- As in the unified format.
  pub login_response-Change :
      {said : Claims} (s : Server) (v : Value) (t : ReplyTag)
      → Change said env w t s (handle_login_response env w s v t)
  login_response-Change s v t = elim (Option-cases (get_str "signature" v)) [
    | inl e ↦ Change-Quiet (login_response_idle s v t (inl e))
    | inr (sig, hs) ↦ elim (Option-cases (find t s.nonces)) [
      | inl e ↦ Change-Quiet (login_response_idle s v t (inr e))
      | inr (e, h) ↦
          let r : Server = record s { nonces = remove t s.nonces } in
          rw (login_response_cases s v t sig e hs h) (record {
            users = elim (confirm_login_users r t e.item sig) [
              | inl same ↦ UserChange.kept same
              | inr (good, set) ↦ UserChange.logged_in e sig h good set
            ];
            pending = PendingChange.kept (confirm_login_rest r t e.item sig).0;
            nonces = NonceChange.removed (confirm_login_rest r t e.item sig).1;
          })
    ]
  ]
