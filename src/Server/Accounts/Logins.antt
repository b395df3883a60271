-- ===== src/Server/Accounts/Logins.antt =====
-- What the messages of a login change.
use nymstr.Prelude.{
  String, Option, none, some, find, remove, insert, ◌≡◌, refl, ◌⊎◌, inl, inr, arith, Option-cases,
  Bool-cases,
}
use nymstr.Json.{Value, get_str}
use nymstr.Transport.{ReplyTag, tag_eq}
use nymstr.Db.Tables.{User}
use nymstr.Db.Users.{find_user, get_user_by_username}
use nymstr.Db.Users.Laws.{users_set_cases}
use nymstr.Server.State.{Env, World, Server, PendingEntry, PendingUser, tag_text}
use nymstr.Server.State.Change.{Claims, UserChange, PendingChange, NonceChange, Change}
use nymstr.Server.Accounts.{
  pending, confirm_login, handle_login_unified, handle_login_response_unified,
}

module _ (env : Env) (w : World) where
  login_frame :
      (s : Server) (v : Value) (t : ReplyTag) (from : String)
      → ((handle_login_unified env w s v t from).db.users ≡ s.db.users)
        × ((handle_login_unified env w s v t from).pending_users ≡ s.pending_users)
  unfolding handle_login_unified
  login_frame s v t from = ground arith

  login_with :
      (s : Server) (v : Value) (t : ReplyTag) (from name : String) (u : User)
      → get_str "username" v ≡ some name
      → find_user name s.db.users ≡ some u
      → ((handle_login_unified env w s v t from).nonces ≡ s.nonces)
        ⊎ ((handle_login_unified env w s v t from).nonces
            ≡ insert t (pending name u.public_key w.uuid w) s.nonces)
  unfolding handle_login_unified get_user_by_username
  login_with s v t from name u hn hu = ground arith

  login_unknown :
      (s : Server) (v : Value) (t : ReplyTag) (from name : String)
      → get_str "username" v ≡ some name
      → find_user name s.db.users ≡ none
      → (handle_login_unified env w s v t from).nonces ≡ s.nonces
  unfolding handle_login_unified get_user_by_username
  login_unknown s v t from name hn hu = ground arith

  login_unnamed :
      (s : Server) (v : Value) (t : ReplyTag) (from : String)
      → get_str "username" v ≡ none
      → (handle_login_unified env w s v t from).nonces ≡ s.nonces
  unfolding handle_login_unified
  login_unnamed s v t from h = ground arith

  login-NonceChange :
      (s : Server) (v : Value) (t : ReplyTag) (from : String)
      → NonceChange w t s (handle_login_unified env w s v t from)
  login-NonceChange s v t from = elim (Option-cases (get_str "username" v)) [
    | inl e ↦ NonceChange.kept (login_unnamed s v t from e)
    | inr (name, hn) ↦ elim (Option-cases (find_user name s.db.users)) [
      | inl e ↦ NonceChange.kept (login_unknown s v t from name hn e)
      | inr (u, hu) ↦ elim (login_with s v t from name u hn hu) [
        | inl same ↦ NonceChange.kept same
        | inr new ↦ NonceChange.issued (pending name u.public_key w.uuid w) u hu refl refl new
      ]
    ]
  ]

  pub login-Change :
      {said : Claims} (s : Server) (v : Value) (t : ReplyTag) (from : String)
      → Change said env w t s (handle_login_unified env w s v t from)
  login-Change s v t from = record {
    users = UserChange.kept (login_frame s v t from).0;
    pending = PendingChange.kept (login_frame s v t from).1;
    nonces = login-NonceChange s v t from;
  }

  confirm_login-UserChange :
      {said : Claims} (s : Server) (t : ReplyTag) (e : PendingEntry PendingUser) (sig : String)
      → find t s.nonces ≡ some e
      → UserChange said env t s
          (confirm_login env w (record s { nonces = remove t s.nonces }) t e.item sig)
  unfolding confirm_login
  confirm_login-UserChange s t e sig h =
      elim (Bool-cases (env.verify_signature e.item.public_key e.item.nonce sig)) [
        | inl good ↦ elim (users_set_cases s.db e.item.username (tag_text env t)) [
          | inl same ↦ UserChange.kept (rw good same)
          | inr set ↦ UserChange.logged_in e sig h good (rw good set)
        ]
        | inr bad ↦ UserChange.kept (rw bad refl)
      ]

  confirm_login_rest :
      (s : Server) (t : ReplyTag) (p : PendingUser) (sig : String)
      → ((confirm_login env w s t p sig).pending_users ≡ s.pending_users)
        × ((confirm_login env w s t p sig).nonces ≡ s.nonces)
  unfolding confirm_login
  confirm_login_rest s t p sig = ground arith

  -- A login response stores the sender's tag only for a pending login whose nonce is signed.
  pub login_response-Change :
      {said : Claims} (s : Server) (t : ReplyTag) (signature : Option String)
      → Change said env w t s (handle_login_response_unified env w s t signature)
  unfolding handle_login_response_unified
  login_response-Change s t none = record {
    users = UserChange.kept refl;
    pending = PendingChange.kept refl;
    nonces = NonceChange.kept refl;
  }
  login_response-Change s t (some sig) = elim (Option-cases (find t s.nonces)) [
    | inl e ↦
        rw (e, handle_login_response_unified)
          (record {
            users = UserChange.kept refl;
            pending = PendingChange.kept refl;
            nonces = NonceChange.kept refl;
          })
    | inr (e, h) ↦
        let r : Server = record s { nonces = remove t s.nonces } in
        rw (h, handle_login_response_unified)
          (record {
            users = confirm_login-UserChange s t e sig h;
            pending = PendingChange.kept (confirm_login_rest r t e.item sig).0;
            nonces = NonceChange.removed (confirm_login_rest r t e.item sig).1;
          })
  ]
