-- ===== src/Server/Accounts/Proofs.antt =====
-- Registration and login in the unified format: what they change, and on whose authority.
use nymstr.Prelude.{
  String, true, false, Option, none, some, find, remove, insert, ◌≡◌, refl, ◌∙◌, ◌⊎◌, inl, inr,
  arith, Option-cases, Bool-cases,
}
use nymstr.Json.{Value, get_str}
use nymstr.Common.Validation.{is_valid_username}
use nymstr.Transport.{ReplyTag, tag_eq}
use nymstr.Db.Users.{users_with}
use nymstr.Db.Users.Laws.{users_with_cases}
use nymstr.Server.State.{Env, World, Server, PendingEntry, PendingUser, tag_text}
use nymstr.Server.State.Change.{Claims, UserChange, PendingChange, NonceChange, Change}
use nymstr.Server.Accounts.{
  pending, confirm_registration, handle_register_unified, handle_registration_response_unified,
}

module _ (env : Env) (w : World) where
  register_frame :
      (s : Server) (v : Value) (t : ReplyTag) (from : String)
      → ((handle_register_unified env w s v t from).db.users ≡ s.db.users)
        × ((handle_register_unified env w s v t from).nonces ≡ s.nonces)
        × ((handle_register_unified env w s v t from).db.groups ≡ s.db.groups)
        × ((handle_register_unified env w s v t from).pending_groups ≡ s.pending_groups)
  unfolding handle_register_unified
  register_frame s v t from = ground arith

  register_with :
      (s : Server) (v : Value) (t : ReplyTag) (from name key : String)
      → get_str "username" v ≡ some name
      → get_str "publicKey" v ≡ some key
      → ((handle_register_unified env w s v t from).pending_users ≡ s.pending_users)
        ⊎ ((is_valid_username name ≡ true)
            × ((handle_register_unified env w s v t from).pending_users
                ≡ insert t (pending name key w.uuid w) s.pending_users))
  unfolding handle_register_unified
  register_with s v t from name key hn hk = ground arith

  register_without :
      (s : Server) (v : Value) (t : ReplyTag) (from : String)
      → (get_str "username" v ≡ none) ⊎ (get_str "publicKey" v ≡ none)
      → (handle_register_unified env w s v t from).pending_users ≡ s.pending_users
  unfolding handle_register_unified
  register_without s v t from h = ground arith

  register-PendingChange :
      (s : Server) (v : Value) (t : ReplyTag) (from : String)
      → PendingChange w t s (handle_register_unified env w s v t from)
  register-PendingChange s v t from = elim (Option-cases (get_str "username" v)) [
    | inl e ↦ PendingChange.kept (register_without s v t from (inl e))
    | inr (name, hn) ↦ elim (Option-cases (get_str "publicKey" v)) [
      | inl e ↦ PendingChange.kept (register_without s v t from (inr e))
      | inr (key, hk) ↦ elim (register_with s v t from name key hn hk) [
        | inl same ↦ PendingChange.kept same
        | inr (valid, new) ↦ PendingChange.issued (pending name key w.uuid w) valid refl new
      ]
    ]
  ]

  pub register-Change :
      {said : Claims} (s : Server) (v : Value) (t : ReplyTag) (from : String)
      → Change said env w t s (handle_register_unified env w s v t from)
  register-Change s v t from = record {
    users = UserChange.kept (register_frame s v t from).0;
    pending = register-PendingChange s v t from;
    nonces = NonceChange.kept (register_frame s v t from).1;
  }

  -- The answer to a registration challenge, the entry being at hand.
  confirm_users :
      (s : Server) (t : ReplyTag) (p : PendingUser) (sig : String)
      → env.verify_signature p.public_key p.nonce sig ≡ true
      → (confirm_registration env w s t p sig).db.users
        ≡ users_with s.db p.username p.public_key (tag_text env t)
  unfolding confirm_registration
  confirm_users s t p sig good = ground arith

  confirm_rest :
      (s : Server) (t : ReplyTag) (p : PendingUser) (sig : String)
      → ((confirm_registration env w s t p sig).pending_users ≡ s.pending_users)
        × ((confirm_registration env w s t p sig).nonces ≡ s.nonces)
        × (env.verify_signature p.public_key p.nonce sig ≡ false
            → (confirm_registration env w s t p sig).db.users ≡ s.db.users)
  unfolding confirm_registration
  confirm_rest s t p sig = (ground arith, ground arith, λ bad. ground arith)

  confirm-UserChange :
      {said : Claims} (s : Server) (t : ReplyTag) (e : PendingEntry PendingUser) (sig : String)
      → find t s.pending_users ≡ some e
      → UserChange said env t s (
          confirm_registration env w
            (record s { pending_users = remove t s.pending_users })
            t
            e.item
            sig)
  confirm-UserChange s t e sig h =
      let r : Server = record s { pending_users = remove t s.pending_users } in
      elim (Bool-cases (env.verify_signature e.item.public_key e.item.nonce sig)) [
        | inl good ↦
            elim (users_with_cases s.db e.item.username e.item.public_key (tag_text env t)) [
              | inl same ↦ UserChange.kept (confirm_users r t e.item sig good ∙ same)
              | inr (fresh, added) ↦
                  UserChange.registered e sig h good fresh
                    (confirm_users r t e.item sig good ∙ added)
            ]
        | inr bad ↦ UserChange.kept ((confirm_rest r t e.item sig).2 bad)
      ]

  -- A registration response adds a user only for the pending challenge of its sender, signed by
  -- the key that is registered, under a name that is free.
  pub registration_response-Change :
      {said : Claims} (s : Server) (t : ReplyTag) (signature : Option String)
      → Change said env w t s (handle_registration_response_unified env w s t signature)
  unfolding handle_registration_response_unified
  registration_response-Change s t none = record {
    users = UserChange.kept refl;
    pending = PendingChange.kept refl;
    nonces = NonceChange.kept refl;
  }
  registration_response-Change s t (some sig) = elim (Option-cases (find t s.pending_users)) [
    | inl e ↦
        rw (e, handle_registration_response_unified)
          (record {
            users = UserChange.kept refl;
            pending = PendingChange.kept refl;
            nonces = NonceChange.kept refl;
          })
    | inr (e, h) ↦
        let r : Server = record s { pending_users = remove t s.pending_users } in
        rw (h, handle_registration_response_unified)
          (record {
            users = confirm-UserChange s t e sig h;
            pending = PendingChange.removed (confirm_rest r t e.item sig).0;
            nonces = NonceChange.kept (confirm_rest r t e.item sig).1;
          })
  ]
