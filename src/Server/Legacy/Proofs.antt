-- ===== src/Server/Legacy/Proofs.antt =====
-- The legacy handlers: what they change, and on whose authority.
use nymstr.Prelude.{
  String, true, false, none, some, find, remove, insert, ◌≡◌, refl, ◌∙◌, ◌⊎◌, inl, inr, arith,
  Option-cases, Bool-cases,
}
use nymstr.Json.{Value, get_str}
use nymstr.Common.Validation.{is_valid_username}
use nymstr.Transport.{ReplyTag, tag_eq}
use nymstr.Db.Tables.{User, Db, ok_or}
use nymstr.Db.Users.{find_user, get_user_by_username, users_with}
use nymstr.Db.Users.Laws.{users_with_cases}
use nymstr.Server.State.{Env, World, Server, PendingEntry, PendingUser, tag_text}
use nymstr.Server.State.Quiet.{Quiet}
use nymstr.Server.State.Change.{
  Claims, UserChange, PendingChange, NonceChange, Change, Change-Quiet,
}
use nymstr.Server.Accounts.{pending}
use nymstr.Server.Legacy.{confirm_registration, handle_register, handle_registration_response}
use nymstr.Server.Legacy.Chat.{
  handle_create_group, handle_send_group, handle_send_invite, handle_update,
}

pub found_user :
    (db : Db) (name : String) (u : User)
    → ok_or (get_user_by_username db name) none ≡ some u
    → find_user name db.users ≡ some u
unfolding get_user_by_username
found_user db name u h = ground arith

module _ (env : Env) (w : World) where
  register_frame :
      (s : Server) (v : Value) (t : ReplyTag)
      → ((handle_register env w s v t).db.users ≡ s.db.users)
        × ((handle_register env w s v t).nonces ≡ s.nonces)
        × ((handle_register env w s v t).db.groups ≡ s.db.groups)
        × ((handle_register env w s v t).pending_groups ≡ s.pending_groups)
  unfolding handle_register
  register_frame s v t = ground arith

  register_with :
      (s : Server) (v : Value) (t : ReplyTag) (name key : String)
      → get_str "username" v ≡ some name
      → get_str "publicKey" v ≡ some key
      → ((handle_register env w s v t).pending_users ≡ s.pending_users)
        ⊎ ((is_valid_username name ≡ true)
            × ((handle_register env w s v t).pending_users
                ≡ insert t (pending name key w.uuid w) s.pending_users))
  unfolding handle_register
  register_with s v t name key hn hk = ground arith

  register_without :
      (s : Server) (v : Value) (t : ReplyTag)
      → (get_str "username" v ≡ none) ⊎ (get_str "publicKey" v ≡ none)
      → (handle_register env w s v t).pending_users ≡ s.pending_users
  unfolding handle_register
  register_without s v t h = ground arith

  register-PendingChange :
      (s : Server) (v : Value) (t : ReplyTag) → PendingChange w t s (handle_register env w s v t)
  register-PendingChange s v t = elim (Option-cases (get_str "username" v)) [
    | inl e ↦ PendingChange.kept (register_without s v t (inl e))
    | inr (name, hn) ↦ elim (Option-cases (get_str "publicKey" v)) [
      | inl e ↦ PendingChange.kept (register_without s v t (inr e))
      | inr (key, hk) ↦ elim (register_with s v t name key hn hk) [
        | inl same ↦ PendingChange.kept same
        | inr (valid, new) ↦ PendingChange.issued (pending name key w.uuid w) valid refl new
      ]
    ]
  ]

  pub register-Change :
      {said : Claims} (s : Server) (v : Value) (t : ReplyTag)
      → Change said env w t s (handle_register env w s v t)
  register-Change s v t = record {
    users = UserChange.kept (register_frame s v t).0;
    pending = register-PendingChange s v t;
    nonces = NonceChange.kept (register_frame s v t).1;
  }

  -- The answer to a registration challenge, the entry being at hand.
  confirm_users :
      (s : Server) (t : ReplyTag) (p : PendingUser) (sig : String)
      → env.verify_signature p.public_key p.nonce sig ≡ true
      → (confirm_registration env w s t p sig).db.users
        ≡ users_with s.db p.username p.public_key (tag_text env t)
  unfolding confirm_registration
  confirm_users s t p sig good = ground arith

  confirm_rest :
      (s : Server) (t : ReplyTag) (p : PendingUser) (sig : String)
      → ((confirm_registration env w s t p sig).pending_users ≡ s.pending_users)
        × ((confirm_registration env w s t p sig).nonces ≡ s.nonces)
        × (env.verify_signature p.public_key p.nonce sig ≡ false
            → (confirm_registration env w s t p sig).db.users ≡ s.db.users)
  unfolding confirm_registration
  confirm_rest s t p sig = (ground arith, ground arith, λ bad. ground arith)

  confirm-UserChange :
      {said : Claims} (s : Server) (t : ReplyTag) (e : PendingEntry PendingUser) (sig : String)
      → find t s.pending_users ≡ some e
      → UserChange said env t s (
          confirm_registration env w
            (record s { pending_users = remove t s.pending_users })
            t
            e.item
            sig)
  confirm-UserChange s t e sig h =
      let r : Server = record s { pending_users = remove t s.pending_users } in
      elim (Bool-cases (env.verify_signature e.item.public_key e.item.nonce sig)) [
        | inl good ↦
            elim (users_with_cases s.db e.item.username e.item.public_key (tag_text env t)) [
              | inl same ↦ UserChange.kept (confirm_users r t e.item sig good ∙ same)
              | inr (fresh, added) ↦
                  UserChange.registered e sig h good fresh
                    (confirm_users r t e.item sig good ∙ added)
            ]
        | inr bad ↦ UserChange.kept ((confirm_rest r t e.item sig).2 bad)
      ]

  registration_response_cases :
      (s : Server) (v : Value) (t : ReplyTag) (sig : String) (e : PendingEntry PendingUser)
      → get_str "signature" v ≡ some sig
      → find t s.pending_users ≡ some e
      → handle_registration_response env w s v t
        ≡ confirm_registration env w
            (record s { pending_users = remove t s.pending_users })
            t
            e.item
            sig
  unfolding handle_registration_response
  registration_response_cases s v t sig e hs h = ground arith

  registration_response_idle :
      (s : Server) (v : Value) (t : ReplyTag)
      → (get_str "signature" v ≡ none) ⊎ (find t s.pending_users ≡ none)
      → Quiet s (handle_registration_response env w s v t)
  unfolding handle_registration_response
  registration_response_idle s v t h = ground arith

  -- As in the unified format.
  pub registration_response-Change :
      {said : Claims} (s : Server) (v : Value) (t : ReplyTag)
      → Change said env w t s (handle_registration_response env w s v t)
  registration_response-Change s v t = elim (Option-cases (get_str "signature" v)) [
    | inl e ↦ Change-Quiet (registration_response_idle s v t (inl e))
    | inr (sig, hs) ↦ elim (Option-cases (find t s.pending_users)) [
      | inl e ↦ Change-Quiet (registration_response_idle s v t (inr e))
      | inr (e, h) ↦
          let r : Server = record s { pending_users = remove t s.pending_users } in
          rw (registration_response_cases s v t sig e hs h) (record {
            users = confirm-UserChange s t e sig h;
            pending = PendingChange.removed (confirm_rest r t e.item sig).0;
            nonces = NonceChange.kept (confirm_rest r t e.item sig).1;
          })
    ]
  ]

  pub stub-Quiet :
      (s : Server) (t : ReplyTag)
      → Quiet s (handle_create_group env w s t)
        × Quiet s (handle_send_group env w s t)
        × Quiet s (handle_send_invite env w s t)
        × Quiet s (handle_update env w s t)
  unfolding handle_create_group handle_send_group handle_send_invite handle_update
  stub-Quiet s t = ground arith
