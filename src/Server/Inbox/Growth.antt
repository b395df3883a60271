-- ===== src/Server/Inbox/Growth.antt =====
-- What fetching, pinging and acknowledging do to the queue.
use nymstr.Prelude.{
  ltb, String, List, [], ◌∷◌, Option, none, some, ◌≡◌, refl, arith, ◌⊎◌, inl, inr, true, take,
  length, take-length, Option-cases, Bool-cases, keep, not,
}
use nymstr.Json.{Value, get_i64, get_array, texts}
use nymstr.Transport.{ReplyTag}
use nymstr.Db.Tables.{User, Result-cases}
use nymstr.Db.Users.{find_user, get_user_by_username}
use nymstr.Db.Pending.{is_acked, get_pending_messages}
use nymstr.Db.KeyPackages.{cleanup_expired_key_packages}
use nymstr.Db.Pending.Laws.{pending_acked_cases}
use nymstr.Prelude.Int.{ℤ}
use nymstr.Server.State.{Env, World, Server, queried}
use nymstr.Server.Inbox.{
  send_all, delivered_ids, drain, ping_text, verify_ping, ping_at, ack_text, verify_ack, ack_at,
  ack_ids, handle_fetch_pending_unified, handle_ping_unified, handle_ack_unified,
}
use nymstr.Server.Inbox.Proofs.{send_all_frame, no_signature, ping_cases, limited}

-- The text claims the messages of the user: a ping, or the acknowledgement of some.
abbrev pub IsClaim : String → String → Type 0
IsClaim name text =
    ((timestamp : ℤ) × (text ≡ ping_text name timestamp))
    ⊎ ((timestamp : ℤ) × (ids : List String) × (text ≡ ack_text name timestamp ids))

-- Messages leave the queue only for a user who signed a claim.
pub data QueueChange (env : Env) (s s' : Server) : Type 0 where
  grown :
      take (length s.db.pending_messages) s'.db.pending_messages ≡ s.db.pending_messages
      → QueueChange env s s'
  taken :
      (u : User) (name text signature : String) (ids : List String)
      → IsClaim name text
      → find_user name s.db.users ≡ some u
      → env.verify_signature u.public_key text signature ≡ true
      → s'.db.pending_messages ≡ keep (λ m. not (is_acked name ids m)) s.db.pending_messages
      → QueueChange env s s'

pub QueueChange-still :
    (env : Env) (s s' : Server)
    → s'.db.pending_messages ≡ s.db.pending_messages
    → QueueChange env s s'
QueueChange-still env s s' e = QueueChange.grown (rw e (take-length s.db.pending_messages))

-- What holds from a server with the same users and queue.
QueueChange-from :
    (env : Env) (s r s' : Server)
    → r.db.users ≡ s.db.users
    → r.db.pending_messages ≡ s.db.pending_messages
    → QueueChange env r s'
    → QueueChange env s s'
QueueChange-from env s r s' u p (QueueChange.grown e) = QueueChange.grown (rw (← p) e)
QueueChange-from env s r s' u p (QueueChange.taken x name text sig ids c f v a) =
    QueueChange.taken x name text sig ids c (rw (← u) f) v (rw (← p) a)

module _ (env : Env) (w : World) where
  pub fetch_pending-queue :
      (s : Server) (v : Value) (t : ReplyTag) (u : String) (sig : Option String)
      → ((handle_fetch_pending_unified env w s v t u sig).db.groups ≡ s.db.groups)
        × ((handle_fetch_pending_unified env w s v t u sig).db.pending_messages
            ≡ s.db.pending_messages)
  unfolding handle_fetch_pending_unified
  fetch_pending-queue s v t u sig = ground arith

  verify_ack-QueueChange :
      (s : Server) (u : User) (t : ReplyTag) (user : String) (ids : List String) (sig : String)
      (ts : ℤ)
      → find_user user s.db.users ≡ some u
      → QueueChange env s (verify_ack env w s u t user ids sig ts)
  unfolding verify_ack
  verify_ack-QueueChange s u t user ids sig ts h =
      elim (Bool-cases (env.verify_signature u.public_key (ack_text user ts ids) sig)) [
        | inl good ↦ elim (pending_acked_cases s.db user ids) [
          | inl e ↦ QueueChange-still env s _ (rw good e)
          | inr e ↦
              QueueChange.taken u user (ack_text user ts ids) sig ids (inr (ts, ids, refl)) h good
                (rw good e)
        ]
        | inr bad ↦ QueueChange-still env s _ (rw bad refl)
      ]

  ack_at_cases :
      (s : Server) (t : ReplyTag) (user : String) (ids : List String) (sig : String) (ts : ℤ)
      → ((ack_at env w s t user ids sig ts).db.pending_messages ≡ s.db.pending_messages)
        ⊎ ((u : User) × (find_user user s.db.users ≡ some u)
            × (ack_at env w s t user ids sig ts ≡ verify_ack env w (queried s) u t user ids sig ts))
  unfolding ack_at get_user_by_username
  ack_at_cases s t user ids sig ts = ground arith

  ack_ids_cases :
      (s : Server) (v : Value) (t : ReplyTag) (user : String) (ids : List String)
      (signature : Option String)
      → ((ack_ids env w s v t user ids signature).db.pending_messages ≡ s.db.pending_messages)
        ⊎ ((sig : String) × (ts : ℤ) × (ack_ids env w s v t user ids signature
              ≡ ack_at env w s t user ids sig ts))
  unfolding ack_ids
  ack_ids_cases s v t user [] signature = inl refl
  ack_ids_cases s v t user (i ∷ is) none = inl refl
  ack_ids_cases s v t user (i ∷ is) (some sig) = elim (Option-cases (get_i64 "timestamp" v)) [
    | inl e ↦ inl (rw (e, ack_ids) refl)
    | inr (ts, e) ↦ inr (sig, ts, rw (e, ack_ids) refl)
  ]

  ack_ids-QueueChange :
      (s : Server) (v : Value) (t : ReplyTag) (user : String) (ids : List String)
      (signature : Option String)
      → QueueChange env s (ack_ids env w s v t user ids signature)
  ack_ids-QueueChange s v t user ids signature = elim (ack_ids_cases s v t user ids signature) [
    | inl e ↦ QueueChange-still env s _ e
    | inr (sig, ts, e) ↦ elim (ack_at_cases s t user ids sig ts) [
      | inl same ↦ QueueChange-still env s _ (rw e same)
      | inr (u, h, e') ↦
          rw (e, e')
            (QueueChange-from env s (queried s) _ refl refl
              (verify_ack-QueueChange (queried s) u t user ids sig ts h))
    ]
  ]

  pub ack-QueueChange :
      (s : Server) (v : Value) (t : ReplyTag) (user : String) (signature : Option String)
      → QueueChange env s (handle_ack_unified env w s v t user signature)
  unfolding handle_ack_unified
  ack-QueueChange s v t user signature = elim (Option-cases (get_array "pendingIds" v)) [
    | inl e ↦ QueueChange-still env s _ (rw (e, handle_ack_unified) refl)
    | inr (l, e) ↦ rw (e, handle_ack_unified) (ack_ids-QueueChange s v t user (texts l) signature)
  ]

  -- What is drained has been read first.
  drain_cases :
      (s : Server) (t : ReplyTag) (user : String)
      → ((drain env w s t user).db.pending_messages ≡ s.db.pending_messages)
        ⊎ ((ids : List String) × ((drain env w s t user).db.pending_messages
              ≡ keep (λ m. not (is_acked user ids m)) s.db.pending_messages))
  unfolding drain
  drain_cases s t user = elim (Result-cases (get_pending_messages w.unix s.db user)) [
    | inl e ↦ inl (rw (e, drain) refl)
    | inr (ms, e) ↦
        let s' = send_all env w (queried s) t user ms in
        elim (pending_acked_cases s'.db user (delivered_ids env w ms)) [
          | inl same ↦
              inl (rw (e, drain, same) (rw (send_all_frame env w (queried s) t user ms).0 refl))
          | inr gone ↦ inr (
            delivered_ids env w ms,
            rw (e, drain, gone) (rw (send_all_frame env w (queried s) t user ms).0 refl),
          )
        ]
  ]

  verify_ping-QueueChange :
      (s : Server) (u : User) (t : ReplyTag) (user sig : String) (ts : ℤ)
      → find_user user s.db.users ≡ some u
      → QueueChange env s (verify_ping env w s u t user sig ts)
  unfolding verify_ping
  verify_ping-QueueChange s u t user sig ts h =
      elim (Bool-cases (env.verify_signature u.public_key (ping_text user ts) sig)) [
        | inl good ↦ elim (drain_cases _ t user) [
          | inl e ↦ QueueChange-still env s _ (rw (good, verify_ping) e)
          | inr (ids, e) ↦
              QueueChange.taken u user (ping_text user ts) sig ids (inl (ts, refl)) h good
                (rw (good, verify_ping) e)
        ]
        | inr bad ↦ QueueChange-still env s _ (rw bad refl)
      ]

  ping_at_cases :
      (s : Server) (t : ReplyTag) (user sig : String) (ts : ℤ)
      → ((ping_at env w s t user sig ts).db.pending_messages ≡ s.db.pending_messages)
        ⊎ ((u : User) × (find_user user s.db.users ≡ some u)
            × (ping_at env w s t user sig ts ≡ verify_ping env w (queried s) u t user sig ts))
  unfolding ping_at get_user_by_username
  ping_at_cases s t user sig ts = ground arith

  ping_at-QueueChange :
      (s : Server) (t : ReplyTag) (user sig : String) (ts : ℤ)
      → QueueChange env s (ping_at env w s t user sig ts)
  ping_at-QueueChange s t user sig ts = elim (ping_at_cases s t user sig ts) [
    | inl e ↦ QueueChange-still env s _ e
    | inr (u, h, e) ↦ rw e (
        QueueChange-from env s (queried s) _ refl refl
          (verify_ping-QueueChange (queried s) u t user sig ts h))
  ]

  pub ping-QueueChange :
      (s : Server) (v : Value) (t : ReplyTag) (user : String) (signature : Option String)
      → QueueChange env s (handle_ping_unified env w s v t user signature)
  ping-QueueChange s v t user none = QueueChange-still env s _ (no_signature env w s v t user).1
  ping-QueueChange s v t user (some sig) = elim (ping_cases env w s v t user sig) [
    | inl e ↦ QueueChange-still env s _ e.1
    | inr (ts, _, e) ↦ rw e (
        QueueChange-from env s (limited env w t s) _ refl refl
          (ping_at-QueueChange (limited env w t s) t user sig ts))
  ]

  pub ack-packages :
      (s : Server) (v : Value) (t : ReplyTag) (user : String) (signature : Option String)
      → (handle_ack_unified env w s v t user signature).db.key_packages ≡ s.db.key_packages
  unfolding handle_ack_unified
  ack-packages s v t user signature = grind arith

  drain-packages :
      (s : Server) (t : ReplyTag) (user : String)
      → (drain env w s t user).db.key_packages ≡ s.db.key_packages
  unfolding drain
  drain-packages s t user = grind (arith, send_all_frame)

  verify_ping-packages :
      (s : Server) (u : User) (t : ReplyTag) (user sig : String) (ts : ℤ)
      → (verify_ping env w s u t user sig ts).db.key_packages ≡ s.db.key_packages
  unfolding verify_ping
  verify_ping-packages s u t user sig ts = grind (arith, drain-packages)

  pub ping-packages :
      (s : Server) (v : Value) (t : ReplyTag) (user : String) (signature : Option String)
      → (handle_ping_unified env w s v t user signature).db.key_packages ≡ s.db.key_packages
  unfolding handle_ping_unified ping_at
  ping-packages s v t user signature = grind (arith, verify_ping-packages)

  -- Fetching drops the expired packages at most.
  pub fetch_pending-packages :
      (s : Server) (v : Value) (t : ReplyTag) (user : String) (signature : Option String)
      → ((handle_fetch_pending_unified env w s v t user signature).db.key_packages
          ≡ s.db.key_packages)
        ⊎ ((handle_fetch_pending_unified env w s v t user signature).db.key_packages
            ≡ keep (λ k. not (ltb k.expires_at w.unix)) s.db.key_packages)
  unfolding handle_fetch_pending_unified cleanup_expired_key_packages
  fetch_pending-packages s v t user signature = ground arith
