-- ===== src/Server/Inbox/Proofs.antt =====
-- What fetching, pinging and acknowledging change.
use nymstr.Prelude.{
  String, List, [], false, ◌∷◌, Option, none, some, Option-cases, Bool-cases, Bool, ◌≡◌, refl,
  arith, ◌⊎◌, inl, inr,
}
use nymstr.Json.{Value, get_i64}
use nymstr.Transport.{ReplyTag}
use nymstr.Db.Tables.{User, PendingMessage}
use nymstr.Server.State.{Env, World, Server, queried, tag_text, send_unified_message}
use nymstr.Server.State.Quiet.{Quiet}
use nymstr.Server.State.Change.{
  Claims, UserChange, UserChange-from, PendingChange, NonceChange, Change,
}
use nymstr.Db.Users.{find_user, get_user_by_username}
use nymstr.Common.RateLimiter.{check_and_record}
use nymstr.Server.Freshness.{is_stale}
use nymstr.Db.Users.Laws.{users_set_cases}
use nymstr.Prelude.Int.{ℤ, show_ℤ}
use Prim.Native.String.{◌++◌}
use nymstr.Server.Inbox.{
  send_all, drain, ping_text, verify_ping, ping_at, handle_fetch_pending_unified,
  handle_ping_unified, handle_ack_unified,
}

-- What a ping says of its time, which is fresh.
abbrev pub Pings : World → Value → String → Option String → Claims
Pings w v user given name text signature =
    (given ≡ some signature)
    × (ts : ℤ) × (get_i64 "timestamp" v ≡ some ts)
    × (is_stale w.unix ts ≡ false)
    × (name ≡ user)
    × (text ≡ "ping:" ++ user ++ ":" ++ show_ℤ ts)

module _ (env : Env) (w : World) where
  -- The server after the rate limiter has seen the call.
  abbrev pub limited : ReplyTag → Server → Server
  limited t s = record s {
    rate_limiter = (check_and_record w.instant (tag_text env t) s.rate_limiter).1;
  }

  abbrev allowed : ReplyTag → Server → Bool
  allowed t s = (check_and_record w.instant (tag_text env t) s.rate_limiter).0

  pub fetch_pending-Quiet :
      (s : Server) (v : Value) (t : ReplyTag) (u : String) (sig : Option String)
      → Quiet s (handle_fetch_pending_unified env w s v t u sig)
  unfolding handle_fetch_pending_unified
  fetch_pending-Quiet s v t u sig = ground arith

  pub ack-Quiet :
      (s : Server) (v : Value) (t : ReplyTag) (u : String) (sig : Option String)
      → Quiet s (handle_ack_unified env w s v t u sig)
  unfolding handle_ack_unified
  ack-Quiet s v t u sig = grind arith

  -- Sending changes the log of sent messages alone.
  pub send_all_frame :
      (s : Server) (t : ReplyTag) (u : String) (ms : List PendingMessage)
      → ((send_all env w s t u ms).db ≡ s.db)
        × ((send_all env w s t u ms).pending_users ≡ s.pending_users)
        × ((send_all env w s t u ms).nonces ≡ s.nonces)
        × ((send_all env w s t u ms).pending_groups ≡ s.pending_groups)
  unfolding send_all
  send_all_frame s t u [] = (refl, refl, refl, refl)
  send_all_frame s t u (m ∷ ms) = elim (Option-cases (env.parse m.payload)) [
    | inl e ↦ rw (e, send_all) (send_all_frame s t u ms)
    | inr (p, e) ↦
        rw (e, send_all)
          (send_all_frame (send_unified_message env w s t p m.action u m.sender) t u ms)
  ]

  drain_frame :
      (s : Server) (t : ReplyTag) (u : String)
      → ((drain env w s t u).db.users ≡ s.db.users)
        × ((drain env w s t u).db.groups ≡ s.db.groups)
        × ((drain env w s t u).pending_users ≡ s.pending_users)
        × ((drain env w s t u).nonces ≡ s.nonces)
        × ((drain env w s t u).pending_groups ≡ s.pending_groups)
  unfolding drain
  drain_frame s t u = grind (arith, send_all_frame)

  verify_ping-UserChange :
      {said : Claims} (s : Server) (u : User) (t : ReplyTag) (user sig : String) (ts : ℤ)
      → said user (ping_text user ts) sig
      → find_user user s.db.users ≡ some u
      → UserChange said env t s (verify_ping env w s u t user sig ts)
  unfolding verify_ping
  verify_ping-UserChange s u t user sig ts c h =
      elim (Bool-cases (env.verify_signature u.public_key (ping_text user ts) sig)) [
        | inl good ↦ elim (users_set_cases s.db user (tag_text env t)) [
          | inl e ↦ UserChange.kept (rw good (grind (arith, drain_frame)))
          | inr e ↦
              UserChange.spoke u user (ping_text user ts) sig c h good
                (rw good (grind (arith, drain_frame)))
        ]
        | inr bad ↦ UserChange.kept (rw bad refl)
      ]

  ping_at_cases :
      (s : Server) (t : ReplyTag) (user sig : String) (ts : ℤ)
      → ((ping_at env w s t user sig ts).db.users ≡ s.db.users)
        ⊎ ((u : User) × (find_user user s.db.users ≡ some u)
            × (is_stale w.unix ts ≡ false)
            × (ping_at env w s t user sig ts ≡ verify_ping env w (queried s) u t user sig ts))
  unfolding ping_at get_user_by_username
  ping_at_cases s t user sig ts = ground arith

  pub no_signature :
      (s : Server) (v : Value) (t : ReplyTag) (user : String)
      → ((handle_ping_unified env w s v t user none).db.users ≡ s.db.users)
        × ((handle_ping_unified env w s v t user none).db.pending_messages ≡ s.db.pending_messages)
  unfolding handle_ping_unified
  no_signature s v t user = ground arith

  pub ping_cases :
      (s : Server) (v : Value) (t : ReplyTag) (user sig : String)
      → (((handle_ping_unified env w s v t user (some sig)).db.users ≡ s.db.users)
          × ((handle_ping_unified env w s v t user (some sig)).db.pending_messages
              ≡ s.db.pending_messages))
        ⊎ ((ts : ℤ) × (get_i64 "timestamp" v ≡ some ts)
            × (handle_ping_unified env w s v t user (some sig)
                ≡ ping_at env w (limited t s) t user sig ts))
  unfolding handle_ping_unified
  ping_cases s v t user sig = elim (Option-cases (get_i64 "timestamp" v)) [
    | inl e ↦ inl (ground arith)
    | inr (ts, e) ↦ elim (Bool-cases (allowed t s)) [
      | inl yes' ↦ inr (ts, e, rw (yes', e) refl)
      | inr no' ↦ inl (ground arith)
    ]
  ]

  -- A ping changes the users table only if its timestamp is fresh and the user it names signed
  -- it; then it stores the sender's tag.
  pub ping-UserChange :
      (s : Server) (v : Value) (t : ReplyTag) (user : String) (signature : Option String)
      → UserChange
          (Pings w v user signature)
          env
          t
          s
          (handle_ping_unified env w s v t user signature)
  ping-UserChange s v t user none = UserChange.kept (no_signature s v t user).0
  ping-UserChange s v t user (some sig) = elim (ping_cases s v t user sig) [
    | inl e ↦ UserChange.kept e.0
    | inr (ts, at, e) ↦ elim (ping_at_cases (limited t s) t user sig ts) [
      | inl same ↦ UserChange.kept (rw e same)
      | inr (u, h, young, e') ↦
          rw (e, e')
            (UserChange-from s (queried (limited t s)) refl refl refl (
              verify_ping-UserChange (queried (limited t s)) u t user sig ts
                (refl, ts, at, young, refl, refl) h))
    ]
  ]

  verify_ping_rest :
      (s : Server) (u : User) (t : ReplyTag) (user sig : String) (ts : ℤ)
      → ((verify_ping env w s u t user sig ts).pending_users ≡ s.pending_users)
        × ((verify_ping env w s u t user sig ts).nonces ≡ s.nonces)
  unfolding verify_ping
  verify_ping_rest s u t user sig ts = grind (arith, drain_frame)

  ping_rest :
      (s : Server) (v : Value) (t : ReplyTag) (user : String) (signature : Option String)
      → ((handle_ping_unified env w s v t user signature).pending_users ≡ s.pending_users)
        × ((handle_ping_unified env w s v t user signature).nonces ≡ s.nonces)
  unfolding handle_ping_unified ping_at
  ping_rest s v t user signature = grind (arith, verify_ping_rest)

  pub ping-Change :
      (s : Server) (v : Value) (t : ReplyTag) (user : String) (signature : Option String)
      → Change (Pings w v user signature) env w t s (handle_ping_unified env w s v t user signature)
  ping-Change s v t user signature = record {
    users = ping-UserChange s v t user signature;
    pending = PendingChange.kept (ping_rest s v t user signature).0;
    nonces = NonceChange.kept (ping_rest s v t user signature).1;
  }

  verify_ping-groups :
      (s : Server) (u : User) (t : ReplyTag) (user sig : String) (ts : ℤ)
      → (verify_ping env w s u t user sig ts).db.groups ≡ s.db.groups
  unfolding verify_ping
  verify_ping-groups s u t user sig ts = grind (arith, drain_frame)

  pub ping-groups :
      (s : Server) (v : Value) (t : ReplyTag) (user : String) (signature : Option String)
      → (handle_ping_unified env w s v t user signature).db.groups ≡ s.db.groups
  unfolding handle_ping_unified ping_at
  ping-groups s v t user signature = grind (arith, verify_ping-groups)
