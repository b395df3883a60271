-- ===== src/GroupServer/Steps/Process.antt =====
-- Every message takes only allowed steps: the handlers refine the specification of GroupServer/Steps.
use nymstr.Prelude.{All, ℕ, List, [], ◌∷◌, Option, none, some, refl, inl, inr, Option-cases}
use nymstr.Json.{Value, get_str}
use nymstr.Transport.{ReplyTag}
use nymstr.Server.State.{World}
use nymstr.Common.RateLimiter.{cleanup}
use nymstr.GroupServer.Tables.{Tables}
use nymstr.GroupServer.Tables.Queues.{cleanup_old_message_hashes}
use nymstr.GroupServer.State.{GroupEnv, GroupServer, pure, expect, attempt}
use nymstr.GroupServer.Rules.{Does, Does-after, Does-guard, Does-last, guards_expect, guards_pure}
use nymstr.GroupServer.Process.{
  Action, register, approve_group, send_group, fetch_group, store_welcome, fetch_welcome,
  sync_epoch, buffer_commit, Envelope, envelope_of, unified_action, legacy_action, dispatch_unified,
  dispatch_legacy, process_value, tidy, process_message,
}
use nymstr.GroupServer.Steps.{Step, Steps, Steps-closed, here, next}
use nymstr.GroupServer.Steps.Accounts.{register-Steps, approve_group-Steps}
use nymstr.GroupServer.Steps.Messages.{send_group-Steps, fetch_group-Steps}
use nymstr.GroupServer.Steps.Welcomes.{store_welcome-Steps, fetch_welcome-Steps}
use nymstr.GroupServer.Steps.Commits.{sync_epoch-Steps, buffer_commit-Steps}

module _ (g : GroupEnv) (w : World) (tag : ReplyTag) {t₀ t : Tables} (p : Steps g w t₀ t) where
  unified-Steps : (m : Envelope) (a : Action) → Does (Steps g w t₀) t (dispatch_unified g w tag m a)
  unfolding dispatch_unified
  unified-Steps m register =
      Does-after (expect g w tag _ _ _) _ (guards_expect g w tag _ _ _) p
        λ r _. register-Steps g w tag r p
  unified-Steps m approve_group =
      Does-after (expect g w tag _ _ _) _ (guards_expect g w tag _ _ _) p
        λ r _. approve_group-Steps g w tag r p
  unified-Steps m send_group =
      Does-after (expect g w tag _ _ _) _ (guards_expect g w tag _ _ _) p
        λ r _. send_group-Steps g w tag r p
  unified-Steps m fetch_group =
      Does-after (expect g w tag _ _ _) _ (guards_expect g w tag _ _ _) p
        λ r _. fetch_group-Steps g w tag r p
  unified-Steps m store_welcome = store_welcome-Steps g w tag _ _ _ p
  unified-Steps m fetch_welcome = fetch_welcome-Steps g w tag _ _ _ p
  unified-Steps m sync_epoch = sync_epoch-Steps g w tag _ _ _ p
  unified-Steps m buffer_commit = buffer_commit-Steps g w tag _ _ _ p

  nothing : Does (Steps g w t₀) t (pure tt)
  nothing = Does-guard _ (guards_pure tt) p

  legacy-Steps : (v : Value) (a : Action) → Does (Steps g w t₀) t (dispatch_legacy g w tag v a)
  unfolding dispatch_legacy
  legacy-Steps v register =
      Does-after (expect g w tag _ _ _) _ (guards_expect g w tag _ _ _) p
        λ r _. register-Steps g w tag r p
  legacy-Steps v approve_group =
      Does-after (expect g w tag _ _ _) _ (guards_expect g w tag _ _ _) p
        λ r _. approve_group-Steps g w tag r p
  legacy-Steps v send_group =
      Does-after (expect g w tag _ _ _) _ (guards_expect g w tag _ _ _) p
        λ r _. send_group-Steps g w tag r p
  legacy-Steps v fetch_group =
      Does-after (expect g w tag _ _ _) _ (guards_expect g w tag _ _ _) p
        λ r _. fetch_group-Steps g w tag r p
  legacy-Steps v store_welcome = nothing
  legacy-Steps v fetch_welcome = nothing
  legacy-Steps v sync_epoch = nothing
  legacy-Steps v buffer_commit = nothing

  value-Steps : (v : Value) → Does (Steps g w t₀) t (process_value g w tag v)
  unfolding process_value
  value-Steps v = elim (Option-cases (get_str "type" v)) [
    | inl e ↦ elim (Option-cases (get_str "action" v)) [
      | inl n ↦ rw (e, process_value, n) nothing
      | inr (a, n) ↦ elim (Option-cases (legacy_action a)) [
        | inl u ↦ rw (e, process_value, n, u) nothing
        | inr (x, u) ↦ rw (e, process_value, n, u) (legacy-Steps v x)
      ]
    ]
    | inr (kind, e) ↦ elim (Option-cases (get_str "action" v)) [
      | inl n ↦ rw (e, process_value, n) nothing
      | inr (a, n) ↦ elim (Option-cases (unified_action a)) [
        | inl u ↦ rw (e, process_value, n, u) nothing
        | inr (x, u) ↦ rw (e, process_value, n, u) (unified-Steps (envelope_of v) x)
      ]
    ]
  ]

module _ (g : GroupEnv) where
  tidy-Steps : (w : World) (s : GroupServer) → Steps g w s.tables (tidy g w s).tables
  unfolding tidy
  tidy-Steps w s =
      let done : Does (Steps g w s.tables) s.tables
          (attempt (cleanup_old_message_hashes 600 w.unix)) =
        Does-last (cleanup_old_message_hashes 600 w.unix) here (next here Step.forget) in
      done.at
        (record s {
          rate_limiter = cleanup s.rate_limiter;
          rate_limiter_general = cleanup s.rate_limiter_general;
        })
        refl

  -- Whatever a message says, and whichever database calls fail, its handling changes the tables by
  -- allowed steps alone, each at the time of the message: users come in by a fresh registration
  -- that their key, the admin's, signed, or by an approval that the admin signed; content is put
  -- into the log by members who signed it, and commits by members who signed their group and epoch
  -- (not their bytes); welcomes are stored for a signature over their group and their user, by the
  -- admin where one is configured, and by any user otherwise.
  pub process_message-Steps :
      (w : World) (tag : Option ReplyTag) (bytes : List ℕ) (s : GroupServer)
      → Steps g w s.tables (process_message g w tag bytes s).tables
  unfolding process_message
  process_message-Steps w none bytes s = tidy-Steps w s
  process_message-Steps w (some t) bytes s = elim (Option-cases (g.env.decode_utf8 bytes)) [
    | inl e ↦ rw (e, process_message) (tidy-Steps w s)
    | inr (raw, e) ↦ elim (Option-cases (g.env.parse raw)) [
      | inl p ↦ rw (e, process_message, p) (tidy-Steps w s)
      | inr (v, p) ↦
          rw (e, process_message, p) ((value-Steps g w t (tidy-Steps w s) v).at (tidy g w s) refl)
    ]
  ]

  -- The messages that a server handles, one after the other.
  unfoldable pub run : GroupServer → List (World × Option ReplyTag × List ℕ) → GroupServer
  run s [] = s
  run s ((w, tag, bytes) ∷ ms) = run (process_message g w tag bytes s) ms

  -- What every step of every message keeps is kept over the messages.
  pub run-closed :
      (R : Tables → Tables → Type 0)
      → ((t : Tables) → R t t)
      → ((t u v : Tables) → R t u → R u v → R t v)
      → (ms : List (World × Option ReplyTag × List ℕ))
      → All (λ m. (t u : Tables) → Step g m.0 t u → R t u) ms
      → (s : GroupServer) → R s.tables (run s ms).tables
  unfolding run
  run-closed R same trans [] step s = same s.tables
  run-closed R same trans ((w, tag, bytes) ∷ ms) step s =
      let u = process_message g w tag bytes s in
      trans s.tables u.tables (run u ms).tables
        (Steps-closed R same trans step.0 s.tables u.tables (process_message-Steps w tag bytes s))
        (run-closed R same trans ms step.1 u)
