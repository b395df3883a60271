-- ===== src/Server/Dispatch/Cases.antt =====
-- What holds of every handler holds of handling any message.
use nymstr.Prelude.{ℕ, String, List, Option, none, some, inl, inr, Option-cases}
use nymstr.Json.{Value, get_str}
use nymstr.Transport.{ReplyTag}
use nymstr.Server.State.{Env, World, Server, cleanup_stale_entries}
use nymstr.Server.Dispatch.{
  Action, Envelope, unified_action, legacy_action, envelope_of, dispatch_unified, dispatch_legacy,
  process_value, process_message,
}

module _ (env : Env) (w : World) where
  pub process_value-each :
      (P : Server → Type 0) (s : Server) (t : ReplyTag) (v : Value)
      → P s
      → ((kind : String) (a : Action) → P (dispatch_unified env w s t (envelope_of kind v) a))
      → ((a : Action) → P (dispatch_legacy env w s t v a))
      → P (process_value env w s t v)
  unfolding process_value
  process_value-each P s t v idle unified legacy = elim (Option-cases (get_str "type" v)) [
    | inl e ↦ elim (Option-cases (get_str "action" v)) [
      | inl n ↦ rw (e, process_value, n) idle
      | inr (a, n) ↦ elim (Option-cases (legacy_action a)) [
        | inl u ↦ rw (e, process_value, n, u) idle
        | inr (x, u) ↦ rw (e, process_value, n, u) (legacy x)
      ]
    ]
    | inr (kind, e) ↦ elim (Option-cases (get_str "action" v)) [
      | inl n ↦ rw (e, process_value, n) idle
      | inr (a, n) ↦ elim (Option-cases (unified_action a)) [
        | inl u ↦ rw (e, process_value, n, u) idle
        | inr (x, u) ↦ rw (e, process_value, n, u) (unified kind x)
      ]
    ]
  ]

  pub process_value-any :
      (P : Server → Type 0) (s : Server) (t : ReplyTag) (v : Value)
      → P s
      → ((m : Envelope) (a : Action) → P (dispatch_unified env w s t m a))
      → ((a : Action) → P (dispatch_legacy env w s t v a))
      → P (process_value env w s t v)
  process_value-any P s t v idle unified legacy =
      process_value-each P s t v idle (λ kind a. unified (envelope_of kind v) a) legacy

  pub process_message-any :
      (P : Server → Type 0) (s : Server) (tag : Option ReplyTag) (bytes : List ℕ)
      → P (cleanup_stale_entries w.instant s)
      → ((t : ReplyTag) (v : Value)
          → P (process_value env w (cleanup_stale_entries w.instant s) t v))
      → P (process_message env w s tag bytes)
  unfolding process_message
  process_message-any P s none bytes idle step = idle
  process_message-any P s (some t) bytes idle step = elim (Option-cases (env.decode_utf8 bytes)) [
    | inl e ↦ rw (e, process_message) idle
    | inr (raw, e) ↦ elim (Option-cases (env.parse raw)) [
      | inl p ↦ rw (e, process_message, p) idle
      | inr (v, p) ↦ rw (e, process_message, p) (step t v)
    ]
  ]
