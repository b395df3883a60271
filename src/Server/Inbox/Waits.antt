-- ===== src/Server/Inbox/Waits.antt =====
-- From the relay to the inbox: what is queued waits for its recipient.
use mathlib.Core.List.{Perm, perm_middle}
use mathlib.Core.List.Perm
use nymstr.Prelude.{
  subst, sym, append-nil, keep-append, Bool-cases, inl, inr, ltb, ℕ, ◌+◌, ◌<◌, String, false, List,
  [], ◌∷◌, ◌++◌, none, keep, ==_self, string_eq, ◌≡◌, ◌∙◌, ap, arith,
}
use nymstr.Json.{Value}
use nymstr.Db.Tables.{PendingMessage, ok, order_by, by_time, fails, rest}
use nymstr.Db.Pending.{has_id, new_message, waits_for, queue_pending_message, queued_with}
use nymstr.Server.State.{Env, World, Server}
use nymstr.Server.Delivery.{reachable, queue, relay_with_persistence}
use nymstr.Server.Inbox.Drain.{waiting_for}

by_time-Perm :
    (m : PendingMessage) (ms : List PendingMessage)
    → Perm (by_time (λ x. x.created_at) m ms) (m ∷ ms)
unfolding by_time
by_time-Perm m [] = Perm.rfl
by_time-Perm m (x ∷ xs) = elim (Bool-cases (ltb x.created_at m.created_at)) [
  | inl e ↦ rw e (Perm.trans (Perm.cons x (by_time-Perm m xs)) (Perm.swap m x xs))
  | inr e ↦ rw e Perm.rfl
]

order_by-Perm : (ms : List PendingMessage) → Perm (order_by (λ x. x.created_at) ms) ms
unfolding order_by
order_by-Perm [] = Perm.rfl
order_by-Perm (m ∷ ms) =
    Perm.trans (by_time-Perm m (order_by (λ x. x.created_at) ms)) (Perm.cons m (order_by-Perm ms))

-- One more row is one more message that waits, wherever it is put.
order_by-append :
    (m : PendingMessage) (ms : List PendingMessage)
    → Perm (order_by (λ x. x.created_at) (ms ++ m ∷ [])) (m ∷ order_by (λ x. x.created_at) ms)
order_by-append m ms = Perm.trans (order_by-Perm (ms ++ m ∷ [])) (
    Perm.trans (perm_middle ms []) (
      subst (λ l. Perm (m ∷ l) (m ∷ order_by (λ x. x.created_at) ms)) (sym (append-nil ms))
        (Perm.cons m (Perm.symm (order_by-Perm ms)))))

module _ (env : Env) (w : World) where
  relay_queued :
      (s : Server) (r f : String) (v : Value) (a : String)
      → reachable env w s r ≡ none
      → s.db.faults ≡ []
      → has_id w.uuid s.db.pending_messages ≡ false
      → ((relay_with_persistence env w s r f v a).0 ≡ ok w.uuid)
        × ((relay_with_persistence env w s r f v a).1.db.pending_messages
            ≡ s.db.pending_messages ++ new_message w.unix w.uuid r f (env.print v) a ∷ [])
  unfolding relay_with_persistence queue queue_pending_message queued_with fails rest
  relay_queued s r f v a e healthy fresh = ground arith

  -- With a healthy database and a new id, a message for a user that cannot be reached is accepted
  -- under that id, and until a week has passed it waits for the user as it was sent, with its
  -- sender, payload and action, beside what waited before.
  pub relay-waiting_for :
      (s : Server) (r f : String) (v : Value) (a : String) (now : ℕ)
      → reachable env w s r ≡ none
      → s.db.faults ≡ []
      → has_id w.uuid s.db.pending_messages ≡ false
      → now < w.unix + 604800
      → ((relay_with_persistence env w s r f v a).0 ≡ ok w.uuid)
        × Perm (waiting_for now r (relay_with_persistence env w s r f v a).1) (
            record {
              id = w.uuid;
              recipient = r;
              sender = f;
              payload = env.print v;
              action = a;
              created_at = w.unix;
              expires_at = w.unix + 604800;
            }
            ∷ waiting_for now r s)
  unfolding keep
  relay-waiting_for s r f v a now e healthy fresh young =
      let (done, more) = relay_queued s r f v a e healthy fresh in
      let m = new_message w.unix w.uuid r f (env.print v) a in
      let kept : keep (waits_for now r) (m ∷ []) ≡ m ∷ [] = ground (arith, ==_self r) in
      (
        done,
        subst (λ l. Perm (order_by (λ x. x.created_at) l) (m ∷ waiting_for now r s))
            (sym (
              ap (keep (waits_for now r)) more
              ∙ keep-append (waits_for now r) s.db.pending_messages (m ∷ [])
              ∙ ap (λ l. keep (waits_for now r) s.db.pending_messages ++ l) kept))
            (order_by-append m (keep (waits_for now r) s.db.pending_messages)),
      )
