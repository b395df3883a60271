-- ===== src/App/BufferProcessor/Rounds.antt =====
-- The turns of the buffer processor, and that turns without new messages empty the buffer.
use nymstr.Prelude.{
  All-both, ℕ, ◌+◌, ◌≤◌, String, true, not, List, [], ◌∷◌, some, ◌≡◌, inl, inr, refl, sym, ap,
  subst, Bool-cases, length, leb, ◌&&◌, All, All-mono, arith, string_eq, nat_eq,
}
use nymstr.Crypto.EpochBuffer.{PendingMlsMessage}
use nymstr.App.Messages.Waiting.{is_over}
use nymstr.App.BufferProcessor.{
  DirectMessageHandler, Tick, Client, ◌>>◌, logged, process_buffered_messages,
  cleanup_expired_messages, turn, tick, ticks,
}
use nymstr.App.BufferProcessor.Rules.{
  Runs, Runs-bind, Runs-logged, Runs-mono, Runs-conversations, Runs-cleanup,
}
use nymstr.App.BufferProcessor.Progress.{All-keep_where, waiting_conversations-lists}
use nymstr.App.BufferProcessor.Retries.{Goal, Seen}
use nymstr.App.BufferProcessor.Conversations.{Finished, processes_all, starts}

module _ {M : Type 0} (h : DirectMessageHandler M) (k : ℕ) (G : PendingMlsMessage → Type 0)
    (goal : Goal k G) where
  module _ (w : Tick)
      (ready : w.has_mls_client && w.has_mixnet_service && w.has_signing_keys ≡ true) where
    works_through :
        Runs
          (All λ r. k ≤ r.retry_count)
          (process_buffered_messages h w)
          (λ _. All (Finished h k G goal))
    unfolding process_buffered_messages
    works_through = rw ready (
        Runs-bind Runs-conversations λ cs.
          Runs-mono
            (λ l p.
              subst (λ x. All (Seen h k G goal x "" []) l) (sym p.0)
                (All-both (starts h k G goal _) l (waiting_conversations-lists l) p.1))
            (λ a l q. q) (processes_all h k G goal cs ""))

    kept-Goal :
        (r : PendingMlsMessage)
        → not (is_over (w.is_older 300) r) ≡ true
        → Finished h k G goal r
        → G r
    kept-Goal r e (inl d) = absurd (ground arith)
    kept-Goal r e (inr g) = g

    turns :
        Runs
          (All λ r. k ≤ r.retry_count)
          (logged (process_buffered_messages h w) >> logged (cleanup_expired_messages h w))
          (λ _. All G)
    turns = Runs-bind (Runs-logged works_through) λ _. Runs-logged (
        Runs-cleanup {Q = All G} (w.is_older 300)
          (λ l. All-keep_where (λ r. not (is_over (w.is_older 300) r)) kept-Goal l))

    tick-runs :
        (username : String)
        → w.current_user ≡ some username
        → (s : Client M)
        → tick h w s
          ≡ ((logged (process_buffered_messages h w) >> logged (cleanup_expired_messages h w)) s).1
    unfolding tick
    tick-runs username user s = ap (λ o. turn h w o s) user

    pub tick-Goal :
        (username : String)
        → w.current_user ≡ some username
        → (s : Client M) → s.db.faults ≡ []
        → All (λ r. k ≤ r.retry_count) s.db.pending_mls_messages
        → ((tick h w s).db.faults ≡ []) × All G (tick h w s).db.pending_mls_messages
    tick-Goal username user s e b =
        let (a, ea, e', q) = turns.at s e b in
        subst (λ u. (u.db.faults ≡ []) × All G u.db.pending_mls_messages)
          (sym (tick-runs username user s)) (e', q)

-- A tick that goes through the buffer: a user is logged in, and all services are there.
pub record IsReady (w : Tick) : Type 0 where
  pub username : String
  pub logged_in : w.current_user ≡ some username
  pub served : w.has_mls_client && w.has_mixnet_service && w.has_signing_keys ≡ true

module _ {M : Type 0} (h : DirectMessageHandler M) where
  abbrev Waits : ℕ → Client M → Type 0
  Waits k s = (s.db.faults ≡ []) × All (λ r. k ≤ r.retry_count) s.db.pending_mls_messages

  counts-Goal : (k : ℕ) → Goal k (λ r. k + 1 ≤ r.retry_count)
  counts-Goal k = record {
    base = λ r g. omega arith;
    grow = λ r g. omega arith;
    reach = inr λ r b. omega arith;
  }

  -- At the tenth retry the message is given up.
  last-Goal : (k : ℕ) → 10 ≤ k → Goal k (λ r. 1 ≤ 0)
  last-Goal k b = record { base = λ r g. absurd (omega arith); grow = λ r g. g; reach = inl b }

  nothing-left : (rows : List PendingMlsMessage) → All (λ r. 1 ≤ 0) rows → rows ≡ []
  nothing-left [] a = refl
  nothing-left (r ∷ rows) a = absurd (omega (arith, a.0))

  last-tick :
      (w : Tick)
      → IsReady w
      → (k : ℕ) → 10 ≤ k
      → (s : Client M) → Waits k s
      → Waits k (tick h w s) × ((tick h w s).db.pending_mls_messages ≡ [])
  last-tick w ready k b s (e, a) =
      let (e', g) =
        tick-Goal h k _ (last-Goal k b) w ready.served ready.username ready.logged_in s e a in
      ((e', All-mono _ _ (λ r x. absurd (omega arith)) _ g), nothing-left _ g)

  stays_empty :
      (ws : List Tick)
      → All IsReady ws
      → (s : Client M) → Waits 10 s
      → s.db.pending_mls_messages ≡ []
      → (ticks h ws s).db.pending_mls_messages ≡ []
  unfolding ticks
  stays_empty [] ready s a e = e
  stays_empty (w ∷ ws) ready s a e =
      let (a', e') = last-tick w ready.0 10 (omega arith) s a in
      stays_empty ws ready.1 (tick h w s) a' e'

  climbs :
      (ws : List Tick) (k : ℕ)
      → All IsReady ws
      → k ≤ 10
      → 11 ≤ k + length ws
      → (s : Client M) → Waits k s
      → (ticks h ws s).db.pending_mls_messages ≡ []
  unfolding ticks
  climbs [] k ready b n s a = absurd (omega arith)
  climbs (w ∷ ws) k ready b n s (e, a) = elim (Bool-cases (leb 10 k)) [
    | inl t ↦
        let (a', e') =
          last-tick w ready.0 10 (omega arith) s (e, All-mono _ _ (λ r x. ground arith) _ a) in
        stays_empty ws ready.1 (tick h w s) a' e'
    | inr t ↦
        climbs ws (k + 1) ready.1 (ground arith) (omega arith) (tick h w s) (
          tick-Goal h k _ (counts-Goal k) w ready.0.served ready.0.username ready.0.logged_in s e a)
  ]

  -- Whatever the handler makes of the messages, and however old they are: with a healthy database,
  -- eleven ticks of a user who is logged in and served, or more, leave no message in the buffer,
  -- since each is tried ten times at most and then given up.
  pub ticks-empty :
      (ws : List Tick) (s : Client M)
      → All IsReady ws
      → 11 ≤ length ws
      → s.db.faults ≡ []
      → (ticks h ws s).db.pending_mls_messages ≡ []
  ticks-empty ws s ready n e =
      climbs ws 0 ready (omega arith) (omega arith) s (e, every s.db.pending_mls_messages)
    where
      every : (l : List PendingMlsMessage) → All (λ r. 0 ≤ r.retry_count) l
      every [] = tt
      every (r ∷ l) = (omega arith, every l)
