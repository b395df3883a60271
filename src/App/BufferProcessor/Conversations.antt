-- ===== src/App/BufferProcessor/Conversations.antt =====
-- How the rows come on while the processor goes through the conversations.
use nymstr.Prelude.{
  All-both, ℕ, ◌≤◌, String, true, false, List, [], ◌∷◌, ◌≡◌, ◌⊎◌, inl, inr, sym, subst, Bool-cases,
  contains, ◌==◌, ==_iff, All, All-mono, arith, string_eq, nat_eq,
}
use nymstr.Crypto.EpochBuffer.Entries.{All-order_received}
use nymstr.Crypto.EpochBuffer.{PendingMlsMessage, is_pending, pending_rows}
use nymstr.App.BufferProcessor.{
  DirectMessageHandler, process_conversation_buffer, process_conversations,
}
use nymstr.App.BufferProcessor.Rules.{
  Runs, Runs-pure, Runs-bind, Runs-logged, Runs-mono, Runs-from, Runs-buffered,
}
use nymstr.App.BufferProcessor.Progress.{is_done, ids, All-keep_where, pending_rows-lists}
use nymstr.App.BufferProcessor.Retries.{Goal, Seen, At, retries_all}

module _ {M : Type 0} (h : DirectMessageHandler M) (k : ℕ) (G : PendingMlsMessage → Type 0)
    (goal : Goal k G) where
  module _ (cs : List String) (c : String) where
    -- What the reading of the conversation finds.
    found-counted :
        (r : PendingMlsMessage)
        → is_pending c r ≡ true
        → Seen h k G goal (c ∷ cs) c [] r
        → k ≤ r.retry_count
    found-counted r e (inl d) = absurd (ground arith)
    found-counted r e (inr (inl g)) = goal.base r g
    found-counted r e (inr (inr (b, a))) = b

    opened :
        (todo : List ℕ) (r : PendingMlsMessage)
        → (is_pending c r ≡ true → contains r.id todo ≡ true)
        → Seen h k G goal (c ∷ cs) c [] r
        → Seen h k G goal cs c todo r
    unfolding contains
    opened todo r f (inl d) = inl d
    opened todo r f (inr (inl g)) = inr (inl g)
    opened todo r f (inr (inr (b, inr (a, m)))) = absurd (ground arith)
    opened todo r f (inr (inr (b, inl a))) = elim (Bool-cases (is_done r)) [
      | inl d ↦ inl d
      | inr d ↦ elim (Bool-cases (c == r.conversation_id)) [
        | inl e ↦ inr (
            inr (
              b,
              inr (
                sym ((==_iff c r.conversation_id).0 e),
                f (ground (arith, ==_iff c r.conversation_id, ==_iff r.conversation_id c)),
              ),
            ))
        | inr e ↦ inr (inr (b, inl (ground arith)))
      ]
    ]

    opens :
        (rows : List PendingMlsMessage)
        → All (Seen h k G goal (c ∷ cs) c []) rows
        → At h k G goal cs c (ids (pending_rows c rows)) rows
    opens rows a = All-both (opened (ids (pending_rows c rows))) rows (pending_rows-lists c rows) a

    found-all :
        (rows : List PendingMlsMessage)
        → All (Seen h k G goal (c ∷ cs) c []) rows
        → All (λ m. k ≤ m.retry_count) (pending_rows c rows)
    unfolding pending_rows
    found-all rows a =
        All-order_received (λ m. k ≤ m.retry_count) _
          (All-keep_where (is_pending c) found-counted rows a)

    processes :
        Runs
          (All (Seen h k G goal (c ∷ cs) c []))
          (process_conversation_buffer h c)
          (λ _. At h k G goal cs c [])
    unfolding process_conversation_buffer
    processes = Runs-bind (Runs-buffered c) λ ms.
        Runs-from (λ l p. subst (All λ m. k ≤ m.retry_count) (sym p.0) (found-all l p.1))
          λ b.
            Runs-mono (λ l p. subst (λ x. At h k G goal cs c (ids x) l) (sym p.0) (opens l p.1))
              (λ a l q. q) (retries_all h k G goal cs c ms b)

  abbrev pub Finished : PendingMlsMessage → Type 0
  Finished r = (is_done r ≡ true) ⊎ G r

  Seen-moved :
      (cs : List String) (c c' : String) (r : PendingMlsMessage)
      → Seen h k G goal cs c [] r
      → Seen h k G goal cs c' [] r
  unfolding contains
  Seen-moved cs c c' r (inl d) = inl d
  Seen-moved cs c c' r (inr (inl g)) = inr (inl g)
  Seen-moved cs c c' r (inr (inr (b, inl a))) = inr (inr (b, inl a))
  Seen-moved cs c c' r (inr (inr (b, inr (a, m)))) = absurd (ground arith)

  Seen-Finished : (c : String) (r : PendingMlsMessage) → Seen h k G goal [] c [] r → Finished r
  unfolding contains
  Seen-Finished c r (inl d) = inl d
  Seen-Finished c r (inr (inl g)) = inr g
  Seen-Finished c r (inr (inr (b, inl a))) = absurd (ground arith)
  Seen-Finished c r (inr (inr (b, inr (a, m)))) = absurd (ground arith)

  pub processes_all :
      (cs : List String) (c : String)
      → Runs (All (Seen h k G goal cs c [])) (process_conversations h cs) (λ _. All Finished)
  unfolding process_conversations
  processes_all [] c =
      Runs-mono (λ l p. p) (λ a l q. All-mono _ _ (Seen-Finished c) l q) (Runs-pure tt)
  processes_all (x ∷ cs) c =
      Runs-mono (λ l p. All-mono _ _ (Seen-moved (x ∷ cs) c x) l p) (λ a l q. q)
        (Runs-bind (Runs-logged (processes cs x)) λ _. processes_all cs x)

  pub starts :
      (cs : List String) (r : PendingMlsMessage)
      → (is_done r ≡ false → contains r.conversation_id cs ≡ true)
      → k ≤ r.retry_count
      → Seen h k G goal cs "" [] r
  starts cs r f b = elim (Bool-cases (is_done r)) [
    | inl d ↦ inl d
    | inr d ↦ inr (inr (b, inl (f d)))
  ]
