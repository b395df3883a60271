-- ===== src/App/BufferProcessor/Retries.antt =====
-- How the rows of one conversation come on while its messages are retried.
use nymstr.Prelude.{
  ℕ, ◌≤◌, String, true, false, List, [], ◌∷◌, ◌≡◌, ◌⊎◌, inl, inr, refl, Bool-cases, contains, leb,
  ◌==◌, ==_iff, ◌||◌, All, arith, string_eq, nat_eq,
}
use nymstr.Crypto.EpochBuffer.{PendingMlsMessage}
use nymstr.Crypto.EpochBuffer.Marks.{set_processed, set_failed, count_retry}
use nymstr.App.Messages.Waiting.{update_pending, increment_retry_count}
use nymstr.App.BufferProcessor.{
  Answer, content, no_content, failure, DirectMessageHandler, call, emit, decrypt, draw_uuid,
  handle_answer, retry, retry_all, mentions,
}
use nymstr.App.BufferProcessor.Rules.{
  Rows, Runs, Runs-pure, Runs-bind, Runs-aside, Runs-update, Runs-save,
}
use nymstr.App.BufferProcessor.Progress.{is_done, ids, All-update_where}

abbrev exceeded : String
exceeded = "Exceeded maximum retry attempts"

-- What a round makes of a row that it retries, of which `k` retries are counted already.
pub record Goal (k : ℕ) (G : PendingMlsMessage → Type 0) : Type 0 where
  pub base : (r : PendingMlsMessage) → G r → k ≤ r.retry_count
  pub grow : (r : PendingMlsMessage) → G r → G (count_retry r)
  pub reach : (10 ≤ k) ⊎ ((r : PendingMlsMessage) → k ≤ r.retry_count → G (count_retry r))

module _ {M : Type 0} (h : DirectMessageHandler M) (k : ℕ) (G : PendingMlsMessage → Type 0)
    (goal : Goal k G) where
  -- What the round has still to see: the conversations `cs`, and of `c` the messages `todo`.
  abbrev IsAhead : List String → String → List ℕ → PendingMlsMessage → Type 0
  IsAhead cs c todo r =
      (contains r.conversation_id cs ≡ true)
      ⊎ ((r.conversation_id ≡ c) × (contains r.id todo ≡ true))

  abbrev pub Seen : List String → String → List ℕ → PendingMlsMessage → Type 0
  Seen cs c todo r = (is_done r ≡ true) ⊎ (G r ⊎ ((k ≤ r.retry_count) × IsAhead cs c todo r))

  module _ (cs : List String) (c : String) where
    abbrev pub At : List ℕ → Rows
    At todo = All (Seen cs c todo)

    -- The other messages are still ahead when one is dealt with.
    Seen-other :
        (i : ℕ) (todo : List ℕ) (r : PendingMlsMessage)
        → (r.id == i) ≡ false
        → Seen cs c (i ∷ todo) r
        → Seen cs c todo r
    unfolding contains
    Seen-other i todo r e (inl d) = inl d
    Seen-other i todo r e (inr (inl g)) = inr (inl g)
    Seen-other i todo r e (inr (inr (b, inl a))) = inr (inr (b, inl a))
    Seen-other i todo r e (inr (inr (b, inr (a, m)))) =
        inr (inr (b, inr (a, ground (arith, ==_iff r.id i, ==_iff i r.id))))

    -- A message that is marked done needs no more.
    ends :
        (f : PendingMlsMessage → PendingMlsMessage)
        → ((r : PendingMlsMessage) → is_done (f r) ≡ true)
        → (i : ℕ) (todo : List ℕ)
        → Runs {M = M} (At (i ∷ todo)) (call (update_pending i f)) (λ _. At todo)
    ends f done i todo =
        Runs-update i f
          (All-update_where (λ r. r.id == i) f (λ r e s. inl (done r)) (Seen-other i todo))

    ends_again :
        (f : PendingMlsMessage → PendingMlsMessage)
        → ((r : PendingMlsMessage) → is_done (f r) ≡ true)
        → (i : ℕ) (todo : List ℕ)
        → Runs {M = M} (At todo) (call (update_pending i f)) (λ _. At todo)
    ends_again f done i todo =
        Runs-update i f (All-update_where (λ r. r.id == i) f (λ r e s. inl (done r)) (λ r e s. s))

    failed-done : (error : String) (r : PendingMlsMessage) → is_done (set_failed error r) ≡ true
    failed-done error r = ground arith

    processed-done : (r : PendingMlsMessage) → is_done (set_processed r) ≡ true
    processed-done r = refl

    counted :
        ((r : PendingMlsMessage) → k ≤ r.retry_count → G (count_retry r))
        → (i : ℕ) (todo : List ℕ) (r : PendingMlsMessage) → Seen cs c (i ∷ todo) r
        → Seen cs c todo (count_retry r)
    counted reach i todo r (inl d) = inl d
    counted reach i todo r (inr (inl g)) = inr (inl (goal.grow r g))
    counted reach i todo r (inr (inr (b, a))) = inr (inl (reach r b))

    counts :
        ((r : PendingMlsMessage) → k ≤ r.retry_count → G (count_retry r))
        → (i : ℕ) (todo : List ℕ)
        → Runs {M = M} (At (i ∷ todo)) (call (increment_retry_count i)) (λ _. At todo)
    counts reach i todo = Runs-update i count_retry (
        All-update_where (λ r. r.id == i) count_retry (λ r e s. counted reach i todo r s)
          (Seen-other i todo))

    answers :
        (m : PendingMlsMessage) (a : Answer) (todo : List ℕ)
        → Runs (At todo) (handle_answer h c m a) (λ _. At todo)
    unfolding handle_answer draw_uuid emit
    answers m (content text) todo =
        Runs-bind (Runs-aside (λ s. h.new_v4 s.drawn) (λ s. (refl, refl))) λ id.
          Runs-bind (Runs-save c _) λ _.
            Runs-bind (ends_again set_processed processed-done m.id todo)
              λ _. Runs-aside (λ s. tt) (λ s. (refl, refl))
    answers m no_content todo = ends_again set_processed processed-done m.id todo
    answers m (failure error) todo =
        elim (Bool-cases (mentions "epoch" error || mentions "Epoch" error)) [
          | inl e ↦ rw e (Runs-pure tt)
          | inr e ↦ rw e (ends_again (set_failed error) (failed-done error) m.id todo)
        ]

    retries :
        (m : PendingMlsMessage) (todo : List ℕ)
        → k ≤ m.retry_count
        → Runs (At (m.id ∷ todo)) (retry h c m) (λ _. At todo)
    unfolding retry decrypt
    retries m todo b = elim (Bool-cases (leb 10 m.retry_count)) [
      | inl e ↦ rw e (ends (set_failed exceeded) (failed-done exceeded) m.id todo)
      | inr e ↦ elim (goal.reach) [
        | inl t ↦ absurd (ground arith)
        | inr reach ↦ rw e (
            Runs-bind (counts reach m.id todo) λ _.
              Runs-bind
                (Runs-aside (λ s. (h.process_incoming_message m.sender m.mls_message_b64 s.mls).0)
                  (λ s. (refl, refl)))
                (λ a. answers m a todo))
      ]
    ]

    pub retries_all :
        (ms : List PendingMlsMessage)
        → All (λ m. k ≤ m.retry_count) ms
        → Runs (At (ids ms)) (retry_all h c ms) (λ _. At [])
    unfolding retry_all
    retries_all [] b = Runs-pure tt
    retries_all (m ∷ ms) b = Runs-bind (retries m (ids ms) b.0) λ _. retries_all ms b.1
