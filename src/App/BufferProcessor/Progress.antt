-- ===== src/App/BufferProcessor/Progress.antt =====
-- The rows that a round has still to see, and how each step of a round brings them on.
use nymstr.Prelude.{
  ℕ, String, Bool, true, false, List, [], ◌∷◌, map, ◌≡◌, inl, inr, sym, Bool-cases, keep, contains,
  ◌==◌, ==_iff, ◌||◌, All, All-mono, arith, string_eq, nat_eq,
}
use Prim.Native.String.{compare}
use text.Mathlib.Text.{is_lt}
use nymstr.Crypto.EpochBuffer.{
  PendingMlsMessage, is_pending, by_received, order_received, pending_rows,
}
use nymstr.Crypto.EpochBuffer.Marks.{update_where}
use nymstr.Crypto.EpochBuffer.Reload.{distinct, waiting_conversations}

abbrev pub is_done : PendingMlsMessage → Bool
is_done r = r.processed || r.failed

abbrev pub ids : List PendingMlsMessage → List ℕ
ids = map λ r. r.id

module _ {P Q : PendingMlsMessage → Type 0} (p : PendingMlsMessage → Bool)
    (f : PendingMlsMessage → PendingMlsMessage) where
  pub All-update_where :
      ((r : PendingMlsMessage) → p r ≡ true → P r → Q (f r))
      → ((r : PendingMlsMessage) → p r ≡ false → P r → Q r)
      → (rows : List PendingMlsMessage) → All P rows
      → All Q (update_where p f rows)
  unfolding update_where
  All-update_where met unmet [] h = h
  All-update_where met unmet (r ∷ rows) h = elim (Bool-cases (p r)) [
    | inl e ↦ rw e (met r e h.0, All-update_where met unmet rows h.1)
    | inr e ↦ rw e (unmet r e h.0, All-update_where met unmet rows h.1)
  ]

-- What every row that a filter keeps has.
pub All-keep_where :
    {P Q : PendingMlsMessage → Type 0} (p : PendingMlsMessage → Bool)
    → ((r : PendingMlsMessage) → p r ≡ true → P r → Q r)
    → (rows : List PendingMlsMessage) → All P rows
    → All Q (keep p rows)
unfolding keep
All-keep_where p met [] h = h
All-keep_where p met (r ∷ rows) h = elim (Bool-cases (p r)) [
  | inl e ↦ rw e (met r e h.0, All-keep_where p met rows h.1)
  | inr e ↦ rw e (All-keep_where p met rows h.1)
]

contains-by_received :
    (i : ℕ) (m : PendingMlsMessage) (l : List PendingMlsMessage)
    → contains i (ids (m ∷ l)) ≡ true
    → contains i (ids (by_received m l)) ≡ true
unfolding by_received contains
contains-by_received i m [] h = h
contains-by_received i m (x ∷ l) h =
    elim (Bool-cases (is_lt (compare x.received_at m.received_at))) [
      | inl e ↦ rw e (ground (arith, contains-by_received i m l))
      | inr e ↦ rw e h
    ]

contains-order_received :
    (i : ℕ) (l : List PendingMlsMessage)
    → contains i (ids l) ≡ true
    → contains i (ids (order_received l)) ≡ true
unfolding order_received contains
contains-order_received i [] h = h
contains-order_received i (m ∷ l) h =
    contains-by_received i m (order_received l) (ground (arith, contains-order_received i l))

kept-lists :
    (conv_id : String) (l : List PendingMlsMessage)
    → All
        (λ r.
          is_pending conv_id r ≡ true → contains r.id (ids (keep (is_pending conv_id) l)) ≡ true)
        l
unfolding keep contains
kept-lists conv_id [] = tt
kept-lists conv_id (r ∷ l) = elim (Bool-cases (is_pending conv_id r)) [
  | inl e ↦ rw e (
    λ h. ground (arith, ==_iff r.id r.id),
    All-mono _ _ (λ x h k. ground (arith, h k)) l (kept-lists conv_id l),
  )
  | inr e ↦
      (λ h. ground arith, All-mono _ _ (λ x h k. ground (arith, e, h k)) l (kept-lists conv_id l))
]

-- A reading of a conversation lists every row of it that is not done.
pub pending_rows-lists :
    (conv_id : String) (rows : List PendingMlsMessage)
    → All
        (λ r. is_pending conv_id r ≡ true → contains r.id (ids (pending_rows conv_id rows)) ≡ true)
        rows
unfolding pending_rows
pending_rows-lists conv_id rows =
    All-mono _ _ (λ r h e. contains-order_received r.id _ (h e)) rows (kept-lists conv_id rows)

contains-distinct :
    (c : String) (l : List String) → contains c l ≡ true → contains c (distinct l) ≡ true
unfolding distinct contains
contains-distinct c [] h = h
contains-distinct c (x ∷ l) h = elim (Bool-cases (contains x (distinct l))) [
  | inl e ↦ rw e (elim (Bool-cases (x == c)) [
    | inl d ↦ rw (sym ((==_iff x c).0 d)) e
    | inr d ↦ contains-distinct c l (ground arith)
  ])
  | inr e ↦ rw e (ground (arith, contains-distinct c l))
]

waiting-lists :
    (l : List PendingMlsMessage)
    → All (λ r. is_done r ≡ false → contains r.conversation_id (waiting_conversations l) ≡ true) l
unfolding waiting_conversations contains
waiting-lists [] = tt
waiting-lists (r ∷ l) = (
  λ h. ground (arith, ==_iff r.conversation_id r.conversation_id),
  All-mono _ _ (λ x h k. ground (arith, h k)) l (waiting-lists l),
)

-- The conversations that a round goes through are those of all rows that are not done.
pub waiting_conversations-lists :
    (rows : List PendingMlsMessage)
    → All
        (λ r.
          is_done r ≡ false
          → contains r.conversation_id (distinct (waiting_conversations rows)) ≡ true)
        rows
waiting_conversations-lists rows =
    All-mono _ _ (λ r h e. contains-distinct r.conversation_id _ (h e)) rows (waiting-lists rows)
