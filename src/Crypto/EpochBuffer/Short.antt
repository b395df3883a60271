-- ===== src/Crypto/EpochBuffer/Short.antt =====
-- What is in memory of one conversation stays short.
use nymstr.Prelude.{
  ℕ, ◌≤◌, String, List, [], ◌∷◌, ◌++◌, Option-cases, Bool-cases, Map, find, length, length-append,
  length-keep-le, leb, ◌==◌, string_eq, ◌≡◌, arith, inl, inr, Values, Values-find,
}
use native.Mathlib.Nat.{le_trans}
use nymstr.Crypto.EpochBuffer.{
  Calendar, BufferedMessage, PendingMlsMessage, EpochAwareBuffer, ensure_table, push_bounded,
  get_memory_pending, loaded,
}
use nymstr.Crypto.EpochBuffer.Marks.{
  without_text, change_queue, try_update, bump_first, with_queue, drop_old,
}
use nymstr.Crypto.EpochBuffer.Reload.{get_conversations_with_pending, load_queue}

abbrev pub IsShort : List BufferedMessage → Type 0
IsShort q = length q ≤ 100

-- No conversation has more than the maximum in memory.
abbrev pub IsBounded : EpochAwareBuffer → Type 0
IsBounded b = Values IsShort b.memory_buffer

pub push-IsShort :
    (m : BufferedMessage) (q : List BufferedMessage) → IsShort q → IsShort (push_bounded m q)
unfolding push_bounded
push-IsShort m q h = ground (arith, length-append q (m ∷ []))

-- A queue that is not there is empty.
pub pending-IsShort :
    (c : String) (b : EpochAwareBuffer) → IsBounded b → IsShort (get_memory_pending c b)
pending-IsShort c b h = elim (Option-cases (find c b.memory_buffer)) [
  | inl e ↦ rw e (omega arith)
  | inr (q, e) ↦ rw e (Values-find IsShort c b.memory_buffer q h e)
]

pub change_queue-IsShort :
    (c : String) (f : List BufferedMessage → List BufferedMessage)
    (m : Map String (List BufferedMessage))
    → ((q : List BufferedMessage) → length (f q) ≤ length q)
    → Values IsShort m
    → Values IsShort (change_queue c f m)
unfolding change_queue
change_queue-IsShort c f [] h v = tt
change_queue-IsShort c f ((d, q) ∷ m) h v = elim (Bool-cases (d == c)) [
  | inl e ↦ rw e (le_trans (h q) v.0, v.1)
  | inr e ↦ rw e (v.0, change_queue-IsShort c f m h v.1)
]

pub length-bump_first :
    (text : String) (q : List BufferedMessage) → length (bump_first text q) ≤ length q
unfolding bump_first
length-bump_first text [] = omega arith
length-bump_first text (m ∷ q) = ground (arith, length-bump_first text q)

pub length-without_text :
    (text : String) (q : List BufferedMessage) → length (without_text text q) ≤ length q
unfolding without_text
length-without_text text q = length-keep-le _ q

with_queue-IsShort :
    (c : String) (q : List BufferedMessage) (m : Map String (List BufferedMessage))
    → IsShort q
    → Values IsShort m
    → Values IsShort (with_queue c q m)
unfolding with_queue
with_queue-IsShort c [] m h v = v
with_queue-IsShort c (x ∷ xs) m h v = (h, v)

pub ensure-memory : (b : EpochAwareBuffer) → (ensure_table b).1.memory_buffer ≡ b.memory_buffer
unfolding ensure_table
ensure-memory b = ground arith

pub try_update-memory :
    (f : List PendingMlsMessage → List PendingMlsMessage) (b : EpochAwareBuffer)
    → (try_update f b).1.memory_buffer ≡ b.memory_buffer
unfolding try_update
try_update-memory f b = ground arith

pub conversations-memory :
    (b : EpochAwareBuffer) → (get_conversations_with_pending b).1.memory_buffer ≡ b.memory_buffer
unfolding get_conversations_with_pending
conversations-memory b = ground arith

module _ (calendar : Calendar) where
  pub drop_old-IsShort :
      (cutoff : ℕ) (m : Map String (List BufferedMessage))
      → Values IsShort m
      → Values IsShort (drop_old calendar cutoff m)
  unfolding drop_old
  drop_old-IsShort cutoff [] v = tt
  drop_old-IsShort cutoff ((c, q) ∷ m) v =
      with_queue-IsShort c _ _ (le_trans (length-keep-le _ q) v.0) (drop_old-IsShort cutoff m v.1)

  pub load_queue-IsShort :
      (now : ℕ) (q : List BufferedMessage) (rows : List PendingMlsMessage)
      → IsShort q
      → IsShort (load_queue calendar now q rows)
  unfolding load_queue
  load_queue-IsShort now q [] h = h
  load_queue-IsShort now q (x ∷ xs) h = elim (Bool-cases (leb 100 (length q))) [
    | inl e ↦ rw e h
    | inr e ↦ rw e (
        load_queue-IsShort now (q ++ loaded calendar now x ∷ []) xs
          (ground (arith, length-append q (loaded calendar now x ∷ []))))
  ]
