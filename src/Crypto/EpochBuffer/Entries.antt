-- ===== src/Crypto/EpochBuffer/Entries.antt =====
-- What an entry of the candidates comes from: the memory's messages, and the rows.
use mathlib.Core.List.{Mem, mem-cons_self, mem-cons_of_mem}
use Prim.Native.String.{compare}
use text.Mathlib.Text.{is_lt}
use nymstr.Prelude.{
  ℕ, String, Bool, true, false, List, [], ◌∷◌, Option, some, Bool-cases, or_else, Map, find, insert,
  find-insert_ne, find-insert_self, ◌==◌, ==_iff, ◌||◌, string_eq, ◌≡◌, refl, sym, subst, ◌∙◌, ap,
  arith, inl, inr, All, All-mono, All-append, leb, length, Option-cases,
}
use nymstr.Crypto.EpochBuffer.{
  Calendar, BufferedMessage, PendingMlsMessage, by_received, order_received, add_memory, merged,
  loaded, add_rows, push_bounded,
}

module _ (P : PendingMlsMessage → Type 0) where
  All-by_received :
      (m : PendingMlsMessage) (l : List PendingMlsMessage) → P m → All P l → All P (by_received m l)
  unfolding by_received
  All-by_received m [] h k = (h, tt)
  All-by_received m (x ∷ l) h k = elim (Bool-cases (is_lt (compare x.received_at m.received_at))) [
    | inl e ↦ rw e (k.0, All-by_received m l h k.1)
    | inr e ↦ rw e (h, k)
  ]

  pub All-order_received : (l : List PendingMlsMessage) → All P l → All P (order_received l)
  unfolding order_received
  All-order_received [] h = h
  All-order_received (m ∷ l) h = All-by_received m _ h.0 (All-order_received l h.1)

pub All-Mem : (l : List PendingMlsMessage) → All (λ x. Mem x l) l
All-Mem [] = tt
All-Mem (x ∷ l) = (
  mem-cons_self,
  All-mono (λ y. Mem y l) (λ y. Mem y (x ∷ l)) (λ y h. mem-cons_of_mem x h) l (All-Mem l),
)

-- A row has the text.
unfoldable pub has_text : String → List PendingMlsMessage → Bool
has_text text [] = false
has_text text (x ∷ xs) = x.mls_message_b64 == text || has_text text xs

-- A message in memory has the text.
unfoldable pub in_memory : String → List BufferedMessage → Bool
in_memory text [] = false
in_memory text (x ∷ xs) = x.mls_message_b64 == text || in_memory text xs

module _ (text : String) where
  pub All-has_text :
      (P : PendingMlsMessage → Type 0) (rows : List PendingMlsMessage)
      → has_text text rows ≡ false
      → All (λ x. x.mls_message_b64 ≡ text → P x) rows
  unfolding has_text
  All-has_text P [] h = tt
  All-has_text P (x ∷ xs) h = (
    λ e. absurd (ground (arith, ==_iff x.mls_message_b64 text)),
    All-has_text P xs (ground arith),
  )

  pub All-in_memory :
      (Q : BufferedMessage → Type 0) (queue : List BufferedMessage)
      → in_memory text queue ≡ false
      → All (λ e. e.mls_message_b64 ≡ text → Q e) queue
  unfolding in_memory
  All-in_memory Q [] h = tt
  All-in_memory Q (x ∷ xs) h = (
    λ e. absurd (ground (arith, ==_iff x.mls_message_b64 text)),
    All-in_memory Q xs (ground arith),
  )

  module _ (Q : BufferedMessage → Type 0) where
    pub All-push_bounded :
        (m : BufferedMessage) (queue : List BufferedMessage)
        → Q m
        → All Q queue
        → All Q (push_bounded m queue)
    unfolding push_bounded
    All-push_bounded m queue h k = elim (Bool-cases (leb 100 (length queue))) [
      | inl e ↦ rw e k
      | inr e ↦ rw e (All-append Q queue (m ∷ []) k (h, tt))
    ]

    -- An entry for the text is there.
    abbrev pub Entry : Map String BufferedMessage → Type 0
    Entry m = (e : BufferedMessage) → find text m ≡ some e → Q e

    Entry-insert :
        (x : BufferedMessage) (k : String) (m : Map String BufferedMessage)
        → (k ≡ text → Q x)
        → Entry m
        → Entry (insert k x m)
    Entry-insert x k m h rest e f = elim (Bool-cases (k == text)) [
      | inl q ↦
          let same = (==_iff k text).0 q in
          let found : some x ≡ some e =
            sym (find-insert_self k x m) ∙ ap (λ j. find j (insert k x m)) same ∙ f in
          subst Q (ap (λ o. or_else o x) found) (h same)
      | inr q ↦ rest e (sym (find-insert_ne k text x m (λ p. ground (arith, ==_iff k text))) ∙ f)
    ]

    -- What the memory's messages with the text have, its entry has.
    pub Entry-add_memory :
        (queue : List BufferedMessage) (m : Map String BufferedMessage)
        → All (λ e. e.mls_message_b64 ≡ text → Q e) queue
        → Entry m
        → Entry (add_memory queue m)
    unfolding add_memory
    Entry-add_memory [] m h k = k
    Entry-add_memory (x ∷ xs) m h k =
        Entry-add_memory xs (insert x.mls_message_b64 x m) h.1
          (Entry-insert x x.mls_message_b64 m h.0 k)

  -- The entry is of a row: it has the row's id and count.
  abbrev pub OfRow :
      (PendingMlsMessage → Type 0) → (BufferedMessage → Type 0) → BufferedMessage → Type 0
  OfRow P Q e =
      Q e
      × (x : PendingMlsMessage) × P x
      × (x.mls_message_b64 ≡ text)
      × (e.db_id ≡ some x.id)
      × (e.retry_count ≡ x.retry_count)

  module _ (calendar : Calendar) (now : ℕ) where
    -- Rows of other texts do not touch the entry.
    pub find-add_rows_absent :
        (rows : List PendingMlsMessage) (m : Map String BufferedMessage)
        → has_text text rows ≡ false
        → find text (add_rows calendar now rows m) ≡ find text m
    unfolding add_rows has_text
    find-add_rows_absent [] m h = refl
    find-add_rows_absent (x ∷ xs) m h =
        find-add_rows_absent xs (insert x.mls_message_b64 (merged calendar now x m) m)
          (ground arith)
        ∙ find-insert_ne x.mls_message_b64 text (merged calendar now x m) m
            (λ e. ground (arith, ==_iff x.mls_message_b64 text))

    module _ (P : PendingMlsMessage → Type 0) (Q : BufferedMessage → Type 0)
        (kept : (e : BufferedMessage) (i : Option ℕ) (n : ℕ)
          → Q e
          → Q (record e { db_id = i; retry_count = n })) where
      -- Of what the rows with the text have, and the entry before them, is the entry after them.
      pub find-add_rows :
          (rows : List PendingMlsMessage) (m : Map String BufferedMessage)
          → All (λ x. x.mls_message_b64 ≡ text → P x × Q (loaded calendar now x)) rows
          → Entry Q m
          → has_text text rows ≡ true
          → (e : BufferedMessage) × (find text (add_rows calendar now rows m) ≡ some e)
            × OfRow P Q e
      unfolding add_rows has_text
      find-add_rows [] m a k h = absurd (ground arith)
      find-add_rows (x ∷ xs) m a k h =
          let y = merged calendar now x m in
          let m' = insert x.mls_message_b64 y m in
          let good : x.mls_message_b64 ≡ text → Q y = λ e.
            kept (or_else (find x.mls_message_b64 m) (loaded calendar now x)) _ _
              (elim (Option-cases (find text m)) [
                | inl f ↦
                    subst (λ o. Q (or_else o (loaded calendar now x)))
                      (sym (ap (λ j. find j m) e ∙ f)) (a.0 e).1
                | inr (z, f) ↦
                    subst (λ o. Q (or_else o (loaded calendar now x)))
                      (sym (ap (λ j. find j m) e ∙ f)) (k z f)
              ]) in
          elim (Bool-cases (has_text text xs)) [
            | inl t ↦ find-add_rows xs m' a.1 (Entry-insert Q y x.mls_message_b64 m good k) t
            | inr t ↦
                let e = (==_iff x.mls_message_b64 text).0 (ground arith) in
                (
                  y,
                  find-add_rows_absent xs m' t
                      ∙ ap (λ j. find j m') (sym e)
                      ∙ find-insert_self x.mls_message_b64 y m,
                  (good e, x, (a.0 e).0, e, refl, refl),
                )
          ]
