-- ===== src/Crypto/EpochBuffer/Candidates.antt =====
-- Which messages are tried again.
use mathlib.Core.List.{Mem}
use nymstr.Prelude.{
  All, All-mono, All-append, All-keep, All-every, All-both, ◌⊎◌, sym, subst, find-insert_self, ℕ,
  String, true, false, not, List, [], ◌∷◌, ◌++◌, Option, none, some, Bool-cases, or_else, Map, find,
  insert, find-insert_ne, keep, ◌==◌, ==_iff, ==_self, ◌&&◌, ◌||◌, string_eq, ◌≡◌, refl, ◌∙◌, ap,
  arith, inl, inr,
}
use nymstr.Db.Tables.{ok, err, fails, rest}
use nymstr.Crypto.EpochBuffer.{
  Calendar, BufferedMessage, PendingMlsMessage, EpochAwareBuffer, ensure_table, queue_message,
  new_row, get_memory_pending, is_pending, by_received, order_received, pending_rows,
  get_db_pending, add_memory, loaded, push_bounded, buffered, add_rows, get_retry_candidates,
}
use nymstr.Crypto.EpochBuffer.Entries.{
  has_text, in_memory, OfRow, All-Mem, All-has_text, All-in_memory, All-push_bounded,
  All-order_received, Entry-add_memory, find-add_rows, find-add_rows_absent,
}
use nymstr.Crypto.EpochBuffer.Marks.{
  without_text, change_queue, update_where, is_text, set_processed, try_update, mark_processed,
}

has_text-by_received :
    (text : String) (x : PendingMlsMessage) (xs : List PendingMlsMessage)
    → has_text text (by_received x xs) ≡ has_text text (x ∷ xs)
unfolding has_text by_received
has_text-by_received text x [] = refl
has_text-by_received text x (y ∷ ys) = ground (arith, has_text-by_received text x ys)

has_text-order_received :
    (text : String) (xs : List PendingMlsMessage)
    → has_text text (order_received xs) ≡ has_text text xs
unfolding has_text order_received
has_text-order_received text [] = refl
has_text-order_received text (x ∷ xs) =
    has_text-by_received text x (order_received xs)
    ∙ ap (λ z. x.mls_message_b64 == text || z) (has_text-order_received text xs)

-- A pending row at the end is among the pending rows.
has_text-keep-append :
    (c text : String) (xs : List PendingMlsMessage) (x : PendingMlsMessage)
    → is_pending c x ≡ true
    → x.mls_message_b64 ≡ text
    → has_text text (keep (is_pending c) (xs ++ x ∷ [])) ≡ true
unfolding has_text keep
has_text-keep-append c text [] x p e = ground (arith, ==_iff x.mls_message_b64 text)
has_text-keep-append c text (y ∷ ys) x p e = ground (arith, has_text-keep-append c text ys x p e)

-- Once marked, no pending row has the text.
has_text-processed :
    (c text : String) (xs : List PendingMlsMessage)
    → has_text text (
        keep
          (is_pending c)
          (update_where (λ x. is_text c text x && not x.processed) set_processed xs))
      ≡ false
unfolding has_text keep update_where
has_text-processed c text [] = refl
has_text-processed c text (x ∷ xs) = ground (arith, has_text-processed c text xs)

-- The memory's messages of other texts do not touch the entry.
find-add_memory-without_text :
    (text : String) (q : List BufferedMessage) (m : Map String BufferedMessage)
    → find text (add_memory (without_text text q) m) ≡ find text m
unfolding add_memory without_text keep
find-add_memory-without_text text [] m = refl
find-add_memory-without_text text (x ∷ xs) m = elim (Bool-cases (x.mls_message_b64 == text)) [
  | inl e ↦ rw e (find-add_memory-without_text text xs m)
  | inr e ↦ rw e (
      find-add_memory-without_text text xs (insert x.mls_message_b64 x m)
      ∙ find-insert_ne x.mls_message_b64 text x m
          (λ q. ground (arith, ==_iff x.mls_message_b64 text)))
]

pending-change_queue :
    (c text : String) (m : Map String (List BufferedMessage))
    → or_else (find c (change_queue c (without_text text) m)) []
      ≡ without_text text (or_else (find c m) [])
unfolding change_queue find without_text keep
pending-change_queue c text [] = refl
pending-change_queue c text ((d, q) ∷ m) = ground (arith, pending-change_queue c text m)

module _ (calendar : Calendar) (now : ℕ) (text : String) where
  -- The candidate with the text, if the buffer gives its candidates.
  abbrev pub candidate : String → EpochAwareBuffer → Option BufferedMessage
  candidate c b = elim (get_retry_candidates calendar now c b).0 [ err ↦ none | ok m ↦ find text m ]

  candidate_lem :
      (c : String) (b : EpochAwareBuffer)
      → b.faults ≡ []
      → candidate c b
        ≡ find text
            (add_rows calendar now (pending_rows c b.rows) (add_memory (get_memory_pending c b) []))
  unfolding get_retry_candidates get_db_pending ensure_table fails rest
  candidate_lem c b healthy = ground arith

  queued :
      (w w' : ℕ) (c from : String) (b : EpochAwareBuffer)
      → b.faults ≡ []
      → let s = (queue_message calendar w w' c from text b).1 in
        (s.faults ≡ [])
        × (s.rows ≡ b.rows ++ new_row calendar b.next_id w c from text ∷ [])
        × (get_memory_pending c s
            ≡ push_bounded (buffered calendar w' from text) (get_memory_pending c b))
  unfolding queue_message ensure_table fails rest
  queued w w' c from b healthy = ground (
    arith,
    find-insert_self c (push_bounded (buffered calendar w' from text) (get_memory_pending c b))
        b.memory_buffer,
  )

  -- The candidate that stands for a row, of the memory and the rows after the message was queued.
  of_row :
      (P : PendingMlsMessage → Type 0) (Q : BufferedMessage → Type 0)
      → ((e : BufferedMessage) (i : Option ℕ) (n : ℕ)
          → Q e
          → Q (record e { db_id = i; retry_count = n }))
      → (w w' : ℕ) (c from : String) (b : EpochAwareBuffer) → b.faults ≡ []
      → let s = (queue_message calendar w w' c from text b).1 in
        All
          (λ x. x.mls_message_b64 ≡ text → P x × Q (loaded calendar now x))
          (pending_rows c s.rows)
        → All (λ e. e.mls_message_b64 ≡ text → Q e) (get_memory_pending c s)
        → (e : BufferedMessage) × (candidate c s ≡ some e) × OfRow text P Q e
  unfolding pending_rows find
  of_row P Q kept w w' c from b healthy rows_good memory_good =
      let s = (queue_message calendar w w' c from text b).1 in
      let (well, rows, _) = queued w w' c from b healthy in
      let row = new_row calendar b.next_id w c from text in
      let (e, there, of) =
        find-add_rows text calendar now P Q kept (pending_rows c s.rows)
          (add_memory (get_memory_pending c s) []) rows_good
          (Entry-add_memory text Q (get_memory_pending c s) [] memory_good (λ e f. absurd (cc)))
          (has_text-order_received text (keep (is_pending c) s.rows)
            ∙ ap (λ r. has_text text (keep (is_pending c) r)) rows
            ∙ has_text-keep-append c text b.rows row (ground (arith, ==_self c)) refl) in
      (e, candidate_lem c s well ∙ there, of)

  -- Of a text that was not buffered before, the new row is the only one.
  new_row_alone :
      (Q : BufferedMessage → Type 0) (w w' : ℕ) (c from : String) (b : EpochAwareBuffer)
      → b.faults ≡ []
      → has_text text b.rows ≡ false
      → Q (loaded calendar now (new_row calendar b.next_id w c from text))
      → let s = (queue_message calendar w w' c from text b).1 in
        All
          (λ x.
            x.mls_message_b64 ≡ text
            → (Mem x (pending_rows c s.rows) × (x ≡ new_row calendar b.next_id w c from text))
              × Q (loaded calendar now x))
          (pending_rows c s.rows)
  unfolding pending_rows
  new_row_alone Q w w' c from b healthy new q =
      let s = (queue_message calendar w w' c from text b).1 in
      let row = new_row calendar b.next_id w c from text in
      let IsRow : PendingMlsMessage → Type 0 = λ x. x.mls_message_b64 ≡ text → x ≡ row in
      let alone : All IsRow s.rows = subst (All IsRow) (sym (queued w w' c from b healthy).1) (
        All-append IsRow b.rows (row ∷ []) (All-has_text text (λ x. x ≡ row) b.rows new)
          (λ e. refl, tt)) in
      All-both (λ x m h e. ((m, h e), subst (λ y. Q (loaded calendar now y)) (sym (h e)) q))
        (pending_rows c s.rows) (All-Mem (pending_rows c s.rows))
        (All-order_received IsRow _ (All-keep IsRow (is_pending c) s.rows alone))

  -- With a healthy database, a message that was queued is a candidate of its conversation, also
  -- where the memory was full, and the candidate has its text, and the id and the retry count of a
  -- pending row of the conversation with this text. Unless the text was buffered before, that row
  -- is the new one: the candidate has its id and the sender, and no retries.
  pub candidate-queue_message :
      (w w' : ℕ) (c from : String) (b : EpochAwareBuffer)
      → b.faults ≡ []
      → let s = (queue_message calendar w w' c from text b).1 in
        (found : BufferedMessage) × (candidate c s ≡ some found)
        × (found.mls_message_b64 ≡ text)
        × ((x : PendingMlsMessage) × Mem x (pending_rows c s.rows)
            × (x.mls_message_b64 ≡ text)
            × (found.db_id ≡ some x.id)
            × (found.retry_count ≡ x.retry_count))
        × (((has_text text b.rows || in_memory text (get_memory_pending c b)) ≡ true)
            ⊎ ((found.sender ≡ from) × (found.db_id ≡ some b.next_id) × (found.retry_count ≡ 0)))
  candidate-queue_message w w' c from b healthy =
      let s = (queue_message calendar w w' c from text b).1 in
      elim (Bool-cases (has_text text b.rows || in_memory text (get_memory_pending c b))) [
        | inl old ↦
            let (e, there, of) =
              of_row (λ x. Mem x (pending_rows c s.rows)) (λ e. e.mls_message_b64 ≡ text)
                (λ e i n h. h) w w' c from b healthy
                (All-mono _ _ (λ x m t. (m, t)) (pending_rows c s.rows)
                  (All-Mem (pending_rows c s.rows)))
                (All-every (λ e t. t) (get_memory_pending c s)) in
            let (q, x, p, t, i, n) = of in (e, there, q, (x, p, t, i, n), inl old)
        | inr new ↦
            let Q : BufferedMessage → Type 0 =
              λ e. (e.mls_message_b64 ≡ text) × (e.sender ≡ from) in
            let (e, there, of) =
              of_row _ Q (λ e i n h. h) w w' c from b healthy
                (new_row_alone Q w w' c from b healthy (ground arith) (refl, refl))
                (subst (All (λ e. e.mls_message_b64 ≡ text → Q e))
                  (sym (queued w w' c from b healthy).2)
                  (All-push_bounded text (λ e. e.mls_message_b64 ≡ text → Q e)
                    (buffered calendar w' from text) (get_memory_pending c b) (λ t. (refl, refl))
                    (All-in_memory text Q (get_memory_pending c b) (ground arith)))) in
            let (q, x, p, t, i, n) = of in
            (
              e,
              there,
              q.0,
              (x, p.0, t, i, n),
              inr (q.1, i ∙ ap (λ y. some y.id) p.1, n ∙ ap (λ y. y.retry_count) p.1),
            )
      ]

  marked :
      (c : String) (b : EpochAwareBuffer)
      → b.faults ≡ []
      → ((mark_processed c text b).1.faults ≡ [])
        × ((mark_processed c text b).1.rows
            ≡ update_where (λ x. is_text c text x && not x.processed) set_processed b.rows)
        × ((mark_processed c text b).1.memory_buffer
            ≡ change_queue c (without_text text) b.memory_buffer)
  unfolding mark_processed try_update fails rest
  marked c b healthy = ground arith

  -- With a healthy database, a message that was marked as processed is no candidate any more,
  -- neither from the memory nor from the database, however often it was queued.
  pub candidate-mark_processed :
      (c : String) (b : EpochAwareBuffer)
      → b.faults ≡ []
      → candidate c (mark_processed c text b).1 ≡ none
  unfolding pending_rows find
  candidate-mark_processed c b healthy =
      let s = (mark_processed c text b).1 in
      let (well, rows, memory) = marked c b healthy in
      candidate_lem c s well
      ∙ find-add_rows_absent text calendar now (pending_rows c s.rows)
          (add_memory (get_memory_pending c s) [])
          (has_text-order_received text (keep (is_pending c) s.rows)
            ∙ ap (λ r. has_text text (keep (is_pending c) r)) rows
            ∙ has_text-processed c text b.rows)
      ∙ ap (λ m. find text (add_memory (or_else (find c m) []) [])) memory
      ∙ ap (λ q. find text (add_memory q [])) (pending-change_queue c text b.memory_buffer)
      ∙ find-add_memory-without_text text (get_memory_pending c b) []
