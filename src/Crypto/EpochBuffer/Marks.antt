-- ===== src/Crypto/EpochBuffer/Marks.antt =====
-- crates/nymstr-crypto/src/mls/epoch_buffer.rs: what becomes of a buffered message.
use Prim.Native.String.{compare}
use text.Mathlib.Text.{is_lt}
use nymstr.Prelude.{
  ℕ, ◌+◌, ◌-◌, ◌*◌, ◌%◌, ◌^◌, String, Bool, true, not, List, [], ◌∷◌, none, some, or_else, Map,
  find, keep, first, length, ltb, ◌==◌, ◌&&◌, ◌||◌, if◌then◌else◌, string_eq,
}
use nymstr.Db.Tables.{Result, ok, err, fails}
use nymstr.Crypto.EpochBuffer.{
  Calendar, PendingMlsMessage, BufferedMessage, EpochAwareBuffer, after_call, ensure_table,
}

-- `queue.retain(|m| m.mls_message_b64 != text)`.
unfoldable pub without_text : String → List BufferedMessage → List BufferedMessage
unfolding keep
without_text text = keep λ m. not (m.mls_message_b64 == text)

-- `if let Some(queue) = buffer.get_mut(conv_id) { … }`.
unfoldable pub change_queue :
    String
    → (List BufferedMessage → List BufferedMessage)
    → Map String (List BufferedMessage)
    → Map String (List BufferedMessage)
change_queue conv_id f [] = []
change_queue conv_id f ((c, q) ∷ m) =
    let others = change_queue conv_id f m in if c == conv_id then (c, f q) ∷ m else (c, q) ∷ others

abbrev pub is_text : String → String → PendingMlsMessage → Bool
is_text conv_id text x = x.conversation_id == conv_id && x.mls_message_b64 == text

abbrev pub set_processed : PendingMlsMessage → PendingMlsMessage
set_processed x = record x { processed = true }

abbrev pub set_failed : String → PendingMlsMessage → PendingMlsMessage
set_failed error x = record x { failed = true; error_message = some error }

abbrev pub count_retry : PendingMlsMessage → PendingMlsMessage
count_retry x = record x { retry_count = x.retry_count + 1 }

-- `UPDATE … WHERE`.
unfoldable pub update_where :
    (PendingMlsMessage → Bool)
    → (PendingMlsMessage → PendingMlsMessage)
    → List PendingMlsMessage
    → List PendingMlsMessage
update_where p f [] = []
update_where p f (x ∷ xs) = (if p x then f x else x) ∷ update_where p f xs

-- An update of the rows, which fails or not.
unfoldable pub try_update :
    (List PendingMlsMessage → List PendingMlsMessage)
    → EpochAwareBuffer
    → Result (Unit {0}) × EpochAwareBuffer
unfolding fails
try_update f b =
    if fails b.faults
    then (err, after_call b)
    else (ok tt, record (after_call b) { rows = f b.rows })

-- The memory first, then the database, whose failure leaves the memory as it is by then.
unfoldable pub mark_processed :
    String → String → EpochAwareBuffer → Result (Unit {0}) × EpochAwareBuffer
unfolding without_text change_queue update_where try_update
mark_processed conv_id text b =
    try_update (update_where (λ x. is_text conv_id text x && not x.processed) set_processed)
      (record b { memory_buffer = change_queue conv_id (without_text text) b.memory_buffer })

unfoldable pub mark_failed :
    String → String → String → EpochAwareBuffer → Result (Unit {0}) × EpochAwareBuffer
unfolding without_text change_queue update_where try_update
mark_failed conv_id text error b =
    try_update (update_where (is_text conv_id text) (set_failed error))
      (record b { memory_buffer = change_queue conv_id (without_text text) b.memory_buffer })

-- The first message with the text counts up, as an `i32` does.
unfoldable pub bump_first : String → List BufferedMessage → List BufferedMessage
bump_first text [] = []
bump_first text (m ∷ ms) =
    let others = bump_first text ms in
    if m.mls_message_b64 == text
    then record m { retry_count = (m.retry_count + 1) % 2 ^ 32 } ∷ ms
    else m ∷ others

-- The count of the first message with the text, as the loop leaves it.
unfoldable pub first_count : String → List BufferedMessage → ℕ
unfolding first
first_count text queue = elim (first (λ m. m.mls_message_b64 == text) queue) [
  | none ↦ 0
  | some m ↦ m.retry_count
]

-- The count is the row's, if there is a row.
unfoldable pub row_count : String → String → ℕ → List PendingMlsMessage → ℕ
unfolding first
row_count conv_id text count rows = elim (first (is_text conv_id text) rows) [
  | none ↦ count
  | some x ↦ x.retry_count
]

unfoldable pub increment_retry : String → String → EpochAwareBuffer → Result ℕ × EpochAwareBuffer
unfolding bump_first first_count change_queue update_where try_update row_count fails
increment_retry conv_id text b =
    let memory = change_queue conv_id (bump_first text) b.memory_buffer in
    let count = first_count text (or_else (find conv_id memory) []) in
    let (result, s) =
      try_update (update_where (is_text conv_id text) count_retry)
        (record b { memory_buffer = memory }) in
    elim result [
      | err ↦ (err, s)
      | ok u ↦
          if fails s.faults
          then (err, after_call s)
          else (ok (row_count conv_id text count s.rows), after_call s)
    ]

unfoldable pub with_queue :
    String
    → List BufferedMessage
    → Map String (List BufferedMessage)
    → Map String (List BufferedMessage)
with_queue c [] m = m
with_queue c (x ∷ xs) m = (c, x ∷ xs) ∷ m

module _ (calendar : Calendar) where
  -- The memory's messages that came after the cutoff; a queue that is empty then goes.
  unfoldable pub drop_old :
      ℕ → Map String (List BufferedMessage) → Map String (List BufferedMessage)
  unfolding keep with_queue
  drop_old cutoff [] = []
  drop_old cutoff ((c, q) ∷ m) =
      with_queue c (keep (λ x. ltb cutoff x.received_at) q) (drop_old cutoff m)

  -- The database compares the texts of the times.
  abbrev pub is_expired : ℕ → PendingMlsMessage → Bool
  is_expired cutoff x = is_lt (compare x.received_at (calendar.rfc3339 cutoff)) && not x.processed

  unfoldable pub cleanup_expired : ℕ → ℕ → EpochAwareBuffer → Result ℕ × EpochAwareBuffer
  unfolding ensure_table fails drop_old keep
  cleanup_expired now max_age_secs b =
      let cutoff = now - max_age_secs * 1000000000 in
      let (failed, s) = ensure_table b in
      if failed || fails s.faults then (err, if failed then s else after_call s) else (
        ok (length (keep (is_expired cutoff) s.rows)),
        record (after_call s) {
          rows = keep (λ x. not (is_expired cutoff x)) s.rows;
          memory_buffer = drop_old cutoff s.memory_buffer;
        },
      )
