-- ===== src/Crypto/EpochBuffer/Reload.antt =====
-- crates/nymstr-crypto/src/mls/epoch_buffer.rs: loading the memory from the database.
-- The conversations come from a `HashSet`, in no order; here they are in the order of the rows.
use nymstr.Prelude.{
  ℕ, ◌+◌, ◌-◌, String, not, List, [], ◌∷◌, ◌++◌, Map, find, insert, contains, length, leb, ◌&&◌,
  if◌then◌else◌, string_eq,
}
use nymstr.Db.Tables.{Result, ok, err, fails}
use nymstr.Crypto.EpochBuffer.{
  Calendar, PendingMlsMessage, BufferedMessage, EpochAwareBuffer, after_call, ensure_table,
  max_buffer_size, get_memory_pending, pending_rows, loaded,
}

-- A `HashSet` of the names.
unfoldable pub distinct : List String → List String
unfolding contains
distinct [] = []
distinct (c ∷ cs) = let others = distinct cs in if contains c others then others else c ∷ others

-- `SELECT DISTINCT conversation_id … WHERE processed = 0 AND failed = 0`.
unfoldable pub waiting_conversations : List PendingMlsMessage → List String
waiting_conversations [] = []
waiting_conversations (x ∷ xs) =
    let others = waiting_conversations xs in
    if not x.processed && not x.failed then x.conversation_id ∷ others else others

unfoldable pub buffered_conversations : Map String (List BufferedMessage) → List String
buffered_conversations [] = []
buffered_conversations ((c, []) ∷ m) = buffered_conversations m
buffered_conversations ((c, x ∷ xs) ∷ m) = c ∷ buffered_conversations m

unfoldable pub get_conversations_with_pending :
    EpochAwareBuffer → Result (List String) × EpochAwareBuffer
unfolding ensure_table fails distinct waiting_conversations buffered_conversations
get_conversations_with_pending b =
    let (failed, s) = ensure_table b in
    if failed then (err, s) else if fails s.faults then (err, after_call s) else (
      ok (distinct (waiting_conversations s.rows ++ buffered_conversations s.memory_buffer)),
      after_call s,
    )

module _ (calendar : Calendar) (now : ℕ) where
  -- The loop stops at a full queue.
  unfoldable pub load_queue : List BufferedMessage → List PendingMlsMessage → List BufferedMessage
  load_queue queue [] = queue
  load_queue queue (x ∷ xs) =
      let longer = load_queue (queue ++ loaded calendar now x ∷ []) xs in
      if leb max_buffer_size (length queue) then queue else longer

  -- An error ends the loop, with what is loaded by then.
  unfoldable pub load_conversations : List String → EpochAwareBuffer → Result ℕ × EpochAwareBuffer
  unfolding load_queue fails pending_rows insert find
  load_conversations [] b = (ok 0, b)
  load_conversations (c ∷ cs) b =
      let queue = get_memory_pending c b in
      let longer = load_queue queue (pending_rows c b.rows) in
      let s : EpochAwareBuffer = record (after_call b) {
        memory_buffer = insert c longer b.memory_buffer;
      } in
      let (result, s') = load_conversations cs s in
      if fails b.faults
      then (err, after_call b)
      else (elim result [ err ↦ err | ok n ↦ ok (n + (length longer - length queue)) ], s')

  unfoldable pub reload_from_db : EpochAwareBuffer → Result ℕ × EpochAwareBuffer
  unfolding ensure_table get_conversations_with_pending load_conversations
  reload_from_db b =
      let (failed, s) = ensure_table b in
      let (conversations, s') = get_conversations_with_pending s in
      if failed
      then (err, s)
      else elim conversations [ err ↦ (err, s') | ok cs ↦ load_conversations cs s' ]

pub record BufferStats : Type 0 where
  pub total_memory_messages : ℕ
  pub conversations_with_pending : ℕ
  pub tracked_epochs : ℕ

unfoldable pub total_memory : Map String (List BufferedMessage) → ℕ
total_memory [] = 0
total_memory ((c, q) ∷ m) = length q + total_memory m

abbrev pub get_stats : EpochAwareBuffer → BufferStats
get_stats b = record {
  total_memory_messages = total_memory b.memory_buffer;
  conversations_with_pending = length b.memory_buffer;
  tracked_epochs = length b.known_epochs;
}
