-- ===== src/Crypto/EpochBuffer.antt =====
-- crates/nymstr-crypto/src/mls/epoch_buffer.rs: MLS messages that wait for their epoch.
-- A time is a number of nanoseconds; its RFC 3339 text and the parser are a `Calendar`.
-- An operation gives its result and the buffer after it; `faults` says which database calls fail.
pub mod Marks
pub mod Reload
pub mod Entries
pub mod Candidates
pub mod Short
pub mod Bounded
use Prim.Native.String.{compare}
use text.Mathlib.Text.{is_lt}
use nymstr.Prelude.{
  ℕ, ◌+◌, ◌-◌, ◌*◌, ◌%◌, ◌^◌, String, Bool, true, false, not, List, [], ◌∷◌, ◌++◌, Option, none,
  some, or_else, map, Map, find, insert, contains, keep, length, ltb, leb, ◌==◌, ◌&&◌, ◌||◌,
  if◌then◌else◌, string_eq,
}
use nymstr.Db.Tables.{Result, ok, err, fails, rest}

pub record Calendar : Type 0 where
  pub rfc3339 : ℕ → String
  pub parse_rfc3339 : String → Option ℕ

-- A row of pending_mls_messages.
pub record PendingMlsMessage : Type 0 where
  pub id : ℕ
  pub conversation_id : String
  pub sender : String
  pub mls_message_b64 : String
  pub received_at : String
  pub retry_count : ℕ
  pub processed : Bool
  pub failed : Bool
  pub error_message : Option String

pub record BufferedMessage : Type 0 where
  pub sender : String
  pub mls_message_b64 : String
  pub received_at : ℕ
  -- The bits of an `i32`.
  pub retry_count : ℕ
  pub db_id : Option ℕ

pub record EpochAwareBuffer : Type 0 where
  pub memory_buffer : Map String (List BufferedMessage)
  pub known_epochs : Map String ℕ
  pub username : Option String
  pub rows : List PendingMlsMessage
  -- The next value of AUTOINCREMENT.
  pub next_id : ℕ
  pub faults : List Bool

abbrev pub max_buffer_size : ℕ
max_buffer_size = 100

-- A buffer over a database that is there.
unfoldable pub empty_buffer : List PendingMlsMessage → ℕ → List Bool → EpochAwareBuffer
empty_buffer rows next_id faults = record {
  memory_buffer = [];
  known_epochs = [];
  username = none;
  rows = rows;
  next_id = next_id;
  faults = faults;
}

abbrev pub set_username : String → EpochAwareBuffer → EpochAwareBuffer
set_username username b = record b { username = some username }

-- The buffer after one call of the database.
abbrev pub after_call : EpochAwareBuffer → EpochAwareBuffer
after_call b = record b { faults = rest b.faults }

-- The table, and the index whose failure is ignored: whether it failed, and the buffer after it.
unfoldable pub ensure_table : EpochAwareBuffer → Bool × EpochAwareBuffer
unfolding fails
ensure_table b = if fails b.faults then (true, after_call b) else (false, after_call (after_call b))

abbrev pub get_memory_pending : String → EpochAwareBuffer → List BufferedMessage
get_memory_pending conv_id b = or_else (find conv_id b.memory_buffer) []

-- A full queue leaves the message to the database alone.
unfoldable pub push_bounded : BufferedMessage → List BufferedMessage → List BufferedMessage
push_bounded m queue = if leb max_buffer_size (length queue) then queue else queue ++ m ∷ []

module _ (calendar : Calendar) where
  abbrev pub new_row : ℕ → ℕ → String → String → String → PendingMlsMessage
  new_row id now conv_id sender text = record {
    id = id;
    conversation_id = conv_id;
    sender = sender;
    mls_message_b64 = text;
    received_at = calendar.rfc3339 now;
    retry_count = 0;
    processed = false;
    failed = false;
    error_message = none;
  }

  abbrev pub buffered : ℕ → String → String → BufferedMessage
  buffered now sender text = record {
    sender = sender;
    mls_message_b64 = text;
    received_at = now;
    retry_count = 0;
    db_id = none;
  }

  -- Both clocks of the call: the row's and the buffered message's.
  unfoldable pub queue_message :
      ℕ → ℕ → String → String → String → EpochAwareBuffer → Result (Unit {0}) × EpochAwareBuffer
  unfolding ensure_table push_bounded fails
  queue_message now later conv_id sender text b =
      let (failed, s) = ensure_table b in
      if failed || fails s.faults then (err, if failed then s else after_call s) else (
        ok tt,
        record (after_call s) {
          rows = s.rows ++ new_row s.next_id now conv_id sender text ∷ [];
          next_id = s.next_id + 1;
          memory_buffer =
              insert conv_id
                (push_bounded (buffered later sender text) (get_memory_pending conv_id s))
                s.memory_buffer;
        },
      )

abbrev pub update_epoch : String → ℕ → EpochAwareBuffer → EpochAwareBuffer
update_epoch conv_id epoch b = record b { known_epochs = insert conv_id epoch b.known_epochs }

abbrev pub get_known_epoch : String → EpochAwareBuffer → Option ℕ
get_known_epoch conv_id b = find conv_id b.known_epochs

abbrev pub is_pending : String → PendingMlsMessage → Bool
is_pending conv_id m = m.conversation_id == conv_id && not m.processed && not m.failed

-- ORDER BY received_at ASC, on the texts.
unfoldable pub by_received : PendingMlsMessage → List PendingMlsMessage → List PendingMlsMessage
by_received m [] = m ∷ []
by_received m (x ∷ xs) =
    let rest = by_received m xs in
    if is_lt (compare x.received_at m.received_at) then x ∷ rest else m ∷ x ∷ xs

unfoldable pub order_received : List PendingMlsMessage → List PendingMlsMessage
unfolding by_received
order_received [] = []
order_received (m ∷ ms) = by_received m (order_received ms)

unfoldable pub pending_rows : String → List PendingMlsMessage → List PendingMlsMessage
unfolding keep order_received
pending_rows conv_id rows = order_received (keep (is_pending conv_id) rows)

unfoldable pub get_db_pending :
    String → EpochAwareBuffer → Result (List PendingMlsMessage) × EpochAwareBuffer
unfolding ensure_table fails pending_rows
get_db_pending conv_id b =
    let (failed, s) = ensure_table b in
    if failed
    then (err, s)
    else if fails s.faults
    then (err, after_call s)
    else (ok (pending_rows conv_id s.rows), after_call s)

-- The memory's messages by their text; a later one replaces an earlier one.
unfoldable pub add_memory :
    List BufferedMessage → Map String BufferedMessage → Map String BufferedMessage
unfolding insert
add_memory [] m = m
add_memory (x ∷ xs) m = add_memory xs (insert x.mls_message_b64 x m)

module _ (calendar : Calendar) (now : ℕ) where
  -- A row as it is loaded; a time that does not parse is now.
  abbrev pub loaded : PendingMlsMessage → BufferedMessage
  loaded x = record {
    sender = x.sender;
    mls_message_b64 = x.mls_message_b64;
    received_at = or_else (calendar.parse_rfc3339 x.received_at) now;
    retry_count = x.retry_count;
    db_id = some x.id;
  }

  -- The entry of the row's text, which takes the row's id and count.
  abbrev pub merged : PendingMlsMessage → Map String BufferedMessage → BufferedMessage
  merged x m = record (or_else (find x.mls_message_b64 m) (loaded x)) {
    db_id = some x.id;
    retry_count = x.retry_count;
  }

  unfoldable pub add_rows :
      List PendingMlsMessage → Map String BufferedMessage → Map String BufferedMessage
  unfolding insert find
  add_rows [] m = m
  add_rows (x ∷ xs) m = add_rows xs (insert x.mls_message_b64 (merged x m) m)

  -- The candidates by their text, as the source's `HashMap` holds them; it returns its values, in
  -- no order.
  unfoldable pub get_retry_candidates :
      String → EpochAwareBuffer → Result (Map String BufferedMessage) × EpochAwareBuffer
  unfolding get_db_pending add_memory add_rows
  get_retry_candidates conv_id b =
      let (pending, s) = get_db_pending conv_id b in
      elim pending [
        | err ↦ (err, s)
        | ok rows ↦ (ok (add_rows rows (add_memory (get_memory_pending conv_id b) [])), s)
      ]
