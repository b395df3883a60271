-- ===== src/App/Messages.antt =====
-- app/desktop/src/core/db/messages.rs: the messages of the client.
-- A call gives its result and the database after it; one that fails changes nothing.
pub mod Ordered
pub mod Saved
pub mod Waiting
use Prim.Native.String.{compare}
use text.Mathlib.Text.{is_lt}
use nymstr.Prelude.{
  ℕ, ◌+◌, String, Bool, true, false, not, List, [], ◌∷◌, ◌++◌, none, map, keep, length, take, ◌==◌,
  ◌&&◌, ◌||◌, if◌then◌else◌, string_eq, nat_eq,
}
use nymstr.Db.Tables.{Result, ok, err, fails, rest}
use nymstr.Crypto.EpochBuffer.{PendingMlsMessage, pending_rows}
use nymstr.Crypto.EpochBuffer.Marks.{update_where, set_processed, set_failed, count_retry}
use nymstr.Crypto.EpochBuffer.Reload.{distinct, waiting_conversations}

pub data MessageStatus : Type 0 where
  pending : MessageStatus
  sent : MessageStatus
  delivered : MessageStatus
  failed : MessageStatus

pub record MessageDto : Type 0 where
  pub id : String
  pub sender : String
  pub content : String
  pub timestamp : String
  pub status : MessageStatus
  pub is_own : Bool
  pub is_read : Bool

-- A row of messages.
pub record StoredMessage : Type 0 where
  pub id : String
  pub conversation_id : String
  pub sender : String
  pub content : String
  pub timestamp : String
  pub status : String
  pub is_own : Bool
  pub is_read : Bool

pub record MessageDb : Type 0 where
  pub messages : List StoredMessage
  pub pending_mls_messages : List PendingMlsMessage
  -- The next value of AUTOINCREMENT.
  pub next_id : ℕ
  pub faults : List Bool

abbrev pub Call : Type 0 → Type 0
Call A = MessageDb → Result A × MessageDb

-- A statement that reads a value and writes the tables.
unfoldable pub execute : {A : Type 0} → (MessageDb → A) → (MessageDb → MessageDb) → Call A
unfolding fails rest
execute value change db =
    let next = record db { faults = rest db.faults } in
    if fails db.faults then (err, next) else (ok (value db), change next)

unfoldable pub status_to_string : MessageStatus → String
status_to_string pending = "pending"
status_to_string sent = "sent"
status_to_string delivered = "delivered"
status_to_string failed = "failed"

unfoldable pub string_to_status : String → MessageStatus
string_to_status s =
    if s == "pending"
    then pending
    else if s == "sent"
    then sent
    else if s == "delivered"
    then delivered
    else if s == "failed"
    then failed
    else pending

abbrev pub stored_row : String → MessageDto → StoredMessage
stored_row conv_id m = record {
  id = m.id;
  conversation_id = conv_id;
  sender = m.sender;
  content = m.content;
  timestamp = m.timestamp;
  status = status_to_string m.status;
  is_own = m.is_own;
  is_read = m.is_read;
}

abbrev pub message_of : StoredMessage → MessageDto
message_of r = record {
  id = r.id;
  sender = r.sender;
  content = r.content;
  timestamp = r.timestamp;
  status = string_to_status r.status;
  is_own = r.is_own;
  is_read = r.is_read;
}

-- `INSERT OR REPLACE`, by the primary key.
unfoldable pub save_message : String → MessageDto → Call (Unit {0})
unfolding execute
save_message conv_id m =
    execute (λ _. tt)
      λ db. record db {
        messages = keep (λ r. not (r.id == m.id)) db.messages ++ stored_row conv_id m ∷ [];
      }

-- `ORDER BY timestamp ASC`, on the texts; rows of one time stay in their order.
unfoldable pub by_timestamp : StoredMessage → List StoredMessage → List StoredMessage
by_timestamp m [] = m ∷ []
by_timestamp m (x ∷ xs) =
    let others = by_timestamp m xs in
    if is_lt (compare x.timestamp m.timestamp) then x ∷ others else m ∷ x ∷ xs

unfoldable pub order_timestamp : List StoredMessage → List StoredMessage
unfolding by_timestamp
order_timestamp [] = []
order_timestamp (m ∷ ms) = by_timestamp m (order_timestamp ms)

-- `ORDER BY timestamp DESC`; rows of one time stay in their order here too.
unfoldable pub by_timestamp_desc : StoredMessage → List StoredMessage → List StoredMessage
by_timestamp_desc m [] = m ∷ []
by_timestamp_desc m (x ∷ xs) =
    let others = by_timestamp_desc m xs in
    if is_lt (compare m.timestamp x.timestamp) then x ∷ others else m ∷ x ∷ xs

unfoldable pub order_timestamp_desc : List StoredMessage → List StoredMessage
unfolding by_timestamp_desc
order_timestamp_desc [] = []
order_timestamp_desc (m ∷ ms) = by_timestamp_desc m (order_timestamp_desc ms)

unfoldable pub reverse : List StoredMessage → List StoredMessage
reverse [] = []
reverse (x ∷ xs) = reverse xs ++ x ∷ []

abbrev pub rows_of : String → List StoredMessage → List StoredMessage
rows_of conv_id rows = keep (λ r. r.conversation_id == conv_id) rows

-- The first `limit` rows of the descending order, turned around.
unfoldable pub get_messages : String → ℕ → Call (List MessageDto)
unfolding execute order_timestamp_desc reverse
get_messages conv_id limit =
    execute
      (λ db.
        map message_of (reverse (take limit (order_timestamp_desc (rows_of conv_id db.messages)))))
      (λ db. db)

unfoldable pub get_all_messages : String → Call (List MessageDto)
unfolding execute order_timestamp
get_all_messages conv_id =
    execute (λ db. map message_of (order_timestamp (rows_of conv_id db.messages))) (λ db. db)

unfoldable pub update_messages :
    (StoredMessage → Bool)
    → (StoredMessage → StoredMessage)
    → List StoredMessage
    → List StoredMessage
update_messages p f [] = []
update_messages p f (x ∷ xs) = (if p x then f x else x) ∷ update_messages p f xs

abbrev is_unread : String → StoredMessage → Bool
is_unread conv_id r = r.conversation_id == conv_id && not r.is_own && not r.is_read

unfoldable pub mark_conversation_read : String → Call ℕ
unfolding execute update_messages
mark_conversation_read conv_id =
    execute (λ db. length (keep (is_unread conv_id) db.messages))
      λ db. record db {
        messages =
            update_messages (is_unread conv_id) (λ r. record r { is_read = true }) db.messages;
      }

unfoldable pub update_status : String → MessageStatus → Call (Unit {0})
unfolding execute update_messages
update_status msg_id status =
    execute (λ _. tt)
      λ db. record db {
        messages =
            update_messages (λ r. r.id == msg_id)
              (λ r. record r { status = status_to_string status }) db.messages;
      }

unfoldable pub delete_message : String → Call (Unit {0})
unfolding execute
delete_message msg_id =
    execute (λ _. tt) λ db. record db { messages = keep (λ r. not (r.id == msg_id)) db.messages }

unfoldable pub delete_conversation_messages : String → Call (Unit {0})
unfolding execute
delete_conversation_messages conv_id =
    execute (λ _. tt)
      λ db. record db { messages = keep (λ r. not (r.conversation_id == conv_id)) db.messages }

unfoldable pub get_message_count : String → Call ℕ
unfolding execute
get_message_count conv_id = execute (λ db. length (rows_of conv_id db.messages)) (λ db. db)
