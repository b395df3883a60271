-- ===== src/Db/Pending.antt =====
-- nymstr-server/src/db_utils.rs: the messages that wait for a recipient.
pub mod Laws
use nymstr.Prelude.{
  ℕ, ◌+◌, ◌-◌, String, Bool, true, false, not, List, [], ◌∷◌, ◌++◌, keep, length, contains, ◌==◌,
  ◌&&◌, ◌||◌, ltb, if◌then◌else◌, string_eq,
}
use nymstr.Db.Tables.{Db, PendingMessage, Result, ok, err, answer, fails, rest, order_by}

unfoldable pub has_id : String → List PendingMessage → Bool
has_id id [] = false
has_id id (m ∷ ms) = m.id == id || has_id id ms

-- A row lives for a week.
abbrev pub new_message : ℕ → String → String → String → String → String → PendingMessage
new_message now id recipient sender payload action = record {
  id = id;
  recipient = recipient;
  sender = sender;
  payload = payload;
  action = action;
  created_at = now;
  expires_at = now + 604800;
}

-- The `id` of the row, which the caller's world draws; it is the primary key.
unfoldable pub queue_pending_message : Db → PendingMessage → Result String
unfolding fails has_id
queue_pending_message db m =
    if fails db.faults || has_id m.id db.pending_messages then err else ok m.id

unfoldable pub queued_with : Db → PendingMessage → List PendingMessage
unfolding fails has_id
queued_with db m =
    if fails db.faults || has_id m.id db.pending_messages
    then db.pending_messages
    else db.pending_messages ++ m ∷ []

abbrev pub after_queue : Db → PendingMessage → Db
after_queue db m = record db { pending_messages = queued_with db m; faults = rest db.faults }

abbrev pub waits_for : ℕ → String → PendingMessage → Bool
waits_for now recipient m = m.recipient == recipient && ltb now m.expires_at

unfoldable pub get_pending_messages : ℕ → Db → String → Result (List PendingMessage)
unfolding answer keep order_by
get_pending_messages now db recipient =
    answer db (order_by (λ m. m.created_at) (keep (waits_for now recipient) db.pending_messages))

unfoldable pub delete_pending_messages : Db → List String → Result ℕ
unfolding fails keep contains
delete_pending_messages db [] = ok 0
delete_pending_messages db (i ∷ is) =
    if fails db.faults
    then err
    else ok (length (keep (λ m. contains m.id (i ∷ is)) db.pending_messages))

unfoldable pub pending_without : Db → List String → List PendingMessage
unfolding fails keep contains
pending_without db [] = db.pending_messages
pending_without db (i ∷ is) =
    if fails db.faults
    then db.pending_messages
    else keep (λ m. not (contains m.id (i ∷ is))) db.pending_messages

abbrev pub is_acked : String → List String → PendingMessage → Bool
is_acked recipient ids m = m.recipient == recipient && contains m.id ids

unfoldable pub delete_for_recipient : Db → String → List String → Result ℕ
unfolding fails keep contains
delete_for_recipient db recipient [] = ok 0
delete_for_recipient db recipient (i ∷ is) =
    if fails db.faults
    then err
    else ok (length (keep (is_acked recipient (i ∷ is)) db.pending_messages))

unfoldable pub pending_acked : Db → String → List String → List PendingMessage
unfolding fails keep contains
pending_acked db recipient [] = db.pending_messages
pending_acked db recipient (i ∷ is) =
    if fails db.faults
    then db.pending_messages
    else keep (λ m. not (is_acked recipient (i ∷ is) m)) db.pending_messages

-- With no ids the source returns before the query.
unfoldable pub faults_after_delete : Db → List String → List Bool
faults_after_delete db [] = db.faults
faults_after_delete db (i ∷ is) = rest db.faults

abbrev pub after_delete_for_recipient : Db → String → List String → Db
after_delete_for_recipient db recipient ids = record db {
  pending_messages = pending_acked db recipient ids;
  faults = faults_after_delete db ids;
}

unfoldable pub cleanup_expired_messages : ℕ → Db → List PendingMessage
unfolding fails keep
cleanup_expired_messages now db =
    if fails db.faults
    then db.pending_messages
    else keep (λ m. not (ltb m.expires_at now)) db.pending_messages

unfoldable pub get_pending_message_count : ℕ → Db → String → Result ℕ
unfolding answer keep
get_pending_message_count now db recipient =
    answer db (length (keep (waits_for now recipient) db.pending_messages))
