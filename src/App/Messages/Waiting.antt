-- ===== src/App/Messages/Waiting.antt =====
-- app/desktop/src/core/db/messages.rs: the messages that wait for their epoch.
use nymstr.Prelude.{
  ℕ, ◌+◌, String, Bool, false, not, List, [], ◌∷◌, ◌++◌, none, keep, length, ◌==◌, ◌||◌, nat_eq,
}
use nymstr.Crypto.EpochBuffer.{PendingMlsMessage, pending_rows}
use nymstr.Crypto.EpochBuffer.Marks.{update_where, set_processed, set_failed, count_retry}
use nymstr.Crypto.EpochBuffer.Reload.{distinct, waiting_conversations}
use nymstr.App.Messages.{Call, execute}

-- The count, the flags and the error take the defaults of the table.
abbrev pub waiting_row : ℕ → PendingMlsMessage → PendingMlsMessage
waiting_row id m = record m {
  id = id;
  retry_count = 0;
  processed = false;
  failed = false;
  error_message = none;
}

unfoldable pub buffer_message : PendingMlsMessage → Call (Unit {0})
unfolding execute
buffer_message m =
    execute (λ _. tt)
      λ db. record db {
        pending_mls_messages = db.pending_mls_messages ++ waiting_row db.next_id m ∷ [];
        next_id = db.next_id + 1;
      }

unfoldable pub get_buffered_messages : String → Call (List PendingMlsMessage)
unfolding execute
get_buffered_messages conv_id =
    execute (λ db. pending_rows conv_id db.pending_mls_messages) (λ db. db)

unfoldable pub get_conversations_with_pending : Call (List String)
unfolding execute
get_conversations_with_pending =
    execute (λ db. distinct (waiting_conversations db.pending_mls_messages)) (λ db. db)

unfoldable pub remove_buffered_message : ℕ → Call (Unit {0})
unfolding execute
remove_buffered_message id =
    execute (λ _. tt)
      λ db. record db {
        pending_mls_messages = keep (λ r. not (r.id == id)) db.pending_mls_messages;
      }

unfoldable pub update_pending : ℕ → (PendingMlsMessage → PendingMlsMessage) → Call (Unit {0})
unfolding execute
update_pending id f =
    execute (λ _. tt)
      λ db. record db {
        pending_mls_messages = update_where (λ r. r.id == id) f db.pending_mls_messages;
      }

abbrev pub mark_buffered_processed : ℕ → Call (Unit {0})
mark_buffered_processed id = update_pending id set_processed

abbrev pub mark_buffered_failed : ℕ → String → Call (Unit {0})
mark_buffered_failed id error = update_pending id (set_failed error)

abbrev pub increment_retry_count : ℕ → Call (Unit {0})
increment_retry_count id = update_pending id count_retry

-- `is_older received_at` is SQLite's comparison of the date with the one `max_age_secs` ago.
abbrev pub is_over : (String → Bool) → PendingMlsMessage → Bool
is_over is_older r = is_older r.received_at || r.processed || r.failed

unfoldable pub cleanup_expired_buffered : (String → Bool) → Call ℕ
unfolding execute
cleanup_expired_buffered is_older =
    execute (λ db. length (keep (is_over is_older) db.pending_mls_messages))
      λ db. record db {
        pending_mls_messages = keep (λ r. not (is_over is_older r)) db.pending_mls_messages;
      }
