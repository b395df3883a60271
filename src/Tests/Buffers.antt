-- ===== src/Tests/Buffers.antt =====
-- Runs of the epoch buffer.
use nymstr.Prelude.{true, ◌||◌, ◌⊎◌, List, [], ◌∷◌, none, some, ◌≡◌, refl}
use nymstr.Crypto.EpochBuffer.{
  Calendar, EpochAwareBuffer, BufferedMessage, buffered, new_row, queue_message,
}
use nymstr.Crypto.EpochBuffer.Marks.{mark_processed}
use nymstr.Crypto.EpochBuffer.Short.{IsBounded}
use nymstr.Crypto.EpochBuffer.Bounded.{
  Operation, queuing, processing, retrying, reloading, operate_all, operate_all-IsBounded,
}
use mathlib.Core.List.{Mem}
use nymstr.Crypto.EpochBuffer.Entries.{has_text, in_memory}
use nymstr.Crypto.EpochBuffer.{PendingMlsMessage, pending_rows, get_memory_pending}
use nymstr.Crypto.EpochBuffer.Candidates.{
  candidate, candidate-queue_message, candidate-mark_processed,
}

-- A calendar with one date.
abbrev calendar : Calendar
calendar = record { rfc3339 = λ n. "today"; parse_rfc3339 = λ t. some 7 }

abbrev buffer : EpochAwareBuffer
buffer = record {
  memory_buffer = [];
  known_epochs = [];
  username = none;
  rows = [];
  next_id = 1;
  faults = [];
}

abbrev full_day : List (Operation calendar)
full_day =
    queuing 10 11 "c" "ann" "m1"
    ∷ queuing 12 13 "c" "ann" "m2"
    ∷ processing "c" "m1"
    ∷ retrying "c" "m2"
    ∷ reloading 20
    ∷ []

operate_all-IsBounded_example : IsBounded (operate_all calendar full_day buffer)
operate_all-IsBounded_example = operate_all-IsBounded calendar full_day buffer tt

candidate-queue_message_example :
    let s = (queue_message calendar 10 11 "c" "ann" "m1" buffer).1 in
    (found : BufferedMessage) × (candidate calendar 30 "m1" "c" s ≡ some found)
    × (found.mls_message_b64 ≡ "m1")
    × ((x : PendingMlsMessage) × Mem x (pending_rows "c" s.rows)
        × (x.mls_message_b64 ≡ "m1")
        × (found.db_id ≡ some x.id)
        × (found.retry_count ≡ x.retry_count))
    × (((has_text "m1" buffer.rows || in_memory "m1" (get_memory_pending "c" buffer)) ≡ true)
        ⊎ ((found.sender ≡ "ann") × (found.db_id ≡ some buffer.next_id) × (found.retry_count ≡ 0)))
candidate-queue_message_example =
    candidate-queue_message calendar 30 "m1" 10 11 "c" "ann" buffer refl

-- A message that waits in memory and in the database.
abbrev busy : EpochAwareBuffer
busy = record buffer {
  memory_buffer = ("c", buffered calendar 11 "ann" "m1" ∷ []) ∷ [];
  rows = new_row calendar 1 10 "c" "ann" "m1" ∷ [];
  next_id = 2;
}

candidate-mark_processed_example :
    candidate calendar 30 "m1" "c" (mark_processed "c" "m1" busy).1 ≡ none
candidate-mark_processed_example = candidate-mark_processed calendar 30 "m1" "c" busy refl
