-- ===== src/Tests/App.antt =====
-- Runs of the desktop client's buffer.
use nymstr.Prelude.{
  ℕ, String, zero, suc, List, [], ◌∷◌, none, some, false, true, ◌≡◌, refl, All, arith, drop, length,
  ◌-◌, contains, string_eq,
}
use nymstr.Crypto.EpochBuffer.{PendingMlsMessage}
use mathlib.Core.List.{Perm}
use nymstr.Db.Tables.{ok, ok_or}
use nymstr.App.Messages.{
  StoredMessage, stored_row, execute, order_timestamp_desc, reverse, status_to_string,
  string_to_status, MessageDto, delivered, save_message, get_all_messages, get_messages,
}
use nymstr.App.Messages.Ordered.{Ordered}
use nymstr.App.Messages.Saved.{Chronological, IsNewest, save_message-get_all}
use nymstr.App.BufferProcessor.{failure, DirectMessageHandler, Tick, Client, ticks}
use nymstr.App.BufferProcessor.Rounds.{IsReady, ticks-empty}

-- It waits for an epoch that never comes, and counts the tries.
abbrev waiting_handler : DirectMessageHandler ℕ
waiting_handler = record {
  process_incoming_message = λ sender text n. (failure "wrong epoch", n);
  new_v4 = λ n. "uuid";
}

abbrev late : PendingMlsMessage
late = record {
  id = 1;
  conversation_id = "dm:ann:bob";
  sender = "ann";
  mls_message_b64 = "bXNn";
  received_at = "2026-01-18T12:00:00Z";
  retry_count = 0;
  processed = false;
  failed = false;
  error_message = none;
}

abbrev client : Client ℕ
client = record {
  db = record { messages = []; pending_mls_messages = late ∷ []; next_id = 2; faults = [] };
  mls = 0;
  drawn = 0;
  emitted = [];
}

abbrev moment : Tick
moment = record {
  current_user = some "bob";
  has_mls_client = true;
  has_mixnet_service = true;
  has_signing_keys = true;
  is_older = λ n t. false;
}

moment-IsReady : IsReady moment
moment-IsReady = record { username = "bob"; logged_in = refl; served = refl }

abbrev moments : ℕ → List Tick
moments zero = []
moments (suc n) = moment ∷ moments n

moments-IsReady : (n : ℕ) → All IsReady (moments n)
moments-IsReady zero = tt
moments-IsReady (suc n) = (moment-IsReady, moments-IsReady n)

ticks-empty_example : (ticks waiting_handler (moments 11) client).db.pending_mls_messages ≡ []
ticks-empty_example =
    ticks-empty waiting_handler (moments 11) client (moments-IsReady 11) (omega arith) refl

abbrev hello : MessageDto
hello = record {
  id = "m1";
  sender = "ann";
  content = "hi";
  timestamp = "2026-01-18T12:00:00Z";
  status = delivered;
  is_own = false;
  is_read = false;
}

save_message-get_all_example :
    let u = (save_message "dm:ann:bob" hello client.db).1 in
    let all = ok_or (get_all_messages "dm:ann:bob" u).0 [] in
    Perm all (hello ∷ ok_or (get_all_messages "dm:ann:bob" client.db).0 [])
    × ((get_all_messages "group" u).0 ≡ (get_all_messages "group" client.db).0)
    × Ordered Chronological all
    × ((given : List MessageDto) × ((get_messages "dm:ann:bob" 50 u).0 ≡ ok given)
        × IsNewest 50 given all)
unfolding contains
save_message-get_all_example =
    save_message-get_all "dm:ann:bob" hello client.db "group" 50 refl refl (cc)

-- Three rows of one time: the newest two, in the order in which the query and `reverse` leave them.
abbrev tied : String → StoredMessage
tied id = stored_row "dm:ann:bob" (record hello { id = id })

tied_run :
    (get_messages "dm:ann:bob" 2
      (record client.db { messages = tied "m3" ∷ tied "m4" ∷ tied "m5" ∷ [] })).0
    ≡ ok (record hello { id = "m4" } ∷ record hello { id = "m3" } ∷ [])
unfolding get_messages execute order_timestamp_desc reverse nymstr.Prelude.keep
    nymstr.Db.Tables.fails status_to_string string_to_status
tied_run = refl
