-- ===== src/App/BufferProcessor.antt =====
-- app/desktop/src/tasks/buffer_processor.rs: the rounds that retry what waits for its epoch.
-- Decryption by `DirectMessageHandler` and the MLS client is a parameter with a state `M`.
pub mod Rules
pub mod Progress
pub mod Retries
pub mod Conversations
pub mod Rounds
use text.Mathlib.Text.{starts_with}
use nymstr.Prelude.{
  ℕ, ◌+◌, String, Bool, true, false, List, [], ◌∷◌, ◌++◌, Option, none, some, leb, ◌&&◌, ◌||◌,
  if◌then◌else◌,
}
use nymstr.Db.Tables.{Result, ok, err}
use nymstr.Crypto.EpochBuffer.{PendingMlsMessage}
use nymstr.App.Messages.{MessageDto, MessageDb, Call, delivered, save_message}
use nymstr.App.Messages.Waiting.{
  get_buffered_messages, get_conversations_with_pending, mark_buffered_processed,
  mark_buffered_failed, increment_retry_count, cleanup_expired_buffered,
}

abbrev pub max_message_age_secs : ℕ
max_message_age_secs = 300

abbrev pub max_retry_count : ℕ
max_retry_count = 10

-- `Result<Option<String>>`, with the text of the error.
pub data Answer : Type 0 where
  content : String → Answer
  no_content : Answer
  failure : String → Answer

pub record DirectMessageHandler (M : Type 0) : Type 0 where
  -- The sender and the application message, in base64.
  pub process_incoming_message : String → String → M → Answer × M
  -- The UUIDs, in the order in which they are drawn.
  pub new_v4 : ℕ → String

-- What `AppState` holds at a tick, and whether a date lies a number of seconds back.
pub record Tick : Type 0 where
  pub current_user : Option String
  pub has_mls_client : Bool
  pub has_mixnet_service : Bool
  pub has_signing_keys : Bool
  pub is_older : ℕ → String → Bool

pub record Client (M : Type 0) : Type 0 where
  pub db : MessageDb
  pub mls : M
  pub drawn : ℕ
  -- The events handed to the user interface, with their conversations.
  pub emitted : List (MessageDto × String)

-- `error_msg.contains(word)`.
unfoldable pub mentions : String → String → Bool
mentions word String.[] = starts_with String.[] word
mentions word (String.◌∷◌ c s) = starts_with (String.◌∷◌ c s) word || mentions word s

abbrev pub Task : Type 0 → Type 0 → Type 0
Task M A = Client M → Result A × Client M

module _ {M : Type 0} where
  abbrev pub continue : {A B : Type 0} → (A → Task M B) → Result A × Client M → Result B × Client M
  continue f p = elim (p.0) [ err ↦ (err, p.1) | ok a ↦ f a p.1 ]

  infixl 5 ◌>>=◌ ◌>>◌
  unfoldable pub ◌>>=◌ : {A B : Type 0} → Task M A → (A → Task M B) → Task M B
  ◌>>=◌ m f s = continue f (m s)

  abbrev pub ◌>>◌ : {B : Type 0} → Task M (Unit {0}) → Task M B → Task M B
  m >> k = m >>= λ _. k

  unfoldable pub pure : {A : Type 0} → A → Task M A
  pure a s = (ok a, s)

  -- A database call under `?`.
  unfoldable pub call : {A : Type 0} → Call A → Task M A
  call op s = ((op s.db).0, record s { db = (op s.db).1 })

  -- A task whose error is only logged.
  unfoldable pub logged : {A : Type 0} → Task M A → Task M (Unit {0})
  logged m s = (ok tt, (m s).1)

  unfoldable pub emit : MessageDto → String → Task M (Unit {0})
  emit m conv_id s = (ok tt, record s { emitted = s.emitted ++ (m, conv_id) ∷ [] })

  module _ (h : DirectMessageHandler M) where
    unfoldable pub decrypt : PendingMlsMessage → Task M Answer
    decrypt m s =
        let p = h.process_incoming_message m.sender m.mls_message_b64 s.mls in
        (ok p.0, record s { mls = p.1 })

    unfoldable pub draw_uuid : Task M String
    draw_uuid s = (ok (h.new_v4 s.drawn), record s { drawn = s.drawn + 1 })

    abbrev pub received : String → String → PendingMlsMessage → MessageDto
    received id text m = record {
      id = id;
      sender = m.sender;
      content = text;
      timestamp = m.received_at;
      status = delivered;
      is_own = false;
      is_read = false;
    }

    unfoldable pub handle_answer : String → PendingMlsMessage → Answer → Task M (Unit {0})
    unfolding mentions
    handle_answer conv_id m (content text) = do
      id ← draw_uuid
      call (save_message conv_id (received id text m))
      call (mark_buffered_processed m.id)
      emit (received id text m) conv_id
    handle_answer conv_id m no_content = call (mark_buffered_processed m.id)
    handle_answer conv_id m (failure error) =
        if mentions "epoch" error || mentions "Epoch" error
        then pure tt
        else call (mark_buffered_failed m.id error)

    unfoldable pub retry : String → PendingMlsMessage → Task M (Unit {0})
    retry conv_id m =
        if leb max_retry_count m.retry_count
        then call (mark_buffered_failed m.id "Exceeded maximum retry attempts")
        else do
          call (increment_retry_count m.id)
          answer ← decrypt m
          handle_answer conv_id m answer

    -- The loop over the messages; an error of the database ends it.
    unfoldable pub retry_all : String → List PendingMlsMessage → Task M (Unit {0})
    retry_all conv_id [] = pure tt
    retry_all conv_id (m ∷ ms) = retry conv_id m >> retry_all conv_id ms

    unfoldable pub process_conversation_buffer : String → Task M (Unit {0})
    process_conversation_buffer conv_id = do
      messages ← call (get_buffered_messages conv_id)
      retry_all conv_id messages

    -- The loop over the conversations, which goes on after an error.
    unfoldable pub process_conversations : List String → Task M (Unit {0})
    process_conversations [] = pure tt
    process_conversations (c ∷ cs) =
        logged (process_conversation_buffer c) >> process_conversations cs

    unfoldable pub process_buffered_messages : Tick → Task M (Unit {0})
    process_buffered_messages w = do
      conversations ← call get_conversations_with_pending
      if w.has_mls_client && w.has_mixnet_service && w.has_signing_keys
          then process_conversations conversations
          else pure tt

    abbrev pub cleanup_expired_messages : Tick → Task M ℕ
    cleanup_expired_messages w = call (cleanup_expired_buffered (w.is_older max_message_age_secs))

    -- The turn for the user who is logged in, if one is.
    abbrev pub turn : Tick → Option String → Client M → Client M
    turn w none s = s
    turn w (some username) s =
        ((logged (process_buffered_messages w) >> logged (cleanup_expired_messages w)) s).1

    -- One turn of the loop of `start_buffer_processor`.
    unfoldable pub tick : Tick → Client M → Client M
    tick w = turn w w.current_user

    unfoldable pub ticks : List Tick → Client M → Client M
    unfolding tick
    ticks [] s = s
    ticks (w ∷ ws) s = ticks ws (tick w s)
