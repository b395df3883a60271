-- ===== src/App/BufferProcessor/Rules.antt =====
-- Rules for the tasks of the buffer processor over a database that works.
use nymstr.Prelude.{
  ℕ, String, Bool, not, List, [], ◌∷◌, ◌++◌, ◌≡◌, refl, ap, ◌∙◌, keep, length, ◌==◌, nat_eq,
  string_eq,
}
use nymstr.Db.Tables.{ok, fails, rest}
use nymstr.Crypto.EpochBuffer.{PendingMlsMessage, pending_rows}
use nymstr.App.Messages.{MessageDb, MessageDto, execute, save_message, stored_row}
use nymstr.App.Messages.Waiting.{
  get_buffered_messages, get_conversations_with_pending, update_pending, is_over,
  cleanup_expired_buffered,
}
use nymstr.Crypto.EpochBuffer.Marks.{update_where}
use nymstr.Crypto.EpochBuffer.Reload.{distinct, waiting_conversations}
use nymstr.App.BufferProcessor.{Client, Task, ◌>>=◌, pure, call, logged}

abbrev pub Rows : Type 1
Rows = List PendingMlsMessage → Type 0

-- From rows with `P` the task ends without an error, and with `Q` of its result and the rows.
pub record Runs {M A : Type 0} (P : Rows) (m : Task M A) (Q : A → Rows) : Type 0 where
  pub at :
      (s : Client M)
      → s.db.faults ≡ []
      → P s.db.pending_mls_messages
      → (a : A) × ((m s).0 ≡ ok a) × ((m s).1.db.faults ≡ []) × Q a (m s).1.db.pending_mls_messages

abbrev pub next : MessageDb → MessageDb
next db = record db { faults = rest db.faults }

module _ {M : Type 0} {A : Type 0} where
  pub Runs-pure : {P : Rows} (a : A) → Runs {M = M} P (pure a) (λ _. P)
  unfolding pure
  Runs-pure a = record { at = λ s e p. (a, refl, e, p) }

  pub Runs-bind :
      {B : Type 0} {P : Rows} {Q : A → Rows} {R : B → Rows} {m : Task M A} {f : A → Task M B}
      → Runs P m Q
      → ((a : A) → Runs (Q a) (f a) R)
      → Runs P (m >>= f) R
  unfolding ◌>>=◌
  Runs-bind h k = record {
    at = λ s e p. let (a, ea, e', q) = h.at s e p in rw ea ((k a).at _ e' q);
  }

  Runs-call :
      {P : Rows} {Q : A → Rows} (value : MessageDb → A) (change : MessageDb → MessageDb)
      → ((db : MessageDb)
          → P db.pending_mls_messages
          → ((change (next db)).faults ≡ rest db.faults)
            × Q (value db) (change (next db)).pending_mls_messages)
      → Runs {M = M} P (call (execute value change)) Q
  unfolding call execute fails rest
  Runs-call value change h = record {
    at = λ s e p. let (e', q) = h s.db p in rw (ap fails e) (value s.db, refl, e' ∙ ap rest e, q);
  }

  -- A step of the client that leaves the database.
  pub Runs-aside :
      {P : Rows} {m : Task M A} (value : Client M → A)
      → ((s : Client M) → ((m s).0 ≡ ok (value s)) × ((m s).1.db ≡ s.db))
      → Runs P m (λ _. P)
  Runs-aside value h = record { at = λ s e p. (value s, (h s).0, rw ((h s).1) e, rw ((h s).1) p) }

  pub Runs-logged :
      {P : Rows} {Q : Rows} {m : Task M A} → Runs P m (λ _. Q) → Runs P (logged m) (λ _. Q)
  unfolding logged
  Runs-logged h = record { at = λ s e p. let (a, ea, e', q) = h.at s e p in (tt, refl, e', q) }

  pub Runs-mono :
      {P P' : Rows} {Q Q' : A → Rows} {m : Task M A}
      → ((l : List PendingMlsMessage) → P' l → P l)
      → ((a : A) (l : List PendingMlsMessage) → Q a l → Q' a l)
      → Runs P m Q
      → Runs P' m Q'
  Runs-mono f g h = record {
    at = λ s e p. let (a, ea, e', q) = h.at s e (f _ p) in (a, ea, e', g a _ q);
  }

  -- What a reading gave may be used for the rest.
  pub Runs-from :
      {P : Rows} {X : Type 0} {Q : A → Rows} {m : Task M A}
      → ((l : List PendingMlsMessage) → P l → X)
      → (X → Runs P m Q)
      → Runs P m Q
  Runs-from f h = record { at = λ s e p. (h (f _ p)).at s e p }

module _ {M : Type 0} {P : Rows} where
  pub Runs-update :
      {Q : Rows} (i : ℕ) (f : PendingMlsMessage → PendingMlsMessage)
      → ((l : List PendingMlsMessage) → P l → Q (update_where (λ r. r.id == i) f l))
      → Runs {M = M} P (call (update_pending i f)) (λ _. Q)
  unfolding update_pending
  Runs-update i f h =
      Runs-call (λ _. tt)
        (λ db. record db {
          pending_mls_messages = update_where (λ r. r.id == i) f db.pending_mls_messages;
        })
        (λ db p. (refl, h _ p))

  pub Runs-save :
      (conv_id : String) (m : MessageDto) → Runs {M = M} P (call (save_message conv_id m)) (λ _. P)
  unfolding save_message
  Runs-save conv_id m =
      Runs-call (λ _. tt)
        (λ db. record db {
          messages = keep (λ r. not (r.id == m.id)) db.messages ++ stored_row conv_id m ∷ [];
        })
        (λ db p. (refl, p))

  pub Runs-buffered :
      (conv_id : String)
      → Runs {M = M} P
          (call (get_buffered_messages conv_id))
          (λ ms l. (ms ≡ pending_rows conv_id l) × P l)
  unfolding get_buffered_messages
  Runs-buffered conv_id =
      Runs-call {Q = λ ms l. (ms ≡ pending_rows conv_id l) × P l}
        (λ db. pending_rows conv_id db.pending_mls_messages) (λ db. db) (λ db p. (refl, (refl, p)))

  pub Runs-conversations :
      Runs {M = M} P
        (call get_conversations_with_pending)
        (λ cs l. (cs ≡ distinct (waiting_conversations l)) × P l)
  unfolding get_conversations_with_pending
  Runs-conversations =
      Runs-call {Q = λ cs l. (cs ≡ distinct (waiting_conversations l)) × P l}
        (λ db. distinct (waiting_conversations db.pending_mls_messages)) (λ db. db)
        (λ db p. (refl, (refl, p)))

  pub Runs-cleanup :
      {Q : Rows} (is_older : String → Bool)
      → ((l : List PendingMlsMessage) → P l → Q (keep (λ r. not (is_over is_older r)) l))
      → Runs {M = M} P (call (cleanup_expired_buffered is_older)) (λ _. Q)
  unfolding cleanup_expired_buffered
  Runs-cleanup is_older h =
      Runs-call (λ db. length (keep (is_over is_older) db.pending_mls_messages))
        (λ db. record db {
          pending_mls_messages = keep (λ r. not (is_over is_older r)) db.pending_mls_messages;
        })
        (λ db p. (refl, h _ p))
