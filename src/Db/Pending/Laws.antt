-- ===== src/Db/Pending/Laws.antt =====
-- The queue of waiting messages: acknowledging is scoped to the recipient.
use nymstr.Prelude.{
  String, not, List, [], ◌∷◌, ◌++◌, keep, ◌==◌, ==_iff, ◌≡◌, ◌≢◌, refl, ◌⊎◌, take, length,
  take-length, take-length-append, inl, inr, arith, string_eq,
}
use nymstr.Db.Tables.{Db, PendingMessage}
use nymstr.Db.Pending.{is_acked, pending_acked, queued_with}

-- The messages that wait for a user, expired or not.
unfoldable pub inbox : String → List PendingMessage → List PendingMessage
unfolding keep
inbox user = keep λ m. m.recipient == user

pub inbox-keep_acked :
    (user other : String) (ids : List String) (ms : List PendingMessage)
    → user ≢ other
    → inbox other (keep (λ m. not (is_acked user ids m)) ms) ≡ inbox other ms
unfolding inbox
inbox-keep_acked user other ids [] h = refl
inbox-keep_acked user other ids (m ∷ ms) h =
    ground (
      arith,
      ==_iff m.recipient user,
      ==_iff m.recipient other,
      inbox-keep_acked user other ids ms h,
    )

pub pending_acked_cases :
    (db : Db) (user : String) (ids : List String)
    → (pending_acked db user ids ≡ db.pending_messages)
      ⊎ (pending_acked db user ids ≡ keep (λ m. not (is_acked user ids m)) db.pending_messages)
unfolding pending_acked
pending_acked_cases db user [] = inl refl
pending_acked_cases db user (i ∷ is) = ground arith

pub queued_with_cases :
    (db : Db) (m : PendingMessage)
    → (queued_with db m ≡ db.pending_messages) ⊎ (queued_with db m ≡ db.pending_messages ++ m ∷ [])
unfolding queued_with
queued_with_cases db m = ground arith

-- Queueing leaves what waits in its place.
pub take-queued_with :
    (db : Db) (m : PendingMessage)
    → take (length db.pending_messages) (queued_with db m) ≡ db.pending_messages
take-queued_with db m = elim (queued_with_cases db m) [
  | inl e ↦ rw e (take-length db.pending_messages)
  | inr e ↦ rw e (take-length-append db.pending_messages (m ∷ []))
]
