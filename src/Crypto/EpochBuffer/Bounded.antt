-- ===== src/Crypto/EpochBuffer/Bounded.antt =====
-- The memory of the epoch buffer is bounded.
use nymstr.Prelude.{
  ℕ, ◌≤◌, String, not, List, [], ◌∷◌, Bool-cases, insert, ◌&&◌, length, string_eq, ◌≡◌, refl, arith,
  ◌⊎◌, ◌-◌, ◌*◌, inl, inr, Values-insert,
}
use nymstr.Db.Tables.{fails, rest, Result-cases}
use nymstr.Crypto.EpochBuffer.{
  Calendar, BufferedMessage, PendingMlsMessage, EpochAwareBuffer, set_username, ensure_table,
  push_bounded, queue_message, update_epoch, get_memory_pending, pending_rows, buffered,
}
use nymstr.Crypto.EpochBuffer.Marks.{
  without_text, change_queue, try_update, update_where, is_text, set_processed, set_failed,
  mark_processed, mark_failed, bump_first, increment_retry, cleanup_expired,
}
use nymstr.Crypto.EpochBuffer.Reload.{
  get_conversations_with_pending, load_conversations, reload_from_db,
}
use nymstr.Crypto.EpochBuffer.Short.{
  IsShort, push-IsShort, pending-IsShort, change_queue-IsShort, length-bump_first,
  length-without_text, ensure-memory, try_update-memory, conversations-memory, drop_old-IsShort,
  load_queue-IsShort, IsBounded,
}

module _ (calendar : Calendar) where
  queue_message-cases :
      (now later : ℕ) (c from text : String) (b : EpochAwareBuffer)
      → ((queue_message calendar now later c from text b).1.memory_buffer ≡ b.memory_buffer)
        ⊎ ((m : BufferedMessage) × ((queue_message calendar now later c from text b).1.memory_buffer
              ≡ insert c (push_bounded m (get_memory_pending c b)) b.memory_buffer))
  unfolding queue_message ensure_table
  queue_message-cases now later c from text b = elim (Bool-cases (fails b.faults)) [
    | inl e ↦ inl (rw e refl)
    | inr e ↦ elim (Bool-cases (fails (rest (rest b.faults)))) [
      | inl e' ↦ inl (rw (e, e') refl)
      | inr e' ↦ inr (buffered calendar later from text, rw (e, e') refl)
    ]
  ]

  queue_message-IsBounded :
      (now later : ℕ) (c from text : String) (b : EpochAwareBuffer)
      → IsBounded b
      → IsBounded (queue_message calendar now later c from text b).1
  queue_message-IsBounded now later c from text b h =
      elim (queue_message-cases now later c from text b) [
        | inl e ↦ rw e h
        | inr (m, e) ↦ rw e (
            Values-insert IsShort c _ b.memory_buffer
              (push-IsShort m (get_memory_pending c b) (pending-IsShort c b h)) h)
      ]

  cleanup-IsBounded :
      (now age : ℕ) (b : EpochAwareBuffer)
      → IsBounded b
      → IsBounded (cleanup_expired calendar now age b).1
  unfolding cleanup_expired ensure_table
  cleanup-IsBounded now age b h = elim (Bool-cases (fails b.faults)) [
    | inl e ↦ rw e h
    | inr e ↦ elim (Bool-cases (fails (rest (rest b.faults)))) [
      | inl e' ↦ rw (e, e') h
      | inr e' ↦ rw (e, e') (drop_old-IsShort calendar (now - age * 1000000000) b.memory_buffer h)
    ]
  ]

  load-IsBounded :
      (now : ℕ) (cs : List String) (b : EpochAwareBuffer)
      → IsBounded b
      → IsBounded (load_conversations calendar now cs b).1
  unfolding load_conversations
  load-IsBounded now [] b h = h
  load-IsBounded now (c ∷ cs) b h = elim (Bool-cases (fails b.faults)) [
    | inl e ↦ rw e h
    | inr e ↦ rw e (
        load-IsBounded now cs _ (
          Values-insert IsShort c _ b.memory_buffer
            (load_queue-IsShort calendar now (get_memory_pending c b) (pending_rows c b.rows)
              (pending-IsShort c b h))
            h))
  ]

  reload-IsBounded :
      (now : ℕ) (b : EpochAwareBuffer) → IsBounded b → IsBounded (reload_from_db calendar now b).1
  unfolding reload_from_db
  reload-IsBounded now b h =
      let s = (ensure_table b).1 in
      let s' = (get_conversations_with_pending s).1 in
      let bounded : IsBounded s' = rw (conversations-memory s, ensure-memory b) h in
      elim (Bool-cases (ensure_table b).0) [
        | inl e ↦ rw (e, reload_from_db) (rw (ensure-memory b) h)
        | inr e ↦ elim (Result-cases (get_conversations_with_pending s).0) [
          | inl n ↦ rw (e, reload_from_db, n) bounded
          | inr (cs, n) ↦ rw (e, reload_from_db, n) (load-IsBounded now cs s' bounded)
        ]
      ]

  mark-IsBounded :
      (f : List BufferedMessage → List BufferedMessage)
      (g : List PendingMlsMessage → List PendingMlsMessage) (c : String) (b : EpochAwareBuffer)
      → ((q : List BufferedMessage) → length (f q) ≤ length q)
      → IsBounded b
      → IsBounded (try_update g (record b { memory_buffer = change_queue c f b.memory_buffer })).1
  mark-IsBounded f g c b shorter h =
      rw (try_update-memory g (record b { memory_buffer = change_queue c f b.memory_buffer }))
        (change_queue-IsShort c f b.memory_buffer shorter h)

  retry-memory :
      (c text : String) (b : EpochAwareBuffer)
      → (increment_retry c text b).1.memory_buffer
        ≡ change_queue c (bump_first text) b.memory_buffer
  unfolding increment_retry
  retry-memory c text b = ground arith

  -- The operations that change the buffer.
  pub data Operation : Type 0 where
    queuing : ℕ → ℕ → String → String → String → Operation
    advancing : String → ℕ → Operation
    naming : String → Operation
    processing : String → String → Operation
    failing : String → String → String → Operation
    retrying : String → String → Operation
    expiring : ℕ → ℕ → Operation
    reloading : ℕ → Operation

  unfoldable pub operate : Operation → EpochAwareBuffer → EpochAwareBuffer
  operate (queuing now later c from text) b = (queue_message calendar now later c from text b).1
  operate (advancing c n) b = update_epoch c n b
  operate (naming username) b = set_username username b
  operate (processing c text) b = (mark_processed c text b).1
  operate (failing c text error) b = (mark_failed c text error b).1
  operate (retrying c text) b = (increment_retry c text b).1
  operate (expiring now age) b = (cleanup_expired calendar now age b).1
  operate (reloading now) b = (reload_from_db calendar now b).1

  operate-IsBounded : (o : Operation) (b : EpochAwareBuffer) → IsBounded b → IsBounded (operate o b)
  unfolding operate mark_processed mark_failed
  operate-IsBounded (queuing now later c from text) b h =
      queue_message-IsBounded now later c from text b h
  operate-IsBounded (advancing c n) b h = h
  operate-IsBounded (naming username) b h = h
  operate-IsBounded (processing c text) b h =
      mark-IsBounded (without_text text)
        (update_where (λ x. is_text c text x && not x.processed) set_processed) c b
        (length-without_text text) h
  operate-IsBounded (failing c text error) b h =
      mark-IsBounded (without_text text) (update_where (is_text c text) (set_failed error)) c b
        (length-without_text text) h
  operate-IsBounded (retrying c text) b h =
      rw (retry-memory c text b)
        (change_queue-IsShort c (bump_first text) b.memory_buffer (length-bump_first text) h)
  operate-IsBounded (expiring now age) b h = cleanup-IsBounded now age b h
  operate-IsBounded (reloading now) b h = reload-IsBounded now b h

  unfoldable pub operate_all : List Operation → EpochAwareBuffer → EpochAwareBuffer
  operate_all [] b = b
  operate_all (o ∷ os) b = operate_all os (operate o b)

  -- A buffer with at most 100 messages of each conversation in memory, such as an empty one, never
  -- has more of one, whatever operations are done, on whatever database, with whatever failures.
  pub operate_all-IsBounded :
      (os : List Operation) (b : EpochAwareBuffer) → IsBounded b → IsBounded (operate_all os b)
  unfolding operate_all
  operate_all-IsBounded [] b h = h
  operate_all-IsBounded (o ∷ os) b h =
      operate_all-IsBounded os (operate o b) (operate-IsBounded o b h)
