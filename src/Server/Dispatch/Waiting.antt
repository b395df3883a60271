-- ===== src/Server/Dispatch/Waiting.antt =====
-- The keys of groups and the waiting messages of a user, over every sequence of messages.
use nymstr.Prelude.{
  ℕ, String, false, List, [], ◌∷◌, ◌++◌, Option, ◌≡◌, sym, ◌∙◌, ap, inl, inr, Bool-cases, ◌==◌,
  ==_iff, string_eq, arith, keep-append, take-split, append-nil, append_assoc,
}
use nymstr.Transport.{ReplyTag}
use nymstr.Db.Tables.{PendingMessage}
use nymstr.Db.Users.Laws.{KeyOf}
use nymstr.Db.Groups.Laws.{GroupKeyOf}
use nymstr.Db.Pending.Laws.{inbox, inbox-keep_acked}
use nymstr.Server.State.{Env, World, Server, cleanup_stale_entries}
use nymstr.Server.Inbox.Growth.{IsClaim, QueueChange}
use nymstr.Server.Registry.Groups.{GroupChange-key}
use nymstr.Server.Dispatch.{process_message}
use nymstr.Server.Dispatch.Cases.{process_message-any}
use nymstr.Server.Dispatch.Queueing.{process_value-StoreChange}
use nymstr.Server.Dispatch.Invariant.{run, run-KeyOf}

-- The user's waiting messages are still there, perhaps with more after them.
abbrev pub Awaits : String → List PendingMessage → List PendingMessage → Type 0
Awaits user ms ms' = (later : List PendingMessage) × (inbox user ms' ≡ inbox user ms ++ later)

module _ (env : Env) where
  -- No signature claims the messages of a user with the key.
  abbrev pub Unclaimed : String → String → Type 0
  Unclaimed user key =
      (text signature : String)
      → IsClaim user text
      → env.verify_signature key text signature ≡ false

  QueueChange-Awaits :
      (s s' : Server) (user key : String)
      → Unclaimed user key
      → KeyOf s.db.users user key
      → QueueChange env s s'
      → Awaits user s.db.pending_messages s'.db.pending_messages
  unfolding inbox
  QueueChange-Awaits s s' user key un (u, found, k) (QueueChange.grown e) =
      let (later, e') = take-split s.db.pending_messages s'.db.pending_messages e in
      (inbox user later, rw e' (keep-append (λ m. m.recipient == user) s.db.pending_messages later))
  QueueChange-Awaits s s' user key un (u, found, k)
        (QueueChange.taken x name text sig ids c f v e) =
      elim (Bool-cases (name == user)) [
        | inl same ↦ absurd (ground (arith, ==_iff name user, un text sig))
        | inr other ↦ (
          [],
          rw e (
              inbox-keep_acked name user ids s.db.pending_messages
                (λ q. ground (arith, ==_iff name user))
              ∙ sym (append-nil (inbox user s.db.pending_messages))),
        )
      ]

  process_message-Awaits :
      (w : World) (s : Server) (tag : Option ReplyTag) (bytes : List ℕ) (user key : String)
      → Unclaimed user key
      → KeyOf s.db.users user key
      → Awaits user s.db.pending_messages (process_message env w s tag bytes).db.pending_messages
  unfolding cleanup_stale_entries
  process_message-Awaits w s tag bytes user key un k =
      process_message-any env w (λ s'. Awaits user s.db.pending_messages s'.db.pending_messages) s
        tag bytes ([], sym (append-nil (inbox user s.db.pending_messages)))
        λ t v.
          QueueChange-Awaits (cleanup_stale_entries w.instant s) _ user key un k
            (process_value-StoreChange env w (cleanup_stale_entries w.instant s) t v).queue

  -- While nobody can sign a ping or an acknowledgement that verifies under the key of a
  -- registered user, the user's waiting messages stay, in their order: after any messages the
  -- inbox is what it was, with later messages behind.
  pub run-Awaits :
      (ms : List (World × Option ReplyTag × List ℕ)) (s : Server) (user key : String)
      → Unclaimed user key
      → KeyOf s.db.users user key
      → Awaits user s.db.pending_messages (run env s ms).db.pending_messages
  unfolding run
  run-Awaits [] s user key un k = ([], sym (append-nil (inbox user s.db.pending_messages)))
  run-Awaits ((w, tag, bytes) ∷ ms) s user key un k =
      let s' = process_message env w s tag bytes in
      let (later, e) = process_message-Awaits w s tag bytes user key un k in
      let (latest, e') =
        run-Awaits ms s' user key un (run-KeyOf env ((w, tag, bytes) ∷ []) s user key k) in
      (
        later ++ latest,
        e' ∙ ap (λ l. l ++ latest) e ∙ append_assoc (inbox user s.db.pending_messages) later latest,
      )

  process_message-GroupKeyOf :
      (w : World) (s : Server) (tag : Option ReplyTag) (bytes : List ℕ) (id key : String)
      → GroupKeyOf s.db.groups id key
      → GroupKeyOf (process_message env w s tag bytes).db.groups id key
  unfolding cleanup_stale_entries
  process_message-GroupKeyOf w s tag bytes id key k =
      process_message-any env w (λ s'. GroupKeyOf s'.db.groups id key) s tag bytes k
        λ t v.
          GroupChange-key id key
            (process_value-StoreChange env w (cleanup_stale_entries w.instant s) t v).groups k

  -- A registered group keeps its key, whatever messages are handled.
  pub run-GroupKeyOf :
      (ms : List (World × Option ReplyTag × List ℕ)) (s : Server) (id key : String)
      → GroupKeyOf s.db.groups id key
      → GroupKeyOf (run env s ms).db.groups id key
  unfolding run
  run-GroupKeyOf [] s id key k = k
  run-GroupKeyOf ((w, tag, bytes) ∷ ms) s id key k =
      run-GroupKeyOf ms _ id key (process_message-GroupKeyOf w s tag bytes id key k)
