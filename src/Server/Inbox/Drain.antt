-- ===== src/Server/Inbox/Drain.antt =====
-- What a ping hands out: the loop over the waiting messages, and what it deletes.
use nymstr.Prelude.{
  ℕ, String, not, List, [], ◌∷◌, none, some, Option, Option-cases, keep, contains, append-nil,
  append_assoc, map, ap, sym, ◌++◌, ◌&&◌, ◌==◌, Bool, true, false, string_eq, ◌≡◌, refl, ◌∙◌, arith,
  inl, inr,
}
use nymstr.Transport.{ReplyTag}
use nymstr.Db.Tables.{PendingMessage, Db, order_by, fails, rest}
use nymstr.Db.Pending.{is_acked, pending_acked, waits_for, get_pending_messages}
use nymstr.Json.{Value}
use nymstr.Server.State.{Env, World, Server, Sent, queried, post, send_unified_message}
use nymstr.Server.Delivery.Relay.{Carries, Posted, send_envelope-Posted}
use nymstr.Server.Inbox.{send_all, delivered_ids, drain}
use nymstr.Server.Inbox.Proofs.{send_all_frame}

-- The messages that wait for the user and have not expired, the oldest first.
abbrev pub waiting_for : ℕ → String → Server → List PendingMessage
waiting_for now user s =
    order_by (λ m. m.created_at) (keep (waits_for now user) s.db.pending_messages)

keep-is_acked-nil :
    (user : String) (ms : List PendingMessage) → keep (λ m. not (is_acked user [] m)) ms ≡ ms
unfolding keep contains
keep-is_acked-nil user [] = refl
keep-is_acked-nil user (m ∷ ms) = ground (arith, keep-is_acked-nil user ms)

pending_acked_lem :
    (db : Db) (user : String) (ids : List String)
    → db.faults ≡ []
    → pending_acked db user ids ≡ keep (λ m. not (is_acked user ids m)) db.pending_messages
unfolding pending_acked fails
pending_acked_lem db user [] h = ground (arith, keep-is_acked-nil user db.pending_messages)
pending_acked_lem db user (i ∷ is) h = ground arith

abbrev pub is_some : Option Value → Bool
is_some none = false
is_some (some v) = true

-- The messages whose payload is JSON.
abbrev pub readable : Env → List PendingMessage → List PendingMessage
readable env ms = keep (λ m. is_some (env.parse m.payload)) ms

-- Each message went out to the tag: its payload, with its action and its sender.
abbrev pub GoOut : Env → ReplyTag → String → List PendingMessage → List Sent → Type 0
GoOut env t user [] [] = Unit {0}
GoOut env t user [] (x ∷ xs) = false ≡ true
GoOut env t user (m ∷ ms) [] = false ≡ true
GoOut env t user (m ∷ ms) (x ∷ xs) =
    ((x.to ≡ t)
      × ((v : Value) × (env.parse m.payload ≡ some v)
          × Carries env "message" m.action m.sender user v x.text))
    × GoOut env t user ms xs

module _ (env : Env) (w : World) where
  delivered_ids-readable :
      (ms : List PendingMessage) → delivered_ids env w ms ≡ map (λ m. m.id) (readable env ms)
  unfolding delivered_ids keep
  delivered_ids-readable [] = refl
  delivered_ids-readable (m ∷ ms) = elim (Option-cases (env.parse m.payload)) [
    | inl e ↦ rw (e, delivered_ids) (delivered_ids-readable ms)
    | inr (p, e) ↦ rw (e, delivered_ids) (ap (λ l. m.id ∷ l) (delivered_ids-readable ms))
  ]

  sends :
      (s : Server) (t : ReplyTag) (user : String) (p : Value) (action sender : String)
      → ((text : String) → (sig : String) × (env.sign_message env.client_id text ≡ some sig))
      → (text : String) × Carries env "message" action sender user p text
        × ((send_unified_message env w s t p action user sender).sent
            ≡ s.sent ++ record { to = t; text = text } ∷ [])
  unfolding send_unified_message Posted
  sends s t user p action sender signs =
      elim (send_envelope-Posted env w s t "message" action sender user p) [
        | inl sent ↦ sent
        | inr (unsigned, _) ↦ let (sig, good) = signs (env.print p) in absurd (cc)
      ]

  -- Where the server can sign, each readable message goes out.
  send_all-GoOut :
      (s : Server) (t : ReplyTag) (user : String) (ms : List PendingMessage)
      → ((text : String) → (sig : String) × (env.sign_message env.client_id text ≡ some sig))
      → (out : List Sent) × ((send_all env w s t user ms).sent ≡ s.sent ++ out)
        × GoOut env t user (readable env ms) out
  unfolding send_all keep
  send_all-GoOut s t user [] signs = ([], sym (append-nil s.sent), tt)
  send_all-GoOut s t user (m ∷ ms) signs = elim (Option-cases (env.parse m.payload)) [
    | inl e ↦ rw (e, send_all) (send_all-GoOut s t user ms signs)
    | inr (p, e) ↦
        let s' = send_unified_message env w s t p m.action user m.sender in
        let (text, carries, one) = sends s t user p m.action m.sender signs in
        let (out, all, rest') = send_all-GoOut s' t user ms signs in
        rw (e, send_all)
          (
            record { to = t; text = text } ∷ out,
            all ∙ ap (λ l. l ++ out) one ∙ append_assoc s.sent _ out,
            ((refl, (p, e, carries)), rest'),
          )
  ]

  send_all-unsigned :
      (s : Server) (t : ReplyTag) (user : String) (ms : List PendingMessage)
      → ((text : String) → env.sign_message env.client_id text ≡ none)
      → (send_all env w s t user ms).sent ≡ s.sent
  unfolding send_all send_unified_message post
  send_all-unsigned s t user [] mute = refl
  send_all-unsigned s t user (m ∷ ms) mute = elim (Option-cases (env.parse m.payload)) [
    | inl e ↦ rw (e, send_all) (send_all-unsigned s t user ms mute)
    | inr (p, e) ↦
        let s' = send_unified_message env w s t p m.action user m.sender in
        rw (e, send_all)
          (send_all-unsigned s' t user ms mute ∙ rw (mute (env.print p), send_unified_message) refl)
  ]

  drain_step :
      (s : Server) (t : ReplyTag) (user : String)
      → s.db.faults ≡ []
      → ((drain env w s t user).sent
          ≡ (send_all env w (queried s) t user (waiting_for w.unix user s)).sent)
        × ((drain env w s t user).db.pending_messages
            ≡ pending_acked
                (send_all env w (queried s) t user (waiting_for w.unix user s)).db
                user
                (delivered_ids env w (waiting_for w.unix user s)))
  unfolding drain get_pending_messages fails rest
  drain_step s t user h = ground arith

  drain-pending_messages :
      (s : Server) (t : ReplyTag) (user : String)
      → s.db.faults ≡ []
      → (drain env w s t user).db.pending_messages
        ≡ keep
            (λ m. not (is_acked user (delivered_ids env w (waiting_for w.unix user s)) m))
            s.db.pending_messages
  unfolding rest
  drain-pending_messages s t user h =
      let ids = delivered_ids env w (waiting_for w.unix user s) in
      (drain_step s t user h).1
      ∙ ap (λ db. pending_acked db user ids)
          (send_all_frame env w (queried s) t user (waiting_for w.unix user s)).0
      ∙ pending_acked_lem (queried s).db user ids (ap rest h)

  -- The ids that the drain deletes are those of the readable messages that wait.
  drain-leaves :
      (s : Server) (t : ReplyTag) (user : String)
      → s.db.faults ≡ []
      → (drain env w s t user).db.pending_messages
        ≡ keep
            (λ m. not (
              m.recipient == user
              && contains m.id (map (λ x. x.id) (readable env (waiting_for w.unix user s)))))
            s.db.pending_messages
  drain-leaves s t user h =
      drain-pending_messages s t user h
      ∙ ap (λ ids. keep (λ m. not (is_acked user ids m)) s.db.pending_messages)
          (delivered_ids-readable (waiting_for w.unix user s))

  -- With a healthy database and a server that can sign, the drain of a ping sends to the user's
  -- tag, for each waiting message of the user that has not expired and whose payload is JSON, the
  -- oldest first, just that payload with its action and its sender, signed; and it deletes just
  -- the user's messages with the ids of those.
  pub drain-delivers :
      (s : Server) (t : ReplyTag) (user : String)
      → s.db.faults ≡ []
      → ((text : String) → (sig : String) × (env.sign_message env.client_id text ≡ some sig))
      → ((out : List Sent) × ((drain env w s t user).sent ≡ s.sent ++ out)
          × GoOut env t user (readable env (waiting_for w.unix user s)) out)
        × ((drain env w s t user).db.pending_messages
            ≡ keep
                (λ m. not (
                  m.recipient == user
                  && contains m.id (map (λ x. x.id) (readable env (waiting_for w.unix user s)))))
                s.db.pending_messages)
  drain-delivers s t user h signs =
      let (out, e, d) = send_all-GoOut (queried s) t user (waiting_for w.unix user s) signs in
      ((out, (drain_step s t user h).0 ∙ e, d), drain-leaves s t user h)

  -- With a healthy database and a server that cannot sign, the drain of a ping sends nothing, and
  -- deletes all the same the user's messages with the ids of those that wait, have not expired and
  -- are JSON: they are lost.
  pub drain-loses_unsigned :
      (s : Server) (t : ReplyTag) (user : String)
      → s.db.faults ≡ []
      → ((text : String) → env.sign_message env.client_id text ≡ none)
      → ((drain env w s t user).sent ≡ s.sent)
        × ((drain env w s t user).db.pending_messages
            ≡ keep
                (λ m. not (
                  m.recipient == user
                  && contains m.id (map (λ x. x.id) (readable env (waiting_for w.unix user s)))))
                s.db.pending_messages)
  drain-loses_unsigned s t user h mute = (
    (drain_step s t user h).0
        ∙ send_all-unsigned (queried s) t user (waiting_for w.unix user s) mute,
    drain-leaves s t user h,
  )
