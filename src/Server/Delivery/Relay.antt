-- ===== src/Server/Delivery/Relay.antt =====
-- A relayed message goes out to its recipient, or waits for it, and never both.
use nymstr.Prelude.{
  ◌+◌, String, true, List, [], ◌∷◌, ◌++◌, none, some, ◌≡◌, refl, arith, ◌⊎◌, inl, inr, Option-cases,
  Bool-cases, or_else, ap, ◌∙◌, sym, subst, string_eq,
}
use nymstr.Json.{Value, get, get_str}
use nymstr.Transport.{ReplyTag, from_stored_string}
use nymstr.Db.Tables.{User, Result, ok, err, fails}
use nymstr.Db.Users.{find_user}
use nymstr.Db.Pending.{queue_pending_message, queued_with}
use nymstr.Server.State.{
  Env, World, Server, Sent, post, queried, envelope, send_envelope, send_unified_message,
  get_user_sender_tag, has_surbs_for_tag,
}
use nymstr.Server.Delivery.{reachable, queue, relay_with_persistence, relay_sealed_with_persistence}

-- The text is a JSON object that says from whom and to whom it is and what, and that carries the
-- server's signature over the payload.
abbrev pub Carries : Env → String → String → String → String → Value → String → Type 0
Carries env kind action sender recipient payload text =
    (v : Value) × (signature : String) × (text ≡ env.print v)
    × (env.sign_message env.client_id (env.print payload) ≡ some signature)
    × (get_str "type" v ≡ some kind)
    × (get_str "action" v ≡ some action)
    × (get_str "sender" v ≡ some sender)
    × (get_str "recipient" v ≡ some recipient)
    × (get "payload" v ≡ some payload)
    × (get_str "signature" v ≡ some signature)

-- The tag that the row of the user has, and to which a message can go out now.
abbrev pub Reaches : Env → World → Server → String → ReplyTag → Type 0
Reaches env w s r t =
    (u : User) × (find_user r s.db.users ≡ some u)
    × (from_stored_string env.try_from_base58 u.sender_tag ≡ some t)
    × (has_surbs_for_tag env w t ≡ true)

module _ (env : Env) (w : World) (s : Server) where
  -- Sending adds one message that carries the payload, or nothing without a signature.
  unfoldable pub Posted : ReplyTag → String → String → String → String → Value → List Sent → Type 0
  Posted t kind action sender recipient payload out =
      ((text : String) × Carries env kind action sender recipient payload text
        × (out ≡ s.sent ++ record { to = t; text = text } ∷ []))
      ⊎ ((env.sign_message env.client_id (env.print payload) ≡ none) × (out ≡ s.sent))

  pub send_envelope-Posted :
      (t : ReplyTag) (kind action sender recipient : String) (payload : Value)
      → Posted t kind action sender recipient payload
          (send_envelope env w s t kind action sender recipient payload).sent
  unfolding send_envelope post envelope get get_str Posted
  send_envelope-Posted t kind action sender recipient payload =
      elim (Option-cases (env.sign_message env.client_id (env.print payload))) [
        | inl e ↦ inr (e, rw (e, send_envelope) refl)
        | inr (sig, e) ↦ inl (
          env.print (envelope env w kind action sender recipient payload sig),
          (
            envelope env w kind action sender recipient payload sig,
            sig,
            refl,
            e,
            refl,
            refl,
            refl,
            refl,
            refl,
            refl,
          ),
          rw (e, send_envelope) refl,
        )
      ]

  reachable-Reaches :
      (r : String) (t : ReplyTag) → reachable env w s r ≡ some t → Reaches env w s r t
  unfolding reachable get_user_sender_tag nymstr.Db.Users.get_user_by_username
      nymstr.Db.Tables.answer fails
  reachable-Reaches r t e = elim (Bool-cases (fails s.db.faults)) [
    | inl f ↦ absurd (ground arith)
    | inr f ↦ elim (Option-cases (find_user r s.db.users)) [
      | inl n ↦ absurd (ground arith)
      | inr (u, n) ↦ elim (Option-cases (from_stored_string env.try_from_base58 u.sender_tag)) [
        | inl k ↦ absurd (ground arith)
        | inr (t', k) ↦ elim (Bool-cases (has_surbs_for_tag env w t')) [
          | inl b ↦
              let same : t' ≡ t =
                ap (λ o. or_else o t') (let h : some t' ≡ some t = ground arith in h) in
              (u, n, k ∙ ap some same, subst (λ x. has_surbs_for_tag env w x ≡ true) same b)
          | inr b ↦ absurd (ground arith)
        ]
      ]
    ]
  ]

  relay-away :
      (r f : String) (v : Value) (a : String)
      → reachable env w s r ≡ none
      → relay_with_persistence env w s r f v a ≡ queue env w (queried s) r f v a
  unfolding relay_with_persistence
  relay-away r f v a e = rw (e, relay_with_persistence) refl

  relay-here :
      (r f : String) (v : Value) (a : String) (t : ReplyTag)
      → reachable env w s r ≡ some t
      → relay_with_persistence env w s r f v a
        ≡ (ok "surb_delivered", send_envelope env w (queried s) t "message" a f r v)
  unfolding relay_with_persistence send_unified_message
  relay-here r f v a t e = rw (e, relay_with_persistence) refl

  relay_sealed-away :
      (r : String) (v : Value)
      → reachable env w s r ≡ none
      → relay_sealed_with_persistence env w s r v ≡ queue env w (queried s) r "__sealed__" v "send"
  unfolding relay_sealed_with_persistence
  relay_sealed-away r v e = rw (e, relay_sealed_with_persistence) refl

  relay_sealed-here :
      (r : String) (v : Value) (t : ReplyTag)
      → reachable env w s r ≡ some t
      → relay_sealed_with_persistence env w s r v
        ≡ (ok "surb_delivered", send_envelope env w (queried s) t "sealed" "send" "__sealed__" r v)
  unfolding relay_sealed_with_persistence
  relay_sealed-here r v t e = rw (e, relay_sealed_with_persistence) refl

  -- What a relay does with a message of that kind: with the recipient in reach it reports a
  -- delivery, queues nothing, and sends the message unless the server cannot sign; else it sends
  -- nothing, and queues the message for a week under the id that it reports, or fails.
  pub Relayed : String → String → String → String → Value → Result String × Server → Type 0
  Relayed kind action sender recipient payload p =
      ((p.0 ≡ ok "surb_delivered")
        × (p.1.db.pending_messages ≡ s.db.pending_messages)
        × ((t : ReplyTag) × Reaches env w s recipient t
            × Posted t kind action sender recipient payload p.1.sent))
      ⊎ ((reachable env w s recipient ≡ none)
          × (p.1.sent ≡ s.sent)
          × (((p.0 ≡ ok w.uuid)
                × (p.1.db.pending_messages
                    ≡ s.db.pending_messages
                      ++ record {
                        id = w.uuid;
                        recipient = recipient;
                        sender = sender;
                        payload = env.print payload;
                        action = action;
                        created_at = w.unix;
                        expires_at = w.unix + 604800;
                      }
                        ∷ []))
              ⊎ ((p.0 ≡ err) × (p.1.db.pending_messages ≡ s.db.pending_messages))))

  queue-Relayed :
      (kind action sender recipient : String) (payload : Value)
      → reachable env w s recipient ≡ none
      → Relayed kind action sender recipient payload
          (queue env w (queried s) recipient sender payload action)
  unfolding Relayed queue queue_pending_message queued_with
  queue-Relayed kind action sender recipient payload e = inr (e, refl, ground arith)

  sent-Relayed :
      (kind action sender recipient : String) (payload : Value) (t : ReplyTag)
      → reachable env w s recipient ≡ some t
      → Relayed kind action sender recipient payload (
        ok "surb_delivered",
        send_envelope env w (queried s) t kind action sender recipient payload,
      )
  unfolding Relayed send_envelope
  sent-Relayed kind action sender recipient payload t e = inl (
    refl,
    refl,
    (
      t,
      reachable-Reaches recipient t e,
      send_envelope-Posted t kind action sender recipient payload,
    ),
  )

  relay-Relayed :
      (action sender recipient : String) (payload : Value)
      → Relayed "message" action sender recipient payload
          (relay_with_persistence env w s recipient sender payload action)
  relay-Relayed action sender recipient payload =
      elim (Option-cases (reachable env w s recipient)) [
        | inl e ↦
            subst (Relayed "message" action sender recipient payload)
              (sym (relay-away recipient sender payload action e))
              (queue-Relayed "message" action sender recipient payload e)
        | inr (t, e) ↦
            subst (Relayed "message" action sender recipient payload)
              (sym (relay-here recipient sender payload action t e))
              (sent-Relayed "message" action sender recipient payload t e)
      ]

  relay_sealed-Relayed :
      (recipient : String) (payload : Value)
      → Relayed "sealed" "send" "__sealed__" recipient payload
          (relay_sealed_with_persistence env w s recipient payload)
  relay_sealed-Relayed recipient payload = elim (Option-cases (reachable env w s recipient)) [
    | inl e ↦
        subst (Relayed "sealed" "send" "__sealed__" recipient payload)
          (sym (relay_sealed-away recipient payload e))
          (queue-Relayed "sealed" "send" "__sealed__" recipient payload e)
    | inr (t, e) ↦
        subst (Relayed "sealed" "send" "__sealed__" recipient payload)
          (sym (relay_sealed-here recipient payload t e))
          (sent-Relayed "sealed" "send" "__sealed__" recipient payload t e)
  ]

  -- Both relays hand the message on once and never twice. With the recipient in reach, by the tag
  -- in its row, they report a delivery and queue nothing; what they send then carries the payload,
  -- the action, the sender, the recipient and a signature, or, where the server cannot sign,
  -- nothing is sent and the message is lost. With the recipient out of reach they send nothing,
  -- and either queue the message for the recipient under the id that they report, or fail and
  -- leave the queue.
  pub relay-copies :
      (action sender recipient : String) (payload : Value)
      → Relayed "message" action sender recipient payload
          (relay_with_persistence env w s recipient sender payload action)
        × Relayed "sealed" "send" "__sealed__" recipient payload
            (relay_sealed_with_persistence env w s recipient payload)
  relay-copies action sender recipient payload =
      (relay-Relayed action sender recipient payload, relay_sealed-Relayed recipient payload)
