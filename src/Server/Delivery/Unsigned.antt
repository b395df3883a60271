-- ===== src/Server/Delivery/Unsigned.antt =====
-- A send that its sender did not sign reaches nobody.
use nymstr.Prelude.{
  String, false, not, List, [], ◌∷◌, Option, none, some, ◌≡◌, refl, arith, keep, ◌==◌, ==_iff, ◌⊎◌,
  inl, inr,
}
use nymstr.Json.{Value}
use nymstr.Transport.{ReplyTag, tag_eq}
use nymstr.Common.RateLimiter.{check_and_record}
use nymstr.Db.Tables.{User}
use nymstr.Db.Users.{find_user, get_user_by_username}
use nymstr.Server.State.{Env, World, Server, Sent, post, tag_text, queried}
use nymstr.Server.Delivery.{verify_send, respond, failure, handle_send_unified}

-- The messages that went to others than the holder of a tag.
unfoldable pub to_others : ReplyTag → List Sent → List Sent
unfolding keep
to_others t = keep λ m. not (m.to == t)

pub to_others-post :
    (signature : Option String) (text : String → String) (t : ReplyTag) (l : List Sent)
    → to_others t (post signature text t l) ≡ to_others t l
unfolding to_others post
to_others-post none text t l = refl
to_others-post (some sig) text t [] = ground (arith, ==_iff t t)
to_others-post (some sig) text t (m ∷ l) = ground (arith, to_others-post (some sig) text t l)

module _ (env : Env) (w : World) where
  abbrev limited : ReplyTag → Server → Server
  limited t s = record s {
    send_rate_limiter = (check_and_record w.instant (tag_text env t) s.send_rate_limiter).1;
  }

  respond-to_others :
      (s : Server) (t : ReplyTag) (user : String) (v : Value)
      → to_others t (respond env w s t user v).sent ≡ to_others t s.sent
  unfolding respond
  respond-to_others s t user v = to_others-post _ _ t s.sent

  verify_send_unsigned :
      (s : Server) (u : User) (v : Value) (t : ReplyTag) (from : String)
      (r signature : Option String)
      → ((sig : String)
          → signature ≡ some sig
          → env.verify_signature u.public_key (env.print v) sig ≡ false)
      → ((verify_send env w s u v t from r signature).db.pending_messages ≡ s.db.pending_messages)
        × (to_others t (verify_send env w s u v t from r signature).sent ≡ to_others t s.sent)
  unfolding verify_send
  verify_send_unsigned s u v t from r none h = (refl, respond-to_others s t from _)
  verify_send_unsigned s u v t from r (some sig) h =
      rw (h sig refl, verify_send) (refl, respond-to_others s t from _)

  send_cases :
      (s : Server) (v : Value) (t : ReplyTag) (from : String) (r signature : Option String)
      → ((handle_send_unified env w s v t from r signature).db.pending_messages
            ≡ s.db.pending_messages)
          × (to_others t (handle_send_unified env w s v t from r signature).sent
              ≡ to_others t s.sent)
        ⊎ ((u : User) × (find_user from s.db.users ≡ some u)
            × (handle_send_unified env w s v t from r signature
                ≡ verify_send env w (queried (limited t s)) u v t from r signature))
  unfolding handle_send_unified get_user_by_username respond
  send_cases s v t from r signature = ground (
    arith,
    respond-to_others (limited t s) t from
        (failure env w "rate limit exceeded, please try again later"),
    respond-to_others (queried (limited t s)) t from (failure env w "sender not registered"),
    respond-to_others (queried (limited t s)) t from (failure env w "database error"),
  )

  -- A unified send that the registered key of its sender did not sign reaches nobody: nothing is
  -- queued, and nothing is sent but a reply to where it came from. That holds for an unknown
  -- sender, a missing signature and a wrong one alike.
  pub send-unsigned :
      (s : Server) (v : Value) (t : ReplyTag) (from : String) (r signature : Option String)
      → ((u : User) (sig : String)
          → find_user from s.db.users ≡ some u
          → signature ≡ some sig
          → env.verify_signature u.public_key (env.print v) sig ≡ false)
      → ((handle_send_unified env w s v t from r signature).db.pending_messages
          ≡ s.db.pending_messages)
        × (to_others t (handle_send_unified env w s v t from r signature).sent ≡ to_others t s.sent)
  send-unsigned s v t from r signature h = elim (send_cases s v t from r signature) [
    | inl quiet ↦ quiet
    | inr (u, found, e) ↦ rw e (
        verify_send_unsigned (queried (limited t s)) u v t from r signature
          (λ sig same. h u sig found same))
  ]
