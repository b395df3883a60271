-- ===== src/GroupServer/Steps/Messages.antt =====
-- `sendGroup` and `fetchGroup` take only allowed steps.
use nymstr.Prelude.{
  ℕ, String, Bool, true, false, List, Bool-cases, ◌≡◌, refl, inl, inr, ◌==◌, string_eq, arith,
}
use nymstr.Transport.{ReplyTag}
use nymstr.Db.Tables.{Result, ok, err}
use nymstr.Server.State.{World}
use nymstr.GroupServer.Tables.{Tables, Message}
use nymstr.GroupServer.Tables.Queues.{
  store_message, get_messages_since, check_and_store_message_hash,
}
use nymstr.GroupServer.State.{
  GroupEnv, Handler, ◌>>=◌, pure, call, refuse, require, check_general_rate_limit,
  authenticate_request_core, authorize_member,
}
use nymstr.GroupServer.Rules.{
  not-true, Does, Does-after, Does-assoc, Does-call, Does-reply, guards_general, guards_require,
  guards_read, guards_refuse, guards_pure,
}
use nymstr.GroupServer.Checks.{guards_authenticate, guards_authorize}
use nymstr.GroupServer.Requests.{SendGroupRequest, FetchGroupRequest}
use nymstr.GroupServer.Messages.{
  dedup_hash, unless_duplicate, check_duplicate, stored, fetched, handle_send_group_core,
  handle_fetch_group_core,
}
use nymstr.GroupServer.Steps.{Sends, Step, Steps, next}

module _ (hash : String) (now : ℕ) (t : Tables) where
  marked-users : (check_and_store_message_hash hash now t).1.users ≡ t.users
  unfolding check_and_store_message_hash
  marked-users = ground arith

  marked-members : (check_and_store_message_hash hash now t).1.group_members ≡ t.group_members
  unfolding check_and_store_message_hash
  marked-members = ground arith

module _ (g : GroupEnv) (w : World) where
  Sends-mono :
      {t : Tables} (u : Tables) (username ciphertext : String)
      → u.users ≡ t.users
      → u.group_members ≡ t.group_members
      → Sends g w t username ciphertext
      → Sends g w u username ciphertext
  Sends-mono u username ciphertext users members h = record {
    signature = h.signature;
    present = h.present;
    authentic = rw users h.authentic;
    member = rw members h.member;
  }

module _ (g : GroupEnv) (w : World) (tag : ReplyTag) {t₀ : Tables} where
  stored-Steps :
      {t : Tables} (r : Result ℕ) → Steps g w t₀ t → Does (Steps g w t₀) t (stored g w tag r)
  unfolding stored
  stored-Steps (ok id) p = Does-reply g w tag _ _ p
  stored-Steps err p = Does-reply g w tag _ _ p

  post-Steps :
      {t : Tables} (username ciphertext : String)
      → Sends g w t username ciphertext
      → Steps g w t₀ t
      → Does
          (Steps g w t₀)
          t
          (call (store_message username ciphertext (g.env.rfc3339 w.unix)) >>= stored g w tag)
  post-Steps {t} username ciphertext sends p =
      Does-call (store_message username ciphertext (g.env.rfc3339 w.unix)) _ (stored-Steps err p)
        (stored-Steps _ (next p (Step.post username ciphertext sends)))

  unless-Steps :
      {t : Tables} (r : Result Bool) (k : Handler (Unit {0}))
      → Steps g w t₀ t
      → Does (Steps g w t₀) t k
      → Does (Steps g w t₀) t (unless_duplicate g w tag r >>= λ _. k)
  unfolding unless_duplicate
  unless-Steps (ok true) k p rest = Does-after (pure tt) _ (guards_pure tt) p λ _ _. rest
  unless-Steps (ok false) k p rest =
      Does-after (refuse g w tag _ _) _ (guards_refuse g w tag _ (λ _. Unit {0}) _) p λ _ _. rest
  unless-Steps err k p rest = Does-after (pure tt) _ (guards_pure tt) p λ _ _. rest

  check-Steps :
      {t : Tables} (username ciphertext hash : String) (k : Handler (Unit {0}))
      → dedup_hash g username ciphertext ≡ hash
      → Sends g w t username ciphertext
      → Steps g w t₀ t
      → ((u : Tables) → Sends g w u username ciphertext → Steps g w t₀ u → Does (Steps g w t₀) u k)
      → Does (Steps g w t₀) t (check_duplicate g w tag hash >>= λ _. k)
  unfolding check_duplicate
  check-Steps {t} username ciphertext hash k e sends p rest = elim (Bool-cases (hash == "")) [
    | inl empty ↦ rw empty (Does-after (pure tt) _ (guards_pure tt) p λ _ _. rest t sends p)
    | inr full ↦ rw full (
        let op = check_and_store_message_hash hash w.unix in
        Does-assoc (call op) _ _ (
          Does-call op _ (unless-Steps err k p (rest t sends p)) (
            let q = next p (rw (← e) (Step.mark username ciphertext sends)) in
            unless-Steps _ k q (
              rest _
                (Sends-mono g w _ _ _ (marked-users hash w.unix t) (marked-members hash w.unix t)
                  sends)
                q))))
  ]

  pub send_group-Steps :
      {t : Tables} (r : SendGroupRequest)
      → Steps g w t₀ t
      → Does (Steps g w t₀) t (handle_send_group_core g w tag r)
  unfolding handle_send_group_core
  send_group-Steps {t} r p =
      Does-after (check_general_rate_limit g w tag _) _ (guards_general g w tag _) p λ _ _.
        Does-after (require g w tag _ _ _) _ (guards_require g w tag _ _ _) p λ _ present.
          Does-after (authenticate_request_core g w tag _ _ _ _) _
            (guards_authenticate g w tag _ _ _ _) p
            λ user (same, authentic).
              Does-after (authorize_member g w tag _ _) _ (guards_authorize g w tag _ _) p
                λ _ member.
                  check-Steps user r.ciphertext (dedup_hash g user r.ciphertext) _ refl
                    (record {
                      signature = r.signature;
                      present = not-true _ present;
                      authentic = rw same authentic;
                      member = member;
                    })
                    p (λ u sends q. post-Steps user r.ciphertext sends q)

  fetched-Steps :
      {t : Tables} (r : Result (List Message))
      → Steps g w t₀ t
      → Does (Steps g w t₀) t (fetched g w tag r)
  unfolding fetched
  fetched-Steps (ok l) p = Does-reply g w tag _ _ p
  fetched-Steps err p = Does-reply g w tag _ _ p

  pub fetch_group-Steps :
      {t : Tables} (r : FetchGroupRequest)
      → Steps g w t₀ t
      → Does (Steps g w t₀) t (handle_fetch_group_core g w tag r)
  unfolding handle_fetch_group_core get_messages_since
  fetch_group-Steps r p =
      Does-after (check_general_rate_limit g w tag _) _ (guards_general g w tag _) p λ _ _.
        Does-after (authenticate_request_core g w tag _ _ _ _) _
          (guards_authenticate g w tag _ _ _ _) p
          λ user _.
            Does-after (authorize_member g w tag _ _) _ (guards_authorize g w tag _ _) p λ _ member.
              Does-after (call (get_messages_since r.last_seen_id)) _
                (guards_read (get_messages_since r.last_seen_id) refl) p λ l _. fetched-Steps l p
