-- ===== src/GroupServer/Steps/Welcomes.antt =====
-- `storeWelcome` and `fetchWelcome` take only allowed steps.
use Prim.Native.String.{◌++◌}
use nymstr.Prelude.{
  ℕ, String, Bool, true, false, List, [], ◌∷◌, Option, none, some, ◌≡◌, refl, ◌<◌, ◌≤◌, ◌⊎◌, length,
  leb, string_eq, arith,
}
use nymstr.Json.{Value, get_str}
use nymstr.Transport.{ReplyTag}
use nymstr.Db.Tables.{Result, ok, err}
use nymstr.Server.State.{World}
use nymstr.GroupServer.Tables.{Tables, Welcome, find_user, get_user_by_username}
use nymstr.GroupServer.Tables.Queues.{
  store_welcome, get_welcome, get_pending_welcomes, remove_welcome, count_pending_welcomes_for_user,
  welcomes_of,
}
use nymstr.GroupServer.State.{
  GroupEnv, Handler, ◌>>=◌, pure, call, attempt, require, expect, check_general_rate_limit,
  authenticate_request_core,
}
use nymstr.GroupServer.Rules.{
  Guards, Does, Does-after, Does-call, Does-attempt, Does-reply, guards_general, guards_require,
  guards_expect, guards_read, guards_pure, guards_mono, guards_bind, guards_refuse, Does-assoc,
}
use nymstr.GroupServer.Checks.{Authentic, guards_authenticate, found-answer}
use nymstr.GroupServer.Welcomes.{
  check_admin, check_quota, welcome_stored, handle_store_welcome, remove_all, fetch_one, fetch_all,
  deliver, handle_fetch_welcome,
}
use nymstr.GroupServer.Steps.{IsAdmin, Step, Steps, next}
use nymstr.GroupServer.Steps.Accounts.{attempt_step}

module _ (g : GroupEnv) (w : World) (tag : ReplyTag) {t : Tables} where
  guards-IsAdmin :
      (key : Option String) (sender : String)
      → Guards t (check_admin g w tag key sender) (λ _. IsAdmin g w t sender key)
  unfolding check_admin get_user_by_username
  guards-IsAdmin none sender = guards_mono _ (guards_pure tt) λ _ _. tt
  guards-IsAdmin (some key) sender =
      guards_bind (call (get_user_by_username sender)) _
        (guards_read (get_user_by_username sender) refl)
        λ r answer. guards_bind (expect g w tag _ _ _) _ (guards_expect g w tag _ _ _) λ u f.
          guards_mono _ (guards_require g w tag _ _ _)
            λ _ same. (u, found-answer r (find_user sender t.users) u answer f, same)

  guards_quota :
      (r : Result ℕ) (n : ℕ)
      → (r ≡ err) ⊎ (r ≡ ok n)
      → Guards t (check_quota g w tag r) (λ _. n < 20)
  unfolding check_quota
  guards_quota err n answer = guards_refuse g w tag _ _ _
  guards_quota (ok m) n answer = guards_mono _ (guards_require g w tag _ _ _) λ _ few. ground arith

le-of-leb : (m n : ℕ) → leb m n ≡ true → m ≤ n
le-of-leb m n h = ground arith

module _ (g : GroupEnv) (w : World) (tag : ReplyTag) {t₀ : Tables} where
  stored-Steps :
      {t : Tables} (r : Result Bool)
      → Steps g w t₀ t
      → Does (Steps g w t₀) t (welcome_stored g w tag r)
  unfolding welcome_stored
  stored-Steps (ok true) p = Does-reply g w tag _ _ p
  stored-Steps (ok false) p = Does-reply g w tag _ _ p
  stored-Steps err p = Does-reply g w tag _ _ p

  pub store_welcome-Steps :
      {t : Tables} (payload : Value) (sender signature : String)
      → Steps g w t₀ t
      → Does (Steps g w t₀) t (handle_store_welcome g w tag payload sender signature)
  unfolding handle_store_welcome count_pending_welcomes_for_user
  store_welcome-Steps {t} payload sender signature p =
      Does-after (check_general_rate_limit g w tag _) _ (guards_general g w tag _) p λ _ _.
        Does-after (expect g w tag _ _ _) _ (guards_expect g w tag _ _ _) p λ group_id _.
          Does-after (expect g w tag _ _ _) _ (guards_expect g w tag _ _ _) p λ target _.
            Does-after (expect g w tag _ _ _) _ (guards_expect g w tag _ _ _) p λ text _.
              Does-after (require g w tag _ _ _) _ (guards_require g w tag _ _ _) p λ _ _.
                Does-after (expect g w tag _ _ _) _ (guards_expect g w tag _ _ _) p λ bytes _.
                  Does-after (require g w tag _ _ _) _ (guards_require g w tag _ _ _) p λ _ size.
                    Does-after (authenticate_request_core g w tag _ _ _ _) _
                      (guards_authenticate g w tag _ _ _ _) p
                      λ user (same, authentic).
                        Does-after (check_admin g w tag _ _) _ (guards-IsAdmin g w tag _ _) p
                          λ _ admin.
                            Does-after (call (count_pending_welcomes_for_user target)) _
                              (guards_read (count_pending_welcomes_for_user target) refl) p
                              λ count answer.
                                Does-after (check_quota g w tag count) _
                                  (guards_quota g w tag count
                                    (length (welcomes_of target t.pending_welcomes)) answer)
                                  p
                                  λ _ quota.
                                    Does-call
                                      (store_welcome target group_id bytes (g.env.rfc3339 w.unix)) _
                                      (stored-Steps err p)
                                      (stored-Steps _ (
                                        next p (
                                          Step.welcome target group_id bytes (record {
                                            sender = sender;
                                            signature = signature;
                                            authentic = authentic;
                                            admin = admin;
                                            quota = quota;
                                            size = le-of-leb _ _ size;
                                          }))))

  remove_all-Steps :
      {A : Type 0} (username signature : String) (k : Unit {0} → Handler A) (l : List Welcome)
      {t : Tables}
      → Authentic g t username ("fetchWelcome:" ++ username) signature
      → Steps g w t₀ t
      → ((u : Tables) → Steps g w t₀ u → Does (Steps g w t₀) u (k tt))
      → Does (Steps g w t₀) t (remove_all g w tag username l >>= k)
  unfolding remove_all remove_welcome
  remove_all-Steps username signature k [] {t} authentic p rest =
      Does-after (pure tt) _ (guards_pure tt) p λ _ _. rest t p
  remove_all-Steps username signature k (x ∷ l) {t} authentic p rest =
      let take = remove_welcome username x.group_id in
      Does-assoc (attempt take) _ k (
        Does-attempt take _ (remove_all-Steps username signature k l authentic p rest) (
          remove_all-Steps username signature k l authentic
            (next p (Step.take_welcome username x.group_id signature authentic)) rest))

  module _ {t : Tables} (username signature : String)
      (authentic : Authentic g t username ("fetchWelcome:" ++ username) signature)
      (p : Steps g w t₀ t) where
    one-Steps :
        (group_id : String) (r : Result (Option (List ℕ)))
        → Does (Steps g w t₀) t (fetch_one g w tag username group_id r)
    unfolding fetch_one
    one-Steps group_id (ok (some welcome)) =
        attempt_step g w tag (remove_welcome username group_id) _ p
          (Step.take_welcome username group_id signature authentic) λ u q. Does-reply g w tag _ _ q
    one-Steps group_id (ok none) = Does-reply g w tag _ _ p
    one-Steps group_id err = Does-reply g w tag _ _ p

    all-Steps : (r : Result (List Welcome)) → Does (Steps g w t₀) t (fetch_all g w tag username r)
    unfolding fetch_all
    all-Steps (ok l) =
        remove_all-Steps username signature _ l authentic p λ u q. Does-reply g w tag _ _ q
    all-Steps err = Does-reply g w tag _ _ p

    deliver-Steps :
        (group_id : Option String) → Does (Steps g w t₀) t (deliver g w tag username group_id)
    unfolding deliver get_welcome get_pending_welcomes
    deliver-Steps none =
        Does-after (call (get_pending_welcomes username)) _
          (guards_read (get_pending_welcomes username) refl) p λ l _. all-Steps l
    deliver-Steps (some group_id) =
        Does-after (call (get_welcome username group_id)) _
          (guards_read (get_welcome username group_id) refl) p λ r _. one-Steps group_id r

  pub fetch_welcome-Steps :
      {t : Tables} (payload : Value) (sender signature : String)
      → Steps g w t₀ t
      → Does (Steps g w t₀) t (handle_fetch_welcome g w tag payload sender signature)
  unfolding handle_fetch_welcome
  fetch_welcome-Steps payload sender signature p =
      Does-after (check_general_rate_limit g w tag _) _ (guards_general g w tag _) p λ _ _.
        Does-after (authenticate_request_core g w tag _ _ _ _) _
          (guards_authenticate g w tag _ _ _ _) p
          λ user (same, authentic).
            deliver-Steps sender signature authentic p (get_str "groupId" payload)
