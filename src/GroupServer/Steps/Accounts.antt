-- ===== src/GroupServer/Steps/Accounts.antt =====
-- Registration and approval take only allowed steps.
use nymstr.Prelude.{
  ℕ, String, Bool, true, false, List, Option, none, some, ◌≡◌, refl, if◌then◌else◌,
}
use nymstr.Transport.{ReplyTag}
use nymstr.Db.Tables.{Result, ok, err}
use nymstr.Server.State.{World}
use nymstr.GroupServer.Tables.{
  Tables, find_user, key_of, add_user, create_group, add_group_member, add_pending_user,
  remove_pending_user, get_pending_user,
}
use nymstr.GroupServer.Tables.Queues.{store_key_package, get_key_package}
use nymstr.GroupServer.State.{
  GroupEnv, Handler, ◌>>=◌, pure, call, attempt, refuse, require, expect, check_rate_limit,
  check_general_rate_limit,
}
use nymstr.GroupServer.Rules.{
  not-true, Does, Does-after, Does-call, Does-attempt, Does-reply, Does-guard, guards_rate,
  guards_general, guards_require, guards_expect, guards_refuse, guards_read, guards_pure,
}
use nymstr.GroupServer.Checks.{found-answer}
use nymstr.GroupServer.Requests.{RegisterRequest, ApproveGroupRequest}
use nymstr.GroupServer.Accounts.{
  handle_register_core, handle_approve_group_core, register_admin, register_pending, store_package,
  is_admin_key, approve, registered,
}
use nymstr.GroupServer.Steps.{Registers, Approves, Step, Steps, next}

module _ (g : GroupEnv) (w : World) (tag : ReplyTag) {t₀ : Tables} where
  -- A refusal leaves the tables.
  pub Does-refuse :
      {t : Tables} {A : Type 0} (action text : String)
      → Steps g w t₀ t
      → Does (Steps g w t₀) t (refuse g w tag action {A = A} text)
  Does-refuse action text p = Does-guard _ (guards_refuse g w tag action (λ _. Unit {0}) text) p

  -- A call whose step is allowed, and then the rest from wherever it leaves the tables.
  pub attempt_step :
      {t : Tables} {A B : Type 0} (op : Tables → Result A × Tables) (k : Unit {0} → Handler B)
      → Steps g w t₀ t
      → Step g w t (op t).1
      → ((u : Tables) → Steps g w t₀ u → Does (Steps g w t₀) u (k tt))
      → Does (Steps g w t₀) t (attempt op >>= k)
  attempt_step {t} op k p step rest = Does-attempt op k (rest t p) (rest (op t).1 (next p step))

  package-Steps :
      {t : Tables} {A : Type 0} (r : RegisterRequest) (o : Option (List ℕ))
      (k : Unit {0} → Handler A)
      → r.key_package ≡ o
      → Registers g w r
      → Steps g w t₀ t
      → ((u : Tables) → Steps g w t₀ u → Does (Steps g w t₀) u (k tt))
      → Does (Steps g w t₀) t (store_package r.username o (g.env.rfc3339 w.unix) >>= k)
  unfolding store_package
  package-Steps {t} r none k e signed p rest =
      Does-after (pure tt) k (guards_pure tt) p λ a same. rest t p
  package-Steps r (some kp) k e signed p rest =
      attempt_step (store_key_package r.username kp (g.env.rfc3339 w.unix)) k p
        (Step.pack r kp signed e) rest

  registered-Steps :
      {t : Tables} (r : Result Bool) (k : Handler (Unit {0}))
      → Steps g w t₀ t
      → Does (Steps g w t₀) t k
      → Does (Steps g w t₀) t (registered g w tag r k)
  registered-Steps (ok true) k p rest = rest
  registered-Steps (ok false) k p rest = Does-refuse _ _ p
  registered-Steps err k p rest = Does-refuse _ _ p

  admin-Steps :
      {t : Tables} (r : RegisterRequest)
      → Registers g w r
      → is_admin_key g.admin_public_key r.public_key ≡ true
      → Steps g w t₀ t
      → Does (Steps g w t₀) t (register_admin g w tag r)
  unfolding register_admin
  admin-Steps {t} r signed key p =
      let q = next p (Step.admit_admin r signed key) in
      Does-call (add_user r.username r.public_key) _ (Does-refuse _ _ p) (
        registered-Steps (add_user r.username r.public_key t).0 _ q (
          package-Steps r r.key_package _ refl signed q λ u pu.
            attempt_step (create_group g.group_id g.group_id r.username true true) _ pu
              (Step.found_group r signed key)
              λ v pv.
                attempt_step (add_group_member g.group_id r.username) _ pv
                  (Step.join_admin r signed key)
                  λ x px. Does-reply g w tag "registerResponse" "approved" px))

  pending-Steps :
      {t : Tables} (r : RegisterRequest)
      → Registers g w r
      → is_admin_key g.admin_public_key r.public_key ≡ false
      → Steps g w t₀ t
      → Does (Steps g w t₀) t (register_pending g w tag r)
  unfolding register_pending
  pending-Steps {t} r signed key p =
      let q = next p (Step.apply r signed key) in
      Does-call (add_pending_user r.username r.public_key) _ (Does-refuse _ _ p) (
        registered-Steps (add_pending_user r.username r.public_key t).0 _ q (
          package-Steps r r.key_package _ refl signed q
            λ u pu. Does-reply g w tag "registerResponse" "pending" pu))

  either-Steps :
      {t : Tables} (r : RegisterRequest) (b : Bool)
      → is_admin_key g.admin_public_key r.public_key ≡ b
      → Registers g w r
      → Steps g w t₀ t
      → Does (Steps g w t₀) t (if b then register_admin g w tag r else register_pending g w tag r)
  either-Steps r true e signed p = admin-Steps r signed e p
  either-Steps r false e signed p = pending-Steps r signed e p

  pub register-Steps :
      {t : Tables} (r : RegisterRequest)
      → Steps g w t₀ t
      → Does (Steps g w t₀) t (handle_register_core g w tag r)
  unfolding handle_register_core
  register-Steps r p =
      Does-after (check_rate_limit g w tag _ _) _ (guards_rate g w tag _ _) p λ _ _.
        Does-after (check_rate_limit g w tag _ _) _ (guards_rate g w tag _ _) p λ _ _.
          Does-after (require g w tag _ _ _) _ (guards_require g w tag _ _ _) p λ _ valid.
            Does-after (require g w tag _ _ _) _ (guards_require g w tag _ _ _) p λ _ fresh.
              Does-after (require g w tag _ _ _) _ (guards_require g w tag _ _ _) p λ _ present.
                Does-after (require g w tag _ _ _) _ (guards_require g w tag _ _ _) p λ _ verified.
                  either-Steps r _ refl
                    (record { valid = valid; fresh = not-true _ fresh; verified = verified }) p

  approve-Steps :
      {t : Tables} (r : ApproveGroupRequest) (kp : Option (List ℕ)) (a : Result Bool)
      → Approves g w r
      → Steps g w t₀ t
      → Does (Steps g w t₀) t (approve g w tag r.username kp a)
  unfolding approve
  approve-Steps r kp (ok true) signed p =
      attempt_step (remove_pending_user r.username) _ p (Step.settle r signed) λ u pu.
        attempt_step (add_group_member g.group_id r.username) _ pu (Step.join r signed)
          λ v pv. Does-reply g w tag "approveGroupResponse" _ pv
  approve-Steps r kp (ok false) signed p = Does-refuse _ _ p
  approve-Steps r kp err signed p = Does-refuse _ _ p

  pub approve_group-Steps :
      {t : Tables} (r : ApproveGroupRequest)
      → Steps g w t₀ t
      → Does (Steps g w t₀) t (handle_approve_group_core g w tag r)
  unfolding handle_approve_group_core get_pending_user get_key_package
  approve_group-Steps {t} r p =
      Does-after (check_general_rate_limit g w tag _) _ (guards_general g w tag _) p λ _ _.
        Does-after (require g w tag _ _ _) _ (guards_require g w tag _ _ _) p λ _ present.
          Does-after (expect g w tag _ _ _) _ (guards_expect g w tag _ _ _) p
            λ admin_key configured.
              Does-after (require g w tag _ _ _) _ (guards_require g w tag _ _ _) p λ _ same_group.
                Does-after (require g w tag _ _ _) _ (guards_require g w tag _ _ _) p λ _ fresh.
                  Does-after (require g w tag _ _ _) _ (guards_require g w tag _ _ _) p
                    λ _ verified.
                      Does-after (call (get_pending_user r.username)) _
                        (guards_read (get_pending_user r.username) refl) p
                        λ found_key answer.
                          Does-after (expect g w tag _ _ _) _ (guards_expect g w tag _ _ _) p
                            λ key waits.
                              Does-after (call (get_key_package r.username)) _
                                (guards_read (get_key_package r.username) refl) p
                                λ kp _.
                                  let signed : Approves g w r = record {
                                    admin_key = admin_key;
                                    configured = configured;
                                    same_group = same_group;
                                    fresh = not-true _ fresh;
                                    verified = verified;
                                  } in
                                  Does-call (add_user r.username key) _
                                    (approve-Steps r _ err signed p)
                                    (approve-Steps r _ (add_user r.username key t).0 signed (
                                      next p (
                                        Step.admit r key signed (
                                          found-answer found_key
                                            (key_of (find_user r.username t.pending_users)) key
                                            answer waits))))
