-- ===== src/GroupServer/Checks.antt =====
-- What the checks that the handlers share find out about a request.
use nymstr.Prelude.{String, Bool, true, Option, some, ◌≡◌, refl, ◌⊎◌, string_eq, arith}
use nymstr.Transport.{ReplyTag}
use nymstr.Db.Tables.{Result, ok, err}
use nymstr.Server.State.{World}
use nymstr.GroupServer.Tables.{
  Tables, User, find_user, is_row, get_user_by_username, is_group_member,
}
use nymstr.GroupServer.State.{
  GroupEnv, pure, call, require, expect, found, authenticate_request_core, authorize_member,
  authorized,
}
use nymstr.GroupServer.Rules.{
  Guards, guards_pure, guards_mono, guards_read, guards_refuse, guards_require, guards_expect,
  guards_bind,
}

-- The signature verifies under the key that the user is registered with.
abbrev pub Authentic : GroupEnv → Tables → String → String → String → Type 0
Authentic g t username content signature =
    (u : User) × (find_user username t.users ≡ some u)
    × (g.env.verify_signature u.public_key content signature ≡ true)

abbrev pub IsMember : GroupEnv → Tables → String → Type 0
IsMember g t username = is_row g.group_id username t.group_members ≡ true

-- What a lookup found is in the table.
pub found-answer :
    {A : Type 0} (r : Result (Option A)) (o : Option A) (a : A)
    → (r ≡ err) ⊎ (r ≡ ok o)
    → found r ≡ some a
    → o ≡ some a
found-answer r o a answer f = ground arith

module _ (g : GroupEnv) (w : World) (tag : ReplyTag) (action : String) {t : Tables} where
  pub guards_authenticate :
      (username signature content : String)
      → Guards t
          (authenticate_request_core g w tag action username signature content)
          (λ u. (u ≡ username) × Authentic g t username content signature)
  unfolding authenticate_request_core get_user_by_username
  guards_authenticate username signature content =
      guards_bind (require g w tag action _ _) _ (guards_require g w tag action _ _) λ _ valid.
        guards_bind (require g w tag action _ _) _ (guards_require g w tag action _ _) λ _ present.
          guards_bind (call (get_user_by_username username)) _
            (guards_read (get_user_by_username username) refl)
            λ r answer.
              guards_bind (expect g w tag action _ _) _ (guards_expect g w tag action _ _) λ u f.
                guards_bind (require g w tag action _ _) _ (guards_require g w tag action _ _)
                  λ _ verified. guards_mono (pure username) (guards_pure username) λ v same.
                    (same, (u, found-answer r (find_user username t.users) u answer f, verified))

  guards_authorized :
      (r : Result Bool) (b : Bool)
      → (r ≡ err) ⊎ (r ≡ ok b)
      → Guards t (authorized g w tag action r) (λ _. b ≡ true)
  unfolding authorized
  guards_authorized err b answer = guards_refuse g w tag action _ _
  guards_authorized (ok c) b answer =
      guards_mono _ (guards_require g w tag action c _) λ _ e. ground arith

  pub guards_authorize :
      (username : String)
      → Guards t (authorize_member g w tag action username) (λ _. IsMember g t username)
  unfolding authorize_member is_group_member
  guards_authorize username =
      guards_bind (call (is_group_member g.group_id username)) _
        (guards_read (is_group_member g.group_id username) refl)
        λ r answer. guards_authorized r (is_row g.group_id username t.group_members) answer
