-- ===== src/GroupServer/Runs.antt =====
-- Running a handler forwards: what its steps do where their conditions hold.
use nymstr.Prelude.{
  String, Bool, true, false, not, List, [], ◌∷◌, Option, none, some, ◌≡◌, refl, ap, ◌∙◌, ◌==◌, ◌&&◌,
  string_eq,
}
use nymstr.Common.RateLimiter.{check_and_record}
use nymstr.Common.Validation.{is_valid_username}
use nymstr.Transport.{ReplyTag}
use nymstr.Db.Tables.{Result, err, fails, rest}
use nymstr.Server.State.{World, tag_text}
use nymstr.GroupServer.Tables.{
  Tables, User, Call, find_user, is_row, get_user_by_username, is_group_member,
}
use nymstr.GroupServer.State.{
  GroupEnv, GroupServer, Handler, continue, ◌>>=◌, pure, call, attempt, require, expect,
  check_general_rate_limit, authenticate_request_core, authorize_member, authorized,
}

module _ {A B : Type 0} (m : Handler A) (f : A → Handler B) (s s' : GroupServer) where
  pub bind-some : (a : A) → m s ≡ (some a, s') → (m >>= f) s ≡ f a s'
  unfolding ◌>>=◌
  bind-some a e = ap (continue f) e

  pub bind-none : m s ≡ (none, s') → (m >>= f) s ≡ (none, s')
  unfolding ◌>>=◌
  bind-none e = ap (continue f) e

-- The server after a call, of which the next faults are left.
abbrev pub after_call : {A : Type 0} → Call A → GroupServer → List Bool → GroupServer
after_call op s fs = record s { tables = (op s.tables).1; faults = fs }

-- The next call succeeds, and leaves these faults.
abbrev pub Works : List Bool → List Bool → Type 0
Works fs fs' = (fails fs ≡ false) × (rest fs ≡ fs')

pub call-err :
    {A : Type 0} (op : Call A) (s : GroupServer) (fs : List Bool)
    → s.faults ≡ true ∷ fs
    → call op s ≡ (some err, record s { faults = fs })
unfolding call
call-err op s fs e = rw (e, call) refl

pub call-Works :
    {A : Type 0} (op : Call A) (s : GroupServer) (fs : List Bool)
    → Works s.faults fs
    → call op s ≡ (some (op s.tables).0, after_call op s fs)
unfolding call
call-Works op s fs (e, f) = rw (e, call) (rw f refl)

module _ (g : GroupEnv) (w : World) (tag : ReplyTag) (action : String) (s : GroupServer) where
  pub require-true :
      (b : Bool) (text : String) → b ≡ true → require g w tag action b text s ≡ (some tt, s)
  unfolding require pure
  require-true b text e = rw e refl

  pub expect-some :
      {A : Type 0} (o : Option A) (text : String) (a : A)
      → o ≡ some a
      → expect g w tag action o text s ≡ (some a, s)
  unfolding expect pure
  expect-some o text a e = rw e refl

pub attempt-works :
    {A : Type 0} (op : Tables → Result A × Tables) (s : GroupServer)
    → s.faults ≡ []
    → attempt op s ≡ (some tt, after_call op s [])
unfolding attempt fails rest
attempt-works op s e = ap (λ p. (some tt, p.1)) (call-Works op s [] (rw e refl, rw e refl))

-- What a request needs to pass the checks of its sender.
pub record MayAct (g : GroupEnv) (w : World) (tag : ReplyTag) (s : GroupServer)
    (username signature content : String) : Type 0 where
  pub limiter_open :
      (check_and_record w.instant (tag_text g.env tag) s.rate_limiter_general).0 ≡ true
  pub named : (is_valid_username username && not (username == "unknown")) ≡ true
  pub signed : not (signature == "") ≡ true
  pub user : User
  pub registered : find_user username s.tables.users ≡ some user
  pub verified : g.env.verify_signature user.public_key content signature ≡ true

module _ (g : GroupEnv) (w : World) (tag : ReplyTag) (action : String) (s : GroupServer) where
  abbrev pub limited : GroupServer
  limited = record s {
    rate_limiter_general =
        (check_and_record w.instant (tag_text g.env tag) s.rate_limiter_general).1;
  }

  pub general-passes :
      (check_and_record w.instant (tag_text g.env tag) s.rate_limiter_general).0 ≡ true
      → check_general_rate_limit g w tag action s ≡ (some tt, limited)
  unfolding check_general_rate_limit
  general-passes e = require-true g w tag action limited _ _ e

  pub authenticate-passes :
      (username signature content : String) (fs : List Bool)
      → MayAct g w tag s username signature content
      → Works s.faults fs
      → authenticate_request_core g w tag action username signature content limited
        ≡ (some username, record limited { faults = fs })
  unfolding authenticate_request_core get_user_by_username pure
  authenticate-passes username signature content fs h works =
      let l : GroupServer = limited in
      let s' : GroupServer = record l { faults = fs } in
      bind-some (require g w tag action _ _) _ l l tt (require-true g w tag action l _ _ h.named)
      ∙ bind-some (require g w tag action _ _) _ l l tt (require-true g w tag action l _ _ h.signed)
      ∙ bind-some (call (get_user_by_username username)) _ l s' _
          (call-Works (get_user_by_username username) l fs works)
      ∙ bind-some (expect g w tag action _ _) _ s' s' h.user
          (expect-some g w tag action s' _ _ h.user h.registered)
      ∙ bind-some (require g w tag action _ _) _ s' s' tt
          (require-true g w tag action s' _ _ h.verified)

  pub authorize-passes :
      (username : String) (fs : List Bool)
      → is_row g.group_id username s.tables.group_members ≡ true
      → Works s.faults fs
      → authorize_member g w tag action username s ≡ (some tt, record s { faults = fs })
  unfolding authorize_member is_group_member authorized
  authorize-passes username fs member works =
      let s' : GroupServer = record s { faults = fs } in
      bind-some (call (is_group_member g.group_id username)) _ s s' _
        (call-Works (is_group_member g.group_id username) s fs works)
      ∙ require-true g w tag action s' _ _ member
