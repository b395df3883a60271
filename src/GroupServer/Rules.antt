-- ===== src/GroupServer/Rules.antt =====
-- Rules for the handlers of the group server: what a block checks, and what it does to the tables.
use nymstr.Prelude.{
  String, Bool, true, false, not, Option, none, some, ◌≡◌, refl, sym, subst, arith, ◌⊎◌, inl, inr,
  Option-cases, Bool-cases,
}
use nymstr.Common.RateLimiter.{check_and_record}
use nymstr.Transport.{ReplyTag}
use nymstr.Db.Tables.{Result, err, fails, rest}
use nymstr.Server.State.{World, tag_text}
use nymstr.GroupServer.Tables.{Tables, Call}
use nymstr.GroupServer.State.{
  GroupEnv, GroupServer, Handler, continue, ◌>>=◌, pure, call, attempt, reply, refuse, require,
  expect, check_rate_limit, check_general_rate_limit, send_encapsulated_reply,
}

pub not-true : (b : Bool) → not b ≡ true → b ≡ false
not-true b h = ground arith

-- From the tables `t` the step changes nothing, and what it passes on has the property.
pub record Guards {A : Type 0} (t : Tables) (m : Handler A) (P : A → Type 0) : Type 0 where
  pub at :
      (s : GroupServer) → s.tables ≡ t → ((m s).1.tables ≡ t) × ((a : A) → (m s).0 ≡ some a → P a)

-- From the tables `t` the block ends in tables of which `C` holds, wherever it stops.
pub record Does {A : Type 0} (C : Tables → Type 0) (t : Tables) (m : Handler A) : Type 0 where
  pub at : (s : GroupServer) → s.tables ≡ t → C (m s).1.tables

module _ {t : Tables} {A : Type 0} where
  pub guards_pure : (a : A) → Guards t (pure a) (λ b. b ≡ a)
  unfolding pure
  guards_pure a = record { at = λ s e. (e, λ b h. ground arith) }

  pub guards_mono :
      {P Q : A → Type 0} (m : Handler A) → Guards t m P → ((a : A) → P a → Q a) → Guards t m Q
  guards_mono m h f = record { at = λ s e. ((h.at s e).0, λ a k. f a ((h.at s e).1 a k)) }

  pub guards_read :
      (op : Call A) → (op t).1 ≡ t → Guards t (call op) (λ r. (r ≡ err) ⊎ (r ≡ (op t).0))
  unfolding call
  guards_read op same = record {
    at = λ s e. elim (Bool-cases (fails s.faults)) [
      | inl f ↦ rw f (e, λ r h. inl (ground arith))
      | inr f ↦ rw (f, e) (same, λ r h. inr (ground arith))
    ];
  }

module _ (g : GroupEnv) (w : World) (tag : ReplyTag) (action : String) {t : Tables} where
  pub guards_refuse :
      {A : Type 0} (P : A → Type 0) (text : String) → Guards t (refuse g w tag action text) P
  unfolding refuse send_encapsulated_reply
  guards_refuse P text = record { at = λ s e. (e, λ a h. absurd (cc)) }

  pub guards_require :
      (b : Bool) (text : String) → Guards t (require g w tag action b text) (λ _. b ≡ true)
  unfolding require pure
  guards_require true text = record { at = λ s e. (e, λ a h. refl) }
  guards_require false text = guards_refuse _ text

  pub guards_expect :
      {A : Type 0} (o : Option A) (text : String)
      → Guards t (expect g w tag action o text) (λ a. o ≡ some a)
  unfolding expect pure
  guards_expect none text = guards_refuse _ text
  guards_expect (some a) text = record { at = λ s e. (e, λ b h. h) }

  pub guards_rate : (key : String) → Guards t (check_rate_limit g w tag action key) (λ _. Unit {0})
  unfolding check_rate_limit
  guards_rate key = record {
    at = λ s e.
        let r = check_and_record w.instant key s.rate_limiter in
        (((guards_require r.0 _).at (record s { rate_limiter = r.1 }) e).0, λ a h. tt);
  }

  pub guards_general : Guards t (check_general_rate_limit g w tag action) (λ _. Unit {0})
  unfolding check_general_rate_limit
  guards_general = record {
    at = λ s e.
        let r = check_and_record w.instant (tag_text g.env tag) s.rate_limiter_general in
        (((guards_require r.0 _).at (record s { rate_limiter_general = r.1 }) e).0, λ a h. tt);
  }

module _ {t : Tables} {A B : Type 0} (m : Handler A) (f : A → Handler B) where
  pub guards_bind :
      {P : A → Type 0} {Q : B → Type 0}
      → Guards t m P
      → ((a : A) → P a → Guards t (f a) Q)
      → Guards t (m >>= f) Q
  unfolding ◌>>=◌
  guards_bind h k = record {
    at = λ s e. elim (Option-cases (m s).0) [
      | inl n ↦ rw (n, ◌>>=◌) ((h.at s e).0, λ a x. absurd (cc))
      | inr (a, n) ↦ rw (n, ◌>>=◌) ((k a ((h.at s e).1 a n)).at (m s).1 (h.at s e).0)
    ];
  }

  -- What follows a check may use what it found.
  pub Does-after :
      {C : Tables → Type 0} {P : A → Type 0}
      → Guards t m P
      → C t
      → ((a : A) → P a → Does C t (f a))
      → Does C t (m >>= f)
  unfolding ◌>>=◌
  Does-after {C} h c k = record {
    at = λ s e. elim (Option-cases (m s).0) [
      | inl n ↦ rw (n, ◌>>=◌) (subst C (sym (h.at s e).0) c)
      | inr (a, n) ↦ rw (n, ◌>>=◌) ((k a ((h.at s e).1 a n)).at (m s).1 (h.at s e).0)
    ];
  }

module _ {A B D : Type 0} (m : Handler A) (f : A → Handler B) (k : B → Handler D) where
  bind_assoc :
      (p : Option A × GroupServer) → continue k (continue f p) ≡ continue (λ a. f a >>= k) p
  unfolding ◌>>=◌
  bind_assoc (none, s) = refl
  bind_assoc (some a, s) = refl

module _ {A : Type 0} (op : Call A) (s : GroupServer) where
  pub call-err : fails s.faults ≡ true → call op s ≡ (some err, record s { faults = rest s.faults })
  unfolding call
  call-err e = rw e

  pub call-ok :
      fails s.faults ≡ false
      → call op s
        ≡ (some (op s.tables).0, record s { tables = (op s.tables).1; faults = rest s.faults })
  unfolding call
  call-ok e = rw e

module _ (C : Tables → Type 0) {t : Tables} where
  -- A call is made or fails, and the rest of the block is run from the tables that it leaves.
  does_step :
      {A B : Type 0} (op : Call A) (k : Option (Result A) × GroupServer → Option B × GroupServer)
      → ((s : GroupServer) → s.tables ≡ t → C (k (some err, s)).1.tables)
      → ((s : GroupServer) → s.tables ≡ (op t).1 → C (k (some (op t).0, s)).1.tables)
      → (s : GroupServer) → s.tables ≡ t
      → C (k (call op s)).1.tables
  does_step op k failed done s e = elim (Bool-cases (fails s.faults)) [
    | inl b ↦
        subst (λ p. C (k p).1.tables) (sym (call-err op s b))
          (failed (record s { faults = rest s.faults }) e)
    | inr b ↦
        subst (λ p. C (k p).1.tables) (sym (call-ok op s b))
          (subst
            (λ u.
              C
                (k
                  (some (op u).0, record s { tables = (op u).1; faults = rest s.faults })).1.tables)
            (sym e) (done (record s { tables = (op t).1; faults = rest s.faults }) refl))
  ]

module _ {C : Tables → Type 0} {t : Tables} where
  pub Does-guard : {A : Type 0} {P : A → Type 0} (m : Handler A) → Guards t m P → C t → Does C t m
  Does-guard m h c = record { at = λ s e. subst C (sym (h.at s e).0) c }

  pub Does-call :
      {A B : Type 0} (op : Call A) (f : Result A → Handler B)
      → Does C t (f err)
      → Does C (op t).1 (f (op t).0)
      → Does C t (call op >>= f)
  unfolding ◌>>=◌
  Does-call op f failed done = record {
    at = does_step C op (continue f) (λ s. failed.at s) (λ s. done.at s);
  }

  pub Does-attempt :
      {B D : Type 0} (op : Call B) (f : Unit {0} → Handler D)
      → Does C t (f tt)
      → Does C (op t).1 (f tt)
      → Does C t (attempt op >>= f)
  unfolding ◌>>=◌ attempt
  Does-attempt op f failed done = record {
    at = does_step C op (λ p. f tt p.1) (λ s. failed.at s) (λ s. done.at s);
  }

  pub Does-last : {B : Type 0} (op : Call B) → C t → C (op t).1 → Does C t (attempt op)
  unfolding attempt
  Does-last op failed done = record {
    at =
        does_step C op (λ p. (some tt, p.1)) (λ s e. subst C (sym e) failed)
          (λ s e. subst C (sym e) done);
  }

  pub Does-reply :
      (g : GroupEnv) (w : World) (tag : ReplyTag) (action text : String)
      → C t
      → Does C t (reply g w tag action text)
  unfolding reply send_encapsulated_reply
  Does-reply g w tag action text c = record { at = λ s e. subst C (sym e) c }

  pub Does-assoc :
      {A B D : Type 0} (m : Handler A) (f : A → Handler B) (k : B → Handler D)
      → Does C t (m >>= λ a. f a >>= k)
      → Does C t ((m >>= f) >>= k)
  unfolding ◌>>=◌
  Does-assoc m f k h = record {
    at = λ s e. subst (λ r. C r.1.tables) (sym (bind_assoc m f k (m s))) (h.at s e);
  }
