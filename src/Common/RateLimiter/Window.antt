-- ===== src/Common/RateLimiter/Window.antt =====
-- The limiter against the window that it promises.
use nymstr.Prelude.{
  ℕ, ◌≤◌, ◌<◌, String, List, [], ◌∷◌, ◌++◌, true, false, none, find, or_else, keep, length,
  length-append, ltb, ◌≡◌, ◌≢◌, refl, ap, sym, subst, ◌∙◌, arith, string_eq, find-insert_self,
  find-insert_ne, Bool-cases, inl, inr, keep-append, length-keep-le, ltb→lt, if◌then◌else◌,
}
use mathlib.Core.List.{append-nil, append_assoc}
use native.Mathlib.Nat.{le_trans}
use nymstr.Common.RateLimiter.{RateLimiter, recent, check_and_record}

-- The instants that the limiter holds for a key.
abbrev pub held : String → RateLimiter → List ℕ
held key l = or_else (find key l.attempts) []

check_and_record_own :
    (now : ℕ) (key : String) (l : RateLimiter)
    → ((check_and_record now key l).0
        ≡ ltb (length (recent now l.window_secs (held key l))) l.max_attempts)
      × (held key (check_and_record now key l).1 ≡ (
          if (check_and_record now key l).0
          then recent now l.window_secs (held key l) ++ now ∷ []
          else recent now l.window_secs (held key l)))
unfolding check_and_record
check_and_record_own now key l = (
  ground arith,
  ground (
    arith,
    find-insert_self key (recent now l.window_secs (held key l)) l.attempts,
    find-insert_self key (recent now l.window_secs (held key l) ++ now ∷ []) l.attempts,
  ),
)

check_and_record_other :
    (now : ℕ) (key other : String) (l : RateLimiter)
    → key ≢ other
    → find other (check_and_record now key l).1.attempts ≡ find other l.attempts
unfolding check_and_record
check_and_record_other now key other l h = ground (
  arith,
  find-insert_ne key other (recent now l.window_secs (held key l)) l.attempts h,
  find-insert_ne key other (recent now l.window_secs (held key l) ++ now ∷ []) l.attempts h,
)

-- The call is let through just if fewer than the maximum of the recorded instants are within the
-- window; then the instant is recorded. What is older is forgotten, and no other key is touched.
pub check_and_record_lem :
    (now : ℕ) (key other : String) (l : RateLimiter)
    → key ≢ other
    → ((check_and_record now key l).0
        ≡ ltb (length (recent now l.window_secs (held key l))) l.max_attempts)
      × (held key (check_and_record now key l).1 ≡ (
          if (check_and_record now key l).0
          then recent now l.window_secs (held key l) ++ now ∷ []
          else recent now l.window_secs (held key l)))
      × (find other (check_and_record now key l).1.attempts ≡ find other l.attempts)
check_and_record_lem now key other l h = (
  (check_and_record_own now key l).0,
  (check_and_record_own now key l).1,
  check_and_record_other now key other l h,
)

-- The calls for one key at the given instants: those that are let through.
unfoldable pub accepted : String → List ℕ → RateLimiter → List ℕ
accepted key [] l = []
accepted key (now ∷ ts) l =
    let others = accepted key ts (check_and_record now key l).1 in
    if (check_and_record now key l).0 then now ∷ others else others

-- The instants do not fall, from `last` up to `now`.
abbrev pub Ascending : ℕ → List ℕ → ℕ → Type 0
Ascending last [] now = last ≤ now
Ascending last (t ∷ ts) now = (last ≤ t) × Ascending t ts now

Ascending-le : (last : ℕ) (ts : List ℕ) (now : ℕ) → Ascending last ts now → last ≤ now
Ascending-le last [] now h = h
Ascending-le last (t ∷ ts) now h = omega (arith, Ascending-le t ts now h.1)

-- What is within the window later was within it before.
recent-recent :
    (m n secs : ℕ) (ts : List ℕ) → m ≤ n → recent n secs (recent m secs ts) ≡ recent n secs ts
unfolding recent keep
recent-recent m n secs [] h = refl
recent-recent m n secs (t ∷ ts) h = ground (arith, recent-recent m n secs ts h)

recent-append :
    (n secs : ℕ) (xs ys : List ℕ) → recent n secs (xs ++ ys) ≡ recent n secs xs ++ recent n secs ys
unfolding recent
recent-append n secs xs ys = keep-append _ xs ys

length-recent-le : (n secs : ℕ) (ts : List ℕ) → length (recent n secs ts) ≤ length ts
unfolding recent
length-recent-le n secs ts = length-keep-le _ ts

-- The ghost list `done` of all that was let through agrees with the record within every window
-- that is still to come.
Agrees : String → List ℕ → ℕ → RateLimiter → Type 0
Agrees key done last l =
    (n : ℕ) → last ≤ n → recent n l.window_secs done ≡ recent n l.window_secs (held key l)

config_kept :
    (now : ℕ) (key : String) (l : RateLimiter)
    → ((check_and_record now key l).1.window_secs ≡ l.window_secs)
      × ((check_and_record now key l).1.max_attempts ≡ l.max_attempts)
unfolding check_and_record
config_kept now key l = ground arith

held_pass :
    (now : ℕ) (key : String) (l : RateLimiter)
    → (check_and_record now key l).0 ≡ true
    → (held key (check_and_record now key l).1 ≡ recent now l.window_secs (held key l) ++ now ∷ [])
      × (length (recent now l.window_secs (held key l)) < l.max_attempts)
held_pass now key l e = (
  (check_and_record_own now key l).1 ∙ rw e refl,
  ltb→lt _ _ (sym (check_and_record_own now key l).0 ∙ e),
)

held_stop :
    (now : ℕ) (key : String) (l : RateLimiter)
    → (check_and_record now key l).0 ≡ false
    → held key (check_and_record now key l).1 ≡ recent now l.window_secs (held key l)
held_stop now key l e = (check_and_record_own now key l).1 ∙ rw e refl

pass-Agrees :
    (key : String) (done : List ℕ) (last now : ℕ) (l : RateLimiter)
    → (check_and_record now key l).0 ≡ true
    → last ≤ now
    → Agrees key done last l
    → Agrees key (done ++ now ∷ []) now (check_and_record now key l).1
unfolding Agrees
pass-Agrees key done last now l e le a n h =
    let secs = l.window_secs in
    rw ((config_kept now key l).0, (held_pass now key l e).0)
      (recent-append n secs done (now ∷ [])
        ∙ ap (λ x. x ++ recent n secs (now ∷ []))
            (a n (le_trans le h) ∙ sym (recent-recent now n secs _ h))
        ∙ sym (recent-append n secs (recent now secs (held key l)) (now ∷ [])))

stop-Agrees :
    (key : String) (done : List ℕ) (last now : ℕ) (l : RateLimiter)
    → (check_and_record now key l).0 ≡ false
    → last ≤ now
    → Agrees key done last l
    → Agrees key done now (check_and_record now key l).1
unfolding Agrees
stop-Agrees key done last now l e le a n h =
    rw ((config_kept now key l).0, held_stop now key l e)
      (a n (le_trans le h) ∙ sym (recent-recent now n l.window_secs _ h))

Agrees-at :
    (key : String) (done : List ℕ) (last now : ℕ) (l : RateLimiter)
    → Agrees key done last l
    → last ≤ now
    → recent now l.window_secs done ≡ recent now l.window_secs (held key l)
unfolding Agrees
Agrees-at key done last now l a h = a now h

pass_within :
    (now : ℕ) (key : String) (l : RateLimiter)
    → (check_and_record now key l).0 ≡ true
    → length (held key (check_and_record now key l).1) ≤ (check_and_record now key l).1.max_attempts
pass_within now key l e =
    rw ((held_pass now key l e).0, (config_kept now key l).1)
      (omega (
        arith,
        length-append (recent now l.window_secs (held key l)) (now ∷ []),
        (held_pass now key l e).1,
      ))

stop_within :
    (now : ℕ) (key : String) (l : RateLimiter)
    → (check_and_record now key l).0 ≡ false
    → length (held key l) ≤ l.max_attempts
    → length (held key (check_and_record now key l).1) ≤ (check_and_record now key l).1.max_attempts
stop_within now key l e h =
    rw (held_stop now key l e, (config_kept now key l).1)
      (le_trans (length-recent-le now l.window_secs (held key l)) h)

bounded_from :
    (key : String) (ts done : List ℕ) (last now : ℕ) (l : RateLimiter)
    → Ascending last ts now
    → Agrees key done last l
    → length (held key l) ≤ l.max_attempts
    → length (recent now l.window_secs (done ++ accepted key ts l)) ≤ l.max_attempts
unfolding accepted
bounded_from key [] done last now l up a h =
    rw (append-nil done, Agrees-at key done last now l a up)
      (le_trans (length-recent-le now l.window_secs (held key l)) h)
bounded_from key (t ∷ ts) done last now l up a h = elim (Bool-cases (check_and_record t key l).0) [
  | inl e ↦
      let ih =
        bounded_from key ts (done ++ t ∷ []) t now (check_and_record t key l).1 up.1
          (pass-Agrees key done last t l e up.0 a) (pass_within t key l e) in
      rw e (
        subst (λ xs. length (recent now l.window_secs xs) ≤ l.max_attempts)
          (append_assoc done (t ∷ []) (accepted key ts (check_and_record t key l).1))
          (rw ((config_kept t key l).0, (config_kept t key l).1) at ih))
  | inr e ↦
      let ih =
        bounded_from key ts done t now (check_and_record t key l).1 up.1
          (stop-Agrees key done last t l e up.0 a) (stop_within t key l e h) in
      rw e (rw ((config_kept t key l).0, (config_kept t key l).1) at ih)
]

-- Over any calls for a key at instants that do not fall, of which the limiter knows none at the
-- start, at most the maximum is let through within the window before any later instant.
pub accepted-bounded :
    (key : String) (ts : List ℕ) (now : ℕ) (l : RateLimiter)
    → Ascending 0 ts now
    → find key l.attempts ≡ none
    → length (recent now l.window_secs (accepted key ts l)) ≤ l.max_attempts
unfolding Agrees recent
accepted-bounded key ts now l up h =
    bounded_from key ts [] 0 now l up (λ n _. rw h refl) (rw h (omega arith))
