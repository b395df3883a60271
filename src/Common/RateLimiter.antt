-- ===== src/Common/RateLimiter.antt =====
-- crates/nymstr-common/src/rate_limiter.rs: the sliding-window limiter.
-- An instant is a number of nanoseconds; `duration_since` stops at 0, as Rust's does.
pub mod Window
use nymstr.Prelude.{
  ℕ, ◌-◌, ◌*◌, String, List, [], ◌∷◌, ◌++◌, Bool, true, false, Map, find, insert, or_else, keep,
  length, ltb, leb, if◌then◌else◌, string_eq,
}

abbrev pub nanos : ℕ → ℕ
nanos secs = secs * 1000000000

pub record RateLimiter : Type 0 where
  pub attempts : Map String (List ℕ)
  pub max_attempts : ℕ
  pub window_secs : ℕ

unfoldable pub new : ℕ → ℕ → RateLimiter
new max_attempts window_secs = record {
  attempts = [];
  max_attempts = max_attempts;
  window_secs = window_secs;
}

-- `attempts.retain(|&t| now.duration_since(t) < window)`.
unfoldable pub recent : ℕ → ℕ → List ℕ → List ℕ
recent now window_secs = keep λ t. ltb (now - t) (nanos window_secs)

unfoldable pub check_and_record : ℕ → String → RateLimiter → Bool × RateLimiter
unfolding recent
check_and_record now key l =
    let attempts = recent now l.window_secs (or_else (find key l.attempts) []) in
    if leb l.max_attempts (length attempts)
    then (false, record l { attempts = insert key attempts l.attempts })
    else (true, record l { attempts = insert key (attempts ++ now ∷ []) l.attempts })

abbrev is_used : String × List ℕ → Bool
is_used (key, []) = false
is_used (key, t ∷ ts) = true

unfoldable pub cleanup : RateLimiter → RateLimiter
unfolding keep
cleanup l = record l { attempts = keep is_used l.attempts }
