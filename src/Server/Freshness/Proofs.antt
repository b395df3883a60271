-- ===== src/Server/Freshness/Proofs.antt =====
-- The wrapping subtraction decides the true distance of the two times.
use nymstr.Prelude.{ℕ, suc, ◌+◌, ◌-◌, ◌^◌, ◌<◌, ◌↔◌, ◌≡◌, true, arith}
use nymstr.Prelude.Int.{ℤ, pos, negsuc}
use nymstr.Server.Freshness.{is_stale}

-- How far apart the times are, with no bound on the integers.
abbrev pub distance : ℕ → ℤ → ℕ
distance now (pos n) = (now - n) + (n - now)
distance now (negsuc n) = now + suc n

abbrev pub IsI64 : ℤ → Type 0
IsI64 (pos n) = n < 2 ^ 63
IsI64 (negsuc n) = n < 2 ^ 63

-- For every timestamp that fits an `i64`, also where the subtraction overflows, a signed message
-- counts as stale just if its timestamp is more than 300 seconds from the server's clock, which
-- is taken to be below 2 ^ 62 seconds.
pub is_stale_iff :
    (now : ℕ) (timestamp : ℤ)
    → now < 2 ^ 62
    → IsI64 timestamp
    → (is_stale now timestamp ≡ true) ↔ (300 < distance now timestamp)
unfolding is_stale
is_stale_iff now (pos n) h r = (λ e. ground arith, λ d. ground arith)
is_stale_iff now (negsuc n) h r = (λ e. ground arith, λ d. ground arith)
