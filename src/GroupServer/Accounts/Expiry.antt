-- ===== src/GroupServer/Accounts/Expiry.antt =====
-- The signed difference decides the distance of the two times, but for one value.
use nymstr.Prelude.{ℕ, ◌^◌, ◌<◌, ◌↔◌, ◌≡◌, ◌≢◌, true, arith}
use nymstr.Prelude.Int.{ℤ, pos, negsuc}
use nymstr.Server.Freshness.Proofs.{distance, IsI64}
use nymstr.GroupServer.Accounts.{is_expired}

-- For every timestamp that fits an `i64` and a clock below 2 ^ 62 seconds, a request counts as
-- expired just if its timestamp is more than 300 seconds from the clock, except at the distance
-- 2 ^ 63, whose negative has no absolute value: that timestamp is taken as fresh.
pub is_expired_iff :
    (now : ℕ) (timestamp : ℤ)
    → now < 2 ^ 62
    → IsI64 timestamp
    → (is_expired now timestamp ≡ true)
      ↔ ((300 < distance now timestamp) × (distance now timestamp ≢ 2 ^ 63))
unfolding is_expired
is_expired_iff now (pos n) h r = (λ e. (ground arith, λ d. ground arith), λ d. ground arith)
is_expired_iff now (negsuc n) h r =
    (λ e. (ground arith, λ d. ground arith), λ d. ground (arith, d.1))
