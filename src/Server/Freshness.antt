-- ===== src/Server/Freshness.antt =====
-- nymstr-server/src/message_utils.rs: the age of a signed timestamp, `(now - timestamp).unsigned_abs()`.
pub mod Proofs
use nymstr.Prelude.{ℕ, ◌+◌, ◌-◌, ◌%◌, ◌^◌, Bool, not, suc, ltb, if◌then◌else◌}
use nymstr.Prelude.Int.{ℤ, pos, negsuc}

-- The two's complement bits of an `i64`.
unfoldable pub bits : ℤ → ℕ
bits (pos n) = n
bits (negsuc n) = 2 ^ 64 - suc n

-- The subtraction wraps, as it does in a release build (a debug build would panic on overflow).
unfoldable pub age : ℕ → ℤ → ℕ
unfolding bits
age now timestamp =
    let d = (now + (2 ^ 64 - bits timestamp)) % 2 ^ 64 in if ltb d (2 ^ 63) then d else 2 ^ 64 - d

unfoldable pub is_stale : ℕ → ℤ → Bool
unfolding age
is_stale now timestamp = ltb 300 (age now timestamp)
