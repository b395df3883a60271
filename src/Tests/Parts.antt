-- ===== src/Tests/Parts.antt =====
-- Runs of the parts that the server is built of.
use Prim.Native.String.{len}
use text.Mathlib.Text.{starts_with}
use text.Mathlib.TextPositions.{len-append, slice-append_left}
use nymstr.Prelude.{
  ℕ, zero, suc, ◌*◌, ◌/◌, ◌≤◌, ◌<◌, ◌+◌, String, Bool, true, false, List, [], ◌∷◌, ◌++◌, Option,
  none, some, ◌≡◌, ◌≢◌, ◌↔◌, ◌⊎◌, refl, ap, arith, find, length, ltb, take, holds_for_all, ◌==◌,
  ==_iff, ◌-◌, nat_eq, string_eq, All, if◌then◌else◌,
}
use nymstr.Prelude.Int.{negsuc}
use nymstr.Common.RateLimiter.{RateLimiter, new, recent, check_and_record}
use nymstr.Common.RateLimiter.Window.{held, check_and_record_lem, accepted, accepted-bounded}
use nymstr.Transport.{nym, to_string, from_stored_string}
use nymstr.Transport.RoundTrip.{from_stored_string-to_string}
use nymstr.Db.Tables.{ok, err, KeyPackage}
use nymstr.Db.KeyPackages.{is_live, live_packages, delete_package, consume_key_package}
use nymstr.Db.KeyPackages.Holdback.{consume_key_package-holdback}
use nymstr.Server.Freshness.{is_stale}
use nymstr.Server.Freshness.Proofs.{distance, is_stale_iff}
use nymstr.Server.KeyExchange.{has_leading_zero_bits}
use nymstr.Server.KeyExchange.Work.{bits_of, has_leading_zero_bits_lem}
use nymstr.Tests.Fixture.{db, tally, letters, letters_read}

ne : (a b : String) → (a == b) ≡ false → a ≢ b
ne a b h e = ground (arith, ==_iff a b)

-- Two calls a minute.
abbrev limiter : RateLimiter
limiter = new 2 60

abbrev instants : List ℕ
instants = 5 ∷ 6 ∷ 7 ∷ 60000000005 ∷ []

accepted_run : accepted "k" instants limiter ≡ 5 ∷ 6 ∷ 60000000005 ∷ []
unfolding accepted check_and_record find new nymstr.Prelude.keep nymstr.Prelude.insert
accepted_run = refl

accepted-bounded_example : length (recent 60000000006 60 (accepted "k" instants limiter)) ≤ 2
unfolding find new
accepted-bounded_example =
    accepted-bounded "k" instants 60000000006 limiter
      (omega arith, (omega arith, (omega arith, (omega arith, omega arith)))) refl

check_and_record_lem_example :
    ((check_and_record 9 "k" limiter).0 ≡ ltb (length (recent 9 60 (held "k" limiter))) 2)
    × (held "k" (check_and_record 9 "k" limiter).1 ≡ (
        if (check_and_record 9 "k" limiter).0
        then recent 9 60 (held "k" limiter) ++ 9 ∷ []
        else recent 9 60 (held "k" limiter)))
    × (find "j" (check_and_record 9 "k" limiter).1.attempts ≡ find "j" limiter.attempts)
unfolding new
check_and_record_lem_example = check_and_record_lem 9 "k" "j" limiter (ne "k" "j" refl)

len-tally : (n : ℕ) → len (tally n) ≡ n
len-tally zero = refl
len-tally (suc n) = omega (arith, len-append "z" (tally n), len-tally n)

letters_read-letters : (n : ℕ) → letters_read (letters n) ≡ some n
letters_read-letters n = ap some (omega (arith, len-append "zzzzzz" (tally n), len-tally n))

letters_plain : (n : ℕ) → starts_with (letters n) "stdio:" ≡ false
letters_plain n = rw (slice-append_left "zzzzzz" (tally n)) refl

from_stored_string-to_string_example :
    from_stored_string letters_read (to_string letters (nym 4)) ≡ some (nym 4)
from_stored_string-to_string_example =
    from_stored_string-to_string letters letters_read letters_read-letters letters_plain (nym 4)

consume_key_package-holdback_example :
    ((k : KeyPackage) × ((consume_key_package 1000 db "alice").0 ≡ ok (some k))
      × (is_live 1000 "alice" k ≡ true)
      × All (λ j. k.created_at ≤ j.created_at) (live_packages 1000 "alice" db.key_packages)
      × ((consume_key_package 1000 db "alice").1.key_packages ≡ delete_package k.id db.key_packages)
      × (1
          ≤ length
              (live_packages 1000 "alice" (consume_key_package 1000 db "alice").1.key_packages)))
    ⊎ (((consume_key_package 1000 db "alice").0 ≡ ok none
          ⊎ (consume_key_package 1000 db "alice").0 ≡ err)
        × ((consume_key_package 1000 db "alice").1.key_packages ≡ db.key_packages))
consume_key_package-holdback_example =
    consume_key_package-holdback 1000 db "alice" (((λ e. omega arith), tt), (tt, tt))

is_stale_iff_example : (is_stale 1000 (negsuc 0) ≡ true) ↔ (300 < distance 1000 (negsuc 0))
is_stale_iff_example = is_stale_iff 1000 (negsuc 0) (omega arith) (omega arith)

has_leading_zero_bits_lem_example :
    has_leading_zero_bits (0 ∷ 0 ∷ 3 ∷ []) 22
    ≡ holds_for_all (λ d. d == 0) (take 22 (bits_of (0 ∷ 0 ∷ 3 ∷ [])))
has_leading_zero_bits_lem_example =
    has_leading_zero_bits_lem (0 ∷ 0 ∷ 3 ∷ []) 22 (omega arith, (omega arith, (omega arith, tt)))
