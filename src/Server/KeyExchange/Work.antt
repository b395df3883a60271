-- ===== src/Server/KeyExchange/Work.antt =====
-- The proof of work: the test on bytes and masks against the bits of the hash.
use nymstr.Prelude.{
  ℕ, zero, suc, ◌+◌, ◌-◌, ◌*◌, ◌/◌, ◌%◌, ◌^◌, ◌<◌, Bool, true, false, not, List, [], ◌∷◌, ◌++◌,
  take, take-le-append, holds_for_all-append, holds_for_all, All, ◌==◌, nat_eq, ◌&&◌, if◌then◌else◌,
  ◌≡◌, refl, sym, ap, ◌∙◌, arith, Bool-cases, ◌⊎◌, inl, inr,
}
use Prim.Native.Nat.{bit_and}
use nymstr.Server.KeyExchange.{byte, zero_bytes, has_leading_zero_bits}

-- The bits of a byte, and of the bytes of a hash, the highest first.
abbrev byte_bits : ℕ → List ℕ
byte_bits b =
    b / 128 % 2
    ∷ b / 64 % 2
    ∷ b / 32 % 2
    ∷ b / 16 % 2
    ∷ b / 8 % 2
    ∷ b / 4 % 2
    ∷ b / 2 % 2
    ∷ b % 2
    ∷ []

abbrev pub bits_of : List ℕ → List ℕ
bits_of [] = []
bits_of (b ∷ bs) = byte_bits b ++ bits_of bs

abbrev zeros : List ℕ → Bool
zeros = holds_for_all λ d. d == 0

-- The test of a byte against a mask for `r` bits.
abbrev masked : ℕ → ℕ → Bool
masked b r = if r == 0 then true else bit_and b (0xff * 2 ^ (8 - r) % 256) == 0

all_below : ℕ → (ℕ → Bool) → Bool
all_below zero p = true
all_below (suc n) p = p n && all_below n p

all_below_lem : (n i : ℕ) (p : ℕ → Bool) → all_below n p ≡ true → i < n → p i ≡ true
unfolding all_below
all_below_lem zero i p h l = absurd (omega arith)
all_below_lem (suc n) i p h l = elim (nat_cases) [
  | inl e ↦ rw e (ground arith)
  | inr g ↦ all_below_lem n i p (ground arith) g
]
  where
    nat_cases : (i ≡ n) ⊎ (i < n)
    nat_cases = omega arith

abbrev same : Bool → Bool → Bool
same true b = b
same false b = not b

same_lem : (a b : Bool) → same a b ≡ true → a ≡ b
same_lem true true h = refl
same_lem true false h = ground arith
same_lem false true h = ground arith
same_lem false false h = refl

-- Every byte and every mask.
table :
    all_below 256 (λ b. all_below 8 (λ r. same (masked b r) (zeros (take r (byte_bits b))))) ≡ true
unfolding all_below holds_for_all
table = refl

zero_table : all_below 256 (λ b. same (b == 0) (zeros (byte_bits b))) ≡ true
unfolding all_below holds_for_all
zero_table = refl

masked_lem : (b r : ℕ) → b < 256 → r < 8 → masked b r ≡ zeros (take r (byte_bits b))
masked_lem b r small few = same_lem (masked b r) (zeros (take r (byte_bits b))) (
    all_below_lem 8 r (λ r. same (masked b r) (zeros (take r (byte_bits b))))
      (all_below_lem 256 b
        (λ b. all_below 8 (λ r. same (masked b r) (zeros (take r (byte_bits b))))) table small)
      few)

zero_lem : (b : ℕ) → b < 256 → (b == 0) ≡ zeros (byte_bits b)
zero_lem b small =
    same_lem (b == 0) (zeros (byte_bits b))
      (all_below_lem 256 b (λ b. same (b == 0) (zeros (byte_bits b))) zero_table small)

-- The test with the number of bits taken apart.
abbrev tested : List ℕ → ℕ → ℕ → Bool
tested hash full rem = if not (zero_bytes hash full) then false else masked (byte hash full) rem

plain : (rem : ℕ) → rem ≡ 8 * 0 + rem
plain rem = omega arith

eight_more :
    (i rem : ℕ) → 8 * suc i + rem ≡ suc (suc (suc (suc (suc (suc (suc (suc (8 * i + rem))))))))
eight_more i rem = omega arith

take_byte :
    (b i rem : ℕ) (ds : List ℕ)
    → take (8 * suc i + rem) (byte_bits b ++ ds) ≡ byte_bits b ++ take (8 * i + rem) ds
take_byte b i rem ds = ap (λ n. take n (byte_bits b ++ ds)) (eight_more i rem)

past_end : (rem n : ℕ) → rem < 8 → masked 0 rem ≡ zeros (take n [])
unfolding all_below holds_for_all
past_end rem zero few = all_below_lem 8 rem (masked 0) refl few
past_end rem (suc n) few = all_below_lem 8 rem (masked 0) refl few

tested-suc :
    (b i rem : ℕ) (bs : List ℕ) → tested (b ∷ bs) (suc i) rem ≡ ((b == 0) && tested bs i rem)
unfolding zero_bytes
tested-suc b i rem bs = elim (Bool-cases (b == 0)) [
  | inl e ↦ rw (e, zero_bytes) refl
  | inr e ↦ rw (e, zero_bytes) refl
]

tested_lem :
    (hash : List ℕ) (full rem : ℕ)
    → All (λ b. b < 256) hash
    → rem < 8
    → tested hash full rem ≡ zeros (take (8 * full + rem) (bits_of hash))
unfolding zero_bytes
tested_lem [] zero rem h few = past_end rem (8 * 0 + rem) few
tested_lem [] (suc i) rem h few = past_end rem (8 * suc i + rem) few
tested_lem (b ∷ bs) zero rem h few =
    masked_lem b rem h.0 few
    ∙ ap zeros (sym (take-le-append rem (byte_bits b) (bits_of bs) (omega arith)))
    ∙ ap (λ n. zeros (take n (bits_of (b ∷ bs)))) (plain rem)
tested_lem (b ∷ bs) (suc i) rem h few =
    tested-suc b i rem bs
    ∙ ap (λ z. z && tested bs i rem) (zero_lem b h.0)
    ∙ ap (λ z. zeros (byte_bits b) && z) (tested_lem bs i rem h.1 few)
    ∙ sym (holds_for_all-append (λ d. d == 0) (byte_bits b) (take (8 * i + rem) (bits_of bs)))
    ∙ ap zeros (sym (take_byte b i rem (bits_of bs)))

-- For a hash of bytes, the loop and the mask test exactly the first `required_bits` bits.
pub has_leading_zero_bits_lem :
    (hash : List ℕ) (required_bits : ℕ)
    → All (λ b. b < 256) hash
    → has_leading_zero_bits hash required_bits
      ≡ holds_for_all (λ d. d == 0) (take required_bits (bits_of hash))
unfolding has_leading_zero_bits
has_leading_zero_bits_lem hash required_bits h =
    tested_lem hash (required_bits / 8) (required_bits % 8) h (omega arith)
    ∙ ap (λ n. zeros (take n (bits_of hash))) (omega arith)
