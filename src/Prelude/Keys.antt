-- ===== src/Prelude/Keys.antt =====
-- Equality tests as an interface, and hash maps as association lists over such keys.
use Prim.Native.Nat.{ℕ}
use Prim.Native.String.{String}
use text.Mathlib.TextEquality.{eq_iff}
use mathlib.Core.Path.{◌≡◌, refl}
use mathlib.Core.Logic.{◌↔◌, ◌≢◌}
use mathlib.Core.Bool.{Bool, true, false}
use mathlib.Core.List.{List, [], ◌∷◌}
use mathlib.Core.Option.{Option, none, some}
use text.Mathlib.Text.{◌==◌ as text_beq}
use native.Mathlib.Omega.{arith}
use nymstr.Prelude.Tests.{nat_beq, nat_beq_iff, if◌then◌else◌}

-- Values that can be compared, as a key of a `HashMap` can: the test `==` of `PartialEq`.
pub record Key {ℓ} (K : Type ℓ) : Type ℓ where
  pub matches : K → K → Bool
  pub matches_iff : (j k : K) → (matches j k ≡ true) ↔ (j ≡ k)

instance abbrev pub nat_eq : Key ℕ
nat_eq = record { matches = nat_beq; matches_iff = nat_beq_iff }

instance abbrev pub string_eq : Key String
string_eq = record { matches = text_beq; matches_iff = eq_iff }

infix 50 ◌==◌
abbrev pub ◌==◌ {ℓ} : {K : Type ℓ} ⦃key : Key K⦄ → K → K → Bool
◌==◌ ⦃key⦄ j k = key.matches j k

module _ {ℓ} {K : Type ℓ} ⦃key : Key K⦄ where
  pub ==_iff : (j k : K) → ((j == k) ≡ true) ↔ (j ≡ k)
  ==_iff j k = key.matches_iff j k

  pub ==_self : (k : K) → (k == k) ≡ true
  ==_self k = (key.matches_iff k k).1 refl

  unfoldable pub contains : K → List K → Bool
  contains k [] = false
  contains k (x ∷ xs) = if x == k then true else contains k xs

-- `HashMap`: `insert` replaces the value of a key that is there, `remove` drops every entry.
abbrev pub Map {ℓ κ} : Type ℓ → Type κ → Type (ℓ ⊔ κ)
Map K V = List (K × V)

module _ {ℓ κ} {K : Type ℓ} {V : Type κ} ⦃e : Key K⦄ where
  unfoldable pub find : K → Map K V → Option V
  find k [] = none
  find k ((j, v) ∷ m) = if j == k then some v else find k m

  unfoldable pub remove : K → Map K V → Map K V
  remove k [] = []
  remove k ((j, v) ∷ m) = if j == k then remove k m else (j, v) ∷ remove k m

  unfoldable pub insert : K → V → Map K V → Map K V
  insert k v m = (k, v) ∷ remove k m

  pub find-remove_self : (k : K) (m : Map K V) → find k (remove k m) ≡ none
  unfolding find remove
  find-remove_self k [] = refl
  find-remove_self k ((j, v) ∷ m) = ground (arith, find-remove_self k m)

  pub find-remove_ne : (k j : K) (m : Map K V) → k ≢ j → find j (remove k m) ≡ find j m
  unfolding find remove
  find-remove_ne k j [] h = refl
  find-remove_ne k j ((i, v) ∷ m) h =
      ground (arith, e.matches_iff i k, e.matches_iff i j, find-remove_ne k j m h)

  pub find-insert_self : (k : K) (v : V) (m : Map K V) → find k (insert k v m) ≡ some v
  unfolding find insert
  find-insert_self k v m = ground (arith, e.matches_iff k k)

  pub find-insert_ne : (k j : K) (v : V) (m : Map K V) → k ≢ j → find j (insert k v m) ≡ find j m
  unfolding find insert
  find-insert_ne k j v m h = ground (arith, e.matches_iff k j, find-remove_ne k j m h)
