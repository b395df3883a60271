-- ===== src/Prelude/Every.antt =====
-- A predicate on every element, through filters and maps.
use mathlib.Core.Path.{◌≡◌, subst}
use mathlib.Core.Bool.{Bool}
use mathlib.Core.List.{List, [], ◌∷◌, ◌++◌}
use mathlib.Core.Option.{some}
use mathlib.Core.Logic.{inl, inr}
use native.Mathlib.Omega.{arith}
use nymstr.Prelude.Tests.{Bool-cases}
use nymstr.Prelude.Lists.{keep}
use nymstr.Prelude.Keys.{Key, Map, find, remove, insert, ◌==◌}

abbrev pub All {ℓ κ} : {A : Type ℓ} → (A → Type κ) → List A → Type κ
All P [] = Unit
All P (x ∷ xs) = P x × All P xs

pub All-every {ℓ κ} : {A : Type ℓ} {P : A → Type κ} → ((a : A) → P a) → (xs : List A) → All P xs
All-every f [] = tt
All-every f (x ∷ xs) = (f x, All-every f xs)

module _ {ℓ κ} {A : Type ℓ} (P : A → Type κ) where
  pub All-append : (xs ys : List A) → All P xs → All P ys → All P (xs ++ ys)
  All-append [] ys hx hy = hy
  All-append (x ∷ xs) ys hx hy = (hx.0, All-append xs ys hx.1 hy)

  pub All-keep : (p : A → Bool) (xs : List A) → All P xs → All P (keep p xs)
  unfolding keep
  All-keep p [] h = h
  All-keep p (x ∷ xs) h = elim (Bool-cases (p x)) [
    | inl e ↦ rw e (h.0, All-keep p xs h.1)
    | inr e ↦ rw e (All-keep p xs h.1)
  ]

pub All-mono {ℓ κ} :
    {A : Type ℓ} (P Q : A → Type κ) → ((a : A) → P a → Q a) → (xs : List A) → All P xs → All Q xs
All-mono P Q f [] h = h
All-mono P Q f (x ∷ xs) h = (f x h.0, All-mono P Q f xs h.1)

pub All-both {ℓ κ} :
    {A : Type ℓ} {P Q R : A → Type κ}
    → ((a : A) → P a → Q a → R a)
    → (xs : List A) → All P xs
    → All Q xs
    → All R xs
All-both f [] h k = tt
All-both f (x ∷ xs) h k = (f x h.0 k.0, All-both f xs h.1 k.1)

module _ {ℓ κ μ} {K : Type ℓ} {V : Type κ} ⦃e : Key K⦄ (P : V → Type μ) where
  -- On the values of a map.
  abbrev pub Values : Map K V → Type μ
  Values = All (λ p. P (p.1))

  pub Values-remove : (k : K) (m : Map K V) → Values m → Values (remove k m)
  unfolding remove
  Values-remove k [] h = h
  Values-remove k ((j, v) ∷ m) h = elim (Bool-cases (j == k)) [
    | inl e ↦ rw e (Values-remove k m h.1)
    | inr e ↦ rw e (h.0, Values-remove k m h.1)
  ]

  pub Values-insert : (k : K) (v : V) (m : Map K V) → P v → Values m → Values (insert k v m)
  unfolding insert
  Values-insert k v m p h = (p, Values-remove k m h)

  pub Values-find : (k : K) (m : Map K V) (v : V) → Values m → find k m ≡ some v → P v
  unfolding find
  Values-find k [] v h f = absurd (cc)
  Values-find k ((j, x) ∷ m) v h f = elim (Bool-cases (j == k)) [
    | inl e ↦ subst P (ground arith) h.0
    | inr e ↦ Values-find k m v h.1 (ground arith)
  ]
