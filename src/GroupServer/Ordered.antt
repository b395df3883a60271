-- ===== src/GroupServer/Ordered.antt =====
-- Rows that stand by ascending id, as AUTOINCREMENT hands the ids out.
use nymstr.Prelude.{
  ℕ, ◌+◌, ◌≤◌, Bool, List, [], ◌∷◌, ◌++◌, ◌≡◌, refl, ap, ◌∙◌, inl, inr, Bool-cases, keep, arith,
}
use nymstr.Db.Tables.{order_by, by_time}

module _ {A : Type 0} (key : A → ℕ) where
  -- The keys ascend, from `low` on and below `high`.
  abbrev pub Within : ℕ → ℕ → List A → Type 0
  Within low high [] = low ≤ high
  Within low high (x ∷ xs) = (low ≤ key x) × Within (key x + 1) high xs

  pub Within-widen :
      (low high low' high' : ℕ) (xs : List A)
      → low' ≤ low
      → high ≤ high'
      → Within low high xs
      → Within low' high' xs
  Within-widen low high low' high' [] l h w = omega arith
  Within-widen low high low' high' (x ∷ xs) l h w =
      (omega arith, Within-widen (key x + 1) high (key x + 1) high' xs (omega arith) h w.1)

  pub Within-le : (low high : ℕ) (xs : List A) → Within low high xs → low ≤ high
  Within-le low high [] w = w
  Within-le low high (x ∷ xs) w = omega (arith, Within-le (key x + 1) high xs w.1)

  pub Within-append :
      (low high : ℕ) (xs : List A) (x : A)
      → key x ≡ high
      → Within low high xs
      → Within low (high + 1) (xs ++ x ∷ [])
  Within-append low high [] x e w = (omega arith, omega arith)
  Within-append low high (y ∷ xs) x e w = (w.0, Within-append (key y + 1) high xs x e w.1)

  pub Within-keep :
      (p : A → Bool) (low high : ℕ) (xs : List A) → Within low high xs → Within low high (keep p xs)
  unfolding keep
  Within-keep p low high [] w = w
  Within-keep p low high (x ∷ xs) w = elim (Bool-cases (p x)) [
    | inl e ↦ rw e (w.0, Within-keep p (key x + 1) high xs w.1)
    | inr e ↦ rw e (
        Within-widen (key x + 1) high low high (keep p xs) (omega arith) (omega arith)
          (Within-keep p (key x + 1) high xs w.1))
  ]

  by_time-Within :
      (low high : ℕ) (x : A) (xs : List A) → Within (key x + 1) high xs → by_time key x xs ≡ x ∷ xs
  unfolding by_time
  by_time-Within low high x [] w = refl
  by_time-Within low high x (y ∷ xs) w = ground arith

  -- Sorting such rows leaves them.
  pub order_by-Within : (low high : ℕ) (xs : List A) → Within low high xs → order_by key xs ≡ xs
  unfolding order_by
  order_by-Within low high [] w = refl
  order_by-Within low high (x ∷ xs) w =
      ap (by_time key x) (order_by-Within (key x + 1) high xs w.1)
      ∙ by_time-Within low high x xs w.1
