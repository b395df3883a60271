-- ===== src/Prelude/Texts.antt =====
-- The order of texts, as `Ord` of `String` and `ORDER BY` on a text column have it.
use Prim.Native.Nat.{ℕ, Ordering, compare as compare_ℕ}
use Prim.Native.Char.{code}
use Prim.Native.String.compare
use Prim.Native.String.{String, then, compare}
use text.Mathlib.Text.{is_lt}
use mathlib.Core.Path.{◌≡◌, ap, sym, ◌∙◌}
use mathlib.Core.Logic.{◌≢◌}
use mathlib.Core.Bool.{true, false}
use native.Mathlib.Omega.{arith}

true_is_not-false : true ≢ false
true_is_not-false e = absurd (cc)

then_asym :
    (a b : ℕ) (p q : Ordering)
    → (is_lt p ≡ true → is_lt q ≡ false)
    → is_lt (then (compare_ℕ a b) p) ≡ true
    → is_lt (then (compare_ℕ b a) q) ≡ false
then_asym a b p q rest h = grind arith

-- The first characters decide, and where they are the same, what comes after them.
then_trans :
    (a b c : ℕ) (p q r : Ordering)
    → (is_lt p ≡ false → is_lt q ≡ false → is_lt r ≡ false)
    → is_lt (then (compare_ℕ b a) p) ≡ false
    → is_lt (then (compare_ℕ c b) q) ≡ false
    → is_lt (then (compare_ℕ c a) r) ≡ false
then_trans a b c p q r rest h k = grind arith

pub is_lt_asym : (s t : String) → is_lt (compare s t) ≡ true → is_lt (compare t s) ≡ false
is_lt_asym String.[] String.[] h = ap is_lt compare.nil-nil
is_lt_asym String.[] (String.◌∷◌ d t) h = ap is_lt (compare.cons-nil d t)
is_lt_asym (String.◌∷◌ c s) String.[] h =
    absurd (true_is_not-false (sym h ∙ ap is_lt (compare.cons-nil c s)))
is_lt_asym (String.◌∷◌ c s) (String.◌∷◌ d t) h =
    ap is_lt (compare.cons-cons d c t s)
    ∙ then_asym (code c) (code d) (compare s t) (compare t s) (is_lt_asym s t)
        (sym (ap is_lt (compare.cons-cons c d s t)) ∙ h)

-- No text is before another that is not before a third, but before the third.
pub is_lt_trans :
    (s t u : String)
    → is_lt (compare t s) ≡ false
    → is_lt (compare u t) ≡ false
    → is_lt (compare u s) ≡ false
is_lt_trans String.[] String.[] u h k = k
is_lt_trans String.[] (String.◌∷◌ d t) String.[] h k = ap is_lt compare.nil-nil
is_lt_trans String.[] (String.◌∷◌ d t) (String.◌∷◌ e u) h k = ap is_lt (compare.cons-nil e u)
is_lt_trans (String.◌∷◌ c s) String.[] u h k =
    absurd (true_is_not-false (sym (ap is_lt (compare.nil-cons c s)) ∙ h))
is_lt_trans (String.◌∷◌ c s) (String.◌∷◌ d t) String.[] h k =
    absurd (true_is_not-false (sym (ap is_lt (compare.nil-cons d t)) ∙ k))
is_lt_trans (String.◌∷◌ c s) (String.◌∷◌ d t) (String.◌∷◌ e u) h k =
    ap is_lt (compare.cons-cons e c u s)
    ∙ then_trans (code c) (code d) (code e) (compare t s) (compare u t) (compare u s)
        (is_lt_trans s t u) (sym (ap is_lt (compare.cons-cons d c t s)) ∙ h)
        (sym (ap is_lt (compare.cons-cons e d u t)) ∙ k)
