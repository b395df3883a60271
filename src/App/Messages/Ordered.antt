-- ===== src/App/Messages/Ordered.antt =====
-- The orders of the queries: sorted by the text of the time, with the same rows.
use mathlib.Core.List.{Perm, perm_append_singleton}
use mathlib.Core.List.Perm
use Prim.Native.String.{compare}
use text.Mathlib.Text.{is_lt}
use nymstr.Prelude.{
  ℕ, zero, suc, String, false, List, [], ◌∷◌, ◌++◌, map, take, drop, ◌≡◌, inl, inr, Bool-cases, ap,
  ◌≤◌, ◌⊎◌, length, length-append, refl, arith, All, All-append, All-mono,
}
use nymstr.Prelude.Texts.{is_lt_asym, is_lt_trans}
use nymstr.App.Messages.{
  MessageDto, StoredMessage, message_of, by_timestamp, order_timestamp, by_timestamp_desc,
  order_timestamp_desc, reverse,
}

-- The second time is no earlier than the first, as texts.
abbrev pub IsNoEarlier : String → String → Type 0
IsNoEarlier s t = is_lt (compare t s) ≡ false

-- Each stands in the relation to all that come after it.
abbrev pub Ordered {ℓ} : {A : Type ℓ} → (A → A → Type 0) → List A → Type 0
Ordered R [] = Unit {0}
Ordered R (x ∷ xs) = All (R x) xs × Ordered R xs

abbrev Ascending : StoredMessage → StoredMessage → Type 0
Ascending x y = IsNoEarlier x.timestamp y.timestamp

abbrev Descending : StoredMessage → StoredMessage → Type 0
Descending x y = IsNoEarlier y.timestamp x.timestamp

pub by_timestamp-Perm :
    (m : StoredMessage) (l : List StoredMessage) → Perm (by_timestamp m l) (m ∷ l)
unfolding by_timestamp
by_timestamp-Perm m [] = Perm.rfl
by_timestamp-Perm m (x ∷ l) = elim (Bool-cases (is_lt (compare x.timestamp m.timestamp))) [
  | inl e ↦ rw e (Perm.trans (Perm.cons x (by_timestamp-Perm m l)) (Perm.swap m x l))
  | inr e ↦ rw e Perm.rfl
]

pub order_timestamp-Perm : (l : List StoredMessage) → Perm (order_timestamp l) l
unfolding order_timestamp
order_timestamp-Perm [] = Perm.rfl
order_timestamp-Perm (m ∷ l) =
    Perm.trans (by_timestamp-Perm m (order_timestamp l)) (Perm.cons m (order_timestamp-Perm l))

by_timestamp_desc-Perm :
    (m : StoredMessage) (l : List StoredMessage) → Perm (by_timestamp_desc m l) (m ∷ l)
unfolding by_timestamp_desc
by_timestamp_desc-Perm m [] = Perm.rfl
by_timestamp_desc-Perm m (x ∷ l) = elim (Bool-cases (is_lt (compare m.timestamp x.timestamp))) [
  | inl e ↦ rw e (Perm.trans (Perm.cons x (by_timestamp_desc-Perm m l)) (Perm.swap m x l))
  | inr e ↦ rw e Perm.rfl
]

pub order_timestamp_desc-Perm : (l : List StoredMessage) → Perm (order_timestamp_desc l) l
unfolding order_timestamp_desc
order_timestamp_desc-Perm [] = Perm.rfl
order_timestamp_desc-Perm (m ∷ l) =
    Perm.trans (by_timestamp_desc-Perm m (order_timestamp_desc l))
      (Perm.cons m (order_timestamp_desc-Perm l))

module _ (P : StoredMessage → Type 0) where
  All-by_timestamp :
      (m : StoredMessage) (l : List StoredMessage) → P m → All P l → All P (by_timestamp m l)
  unfolding by_timestamp
  All-by_timestamp m [] p h = (p, tt)
  All-by_timestamp m (x ∷ l) p h = elim (Bool-cases (is_lt (compare x.timestamp m.timestamp))) [
    | inl e ↦ rw e (h.0, All-by_timestamp m l p h.1)
    | inr e ↦ rw e (p, h)
  ]

  All-by_timestamp_desc :
      (m : StoredMessage) (l : List StoredMessage) → P m → All P l → All P (by_timestamp_desc m l)
  unfolding by_timestamp_desc
  All-by_timestamp_desc m [] p h = (p, tt)
  All-by_timestamp_desc m (x ∷ l) p h =
      elim (Bool-cases (is_lt (compare m.timestamp x.timestamp))) [
        | inl e ↦ rw e (h.0, All-by_timestamp_desc m l p h.1)
        | inr e ↦ rw e (p, h)
      ]

  pub All-reverse : (l : List StoredMessage) → All P l → All P (reverse l)
  unfolding reverse
  All-reverse [] h = h
  All-reverse (x ∷ l) h = All-append P (reverse l) (x ∷ []) (All-reverse l h.1) (h.0, tt)

  All-take : (n : ℕ) (l : List StoredMessage) → All P l → All P (take n l)
  All-take zero l h = tt
  All-take (suc n) [] h = h
  All-take (suc n) (x ∷ l) h = (h.0, All-take n l h.1)

  All-drop : (n : ℕ) (l : List StoredMessage) → All P l → All P (drop n l)
  All-drop zero l h = h
  All-drop (suc n) [] h = h
  All-drop (suc n) (x ∷ l) h = All-drop n l h.1

by_timestamp-Ordered :
    (m : StoredMessage) (l : List StoredMessage)
    → Ordered Ascending l
    → Ordered Ascending (by_timestamp m l)
unfolding by_timestamp
by_timestamp-Ordered m [] h = (tt, tt)
by_timestamp-Ordered m (x ∷ l) h = elim (Bool-cases (is_lt (compare x.timestamp m.timestamp))) [
  | inl e ↦ rw e (
    All-by_timestamp (Ascending x) m l (is_lt_asym x.timestamp m.timestamp e) h.0,
    by_timestamp-Ordered m l h.1,
  )
  | inr e ↦ rw e (
    (
      e,
      All-mono (Ascending x) (Ascending m)
          (λ y k. is_lt_trans m.timestamp x.timestamp y.timestamp e k) l h.0,
    ),
    h,
  )
]

by_timestamp_desc-Ordered :
    (m : StoredMessage) (l : List StoredMessage)
    → Ordered Descending l
    → Ordered Descending (by_timestamp_desc m l)
unfolding by_timestamp_desc
by_timestamp_desc-Ordered m [] h = (tt, tt)
by_timestamp_desc-Ordered m (x ∷ l) h =
    elim (Bool-cases (is_lt (compare m.timestamp x.timestamp))) [
      | inl e ↦ rw e (
        All-by_timestamp_desc (Descending x) m l (is_lt_asym m.timestamp x.timestamp e) h.0,
        by_timestamp_desc-Ordered m l h.1,
      )
      | inr e ↦ rw e (
        (
          e,
          All-mono (Descending x) (Descending m)
              (λ y k. is_lt_trans y.timestamp x.timestamp m.timestamp k e) l h.0,
        ),
        h,
      )
    ]

pub order_timestamp-Ordered : (l : List StoredMessage) → Ordered Ascending (order_timestamp l)
unfolding order_timestamp
order_timestamp-Ordered [] = tt
order_timestamp-Ordered (m ∷ l) =
    by_timestamp-Ordered m (order_timestamp l) (order_timestamp-Ordered l)

pub order_timestamp_desc-Ordered :
    (l : List StoredMessage) → Ordered Descending (order_timestamp_desc l)
unfolding order_timestamp_desc
order_timestamp_desc-Ordered [] = tt
order_timestamp_desc-Ordered (m ∷ l) =
    by_timestamp_desc-Ordered m (order_timestamp_desc l) (order_timestamp_desc-Ordered l)

pub Ordered-append :
    (R : StoredMessage → StoredMessage → Type 0) (xs ys : List StoredMessage)
    → Ordered R xs
    → Ordered R ys
    → All (λ x. All (R x) ys) xs
    → Ordered R (xs ++ ys)
Ordered-append R [] ys h k r = k
Ordered-append R (x ∷ xs) ys h k r =
    (All-append (R x) xs ys h.0 r.0, Ordered-append R xs ys h.1 k r.1)

-- Turned around, a descending list ascends.
pub reverse-Ordered :
    (l : List StoredMessage) → Ordered Descending l → Ordered Ascending (reverse l)
unfolding reverse
reverse-Ordered [] h = tt
reverse-Ordered (x ∷ l) h =
    Ordered-append Ascending (reverse l) (x ∷ []) (reverse-Ordered l h.1) (tt, tt)
      (All-reverse (λ y. All (Ascending y) (x ∷ [])) l
        (All-mono (Descending x) (λ y. All (Ascending y) (x ∷ [])) (λ y k. (k, tt)) l h.0))

pub Ordered-take :
    (R : StoredMessage → StoredMessage → Type 0) (n : ℕ) (l : List StoredMessage)
    → Ordered R l
    → Ordered R (take n l)
Ordered-take R zero l h = tt
Ordered-take R (suc n) [] h = h
Ordered-take R (suc n) (x ∷ l) h = (All-take (R x) n l h.0, Ordered-take R n l h.1)

-- What is taken stands before what is left.
pub take-drop-Ordered :
    (R : StoredMessage → StoredMessage → Type 0) (n : ℕ) (l : List StoredMessage)
    → Ordered R l
    → All (λ x. All (R x) (drop n l)) (take n l)
take-drop-Ordered R zero l h = tt
take-drop-Ordered R (suc n) [] h = h
take-drop-Ordered R (suc n) (x ∷ l) h = (All-drop (R x) n l h.0, take-drop-Ordered R n l h.1)

pub reverse-Perm : (l : List StoredMessage) → Perm (reverse l) l
unfolding reverse
reverse-Perm [] = Perm.rfl
reverse-Perm (x ∷ l) =
    Perm.trans (perm_append_singleton x (reverse l)) (Perm.cons x (reverse-Perm l))

pub length-reverse : (l : List StoredMessage) → length (reverse l) ≡ length l
unfolding reverse
length-reverse [] = refl
length-reverse (x ∷ l) = omega (arith, length-append (reverse l) (x ∷ []), length-reverse l)

-- As many are taken as were asked for, or all.
pub length-take :
    (n : ℕ) (l : List StoredMessage)
    → (length (take n l) ≤ n) × ((length (take n l) ≡ n) ⊎ (drop n l ≡ []))
length-take zero l = (omega arith, inl refl)
length-take (suc n) [] = (omega arith, inr refl)
length-take (suc n) (x ∷ l) =
    let (few, all) = length-take n l in
    (omega arith, elim all [ inl e ↦ inl (ap suc e) | inr e ↦ inr e ])

pub length-message_of : (l : List StoredMessage) → length (map message_of l) ≡ length l
length-message_of [] = refl
length-message_of (x ∷ l) = ap suc (length-message_of l)

pub All-message_of :
    (P : MessageDto → Type 0) (l : List StoredMessage)
    → All (λ x. P (message_of x)) l
    → All P (map message_of l)
All-message_of P [] h = h
All-message_of P (x ∷ l) h = (h.0, All-message_of P l h.1)

pub Ordered-message_of :
    (R : MessageDto → MessageDto → Type 0) (l : List StoredMessage)
    → Ordered (λ x y. R (message_of x) (message_of y)) l
    → Ordered R (map message_of l)
Ordered-message_of R [] h = h
Ordered-message_of R (x ∷ l) h =
    (All-message_of (R (message_of x)) l h.0, Ordered-message_of R l h.1)
