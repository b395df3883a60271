-- ===== src/Db/KeyPackages/Holdback.antt =====
-- Consuming a key package: never the last one, always the oldest, and nobody else's.
use nymstr.Prelude.{
  ◌∙◌, ℕ, ◌+◌, ◌≤◌, ◌<◌, String, true, List, [], ◌∷◌, none, some, length, ◌==◌, ==_iff, ltb, ◌≡◌,
  ◌≢◌, refl, ◌⊎◌, inl, inr, arith, nat_eq, string_eq, Bool-cases, Option-cases, All, All-mono, ap,
  sym, subst,
}
use native.Mathlib.Nat.{le_trans}
use nymstr.Db.Tables.{Result-cases, Db, KeyPackage, ok, err, answer, order_by, by_time}
use nymstr.Db.KeyPackages.{
  is_live, live_packages, oldest_package, delete_package, take_package, read_package,
  consume_key_package, count_key_packages, head,
}

-- The row ids are distinct.
abbrev pub HasDistinctIds : List KeyPackage → Type 0
HasDistinctIds [] = Unit {0}
HasDistinctIds (k ∷ ks) = All (λ j. j.id ≢ k.id) ks × HasDistinctIds ks

-- With distinct ids at most one row goes.
delete_absent :
    (id : ℕ) (ks : List KeyPackage) → All (λ j. j.id ≢ id) ks → delete_package id ks ≡ ks
unfolding delete_package
delete_absent id [] h = refl
delete_absent id (k ∷ ks) h = ground (arith, delete_absent id ks h.1)

delete_tail :
    (id : ℕ) (k : KeyPackage) (ks : List KeyPackage)
    → All (λ j. j.id ≢ k.id) ks
    → (k.id == id) ≡ true
    → delete_package id ks ≡ ks
delete_tail id k ks h e =
    delete_absent id ks (subst (λ i. All (λ j. j.id ≢ i) ks) ((==_iff k.id id).0 e) h)

-- A row more makes at most one live package more.
live_cons :
    (now : ℕ) (user : String) (k : KeyPackage) (ks : List KeyPackage)
    → length (live_packages now user (k ∷ ks)) ≤ length (live_packages now user ks) + 1
unfolding live_packages
live_cons now user k ks = ground arith

live_step :
    (now : ℕ) (user : String) (k : KeyPackage) (ks ls : List KeyPackage)
    → length (live_packages now user ks) ≤ length (live_packages now user ls) + 1
    → length (live_packages now user (k ∷ ks)) ≤ length (live_packages now user (k ∷ ls)) + 1
unfolding live_packages
live_step now user k ks ls h = ground arith

length-live-delete :
    (now id : ℕ) (user : String) (ks : List KeyPackage)
    → HasDistinctIds ks
    → length (live_packages now user ks)
      ≤ length (live_packages now user (delete_package id ks)) + 1
unfolding live_packages delete_package
length-live-delete now id user [] h = omega arith
length-live-delete now id user (k ∷ ks) h = elim (Bool-cases (k.id == id)) [
  | inl e ↦ rw e (
      subst (λ l. length (live_packages now user (k ∷ ks)) ≤ length (live_packages now user l) + 1)
        (sym (delete_tail id k ks h.0 e)) (live_cons now user k ks))
  | inr e ↦
      rw e (live_step now user k ks (delete_package id ks) (length-live-delete now id user ks h.1))
]

-- What a consumed package was: one of the user's live ones, and none of them older.
All-by_time :
    (P : KeyPackage → Type 0) (k : KeyPackage) (ks : List KeyPackage)
    → P k
    → All P ks
    → All P (by_time (λ x. x.created_at) k ks)
unfolding by_time
All-by_time P k [] h hs = (h, tt)
All-by_time P k (x ∷ ks) h hs = elim (Bool-cases (ltb x.created_at k.created_at)) [
  | inl e ↦ rw e (hs.0, All-by_time P k ks h hs.1)
  | inr e ↦ rw e (h, hs)
]

All-order :
    (P : KeyPackage → Type 0) (ks : List KeyPackage)
    → All P ks
    → All P (order_by (λ x. x.created_at) ks)
unfolding order_by
All-order P [] h = h
All-order P (k ∷ ks) h = All-by_time P k _ h.0 (All-order P ks h.1)

-- An insertion keeps the first entry least.
by_time-least :
    (k : KeyPackage) (ks : List KeyPackage) (x : KeyPackage)
    → head (by_time (λ y. y.created_at) k ks) ≡ some x
    → x.created_at ≤ k.created_at
unfolding by_time
by_time-least k [] x h = ground arith
by_time-least k (y ∷ ks) x h = ground arith

by_time-below :
    (k : KeyPackage) (ks : List KeyPackage) (x y : KeyPackage)
    → head (by_time (λ z. z.created_at) k ks) ≡ some x
    → head ks ≡ some y
    → x.created_at ≤ y.created_at
unfolding by_time
by_time-below k [] x y h g = absurd (cc)
by_time-below k (z ∷ ks) x y h g = ground arith

by_time-some :
    (k : KeyPackage) (ks : List KeyPackage)
    → (x : KeyPackage) × (head (by_time (λ z. z.created_at) k ks) ≡ some x)
unfolding by_time
by_time-some k [] = (k, refl)
by_time-some k (z ∷ ks) = elim (Bool-cases (ltb z.created_at k.created_at)) [
  | inl e ↦ (z, rw e refl)
  | inr e ↦ (k, rw e refl)
]

-- The first of the ordered rows is no younger than any.
order_least :
    (ks : List KeyPackage) (x : KeyPackage)
    → head (order_by (λ z. z.created_at) ks) ≡ some x
    → All (λ k. x.created_at ≤ k.created_at) ks
unfolding order_by
order_least [] x h = tt
order_least (k ∷ []) x h = (by_time-least k [] x h, tt)
order_least (k ∷ j ∷ ks) x h =
    let (y, g) = by_time-some j (order_by (λ z. z.created_at) ks) in
    (
      by_time-least k _ x h,
      All-mono _ _ (λ z le. le_trans (by_time-below k _ x y h g) le) (j ∷ ks)
          (order_least (j ∷ ks) y g),
    )

pub consume_some :
    (now : ℕ) (db : Db) (user : String) (k : KeyPackage)
    → (consume_key_package now db user).0 ≡ ok (some k)
    → (oldest_package now user db.key_packages ≡ some k)
      × ((consume_key_package now db user).1.key_packages ≡ delete_package k.id db.key_packages)
      × (1 < length (live_packages now user db.key_packages))
unfolding consume_key_package count_key_packages read_package take_package answer
consume_some now db user k h = ground arith

pub consume_other :
    (now : ℕ) (db : Db) (user : String)
    → (consume_key_package now db user).0 ≡ ok none ⊎ (consume_key_package now db user).0 ≡ err
    → (consume_key_package now db user).1.key_packages ≡ db.key_packages
unfolding consume_key_package count_key_packages read_package take_package answer
consume_other now db user h = ground arith

live-All :
    (now : ℕ) (user : String) (ks : List KeyPackage)
    → All (λ k. is_live now user k ≡ true) (live_packages now user ks)
unfolding live_packages
live-All now user [] = tt
live-All now user (k ∷ ks) = elim (Bool-cases (is_live now user k)) [
  | inl e ↦ rw e (e, live-All now user ks)
  | inr e ↦ rw e (live-All now user ks)
]

head-All :
    (P : KeyPackage → Type 0) (ks : List KeyPackage) (k : KeyPackage)
    → All P ks
    → head ks ≡ some k
    → P k
head-All P [] k h e = absurd (cc)
head-All P (x ∷ ks) k h e = subst P (ground arith) h.0

handed_out :
    (now : ℕ) (db : Db) (user : String) (k : KeyPackage)
    → HasDistinctIds db.key_packages
    → (consume_key_package now db user).0 ≡ ok (some k)
    → (is_live now user k ≡ true)
      × All (λ j. k.created_at ≤ j.created_at) (live_packages now user db.key_packages)
      × ((consume_key_package now db user).1.key_packages ≡ delete_package k.id db.key_packages)
      × (1 ≤ length (live_packages now user (consume_key_package now db user).1.key_packages))
unfolding oldest_package
handed_out now db user k fresh h =
    let (oldest, gone, many) = consume_some now db user k h in
    let ks = live_packages now user db.key_packages in
    (
      head-All (λ j. is_live now user j ≡ true) _ k
          (All-order (λ j. is_live now user j ≡ true) ks (live-All now user db.key_packages))
          oldest,
      order_least ks k oldest,
      gone,
      rw gone (omega (arith, length-live-delete now k.id user db.key_packages fresh)),
    )

-- Consuming hands out a live package of the user, none of whose live packages is older, and
-- takes it from the table by its id, which leaves the user at least one; or it hands out none, by
-- an error or not, and the table stays as it is. Row ids are distinct.
pub consume_key_package-holdback :
    (now : ℕ) (db : Db) (user : String)
    → HasDistinctIds db.key_packages
    → ((k : KeyPackage) × ((consume_key_package now db user).0 ≡ ok (some k))
        × (is_live now user k ≡ true)
        × All (λ j. k.created_at ≤ j.created_at) (live_packages now user db.key_packages)
        × ((consume_key_package now db user).1.key_packages ≡ delete_package k.id db.key_packages)
        × (1 ≤ length (live_packages now user (consume_key_package now db user).1.key_packages)))
      ⊎ (((consume_key_package now db user).0 ≡ ok none ⊎ (consume_key_package now db user).0 ≡ err)
          × ((consume_key_package now db user).1.key_packages ≡ db.key_packages))
consume_key_package-holdback now db user fresh =
    elim (Result-cases (consume_key_package now db user).0) [
      | inl e ↦ inr (inr e, consume_other now db user (inr e))
      | inr (r, e) ↦ elim (Option-cases r) [
        | inl n ↦ let none' = e ∙ ap ok n in inr (inl none', consume_other now db user (inl none'))
        | inr (k, n) ↦
            let (live, oldest, gone, left) = handed_out now db user k fresh (e ∙ ap ok n) in
            inl (k, e ∙ ap ok n, live, oldest, gone, left)
      ]
    ]
