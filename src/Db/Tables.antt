-- ===== src/Db/Tables.antt =====
-- The tables that `DbUtils::new` creates, and the failures of calls.
use nymstr.Prelude.{
  ℕ, String, Bool, false, List, [], ◌∷◌, Option, ltb, if◌then◌else◌, ◌≡◌, refl, ◌⊎◌, inl, inr,
}

pub record User : Type 0 where
  pub username : String
  pub public_key : String
  pub sender_tag : String

-- `created_at` is the unix time whose RFC 3339 text the source stores.
pub record Group : Type 0 where
  pub group_id : String
  pub name : String
  pub nym_address : String
  pub public_key : String
  pub description : Option String
  pub is_public : Bool
  pub created_at : ℕ

pub record PendingMessage : Type 0 where
  pub id : String
  pub recipient : String
  pub sender : String
  pub payload : String
  pub action : String
  pub created_at : ℕ
  pub expires_at : ℕ

pub record KeyPackage : Type 0 where
  pub id : ℕ
  pub username : String
  pub key_package_b64 : String
  pub pgp_signature : String
  pub pgp_fingerprint : String
  pub created_at : ℕ
  pub expires_at : ℕ

pub record Db : Type 0 where
  pub users : List User
  pub groups : List Group
  pub pending_messages : List PendingMessage
  pub key_packages : List KeyPackage
  -- The next value of AUTOINCREMENT.
  pub next_id : ℕ
  pub faults : List Bool

pub data Result {ℓ} (A : Type ℓ) : Type ℓ where
  ok : A → Result A
  err : Result A

pub Result-cases {ℓ} : {A : Type ℓ} (r : Result A) → (r ≡ err) ⊎ ((a : A) × (r ≡ ok a))
Result-cases (ok a) = inr (a, refl)
Result-cases err = inl refl

-- Whether the next call fails.
unfoldable pub fails : List Bool → Bool
fails [] = false
fails (b ∷ l) = b

unfoldable pub rest : List Bool → List Bool
rest [] = []
rest (b ∷ l) = l

-- What a call that reads answers.
unfoldable pub answer {ℓ} : {A : Type ℓ} → Db → A → Result A
unfolding fails
answer db a = if fails db.faults then err else ok a

-- The database after a call that reads.
abbrev pub called : Db → Db
called db = record db { faults = rest db.faults }

-- `unwrap_or`, `ok().flatten()`.
abbrev pub ok_or {ℓ} : {A : Type ℓ} → Result A → A → A
ok_or (ok a) d = a
ok_or err d = d

module _ {ℓ} {A : Type ℓ} (time : A → ℕ) where
  unfoldable pub by_time : A → List A → List A
  by_time x [] = x ∷ []
  by_time x (y ∷ ys) = if ltb (time y) (time x) then y ∷ by_time x ys else x ∷ y ∷ ys

  -- ORDER BY time ASC; equal times stay in the order of the rows.
  unfoldable pub order_by : List A → List A
  unfolding by_time
  order_by [] = []
  order_by (x ∷ xs) = by_time x (order_by xs)
