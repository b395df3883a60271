-- ===== src/Db/KeyPackages.antt =====
-- nymstr-server/src/db_utils.rs: the published key packages.
pub mod Holdback
use nymstr.Prelude.{
  ℕ, ◌+◌, String, Bool, not, List, [], ◌∷◌, ◌++◌, Option, none, some, keep, length, ◌==◌, ◌&&◌, ltb,
  leb, if◌then◌else◌, nat_eq, string_eq,
}
use nymstr.Db.Tables.{Db, KeyPackage, Result, ok, err, answer, fails, rest, called, order_by}

abbrev pub is_live : ℕ → String → KeyPackage → Bool
is_live now username k = k.username == username && ltb now k.expires_at

-- The unexpired packages of a user.
unfoldable pub live_packages : ℕ → String → List KeyPackage → List KeyPackage
unfolding keep
live_packages now username = keep (is_live now username)

-- A row lives for thirty days.
unfoldable pub stored_packages : ℕ → Db → String → String → String → String → List KeyPackage
unfolding fails
stored_packages now db username key_package_b64 pgp_signature pgp_fingerprint =
    if fails db.faults
    then db.key_packages
    else db.key_packages
      ++ record {
        id = db.next_id;
        username = username;
        key_package_b64 = key_package_b64;
        pgp_signature = pgp_signature;
        pgp_fingerprint = pgp_fingerprint;
        created_at = now;
        expires_at = now + 2592000;
      }
        ∷ []

unfoldable pub store_key_package : Db → Result (Unit {0})
unfolding answer
store_key_package db = answer db tt

abbrev pub after_store_key_package : ℕ → Db → String → String → String → String → Db
after_store_key_package now db username key_package_b64 pgp_signature pgp_fingerprint = record db {
  key_packages = stored_packages now db username key_package_b64 pgp_signature pgp_fingerprint;
  next_id = if fails db.faults then db.next_id else db.next_id + 1;
  faults = rest db.faults;
}

unfoldable pub count_key_packages : ℕ → Db → String → Result ℕ
unfolding answer live_packages
count_key_packages now db username = answer db (length (live_packages now username db.key_packages))

-- LIMIT 1.
abbrev head {ℓ} : {A : Type ℓ} → List A → Option A
head [] = none
head (x ∷ xs) = some x

unfoldable pub oldest_package : ℕ → String → List KeyPackage → Option KeyPackage
unfolding live_packages order_by
oldest_package now username ks = head (order_by (λ k. k.created_at) (live_packages now username ks))

unfoldable pub delete_package : ℕ → List KeyPackage → List KeyPackage
unfolding keep
delete_package id = keep λ k. not (k.id == id)

-- The DELETE of the row that was read.
unfoldable pub take_package : Db → KeyPackage → Result (Option KeyPackage) × Db
unfolding fails delete_package
take_package db k = if fails db.faults then (err, called db) else (
  ok (some k),
  record db { key_packages = delete_package k.id db.key_packages; faults = rest db.faults },
)

-- The SELECT of the oldest row, after the count.
unfoldable pub read_package : ℕ → Db → String → Result (Option KeyPackage) × Db
unfolding answer oldest_package take_package
read_package now db username = elim (answer db (oldest_package now username db.key_packages)) [
  | err ↦ (err, called db)
  | ok none ↦ (ok none, called db)
  | ok (some k) ↦ take_package (called db) k
]

-- Consume one package, but never the last.
unfoldable pub consume_key_package : ℕ → Db → String → Result (Option KeyPackage) × Db
unfolding count_key_packages read_package
consume_key_package now db username = elim (count_key_packages now db username) [
  | err ↦ (err, called db)
  | ok count ↦ if leb count 1 then (ok none, called db) else read_package now (called db) username
]

unfoldable pub cleanup_expired_key_packages : ℕ → Db → List KeyPackage
unfolding fails keep
cleanup_expired_key_packages now db =
    if fails db.faults
    then db.key_packages
    else keep (λ k. not (ltb k.expires_at now)) db.key_packages
