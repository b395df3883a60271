-- ===== src/Db/Users/Laws.antt =====
-- The users table: names are a key, and a registered key stays.
use nymstr.Prelude.{
  String, List, [], ◌∷◌, ◌++◌, none, some, ==_iff, ◌≡◌, ◌≢◌, refl, ◌⊎◌, inl, inr, arith, string_eq,
}
use nymstr.Db.Tables.{Db, User, ok}
use nymstr.Db.Users.{get_user_by_username, find_user, sender_tag, set_column, users_set, users_with}

-- `name` is registered with `key`.
abbrev pub KeyOf : List User → String → String → Type 0
KeyOf us name key = (u : User) × (find_user name us ≡ some u) × (u.public_key ≡ key)

-- No name stands twice.
abbrev pub Distinct : List User → Type 0
Distinct [] = Unit {0}
Distinct (u ∷ us) = (find_user u.username us ≡ none) × Distinct us

pub find_user-append :
    (name : String) (us : List User) (u v : User)
    → find_user name us ≡ some u
    → find_user name (us ++ v ∷ []) ≡ some u
unfolding find_user
find_user-append name [] u v h = ground arith
find_user-append name (x ∷ us) u v h = ground (arith, find_user-append name us u v)

pub find_user-append_ne :
    (name : String) (us : List User) (v : User)
    → find_user name us ≡ none
    → v.username ≢ name
    → find_user name (us ++ v ∷ []) ≡ none
unfolding find_user
find_user-append_ne name [] v h d = ground (arith, ==_iff v.username name)
find_user-append_ne name (x ∷ us) v h d = ground (arith, find_user-append_ne name us v)

pub find_user-append_self :
    (us : List User) (v : User)
    → find_user v.username us ≡ none
    → find_user v.username (us ++ v ∷ []) ≡ some v
unfolding find_user
find_user-append_self [] v h = ground (arith, ==_iff v.username v.username)
find_user-append_self (x ∷ us) v h = ground (arith, find_user-append_self us v)

-- The tag of a user is all that changes.
pub find_user-set_column :
    (name m value : String) (us : List User)
    → ((find_user name us ≡ none) × (find_user name (set_column sender_tag m value us) ≡ none))
      ⊎ ((u u' : User) × (find_user name us ≡ some u)
          × (find_user name (set_column sender_tag m value us) ≡ some u')
          × (u'.public_key ≡ u.public_key)
          × (u'.username ≡ u.username))
unfolding find_user set_column
find_user-set_column name m value [] = inl (refl, refl)
find_user-set_column name m value (x ∷ us) = ground (arith, find_user-set_column name m value us)

pub find_user-set_column_self :
    (name value : String) (us : List User) (u : User)
    → find_user name us ≡ some u
    → find_user name (set_column sender_tag name value us) ≡ some (record u { sender_tag = value })
unfolding find_user set_column
find_user-set_column_self name value [] u h = ground arith
find_user-set_column_self name value (x ∷ us) u h =
    ground (arith, find_user-set_column_self name value us u)

pub KeyOf-append :
    (us : List User) (v : User) (name key : String)
    → KeyOf us name key
    → KeyOf (us ++ v ∷ []) name key
KeyOf-append us v name key (u, found, e) = (u, find_user-append name us u v found, e)

pub KeyOf-set_column :
    (us : List User) (m value name key : String)
    → KeyOf us name key
    → KeyOf (set_column sender_tag m value us) name key
KeyOf-set_column us m value name key (u, found, e) = elim (find_user-set_column name m value us) [
  | inl (missing, _) ↦ absurd (ground arith)
  | inr (x, x', hx, hx', k, _) ↦ (x', hx', ground arith)
]

none-set_column :
    (us : List User) (m value name : String)
    → find_user name us ≡ none
    → find_user name (set_column sender_tag m value us) ≡ none
none-set_column us m value name h = ground (arith, find_user-set_column name m value us)

pub Distinct-append :
    (us : List User) (v : User)
    → find_user v.username us ≡ none
    → Distinct us
    → Distinct (us ++ v ∷ [])
unfolding find_user
Distinct-append [] v h d = ground arith
Distinct-append (x ∷ us) v h d = (
  find_user-append_ne x.username us v d.0 (λ e. ground (arith, ==_iff x.username v.username)),
  Distinct-append us v (ground arith) d.1,
)

pub Distinct-set_column :
    (us : List User) (m value : String) → Distinct us → Distinct (set_column sender_tag m value us)
unfolding set_column
Distinct-set_column [] m value d = tt
Distinct-set_column (x ∷ us) m value d =
    ground (arith, none-set_column us m value x.username, Distinct-set_column us m value d.1)

pub users_with_cases :
    (db : Db) (name key tag : String)
    → (users_with db name key tag ≡ db.users)
      ⊎ ((find_user name db.users ≡ none)
          × (users_with db name key tag
              ≡ db.users ++ record { username = name; public_key = key; sender_tag = tag } ∷ []))
unfolding users_with find_user
users_with_cases db name key tag = ground arith

pub users_set_cases :
    (db : Db) (name value : String)
    → (users_set db name "senderTag" value ≡ db.users)
      ⊎ (users_set db name "senderTag" value ≡ set_column sender_tag name value db.users)
unfolding users_set
users_set_cases db name value = ground arith

pub get_user_by_username-ok :
    (db : Db) (name : String) (u : User)
    → get_user_by_username db name ≡ ok (some u)
    → find_user name db.users ≡ some u
unfolding get_user_by_username
get_user_by_username-ok db name u h = ground arith
