-- ===== src/Db/Users.antt =====
-- nymstr-server/src/db_utils.rs: the users table.
pub mod Laws
use nymstr.Prelude.{
  String, Bool, true, false, List, [], ◌∷◌, ◌++◌, Option, none, some, first, ◌==◌, ◌||◌, ◌&&◌, not,
  if◌then◌else◌, string_eq,
}
use nymstr.Db.Tables.{Db, User, Result, ok, err, answer, fails, rest}

unfoldable pub find_user : String → List User → Option User
unfolding first
find_user username = first λ u. u.username == username

-- `get_user_by_username`; the source's triple is the row.
unfoldable pub get_user_by_username : Db → String → Result (Option User)
unfolding answer find_user
get_user_by_username db username = answer db (find_user username db.users)

abbrev is_some {ℓ} : {A : Type ℓ} → Option A → Bool
is_some none = false
is_some (some a) = true

-- The insertion fails if the name is taken: it is the primary key.
unfoldable pub add_user : Db → String → String → String → Result Bool
unfolding fails find_user
add_user db username public_key sender_tag =
    if fails db.faults || is_some (find_user username db.users) then err else ok true

unfoldable pub users_with : Db → String → String → String → List User
unfolding fails find_user
users_with db username public_key sender_tag =
    if fails db.faults || is_some (find_user username db.users)
    then db.users
    else db.users
      ++ record { username = username; public_key = public_key; sender_tag = sender_tag } ∷ []

abbrev pub after_add_user : Db → String → String → String → Db
after_add_user db username public_key sender_tag = record db {
  users = users_with db username public_key sender_tag;
  faults = rest db.faults;
}

pub data Column : Type 0 where
  public_key sender_tag : Column

unfoldable pub validate_user_update_field : String → Result Column
validate_user_update_field name =
    if name == "publicKey"
    then ok public_key
    else if name == "senderTag"
    then ok sender_tag
    else err

abbrev put : Column → String → User → User
put public_key value u = record u { public_key = value }
put sender_tag value u = record u { sender_tag = value }

unfoldable pub set_column : Column → String → String → List User → List User
set_column column username value [] = []
set_column column username value (u ∷ us) =
    (if u.username == username then put column value u else u) ∷ set_column column username value us

unfoldable pub update_user_field : Db → String → String → String → Result Bool
unfolding validate_user_update_field fails find_user
update_user_field db username name value = elim (validate_user_update_field name) [
  | err ↦ err
  | ok column ↦ if fails db.faults then err else ok (is_some (find_user username db.users))
]

unfoldable pub users_set : Db → String → String → String → List User
unfolding validate_user_update_field fails set_column
users_set db username name value = elim (validate_user_update_field name) [
  | err ↦ db.users
  | ok column ↦ if fails db.faults then db.users else set_column column username value db.users
]

-- A name that is refused makes no call.
unfoldable pub faults_after_update : Db → String → List Bool
unfolding validate_user_update_field
faults_after_update db name = elim (validate_user_update_field name) [
  | err ↦ db.faults
  | ok column ↦ rest db.faults
]

abbrev pub after_update_user_field : Db → String → String → String → Db
after_update_user_field db username name value = record db {
  users = users_set db username name value;
  faults = faults_after_update db name;
}
