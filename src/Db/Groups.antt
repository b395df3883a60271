-- ===== src/Db/Groups.antt =====
-- nymstr-server/src/db_utils.rs: the groups table and the unified query.
pub mod Laws
use nymstr.Prelude.{
  ℕ, String, Bool, true, false, List, [], ◌∷◌, ◌++◌, Option, none, some, first, keep, ◌==◌, ◌||◌,
  if◌then◌else◌, string_eq,
}
use mathlib.Core.List.{reverse}
use nymstr.Db.Tables.{Db, User, Group, Result, ok, err, answer, fails, rest, called, order_by}
use nymstr.Db.Users.{get_user_by_username}

unfoldable pub find_group : String → List Group → Option Group
unfolding first
find_group group_id = first λ g. g.group_id == group_id

unfoldable pub get_group_by_id : Db → String → Result (Option Group)
unfolding answer find_group
get_group_by_id db group_id = answer db (find_group group_id db.groups)

abbrev is_some {ℓ} : {A : Type ℓ} → Option A → Bool
is_some none = false
is_some (some a) = true

unfoldable pub add_group : Db → Group → Result Bool
unfolding fails find_group
add_group db g =
    if fails db.faults || is_some (find_group g.group_id db.groups) then err else ok true

unfoldable pub groups_with : Db → Group → List Group
unfolding fails find_group
groups_with db g =
    if fails db.faults || is_some (find_group g.group_id db.groups)
    then db.groups
    else db.groups ++ g ∷ []

unfoldable pub set_address : String → String → List Group → List Group
set_address group_id nym_address [] = []
set_address group_id nym_address (g ∷ gs) =
    (if g.group_id == group_id then record g { nym_address = nym_address } else g)
    ∷ set_address group_id nym_address gs

unfoldable pub update_group_address : Db → String → String → Result Bool
unfolding fails find_group
update_group_address db group_id nym_address =
    if fails db.faults then err else ok (is_some (find_group group_id db.groups))

unfoldable pub groups_moved : Db → String → String → List Group
unfolding fails set_address
groups_moved db group_id nym_address =
    if fails db.faults then db.groups else set_address group_id nym_address db.groups

-- ORDER BY createdAt DESC.
unfoldable pub get_public_groups : Db → Result (List Group)
unfolding answer keep order_by
get_public_groups db =
    answer db (reverse (order_by (λ g. g.created_at) (keep (λ g. g.is_public) db.groups)))

pub data QueryResult : Type 0 where
  user : User → QueryResult
  group : Group → QueryResult

-- The answer that the group lookup of `query_by_identifier` gives.
unfoldable pub query_group : Db → String → Result (Option QueryResult)
unfolding get_group_by_id
query_group db identifier = elim (get_group_by_id db identifier) [
  | err ↦ err
  | ok none ↦ ok none
  | ok (some g) ↦ if g.is_public then ok (some (group g)) else ok none
]

unfoldable pub query_by_identifier : Db → String → Result (Option QueryResult)
unfolding get_user_by_username query_group
query_by_identifier db identifier = elim (get_user_by_username db identifier) [
  | err ↦ err
  | ok (some u) ↦ ok (some (user u))
  | ok none ↦ query_group (called db) identifier
]

-- The second lookup is made only if the first finds nothing.
unfoldable pub faults_after_query : Db → String → List Bool
unfolding get_user_by_username
faults_after_query db identifier = elim (get_user_by_username db identifier) [
  | err ↦ rest db.faults
  | ok (some u) ↦ rest db.faults
  | ok none ↦ rest (rest db.faults)
]
