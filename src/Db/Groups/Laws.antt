-- ===== src/Db/Groups/Laws.antt =====
-- The groups table: a group keeps its key, and private groups stay hidden.
use nymstr.Prelude.{
  String, false, List, [], ◌∷◌, ◌++◌, none, some, ◌==◌, ◌≡◌, ◌∙◌, ◌⊎◌, arith, string_eq,
  if◌then◌else◌,
}
use nymstr.Db.Tables.{Db, Group, ok_or}
use nymstr.Db.Groups.{find_group, set_address, groups_with, groups_moved, query_by_identifier}

-- The group is registered with the key.
abbrev pub GroupKeyOf : List Group → String → String → Type 0
GroupKeyOf gs id key = (g : Group) × (find_group id gs ≡ some g) × (g.public_key ≡ key)

find_group-append :
    (id : String) (gs : List Group) (g x : Group)
    → find_group id gs ≡ some g
    → find_group id (gs ++ x ∷ []) ≡ some g
unfolding find_group
find_group-append id [] g x h = ground arith
find_group-append id (y ∷ gs) g x h = ground (arith, find_group-append id gs g x)

-- The group with the address, if it is the one meant.
abbrev moved_to : String → String → Group → Group
moved_to at to g = if g.group_id == at then record g { nym_address = to } else g

moved_to_lem :
    (at to : String) (g : Group)
    → ((moved_to at to g).group_id ≡ g.group_id) × ((moved_to at to g).public_key ≡ g.public_key)
moved_to_lem at to g = ground arith

find_group-set_address :
    (id at to : String) (gs : List Group) (g : Group)
    → find_group id gs ≡ some g
    → find_group id (set_address at to gs) ≡ some (moved_to at to g)
unfolding find_group set_address
find_group-set_address id at to [] g h = ground arith
find_group-set_address id at to (y ∷ gs) g h =
    ground (arith, moved_to_lem at to y, find_group-set_address id at to gs g)

pub GroupKeyOf-append :
    (gs : List Group) (x : Group) (id key : String)
    → GroupKeyOf gs id key
    → GroupKeyOf (gs ++ x ∷ []) id key
GroupKeyOf-append gs x id key (g, found, e) = (g, find_group-append id gs g x found, e)

pub GroupKeyOf-set_address :
    (gs : List Group) (at to id key : String)
    → GroupKeyOf gs id key
    → GroupKeyOf (set_address at to gs) id key
GroupKeyOf-set_address gs at to id key (g, found, e) =
    (moved_to at to g, find_group-set_address id at to gs g found, (moved_to_lem at to g).1 ∙ e)

pub groups_with_cases :
    (db : Db) (g : Group)
    → (groups_with db g ≡ db.groups) ⊎ (groups_with db g ≡ db.groups ++ g ∷ [])
unfolding groups_with
groups_with_cases db g = ground arith

pub groups_moved_cases :
    (db : Db) (id to : String)
    → (groups_moved db id to ≡ db.groups) ⊎ (groups_moved db id to ≡ set_address id to db.groups)
unfolding groups_moved
groups_moved_cases db id to = ground arith

-- A private group is as good as absent to the unified query.
pub query_hides_private :
    (db : Db) (id : String) (g : Group)
    → find_group id db.groups ≡ some g
    → g.is_public ≡ false
    → ok_or (query_by_identifier db id) none
      ≡ ok_or (query_by_identifier (record db { groups = [] }) id) none
unfolding query_by_identifier find_group
query_hides_private db id g found hidden = ground arith
