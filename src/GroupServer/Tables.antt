-- ===== src/GroupServer/Tables.antt =====
-- nymstr-group/src/db_utils.rs: the tables, and the calls on users, groups and memberships.
-- A call is a function on the tables; what may fail beyond its constraints is put in by `State.call`.
-- The deprecated tables group_epochs and member_epochs are never touched.
pub mod Queues
pub mod Cases
use nymstr.Prelude.{
  ℕ, String, Bool, true, false, not, List, [], ◌∷◌, ◌++◌, Option, none, some, keep, first, map,
  ◌==◌, ◌&&◌, ◌||◌, if◌then◌else◌, string_eq,
}
use nymstr.Prelude.Int.{ℤ}
use nymstr.Db.Tables.{Result, ok, err}

pub record User : Type 0 where
  pub username : String
  pub public_key : String

pub record Group : Type 0 where
  pub group_id : String
  pub group_name : String
  pub admin : String
  pub is_public : Bool
  pub is_discoverable : Bool

-- A row of group_members, and one of group_invites.
pub record Membership : Type 0 where
  pub group_id : String
  pub username : String

pub record Message : Type 0 where
  pub id : ℕ
  pub sender : String
  pub ciphertext : String
  pub timestamp : String

pub record KeyPackage : Type 0 where
  pub username : String
  pub key_package : List ℕ
  pub created_at : String

pub record Welcome : Type 0 where
  pub username : String
  pub group_id : String
  pub welcome : List ℕ
  pub created_at : String

pub record Commit : Type 0 where
  pub id : ℕ
  pub group_id : String
  pub epoch : ℤ
  pub commit_msg : List ℕ
  pub sender : String
  pub created_at : String

pub record MessageHash : Type 0 where
  pub hash : String
  pub created_at : ℕ

pub record Tables : Type 0 where
  pub users : List User
  pub groups : List Group
  pub group_members : List Membership
  pub group_invites : List Membership
  pub pending_users : List User
  pub messages : List Message
  -- The next value of AUTOINCREMENT, also below.
  pub next_message : ℕ
  pub key_packages : List KeyPackage
  pub pending_welcomes : List Welcome
  pub buffered_commits : List Commit
  pub next_commit : ℕ
  pub recent_message_hashes : List MessageHash

-- A call's answer, and the tables after it.
abbrev pub Call : Type 0 → Type 0
Call A = Tables → Result A × Tables

abbrev pub exists {ℓ} : {A : Type ℓ} → Option A → Bool
exists none = false
exists (some a) = true

unfoldable pub find_user : String → List User → Option User
unfolding first
find_user username = first λ u. u.username == username

unfoldable pub find_group : String → List Group → Option Group
unfolding first
find_group group_id = first λ g. g.group_id == group_id

unfoldable pub is_row : String → String → List Membership → Bool
unfolding first
is_row group_id username l =
    exists (first (λ m. m.group_id == group_id && m.username == username) l)

unfoldable pub get_user_by_username : String → Call (Option User)
unfolding find_user
get_user_by_username username t = (ok (find_user username t.users), t)

unfoldable pub add_user : String → String → Call Bool
unfolding find_user
add_user username public_key t = if exists (find_user username t.users) then (ok false, t) else (
  ok true,
  record t { users = t.users ++ record { username = username; public_key = public_key } ∷ [] },
)

unfoldable pub create_group : String → String → String → Bool → Bool → Call Bool
unfolding find_group
create_group group_id group_name admin is_public is_discoverable t =
    if exists (find_group group_id t.groups) then (ok false, t) else (
      ok true,
      record t {
        groups =
            t.groups
            ++ record {
              group_id = group_id;
              group_name = group_name;
              admin = admin;
              is_public = is_public;
              is_discoverable = is_discoverable;
            }
              ∷ [];
      },
    )

-- Both FOREIGN KEYs, which `INSERT OR IGNORE` does not ignore.
unfoldable pub has_parents : String → String → Tables → Bool
unfolding find_group find_user
has_parents group_id username t =
    exists (find_group group_id t.groups) && exists (find_user username t.users)

unfoldable pub add_group_member : String → String → Call Bool
unfolding is_row has_parents
add_group_member group_id username t =
    if is_row group_id username t.group_members
    then (ok false, t)
    else if has_parents group_id username t
    then (
      ok true,
      record t {
        group_members = t.group_members ++ record { group_id = group_id; username = username } ∷ [];
      },
    )
    else (err, t)

unfoldable pub get_group_members : String → Call (List String)
unfolding keep
get_group_members group_id t =
    (ok (map (λ m. m.username) (keep (λ m. m.group_id == group_id) t.group_members)), t)

unfoldable pub is_group_member : String → String → Call Bool
unfolding is_row
is_group_member group_id username t = (ok (is_row group_id username t.group_members), t)

unfoldable pub is_user_admin : String → String → Call Bool
unfolding first
is_user_admin group_id username t =
    (ok (exists (first (λ g. g.group_id == group_id && g.admin == username) t.groups)), t)

-- `fetch_one` fails where there is no row.
unfoldable pub is_group_public : String → Call Bool
unfolding find_group
is_group_public group_id t =
    (elim (find_group group_id t.groups) [ none ↦ err | some g ↦ ok g.is_public ], t)

unfoldable pub is_group_discoverable : String → Call Bool
unfolding find_group
is_group_discoverable group_id t =
    (elim (find_group group_id t.groups) [ none ↦ err | some g ↦ ok g.is_discoverable ], t)

-- No `OR IGNORE`: a second invite breaks the primary key.
unfoldable pub add_group_invite : String → String → Call Bool
unfolding is_row has_parents
add_group_invite group_id username t =
    if not (is_row group_id username t.group_invites) && has_parents group_id username t
    then (
      ok true,
      record t {
        group_invites = t.group_invites ++ record { group_id = group_id; username = username } ∷ [];
      },
    )
    else (err, t)

unfoldable pub remove_group_invite : String → String → Call Bool
unfolding is_row keep
remove_group_invite group_id username t = (
  ok (is_row group_id username t.group_invites),
  record t {
    group_invites =
        keep (λ m. not (m.group_id == group_id && m.username == username)) t.group_invites;
  },
)

unfoldable pub is_user_invited : String → String → Call Bool
unfolding is_row
is_user_invited group_id username t = (ok (is_row group_id username t.group_invites), t)

unfoldable pub add_pending_user : String → String → Call Bool
unfolding find_user
add_pending_user username public_key t =
    if exists (find_user username t.pending_users) then (ok false, t) else (
      ok true,
      record t {
        pending_users =
            t.pending_users ++ record { username = username; public_key = public_key } ∷ [];
      },
    )

abbrev pub key_of : Option User → Option String
key_of none = none
key_of (some u) = some u.public_key

unfoldable pub get_pending_user : String → Call (Option String)
unfolding find_user
get_pending_user username t = (ok (key_of (find_user username t.pending_users)), t)

unfoldable pub remove_pending_user : String → Call Bool
unfolding find_user keep
remove_pending_user username t = (
  ok (exists (find_user username t.pending_users)),
  record t { pending_users = keep (λ u. not (u.username == username)) t.pending_users },
)

unfoldable pub get_groups_for_user : String → Call (List String)
unfolding keep
get_groups_for_user username t =
    (ok (map (λ m. m.group_id) (keep (λ m. m.username == username) t.group_members)), t)

unfoldable pub get_all_usernames : Call (List String)
get_all_usernames t = (ok (map (λ u. u.username) t.users), t)
