-- ===== src/GroupServer/Steps.antt =====
-- What the group server may do to its tables: one constructor for each writing call, with the
-- requests and checks that allow it. It is the specification that the handlers refine.
pub mod Accounts
pub mod Messages
pub mod Process
pub mod Growth
pub mod Hashes
pub mod Consistent
pub mod Commits
pub mod Welcomes
use Prim.Native.String.{◌++◌}
use nymstr.Prelude.{
  ℕ, String, Bool, true, false, not, List, Option, none, some, ◌≡◌, ◌==◌, ◌<◌, ◌≤◌, length,
  string_eq,
}
use nymstr.Prelude.Int.{ℤ, show_ℤ}
use nymstr.Common.Validation.{is_valid_username}
use nymstr.Server.State.{World}
use nymstr.GroupServer.Text.{trim}
use nymstr.GroupServer.Tables.{
  Tables, User, Welcome, find_user, key_of, add_user, create_group, add_group_member,
  add_pending_user, remove_pending_user,
}
use nymstr.GroupServer.Tables.Queues.{
  store_message, store_key_package, store_welcome, remove_welcome, welcomes_of, buffer_commit,
  cleanup_old_commits, check_and_store_message_hash, cleanup_old_message_hashes,
}
use nymstr.GroupServer.State.{GroupEnv}
use nymstr.GroupServer.Requests.{RegisterRequest, ApproveGroupRequest}
use nymstr.GroupServer.Accounts.{is_expired, register_content, approve_content, is_admin_key}
use nymstr.GroupServer.Messages.{dedup_hash}
use nymstr.GroupServer.Checks.{Authentic, IsMember}

module _ (g : GroupEnv) (w : World) where
  -- A registration that is fresh and signed by the key it brings.
  pub record Registers (r : RegisterRequest) : Type 0 where
    pub valid : is_valid_username r.username ≡ true
    pub fresh : is_expired w.unix r.timestamp ≡ false
    pub verified : g.env.verify_signature r.public_key (register_content r) r.signature ≡ true

  -- An approval that is fresh, for this group and signed by the configured admin.
  pub record Approves (r : ApproveGroupRequest) : Type 0 where
    pub admin_key : String
    pub configured : g.admin_public_key ≡ some admin_key
    pub same_group : (r.group_id == g.group_id) ≡ true
    pub fresh : is_expired w.unix r.timestamp ≡ false
    pub verified : g.env.verify_signature admin_key (approve_content r) r.signature ≡ true

  -- Where an admin is configured, the user is registered with the admin's key.
  abbrev pub IsAdmin : Tables → String → Option String → Type 0
  IsAdmin t username none = Unit {0}
  IsAdmin t username (some admin_key) =
      (u : User) × (find_user username t.users ≡ some u)
      × ((trim u.public_key == trim admin_key) ≡ true)

  -- A member asks to store a message.
  pub record Sends (t : Tables) (username ciphertext : String) : Type 0 where
    pub signature : String
    pub present : (ciphertext == "") ≡ false
    pub authentic : Authentic g t username ciphertext signature
    pub member : IsMember g t username

  pub record Invites (t : Tables) (target group_id : String) (welcome : List ℕ) : Type 0 where
    pub sender : String
    pub signature : String
    pub authentic : Authentic g t sender (group_id ++ ":" ++ target) signature
    pub admin : IsAdmin t sender g.admin_public_key
    pub quota : length (welcomes_of target t.pending_welcomes) < 20
    pub size : length welcome ≤ 131072

  pub record Submits (t : Tables) (sender group_id : String) (epoch : ℤ) : Type 0 where
    pub signature : String
    pub authentic : Authentic g t sender (group_id ++ ":" ++ show_ℤ epoch) signature
    pub member : IsMember g t sender

  pub data Step (t : Tables) : Tables → Type 0 where
    -- The admin's own registration.
    admit_admin :
        (r : RegisterRequest)
        → Registers r
        → is_admin_key g.admin_public_key r.public_key ≡ true
        → Step t (add_user r.username r.public_key t).1
    found_group :
        (r : RegisterRequest)
        → Registers r
        → is_admin_key g.admin_public_key r.public_key ≡ true
        → Step t (create_group g.group_id g.group_id r.username true true t).1
    join_admin :
        (r : RegisterRequest)
        → Registers r
        → is_admin_key g.admin_public_key r.public_key ≡ true
        → Step t (add_group_member g.group_id r.username t).1
    -- Anybody else's registration waits.
    apply :
        (r : RegisterRequest)
        → Registers r
        → is_admin_key g.admin_public_key r.public_key ≡ false
        → Step t (add_pending_user r.username r.public_key t).1
    pack :
        (r : RegisterRequest) (kp : List ℕ)
        → Registers r
        → r.key_package ≡ some kp
        → Step t (store_key_package r.username kp (g.env.rfc3339 w.unix) t).1
    -- The admin lets a waiting user in.
    admit :
        (r : ApproveGroupRequest) (key : String)
        → Approves r
        → key_of (find_user r.username t.pending_users) ≡ some key
        → Step t (add_user r.username key t).1
    settle : (r : ApproveGroupRequest) → Approves r → Step t (remove_pending_user r.username t).1
    join :
        (r : ApproveGroupRequest) → Approves r → Step t (add_group_member g.group_id r.username t).1
    mark :
        (username ciphertext : String)
        → Sends t username ciphertext
        → Step t (check_and_store_message_hash (dedup_hash g username ciphertext) w.unix t).1
    post :
        (username ciphertext : String)
        → Sends t username ciphertext
        → Step t (store_message username ciphertext (g.env.rfc3339 w.unix) t).1
    forget : Step t (cleanup_old_message_hashes 600 w.unix t).1
    welcome :
        (target group_id : String) (bytes : List ℕ)
        → Invites t target group_id bytes
        → Step t (store_welcome target group_id bytes (g.env.rfc3339 w.unix) t).1
    take_welcome :
        (username group_id signature : String)
        → Authentic g t username ("fetchWelcome:" ++ username) signature
        → Step t (remove_welcome username group_id t).1
    commit :
        (sender group_id : String) (epoch : ℤ) (bytes : List ℕ)
        → Submits t sender group_id epoch
        → Step t (buffer_commit group_id epoch bytes sender (g.env.rfc3339 w.unix) t).1
    trim_commits :
        (sender group_id : String) (epoch : ℤ)
        → Submits t sender group_id epoch
        → Step t (cleanup_old_commits group_id 100 t).1

-- Any steps in one world, as the handling of a message takes them.
pub data Steps (g : GroupEnv) (w : World) (t : Tables) : Tables → Type 0 where
  here : Steps g w t t
  next : {u v : Tables} → Steps g w t u → Step g w u v → Steps g w t v

-- What is kept by every step is kept by any steps.
pub Steps-closed :
    {g : GroupEnv} {w : World} (R : Tables → Tables → Type 0)
    → ((t : Tables) → R t t)
    → ((t u v : Tables) → R t u → R u v → R t v)
    → ((t u : Tables) → Step g w t u → R t u)
    → (t u : Tables) → Steps g w t u
    → R t u
Steps-closed R same trans step t _ here = same t
Steps-closed R same trans step t v (next {u} p s) =
    trans t u v (Steps-closed R same trans step t u p) (step u v s)
