-- ===== src/Server/State/Change.antt =====
-- How handling a message may change the users table, each change with its proof of authority.
use nymstr.Prelude.{String, [], ◌∷◌, ◌++◌, none, some, find, remove, insert, ◌≡◌, ◌∙◌, true}
use nymstr.Transport.{ReplyTag, tag_eq}
use nymstr.Db.Tables.{User}
use nymstr.Db.Users.{find_user, set_column, sender_tag}
use nymstr.Common.Validation.{is_valid_username}
use nymstr.Server.State.Quiet.{Quiet}
use nymstr.Server.State.{Env, World, Server, PendingEntry, PendingUser, tag_text}

-- What a message may have a user say: of the user's name, the text and its signature.
abbrev pub Claims : Type 1
Claims = String → String → String → Type 0

pub data UserChange (said : Claims) (env : Env) (t : ReplyTag) (s s' : Server) : Type 0 where
  kept : s'.db.users ≡ s.db.users → UserChange said env t s s'
  -- A pending registration of this sender, its nonce signed by the key that is registered.
  registered :
      (e : PendingEntry PendingUser) (signature : String)
      → find t s.pending_users ≡ some e
      → env.verify_signature e.item.public_key e.item.nonce signature ≡ true
      → find_user e.item.username s.db.users ≡ none
      → s'.db.users
        ≡ s.db.users
          ++ record {
            username = e.item.username;
            public_key = e.item.public_key;
            sender_tag = tag_text env t;
          }
            ∷ []
      → UserChange said env t s s'
  -- A pending login of this sender, its nonce signed.
  logged_in :
      (e : PendingEntry PendingUser) (signature : String)
      → find t s.nonces ≡ some e
      → env.verify_signature e.item.public_key e.item.nonce signature ≡ true
      → s'.db.users ≡ set_column sender_tag e.item.username (tag_text env t) s.db.users
      → UserChange said env t s s'
  -- What the message says, signed by the registered key of the user.
  spoke :
      (u : User) (name text signature : String)
      → said name text signature
      → find_user name s.db.users ≡ some u
      → env.verify_signature u.public_key text signature ≡ true
      → s'.db.users ≡ set_column sender_tag name (tag_text env t) s.db.users
      → UserChange said env t s s'

-- What holds from a server with the same accounts and handshakes.
pub UserChange-from :
    {said : Claims} {env : Env} {t : ReplyTag} (s r : Server) {s' : Server}
    → r.db.users ≡ s.db.users
    → r.pending_users ≡ s.pending_users
    → r.nonces ≡ s.nonces
    → UserChange said env t r s'
    → UserChange said env t s s'
UserChange-from s r u p n (UserChange.kept e) = UserChange.kept (e ∙ u)
UserChange-from s r u p n (UserChange.registered e sig f v m a) =
    UserChange.registered e sig (rw (← p) f) v (rw (← u) m) (rw (← u) a)
UserChange-from s r u p n (UserChange.logged_in e sig f v a) =
    UserChange.logged_in e sig (rw (← n) f) v (rw (← u) a)
UserChange-from s r u p n (UserChange.spoke x name text sig c f v a) =
    UserChange.spoke x name text sig c (rw (← u) f) v (rw (← u) a)

-- A pending registration is issued for a valid name, or removed.
pub data PendingChange (w : World) (t : ReplyTag) (s s' : Server) : Type 0 where
  kept : s'.pending_users ≡ s.pending_users → PendingChange w t s s'
  removed : s'.pending_users ≡ remove t s.pending_users → PendingChange w t s s'
  issued :
      (e : PendingEntry PendingUser)
      → is_valid_username e.item.username ≡ true
      → e.item.nonce ≡ w.uuid
      → s'.pending_users ≡ insert t e s.pending_users
      → PendingChange w t s s'

-- A pending login is issued with the key that the user has, or removed.
pub data NonceChange (w : World) (t : ReplyTag) (s s' : Server) : Type 0 where
  kept : s'.nonces ≡ s.nonces → NonceChange w t s s'
  removed : s'.nonces ≡ remove t s.nonces → NonceChange w t s s'
  issued :
      (e : PendingEntry PendingUser) (u : User)
      → find_user e.item.username s.db.users ≡ some u
      → e.item.public_key ≡ u.public_key
      → e.item.nonce ≡ w.uuid
      → s'.nonces ≡ insert t e s.nonces
      → NonceChange w t s s'

-- What handling one message may do to the accounts.
pub record Change (said : Claims) (env : Env) (w : World) (t : ReplyTag) (s s' : Server)
    : Type 0 where
  pub users : UserChange said env t s s'
  pub pending : PendingChange w t s s'
  pub nonces : NonceChange w t s s'

pub Change-Quiet :
    {said : Claims} {env : Env} {w : World} {t : ReplyTag} {s s' : Server}
    → Quiet s s'
    → Change said env w t s s'
Change-Quiet q = record {
  users = UserChange.kept q.users;
  pending = PendingChange.kept q.pending_users;
  nonces = NonceChange.kept q.nonces;
}

-- A message that says one thing says any that follows from it.
pub Change-mono :
    {said told : Claims} {env : Env} {w : World} {t : ReplyTag} {s s' : Server}
    → ((name text signature : String) → said name text signature → told name text signature)
    → Change said env w t s s'
    → Change told env w t s s'
Change-mono {said} {told} {env} {w} {t} {s} {s'} f c = record {
  users = speaks c.users;
  pending = c.pending;
  nonces = c.nonces;
}
  where
    speaks : UserChange said env t s s' → UserChange told env t s s'
    speaks (UserChange.kept e) = UserChange.kept e
    speaks (UserChange.registered e sig p v m a) = UserChange.registered e sig p v m a
    speaks (UserChange.logged_in e sig p v a) = UserChange.logged_in e sig p v a
    speaks (UserChange.spoke x name text sig k p v a) =
        UserChange.spoke x name text sig (f name text sig k) p v a
