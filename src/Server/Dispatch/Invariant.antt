-- ===== src/Server/Dispatch/Invariant.antt =====
-- The invariant of the accounts, over every sequence of messages.
use nymstr.Prelude.{
  ℕ, String, true, List, [], ◌∷◌, Option, ◌≡◌, sym, subst, All, All-append, All-keep, All-mono,
  Values, Values-remove, Values-insert, Values-find, arith,
}
use nymstr.Common.Validation.{is_valid_username}
use nymstr.Transport.{ReplyTag, tag_eq}
use nymstr.Db.Tables.{Db, User}
use nymstr.Db.Users.{set_column, sender_tag}
use nymstr.Db.Users.Laws.{
  KeyOf, Distinct, KeyOf-append, KeyOf-set_column, Distinct-append, Distinct-set_column,
}
use nymstr.Server.State.{
  Env, World, Server, PendingEntry, PendingUser, start, cleanup_stale_entries,
}
use nymstr.Server.State.Change.{Claims, UserChange, PendingChange, NonceChange, Change}
use nymstr.Server.Dispatch.{process_message}
use nymstr.Server.Dispatch.Cases.{process_message-any}
use nymstr.Server.Dispatch.Accountable.{process_value-Change}

abbrev IsNamed : PendingEntry PendingUser → Type 0
IsNamed e = is_valid_username e.item.username ≡ true

abbrev HasValidName : User → Type 0
HasValidName u = is_valid_username u.username ≡ true

-- A pending login carries the key that its user is registered with.
abbrev KnowsKey : List User → PendingEntry PendingUser → Type 0
KnowsKey us e = KeyOf us e.item.username e.item.public_key

pub record IsSound (s : Server) : Type 0 where
  pub distinct : Distinct s.db.users
  pub valid : All HasValidName s.db.users
  pub pending : Values IsNamed s.pending_users
  pub logins : Values (KnowsKey s.db.users) s.nonces

pub start-IsSound : (db : Db) → Distinct db.users → All HasValidName db.users → IsSound (start db)
unfolding start
start-IsSound db d v = record { distinct = d; valid = v; pending = tt; logins = tt }

valid-set_column :
    (us : List User) (m value : String)
    → All HasValidName us
    → All HasValidName (set_column sender_tag m value us)
unfolding set_column
valid-set_column [] m value h = h
valid-set_column (u ∷ us) m value h = (ground arith, valid-set_column us m value h.1)

-- The key of a user stays through every change.
pub Keeps : List User → List User → Type 0
Keeps us us' = (name key : String) → KeyOf us name key → KeyOf us' name key

module _ {said : Claims} (env : Env) (t : ReplyTag) {s s' : Server} where
  UserChange-Keeps : UserChange said env t s s' → Keeps s.db.users s'.db.users
  unfolding Keeps
  UserChange-Keeps (UserChange.kept e) name key k = subst (λ us. KeyOf us name key) (sym e) k
  UserChange-Keeps (UserChange.registered e sig f v m a) name key k =
      subst (λ us. KeyOf us name key) (sym a) (KeyOf-append s.db.users _ name key k)
  UserChange-Keeps (UserChange.logged_in e sig f v a) name key k =
      subst (λ us. KeyOf us name key) (sym a) (KeyOf-set_column s.db.users _ _ name key k)
  UserChange-Keeps (UserChange.spoke u n text sig c f v a) name key k =
      subst (λ us. KeyOf us name key) (sym a) (KeyOf-set_column s.db.users _ _ name key k)

  UserChange-Distinct : UserChange said env t s s' → Distinct s.db.users → Distinct s'.db.users
  UserChange-Distinct (UserChange.kept e) d = subst Distinct (sym e) d
  UserChange-Distinct (UserChange.registered e sig f v m a) d =
      subst Distinct (sym a) (Distinct-append s.db.users _ m d)
  UserChange-Distinct (UserChange.logged_in e sig f v a) d =
      subst Distinct (sym a) (Distinct-set_column s.db.users _ _ d)
  UserChange-Distinct (UserChange.spoke u n text sig c f v a) d =
      subst Distinct (sym a) (Distinct-set_column s.db.users _ _ d)

  UserChange-valid :
      UserChange said env t s s'
      → Values IsNamed s.pending_users
      → All HasValidName s.db.users
      → All HasValidName s'.db.users
  UserChange-valid (UserChange.kept e) p h = subst (All HasValidName) (sym e) h
  UserChange-valid (UserChange.registered e sig f v m a) p h =
      subst (All HasValidName) (sym a)
        (All-append HasValidName s.db.users _ h (Values-find IsNamed t s.pending_users e p f, tt))
  UserChange-valid (UserChange.logged_in e sig f v a) p h =
      subst (All HasValidName) (sym a) (valid-set_column s.db.users _ _ h)
  UserChange-valid (UserChange.spoke u n text sig c f v a) p h =
      subst (All HasValidName) (sym a) (valid-set_column s.db.users _ _ h)

module _ (w : World) (t : ReplyTag) {s s' : Server} where
  PendingChange-named :
      PendingChange w t s s' → Values IsNamed s.pending_users → Values IsNamed s'.pending_users
  PendingChange-named (PendingChange.kept e) h = subst (Values IsNamed) (sym e) h
  PendingChange-named (PendingChange.removed e) h =
      subst (Values IsNamed) (sym e) (Values-remove IsNamed t s.pending_users h)
  PendingChange-named (PendingChange.issued x v n e) h =
      subst (Values IsNamed) (sym e) (Values-insert IsNamed t x s.pending_users v h)

  NonceChange-knows :
      NonceChange w t s s'
      → Values (KnowsKey s.db.users) s.nonces
      → Values (KnowsKey s.db.users) s'.nonces
  NonceChange-knows (NonceChange.kept e) h = subst (Values (KnowsKey s.db.users)) (sym e) h
  NonceChange-knows (NonceChange.removed e) h =
      subst (Values (KnowsKey s.db.users)) (sym e)
        (Values-remove (KnowsKey s.db.users) t s.nonces h)
  NonceChange-knows (NonceChange.issued x u f k n e) h =
      subst (Values (KnowsKey s.db.users)) (sym e)
        (Values-insert (KnowsKey s.db.users) t x s.nonces (u, f, sym k) h)

Change-IsSound :
    {said : Claims} {env : Env} {w : World} {t : ReplyTag} {s s' : Server}
    → Change said env w t s s'
    → IsSound s
    → IsSound s'
unfolding Keeps
Change-IsSound {env} {w} {t} {s} {s'} c h = record {
  distinct = UserChange-Distinct env t c.users h.distinct;
  valid = UserChange-valid env t c.users h.pending h.valid;
  pending = PendingChange-named w t c.pending h.pending;
  logins =
      All-mono _ _ (λ p k. UserChange-Keeps env t c.users _ _ k) s'.nonces
        (NonceChange-knows w t c.nonces h.logins);
}

cleanup-IsSound : (now : ℕ) (s : Server) → IsSound s → IsSound (cleanup_stale_entries now s)
unfolding cleanup_stale_entries
cleanup-IsSound now s h = record {
  distinct = h.distinct;
  valid = h.valid;
  pending = All-keep _ _ s.pending_users h.pending;
  logins = All-keep _ _ s.nonces h.logins;
}

module _ (env : Env) where
  -- A server whose accounts are sound stays so over any message: user names are valid and stand
  -- once, pending registrations are for valid names, and every pending login carries the key of
  -- its user.
  pub process_message-IsSound :
      (w : World) (s : Server) (tag : Option ReplyTag) (bytes : List ℕ)
      → IsSound s
      → IsSound (process_message env w s tag bytes)
  process_message-IsSound w s tag bytes h =
      process_message-any env w IsSound s tag bytes (cleanup-IsSound w.instant s h) λ t v.
        Change-IsSound (process_value-Change env w (cleanup_stale_entries w.instant s) t v)
          (cleanup-IsSound w.instant s h)

  process_message-Keeps :
      (w : World) (s : Server) (tag : Option ReplyTag) (bytes : List ℕ)
      → Keeps s.db.users (process_message env w s tag bytes).db.users
  unfolding cleanup_stale_entries Keeps
  process_message-Keeps w s tag bytes =
      process_message-any env w (λ s'. Keeps s.db.users s'.db.users) s tag bytes (λ name key k. k)
        λ t v.
          UserChange-Keeps env t
            (process_value-Change env w (cleanup_stale_entries w.instant s) t v).users

  -- The messages that a server handles, one after the other.
  unfoldable pub run : Server → List (World × Option ReplyTag × List ℕ) → Server
  run s [] = s
  run s ((w, tag, bytes) ∷ ms) = run (process_message env w s tag bytes) ms

  -- Where the accounts of a server are sound, they are so after any messages: user names are valid
  -- and stand once, pending registrations are for valid names, and every pending login carries the
  -- key of its user.
  pub run-IsSound :
      (ms : List (World × Option ReplyTag × List ℕ)) (s : Server) → IsSound s → IsSound (run s ms)
  unfolding run
  run-IsSound [] s h = h
  run-IsSound ((w, tag, bytes) ∷ ms) s h =
      run-IsSound ms _ (process_message-IsSound w s tag bytes h)

  -- No message ever changes the key of a registered user, or removes the user: whatever is sent,
  -- by whom, with whatever signatures and database failures, a name keeps its first key.
  pub run-KeyOf :
      (ms : List (World × Option ReplyTag × List ℕ)) (s : Server) (name key : String)
      → KeyOf s.db.users name key
      → KeyOf (run s ms).db.users name key
  unfolding run Keeps
  run-KeyOf [] s name key k = k
  run-KeyOf ((w, tag, bytes) ∷ ms) s name key k =
      run-KeyOf ms _ name key (process_message-Keeps w s tag bytes name key k)
