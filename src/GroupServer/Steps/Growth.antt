-- ===== src/GroupServer/Steps/Growth.antt =====
-- What no step takes back: users with their keys, members, and the log of messages.
use nymstr.Prelude.{
  ℕ, String, true, List, [], ◌∷◌, ◌++◌, Option, ◌≡◌, refl, sym, ap, subst, ◌∙◌, ◌⊎◌, inl, inr, All,
  All-append, All-mono, All-every, append-nil, append_assoc,
}
use nymstr.Transport.{ReplyTag}
use nymstr.Server.State.{World}
use nymstr.GroupServer.Tables.{
  Tables, add_user, add_group_member, Membership, Message, is_row, remove_pending_user,
}
use nymstr.GroupServer.Tables.Cases.{
  add_user_cases, add_pending_user_cases, create_group_cases, add_group_member_cases,
  store_message_cases, check_hash_cases, exists-append,
}
use nymstr.GroupServer.Tables.Queues.{
  store_message, store_key_package, store_welcome, remove_welcome, buffer_commit,
  cleanup_old_commits, cleanup_old_message_hashes,
}
use nymstr.GroupServer.State.{GroupEnv, GroupServer}
use nymstr.GroupServer.Messages.{dedup_hash}
use nymstr.GroupServer.Steps.{Step}
use nymstr.GroupServer.Steps.Process.{run, run-closed}

abbrev Extends {ℓ} : {A : Type ℓ} → List A → List A → Type ℓ
Extends {A} xs ys = (zs : List A) × (ys ≡ xs ++ zs)

abbrev ByMember : GroupEnv → List Membership → Message → Type 0
ByMember g l m = is_row g.group_id m.sender l ≡ true

pub record Grows (g : GroupEnv) (t u : Tables) : Type 0 where
  pub users : Extends t.users u.users
  pub members : Extends t.group_members u.group_members
  pub messages :
      (more : List Message) × (u.messages ≡ t.messages ++ more)
      × All (ByMember g u.group_members) more

module _ (g : GroupEnv) where
  -- A step that leaves the three tables.
  stays :
      (t u : Tables)
      → u.users ≡ t.users
      → u.group_members ≡ t.group_members
      → u.messages ≡ t.messages
      → Grows g t u
  stays t u e f h = record {
    users = ([], e ∙ sym (append-nil t.users));
    members = ([], f ∙ sym (append-nil t.group_members));
    messages = ([], h ∙ sym (append-nil t.messages), tt);
  }

  unmoved : (t : Tables) → Grows g t t
  unmoved t = stays t t refl refl refl

  either : (t u v : Tables) → (u ≡ t) ⊎ (u ≡ v) → Grows g t v → Grows g t u
  either t u v (inl e) h = subst (Grows g t) (sym e) (unmoved t)
  either t u v (inr e) h = subst (Grows g t) (sym e) h

  user-Grows : (t : Tables) (name key : String) → Grows g t (add_user name key t).1
  user-Grows t name key = either t _ _ (add_user_cases t name key) (record {
    users = (record { username = name; public_key = key } ∷ [], refl);
    members = (unmoved t).members;
    messages = (unmoved t).messages;
  })

  member-Grows : (t : Tables) (id name : String) → Grows g t (add_group_member id name t).1
  member-Grows t id name = either t _ _ (add_group_member_cases t id name) (record {
    users = (unmoved t).users;
    members = (record { group_id = id; username = name } ∷ [], refl);
    messages = ([], sym (append-nil t.messages), tt);
  })

  message-Grows :
      (t : Tables) (sender ciphertext now : String)
      → is_row g.group_id sender t.group_members ≡ true
      → Grows g t (store_message sender ciphertext now t).1
  message-Grows t sender ciphertext now member =
      either t _ _ (store_message_cases t sender ciphertext now) (record {
        users = (unmoved t).users;
        members = (unmoved t).members;
        messages = (
          record { id = t.next_message; sender = sender; ciphertext = ciphertext; timestamp = now }
              ∷ [],
          refl,
          (member, tt),
        );
      })

  Step-Grows : (w : World) {t u : Tables} → Step g w t u → Grows g t u
  unfolding remove_pending_user store_key_package store_welcome remove_welcome buffer_commit
      cleanup_old_commits cleanup_old_message_hashes
  Step-Grows w {t} (Step.admit_admin r s k) = user-Grows t r.username r.public_key
  Step-Grows w {t} (Step.found_group r s k) =
      either t _ _ (create_group_cases t g.group_id g.group_id r.username true true)
        (stays t _ refl refl refl)
  Step-Grows w {t} (Step.join_admin r s k) = member-Grows t g.group_id r.username
  Step-Grows w {t} (Step.apply r s k) =
      either t _ _ (add_pending_user_cases t r.username r.public_key) (stays t _ refl refl refl)
  Step-Grows w {t} (Step.pack r kp s k) = stays t _ refl refl refl
  Step-Grows w {t} (Step.admit r key s k) = user-Grows t r.username key
  Step-Grows w {t} (Step.settle r s) = stays t _ refl refl refl
  Step-Grows w {t} (Step.join r s) = member-Grows t g.group_id r.username
  Step-Grows w {t} (Step.mark username ciphertext s) =
      either t _ _ (check_hash_cases t (dedup_hash g username ciphertext) w.unix)
        (stays t _ refl refl refl)
  Step-Grows w {t} (Step.post username ciphertext s) =
      message-Grows t username ciphertext (g.env.rfc3339 w.unix) s.member
  Step-Grows w {t} Step.forget = stays t _ refl refl refl
  Step-Grows w {t} (Step.welcome target group_id bytes s) = stays t _ refl refl refl
  Step-Grows w {t} (Step.take_welcome username group_id signature a) = stays t _ refl refl refl
  Step-Grows w {t} (Step.commit sender group_id epoch bytes s) = stays t _ refl refl refl
  Step-Grows w {t} (Step.trim_commits sender group_id epoch s) = stays t _ refl refl refl

  -- A member at one time is one later.
  ByMember-extends :
      (xs ys : List Membership) → Extends xs ys → (m : Message) → ByMember g xs m → ByMember g ys m
  unfolding is_row
  ByMember-extends xs ys (zs, e) m h = subst (λ l. ByMember g l m) (sym e) (exists-append _ xs zs h)

  Extends-trans : {A : Type 0} (xs ys zs : List A) → Extends xs ys → Extends ys zs → Extends xs zs
  Extends-trans xs ys zs (as', e) (bs, f) =
      (as' ++ bs, f ∙ ap (λ l. l ++ bs) e ∙ append_assoc xs as' bs)

  Grows-trans : (t u v : Tables) → Grows g t u → Grows g u v → Grows g t v
  Grows-trans t u v p q =
      let (old, e, by_old) = p.messages in
      let (new, f, by_new) = q.messages in
      record {
        users = Extends-trans t.users u.users v.users p.users q.users;
        members = Extends-trans t.group_members u.group_members v.group_members p.members q.members;
        messages = (
          old ++ new,
          f ∙ ap (λ l. l ++ new) e ∙ append_assoc t.messages old new,
          All-append _ old new
              (All-mono _ _ (ByMember-extends u.group_members v.group_members q.members) old by_old)
              by_new,
        );
      }

  -- Over any messages, users and members only come in, so that nobody loses membership or a key,
  -- and the log of messages only grows at its end, by messages of members of the group.
  pub run-Grows :
      (ms : List (World × Option ReplyTag × List ℕ)) (s : GroupServer)
      → Grows g s.tables (run g s ms).tables
  run-Grows ms s =
      run-closed g (Grows g) unmoved Grows-trans ms (All-every (λ m t u p. Step-Grows (m.0) p) ms) s
