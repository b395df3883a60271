-- ===== src/GroupServer/Steps/Consistent.antt =====
-- The invariant of the tables: rows by ascending id, and at most 20 welcomes for a user.
use nymstr.Prelude.{
  All-every, ℕ, ◌+◌, ◌≤◌, ◌<◌, String, Bool, true, List, [], ◌∷◌, ◌++◌, Option, ◌≡◌, refl, sym,
  subst, ◌⊎◌, inl, inr, keep, length, ◌==◌, ==_iff, string_eq, if◌then◌else◌, arith,
}
use nymstr.Transport.{ReplyTag}
use nymstr.Server.State.{World}
use nymstr.GroupServer.Tables.{Tables, Welcome, remove_pending_user}
use nymstr.GroupServer.Tables.Cases.{
  add_user_cases, add_pending_user_cases, create_group_cases, add_group_member_cases,
  store_message_cases, check_hash_cases,
}
use nymstr.GroupServer.Tables.Queues.{
  store_key_package, store_welcome, remove_welcome, buffer_commit, cleanup_old_commits,
  cleanup_old_message_hashes, welcomes_of,
}
use nymstr.GroupServer.State.{GroupEnv, GroupServer}
use nymstr.GroupServer.Messages.{dedup_hash}
use nymstr.GroupServer.Ordered.{Within, Within-append, Within-keep}
use nymstr.GroupServer.Steps.{Step}
use nymstr.GroupServer.Steps.Process.{run, run-closed}

abbrev HasQuota : List Welcome → Type 0
HasQuota l = (name : String) → length (welcomes_of name l) ≤ 20

pub record IsConsistent (t : Tables) : Type 0 where
  pub messages : Within (λ m. m.id) 0 t.next_message t.messages
  pub commits : Within (λ c. c.id) 0 t.next_commit t.buffered_commits
  pub quota : HasQuota t.pending_welcomes

length-keep-keep {ℓ} :
    {A : Type ℓ} (p q : A → Bool) (xs : List A) → length (keep q (keep p xs)) ≤ length (keep q xs)
unfolding keep
length-keep-keep p q [] = omega arith
length-keep-keep p q (x ∷ xs) = ground (arith, length-keep-keep p q xs)

HasQuota-keep : (p : Welcome → Bool) (l : List Welcome) → HasQuota l → HasQuota (keep p l)
unfolding welcomes_of
HasQuota-keep p l h name = omega (arith, length-keep-keep p (λ w. w.username == name) l, h name)

length-welcomes-append :
    (name : String) (l : List Welcome) (x : Welcome)
    → length (welcomes_of name (l ++ x ∷ []))
      ≡ length (welcomes_of name l) + (if x.username == name then 1 else 0)
unfolding welcomes_of keep
length-welcomes-append name [] x = ground arith
length-welcomes-append name (y ∷ l) x = ground (arith, length-welcomes-append name l x)

HasQuota-append :
    (l : List Welcome) (x : Welcome)
    → length (welcomes_of x.username l) < 20
    → HasQuota l
    → HasQuota (l ++ x ∷ [])
HasQuota-append l x few h name =
    ground (arith, length-welcomes-append name l x, h name, ==_iff x.username name)

-- A welcome below the quota replaces or joins the user's others.
HasQuota-store :
    (p : Welcome → Bool) (l : List Welcome) (x : Welcome)
    → length (welcomes_of x.username l) < 20
    → HasQuota l
    → HasQuota (keep p l ++ x ∷ [])
unfolding welcomes_of
HasQuota-store p l x few h =
    HasQuota-append (keep p l) x
      (omega (arith, length-keep-keep p (λ w. w.username == x.username) l, few))
      (HasQuota-keep p l h)

either :
    (t u v : Tables)
    → (u ≡ t) ⊎ (u ≡ v)
    → IsConsistent t
    → (IsConsistent t → IsConsistent v)
    → IsConsistent u
either t u v (inl e) h f = subst IsConsistent (sym e) h
either t u v (inr e) h f = subst IsConsistent (sym e) (f h)

-- Tables that agree on all that the invariant reads.
same :
    (t u : Tables)
    → u.messages ≡ t.messages
    → u.next_message ≡ t.next_message
    → u.buffered_commits ≡ t.buffered_commits
    → u.next_commit ≡ t.next_commit
    → u.pending_welcomes ≡ t.pending_welcomes
    → IsConsistent t
    → IsConsistent u
same t u a b c d e h = record {
  messages = rw (a, b) h.messages;
  commits = rw (c, d) h.commits;
  quota = rw e h.quota;
}

Step-IsConsistent :
    (g : GroupEnv) (w : World) {t u : Tables} → Step g w t u → IsConsistent t → IsConsistent u
unfolding remove_pending_user store_key_package store_welcome remove_welcome buffer_commit
    cleanup_old_commits cleanup_old_message_hashes
Step-IsConsistent g w {t} (Step.admit_admin r s k) h =
    either t _ _ (add_user_cases t r.username r.public_key) h (same t _ refl refl refl refl refl)
Step-IsConsistent g w {t} (Step.found_group r s k) h =
    either t _ _ (create_group_cases t g.group_id g.group_id r.username true true) h
      (same t _ refl refl refl refl refl)
Step-IsConsistent g w {t} (Step.join_admin r s k) h =
    either t _ _ (add_group_member_cases t g.group_id r.username) h
      (same t _ refl refl refl refl refl)
Step-IsConsistent g w {t} (Step.apply r s k) h =
    either t _ _ (add_pending_user_cases t r.username r.public_key) h
      (same t _ refl refl refl refl refl)
Step-IsConsistent g w {t} (Step.pack r kp s k) h = same t _ refl refl refl refl refl h
Step-IsConsistent g w {t} (Step.admit r key s k) h =
    either t _ _ (add_user_cases t r.username key) h (same t _ refl refl refl refl refl)
Step-IsConsistent g w {t} (Step.settle r s) h = same t _ refl refl refl refl refl h
Step-IsConsistent g w {t} (Step.join r s) h =
    either t _ _ (add_group_member_cases t g.group_id r.username) h
      (same t _ refl refl refl refl refl)
Step-IsConsistent g w {t} (Step.mark username ciphertext s) h =
    either t _ _ (check_hash_cases t (dedup_hash g username ciphertext) w.unix) h
      (same t _ refl refl refl refl refl)
Step-IsConsistent g w {t} (Step.post username ciphertext s) h =
    either t _ _ (store_message_cases t username ciphertext (g.env.rfc3339 w.unix)) h λ h'. record {
      messages = Within-append (λ m. m.id) 0 t.next_message t.messages _ refl h'.messages;
      commits = h'.commits;
      quota = h'.quota;
    }
Step-IsConsistent g w {t} Step.forget h = same t _ refl refl refl refl refl h
Step-IsConsistent g w {t} (Step.welcome target group_id bytes s) h = record {
  messages = h.messages;
  commits = h.commits;
  quota = HasQuota-store _ t.pending_welcomes _ s.quota h.quota;
}
Step-IsConsistent g w {t} (Step.take_welcome username group_id signature a) h = record {
  messages = h.messages;
  commits = h.commits;
  quota = HasQuota-keep _ t.pending_welcomes h.quota;
}
Step-IsConsistent g w {t} (Step.commit sender group_id epoch bytes s) h = record {
  messages = h.messages;
  commits = Within-append (λ c. c.id) 0 t.next_commit t.buffered_commits _ refl h.commits;
  quota = h.quota;
}
Step-IsConsistent g w {t} (Step.trim_commits sender group_id epoch s) h = record {
  messages = h.messages;
  commits = Within-keep (λ c. c.id) _ 0 t.next_commit t.buffered_commits h.commits;
  quota = h.quota;
}

-- Over any messages the ids of messages and of commits stay ascending and below the next id, so
-- that none is given twice, and no user ever has more than 20 welcomes waiting.
pub run-IsConsistent :
    (g : GroupEnv) (ms : List (World × Option ReplyTag × List ℕ)) (s : GroupServer)
    → IsConsistent s.tables
    → IsConsistent (run g s ms).tables
run-IsConsistent g ms s h =
    run-closed g (λ t u. IsConsistent t → IsConsistent u) (λ t k. k) (λ t u v p q k. q (p k)) ms
      (All-every (λ m t u p k. Step-IsConsistent g (m.0) p k) ms) s h
