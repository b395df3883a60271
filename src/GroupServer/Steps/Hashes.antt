-- ===== src/GroupServer/Steps/Hashes.antt =====
-- How long the hash of a message stays.
use nymstr.Prelude.{
  ℕ, ◌+◌, ◌≤◌, String, true, false, not, List, [], ◌∷◌, ◌++◌, Option, or_else, some, ◌≡◌, ap, ◌⊎◌,
  inl, inr, Bool-cases, All, All-mono, keep, first, ◌==◌, string_eq, arith, subst, sym,
}
use nymstr.Transport.{ReplyTag}
use nymstr.Server.State.{World}
use nymstr.GroupServer.Tables.{Tables, MessageHash, remove_pending_user}
use nymstr.GroupServer.Tables.Cases.{
  add_user_cases, add_pending_user_cases, create_group_cases, add_group_member_cases,
  store_message_cases, check_hash_cases,
}
use nymstr.GroupServer.Tables.Queues.{
  store_key_package, store_welcome, remove_welcome, buffer_commit, cleanup_old_commits,
  cleanup_old_message_hashes, find_hash, is_old,
}
use nymstr.GroupServer.State.{GroupEnv, GroupServer}
use nymstr.GroupServer.Messages.{dedup_hash}
use nymstr.GroupServer.Steps.{Step}
use nymstr.GroupServer.Steps.Process.{run, run-closed}

module _ (hash : String) (row : MessageHash) where
  abbrev pub Has : Tables → Type 0
  Has t = find_hash hash t.recent_message_hashes ≡ some row

  stays-append :
      (l : List MessageHash) (x : MessageHash)
      → find_hash hash l ≡ some row
      → find_hash hash (l ++ x ∷ []) ≡ some row
  unfolding find_hash first
  stays-append [] x h = absurd (cc)
  stays-append (y ∷ l) x h = ground (arith, stays-append l x)

  row_first :
      (now : ℕ) (y : MessageHash) (l : List MessageHash)
      → now ≤ row.created_at + 600
      → (y.hash == hash) ≡ true
      → find_hash hash (y ∷ l) ≡ some row
      → find_hash hash (keep (λ h. not (is_old now 600 h)) (y ∷ l)) ≡ some row
  unfolding find_hash first keep is_old
  row_first now y l young e h =
      let same : some y ≡ some row = ground arith in
      let is_row : y ≡ row = ap (λ o. or_else o row) same in
      let later : is_old now 600 y ≡ false =
        subst (λ x. is_old now 600 x ≡ false) (sym is_row) (ground arith) in
      rw later (rw e same)

  stays-keep :
      (now : ℕ) (l : List MessageHash)
      → now ≤ row.created_at + 600
      → find_hash hash l ≡ some row
      → find_hash hash (keep (λ h. not (is_old now 600 h)) l) ≡ some row
  unfolding find_hash first keep is_old
  stays-keep now [] young h = absurd (cc)
  stays-keep now (y ∷ l) young h = elim (Bool-cases (y.hash == hash)) [
    | inl e ↦ row_first now y l young e h
    | inr e ↦ ground (arith, stays-keep now l young)
  ]

  Has-either : (t u v : Tables) → (u ≡ t) ⊎ (u ≡ v) → (Has t → Has v) → Has t → Has u
  Has-either t u v (inl e) f h = subst Has (sym e) h
  Has-either t u v (inr e) f h = subst Has (sym e) (f h)

  -- A step within ten minutes of the row leaves it.
  Step-Has :
      (g : GroupEnv) (w : World)
      → w.unix ≤ row.created_at + 600
      → (t u : Tables) → Step g w t u
      → Has t
      → Has u
  unfolding remove_pending_user store_key_package store_welcome remove_welcome buffer_commit
      cleanup_old_commits cleanup_old_message_hashes
  Step-Has g w young t _ (Step.admit_admin r s k) =
      Has-either t _ _ (add_user_cases t r.username r.public_key) (λ h. h)
  Step-Has g w young t _ (Step.found_group r s k) =
      Has-either t _ _ (create_group_cases t g.group_id g.group_id r.username true true) (λ h. h)
  Step-Has g w young t _ (Step.join_admin r s k) =
      Has-either t _ _ (add_group_member_cases t g.group_id r.username) (λ h. h)
  Step-Has g w young t _ (Step.apply r s k) =
      Has-either t _ _ (add_pending_user_cases t r.username r.public_key) (λ h. h)
  Step-Has g w young t _ (Step.pack r kp s k) = λ h. h
  Step-Has g w young t _ (Step.admit r key s k) =
      Has-either t _ _ (add_user_cases t r.username key) (λ h. h)
  Step-Has g w young t _ (Step.settle r s) = λ h. h
  Step-Has g w young t _ (Step.join r s) =
      Has-either t _ _ (add_group_member_cases t g.group_id r.username) (λ h. h)
  Step-Has g w young t _ (Step.mark username ciphertext s) =
      Has-either t _ _ (check_hash_cases t (dedup_hash g username ciphertext) w.unix)
        (stays-append t.recent_message_hashes _)
  Step-Has g w young t _ (Step.post username ciphertext s) =
      Has-either t _ _ (store_message_cases t username ciphertext (g.env.rfc3339 w.unix)) (λ h. h)
  Step-Has g w young t _ Step.forget = stays-keep w.unix t.recent_message_hashes young
  Step-Has g w young t _ (Step.welcome target group_id bytes s) = λ h. h
  Step-Has g w young t _ (Step.take_welcome username group_id signature a) = λ h. h
  Step-Has g w young t _ (Step.commit sender group_id epoch bytes s) = λ h. h
  Step-Has g w young t _ (Step.trim_commits sender group_id epoch s) = λ h. h

  -- Messages of the next ten minutes leave the hash.
  pub run-Has :
      (g : GroupEnv) (ms : List (World × Option ReplyTag × List ℕ))
      → All (λ m. m.0.unix ≤ row.created_at + 600) ms
      → (s : GroupServer) → Has s.tables
      → Has (run g s ms).tables
  run-Has g ms young =
      run-closed g (λ t u. Has t → Has u) (λ t h. h) (λ t u v p q h. q (p h)) ms
        (All-mono _ _ (λ m y t u p. Step-Has g (m.0) y t u p) ms young)
