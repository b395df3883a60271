-- ===== src/GroupServer/Tables/Cases.antt =====
-- The writing calls either add one row at the end or leave the tables.
use nymstr.Prelude.{
  ℕ, ◌+◌, String, Bool, true, List, [], ◌∷◌, ◌++◌, some, ◌≡◌, refl, ◌⊎◌, inl, inr, Bool-cases,
  arith, first, string_eq,
}
use nymstr.GroupServer.Tables.{
  Tables, exists, find_user, find_group, is_row, has_parents, add_user, create_group,
  add_group_member, add_pending_user,
}
use nymstr.GroupServer.Tables.Queues.{store_message, check_and_store_message_hash, find_hash}

module _ (t : Tables) where
  pub add_user_cases :
      (name key : String)
      → ((add_user name key t).1 ≡ t)
        ⊎ ((add_user name key t).1
            ≡ record t { users = t.users ++ record { username = name; public_key = key } ∷ [] })
  unfolding add_user
  add_user_cases name key = elim (Bool-cases (exists (find_user name t.users))) [
    | inl e ↦ inl (rw e refl)
    | inr e ↦ inr (rw e refl)
  ]

  pub add_pending_user_cases :
      (name key : String)
      → ((add_pending_user name key t).1 ≡ t)
        ⊎ ((add_pending_user name key t).1 ≡ record t {
          pending_users = t.pending_users ++ record { username = name; public_key = key } ∷ [];
        })
  unfolding add_pending_user
  add_pending_user_cases name key = elim (Bool-cases (exists (find_user name t.pending_users))) [
    | inl e ↦ inl (rw e refl)
    | inr e ↦ inr (rw e refl)
  ]

  pub create_group_cases :
      (id name admin : String) (p d : Bool)
      → ((create_group id name admin p d t).1 ≡ t)
        ⊎ ((create_group id name admin p d t).1 ≡ record t {
          groups =
              t.groups
              ++ record {
                group_id = id;
                group_name = name;
                admin = admin;
                is_public = p;
                is_discoverable = d;
              }
                ∷ [];
        })
  unfolding create_group
  create_group_cases id name admin p d = elim (Bool-cases (exists (find_group id t.groups))) [
    | inl e ↦ inl (rw e refl)
    | inr e ↦ inr (rw e refl)
  ]

  pub add_group_member_cases :
      (id name : String)
      → ((add_group_member id name t).1 ≡ t)
        ⊎ ((add_group_member id name t).1 ≡ record t {
          group_members = t.group_members ++ record { group_id = id; username = name } ∷ [];
        })
  unfolding add_group_member
  add_group_member_cases id name = elim (Bool-cases (is_row id name t.group_members)) [
    | inl e ↦ inl (rw e refl)
    | inr e ↦ elim (Bool-cases (has_parents id name t)) [
      | inl f ↦ inr (rw (e, f) refl)
      | inr f ↦ inl (rw (e, f) refl)
    ]
  ]

  pub store_message_cases :
      (sender ciphertext now : String)
      → ((store_message sender ciphertext now t).1 ≡ t)
        ⊎ ((store_message sender ciphertext now t).1 ≡ record t {
          messages =
              t.messages
              ++ record {
                id = t.next_message;
                sender = sender;
                ciphertext = ciphertext;
                timestamp = now;
              }
                ∷ [];
          next_message = t.next_message + 1;
        })
  unfolding store_message
  store_message_cases sender ciphertext now =
      elim (Bool-cases (exists (find_user sender t.users))) [
        | inl e ↦ inr (rw e refl)
        | inr e ↦ inl (rw e refl)
      ]

  pub check_hash_cases :
      (hash : String) (now : ℕ)
      → ((check_and_store_message_hash hash now t).1 ≡ t)
        ⊎ ((check_and_store_message_hash hash now t).1 ≡ record t {
          recent_message_hashes =
              t.recent_message_hashes ++ record { hash = hash; created_at = now } ∷ [];
        })
  unfolding check_and_store_message_hash
  check_hash_cases hash now = elim (Bool-cases (exists (find_hash hash t.recent_message_hashes))) [
    | inl e ↦ inl (rw e refl)
    | inr e ↦ inr (rw e refl)
  ]

-- What is found stays found when rows are added.
pub first-append-some {ℓ} :
    {A : Type ℓ} (p : A → Bool) (xs ys : List A) (x : A)
    → first p xs ≡ some x
    → first p (xs ++ ys) ≡ some x
unfolding first
first-append-some p [] ys x e = absurd (cc)
first-append-some p (y ∷ xs) ys x e = ground (arith, first-append-some p xs ys x)

pub exists-append {ℓ} :
    {A : Type ℓ} (p : A → Bool) (xs ys : List A)
    → exists (first p xs) ≡ true
    → exists (first p (xs ++ ys)) ≡ true
unfolding first
exists-append p [] ys e = absurd (cc)
exists-append p (y ∷ xs) ys e = ground (arith, exists-append p xs ys)
