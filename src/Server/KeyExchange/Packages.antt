-- ===== src/Server/KeyExchange/Packages.antt =====
-- How handling a message may change the published key packages, each change with its authority.
use nymstr.Prelude.{
  ℕ, ◌+◌, String, Option, some, none, [], ◌∷◌, ◌++◌ as append, keep, not, ltb, length, true, ◌≡◌,
  ◌<◌, refl, ◌⊎◌, inl, inr, arith, Bool-cases, Option-cases, or_else, ◌∙◌,
}
use Prim.Native.String.{◌++◌}
use nymstr.Json.{Value}
use nymstr.Transport.{ReplyTag}
use nymstr.Db.Tables.{User, KeyPackage, fails}
use nymstr.Db.Users.{find_user, get_user_by_username}
use nymstr.Db.KeyPackages.{live_packages, delete_package, stored_packages}
use nymstr.Server.State.{Env, World, Server, queried}
use nymstr.Json.{get_str}
use nymstr.Server.KeyExchange.{
  store, store_fields, publish_text, is_current, has_leading_zero_bits, difficulty, verify_publish,
  handle_publish_key_package, handle_fetch_kp_challenge,
}

pub data PackageChange (env : Env) (w : World) (s s' : Server) : Type 0 where
  kept : s'.db.key_packages ≡ s.db.key_packages → PackageChange env w s s'
  -- A package whose owner signed it.
  published :
      (u : User) (user signature : String) (k : KeyPackage)
      → find_user user s.db.users ≡ some u
      → env.verify_signature u.public_key (publish_text env w user k.key_package_b64) signature
        ≡ true
      → k.username ≡ user
      → s'.db.key_packages ≡ append s.db.key_packages (k ∷ [])
      → PackageChange env w s s'
  -- A package that was asked for with a current challenge and the work for it, of a user who has another one.
  fetched :
      (user challenge nonce : String) (id : ℕ)
      → is_current env w user challenge ≡ true
      → has_leading_zero_bits
          (env.sha256 (user ++ challenge ++ nonce))
          (difficulty (length (live_packages w.unix user s.db.key_packages)))
        ≡ true
      → 1 < length (live_packages w.unix user s.db.key_packages)
      → s'.db.key_packages ≡ delete_package id s.db.key_packages
      → PackageChange env w s s'
  -- The expired ones go.
  swept :
      s'.db.key_packages ≡ keep (λ k. not (ltb k.expires_at w.unix)) s.db.key_packages
      → PackageChange env w s s'

-- What holds from a server with the same users and packages.
pub PackageChange-from :
    (env : Env) (w : World) (s r s' : Server)
    → r.db.users ≡ s.db.users
    → r.db.key_packages ≡ s.db.key_packages
    → PackageChange env w r s'
    → PackageChange env w s s'
PackageChange-from env w s r s' u p (PackageChange.kept e) = PackageChange.kept (e ∙ p)
PackageChange-from env w s r s' u p (PackageChange.published x name sig k f v o e) =
    PackageChange.published x name sig k (rw (← u) f) v o (rw (← p) e)
PackageChange-from env w s r s' u p (PackageChange.fetched name c n id v l m e) =
    PackageChange.fetched name c n id v (rw (← p) l) (rw (← p) m) (rw (← p) e)
PackageChange-from env w s r s' u p (PackageChange.swept e) = PackageChange.swept (rw (← p) e)

module _ (env : Env) (w : World) where
  pub kp_challenge-packages :
      (s : Server) (v : Value) (t : ReplyTag)
      → (handle_fetch_kp_challenge env w s v t).db.key_packages ≡ s.db.key_packages
  unfolding handle_fetch_kp_challenge
  kp_challenge-packages s v t = ground arith

  publish_cases :
      (s : Server) (v : Value) (t : ReplyTag) (user : String) (signature : Option String)
      → ((handle_publish_key_package env w s v t user signature).db.key_packages
          ≡ s.db.key_packages)
        ⊎ ((u : User) × (find_user user s.db.users ≡ some u)
            × (handle_publish_key_package env w s v t user signature
                ≡ verify_publish env w (queried s) u v t user signature))
  unfolding handle_publish_key_package get_user_by_username
  publish_cases s v t user signature = ground arith

  store_step :
      (s : Server) (t : ReplyTag) (user kp sig fp : String)
      → (store env w s t user kp sig fp).db.key_packages
        ≡ stored_packages w.unix s.db user kp sig fp
  unfolding store
  store_step s t user kp sig fp = ground arith

  store_cases :
      (s : Server) (t : ReplyTag) (user kp sig fp : String)
      → ((store env w s t user kp sig fp).db.key_packages ≡ s.db.key_packages)
        ⊎ ((k : KeyPackage) × (k.username ≡ user)
            × (k.key_package_b64 ≡ kp)
            × ((store env w s t user kp sig fp).db.key_packages
                ≡ append s.db.key_packages (k ∷ [])))
  unfolding stored_packages
  store_cases s t user kp sig fp = elim (Bool-cases (fails s.db.faults)) [
    | inl e ↦ inl (store_step s t user kp sig fp ∙ rw e refl)
    | inr e ↦ inr (
      record {
        id = s.db.next_id;
        username = user;
        key_package_b64 = kp;
        pgp_signature = sig;
        pgp_fingerprint = fp;
        created_at = w.unix;
        expires_at = w.unix + 2592000;
      },
      refl,
      refl,
      store_step s t user kp sig fp ∙ rw e refl,
    )
  ]

  store_fields_cases :
      (s : Server) (v : Value) (t : ReplyTag) (user : String)
      → ((store_fields env w s v t user).db.key_packages ≡ s.db.key_packages)
        ⊎ ((k : KeyPackage) × (k.username ≡ user)
            × (k.key_package_b64 ≡ or_else (get_str "keyPackage" v) "")
            × ((store_fields env w s v t user).db.key_packages ≡ append s.db.key_packages (k ∷ [])))
  unfolding store_fields
  store_fields_cases s v t user = elim (Option-cases (get_str "keyPackage" v)) [
    | inl e ↦ inl (rw (e, store_fields) refl)
    | inr (kp, e) ↦ elim (Option-cases (get_str "pgpSignature" v)) [
      | inl e' ↦ inl (rw (e, store_fields, e') refl)
      | inr (sig, e') ↦ elim (Option-cases (get_str "pgpFingerprint" v)) [
        | inl e'' ↦ inl (rw (e, store_fields, e', e'') refl)
        | inr (fp, e'') ↦ rw (e, store_fields, e', e'') (store_cases s t user kp sig fp)
      ]
    ]
  ]

  verify_publish-PackageChange :
      (s : Server) (u : User) (v : Value) (t : ReplyTag) (user : String) (signature : Option String)
      → find_user user s.db.users ≡ some u
      → PackageChange env w s (verify_publish env w s u v t user signature)
  unfolding verify_publish
  verify_publish-PackageChange s u v t user none found = PackageChange.kept refl
  verify_publish-PackageChange s u v t user (some sig) found =
      elim (Bool-cases (
        env.verify_signature u.public_key
          (publish_text env w user (or_else (get_str "keyPackage" v) "")) sig)) [
            | inl good ↦ elim (store_fields_cases s v t user) [
              | inl same ↦ PackageChange.kept (rw (good, verify_publish) same)
              | inr (k, owner, kp, more) ↦
                  PackageChange.published u user sig k found (rw kp good) owner
                    (rw (good, verify_publish) more)
            ]
            | inr bad ↦ PackageChange.kept (rw (bad, verify_publish) refl)
          ]

  pub publish-PackageChange :
      (s : Server) (v : Value) (t : ReplyTag) (user : String) (signature : Option String)
      → PackageChange env w s (handle_publish_key_package env w s v t user signature)
  publish-PackageChange s v t user signature = elim (publish_cases s v t user signature) [
    | inl same ↦ PackageChange.kept same
    | inr (u, found, e) ↦ rw e (
        PackageChange-from env w s (queried s) _ refl refl
          (verify_publish-PackageChange (queried s) u v t user signature found))
  ]
