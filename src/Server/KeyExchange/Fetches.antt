-- ===== src/Server/KeyExchange/Fetches.antt =====
-- Fetching a key package takes one only for a current challenge and the work.
use nymstr.Prelude.{
  ℕ, String, length, true, ◌≡◌, ◌<◌, refl, ◌⊎◌, inl, inr, arith, Bool-cases, Option-cases, ap, ◌∙◌,
}
use Prim.Native.String.{◌++◌}
use nymstr.Json.{Value}
use nymstr.Transport.{ReplyTag}
use nymstr.Db.Tables.{Db, ok}
use nymstr.Db.KeyPackages.{live_packages, delete_package, consume_key_package, count_key_packages}
use nymstr.Server.State.{Env, World, Server, queried}
use nymstr.Db.Tables.{Result-cases}
use nymstr.Db.KeyPackages.Holdback.{consume_some, consume_other}
use nymstr.Json.{get_str}
use nymstr.Server.KeyExchange.{
  consume, check_work, is_current, has_leading_zero_bits, difficulty, check_challenge,
  handle_fetch_key_package,
}
use nymstr.Server.KeyExchange.Packages.{PackageChange, PackageChange-from}

module _ (env : Env) (w : World) where
  consume_cases :
      (db : Db) (user : String)
      → ((consume_key_package w.unix db user).1.key_packages ≡ db.key_packages)
        ⊎ ((id : ℕ) × (1 < length (live_packages w.unix user db.key_packages))
            × ((consume_key_package w.unix db user).1.key_packages
                ≡ delete_package id db.key_packages))
  consume_cases db user = elim (Result-cases (consume_key_package w.unix db user).0) [
    | inl e ↦ inl (consume_other w.unix db user (inr e))
    | inr (r, e) ↦ elim (Option-cases r) [
      | inl n ↦ inl (consume_other w.unix db user (inl (e ∙ ap ok n)))
      | inr (k, n) ↦
          let (oldest, gone, many) = consume_some w.unix db user k (e ∙ ap ok n) in
          inr (k.id, many, gone)
    ]
  ]

  -- Where a fetch gets as far as the database.
  consume_step :
      (s : Server) (t : ReplyTag) (user : String)
      → (consume env w s t user).db.key_packages
        ≡ (consume_key_package w.unix s.db user).1.key_packages
  unfolding consume
  consume_step s t user = ground arith

  check_work_cases :
      (s : Server) (t : ReplyTag) (user challenge nonce : String) (count : ℕ)
      → ((check_work env w s t user challenge nonce count).db.key_packages ≡ s.db.key_packages)
        ⊎ ((has_leading_zero_bits (env.sha256 (user ++ challenge ++ nonce)) (difficulty count)
              ≡ true)
            × ((check_work env w s t user challenge nonce count).db.key_packages
                ≡ (consume_key_package w.unix s.db user).1.key_packages))
  unfolding check_work
  check_work_cases s t user challenge nonce count =
      elim (Bool-cases
        (has_leading_zero_bits (env.sha256 (user ++ challenge ++ nonce)) (difficulty count))) [
          | inl good ↦ inr (good, rw (good, check_work) (consume_step s t user))
          | inr bad ↦ inl (rw (bad, check_work) refl)
        ]

  count_length :
      (db : Db) (user : String) (count : ℕ)
      → count_key_packages w.unix db user ≡ ok count
      → count ≡ length (live_packages w.unix user db.key_packages)
  unfolding count_key_packages
  count_length db user count h = ground arith

  check_work-PackageChange :
      (s : Server) (t : ReplyTag) (user challenge nonce : String) (count : ℕ)
      → is_current env w user challenge ≡ true
      → count ≡ length (live_packages w.unix user s.db.key_packages)
      → PackageChange env w s (check_work env w s t user challenge nonce count)
  check_work-PackageChange s t user challenge nonce count current n =
      elim (check_work_cases s t user challenge nonce count) [
        | inl same ↦ PackageChange.kept same
        | inr (work, e) ↦ elim (consume_cases s.db user) [
          | inl same ↦ PackageChange.kept (e ∙ same)
          | inr (id, many, gone) ↦
              PackageChange.fetched user challenge nonce id current (rw n at work) many (e ∙ gone)
        ]
      ]

  check_challenge-PackageChange :
      (s : Server) (t : ReplyTag) (user challenge nonce : String)
      → PackageChange env w s (check_challenge env w s t user challenge nonce)
  unfolding check_challenge
  check_challenge-PackageChange s t user challenge nonce =
      elim (Bool-cases (is_current env w user challenge)) [
        | inr e ↦ PackageChange.kept (rw (check_challenge, e) refl)
        | inl e ↦ elim (Result-cases (count_key_packages w.unix s.db user)) [
          | inl n ↦ PackageChange.kept (rw (check_challenge, e, n) refl)
          | inr (count, n) ↦
              rw (check_challenge, e, n)
                (PackageChange-from env w s (queried s) _ refl refl (
                  check_work-PackageChange (queried s) t user challenge nonce count e
                    (count_length s.db user count n)))
        ]
      ]

  pub fetch-PackageChange :
      (s : Server) (v : Value) (t : ReplyTag)
      → PackageChange env w s (handle_fetch_key_package env w s v t)
  unfolding handle_fetch_key_package
  fetch-PackageChange s v t = elim (Option-cases (get_str "username" v)) [
    | inl e ↦ PackageChange.kept (rw (e, handle_fetch_key_package) refl)
    | inr (user, e) ↦ elim (Option-cases (get_str "challenge" v)) [
      | inl e' ↦ PackageChange.kept (rw (e, handle_fetch_key_package, e') refl)
      | inr (challenge, e') ↦ elim (Option-cases (get_str "nonce" v)) [
        | inl e'' ↦ PackageChange.kept (rw (e, handle_fetch_key_package, e', e'') refl)
        | inr (nonce, e'') ↦
            rw (e, handle_fetch_key_package, e', e'')
              (check_challenge-PackageChange s t user challenge nonce)
      ]
    ]
  ]
