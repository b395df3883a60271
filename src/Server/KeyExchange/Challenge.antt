-- ===== src/Server/KeyExchange/Challenge.antt =====
-- How long a challenge is good for, and how hard the work is.
use nymstr.Prelude.{
  ℕ, ◌+◌, ◌-◌, ◌/◌, ◌≤◌, ◌<◌, String, true, ==_iff, ◌≡◌, ap, arith, string_eq, inl, inr, ◌⊎◌,
}
use nymstr.Server.State.{Env, World}
use nymstr.Server.KeyExchange.{challenge_for, is_current}

module _ (env : Env) (w w' : World) (user : String) where
  fresh_window : (a b : ℕ) → a ≤ b → b < a + 300 → (b / 300 ≡ a / 300) ⊎ (b / 300 - 1 ≡ a / 300)
  fresh_window a b h g = omega arith

  -- A challenge is taken for at least 300 seconds after it was issued.
  pub is_current-challenge_for :
      w.unix ≤ w'.unix
      → w'.unix < w.unix + 300
      → is_current env w' user (challenge_for env w user (w.unix / 300)) ≡ true
  unfolding is_current
  is_current-challenge_for h g = elim (fresh_window w.unix w'.unix h g) [
    | inl e ↦ ground (
      arith,
      ap (λ n. challenge_for env w user n) e,
      ==_iff (challenge_for env w user (w'.unix / 300)) (challenge_for env w user (w.unix / 300)),
    )
    | inr e ↦ ground (
      arith,
      ap (λ n. challenge_for env w user n) e,
      ==_iff (challenge_for env w user (w'.unix / 300 - 1))
          (challenge_for env w user (w.unix / 300)),
    )
  ]

  -- The two challenges that the check recomputes.
  accepted_window :
      is_current env w' user (challenge_for env w user (w.unix / 300)) ≡ true
      → (challenge_for env w user (w'.unix / 300) ≡ challenge_for env w user (w.unix / 300))
        ⊎ (challenge_for env w user (w'.unix / 300 - 1) ≡ challenge_for env w user (w.unix / 300))
  unfolding is_current
  accepted_window h = ground (
    arith,
    ==_iff (challenge_for env w user (w'.unix / 300)) (challenge_for env w user (w.unix / 300)),
    ==_iff (challenge_for env w user (w'.unix / 300 - 1)) (challenge_for env w user (w.unix / 300)),
  )

  old_window : (a b : ℕ) → (b / 300 ≡ a / 300) ⊎ (b / 300 - 1 ≡ a / 300) → b < a + 600
  old_window a b h = omega arith

  -- A challenge is not taken 600 seconds after it was issued or later, if its HMAC is not by chance
  -- that of the window of the check or of the one before.
  pub is_current-expires :
      (challenge_for env w user (w'.unix / 300) ≡ challenge_for env w user (w.unix / 300)
        → w'.unix / 300 ≡ w.unix / 300)
      → (challenge_for env w user (w'.unix / 300 - 1) ≡ challenge_for env w user (w.unix / 300)
          → w'.unix / 300 - 1 ≡ w.unix / 300)
      → is_current env w' user (challenge_for env w user (w.unix / 300)) ≡ true
      → w'.unix < w.unix + 600
  is_current-expires now before taken =
      old_window w.unix w'.unix
        (elim (accepted_window taken) [ inl e ↦ inl (now e) | inr e ↦ inr (before e) ])
