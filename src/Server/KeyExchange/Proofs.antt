-- ===== src/Server/KeyExchange/Proofs.antt =====
-- The key package handlers leave the accounts and the handshakes alone.
use nymstr.Prelude.{ℕ, String, Option, ◌≡◌, arith}
use nymstr.Json.{Value}
use nymstr.Transport.{ReplyTag}
use nymstr.Db.Tables.{Db}
use nymstr.Db.KeyPackages.{consume_key_package}
use nymstr.Server.State.{Env, World, Server}
use nymstr.Server.State.Quiet.{Quiet}
use nymstr.Server.KeyExchange.{
  handle_publish_key_package, handle_fetch_kp_challenge, handle_fetch_key_package,
}

pub consume-accounts :
    (now : ℕ) (db : Db) (user : String)
    → ((consume_key_package now db user).1.users ≡ db.users)
      × ((consume_key_package now db user).1.groups ≡ db.groups)
      × ((consume_key_package now db user).1.pending_messages ≡ db.pending_messages)
unfolding consume_key_package
consume-accounts now db user = ground arith

module _ (env : Env) (w : World) where
  pub publish-Quiet :
      (s : Server) (v : Value) (t : ReplyTag) (u : String) (sig : Option String)
      → Quiet s (handle_publish_key_package env w s v t u sig)
  unfolding handle_publish_key_package
  publish-Quiet s v t u sig = ground arith

  pub kp_challenge-Quiet :
      (s : Server) (v : Value) (t : ReplyTag) → Quiet s (handle_fetch_kp_challenge env w s v t)
  unfolding handle_fetch_kp_challenge
  kp_challenge-Quiet s v t = ground arith

  pub fetch_key_package-Quiet :
      (s : Server) (v : Value) (t : ReplyTag) → Quiet s (handle_fetch_key_package env w s v t)
  unfolding handle_fetch_key_package
  fetch_key_package-Quiet s v t = grind (arith, consume-accounts)
