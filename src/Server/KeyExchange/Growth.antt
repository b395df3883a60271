-- ===== src/Server/KeyExchange/Growth.antt =====
-- The key package handlers only add to the queue.
use nymstr.Prelude.{String, Option, arith, take-length}
use nymstr.Json.{Value}
use nymstr.Transport.{ReplyTag}
use nymstr.Db.Pending.Laws.{take-queued_with}
use nymstr.Server.State.{Env, World, Server}
use nymstr.Server.State.Queue.{Grown}
use nymstr.Server.KeyExchange.Proofs.{consume-accounts}
use nymstr.Server.KeyExchange.{
  handle_publish_key_package, handle_fetch_kp_challenge, handle_fetch_key_package,
}

module _ (env : Env) (w : World) where
  pub publish-Grown :
      (s : Server) (v : Value) (t : ReplyTag) (u : String) (sig : Option String)
      → Grown s (handle_publish_key_package env w s v t u sig)
  unfolding handle_publish_key_package
  publish-Grown s v t u sig = ground (arith, take-length s.db.pending_messages)

  pub kp_challenge-Grown :
      (s : Server) (v : Value) (t : ReplyTag) → Grown s (handle_fetch_kp_challenge env w s v t)
  unfolding handle_fetch_kp_challenge
  kp_challenge-Grown s v t = grind (arith, take-queued_with, take-length)

  pub fetch_key_package-Grown :
      (s : Server) (v : Value) (t : ReplyTag) → Grown s (handle_fetch_key_package env w s v t)
  unfolding handle_fetch_key_package
  fetch_key_package-Grown s v t = grind (arith, consume-accounts, take-length)
