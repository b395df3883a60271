-- ===== src/Server/Delivery/Growth.antt =====
-- The relaying handlers only add to the queue.
use nymstr.Prelude.{String, Option, none, some, arith, take-length}
use nymstr.Json.{Value}
use nymstr.Transport.{ReplyTag}
use nymstr.Db.Tables.{User}
use nymstr.Db.Pending.Laws.{take-queued_with}
use nymstr.Server.State.{Env, World, Server}
use nymstr.Server.State.Queue.{Grown}
use nymstr.Server.Delivery.{
  relay_with_persistence, relay_sealed_with_persistence, relay_or_report, verify_send,
  handle_send_unified, handle_sealed_send, handle_key_package_request_unified,
  handle_key_package_response_unified, handle_group_join_response_unified,
}

module _ (env : Env) (w : World) where
  relay-Grown :
      (s : Server) (r f : String) (v : Value) (a : String)
      → Grown s (relay_with_persistence env w s r f v a).1
  unfolding relay_with_persistence
  relay-Grown s r f v a = grind (arith, take-queued_with, take-length)

  relay_sealed-Grown :
      (s : Server) (r : String) (v : Value) → Grown s (relay_sealed_with_persistence env w s r v).1
  unfolding relay_sealed_with_persistence
  relay_sealed-Grown s r v = grind (arith, take-queued_with, take-length)

  verify_send-Grown :
      (s : Server) (u : User) (v : Value) (t : ReplyTag) (f : String) (r sig : Option String)
      → Grown s (verify_send env w s u v t f r sig)
  unfolding verify_send
  verify_send-Grown s u v t f r none = grind (arith, take-length)
  verify_send-Grown s u v t f r (some sig) = grind (arith, relay-Grown, take-length)

  pub send-Grown :
      (s : Server) (v : Value) (t : ReplyTag) (f : String) (r sig : Option String)
      → Grown s (handle_send_unified env w s v t f r sig)
  unfolding handle_send_unified
  send-Grown s v t f r sig = grind (arith, verify_send-Grown, take-length)

  pub sealed-Grown :
      (s : Server) (v : Value) (t : ReplyTag) (r : Option String)
      → Grown s (handle_sealed_send env w s v t r)
  unfolding handle_sealed_send
  sealed-Grown s v t r = grind (arith, relay_sealed-Grown, take-length)

  relay_or_report-Grown :
      (s : Server) (v : Value) (t : ReplyTag) (f r a b c : String)
      → Grown s (relay_or_report env w s v t f r a b c)
  unfolding relay_or_report
  relay_or_report-Grown s v t f r a b c = ground (arith, relay-Grown s r f v a)

  pub key_package_request-Grown :
      (s : Server) (v : Value) (t : ReplyTag) (f : String) (r : Option String)
      → Grown s (handle_key_package_request_unified env w s v t f r)
  unfolding handle_key_package_request_unified
  key_package_request-Grown s v t f none = grind (arith, take-length)
  key_package_request-Grown s v t f (some r) = relay_or_report-Grown s v t f r _ _ _

  pub key_package_response-Grown :
      (s : Server) (v : Value) (t : ReplyTag) (f : String) (r : Option String)
      → Grown s (handle_key_package_response_unified env w s v t f r)
  unfolding handle_key_package_response_unified
  key_package_response-Grown s v t f none = grind (arith, take-length)
  key_package_response-Grown s v t f (some r) = relay_or_report-Grown s v t f r _ _ _

  pub group_join_response-Grown :
      (s : Server) (v : Value) (t : ReplyTag) (f : String) (r : Option String)
      → Grown s (handle_group_join_response_unified env w s v t f r)
  unfolding handle_group_join_response_unified
  group_join_response-Grown s v t f none = grind (arith, take-length)
  group_join_response-Grown s v t f (some r) = relay_or_report-Grown s v t f r _ _ _
