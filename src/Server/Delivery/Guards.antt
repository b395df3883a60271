-- ===== src/Server/Delivery/Guards.antt =====
-- The relaying handlers leave the accounts and the handshakes alone.
use nymstr.Prelude.{String, Option, none, some, arith}
use nymstr.Json.{Value}
use nymstr.Transport.{ReplyTag}
use nymstr.Db.Tables.{User}
use nymstr.Server.State.{Env, World, Server}
use nymstr.Server.State.Quiet.{Quiet}
use nymstr.Server.Delivery.{
  relay_with_persistence, relay_sealed_with_persistence, relay_or_report, verify_send,
  handle_send_unified, handle_sealed_send, handle_key_package_request_unified,
  handle_key_package_response_unified, handle_group_join_response_unified,
}

module _ (env : Env) (w : World) where
  relay-Quiet :
      (s : Server) (r f : String) (v : Value) (a : String)
      → Quiet s (relay_with_persistence env w s r f v a).1
  unfolding relay_with_persistence
  relay-Quiet s r f v a = ground arith

  relay_sealed-Quiet :
      (s : Server) (r : String) (v : Value) → Quiet s (relay_sealed_with_persistence env w s r v).1
  unfolding relay_sealed_with_persistence
  relay_sealed-Quiet s r v = ground arith

  verify_send-Quiet :
      (s : Server) (u : User) (v : Value) (t : ReplyTag) (f : String) (r sig : Option String)
      → Quiet s (verify_send env w s u v t f r sig)
  unfolding verify_send
  verify_send-Quiet s u v t f r none = ground arith
  verify_send-Quiet s u v t f r (some sig) = grind (arith, relay-Quiet)

  pub send-Quiet :
      (s : Server) (v : Value) (t : ReplyTag) (f : String) (r sig : Option String)
      → Quiet s (handle_send_unified env w s v t f r sig)
  unfolding handle_send_unified
  send-Quiet s v t f r sig = grind (arith, verify_send-Quiet)

  pub sealed-Quiet :
      (s : Server) (v : Value) (t : ReplyTag) (r : Option String)
      → Quiet s (handle_sealed_send env w s v t r)
  unfolding handle_sealed_send
  sealed-Quiet s v t r = grind (arith, relay_sealed-Quiet)

  relay_or_report-Quiet :
      (s : Server) (v : Value) (t : ReplyTag) (f r a b c : String)
      → Quiet s (relay_or_report env w s v t f r a b c)
  unfolding relay_or_report
  relay_or_report-Quiet s v t f r a b c = ground (arith, relay-Quiet s r f v a)

  pub key_package_request-Quiet :
      (s : Server) (v : Value) (t : ReplyTag) (f : String) (r : Option String)
      → Quiet s (handle_key_package_request_unified env w s v t f r)
  unfolding handle_key_package_request_unified
  key_package_request-Quiet s v t f none = ground arith
  key_package_request-Quiet s v t f (some r) = relay_or_report-Quiet s v t f r _ _ _

  pub key_package_response-Quiet :
      (s : Server) (v : Value) (t : ReplyTag) (f : String) (r : Option String)
      → Quiet s (handle_key_package_response_unified env w s v t f r)
  unfolding handle_key_package_response_unified
  key_package_response-Quiet s v t f none = ground arith
  key_package_response-Quiet s v t f (some r) = relay_or_report-Quiet s v t f r _ _ _

  pub group_join_response-Quiet :
      (s : Server) (v : Value) (t : ReplyTag) (f : String) (r : Option String)
      → Quiet s (handle_group_join_response_unified env w s v t f r)
  unfolding handle_group_join_response_unified
  group_join_response-Quiet s v t f none = ground arith
  group_join_response-Quiet s v t f (some r) = relay_or_report-Quiet s v t f r _ _ _
