-- ===== src/Server/Delivery/Packages.antt =====
-- The relaying handlers leave the key packages alone.
use nymstr.Prelude.{String, Option, none, some, ◌≡◌, refl, arith}
use nymstr.Json.{Value}
use nymstr.Transport.{ReplyTag}
use nymstr.Db.Tables.{User}
use nymstr.Server.State.{Env, World, Server}
use nymstr.Server.Delivery.{
  relay_with_persistence, relay_sealed_with_persistence, relay_or_report, verify_send,
  handle_send_unified, handle_sealed_send, handle_key_package_request_unified,
  handle_key_package_response_unified, handle_group_join_response_unified,
}

-- Handling has not touched the key packages.
abbrev pub KeepsPackages : Server → Server → Type 0
KeepsPackages s s' = s'.db.key_packages ≡ s.db.key_packages

module _ (env : Env) (w : World) where
  relay-KeepsPackages :
      (s : Server) (r f : String) (v : Value) (a : String)
      → KeepsPackages s (relay_with_persistence env w s r f v a).1
  unfolding relay_with_persistence
  relay-KeepsPackages s r f v a = ground arith

  relay_sealed-KeepsPackages :
      (s : Server) (r : String) (v : Value)
      → KeepsPackages s (relay_sealed_with_persistence env w s r v).1
  unfolding relay_sealed_with_persistence
  relay_sealed-KeepsPackages s r v = ground arith

  verify_send-KeepsPackages :
      (s : Server) (u : User) (v : Value) (t : ReplyTag) (f : String) (r sig : Option String)
      → KeepsPackages s (verify_send env w s u v t f r sig)
  unfolding verify_send
  verify_send-KeepsPackages s u v t f r none = ground arith
  verify_send-KeepsPackages s u v t f r (some sig) = grind (arith, relay-KeepsPackages)

  pub send-KeepsPackages :
      (s : Server) (v : Value) (t : ReplyTag) (f : String) (r sig : Option String)
      → KeepsPackages s (handle_send_unified env w s v t f r sig)
  unfolding handle_send_unified
  send-KeepsPackages s v t f r sig = grind (arith, verify_send-KeepsPackages)

  pub sealed-KeepsPackages :
      (s : Server) (v : Value) (t : ReplyTag) (r : Option String)
      → KeepsPackages s (handle_sealed_send env w s v t r)
  unfolding handle_sealed_send
  sealed-KeepsPackages s v t r = grind (arith, relay_sealed-KeepsPackages)

  relay_or_report-KeepsPackages :
      (s : Server) (v : Value) (t : ReplyTag) (f r a b c : String)
      → KeepsPackages s (relay_or_report env w s v t f r a b c)
  unfolding relay_or_report
  relay_or_report-KeepsPackages s v t f r a b c = ground (arith, relay-KeepsPackages s r f v a)

  pub key_package_request-KeepsPackages :
      (s : Server) (v : Value) (t : ReplyTag) (f : String) (r : Option String)
      → KeepsPackages s (handle_key_package_request_unified env w s v t f r)
  unfolding handle_key_package_request_unified
  key_package_request-KeepsPackages s v t f none = refl
  key_package_request-KeepsPackages s v t f (some r) = relay_or_report-KeepsPackages s v t f r _ _ _

  pub key_package_response-KeepsPackages :
      (s : Server) (v : Value) (t : ReplyTag) (f : String) (r : Option String)
      → KeepsPackages s (handle_key_package_response_unified env w s v t f r)
  unfolding handle_key_package_response_unified
  key_package_response-KeepsPackages s v t f none = refl
  key_package_response-KeepsPackages s v t f (some r) =
      relay_or_report-KeepsPackages s v t f r _ _ _

  pub group_join_response-KeepsPackages :
      (s : Server) (v : Value) (t : ReplyTag) (f : String) (r : Option String)
      → KeepsPackages s (handle_group_join_response_unified env w s v t f r)
  unfolding handle_group_join_response_unified
  group_join_response-KeepsPackages s v t f none = refl
  group_join_response-KeepsPackages s v t f (some r) = relay_or_report-KeepsPackages s v t f r _ _ _
