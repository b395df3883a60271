-- ===== src/Server/Accounts/Growth.antt =====
-- The account handlers leave the groups and the queue alone.
use nymstr.Prelude.{String, Option, none, some, refl, arith}
use nymstr.Json.{Value}
use nymstr.Transport.{ReplyTag}
use nymstr.Server.State.{Env, World, Server}
use nymstr.Server.State.Queue.{Still}
use nymstr.Server.Accounts.{
  handle_register_unified, handle_registration_response_unified, handle_login_unified,
  handle_login_response_unified, confirm_registration, confirm_login,
}

module _ (env : Env) (w : World) (s : Server) (t : ReplyTag) where
  pub register-Still : (v : Value) (f : String) → Still s (handle_register_unified env w s v t f)
  unfolding handle_register_unified
  register-Still v f = ground arith

  pub registration_response-Still :
      (sig : Option String) → Still s (handle_registration_response_unified env w s t sig)
  unfolding handle_registration_response_unified confirm_registration
  registration_response-Still none = (refl, refl, refl)
  registration_response-Still (some sig) = ground arith

  pub login-Still : (v : Value) (f : String) → Still s (handle_login_unified env w s v t f)
  unfolding handle_login_unified
  login-Still v f = ground arith

  pub login_response-Still :
      (sig : Option String) → Still s (handle_login_response_unified env w s t sig)
  unfolding handle_login_response_unified confirm_login
  login_response-Still none = (refl, refl, refl)
  login_response-Still (some sig) = ground arith
