-- ===== src/Server/Legacy/Growth.antt =====
-- The legacy handlers leave the groups and the queue alone.
use nymstr.Prelude.{String, Option, none, some, arith}
use nymstr.Json.{Value}
use nymstr.Transport.{ReplyTag}
use nymstr.Server.State.{Env, World, Server}
use nymstr.Server.State.Queue.{Still}
use nymstr.Db.Tables.{User}
use nymstr.Server.Legacy.{
  handle_register, handle_registration_response, handle_login, handle_login_response,
  confirm_registration, confirm_login,
}
use nymstr.Server.Legacy.Chat.{
  handle_send, handle_create_group, handle_send_group, handle_send_invite, handle_update,
  send_parsed, verify_content,
}

module _ (env : Env) (w : World) (s : Server) (t : ReplyTag) where
  pub register-Still : (v : Value) → Still s (handle_register env w s v t)
  unfolding handle_register
  register-Still v = ground arith

  pub registration_response-Still : (v : Value) → Still s (handle_registration_response env w s v t)
  unfolding handle_registration_response confirm_registration
  registration_response-Still v = ground arith

  pub login-Still : (v : Value) → Still s (handle_login env w s v t)
  unfolding handle_login
  login-Still v = ground arith

  pub login_response-Still : (v : Value) → Still s (handle_login_response env w s v t)
  unfolding handle_login_response confirm_login
  login_response-Still v = ground arith

  pub stub-Still :
      Still s (handle_create_group env w s t)
      × Still s (handle_send_group env w s t)
      × Still s (handle_send_invite env w s t)
      × Still s (handle_update env w s t)
  unfolding handle_create_group handle_send_group handle_send_invite handle_update
  stub-Still = ground arith

module _ (env : Env) (w : World) where
  verify_content-Still :
      (s : Server) (o : Option User) (t : ReplyTag) (text sig from to : String) (v : Value)
      → Still s (verify_content env w s o t text sig from to v)
  unfolding verify_content
  verify_content-Still s none t text sig from to v = ground arith
  verify_content-Still s (some u) t text sig from to v = ground arith

  pub send-Still : (s : Server) (t : ReplyTag) (v : Value) → Still s (handle_send env w s v t)
  unfolding handle_send send_parsed
  send-Still s t v = grind (arith, verify_content-Still)
