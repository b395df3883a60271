-- ===== src/Server/Registry/Growth.antt =====
-- The group handlers and the queries leave the queue alone.
use nymstr.Prelude.{String, ◌≡◌, arith}
use nymstr.Json.{Value}
use nymstr.Transport.{ReplyTag}
use nymstr.Server.State.{Env, World, Server}
use nymstr.Server.State.Queue.{Still}
use nymstr.Server.Registry.{
  handle_query_unified, handle_query, handle_query_groups, handle_register_group,
  handle_register_group_response,
}

module _ (env : Env) (w : World) (s : Server) (v : Value) (t : ReplyTag) where
  pub query_unified-Still : (f : String) → Still s (handle_query_unified env w s v t f)
  unfolding handle_query_unified
  query_unified-Still f = ground arith

  pub query-Still : Still s (handle_query env w s v t)
  unfolding handle_query
  query-Still = ground arith

  pub query_groups-Still : Still s (handle_query_groups env w s v t)
  unfolding handle_query_groups
  query_groups-Still = ground arith

  pub register_group-Still : Still s (handle_register_group env w s v t)
  unfolding handle_register_group
  register_group-Still = ground arith

  pub register_group_response-queue :
      ((handle_register_group_response env w s v t).db.pending_messages ≡ s.db.pending_messages)
      × ((handle_register_group_response env w s v t).db.key_packages ≡ s.db.key_packages)
  unfolding handle_register_group_response
  register_group_response-queue = ground arith
