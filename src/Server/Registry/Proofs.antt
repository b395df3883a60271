-- ===== src/Server/Registry/Proofs.antt =====
-- Queries change nothing, and the group handlers leave the users alone.
use nymstr.Prelude.{String, ◌≡◌, arith}
use nymstr.Json.{Value}
use nymstr.Transport.{ReplyTag}
use nymstr.Server.State.{Env, World, Server}
use nymstr.Server.State.Quiet.{Quiet}
use nymstr.Server.State.Change.{Claims, UserChange, PendingChange, NonceChange, Change}
use nymstr.Server.Registry.{
  handle_query_unified, handle_query, handle_query_groups, handle_register_group,
  handle_register_group_response,
}

module _ (env : Env) (w : World) where
  pub query_unified-Quiet :
      (s : Server) (v : Value) (t : ReplyTag) (from : String)
      → Quiet s (handle_query_unified env w s v t from)
  unfolding handle_query_unified
  query_unified-Quiet s v t from = ground arith

  pub query-Quiet : (s : Server) (v : Value) (t : ReplyTag) → Quiet s (handle_query env w s v t)
  unfolding handle_query
  query-Quiet s v t = ground arith

  pub query_groups-Quiet :
      (s : Server) (v : Value) (t : ReplyTag) → Quiet s (handle_query_groups env w s v t)
  unfolding handle_query_groups
  query_groups-Quiet s v t = ground arith

  register_group_frame :
      (s : Server) (v : Value) (t : ReplyTag)
      → ((handle_register_group env w s v t).db.users ≡ s.db.users)
        × ((handle_register_group env w s v t).db.groups ≡ s.db.groups)
        × ((handle_register_group env w s v t).pending_users ≡ s.pending_users)
        × ((handle_register_group env w s v t).nonces ≡ s.nonces)
  unfolding handle_register_group
  register_group_frame s v t = ground arith

  register_group_response_frame :
      (s : Server) (v : Value) (t : ReplyTag)
      → ((handle_register_group_response env w s v t).db.users ≡ s.db.users)
        × ((handle_register_group_response env w s v t).pending_users ≡ s.pending_users)
        × ((handle_register_group_response env w s v t).nonces ≡ s.nonces)
  unfolding handle_register_group_response
  register_group_response_frame s v t = ground arith

  pub register_group-Change :
      {said : Claims} (s : Server) (v : Value) (t : ReplyTag)
      → Change said env w t s (handle_register_group env w s v t)
  register_group-Change s v t = record {
    users = UserChange.kept (register_group_frame s v t).0;
    pending = PendingChange.kept (register_group_frame s v t).2;
    nonces = NonceChange.kept (register_group_frame s v t).3;
  }

  pub register_group_response-Change :
      {said : Claims} (s : Server) (v : Value) (t : ReplyTag)
      → Change said env w t s (handle_register_group_response env w s v t)
  register_group_response-Change s v t = record {
    users = UserChange.kept (register_group_response_frame s v t).0;
    pending = PendingChange.kept (register_group_response_frame s v t).1;
    nonces = NonceChange.kept (register_group_response_frame s v t).2;
  }
