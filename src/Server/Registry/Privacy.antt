-- ===== src/Server/Registry/Privacy.antt =====
-- Private groups and the handlers that answer anybody.
use nymstr.Prelude.{String, false, [], none, some, ◌≡◌, arith}
use nymstr.Json.{Value, get_str}
use nymstr.Transport.{ReplyTag}
use nymstr.Db.Tables.{Db, Group, ok_or}
use nymstr.Db.Groups.{find_group, get_group_by_id}
use nymstr.Db.Groups.Laws.{query_hides_private}
use nymstr.Server.State.{Env, World, Server}
use nymstr.Server.Registry.{
  identifier, listed, handle_query_unified, handle_query, handle_query_groups,
}

-- The server with no groups at all.
abbrev pub without_groups : Server → Server
without_groups s = record s { db = record (s.db) { groups = [] } }

listed_hidden :
    (env : Env) (w : World) (db : Db) (id : String) (g : Group)
    → find_group id db.groups ≡ some g
    → g.is_public ≡ false
    → listed env w (ok_or (get_group_by_id db id) none)
      ≡ listed env w (ok_or (get_group_by_id (record db { groups = [] }) id) none)
unfolding get_group_by_id find_group
listed_hidden env w db id g found hidden = ground arith

module _ (env : Env) (w : World) (s : Server) (v : Value) (t : ReplyTag) (id : String)
    (g : Group) where
  -- Asked for a private group by its id, the server sends just what it would send if it had no
  -- groups: by the unified query and by the legacy one.
  pub query_hides_group :
      (from : String)
      → find_group id s.db.groups ≡ some g
      → g.is_public ≡ false
      → identifier v ≡ some id
      → ((handle_query_unified env w s v t from).sent
          ≡ (handle_query_unified env w (without_groups s) v t from).sent)
        × ((handle_query env w s v t).sent ≡ (handle_query env w (without_groups s) v t).sent)
  unfolding handle_query_unified handle_query
  query_hides_group from found hidden asked = (
    ground (arith, query_hides_private s.db id g found hidden),
    ground (arith, query_hides_private s.db id g found hidden),
  )

  -- The group query, asked for a private group by its id, sends just what it would send if the
  -- server had no groups.
  pub query_groups_hides_group :
      find_group id s.db.groups ≡ some g
      → g.is_public ≡ false
      → get_str "groupId" v ≡ some id
      → (handle_query_groups env w s v t).sent
        ≡ (handle_query_groups env w (without_groups s) v t).sent
  unfolding handle_query_groups
  query_groups_hides_group found hidden asked =
      ground (arith, listed_hidden env w s.db id g found hidden)
