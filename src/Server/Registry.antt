-- ===== src/Server/Registry.antt =====
-- nymstr-server/src/message_utils.rs: queries, and the registration of group servers.
pub mod Proofs
pub mod Growth
pub mod Groups
pub mod Privacy
use nymstr.Prelude.{
  String, Bool, true, false, not, List, [], ◌∷◌, Option, none, some, find, remove, insert, map,
  ◌==◌, or_else, if◌then◌else◌, string_eq,
}
use nymstr.Json.{Value, null, str, object, array, get, get_str, get_bool, as_str}
use nymstr.Common.Validation.{is_valid_group_id}
use nymstr.Transport.{ReplyTag, tag_eq}
use nymstr.Db.Tables.{Db, Group, User, Result, ok, err, ok_or, called, rest}
use nymstr.Db.Groups.{
  QueryResult, user, group, get_group_by_id, add_group, groups_with, update_group_address,
  groups_moved, get_public_groups, query_by_identifier, faults_after_query,
}
use nymstr.Server.State.{
  Env, World, Server, PendingEntry, PendingGroup, queried, send_unified_reply,
  send_encapsulated_reply,
}

-- `data.get("identifier").or_else(|| data.get("username")).and_then(Value::as_str)`.
unfoldable pub identifier : Value → Option String
unfolding get as_str
identifier v = elim (get "identifier" v) [
  | some i ↦ as_str i
  | none ↦ elim (get "username" v) [ none ↦ none | some u ↦ as_str u ]
]

abbrev pub optional : Option String → Value
optional none = null
optional (some t) = str t

abbrev pub user_json : User → Value
user_json u =
    object
      (("type", str "user") ∷ ("username", str u.username) ∷ ("publicKey", str u.public_key) ∷ [])

abbrev group_fields : Group → List (String × Value)
group_fields g =
    ("groupId", str g.group_id)
    ∷ ("name", str g.name)
    ∷ ("nymAddress", str g.nym_address)
    ∷ ("publicKey", str g.public_key)
    ∷ ("description", optional g.description)
    ∷ []

abbrev pub group_json : Group → Value
group_json g = object (("type", str "group") ∷ group_fields g)

abbrev listed_json : Group → Value
listed_json g = object (group_fields g)

-- The server after `query_by_identifier`.
abbrev pub after_query : Server → String → Server
after_query s i = record s { db = record (s.db) { faults = faults_after_query s.db i } }

module _ (env : Env) (w : World) where
  -- What a query answers; a database error reads as nothing found.
  abbrev pub query_json : Option QueryResult → Value
  query_json (some (user u)) = user_json u
  query_json (some (group g)) = group_json g
  query_json none = object (("error", str "No user or group found") ∷ [])

  pub handle_query_unified : Server → Value → ReplyTag → String → Server
  unfolding send_unified_reply identifier
  handle_query_unified s payload tag sender = elim (identifier payload) [
    | none ↦
        send_unified_reply env w s tag
          (object (("error", str "missing 'username' or 'identifier' field") ∷ [])) "queryResponse"
          sender
    | some i ↦
        send_unified_reply env w (after_query s i) tag
          (query_json (ok_or (query_by_identifier s.db i) none)) "queryResponse" sender
  ]

  abbrev query_text : Option QueryResult → String
  query_text (some (user u)) = env.print (user_json u)
  query_text (some (group g)) = env.print (group_json g)
  query_text none = "No user or group found"

  pub handle_query : Server → Value → ReplyTag → Server
  unfolding send_encapsulated_reply identifier
  handle_query s payload tag = elim (identifier payload) [
    | none ↦
        send_encapsulated_reply env w s tag "error: missing 'username' or 'identifier' field"
          "queryResponse" (some "query")
    | some i ↦
        send_encapsulated_reply env w (after_query s i) tag
          (query_text (ok_or (query_by_identifier s.db i) none)) "queryResponse" (some "query")
  ]

  respond : Server → ReplyTag → String → Server
  unfolding send_encapsulated_reply
  respond s tag message =
      send_encapsulated_reply env w s tag message "registerGroupResponse" (some "registration")

  abbrev pub pending_group : Value → String → String → String → String → PendingEntry PendingGroup
  pending_group v group_id name nym_address public_key = record {
    item = record {
      group_id = group_id;
      name = name;
      nym_address = nym_address;
      public_key = public_key;
      description = get_str "description" v;
      is_public = or_else (get_bool "isPublic" v) true;
      nonce = w.uuid;
    };
    created_at = w.instant;
  }

  challenge_group : Server → ReplyTag → PendingEntry PendingGroup → Server
  unfolding send_encapsulated_reply
  challenge_group s tag e =
      send_encapsulated_reply env w (record s { pending_groups = insert tag e s.pending_groups })
        tag (env.print (object (("nonce", str w.uuid) ∷ []))) "challenge" (some "groupRegistration")

  -- A group that is registered may only come back under its key; a failed lookup reads as absent.
  register_group_named : Server → ReplyTag → PendingEntry PendingGroup → Server
  unfolding respond challenge_group
  register_group_named s tag e =
      if not (is_valid_group_id e.item.group_id)
      then respond s tag "error: invalid groupId format"
      else elim (ok_or (get_group_by_id s.db e.item.group_id) none) [
        | none ↦ challenge_group (queried s) tag e
        | some existing ↦
            if existing.public_key == e.item.public_key
            then challenge_group (queried s) tag e
            else respond (queried s) tag "error: groupId already registered with different key"
      ]

  abbrev missing_fields : String
  missing_fields = "error: missing required fields (groupId, name, nymAddress, publicKey)"

  pub handle_register_group : Server → Value → ReplyTag → Server
  unfolding register_group_named respond
  handle_register_group s v tag = elim (get_str "groupId" v) [
    | none ↦ respond s tag missing_fields
    | some group_id ↦ elim (get_str "name" v) [
      | none ↦ respond s tag missing_fields
      | some name ↦ elim (get_str "nymAddress" v) [
        | none ↦ respond s tag missing_fields
        | some nym_address ↦ elim (get_str "publicKey" v) [
          | none ↦ respond s tag missing_fields
          | some public_key ↦
              register_group_named s tag (pending_group v group_id name nym_address public_key)
        ]
      ]
    ]
  ]

  abbrev new_group : PendingGroup → Group
  new_group p = record {
    group_id = p.group_id;
    name = p.name;
    nym_address = p.nym_address;
    public_key = p.public_key;
    description = p.description;
    is_public = p.is_public;
    created_at = w.unix;
  }

  -- The reply to `Ok(true)`, and to all else.
  group_outcome : Server → ReplyTag → Result Bool → Server
  unfolding respond
  group_outcome s tag err = respond s tag "error: database failure"
  group_outcome s tag (ok false) = respond s tag "error: database failure"
  group_outcome s tag (ok true) = respond s tag "success"

  -- A group that is there takes the address; any other is added. The key is not compared again.
  store_group : Server → ReplyTag → PendingGroup → Server
  unfolding group_outcome
  store_group s tag p = elim (ok_or (get_group_by_id s.db p.group_id) none) [
    | some g ↦
        let db = called s.db in
        group_outcome
          (record s {
            db = record db {
              groups = groups_moved db p.group_id p.nym_address;
              faults = rest db.faults;
            };
          })
          tag (update_group_address db p.group_id p.nym_address)
    | none ↦
        let db = called s.db in
        group_outcome
          (record s {
            db = record db { groups = groups_with db (new_group p); faults = rest db.faults };
          })
          tag (add_group db (new_group p))
  ]

  confirm_group : Server → ReplyTag → PendingGroup → String → Server
  unfolding store_group respond
  confirm_group s tag p signature =
      if env.verify_signature p.public_key p.nonce signature
      then store_group s tag p
      else respond s tag "error: signature verification failed"

  pub handle_register_group_response : Server → Value → ReplyTag → Server
  unfolding confirm_group respond
  handle_register_group_response s v tag = elim (get_str "signature" v) [
    | none ↦ respond s tag "error: missing signature"
    | some signature ↦ elim (find tag s.pending_groups) [
      | none ↦ respond s tag "error: no pending group registration"
      | some e ↦
          confirm_group (record s { pending_groups = remove tag s.pending_groups }) tag e.item
            signature
    ]
  ]

  -- One group, if it is public; a private one reads as absent.
  abbrev listed : Option Group → List Value
  listed none = []
  listed (some g) = if g.is_public then listed_json g ∷ [] else []

  abbrev pub groups_json : List Value → String
  groups_json l = env.print (object (("groups", array l) ∷ []))

  pub handle_query_groups : Server → Value → ReplyTag → Server
  unfolding send_encapsulated_reply
  handle_query_groups s v tag = elim (get_str "groupId" v) [
    | some gid ↦
        send_encapsulated_reply env w (queried s) tag
          (groups_json (listed (ok_or (get_group_by_id s.db gid) none))) "queryGroupsResponse" none
    | none ↦ elim (get_public_groups s.db) [
      | ok groups ↦
          send_encapsulated_reply env w (queried s) tag (groups_json (map listed_json groups))
            "queryGroupsResponse" none
      | err ↦
          send_encapsulated_reply env w (queried s) tag "error: database failure"
            "queryGroupsResponse" none
    ]
  ]
