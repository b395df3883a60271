-- ===== src/GroupServer/Requests.antt =====
-- nymstr-group/src/message_utils.rs: the requests, and their parsers for both message formats.
use nymstr.Prelude.{ℕ, String, List, Option, none, some, or_else, string_eq}
use nymstr.Prelude.Int.{ℤ, pos}
use nymstr.Json.{Value, null, bool, int, real, str, arr, obj, get, get_str, get_i64}
use nymstr.GroupServer.Text.{parse_i64}

infixl 5 ◌>>=◌
abbrev ◌>>=◌ : {A B : Type 0} → Option A → (A → Option B) → Option B
none >>= f = none
some a >>= f = f a

pub record RegisterRequest : Type 0 where
  pub username : String
  pub public_key : String
  pub server_address : String
  pub timestamp : ℤ
  pub signature : String
  pub key_package : Option (List ℕ)

pub record ApproveGroupRequest : Type 0 where
  pub username : String
  pub group_id : String
  pub timestamp : ℤ
  pub signature : String

pub record SendGroupRequest : Type 0 where
  pub username : String
  pub ciphertext : String
  pub signature : String

pub record FetchGroupRequest : Type 0 where
  pub username : String
  pub last_seen_id : ℤ
  pub signature : String

-- `match data.get("lastSeenId")`.
cursor : Option Value → ℤ
cursor none = pos 0
cursor (some (int z)) = z
cursor (some (str t)) = or_else (parse_i64 t) (pos 0)
cursor (some (real t)) = pos 0
cursor (some null) = pos 0
cursor (some (bool b)) = pos 0
cursor (some (arr l)) = pos 0
cursor (some (obj l)) = pos 0

module _ (decode : String → Option (List ℕ)) where
  unfoldable pub register_from_legacy : Value → Option RegisterRequest
  register_from_legacy v = do
    username ← get_str "username" v
    public_key ← get_str "publicKey" v
    server_address ← get_str "serverAddress" v
    timestamp ← get_i64 "timestamp" v
    signature ← get_str "signature" v
    some (record {
      username = username;
      public_key = public_key;
      server_address = server_address;
      timestamp = timestamp;
      signature = signature;
      key_package = get_str "keyPackage" v >>= decode;
    })

  unfoldable pub register_from_unified : Value → String → String → Option RegisterRequest
  register_from_unified payload sender_username signature = do
    public_key ← get_str "publicKey" payload
    server_address ← get_str "serverAddress" payload
    timestamp ← get_i64 "timestamp" payload
    some (record {
      username = or_else (get_str "username" payload) sender_username;
      public_key = public_key;
      server_address = server_address;
      timestamp = timestamp;
      signature = signature;
      key_package = get_str "keyPackage" payload >>= decode;
    })

unfoldable pub approve_from_legacy : Value → Option ApproveGroupRequest
approve_from_legacy v = do
  username ← get_str "username" v
  group_id ← get_str "groupId" v
  timestamp ← get_i64 "timestamp" v
  signature ← get_str "signature" v
  some (record {
    username = username;
    group_id = group_id;
    timestamp = timestamp;
    signature = signature;
  })

unfoldable pub approve_from_unified : Value → String → Option ApproveGroupRequest
approve_from_unified payload signature = do
  username ← get_str "username" payload
  group_id ← get_str "groupId" payload
  timestamp ← get_i64 "timestamp" payload
  some (record {
    username = username;
    group_id = group_id;
    timestamp = timestamp;
    signature = signature;
  })

unfoldable pub send_from_legacy : Value → Option SendGroupRequest
send_from_legacy v = do
  username ← get_str "username" v
  ciphertext ← get_str "ciphertext" v
  signature ← get_str "signature" v
  some (record { username = username; ciphertext = ciphertext; signature = signature })

unfoldable pub send_from_unified : Value → String → String → Option SendGroupRequest
send_from_unified payload sender_username signature = do
  ciphertext ← get_str "ciphertext" payload
  some (record { username = sender_username; ciphertext = ciphertext; signature = signature })

unfoldable pub fetch_from_legacy : Value → Option FetchGroupRequest
unfolding cursor
fetch_from_legacy v = do
  username ← get_str "username" v
  signature ← get_str "signature" v
  some (record {
    username = username;
    last_seen_id = cursor (get "lastSeenId" v);
    signature = signature;
  })

unfoldable pub fetch_from_unified : Value → String → String → Option FetchGroupRequest
unfolding cursor
fetch_from_unified payload sender_username signature = some (record {
  username = sender_username;
  last_seen_id = cursor (get "lastSeenId" payload);
  signature = signature;
})
