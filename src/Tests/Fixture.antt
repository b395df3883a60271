-- ===== src/Tests/Fixture.antt =====
-- A small world: two users, a private group, key packages, and an environment that computes.
-- A signature is the key, a slash and the text; the key "lost" has none. A tag is printed as six
-- letters and so many more. The bytes of a message are one number, which stands for its JSON.
use Prim.Native.String.{◌++◌, len}
use nymstr.Prelude.{
  ℕ, zero, suc, ◌*◌, ◌+◌, ◌-◌, String, Bool, true, false, List, [], ◌∷◌, Option, none, some, ◌==◌,
  string_eq, if◌then◌else◌,
}
use nymstr.Json.{Value, str, int, real, null, bool, arr, obj, object}
use nymstr.Transport.{ReplyTag, nym}
use nymstr.Db.Tables.{Db, User, Group, KeyPackage, PendingMessage}
use nymstr.Server.State.{Env, World, Server, PendingEntry, PendingUser, PendingGroup}

abbrev pub tally : ℕ → String
tally zero = ""
tally (suc n) = "z" ++ tally n

abbrev pub letters : ℕ → String
letters n = "zzzzzz" ++ tally n

abbrev pub letters_read : String → Option ℕ
letters_read s = some (len s - 6)

abbrev pub signed : String → String → String
signed key text = key ++ "/" ++ text

abbrev verify : String → String → String → Bool
verify key text signature = if key == "lost" then false else signature == signed key text

abbrev pub print : Value → String
print (str t) = t
print (real t) = t
print null = "null"
print (bool b) = "bool"
print (int z) = "int"
print (arr l) = "[]"
print (obj l) = "{}"

abbrev pub register_payload : Value
register_payload = object (("username", str "carol") ∷ ("publicKey", str "carol-key") ∷ [])

abbrev pub register_message : Value
register_message = object (
    ("type", str "message")
    ∷ ("action", str "register")
    ∷ ("sender", str "carol")
    ∷ ("payload", register_payload)
    ∷ [])

abbrev pub response_message : Value
response_message = object (
    ("type", str "message")
    ∷ ("action", str "registrationResponse")
    ∷ ("signature", str "carol-key/nonce")
    ∷ [])

abbrev parse : String → Option Value
parse text =
    if text == "register"
    then some register_message
    else if text == "response"
    then some response_message
    else none

abbrev decode : List ℕ → Option String
decode [] = none
decode (zero ∷ bytes) = some "register"
decode (suc n ∷ bytes) = some "response"

abbrev pub env : Env
env = record {
  client_id = "server";
  verify_signature = verify;
  sign_message = λ id text. some (signed id text);
  print = print;
  parse = parse;
  decode_utf8 = decode;
  hmac = λ key text. text;
  sha256 = λ text. 0 ∷ 0 ∷ 3 ∷ 200 ∷ [];
  rfc3339 = λ n. "now";
  base58 = letters;
  try_from_base58 = letters_read;
}

-- The same, with a server that cannot sign.
abbrev pub mute : Env
mute = record env { sign_message = λ id text. none }

abbrev pub at_time : ℕ → World
at_time unix = record {
  instant = unix * 1000000000;
  unix = unix;
  uuid = "nonce";
  random_byte = 3;
  db_error = "locked";
  surb_storage = none;
}

abbrev pub alice : User
alice = record { username = "alice"; public_key = "alice-key"; sender_tag = "zzzzzzzzz" }

-- Nobody can sign as bob.
abbrev pub bob : User
bob = record { username = "bob"; public_key = "lost"; sender_tag = "nowhere" }

abbrev pub hidden : Group
hidden = record {
  group_id = "hidden";
  name = "Hidden";
  nym_address = "here";
  public_key = "group-key";
  description = none;
  is_public = false;
  created_at = 900;
}

abbrev pub waiting : PendingMessage
waiting = record {
  id = "m1";
  recipient = "bob";
  sender = "alice";
  payload = "hello";
  action = "send";
  created_at = 900;
  expires_at = 605700;
}

abbrev pub key_package : ℕ → ℕ → KeyPackage
key_package id created_at = record {
  id = id;
  username = "alice";
  key_package_b64 = "kp";
  pgp_signature = "sig";
  pgp_fingerprint = "fp";
  created_at = created_at;
  expires_at = created_at + 2592000;
}

abbrev pub db : Db
db = record {
  users = alice ∷ bob ∷ [];
  groups = hidden ∷ [];
  pending_messages = waiting ∷ [];
  key_packages = key_package 1 950 ∷ key_package 2 900 ∷ [];
  next_id = 3;
  faults = [];
}

abbrev pub pending_alice : PendingEntry PendingUser
pending_alice = record {
  item = record { username = "alice"; public_key = "alice-key"; nonce = "n1" };
  created_at = 900000000000;
}

-- Someone began to register the hidden group before its owner did.
abbrev pub pending_hidden : PendingEntry PendingGroup
pending_hidden = record {
  item = record {
    group_id = "hidden";
    name = "Mine";
    nym_address = "elsewhere";
    public_key = "thief-key";
    description = none;
    is_public = true;
    nonce = "n2";
  };
  created_at = 900000000000;
}

abbrev pub tag : ReplyTag
tag = nym 3

abbrev pub server : Server
server = record {
  db = db;
  pending_users = (tag, pending_alice) ∷ [];
  nonces = (tag, pending_alice) ∷ [];
  pending_groups = (tag, pending_hidden) ∷ [];
  rate_limiter = record { attempts = []; max_attempts = 10; window_secs = 60 };
  send_rate_limiter = record { attempts = []; max_attempts = 60; window_secs = 60 };
  sent = [];
}
