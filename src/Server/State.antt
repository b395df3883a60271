-- ===== src/Server/State.antt =====
-- nymstr-server/src/message_utils.rs: `MessageUtils`, its replies and the cleaning of stale entries.
-- `Env` holds what the code calls and does not implement; `World` what one message's handling reads
-- of clocks, random numbers and the SURB pool. Each is read once for a message.
pub mod Quiet
pub mod Change
pub mod Queue
use Prim.Native.String.{◌++◌}
use nymstr.Prelude.{
  ℕ, ◌-◌, ◌/◌, String, Bool, true, false, List, [], ◌∷◌, Option, none, some, Map, keep, ltb,
  if◌then◌else◌,
}
use nymstr.Prelude.{◌++◌ as append}
use nymstr.Prelude.Int.{ℤ, pos}
use nymstr.Json.{Value, str, int, object}
use nymstr.Common.RateLimiter.{RateLimiter, new, cleanup}
use nymstr.Transport.{ReplyTag, nym, stdio, to_string, from_stored_string}
use nymstr.Db.Tables.{Db, User, Result, ok, err, called}
use nymstr.Db.Users.{get_user_by_username}

pub record Env : Type 0 where
  pub client_id : String
  -- `ServerKeyManager`: key, message, signature.
  pub verify_signature : String → String → String → Bool
  pub sign_message : String → String → Option String
  -- `serde_json`: print and parse.
  pub print : Value → String
  pub parse : String → Option Value
  pub decode_utf8 : List ℕ → Option String
  -- The base64 text of an HMAC-SHA256: key, message.
  pub hmac : String → String → String
  pub sha256 : String → List ℕ
  pub rfc3339 : ℕ → String
  pub base58 : ℕ → String
  pub try_from_base58 : String → Option ℕ

pub record World : Type 0 where
  -- The monotonic clock in nanoseconds, and the unix time in seconds.
  pub instant : ℕ
  pub unix : ℕ
  pub uuid : String
  pub random_byte : ℕ
  -- The text of a database error.
  pub db_error : String
  pub surb_storage : Option (ℕ → ℕ)

pub record PendingEntry {ℓ} (A : Type ℓ) : Type ℓ where
  pub item : A
  pub created_at : ℕ

-- `PendingUserData` and `PendingLoginData`, the source's triples of one shape.
pub record PendingUser : Type 0 where
  pub username : String
  pub public_key : String
  pub nonce : String

pub record PendingGroup : Type 0 where
  pub group_id : String
  pub name : String
  pub nym_address : String
  pub public_key : String
  pub description : Option String
  pub is_public : Bool
  pub nonce : String

-- A message handed to the transport.
pub record Sent : Type 0 where
  pub to : ReplyTag
  pub text : String

pub record Server : Type 0 where
  pub db : Db
  pub pending_users : Map ReplyTag (PendingEntry PendingUser)
  pub nonces : Map ReplyTag (PendingEntry PendingUser)
  pub pending_groups : Map ReplyTag (PendingEntry PendingGroup)
  pub rate_limiter : RateLimiter
  pub send_rate_limiter : RateLimiter
  pub sent : List Sent

abbrev pub pending_ttl_secs : ℕ
pending_ttl_secs = 300

abbrev pub rate_limit_max_attempts : ℕ
rate_limit_max_attempts = 10

abbrev pub rate_limit_window_secs : ℕ
rate_limit_window_secs = 60

abbrev pub send_rate_limit_max : ℕ
send_rate_limit_max = 60

abbrev pub send_rate_limit_window_secs : ℕ
send_rate_limit_window_secs = 60

unfoldable pub start : Db → Server
start db = record {
  db = db;
  pending_users = [];
  nonces = [];
  pending_groups = [];
  rate_limiter = new rate_limit_max_attempts rate_limit_window_secs;
  send_rate_limiter = new send_rate_limit_max send_rate_limit_window_secs;
  sent = [];
}

-- `now.duration_since(entry.created_at).as_secs() < ttl_secs`.
unfoldable pub is_alive {ℓ} : {A : Type ℓ} → ℕ → ReplyTag × PendingEntry A → Bool
is_alive now (tag, e) = ltb ((now - e.created_at) / 1000000000) pending_ttl_secs

unfoldable pub cleanup_stale_entries : ℕ → Server → Server
unfolding is_alive
cleanup_stale_entries now s = record s {
  pending_users = keep (is_alive now) s.pending_users;
  nonces = keep (is_alive now) s.nonces;
  pending_groups = keep (is_alive now) s.pending_groups;
  rate_limiter = cleanup s.rate_limiter;
  send_rate_limiter = cleanup s.send_rate_limiter;
}

-- The server after a query that only reads.
abbrev pub queried : Server → Server
queried s = record s { db = called s.db }

unfoldable pub post : Option String → (String → String) → ReplyTag → List Sent → List Sent
post none message tag sent = sent
post (some signature) message tag sent =
    append sent (record { to = tag; text = message signature } ∷ [])

module _ (env : Env) where
  -- `Display` of a tag, as it is stored.
  abbrev pub tag_text : ReplyTag → String
  tag_text = to_string env.base58

  -- A user that cannot be read has no tag.
  unfoldable pub get_user_sender_tag : Server → String → Option ReplyTag
  get_user_sender_tag s username = elim (get_user_by_username s.db username) [
    | err ↦ none
    | ok none ↦ none
    | ok (some u) ↦ from_stored_string env.try_from_base58 u.sender_tag
  ]

  module _ (w : World) where
    -- The envelope that the unified replies, messages and sealed messages share.
    unfoldable pub envelope : String → String → String → String → Value → String → Value
    envelope kind action sender recipient payload signature = object (
        ("type", str kind)
        ∷ ("action", str action)
        ∷ ("sender", str sender)
        ∷ ("recipient", str recipient)
        ∷ ("payload", payload)
        ∷ ("signature", str signature)
        ∷ ("timestamp", str (env.rfc3339 w.unix))
        ∷ ("serverTime", int (pos w.unix))
        ∷ [])

    -- Sign the payload and send; without a signature nothing is sent.
    unfoldable pub send_envelope :
        Server → ReplyTag → String → String → String → String → Value → Server
    send_envelope s tag kind action sender recipient payload = record s {
      sent =
          post (env.sign_message env.client_id (env.print payload))
            (λ signature. env.print (envelope kind action sender recipient payload signature)) tag
            s.sent;
    }

    unfoldable pub send_unified_reply : Server → ReplyTag → Value → String → String → Server
    unfolding send_envelope
    send_unified_reply s tag payload action recipient_username =
        send_envelope s tag "response" action "server" recipient_username payload

    unfoldable pub send_unified_message :
        Server → ReplyTag → Value → String → String → String → Server
    unfolding send_envelope
    send_unified_message s tag payload action recipient_username sender_username =
        send_envelope s tag "message" action sender_username recipient_username payload

    abbrev context_field : Option String → List (String × Value)
    context_field none = []
    context_field (some context) = ("context", str context) ∷ []

    unfoldable pub encapsulated : String → String → Option String → String → Value
    encapsulated content action context signature = object (
        append
          (("action", str action)
            ∷ ("content", str content)
            ∷ ("serverTime", int (pos w.unix))
            ∷ [])
          (append (context_field context) (("signature", str signature) ∷ [])))

    unfoldable pub send_encapsulated_reply :
        Server → ReplyTag → String → String → Option String → Server
    send_encapsulated_reply s tag content action context = record s {
      sent =
          post (env.sign_message env.client_id content)
            (λ signature. env.print (encapsulated content action context signature)) tag s.sent;
    }

  -- A tag that is not Nym's, or a server without a SURB pool, is taken to be reachable.
  unfoldable pub has_surbs_for_tag : World → ReplyTag → Bool
  has_surbs_for_tag w tag = elim w.surb_storage [
    | none ↦ true
    | some available ↦ elim tag [ nym n ↦ ltb 0 (available n) | stdio id ↦ true ]
  ]
