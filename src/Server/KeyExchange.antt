-- ===== src/Server/KeyExchange.antt =====
-- nymstr-server/src/message_utils.rs: publishing key packages, and fetching one by proof of work.
pub mod Work
pub mod Challenge
pub mod Proofs
pub mod Growth
pub mod Packages
pub mod Fetches
use nymstr.Prelude.{
  ℕ, suc, zero, ◌+◌, ◌-◌, ◌*◌, ◌/◌, ◌%◌, ◌^◌, String, Bool, true, false, not, List, [], ◌∷◌, Option,
  none, some, or_else, ◌==◌, ◌||◌, leb, if◌then◌else◌, nat_eq, string_eq,
}
use Prim.Native.Nat.{bit_and}
use Prim.Native.String.{◌++◌}
use nymstr.Prelude.Int.{pos, show_ℕ}
use nymstr.Json.{Value, str, int, object, get_str}
use nymstr.Transport.{ReplyTag}
use nymstr.Db.Tables.{Db, User, KeyPackage, Result, ok, err, ok_or, called}
use nymstr.Db.Users.{get_user_by_username}
use nymstr.Db.Pending.{new_message, after_queue}
use nymstr.Db.KeyPackages.{
  store_key_package, after_store_key_package, count_key_packages, consume_key_package,
}
use nymstr.Server.State.{Env, World, Server, queried, send_unified_reply}
use nymstr.Server.Delivery.{failure}

-- A byte of the hash; a read past the end, which would panic, is 0.
abbrev byte : List ℕ → ℕ → ℕ
byte [] i = 0
byte (b ∷ bs) zero = b
byte (b ∷ bs) (suc i) = byte bs i

-- The loop over the full bytes, `i` counting the bytes still to test from the front.
unfoldable pub zero_bytes : List ℕ → ℕ → Bool
zero_bytes hash zero = true
zero_bytes [] (suc i) = true
zero_bytes (b ∷ bs) (suc i) = if b == 0 then zero_bytes bs i else false

unfoldable pub has_leading_zero_bits : List ℕ → ℕ → Bool
unfolding zero_bytes
has_leading_zero_bits hash required_bits =
    let full_bytes = required_bits / 8 in
    let remaining_bits = required_bits % 8 in
    if not (zero_bytes hash full_bytes)
    then false
    else if remaining_bits == 0
    then true
    else bit_and (byte hash full_bytes) (0xff * 2 ^ (8 - remaining_bits) % 256) == 0

-- Base 20, and more where packages are scarce.
unfoldable pub difficulty : ℕ → ℕ
difficulty count = if leb count 3 then 20 + (4 - count) * 2 else 20

module _ (env : Env) (w : World) where
  abbrev publish_text : String → String → String
  publish_text user key_package = "publishKeyPackage:" ++ user ++ ":" ++ key_package

  respond_publish : Server → ReplyTag → String → Value → Server
  unfolding send_unified_reply
  respond_publish s tag user payload =
      send_unified_reply env w s tag payload "publishKeyPackageResponse" user

  store : Server → ReplyTag → String → String → String → String → Server
  unfolding respond_publish
  store s tag user key_package pgp_signature pgp_fingerprint =
      let s' : Server = record s {
        db = after_store_key_package w.unix s.db user key_package pgp_signature pgp_fingerprint;
      } in
      elim (store_key_package s.db) [
        | err ↦ respond_publish s' tag user (failure env w "failed to store key package")
        | ok u ↦ respond_publish (queried s') tag user (
            object (
              ("status", str "success")
              ∷ ("count", int (pos (ok_or (count_key_packages w.unix s'.db user) 0)))
              ∷ []))
      ]

  store_fields : Server → Value → ReplyTag → String → Server
  unfolding store respond_publish
  store_fields s payload tag user = elim (get_str "keyPackage" payload) [
    | none ↦ respond_publish s tag user (failure env w "missing keyPackage")
    | some key_package ↦ elim (get_str "pgpSignature" payload) [
      | none ↦ respond_publish s tag user (failure env w "missing pgpSignature")
      | some pgp_signature ↦ elim (get_str "pgpFingerprint" payload) [
        | none ↦ respond_publish s tag user (failure env w "missing pgpFingerprint")
        | some pgp_fingerprint ↦ store s tag user key_package pgp_signature pgp_fingerprint
      ]
    ]
  ]

  verify_publish : Server → User → Value → ReplyTag → String → Option String → Server
  unfolding store_fields respond_publish
  verify_publish s u payload tag user none =
      respond_publish s tag user (failure env w "missing signature")
  verify_publish s u payload tag user (some signature) =
      if env.verify_signature u.public_key
        (publish_text user (or_else (get_str "keyPackage" payload) "")) signature
      then store_fields s payload tag user
      else respond_publish s tag user (failure env w "invalid signature")

  pub handle_publish_key_package : Server → Value → ReplyTag → String → Option String → Server
  unfolding verify_publish respond_publish
  handle_publish_key_package s payload tag user signature = elim (get_user_by_username s.db user) [
    | ok (some u) ↦ verify_publish (queried s) u payload tag user signature
    | ok none ↦ respond_publish (queried s) tag user (failure env w "user not registered")
    | err ↦ respond_publish (queried s) tag user (failure env w "database error")
  ]

  abbrev error_json : String → Value
  error_json error = object (("error", str error) ∷ [])

  -- The HMAC of the user name and a five-minute window, in base64.
  unfoldable pub challenge_for : String → ℕ → String
  challenge_for user window = env.hmac env.client_id (user ++ show_ℕ window)

  respond_challenge : Server → ReplyTag → Value → Server
  unfolding send_unified_reply
  respond_challenge s tag payload =
      send_unified_reply env w s tag payload "fetchKeyPackageChallengeResponse" "anonymous"

  -- Nothing to fetch: the user is told by a queued notification.
  ask_for_packages : Server → ReplyTag → String → Server
  unfolding respond_challenge
  ask_for_packages s tag user =
      let notification = env.print (object (("action", str "keyPackageNeeded") ∷ [])) in
      let m = new_message w.unix w.uuid user "__system__" notification "keyPackageNeeded" in
      respond_challenge (record s { db = after_queue s.db m }) tag (error_json "no_key_packages")

  issue_challenge : Server → ReplyTag → String → ℕ → Server
  unfolding respond_challenge ask_for_packages
  issue_challenge s tag user count =
      if count == 0
      then ask_for_packages s tag user
      else if count == 1
      then respond_challenge s tag (error_json "last_key_package")
      else respond_challenge s tag (
          object (
            ("challenge", str (challenge_for user (w.unix / 300)))
            ∷ ("difficulty", int (pos (difficulty count)))
            ∷ ("username", str user)
            ∷ []))

  pub handle_fetch_kp_challenge : Server → Value → ReplyTag → Server
  unfolding respond_challenge issue_challenge
  handle_fetch_kp_challenge s payload tag = elim (get_str "username" payload) [
    | none ↦ respond_challenge s tag (error_json "missing username")
    | some user ↦ elim (count_key_packages w.unix s.db user) [
      | err ↦ respond_challenge (queried s) tag (error_json "database error")
      | ok count ↦ issue_challenge (queried s) tag user count
    ]
  ]

  -- The challenge of this window or of the one before.
  unfoldable pub is_current : String → String → Bool
  unfolding challenge_for
  is_current user challenge =
      challenge_for user (w.unix / 300) == challenge
      || challenge_for user (w.unix / 300 - 1) == challenge

  respond_fetch : Server → ReplyTag → Value → Server
  unfolding send_unified_reply
  respond_fetch s tag payload =
      send_unified_reply env w s tag payload "fetchKeyPackageResponse" "anonymous"

  -- The key of the user, if it can be read.
  abbrev key_of : Result (Option User) → String
  key_of (ok (some u)) = u.public_key
  key_of (ok none) = ""
  key_of err = ""

  serve : Server → ReplyTag → String → KeyPackage → Server
  unfolding respond_fetch
  serve s tag user k = respond_fetch (queried s) tag (
      object (
        ("username", str user)
        ∷ ("keyPackage", str k.key_package_b64)
        ∷ ("pgpSignature", str k.pgp_signature)
        ∷ ("pgpFingerprint", str k.pgp_fingerprint)
        ∷ ("publicKey", str (key_of (get_user_by_username s.db user)))
        ∷ []))

  consume : Server → ReplyTag → String → Server
  unfolding respond_fetch serve
  consume s tag user =
      let (result, db) = consume_key_package w.unix s.db user in
      let s' : Server = record s { db = db } in
      elim result [
        | ok (some k) ↦ serve s' tag user k
        | ok none ↦ respond_fetch s' tag (error_json "no_key_packages")
        | err ↦ respond_fetch s' tag (error_json "database error")
      ]

  -- SHA256(username || challenge || nonce) must begin with enough zero bits.
  check_work : Server → ReplyTag → String → String → String → ℕ → Server
  unfolding consume respond_fetch
  check_work s tag user challenge nonce count =
      if has_leading_zero_bits (env.sha256 (user ++ challenge ++ nonce)) (difficulty count)
      then consume s tag user
      else respond_fetch s tag (
          object (("error", str "invalid_pow") ∷ ("difficulty", int (pos (difficulty count))) ∷ []))

  check_challenge : Server → ReplyTag → String → String → String → Server
  unfolding check_work respond_fetch
  check_challenge s tag user challenge nonce =
      if not (is_current user challenge)
      then respond_fetch s tag (error_json "invalid_challenge")
      else elim (count_key_packages w.unix s.db user) [
        | err ↦ respond_fetch (queried s) tag (error_json "database error")
        | ok count ↦ check_work (queried s) tag user challenge nonce count
      ]

  pub handle_fetch_key_package : Server → Value → ReplyTag → Server
  unfolding check_challenge respond_fetch
  handle_fetch_key_package s payload tag = elim (get_str "username" payload) [
    | none ↦ respond_fetch s tag (error_json "missing username")
    | some user ↦ elim (get_str "challenge" payload) [
      | none ↦ respond_fetch s tag (error_json "missing challenge")
      | some challenge ↦ elim (get_str "nonce" payload) [
        | none ↦ respond_fetch s tag (error_json "missing nonce")
        | some nonce ↦ check_challenge s tag user challenge nonce
      ]
    ]
  ]
