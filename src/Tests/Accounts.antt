-- ===== src/Tests/Accounts.antt =====
-- Runs of the handlers of accounts, groups and relayed messages.
use nymstr.Prelude.{
  String, false, [], ◌∷◌, Option, none, some, find, keep, ap, subst, ◌≡◌, ◌≢◌, refl, arith, ==_iff,
  string_eq,
}
use nymstr.Common.RateLimiter.{check_and_record}
use nymstr.Common.Validation.{is_valid_username}
use nymstr.Json.{Value, str, object, get_str}
use nymstr.Transport.{stdio, tag_eq, to_string}
use nymstr.Db.Tables.{User}
use nymstr.Db.Users.{find_user}
use nymstr.Db.Groups.{set_address}
use nymstr.Db.Groups.{find_group}
use nymstr.Server.Accounts.{
  handle_register_unified, handle_registration_response_unified, handle_login_unified,
  handle_login_response_unified,
}
use nymstr.Server.Accounts.Flow.{
  response-once, registration_response-register, login_response-login,
}
use nymstr.Server.Registry.{
  identifier, handle_query_unified, handle_query, handle_register_group_response,
}
use nymstr.Server.Registry.Privacy.{without_groups, query_hides_group}
use nymstr.Server.Registry.Groups.{register_group_response-hijack}
use nymstr.Server.Delivery.{
  relay_with_persistence, relay_sealed_with_persistence, handle_send_unified,
}
use nymstr.Server.Delivery.Relay.{Relayed, relay-copies}
use nymstr.Server.Delivery.Unsigned.{to_others, send-unsigned}
use nymstr.Tests.Fixture.{
  env, at_time, alice, hidden, pending_hidden, tag, server, register_payload,
}

abbrev ask_hidden : Value
ask_hidden = object (("identifier", str "hidden") ∷ ("groupId", str "hidden") ∷ [])

query_hides_group_example :
    ((handle_query_unified env (at_time 1000) server ask_hidden tag "x").sent
      ≡ (handle_query_unified env (at_time 1000) (without_groups server) ask_hidden tag "x").sent)
    × ((handle_query env (at_time 1000) server ask_hidden tag).sent
        ≡ (handle_query env (at_time 1000) (without_groups server) ask_hidden tag).sent)
unfolding find_group identifier
query_hides_group_example =
    query_hides_group env (at_time 1000) server ask_hidden tag "hidden" hidden "x" refl refl refl

abbrev thief_answer : Value
thief_answer = object (("signature", str "thief-key/n2") ∷ [])

other_key : hidden.public_key ≢ pending_hidden.item.public_key
other_key e = ground (arith, ==_iff hidden.public_key pending_hidden.item.public_key)

register_group_response-hijack_example :
    (handle_register_group_response env (at_time 1000) server thief_answer tag).db.groups
    ≡ set_address "hidden" "elsewhere" server.db.groups
unfolding find find_group get_str
register_group_response-hijack_example =
    register_group_response-hijack env (at_time 1000) server thief_answer tag "thief-key/n2"
      pending_hidden hidden refl refl refl refl other_key refl

response-once_example :
    (find tag
        (handle_registration_response_unified env
          (at_time 1000)
          server
          tag
          (some "wrong")).pending_users
      ≡ none)
    × (find tag (handle_login_response_unified env (at_time 1000) server tag (some "wrong")).nonces
        ≡ none)
response-once_example = response-once env (at_time 1000) server tag "wrong"

registration_response-register_example :
    find_user "carol"
      (handle_registration_response_unified env
        (at_time 1001)
        (handle_register_unified env (at_time 1000) server register_payload tag "carol")
        tag
        (some "carol-key/nonce")).db.users
    ≡ some (record { username = "carol"; public_key = "carol-key"; sender_tag = "zzzzzzzzz" })
unfolding check_and_record find get_str is_valid_username find_user to_string keep
registration_response-register_example =
    registration_response-register env (at_time 1000) (at_time 1001) server tag register_payload
      "carol" "carol" "carol-key" "carol-key/nonce" refl refl refl refl refl refl refl

abbrev login_payload : Value
login_payload = object (("username", str "alice") ∷ [])

login_response-login_example :
    find_user "alice"
      (handle_login_response_unified env
        (at_time 1001)
        (handle_login_unified env (at_time 1000) server login_payload (stdio "1") "alice")
        (stdio "1")
        (some "alice-key/nonce")).db.users
    ≡ some (record alice { sender_tag = "stdio:1" })
unfolding check_and_record find get_str find_user to_string keep
login_response-login_example =
    login_response-login env (at_time 1000) (at_time 1001) server (stdio "1") login_payload "alice"
      "alice" "alice-key/nonce" alice refl refl refl refl refl

relay-copies_example :
    Relayed env
      (at_time 1000)
      server
      "message"
      "send"
      "bob"
      "alice"
      (str "hi")
      (relay_with_persistence env (at_time 1000) server "alice" "bob" (str "hi") "send")
    × Relayed env
        (at_time 1000)
        server
        "sealed"
        "send"
        "__sealed__"
        "alice"
        (str "hi")
        (relay_sealed_with_persistence env (at_time 1000) server "alice" (str "hi"))
relay-copies_example = relay-copies env (at_time 1000) server "send" "bob" "alice" (str "hi")

abbrev key_of : Option User → String
key_of none = ""
key_of (some u) = u.public_key

send-unsigned_example :
    ((handle_send_unified env
        (at_time 1000)
        server
        (str "hi")
        tag
        "bob"
        (some "alice")
        (some "forged")).db.pending_messages
      ≡ server.db.pending_messages)
    × (to_others tag
          (handle_send_unified env
            (at_time 1000)
            server
            (str "hi")
            tag
            "bob"
            (some "alice")
            (some "forged")).sent
        ≡ to_others tag server.sent)
unfolding find_user
send-unsigned_example =
    send-unsigned env (at_time 1000) server (str "hi") tag "bob" (some "alice") (some "forged")
      (λ u sig found same.
        subst (λ key. env.verify_signature key "hi" sig ≡ false) (ap key_of found) refl)
