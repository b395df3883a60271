-- ===== src/Tests/Drains.antt =====
-- Runs of the drain of a ping, and of the relay to a user who is away.
use mathlib.Core.List.{Perm}
use nymstr.Prelude.{
  Key, string_eq, contains, map, ◌==◌, ◌&&◌, ◌++◌, ℕ, ◌+◌, String, Bool, true, false, not, List, [],
  ◌∷◌, length, keep, ◌≡◌, refl, none, some, arith,
}
use nymstr.Json.{str}
use nymstr.Db.Tables.{PendingMessage, ok}
use nymstr.Db.Pending.{has_id}
use nymstr.Server.State.{Server, Sent}
use nymstr.Server.Delivery.{reachable, relay_with_persistence}
use nymstr.Server.Inbox.{drain, delivered_ids}
use nymstr.Server.Inbox.Drain.{waiting_for, readable, GoOut, drain-delivers, drain-loses_unsigned}
use nymstr.Server.Inbox.Waits.{relay-waiting_for}
use nymstr.Tests.Fixture.{env, mute, at_time, db, tag, server, waiting, signed}

-- bob has two messages, of which one is JSON.
abbrev two_waiting : Server
two_waiting = record server {
  db = record db {
    pending_messages = waiting ∷ record waiting { id = "m2"; payload = "register" } ∷ [];
  };
}

delivered_run : delivered_ids env (at_time 1000) (waiting_for 1000 "bob" two_waiting) ≡ "m2" ∷ []
unfolding delivered_ids nymstr.Prelude.keep nymstr.Db.Tables.order_by
delivered_run = refl

drain-delivers_example :
    ((out : List Sent) × ((drain env (at_time 1000) two_waiting tag "bob").sent
        ≡ two_waiting.sent ++ out)
      × GoOut env tag "bob" (readable env (waiting_for 1000 "bob" two_waiting)) out)
    × ((drain env (at_time 1000) two_waiting tag "bob").db.pending_messages
        ≡ keep
            (λ m. not (
              m.recipient == "bob"
              && contains m.id
                  (map (λ x. x.id) (readable env (waiting_for 1000 "bob" two_waiting)))))
            two_waiting.db.pending_messages)
drain-delivers_example =
    drain-delivers env (at_time 1000) two_waiting tag "bob" refl
      (λ text. (signed "server" text, refl))

drain-loses_unsigned_example :
    ((drain mute (at_time 1000) two_waiting tag "bob").sent ≡ two_waiting.sent)
    × ((drain mute (at_time 1000) two_waiting tag "bob").db.pending_messages
        ≡ keep
            (λ m. not (
              m.recipient == "bob"
              && contains m.id
                  (map (λ x. x.id) (readable mute (waiting_for 1000 "bob" two_waiting)))))
            two_waiting.db.pending_messages)
drain-loses_unsigned_example =
    drain-loses_unsigned mute (at_time 1000) two_waiting tag "bob" refl (λ text. refl)

-- carol has no row, so that no tag of hers is stored.
carol_away : reachable env (at_time 1000) two_waiting "carol" ≡ none
unfolding reachable nymstr.Db.Users.get_user_by_username nymstr.Db.Users.find_user
    nymstr.Db.Tables.answer nymstr.Db.Tables.fails nymstr.Server.State.get_user_sender_tag
carol_away = refl

nonce_new : has_id "nonce" two_waiting.db.pending_messages ≡ false
unfolding has_id
nonce_new = refl

relay-waiting_for_example :
    ((relay_with_persistence env (at_time 1000) two_waiting "carol" "bob" (str "hi") "send").0
      ≡ ok "nonce")
    × Perm
        (waiting_for 2000 "carol"
          (relay_with_persistence env (at_time 1000) two_waiting "carol" "bob" (str "hi") "send").1)
        (record {
          id = "nonce";
          recipient = "carol";
          sender = "bob";
          payload = env.print (str "hi");
          action = "send";
          created_at = 1000;
          expires_at = 605800;
        }
          ∷ waiting_for 2000 "carol" two_waiting)
relay-waiting_for_example =
    relay-waiting_for env (at_time 1000) two_waiting "carol" "bob" (str "hi") "send" 2000 carol_away
      refl nonce_new (omega arith)
