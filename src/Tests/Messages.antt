-- ===== src/Tests/Messages.antt =====
-- Runs of the server over messages.
use nymstr.Prelude.{ℕ, List, [], ◌∷◌, Option, some, refl}
use nymstr.Common.Validation.{is_valid_username}
use nymstr.Transport.{ReplyTag}
use nymstr.Db.Users.{find_user}
use nymstr.Db.Users.Laws.{KeyOf}
use nymstr.Db.Groups.{find_group}
use nymstr.Db.Groups.Laws.{GroupKeyOf}
use nymstr.Server.State.{World}
use nymstr.Server.State.Change.{Change}
use nymstr.Server.Dispatch.{process_value}
use nymstr.Server.Dispatch.Accountable.{Signs, process_value-Change}
use nymstr.Server.Dispatch.Queueing.{StoreChange, process_value-StoreChange}
use nymstr.Server.Dispatch.Invariant.{IsSound, run, run-IsSound, run-KeyOf}
use nymstr.Server.Dispatch.Waiting.{Awaits, run-Awaits, run-GroupKeyOf}
use nymstr.Tests.Fixture.{env, at_time, bob, alice, hidden, tag, server, register_message}

-- carol registers, and somebody sends what is no text.
abbrev messages : List (World × Option ReplyTag × List ℕ)
messages =
    (at_time 1000, some tag, 0 ∷ [])
    ∷ (at_time 1001, some tag, 1 ∷ [])
    ∷ (at_time 1002, some tag, [])
    ∷ []

process_value-Change_example :
    Change
      (Signs env (at_time 1000) register_message)
      env
      (at_time 1000)
      tag
      server
      (process_value env (at_time 1000) server tag register_message)
process_value-Change_example = process_value-Change env (at_time 1000) server tag register_message

process_value-StoreChange_example :
    StoreChange env
      (at_time 1000)
      server
      (process_value env (at_time 1000) server tag register_message)
process_value-StoreChange_example =
    process_value-StoreChange env (at_time 1000) server tag register_message

run-IsSound_example : IsSound (run env server messages)
unfolding find_user is_valid_username
run-IsSound_example = run-IsSound env messages server (record {
  distinct = (refl, (refl, tt));
  valid = (refl, (refl, tt));
  pending = (refl, tt);
  logins = ((alice, refl, refl), tt);
})

run-KeyOf_example : KeyOf (run env server messages).db.users "bob" "lost"
unfolding find_user
run-KeyOf_example = run-KeyOf env messages server "bob" "lost" (bob, refl, refl)

run-GroupKeyOf_example : GroupKeyOf (run env server messages).db.groups "hidden" "group-key"
unfolding find_group
run-GroupKeyOf_example =
    run-GroupKeyOf env messages server "hidden" "group-key" (hidden, refl, refl)

run-Awaits_example :
    Awaits "bob" server.db.pending_messages (run env server messages).db.pending_messages
unfolding find_user
run-Awaits_example =
    run-Awaits env messages server "bob" "lost" (λ text signature claim. refl) (bob, refl, refl)
