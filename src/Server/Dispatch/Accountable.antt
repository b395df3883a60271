-- ===== src/Server/Dispatch/Accountable.antt =====
-- Every message: what handling it may do to the accounts.
use nymstr.Prelude.{String, ◌⊎◌, refl, inl, inr, Bool-cases, ◌==◌, string_eq}
use nymstr.Json.{Value}
use nymstr.Transport.{ReplyTag}
use nymstr.Server.State.{Env, World, Server}
use nymstr.Server.State.Quiet.{Quiet}
use nymstr.Server.State.Change.{Claims, Change, Change-mono, Change-Quiet}
use nymstr.Server.Accounts.Proofs.{register-Change, registration_response-Change}
use nymstr.Server.Accounts.Logins.{login-Change, login_response-Change}
use nymstr.Server.Legacy.Proofs.{stub-Quiet}
use nymstr.Server.Legacy.Proofs
use nymstr.Server.Legacy.Sends
use nymstr.Server.Legacy.Sends.{Says}
use nymstr.Server.Legacy.Logins
use nymstr.Server.Registry.Proofs.{
  query_unified-Quiet, query-Quiet, query_groups-Quiet, register_group-Change,
  register_group_response-Change,
}
use nymstr.Server.Delivery.Guards.{
  send-Quiet, sealed-Quiet, key_package_request-Quiet, key_package_response-Quiet,
  group_join_response-Quiet,
}
use nymstr.Server.Inbox.Proofs.{Pings, fetch_pending-Quiet, ack-Quiet, ping-Change}
use nymstr.Server.KeyExchange.Proofs.{publish-Quiet, kp_challenge-Quiet, fetch_key_package-Quiet}
use nymstr.Server.Dispatch.{
  Action, Envelope, envelope_of, dispatch_unified, dispatch_legacy, process_value,
}
use nymstr.Server.Dispatch.Cases.{process_value-each}

Quiet-self : (s : Server) → Quiet s s
Quiet-self s = record {
  users = refl;
  groups = refl;
  pending_users = refl;
  nonces = refl;
  pending_groups = refl;
}

module _ (env : Env) (w : World) where
  unified-Change :
      (s : Server) (t : ReplyTag) (m : Envelope) (a : Action)
      → Change (Pings w m.payload m.sender m.signature) env w t s (dispatch_unified env w s t m a)
  unfolding dispatch_unified
  unified-Change s t m Action.query =
      Change-Quiet (query_unified-Quiet env w s m.payload t m.sender)
  unified-Change s t m Action.register = register-Change env w s m.payload t m.sender
  unified-Change s t m Action.registration_response =
      registration_response-Change env w s t m.signature
  unified-Change s t m Action.login = login-Change env w s m.payload t m.sender
  unified-Change s t m Action.login_response = login_response-Change env w s t m.signature
  unified-Change s t m Action.send = elim (Bool-cases (m.kind == "sealed")) [
    | inl e ↦ rw e (Change-Quiet (sealed-Quiet env w s m.payload t m.recipient))
    | inr e ↦ rw e (Change-Quiet (send-Quiet env w s m.payload t m.sender m.recipient m.signature))
  ]
  unified-Change s t m Action.fetch_pending =
      Change-Quiet (fetch_pending-Quiet env w s m.payload t m.sender m.signature)
  unified-Change s t m Action.key_package_request =
      Change-Quiet (key_package_request-Quiet env w s m.payload t m.sender m.recipient)
  unified-Change s t m Action.key_package_response =
      Change-Quiet (key_package_response-Quiet env w s m.payload t m.sender m.recipient)
  unified-Change s t m Action.group_join_response =
      Change-Quiet (group_join_response-Quiet env w s m.payload t m.sender m.recipient)
  unified-Change s t m Action.ping = ping-Change env w s m.payload t m.sender m.signature
  unified-Change s t m Action.ack =
      Change-Quiet (ack-Quiet env w s m.payload t m.sender m.signature)
  unified-Change s t m Action.publish_key_package =
      Change-Quiet (publish-Quiet env w s m.payload t m.sender m.signature)
  unified-Change s t m Action.fetch_kp_challenge =
      Change-Quiet (kp_challenge-Quiet env w s m.payload t)
  unified-Change s t m Action.fetch_key_package =
      Change-Quiet (fetch_key_package-Quiet env w s m.payload t)
  unified-Change s t m _ = Change-Quiet (Quiet-self s)

  legacy-Change :
      (s : Server) (t : ReplyTag) (v : Value) (a : Action)
      → Change (Says env v) env w t s (dispatch_legacy env w s t v a)
  unfolding dispatch_legacy
  legacy-Change s t v Action.query = Change-Quiet (query-Quiet env w s v t)
  legacy-Change s t v Action.register = Proofs.register-Change env w s v t
  legacy-Change s t v Action.registration_response = Proofs.registration_response-Change env w s v t
  legacy-Change s t v Action.login = Logins.login-Change env w s v t
  legacy-Change s t v Action.login_response = Logins.login_response-Change env w s v t
  legacy-Change s t v Action.update = Change-Quiet (stub-Quiet env w s t).3
  legacy-Change s t v Action.send = Sends.send-Change env w s v t
  legacy-Change s t v Action.send_group = Change-Quiet (stub-Quiet env w s t).1
  legacy-Change s t v Action.create_group = Change-Quiet (stub-Quiet env w s t).0
  legacy-Change s t v Action.invite_group = Change-Quiet (stub-Quiet env w s t).2
  legacy-Change s t v Action.register_group = register_group-Change env w s v t
  legacy-Change s t v Action.register_group_response = register_group_response-Change env w s v t
  legacy-Change s t v Action.query_groups = Change-Quiet (query_groups-Quiet env w s v t)
  legacy-Change s t v _ = Change-Quiet (Quiet-self s)

  -- What the message says in its user's name, and its signature: the text of a fresh ping, or the
  -- content of a send of the old format, in which the user is the sender.
  abbrev pub Signs : Value → Claims
  Signs v name text signature =
      ((kind : String) × let m = envelope_of kind v in
          Pings w m.payload m.sender m.signature name text signature)
      ⊎ Says env v name text signature

  -- Whatever the message, the users table changes in one of four ways: not at all; by a
  -- registration that was pending for this sender, whose name is free and whose nonce the new key
  -- signed; or by storing the sender's tag for a user whose key signed a nonce pending for this
  -- sender, or made the signature in this message over what it says: the ping text of the user it
  -- names at the fresh time it carries, or its content, in which the user stands as the sender.
  -- Pending registrations are issued for valid names alone, and pending logins with the key that
  -- the user has.
  pub process_value-Change :
      (s : Server) (t : ReplyTag) (v : Value)
      → Change (Signs v) env w t s (process_value env w s t v)
  process_value-Change s t v =
      process_value-each env w (Change (Signs v) env w t s) s t v (Change-Quiet (Quiet-self s))
        (λ kind a.
          Change-mono (λ name text sig c. inl (kind, c))
            (unified-Change s t (envelope_of kind v) a))
        (λ a. Change-mono (λ name text sig c. inr c) (legacy-Change s t v a))
