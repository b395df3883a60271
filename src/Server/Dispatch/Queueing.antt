-- ===== src/Server/Dispatch/Queueing.antt =====
-- Every message: what handling it may do to the groups and to the queue of waiting messages.
use nymstr.Prelude.{String, Option, inl, inr, refl, inl, inr, Bool-cases, ◌==◌, string_eq}
use nymstr.Json.{Value}
use nymstr.Transport.{ReplyTag}
use nymstr.Server.State.{Env, World, Server}
use nymstr.Server.State.Queue.{Grown, Still}
use nymstr.Server.Inbox.Growth.{
  QueueChange, QueueChange-still, fetch_pending-queue, fetch_pending-packages, ping-packages,
  ack-packages, ack-QueueChange, ping-QueueChange,
}
use nymstr.Server.Inbox.Proofs.{ping-groups, ack-Quiet}
use nymstr.Server.Accounts.Growth as Accounts
use nymstr.Server.Registry.Growth as Registry
use nymstr.Server.Registry.Groups.{GroupChange, response-GroupChange}
use nymstr.Server.Delivery.Growth as Delivery
use nymstr.Server.Delivery.Packages
use nymstr.Server.Inbox
use nymstr.Server.KeyExchange.Fetches.{fetch-PackageChange}
use nymstr.Server.KeyExchange.Packages.{PackageChange, publish-PackageChange, kp_challenge-packages}
use nymstr.Server.KeyExchange.Growth as KeyExchange
use nymstr.Server.Legacy.Growth as Legacy
use nymstr.Server.Dispatch.{Action, Envelope, dispatch_unified, dispatch_legacy, process_value}
use nymstr.Server.Dispatch.Cases.{process_value-any}

-- What handling one message may do to the groups and to the queue.
pub record StoreChange (env : Env) (w : World) (s s' : Server) : Type 0 where
  pub groups : GroupChange s.db.groups s'.db.groups
  pub queue : QueueChange env s s'
  pub packages : PackageChange env w s s'

StoreChange-Grown :
    {env : Env} {w : World} {s s' : Server}
    → Grown s s'
    → PackageChange env w s s'
    → StoreChange env w s s'
StoreChange-Grown g p = record {
  groups = GroupChange.kept g.groups;
  queue = QueueChange.grown g.queue;
  packages = p;
}

StoreChange-Still : {env : Env} {w : World} {s s' : Server} → Still s s' → StoreChange env w s s'
StoreChange-Still {env} {w} {s} {s'} h = record {
  groups = GroupChange.kept h.0;
  queue = QueueChange-still env s s' h.1;
  packages = PackageChange.kept h.2;
}

module _ (env : Env) (w : World) where
  fetch_pending-PackageChange :
      (s : Server) (v : Value) (t : ReplyTag) (user : String) (signature : Option String)
      → PackageChange env w s (Inbox.handle_fetch_pending_unified env w s v t user signature)
  fetch_pending-PackageChange s v t user signature =
      elim (fetch_pending-packages env w s v t user signature) [
        | inl same ↦ PackageChange.kept same
        | inr gone ↦ PackageChange.swept gone
      ]

  unified-StoreChange :
      (s : Server) (t : ReplyTag) (m : Envelope) (a : Action)
      → StoreChange env w s (dispatch_unified env w s t m a)
  unfolding dispatch_unified
  unified-StoreChange s t m Action.query =
      StoreChange-Still (Registry.query_unified-Still env w s m.payload t m.sender)
  unified-StoreChange s t m Action.register =
      StoreChange-Still (Accounts.register-Still env w s t m.payload m.sender)
  unified-StoreChange s t m Action.registration_response =
      StoreChange-Still (Accounts.registration_response-Still env w s t m.signature)
  unified-StoreChange s t m Action.login =
      StoreChange-Still (Accounts.login-Still env w s t m.payload m.sender)
  unified-StoreChange s t m Action.login_response =
      StoreChange-Still (Accounts.login_response-Still env w s t m.signature)
  unified-StoreChange s t m Action.send = elim (Bool-cases (m.kind == "sealed")) [
    | inl e ↦ rw e (
        StoreChange-Grown (Delivery.sealed-Grown env w s m.payload t m.recipient)
          (PackageChange.kept (Packages.sealed-KeepsPackages env w s m.payload t m.recipient)))
    | inr e ↦ rw e (
        StoreChange-Grown (Delivery.send-Grown env w s m.payload t m.sender m.recipient m.signature)
          (PackageChange.kept
            (Packages.send-KeepsPackages env w s m.payload t m.sender m.recipient m.signature)))
  ]
  unified-StoreChange s t m Action.fetch_pending = record {
    groups = GroupChange.kept (fetch_pending-queue env w s m.payload t m.sender m.signature).0;
    queue =
        QueueChange-still env s _ (fetch_pending-queue env w s m.payload t m.sender m.signature).1;
    packages = fetch_pending-PackageChange s m.payload t m.sender m.signature;
  }
  unified-StoreChange s t m Action.key_package_request =
      StoreChange-Grown
        (Delivery.key_package_request-Grown env w s m.payload t m.sender m.recipient)
        (PackageChange.kept
          (Packages.key_package_request-KeepsPackages env w s m.payload t m.sender m.recipient))
  unified-StoreChange s t m Action.key_package_response =
      StoreChange-Grown
        (Delivery.key_package_response-Grown env w s m.payload t m.sender m.recipient)
        (PackageChange.kept
          (Packages.key_package_response-KeepsPackages env w s m.payload t m.sender m.recipient))
  unified-StoreChange s t m Action.group_join_response =
      StoreChange-Grown
        (Delivery.group_join_response-Grown env w s m.payload t m.sender m.recipient)
        (PackageChange.kept
          (Packages.group_join_response-KeepsPackages env w s m.payload t m.sender m.recipient))
  unified-StoreChange s t m Action.ping = record {
    groups = GroupChange.kept (ping-groups env w s m.payload t m.sender m.signature);
    queue = ping-QueueChange env w s m.payload t m.sender m.signature;
    packages = PackageChange.kept (ping-packages env w s m.payload t m.sender m.signature);
  }
  unified-StoreChange s t m Action.ack = record {
    groups = GroupChange.kept (ack-Quiet env w s m.payload t m.sender m.signature).groups;
    queue = ack-QueueChange env w s m.payload t m.sender m.signature;
    packages = PackageChange.kept (ack-packages env w s m.payload t m.sender m.signature);
  }
  unified-StoreChange s t m Action.publish_key_package =
      StoreChange-Grown (KeyExchange.publish-Grown env w s m.payload t m.sender m.signature)
        (publish-PackageChange env w s m.payload t m.sender m.signature)
  unified-StoreChange s t m Action.fetch_kp_challenge =
      StoreChange-Grown (KeyExchange.kp_challenge-Grown env w s m.payload t)
        (PackageChange.kept (kp_challenge-packages env w s m.payload t))
  unified-StoreChange s t m Action.fetch_key_package =
      StoreChange-Grown (KeyExchange.fetch_key_package-Grown env w s m.payload t)
        (fetch-PackageChange env w s m.payload t)
  unified-StoreChange s t m _ = StoreChange-Still (refl, refl, refl)

  legacy-StoreChange :
      (s : Server) (t : ReplyTag) (v : Value) (a : Action)
      → StoreChange env w s (dispatch_legacy env w s t v a)
  unfolding dispatch_legacy
  legacy-StoreChange s t v Action.query = StoreChange-Still (Registry.query-Still env w s v t)
  legacy-StoreChange s t v Action.register = StoreChange-Still (Legacy.register-Still env w s t v)
  legacy-StoreChange s t v Action.registration_response =
      StoreChange-Still (Legacy.registration_response-Still env w s t v)
  legacy-StoreChange s t v Action.login = StoreChange-Still (Legacy.login-Still env w s t v)
  legacy-StoreChange s t v Action.login_response =
      StoreChange-Still (Legacy.login_response-Still env w s t v)
  legacy-StoreChange s t v Action.update = StoreChange-Still (Legacy.stub-Still env w s t).3
  legacy-StoreChange s t v Action.send = StoreChange-Still (Legacy.send-Still env w s t v)
  legacy-StoreChange s t v Action.send_group = StoreChange-Still (Legacy.stub-Still env w s t).1
  legacy-StoreChange s t v Action.create_group = StoreChange-Still (Legacy.stub-Still env w s t).0
  legacy-StoreChange s t v Action.invite_group = StoreChange-Still (Legacy.stub-Still env w s t).2
  legacy-StoreChange s t v Action.register_group =
      StoreChange-Still (Registry.register_group-Still env w s v t)
  legacy-StoreChange s t v Action.register_group_response = record {
    groups = response-GroupChange env w s v t;
    queue = QueueChange-still env s _ (Registry.register_group_response-queue env w s v t).0;
    packages = PackageChange.kept (Registry.register_group_response-queue env w s v t).1;
  }
  legacy-StoreChange s t v Action.query_groups =
      StoreChange-Still (Registry.query_groups-Still env w s v t)
  legacy-StoreChange s t v _ = StoreChange-Still (refl, refl, refl)

  -- Whatever the message, the groups stay, or get one group more at the end, or one group gets an
  -- address; and the queue of waiting messages either keeps all it had in front of what is new, or
  -- loses messages of one registered user whose key signed a ping or an acknowledgement. The key
  -- packages stay; or get one at the end, which its registered owner signed; or lose what one id
  -- names, for a current challenge with the work that the number of the user's packages asks for,
  -- which is two or more; or lose the expired ones.
  pub process_value-StoreChange :
      (s : Server) (t : ReplyTag) (v : Value) → StoreChange env w s (process_value env w s t v)
  process_value-StoreChange s t v =
      process_value-any env w (StoreChange env w s) s t v (StoreChange-Still (refl, refl, refl))
        (unified-StoreChange s t) (legacy-StoreChange s t v)
