-- ===== src/Server/State/Queue.antt =====
-- How handling a message may change the groups and the queue of waiting messages.
use nymstr.Prelude.{length, take, ◌≡◌}
use nymstr.Server.State.{Server}

-- The groups stay, and the queue is what it was, with messages added at its end at most.
pub record Grown (s s' : Server) : Type 0 where
  pub groups : s'.db.groups ≡ s.db.groups
  pub queue : take (length s.db.pending_messages) s'.db.pending_messages ≡ s.db.pending_messages

-- Both stay, and so do the key packages.
abbrev pub Still : Server → Server → Type 0
Still s s' =
    (s'.db.groups ≡ s.db.groups)
    × (s'.db.pending_messages ≡ s.db.pending_messages)
    × (s'.db.key_packages ≡ s.db.key_packages)
