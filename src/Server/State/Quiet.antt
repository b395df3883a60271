-- ===== src/Server/State/Quiet.antt =====
-- Steps that touch neither the registered users and groups nor the pending handshakes.
use nymstr.Prelude.{◌≡◌, ◌∙◌}
use nymstr.Server.State.{Server}

pub record Quiet (s s' : Server) : Type 0 where
  pub users : s'.db.users ≡ s.db.users
  pub groups : s'.db.groups ≡ s.db.groups
  pub pending_users : s'.pending_users ≡ s.pending_users
  pub nonces : s'.nonces ≡ s.nonces
  pub pending_groups : s'.pending_groups ≡ s.pending_groups

pub Quiet-trans : {s t u : Server} → Quiet s t → Quiet t u → Quiet s u
Quiet-trans p q = record {
  users = q.users ∙ p.users;
  groups = q.groups ∙ p.groups;
  pending_users = q.pending_users ∙ p.pending_users;
  nonces = q.nonces ∙ p.nonces;
  pending_groups = q.pending_groups ∙ p.pending_groups;
}
