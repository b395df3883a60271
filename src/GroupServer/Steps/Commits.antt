-- ===== src/GroupServer/Steps/Commits.antt =====
-- `syncEpoch` and `bufferCommit` take only allowed steps.
use nymstr.Prelude.{ℕ, String, List, refl}
use nymstr.Prelude.Int.{ℤ}
use nymstr.Json.{Value}
use nymstr.Transport.{ReplyTag}
use nymstr.Db.Tables.{Result, ok, err}
use nymstr.Server.State.{World}
use nymstr.GroupServer.Tables.{Tables, Commit}
use nymstr.GroupServer.Tables.Queues.{buffer_commit, get_commits_since_id, cleanup_old_commits}
use nymstr.GroupServer.State.{
  GroupEnv, call, expect, check_general_rate_limit, authenticate_request_core, authorize_member,
}
use nymstr.GroupServer.Rules.{
  Does, Does-after, Does-call, Does-attempt, Does-reply, guards_general, guards_expect, guards_read,
}
use nymstr.GroupServer.Checks.{guards_authenticate, guards_authorize}
use nymstr.GroupServer.Commits.{since, synced, buffered, handle_sync_epoch, handle_buffer_commit}
use nymstr.GroupServer.Steps.{Submits, Step, Steps, next}

module _ (g : GroupEnv) (w : World) (tag : ReplyTag) {t₀ : Tables} where
  synced-Steps :
      {t : Tables} (group_id : String) (r : Result (List Commit))
      → Steps g w t₀ t
      → Does (Steps g w t₀) t (synced g w tag group_id r)
  unfolding synced
  synced-Steps group_id (ok l) p = Does-reply g w tag _ _ p
  synced-Steps group_id err p = Does-reply g w tag _ _ p

  pub sync_epoch-Steps :
      {t : Tables} (payload : Value) (sender signature : String)
      → Steps g w t₀ t
      → Does (Steps g w t₀) t (handle_sync_epoch g w tag payload sender signature)
  unfolding handle_sync_epoch get_commits_since_id
  sync_epoch-Steps payload sender signature p =
      Does-after (check_general_rate_limit g w tag _) _ (guards_general g w tag _) p λ _ _.
        Does-after (expect g w tag _ _ _) _ (guards_expect g w tag _ _ _) p λ group_id _.
          Does-after (authenticate_request_core g w tag _ _ _ _) _
            (guards_authenticate g w tag _ _ _ _) p
            λ user _.
              Does-after (authorize_member g w tag _ _) _ (guards_authorize g w tag _ _) p λ _ _.
                Does-after (call (get_commits_since_id group_id (since payload))) _
                  (guards_read (get_commits_since_id group_id (since payload)) refl) p
                  λ l _. synced-Steps group_id l p

  buffered-Steps :
      {t : Tables} (sender group_id : String) (epoch : ℤ) (r : Result ℕ)
      → Submits g w t sender group_id epoch
      → Steps g w t₀ t
      → Does (Steps g w t₀) t (buffered g w tag group_id epoch r)
  unfolding buffered
  buffered-Steps sender group_id epoch (ok id) submits p =
      Does-attempt (cleanup_old_commits group_id 100) _ (Does-reply g w tag _ _ p)
        (Does-reply g w tag _ _ (next p (Step.trim_commits sender group_id epoch submits)))
  buffered-Steps sender group_id epoch err submits p = Does-reply g w tag _ _ p

  pub buffer_commit-Steps :
      {t : Tables} (payload : Value) (sender signature : String)
      → Steps g w t₀ t
      → Does (Steps g w t₀) t (handle_buffer_commit g w tag payload sender signature)
  unfolding handle_buffer_commit buffer_commit
  buffer_commit-Steps {t} payload sender signature p =
      Does-after (check_general_rate_limit g w tag _) _ (guards_general g w tag _) p λ _ _.
        Does-after (expect g w tag _ _ _) _ (guards_expect g w tag _ _ _) p λ group_id _.
          Does-after (expect g w tag _ _ _) _ (guards_expect g w tag _ _ _) p λ epoch _.
            Does-after (expect g w tag _ _ _) _ (guards_expect g w tag _ _ _) p λ text _.
              Does-after (expect g w tag _ _ _) _ (guards_expect g w tag _ _ _) p λ bytes _.
                Does-after (authenticate_request_core g w tag _ _ _ _) _
                  (guards_authenticate g w tag _ _ _ _) p
                  λ user (same, authentic).
                    Does-after (authorize_member g w tag _ _) _ (guards_authorize g w tag _ _) p
                      λ _ member.
                        let submits : Submits g w t sender group_id epoch = record {
                          signature = signature;
                          authentic = authentic;
                          member = rw (← same) member;
                        } in
                        let op = buffer_commit group_id epoch bytes sender (g.env.rfc3339 w.unix) in
                        let still : Submits g w (op t).1 sender group_id epoch = record {
                          signature = signature;
                          authentic = authentic;
                          member = submits.member;
                        } in
                        Does-call op _ (buffered-Steps sender group_id epoch err submits p) (
                          buffered-Steps sender group_id epoch _ still
                            (next p (Step.commit sender group_id epoch bytes submits)))
