-- ===== src/GroupServer/Commits.antt =====
-- nymstr-group/src/message_utils.rs: `syncEpoch` and `bufferCommit`.
pub mod Kept
use Prim.Native.String.{◌++◌}
use nymstr.Prelude.{
  ℕ, String, List, [], ◌∷◌, Option, none, some, map, or_else, ◌==◌, if◌then◌else◌, string_eq,
}
use nymstr.Prelude.Int.{ℤ, pos, show_ℤ}
use nymstr.Json.{Value, str, int, object, array, get_str, get_i64}
use nymstr.Common.Validation.{is_valid_group_id}
use nymstr.Transport.{ReplyTag}
use nymstr.Db.Tables.{Result, ok, err}
use nymstr.Server.State.{World}
use nymstr.GroupServer.Tables.{Commit}
use nymstr.GroupServer.Tables.Queues.{buffer_commit, get_commits_since_id, cleanup_old_commits}
use nymstr.GroupServer.State.{
  GroupEnv, Handler, ◌>>=◌, ◌>>◌, call, attempt, reply, expect, check_general_rate_limit,
  authenticate_request_core, authorize_member,
}
use nymstr.GroupServer.Welcomes.{checked, is_present}

-- `sinceId`, or else `sinceEpoch`, or else 0.
unfoldable pub since : Value → ℤ
since payload = elim (get_i64 "sinceId" payload) [
  | some n ↦ n
  | none ↦ or_else (get_i64 "sinceEpoch" payload) (pos 0)
]

module _ (g : GroupEnv) (w : World) (tag : ReplyTag) where
  unfoldable pub commit_json : Commit → Value
  commit_json c = object (
      ("id", int (pos c.id))
      ∷ ("epoch", int c.epoch)
      ∷ ("commit", str (g.encode c.commit_msg))
      ∷ ("sender", str c.sender)
      ∷ [])

  unfoldable pub synced : String → Result (List Commit) → Handler (Unit {0})
  synced group_id (ok l) = reply g w tag "syncEpochResponse" (
      g.env.print (
        object (
          ("groupId", str group_id)
          ∷ ("currentEpoch", int (pos 0))
          ∷ ("commits", array (map commit_json l))
          ∷ [])))
  synced group_id err = reply g w tag "syncEpochResponse" "error: failed to sync epoch"

  unfoldable pub handle_sync_epoch : Value → String → String → Handler (Unit {0})
  handle_sync_epoch payload sender signature = do
    check_general_rate_limit g w tag "syncEpochResponse"
    group_id ←
        expect g w tag "syncEpochResponse" (checked is_valid_group_id (get_str "groupId" payload))
          "error: missing or invalid groupId"
    username ←
        authenticate_request_core g w tag "syncEpochResponse" sender signature
          (group_id ++ ":" ++ show_ℤ (since payload))
    authorize_member g w tag "syncEpochResponse" username
    l ← call (get_commits_since_id group_id (since payload))
    synced group_id l

  -- The newest 100 commits of the group are kept.
  unfoldable pub buffered : String → ℤ → Result ℕ → Handler (Unit {0})
  buffered group_id epoch (ok id) = do
    attempt (cleanup_old_commits group_id 100)
    reply g w tag "bufferCommitResponse"
        (g.env.print (object (("status", str "success") ∷ ("epoch", int epoch) ∷ [])))
  buffered group_id epoch err =
      reply g w tag "bufferCommitResponse" "error: failed to buffer commit"

  unfoldable pub handle_buffer_commit : Value → String → String → Handler (Unit {0})
  handle_buffer_commit payload sender signature = do
    check_general_rate_limit g w tag "bufferCommitResponse"
    group_id ←
        expect g w tag "bufferCommitResponse"
          (checked is_valid_group_id (get_str "groupId" payload))
          "error: missing or invalid groupId"
    epoch ← expect g w tag "bufferCommitResponse" (get_i64 "epoch" payload) "error: missing epoch"
    commit_b64 ←
        expect g w tag "bufferCommitResponse" (checked is_present (get_str "commit" payload))
          "error: missing commit"
    commit ←
        expect g w tag "bufferCommitResponse" (g.decode commit_b64) "error: invalid base64 commit"
    username ←
        authenticate_request_core g w tag "bufferCommitResponse" sender signature
          (group_id ++ ":" ++ show_ℤ epoch)
    authorize_member g w tag "bufferCommitResponse" username
    id ← call (buffer_commit group_id epoch commit sender (g.env.rfc3339 w.unix))
    buffered group_id epoch id
