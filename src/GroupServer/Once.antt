-- ===== src/GroupServer/Once.antt =====
-- The same content sent twice: the second time it is a duplicate.
use nymstr.GroupServer.Steps.Hashes.{Has, run-Has}
use nymstr.GroupServer.Steps.Process.{run}
use nymstr.Prelude.{
  ℕ, ◌+◌, ◌≤◌, List, Option, refl, All, String, true, false, [], ◌∷◌, ◌++◌, none, some, ◌≡◌, ap,
  ◌∙◌, ==_self, string_eq,
}
use nymstr.Transport.{ReplyTag}
use nymstr.Server.State.{World}
use nymstr.GroupServer.Tables.Queues.{find_hash}
use nymstr.GroupServer.State.{GroupEnv, GroupServer, reply, refuse, send_encapsulated_reply}
use nymstr.GroupServer.Requests.{SendGroupRequest}
use nymstr.GroupServer.Messages.{dedup_hash, handle_send_group_core}
use nymstr.GroupServer.Sends.{MaySend, find_hash-append, refuses-old, stores_new, loses_new, marked}

module _ (g : GroupEnv) (w : World) (tag : ReplyTag) (s : GroupServer) (r : SendGroupRequest)
    (new : find_hash (dedup_hash g r.username r.ciphertext) s.tables.recent_message_hashes
      ≡ none) where
  -- A hash that was put down is found again.
  noted-found :
      (username ciphertext : String)
      → username ≡ r.username
      → ciphertext ≡ r.ciphertext
      → find_hash
          (dedup_hash g username ciphertext)
          (marked (dedup_hash g r.username r.ciphertext) w.unix s.tables).recent_message_hashes
        ≡ some (record { hash = dedup_hash g r.username r.ciphertext; created_at = w.unix })
  noted-found username ciphertext e f =
      rw (e, f)
        (find_hash-append (dedup_hash g r.username r.ciphertext) s.tables.recent_message_hashes _
          (==_self (dedup_hash g r.username r.ciphertext)) new)

  -- A later state with that hash and no failures ahead refuses the same content.
  same_refused :
      (s' : GroupServer) (w' : World) (tag' : ReplyTag) (r' : SendGroupRequest)
      → s'.faults ≡ []
      → Has
          (dedup_hash g r.username r.ciphertext)
          (record { hash = dedup_hash g r.username r.ciphertext; created_at = w.unix })
          s'.tables
      → r'.username ≡ r.username
      → r'.ciphertext ≡ r.ciphertext
      → MaySend g w' tag' s' r'
      → (handle_send_group_core g w' tag' r' s').1.tables ≡ s'.tables
  unfolding refuse send_encapsulated_reply
  same_refused s' w' tag' r' healthy there e f h =
      ap (λ p. p.1.tables)
        (refuses-old g w' tag' s' r' h
          (record { hash = dedup_hash g r.username r.ciphertext; created_at = w.unix })
          (rw (e, f) there) healthy)

  module _ (ms : List (World × Option ReplyTag × List ℕ)) (w' : World) (tag' : ReplyTag)
      (r' : SendGroupRequest) (e : r'.username ≡ r.username) (f : r'.ciphertext ≡ r.ciphertext)
      (h : MaySend g w tag s r) where
    -- With a healthy database at both times, a new content that a member sends is added to the log
    -- once: sent again after any messages that come within the ten minutes for which its hash is
    -- kept, in whatever request of that member, it changes nothing.
    pub send-once :
        let u = run g (handle_send_group_core g w tag r s).1 ms in
        All (λ m. m.0.unix ≤ w.unix + 600) ms
        → MaySend g w' tag' u r'
        → s.faults ≡ []
        → u.faults ≡ []
        → ((handle_send_group_core g w tag r s).1.tables.messages
            ≡ s.tables.messages
              ++ record {
                id = s.tables.next_message;
                sender = r.username;
                ciphertext = r.ciphertext;
                timestamp = g.env.rfc3339 w.unix;
              }
                ∷ [])
          × ((handle_send_group_core g w' tag' r' u).1.tables ≡ u.tables)
    unfolding reply send_encapsulated_reply
    send-once young h' healthy healthy' =
        let first_run = stores_new g w tag s r h new healthy in
        (
          ap (λ p. p.1.tables.messages) first_run,
          same_refused _ w' tag' r' healthy'
              (run-Has _ _ g ms young (handle_send_group_core g w tag r s).1 (
                ap
                  (λ p.
                    find_hash (dedup_hash g r.username r.ciphertext)
                      p.1.tables.recent_message_hashes)
                  first_run
                ∙ noted-found r.username r.ciphertext refl refl))
              e f h',
        )

  module _ (w' : World) (tag' : ReplyTag) (r' : SendGroupRequest) (e : r'.username ≡ r.username)
      (f : r'.ciphertext ≡ r.ciphertext) (h : MaySend g w tag s r)
      (h' : MaySend g w' tag' (handle_send_group_core g w tag r s).1 r') where
    -- Where storing a new content fails after its hash was put down, it is lost: the log stays as
    -- it was, also when the member sends the content again before the hash is deleted.
    pub send-loses_failed :
        s.faults ≡ false ∷ false ∷ false ∷ true ∷ []
        → ((handle_send_group_core g w tag r s).1.tables.messages ≡ s.tables.messages)
          × ((handle_send_group_core g w' tag' r'
                (handle_send_group_core g w tag r s).1).1.tables.messages
              ≡ s.tables.messages)
    unfolding reply send_encapsulated_reply
    send-loses_failed broken =
        let failed = loses_new g w tag s r h new broken in
        let lost : (handle_send_group_core g w tag r s).1.tables.messages ≡ s.tables.messages =
          ap (λ p. p.1.tables.messages) failed in
        (
          lost,
          ap (λ t. t.messages)
                (same_refused (handle_send_group_core g w tag r s).1 w' tag' r'
                  (ap (λ p. p.1.faults) failed)
                  (ap
                      (λ p.
                        find_hash (dedup_hash g r.username r.ciphertext)
                          p.1.tables.recent_message_hashes)
                      failed
                    ∙ noted-found r.username r.ciphertext refl refl)
                  e f h')
              ∙ lost,
        )
