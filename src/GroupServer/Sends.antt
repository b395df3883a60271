-- ===== src/GroupServer/Sends.antt =====
-- A message is stored once, and is lost where it cannot be stored at the first attempt.
use nymstr.Prelude.{
  ℕ, ◌+◌, String, Bool, true, false, not, List, [], ◌∷◌, none, some, ◌≡◌, refl, ap, ◌∙◌, ◌==◌,
  first, string_eq, arith,
}
use nymstr.Prelude.{◌++◌ as append}
use nymstr.Transport.{ReplyTag}
use nymstr.Db.Tables.{Result, ok, err, fails, rest}
use nymstr.Server.State.{World}
use nymstr.GroupServer.Tables.{Tables, MessageHash, is_row}
use nymstr.GroupServer.Tables.Queues.{store_message, check_and_store_message_hash, find_hash}
use nymstr.GroupServer.State.{
  GroupEnv, GroupServer, Handler, ◌>>=◌, pure, call, reply, refuse, require,
  check_general_rate_limit, authenticate_request_core, authorize_member,
}
use nymstr.GroupServer.Requests.{SendGroupRequest}
use nymstr.GroupServer.Messages.{
  dedup_hash, check_duplicate, unless_duplicate, stored, duplicate_text, stored_text,
  handle_send_group_core,
}
use nymstr.GroupServer.Runs.{
  bind-some, bind-none, after_call, Works, call-Works, call-err, require-true, MayAct, limited,
  general-passes, authenticate-passes, authorize-passes,
}

-- A member may send it.
pub record MaySend (g : GroupEnv) (w : World) (tag : ReplyTag) (s : GroupServer)
    (r : SendGroupRequest) : Type 0 where
  pub acts : MayAct g w tag s r.username r.signature r.ciphertext
  pub present : not (r.ciphertext == "") ≡ true
  pub member : is_row g.group_id r.username s.tables.group_members ≡ true
  pub hashed : not (dedup_hash g r.username r.ciphertext == "") ≡ true

-- The tables with a hash put down.
abbrev pub marked : String → ℕ → Tables → Tables
marked hash now t = record t {
  recent_message_hashes =
      append t.recent_message_hashes (record { hash = hash; created_at = now } ∷ []);
}

module _ (g : GroupEnv) (w : World) (tag : ReplyTag) where
  abbrev store_and_answer : String → String → Handler (Unit {0})
  store_and_answer username ciphertext =
      call (store_message username ciphertext (g.env.rfc3339 w.unix)) >>= stored g w tag

  -- The checks pass, and use two calls.
  send_reaches :
      (s : GroupServer) (r : SendGroupRequest) (fs gs : List Bool)
      → MaySend g w tag s r
      → Works s.faults fs
      → Works fs gs
      → handle_send_group_core g w tag r s
        ≡ (check_duplicate g w tag (dedup_hash g r.username r.ciphertext) >>= λ _.
              store_and_answer r.username r.ciphertext)
            (record (limited g w tag "sendGroupResponse" s) { faults = gs })
  unfolding handle_send_group_core
  send_reaches s r fs gs h one two =
      let l : GroupServer = limited g w tag "sendGroupResponse" s in
      let s1 : GroupServer = record l { faults = fs } in
      let s2 : GroupServer = record l { faults = gs } in
      bind-some (check_general_rate_limit g w tag _) _ s l tt
        (general-passes g w tag _ s h.acts.limiter_open)
      ∙ bind-some (require g w tag _ _ _) _ l l tt (require-true g w tag _ l _ _ h.present)
      ∙ bind-some (authenticate_request_core g w tag _ _ _ _) _ l s1 r.username
          (authenticate-passes g w tag _ s r.username r.signature r.ciphertext fs h.acts one)
      ∙ bind-some (authorize_member g w tag _ _) _ s1 s2 tt
          (authorize-passes g w tag _ s1 r.username gs h.member two)

  module _ (hash : String) (full : not (hash == "") ≡ true) (s : GroupServer) (fs : List Bool)
      (works : Works s.faults fs) where
    abbrev check : Tables → Result Bool × Tables
    check = check_and_store_message_hash hash w.unix

    -- The check of a hash, whatever it answers.
    checks :
        (p : Result Bool × Tables)
        → check s.tables ≡ p
        → check_duplicate g w tag hash s
          ≡ unless_duplicate g w tag p.0 (record s { tables = p.1; faults = fs })
    unfolding check_duplicate
    checks p e =
        rw (full, check_duplicate)
          (bind-some (call check) (λ r. unless_duplicate g w tag r) s (after_call check s fs)
              (check s.tables).0 (call-Works check s fs works)
            ∙ ap (λ q. unless_duplicate g w tag q.0 (record s { tables = q.1; faults = fs })) e)

    -- A hash that is not there is put down.
    passes-new :
        find_hash hash s.tables.recent_message_hashes ≡ none
        → check_duplicate g w tag hash s
          ≡ (some tt, record s { tables = marked hash w.unix s.tables; faults = fs })
    unfolding unless_duplicate pure check_and_store_message_hash
    passes-new new = checks (ok true, marked hash w.unix s.tables) (rw (new, check) refl)

    -- One that is there ends the handler.
    stops-old :
        (x : MessageHash)
        → find_hash hash s.tables.recent_message_hashes ≡ some x
        → check_duplicate g w tag hash s
          ≡ refuse g w tag "sendGroupResponse" (duplicate_text g) (record s { faults = fs })
    unfolding unless_duplicate check_and_store_message_hash
    stops-old x old = checks (ok false, s.tables) (rw (old, check) refl)

pub find_hash-append :
    (hash : String) (l : List MessageHash) (x : MessageHash)
    → (x.hash == hash) ≡ true
    → find_hash hash l ≡ none
    → find_hash hash (append l (x ∷ [])) ≡ some x
unfolding find_hash first
find_hash-append hash [] x e h = rw e refl
find_hash-append hash (y ∷ l) x e h = ground (arith, find_hash-append hash l x)

-- The tables with a message stored.
abbrev pub posted : String → String → String → Tables → Tables
posted sender ciphertext now t = record t {
  messages = append t.messages (
      record { id = t.next_message; sender = sender; ciphertext = ciphertext; timestamp = now }
      ∷ []);
  next_message = t.next_message + 1;
}

module _ (g : GroupEnv) (w : World) (tag : ReplyTag) (s : GroupServer) (r : SendGroupRequest)
    (h : MaySend g w tag s r) where
  abbrev pub hash : String
  hash = dedup_hash g r.username r.ciphertext

  abbrev pub at_faults : Tables → List Bool → GroupServer
  at_faults t fs = record (limited g w tag "sendGroupResponse" s) { tables = t; faults = fs }

  -- A content whose hash is there is refused.
  pub refuses-old :
      (x : MessageHash)
      → find_hash hash s.tables.recent_message_hashes ≡ some x
      → s.faults ≡ []
      → handle_send_group_core g w tag r s
        ≡ refuse g w tag "sendGroupResponse" (duplicate_text g) (at_faults s.tables [])
  unfolding fails rest refuse
  refuses-old x old healthy =
      send_reaches g w tag s r [] [] h (rw healthy refl, rw healthy refl) (refl, refl)
      ∙ bind-none (check_duplicate g w tag hash) _ (at_faults s.tables []) _
          (stops-old g w tag hash h.hashed (at_faults s.tables []) [] (refl, refl) x old)

  module _ (new : find_hash hash s.tables.recent_message_hashes ≡ none) where
    abbrev pub noted : Tables
    noted = marked hash w.unix s.tables

    -- With a new hash the handler comes to the call that stores.
    reaches_store :
        (fs gs hs : List Bool)
        → Works s.faults fs
        → Works fs gs
        → Works gs hs
        → handle_send_group_core g w tag r s
          ≡ store_and_answer g w tag r.username r.ciphertext (at_faults noted hs)
    reaches_store fs gs hs one two three =
        send_reaches g w tag s r fs gs h one two
        ∙ bind-some (check_duplicate g w tag hash) _ (at_faults s.tables gs) (at_faults noted hs) tt
            (passes-new g w tag hash h.hashed (at_faults s.tables gs) hs three new)

    pub stores_new :
        s.faults ≡ []
        → handle_send_group_core g w tag r s
          ≡ reply g w tag "sendGroupResponse"
              (stored_text g s.tables.next_message)
              (at_faults (posted r.username r.ciphertext (g.env.rfc3339 w.unix) noted) [])
    unfolding fails rest stored store_message
    stores_new healthy =
        let op = store_message r.username r.ciphertext (g.env.rfc3339 w.unix) in
        reaches_store [] [] [] (rw healthy refl, rw healthy refl) (refl, refl) (refl, refl)
        ∙ bind-some (call op) (stored g w tag) (at_faults noted []) _ (op noted).0
            (call-Works op (at_faults noted []) [] (refl, refl))
        ∙ rw (h.acts.registered, store_message) refl

    pub loses_new :
        s.faults ≡ false ∷ false ∷ false ∷ true ∷ []
        → handle_send_group_core g w tag r s
          ≡ reply g w tag "sendGroupResponse" "error: failed to store message" (at_faults noted [])
    unfolding fails rest stored
    loses_new broken =
        let op = store_message r.username r.ciphertext (g.env.rfc3339 w.unix) in
        reaches_store (false ∷ false ∷ true ∷ []) (false ∷ true ∷ []) (true ∷ [])
          (rw broken refl, rw broken refl) (refl, refl) (refl, refl)
        ∙ bind-some (call op) (stored g w tag) (at_faults noted (true ∷ [])) (at_faults noted [])
            err (call-err op (at_faults noted (true ∷ [])) [] refl)
