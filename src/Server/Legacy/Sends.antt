-- ===== src/Server/Legacy/Sends.antt =====
-- What a legacy send changes.
use nymstr.Prelude.{String, true, Option, none, some, ◌≡◌, ◌⊎◌, inl, inr, arith, Option-cases}
use nymstr.Json.{Value, get_str}
use nymstr.Transport.{ReplyTag, tag_eq}
use nymstr.Db.Tables.{User, ok_or}
use nymstr.Db.Users.{get_user_by_username, set_column, sender_tag}
use nymstr.Db.Users.Laws.{users_set_cases}
use nymstr.Server.State.{Env, World, Server, tag_text, queried}
use nymstr.Server.State.Quiet.{Quiet}
use nymstr.Server.State.Change.{
  Claims, UserChange, PendingChange, NonceChange, Change, Change-Quiet,
}
use nymstr.Server.Legacy.Chat.{
  extract_usernames, verify_content, send_parsed, handle_send, route_message_to_recipient,
}
use nymstr.Server.Legacy.Proofs.{found_user}

-- The content of a message, which names its sender, and the signature beside it.
abbrev pub Says : Env → Value → Claims
Says env v name text signature =
    (get_str "content" v ≡ some text)
    × (get_str "signature" v ≡ some signature)
    × (c : Value) × (env.parse text ≡ some c)
    × (get_str "sender" c ≡ some name)

module _ (env : Env) (w : World) where
  names-sender :
      (c : Value) (from to : String)
      → extract_usernames env w c ≡ some (from, to)
      → get_str "sender" c ≡ some from
  unfolding extract_usernames
  names-sender c from to h = ground arith

  route_frame :
      (s : Server) (from to : String) (v : Value) (t : ReplyTag)
      → Quiet s (route_message_to_recipient env w s from to v t)
  unfolding route_message_to_recipient
  route_frame s from to v t = ground arith

  verify_content_rest :
      (s : Server) (o : Option User) (t : ReplyTag) (text sig from to : String) (v : Value)
      → ((verify_content env w s o t text sig from to v).pending_users ≡ s.pending_users)
        × ((verify_content env w s o t text sig from to v).nonces ≡ s.nonces)
  unfolding verify_content
  verify_content_rest s none t text sig from to v = ground arith
  verify_content_rest s (some u) t text sig from to v = ground arith

  verify_content_users :
      (s : Server) (u : User) (t : ReplyTag) (text sig from to : String) (v : Value)
      → ((verify_content env w s (some u) t text sig from to v).db.users ≡ s.db.users)
        ⊎ ((env.verify_signature u.public_key text sig ≡ true)
            × ((verify_content env w s (some u) t text sig from to v).db.users
                ≡ set_column sender_tag from (tag_text env t) s.db.users))
  unfolding verify_content
  verify_content_users s u t text sig from to v =
      ground (arith, users_set_cases s.db from (tag_text env t))

  verify_content_unknown :
      (s : Server) (t : ReplyTag) (text sig from to : String) (v : Value)
      → Quiet s (verify_content env w (queried s) none t text sig from to v)
  unfolding verify_content
  verify_content_unknown s t text sig from to v = ground arith

  send_cases :
      (s : Server) (v c : Value) (t : ReplyTag) (text sig from to : String)
      → get_str "content" v ≡ some text
      → get_str "signature" v ≡ some sig
      → env.parse text ≡ some c
      → extract_usernames env w c ≡ some (from, to)
      → handle_send env w s v t
        ≡ verify_content env w
            (queried s)
            (ok_or (get_user_by_username s.db from) none)
            t
            text
            sig
            from
            to
            c
  unfolding handle_send send_parsed
  send_cases s v c t text sig from to ht hs hp hx = ground arith

  send_idle :
      (s : Server) (v : Value) (t : ReplyTag)
      → (get_str "content" v ≡ none) ⊎ (get_str "signature" v ≡ none)
      → Quiet s (handle_send env w s v t)
  unfolding handle_send
  send_idle s v t h = ground arith

  send_unparsed :
      (s : Server) (v : Value) (t : ReplyTag) (text : String)
      → get_str "content" v ≡ some text
      → env.parse text ≡ none
      → Quiet s (handle_send env w s v t)
  unfolding handle_send
  send_unparsed s v t text ht hp = ground arith

  send_unnamed :
      (s : Server) (v c : Value) (t : ReplyTag) (text : String)
      → get_str "content" v ≡ some text
      → env.parse text ≡ some c
      → extract_usernames env w c ≡ none
      → Quiet s (handle_send env w s v t)
  unfolding handle_send send_parsed
  send_unnamed s v c t text ht hp hx = ground arith

  send_verified-Change :
      {said : Claims} (s : Server) (c : Value) (t : ReplyTag) (text sig from to : String)
      → said from text sig
      → Change said env w t s (
          verify_content env w
            (queried s)
            (ok_or (get_user_by_username s.db from) none)
            t
            text
            sig
            from
            to
            c)
  send_verified-Change s c t text sig from to k =
      elim (Option-cases (ok_or (get_user_by_username s.db from) none)) [
        | inl e ↦ rw e (Change-Quiet (verify_content_unknown s t text sig from to c))
        | inr (u, e) ↦ rw e (record {
          users = elim (verify_content_users (queried s) u t text sig from to c) [
            | inl same ↦ UserChange.kept same
            | inr (good, set) ↦
                UserChange.spoke u from text sig k (found_user s.db from u e) good set
          ];
          pending =
              PendingChange.kept (verify_content_rest (queried s) (some u) t text sig from to c).0;
          nonces =
              NonceChange.kept (verify_content_rest (queried s) (some u) t text sig from to c).1;
        })
      ]

  -- A legacy send stores the sender's tag only if the user it names signed the content.
  pub send-Change :
      (s : Server) (v : Value) (t : ReplyTag)
      → Change (Says env v) env w t s (handle_send env w s v t)
  send-Change s v t = elim (Option-cases (get_str "content" v)) [
    | inl e ↦ Change-Quiet (send_idle s v t (inl e))
    | inr (text, ht) ↦ elim (Option-cases (get_str "signature" v)) [
      | inl e ↦ Change-Quiet (send_idle s v t (inr e))
      | inr (sig, hs) ↦ elim (Option-cases (env.parse text)) [
        | inl e ↦ Change-Quiet (send_unparsed s v t text ht e)
        | inr (c, hp) ↦ elim (Option-cases (extract_usernames env w c)) [
          | inl e ↦ Change-Quiet (send_unnamed s v c t text ht hp e)
          | inr ((from, to), hx) ↦ rw (send_cases s v c t text sig from to ht hs hp hx) (
              send_verified-Change s c t text sig from to
                (ht, hs, c, hp, names-sender c from to hx))
        ]
      ]
    ]
  ]
