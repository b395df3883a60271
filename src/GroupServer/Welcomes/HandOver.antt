-- ===== src/GroupServer/Welcomes/HandOver.antt =====
-- Fetched welcomes are handed over once.
use Prim.Native.String.{◌++◌}
use nymstr.Prelude.{
  String, true, not, List, [], ◌∷◌, none, some, map, ◌≡◌, ◌≢◌, refl, sym, subst, ap, ◌∙◌, ◌==◌,
  ==_iff, ==_self, keep, contains, string_eq, inl, inr, Bool-cases, All, All-mono, arith,
}
use nymstr.Json.{Value, get_str}
use nymstr.Transport.{ReplyTag}
use nymstr.Db.Tables.{ok, fails, rest}
use nymstr.Server.State.{World}
use nymstr.GroupServer.Tables.{Welcome}
use nymstr.GroupServer.Tables.Queues.{welcomes_of, is_for, remove_welcome, get_pending_welcomes}
use nymstr.GroupServer.State.{
  GroupEnv, GroupServer, pure, call, attempt, reply, check_general_rate_limit,
  authenticate_request_core, send_encapsulated_reply,
}
use nymstr.GroupServer.Welcomes.{
  remove_all, fetch_all, deliver, welcome_json, welcomes_text, handle_fetch_welcome,
}
use nymstr.GroupServer.Runs.{
  bind-some, call-Works, attempt-works, MayAct, limited, general-passes, authenticate-passes,
}

-- The welcomes without those for the user in the groups.
removed : String → List Welcome → List Welcome → List Welcome
removed name [] ws = ws
removed name (x ∷ l) ws = removed name l (keep (λ w. not (is_for name x.group_id w)) ws)

abbrev groups : List Welcome → List String
groups l = map (λ x. x.group_id) l

-- Those of the user are for groups in the list.
abbrev Covered : String → List Welcome → List Welcome → Type 0
Covered name l ws =
    All (λ w. (w.username == name) ≡ true → contains w.group_id (groups l) ≡ true) ws

Covered-keep :
    (name : String) (x : Welcome) (l ws : List Welcome)
    → Covered name (x ∷ l) ws
    → Covered name l (keep (λ w. not (is_for name x.group_id w)) ws)
unfolding keep is_for contains
Covered-keep name x l [] h = tt
Covered-keep name x l (w ∷ ws) h = elim (Bool-cases (is_for name x.group_id w)) [
  | inl e ↦ rw (e, keep) (Covered-keep name x l ws h.1)
  | inr e ↦
      rw (e, keep)
        (
          λ mine.
              ground (arith, h.0 mine, ==_iff x.group_id w.group_id, ==_iff w.group_id x.group_id),
          Covered-keep name x l ws h.1,
        )
]

welcomes-uncovered :
    (name : String) (ws : List Welcome) → Covered name [] ws → welcomes_of name ws ≡ []
unfolding welcomes_of keep contains
welcomes-uncovered name [] h = refl
welcomes-uncovered name (w ∷ ws) h = elim (Bool-cases (w.username == name)) [
  | inl e ↦ absurd (ground (arith, h.0 e))
  | inr e ↦ rw e (welcomes-uncovered name ws h.1)
]

welcomes-removed :
    (name : String) (l ws : List Welcome)
    → Covered name l ws
    → welcomes_of name (removed name l ws) ≡ []
unfolding removed
welcomes-removed name [] ws h = welcomes-uncovered name ws h
welcomes-removed name (x ∷ l) ws h = welcomes-removed name l _ (Covered-keep name x l ws h)

Covered-own : (name : String) (ws : List Welcome) → Covered name (welcomes_of name ws) ws
unfolding welcomes_of keep contains
Covered-own name [] = tt
Covered-own name (w ∷ ws) = elim (Bool-cases (w.username == name)) [
  | inl e ↦
      rw (e, keep)
        (
          λ _. rw (==_self w.group_id) refl,
          All-mono _ _ (λ v f m. ground (arith, f m)) ws (Covered-own name ws),
        )
  | inr e ↦
      let same : welcomes_of name (w ∷ ws) ≡ welcomes_of name ws = rw e refl in
      subst (λ l. Covered name l (w ∷ ws)) (sym same) (λ m. absurd (cc), Covered-own name ws)
]

others-keep :
    (name other group_id : String) (ws : List Welcome)
    → other ≢ name
    → welcomes_of other (keep (λ w. not (is_for name group_id w)) ws) ≡ welcomes_of other ws
unfolding welcomes_of keep is_for
others-keep name other group_id [] ne = refl
others-keep name other group_id (w ∷ ws) ne =
    ground (
      arith,
      ==_iff w.username name,
      ==_iff w.username other,
      others-keep name other group_id ws ne,
    )

others-removed :
    (name other : String) (l ws : List Welcome)
    → other ≢ name
    → welcomes_of other (removed name l ws) ≡ welcomes_of other ws
unfolding removed
others-removed name other [] ws ne = refl
others-removed name other (x ∷ l) ws ne =
    others-removed name other l _ ne ∙ others-keep name other x.group_id ws ne

module _ (g : GroupEnv) (w : World) (tag : ReplyTag) where
  abbrev with_welcomes : GroupServer → List Welcome → GroupServer
  with_welcomes s ws = record s { tables = record s.tables { pending_welcomes = ws }; faults = [] }

  remove_all-runs :
      (name : String) (l : List Welcome) (s : GroupServer) (ws : List Welcome)
      → remove_all g w tag name l (with_welcomes s ws)
        ≡ (some tt, with_welcomes s (removed name l ws))
  unfolding remove_all removed pure remove_welcome
  remove_all-runs name [] s ws = refl
  remove_all-runs name (x ∷ l) s ws =
      let take = remove_welcome name x.group_id in
      let left = keep (λ v. not (is_for name x.group_id v)) ws in
      bind-some (attempt take) _ (with_welcomes s ws) (with_welcomes s left) tt
        (attempt-works take (with_welcomes s ws) refl)
      ∙ remove_all-runs name l s left

  abbrev texts_of : List Welcome → String
  texts_of l = welcomes_text g w tag (map (λ x. welcome_json g w tag x.group_id x.welcome) l)

  fetch_welcome-runs :
      (payload : Value) (sender signature : String) (s : GroupServer)
      → get_str "groupId" payload ≡ none
      → MayAct g w tag s sender signature ("fetchWelcome:" ++ sender)
      → s.faults ≡ []
      → let ws = s.tables.pending_welcomes in
        handle_fetch_welcome g w tag payload sender signature s
        ≡ reply g w tag "fetchWelcomeResponse" (texts_of (welcomes_of sender ws)) (
            with_welcomes
              (limited g w tag "fetchWelcomeResponse" s)
              (removed sender (welcomes_of sender ws) ws))
  unfolding handle_fetch_welcome deliver fetch_all get_pending_welcomes fails rest
  fetch_welcome-runs payload sender signature s whole acts healthy =
      let ws = s.tables.pending_welcomes in
      let l : GroupServer = limited g w tag "fetchWelcomeResponse" s in
      let s1 : GroupServer = with_welcomes l ws in
      bind-some (check_general_rate_limit g w tag _) _ s l tt
        (general-passes g w tag _ s acts.limiter_open)
      ∙ bind-some (authenticate_request_core g w tag _ _ _ _) _ l s1 sender (
          authenticate-passes g w tag _ s sender signature ("fetchWelcome:" ++ sender) [] acts
            (rw healthy refl, rw healthy refl))
      ∙ ap (λ o. deliver g w tag sender o s1) whole
      ∙ bind-some (call (get_pending_welcomes sender)) _ s1 s1 (ok (welcomes_of sender ws))
          (call-Works (get_pending_welcomes sender) s1 [] (refl, refl))
      ∙ bind-some (remove_all g w tag sender (welcomes_of sender ws)) _ s1 _ tt
          (remove_all-runs sender (welcomes_of sender ws) l ws)

  -- A user who asks, with a healthy database, for all welcomes is sent exactly those that wait,
  -- and they wait no more, those of others do. They are gone whether or not the reply could be
  -- signed and sent.
  pub fetch_welcome-hands_over :
      (payload : Value) (sender signature other : String) (s : GroupServer)
      → get_str "groupId" payload ≡ none
      → MayAct g w tag s sender signature ("fetchWelcome:" ++ sender)
      → s.faults ≡ []
      → other ≢ sender
      → let mine = welcomes_of sender s.tables.pending_welcomes in
        let u = (handle_fetch_welcome g w tag payload sender signature s).1 in
        (u.sent
          ≡ (send_encapsulated_reply g w tag (texts_of mine) "fetchWelcomeResponse" none s).sent)
        × (welcomes_of sender u.tables.pending_welcomes ≡ [])
        × (welcomes_of other u.tables.pending_welcomes
            ≡ welcomes_of other s.tables.pending_welcomes)
  unfolding reply send_encapsulated_reply
  fetch_welcome-hands_over payload sender signature other s whole acts healthy ne =
      let ws = s.tables.pending_welcomes in
      let run = fetch_welcome-runs payload sender signature s whole acts healthy in
      (
        ap (λ p. p.1.sent) run,
        ap (λ p. welcomes_of sender p.1.tables.pending_welcomes) run
            ∙ welcomes-removed sender (welcomes_of sender ws) ws (Covered-own sender ws),
        ap (λ p. welcomes_of other p.1.tables.pending_welcomes) run
            ∙ others-removed sender other (welcomes_of sender ws) ws ne,
      )
