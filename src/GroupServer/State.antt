-- ===== src/GroupServer/State.antt =====
-- nymstr-group/src/message_utils.rs: `MessageUtils`, its replies, and the checks that the handlers share.
-- A handler is written as a block whose steps may end it: a step that answers `none` is the source's
-- early return. `GroupEnv` holds the fields of `MessageUtils` that no call changes, and base64.
use nymstr.Prelude.{
  ℕ, String, Bool, not, List, [], ◌∷◌, Option, none, some, ◌==◌, ◌&&◌, if◌then◌else◌, string_eq,
}
use nymstr.Prelude.Int.{pos}
use nymstr.Json.{Value, str, int, object}
use nymstr.Common.RateLimiter.{RateLimiter, new, check_and_record}
use nymstr.Common.Validation.{is_valid_username}
use nymstr.Transport.{ReplyTag}
use nymstr.Db.Tables.{Result, ok, err, fails, rest}
use nymstr.Server.State.{Env, World, Sent, post, tag_text}
use nymstr.GroupServer.Tables.{Tables, Call, get_user_by_username, is_group_member}

pub record GroupEnv : Type 0 where
  pub env : Env
  pub admin_public_key : Option String
  pub group_id : String
  -- The base64 alphabet of `STANDARD`.
  pub encode : List ℕ → String
  pub decode : String → Option (List ℕ)

pub record GroupServer : Type 0 where
  pub tables : Tables
  -- Which of the next database calls fail.
  pub faults : List Bool
  pub rate_limiter : RateLimiter
  pub rate_limiter_general : RateLimiter
  pub sent : List Sent

abbrev pub rate_limit_max_attempts : ℕ
rate_limit_max_attempts = 10

abbrev pub rate_limit_window_secs : ℕ
rate_limit_window_secs = 60

abbrev pub rate_limit_general_max_attempts : ℕ
rate_limit_general_max_attempts = 60

abbrev pub rate_limit_general_window_secs : ℕ
rate_limit_general_window_secs = 60

unfoldable pub start : Tables → GroupServer
start tables = record {
  tables = tables;
  faults = [];
  rate_limiter = new rate_limit_max_attempts rate_limit_window_secs;
  rate_limiter_general = new rate_limit_general_max_attempts rate_limit_general_window_secs;
  sent = [];
}

abbrev pub Handler : Type 0 → Type 0
Handler A = GroupServer → Option A × GroupServer

abbrev pub continue :
    {A B : Type 0} → (A → Handler B) → Option A × GroupServer → Option B × GroupServer
continue f p = elim (p.0) [ none ↦ (none, p.1) | some a ↦ f a p.1 ]

infixl 5 ◌>>=◌ ◌>>◌
unfoldable pub ◌>>=◌ : {A B : Type 0} → Handler A → (A → Handler B) → Handler B
◌>>=◌ m f s = continue f (m s)

abbrev pub ◌>>◌ : {B : Type 0} → Handler (Unit {0}) → Handler B → Handler B
m >> k = m >>= λ _. k

unfoldable pub pure : {A : Type 0} → A → Handler A
pure a s = (some a, s)

-- A call of the database: it may fail and change nothing.
unfoldable pub call : {A : Type 0} → Call A → Handler (Result A)
unfolding fails rest
call op s =
    if fails s.faults
    then (some err, record s { faults = rest s.faults })
    else (some (op s.tables).0, record s { tables = (op s.tables).1; faults = rest s.faults })

-- A call whose failure is only logged.
unfoldable pub attempt : {A : Type 0} → Call A → Handler (Unit {0})
unfolding call
attempt op s = (some tt, (call op s).1)

-- `ok().flatten()`.
abbrev pub found : {A : Type 0} → Result (Option A) → Option A
found err = none
found (ok o) = o

module _ (g : GroupEnv) (w : World) where
  abbrev content_fields : String → Option String → List (String × Value)
  content_fields content none = ("content", str content) ∷ []
  content_fields content (some context) = ("content", str content) ∷ ("context", str context) ∷ []

  unfoldable pub reply_text : String → String → Option String → String → Value
  reply_text content action context signature = object (
      ("type", str "response")
      ∷ ("action", str action)
      ∷ ("sender", str "group-server")
      ∷ ("recipient", str "client")
      ∷ ("payload", object (content_fields content context))
      ∷ ("signature", str signature)
      ∷ ("timestamp", str (g.env.rfc3339 w.unix))
      ∷ ("serverTime", int (pos w.unix))
      ∷ [])

  -- The content is signed; without a signature nothing is sent.
  unfoldable pub send_encapsulated_reply :
      ReplyTag → String → String → Option String → GroupServer → GroupServer
  unfolding reply_text
  send_encapsulated_reply tag content action context s = record s {
    sent =
        post (g.env.sign_message g.env.client_id content)
          (λ signature. g.env.print (reply_text content action context signature)) tag s.sent;
  }

  module _ (tag : ReplyTag) (action : String) where
    unfoldable pub reply : String → Handler (Unit {0})
    reply content s = (some tt, send_encapsulated_reply tag content action none s)

    -- A reply that ends the handler.
    unfoldable pub refuse : {A : Type 0} → String → Handler A
    refuse content s = (none, send_encapsulated_reply tag content action none s)

    unfoldable pub require : Bool → String → Handler (Unit {0})
    require b content = if b then pure tt else refuse content

    unfoldable pub expect : {A : Type 0} → Option A → String → Handler A
    expect none content = refuse content
    expect (some a) content = pure a

    abbrev pub rate_limited : String
    rate_limited = "error: rate limit exceeded, please try again later"

    -- The key counts against the limiter of registrations.
    unfoldable pub check_rate_limit : String → Handler (Unit {0})
    check_rate_limit key s =
        let (allowed, limiter) = check_and_record w.instant key s.rate_limiter in
        require allowed rate_limited (record s { rate_limiter = limiter })

    unfoldable pub check_general_rate_limit : Handler (Unit {0})
    check_general_rate_limit s =
        let (allowed, limiter) =
          check_and_record w.instant (tag_text g.env tag) s.rate_limiter_general in
        require allowed rate_limited (record s { rate_limiter_general = limiter })

    -- Who signed the content: a registered user.
    unfoldable pub authenticate_request_core : String → String → String → Handler String
    authenticate_request_core username signature signed_content = do
      require (is_valid_username username && not (username == "unknown"))
          "error: missing or invalid username"
      require (not (signature == "")) "error: missing or invalid signature"
      r ← call (get_user_by_username username)
      u ← expect (found r) "error: user not registered"
      require (g.env.verify_signature u.public_key signed_content signature) "error: bad signature"
      pure username

    abbrev json_error : String → String
    json_error message =
        g.env.print (object (("status", str "error") ∷ ("message", str message) ∷ []))

    unfoldable pub authorized : Result Bool → Handler (Unit {0})
    authorized (ok b) = require b (json_error "not a group member")
    authorized err = refuse (json_error "authorization check failed")

    unfoldable pub authorize_member : String → Handler (Unit {0})
    authorize_member username = do r ← call (is_group_member g.group_id username); authorized r
