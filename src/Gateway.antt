-- ===== src/Gateway.antt =====
-- The way of a request into the relay: RelayAuth (server/internal/middleware/relay_auth.go), the quota
-- guard (server/internal/middleware/quota.go), the body checks and `handle` of
-- server/internal/relay/relay.go. The key's hash, the rows, the clock and the routing are parameters.
pub mod Admission
mod Examples
use hhrouter.Base.{
  ℕ, ◌+◌, ◌≤◌, ◌<◌, Bool, true, false, ◌&&◌, ◌||◌, not, Option, none, some, List, [], ◌∷◌, ◌==◌,
  if◌then◌else◌, ltb, leb, length, take, drop, map, ◌⊎◌, inl, inr,
}
use hhrouter.Base.Int.{ℤ, pos, eqb_ℤ}
use hhrouter.Base.Text.{Bytes, bytes_eq, codes, trim_space}
use hhrouter.Adapter.Tokens.{estimate_tokens}
use hhrouter.Quota.Service.{Result, ok, err, Service, check_remaining}
use hhrouter.Router.Outcome.{RouteError}
use hhrouter.Router.Selection.{Selection}
use hhrouter.Model.{Channel}
use hhrouter.Relay.Data.{denial, errored, Request, Relay}
use hhrouter.Relay.{Upstreams, write_reply, model_allowed, serve_non_stream}
use hhrouter.Stream.Events.{OutputFormat, out_openai, out_anthropic, out_bedrock}
use hhrouter.Stream.Serve.{Connection, Decoders, serve_stream}

-- An open string in Go; three values have names.
abbrev pub TokenStatus : Type 0
TokenStatus = Bytes

abbrev pub token_enabled : TokenStatus
token_enabled = codes "enabled"

abbrev pub token_disabled : TokenStatus
token_disabled = codes "disabled"

abbrev pub token_expired : TokenStatus
token_expired = codes "expired"

-- A time in nanoseconds; 0 is Go's zero time.
pub record Token : Type 0 where
  pub id : ℕ
  pub user_id : ℕ
  pub status : TokenStatus
  pub expired_at : Option ℕ
  pub allowed_models : List Bytes
  pub output_format : Option Bytes

-- `enabled` is whether the status, an open string, is UserEnabled.
pub record User : Type 0 where
  pub id : ℕ
  pub enabled : Bool

pub data TokenAnswer : Type 0 where
  token_found : Token → TokenAnswer
  token_missing : TokenAnswer
  token_query_failed : Bytes → TokenAnswer

pub data InboundFormat : Type 0 where
  inbound_openai inbound_anthropic : InboundFormat

-- What the relay reads of a body
pub record Inbound : Type 0 where
  pub model : Bytes
  pub stream : Bool
  pub system : Bytes
  pub texts : List Bytes

-- The request: its endpoint, its two headers, its body (`none` if it does not decode), and when it came.
pub record HttpRequest : Type 0 where
  pub endpoint : InboundFormat
  pub x_api_key : Bytes
  pub authorization : Bytes
  pub body : Option Inbound
  pub now : ℕ

abbrev lower : ℕ → ℕ
lower c = if leb b'A' c && leb c b'Z' then c + 32 else c

-- strings.EqualFold with "Bearer ", in which no letter folds to one outside ASCII
unfoldable pub is_bearer : Bytes → Bool
unfolding bytes_eq
is_bearer s = bytes_eq (map lower s) (codes "bearer ")

abbrev nonempty : Bytes → Option Bytes
nonempty [] = none
nonempty (c ∷ s) = some (c ∷ s)

abbrev pub or_else : Option Bytes → Option Bytes → Option Bytes
or_else (some s) other = some s
or_else none other = other

unfoldable pub relay_key : Bytes → Bytes → Option Bytes
unfolding trim_space is_bearer
relay_key x_api_key authorization = or_else (nonempty (trim_space x_api_key)) (
    if ltb 7 (length authorization) && is_bearer (take 7 authorization)
    then nonempty (trim_space (drop 7 authorization))
    else none)

abbrev pub past : Option ℕ → ℕ → Bool
past none now = false
past (some t) now = not (t == 0) && ltb t now

-- tokenUsable; the text is the reason why not
unfoldable pub token_usable : TokenStatus → Option ℕ → ℕ → Option Bytes
unfolding bytes_eq
token_usable status expires now =
    if bytes_eq status token_disabled
    then some (codes "API key is disabled")
    else if bytes_eq status token_expired
    then some (codes "API key has expired")
    else if past expires now
    then some (codes "API key has expired")
    else none

abbrev pub mirrored : InboundFormat → OutputFormat
mirrored inbound_openai = out_openai
mirrored inbound_anthropic = out_anthropic

unfoldable pub out_format_for : InboundFormat → Option Bytes → OutputFormat
unfolding bytes_eq
out_format_for inbound none = mirrored inbound
out_format_for inbound (some s) =
    if bytes_eq s (codes "openai")
    then out_openai
    else if bytes_eq s (codes "anthropic")
    then out_anthropic
    else if bytes_eq s (codes "bedrock")
    then out_bedrock
    else mirrored inbound

abbrev sum_texts : List Bytes → ℕ
sum_texts [] = 0
sum_texts (t ∷ ts) = estimate_tokens t + sum_texts ts

unfoldable pub estimate_prompt_tokens : Inbound → ℕ
unfolding estimate_tokens
estimate_prompt_tokens uni = estimate_tokens uni.system + sum_texts uni.texts

abbrev pub deny : {S : Type 0} → ℕ → Bytes → Relay S → Option (Relay S)
deny status text st = some (write_reply (errored (pos status) (denial text)) st)

pub record Doors (S : Type 0) : Type 0 where
  pub hash_key : Bytes → Bytes
  pub token_by_hash : Bytes → S → TokenAnswer
  pub user_by_id : ℕ → S → Option User
  pub route : Token → Inbound → ℤ → S → RouteError ⊎ Selection

module _ {S : Type 0} (env : Upstreams S) (json : Decoders)
    (connect : Channel → Bytes → S → Connection × S) (doors : Doors S) where
  abbrev pub relay_request : Token → User → Inbound → Request
  relay_request tok user uni = record {
    token_id = tok.id;
    user_id = user.id;
    model = uni.model;
    est_prompt = pos (estimate_prompt_tokens uni);
  }

  -- serveStream or serveNonStream
  unfoldable pub dispatch : InboundFormat → Token → User → Inbound → Relay S → Option (Relay S)
  unfolding estimate_prompt_tokens out_format_for serve_stream serve_non_stream
  dispatch endpoint tok user uni st =
      let rq = relay_request tok user uni in
      let routed = doors.route tok uni rq.est_prompt st.quota.store in
      if uni.stream
      then serve_stream env json connect (out_format_for endpoint tok.output_format) rq routed st
      else serve_non_stream env rq routed st

  unfoldable pub handle : InboundFormat → Token → User → Inbound → Relay S → Option (Relay S)
  unfolding model_allowed dispatch
  handle endpoint tok user uni st =
      if model_allowed tok.allowed_models uni.model
      then dispatch endpoint tok user uni st
      else deny 403 (codes "model is not allowed for this API key") st

  -- HandleChatCompletions and HandleMessages
  unfoldable pub handle_body :
      InboundFormat → Option Inbound → Token → User → Relay S → Option (Relay S)
  unfolding bytes_eq handle
  handle_body endpoint none tok user st = deny 400 (codes "invalid request body") st
  handle_body endpoint (some uni) tok user st =
      if bytes_eq uni.model []
      then deny 400 (codes "field model is required") st
      else handle endpoint tok user uni st

  unfoldable pub take_headroom : HttpRequest → Token → User → Result ℤ → Relay S → Option (Relay S)
  unfolding handle_body
  take_headroom rq tok user (err e) st = deny 500 (codes "could not check quota") st
  take_headroom rq tok user (ok left) st =
      if eqb_ℤ left (pos 0)
      then deny 402 (codes "insufficient quota") st
      else handle_body rq.endpoint rq.body tok user st

  -- middleware.Quota
  unfoldable pub guard_quota : HttpRequest → Token → User → Relay S → Option (Relay S)
  unfolding take_headroom check_remaining
  guard_quota rq tok user st =
      let (left, quota') = check_remaining env.backend tok.id user.id (pos 0) st.quota in
      take_headroom rq tok user left (record st { quota = quota' })

  unfoldable pub take_user : HttpRequest → Token → Option User → Relay S → Option (Relay S)
  unfolding guard_quota
  take_user rq tok none st = deny 401 (codes "owning account not found") st
  take_user rq tok (some user) st =
      if user.enabled
      then guard_quota rq tok user st
      else deny 401 (codes "owning account is disabled") st

  abbrev pub take_usable : HttpRequest → Token → Option Bytes → Relay S → Option (Relay S)
  take_usable rq tok (some reason) st = deny 401 reason st
  take_usable rq tok none st = take_user rq tok (doors.user_by_id tok.user_id st.quota.store) st

  unfoldable pub take_token : HttpRequest → TokenAnswer → Relay S → Option (Relay S)
  unfolding take_user token_usable
  take_token rq token_missing st = deny 401 (codes "invalid API key") st
  take_token rq (token_query_failed e) st = deny 500 (codes "could not validate API key") st
  take_token rq (token_found tok) st =
      take_usable rq tok (token_usable tok.status tok.expired_at rq.now) st

  abbrev pub take_key : HttpRequest → Option Bytes → Relay S → Option (Relay S)
  take_key rq none st = deny 401 (codes "missing API key") st
  take_key rq (some key) st =
      take_token rq (doors.token_by_hash (doors.hash_key key) st.quota.store) st

  -- RelayAuth, and all behind it
  unfoldable pub enter : HttpRequest → Relay S → Option (Relay S)
  unfolding relay_key take_token
  enter rq st = take_key rq (relay_key rq.x_api_key rq.authorization) st
