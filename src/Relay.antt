-- ===== src/Relay.antt =====
-- The relay of server/internal/relay/relay.go: the price gate, the failover loop, the request log and
-- the debit; and what `serveNonStream` does with an upstream. Error texts are kept as the parts that they are composed of; request and
-- response bodies, latencies and dialects are left out. The adapters and the HTTP client are
-- parameters, and so are the answers of the database.
pub mod Data
pub mod Accounts
pub mod Failover
pub mod Examples
use hhrouter.Base.{
  ℕ, zero, suc, ◌+◌, ◌-◌, Bool, true, false, ◌&&◌, ◌||◌, not, Option, none, some, List, [], ◌∷◌,
  ◌++◌, ◌==◌, ◌⊎◌, inl, inr, if◌then◌else◌, length,
}
use hhrouter.Base.Int.{ℤ, pos, ltb_ℤ, leb_ℤ, eqb_ℤ}
use hhrouter.Base.Text.{Bytes, bytes_eq, codes, contains_string}
use hhrouter.Model.{Channel, RoutingRule}
use hhrouter.Billing.{
  ModelPrice, PriceRow, PriceLookup, price, lookup_failed, lookup_price, Usage, cost, TokenCounts,
  usage_tokens,
}
use hhrouter.Quota.Store.{Backend}
use hhrouter.Quota.Service.{QuotaError, Result, ok, err, Service, check_remaining, consume}
use hhrouter.Router.Outcome.{RouteError}
use hhrouter.Router.Rules.{Json}
use hhrouter.Router.Candidates.{upstream_model}
use hhrouter.Router.Selection.{Selection, serving_model, next}
use hhrouter.Adapter.{UpstreamError, retryable}
use hhrouter.Relay.Data.{
  Attempt, Billed, Exchange, LastError, LogEntry, LogStatus, Message, Relay, Reply, Request,
  all_candidates_failed, answered, build_failed, errored, failed_with, insufficient_balance,
  log_error, log_success, network_failed, no_adapter, no_message, price_lookup, price_unknown,
  quota_check, quota_unknown, refused, responded, routing_failed, unparseable, upstream_error,
  upstream_message, upstream_text,
}

pub record Upstreams (S : Type 0) : Type 0 where
  pub backend : Backend S
  pub json : Json
  pub price_row : ℕ → Bytes → S → PriceRow
  pub exchange : Channel → Bytes → S → Exchange × S

-- modelAllowed, of the decoded list
unfoldable pub model_allowed : List Bytes → Bytes → Bool
unfolding contains_string
model_allowed [] requested = true
model_allowed (m ∷ ms) requested = contains_string (m ∷ ms) requested

-- adapter.For knows the kind of the channel.
unfoldable pub has_adapter : Channel → Bool
unfolding bytes_eq
has_adapter ch =
    bytes_eq ch.kind (codes "openai")
    || bytes_eq ch.kind (codes "bedrock")
    || bytes_eq ch.kind (codes "anthropic")

abbrev pub estimate : ℤ → Usage
estimate est_prompt = record {
  prompt_tokens = est_prompt;
  completion_tokens = pos 0;
  total_tokens = pos 0;
  cache_read_tokens = pos 0;
  cache_write_tokens = pos 0;
}

-- A failed request logs the estimate, and nothing completed.
abbrev pub estimated : ℤ → TokenCounts
estimated est_prompt = record { prompt = est_prompt; completion = pos 0; total = est_prompt }

unfoldable pub clamp_status : ℤ → ℤ
clamp_status n = if ltb_ℤ n (pos 400) || ltb_ℤ (pos 599) n then pos 502 else n

abbrev pub channel_of : Option Attempt → ℕ
channel_of none = 0
channel_of (some a) = a.channel.id

abbrev pub upstream_of : Bytes → Option Attempt → Bytes
upstream_of model none = model
upstream_of model (some a) = if not (bytes_eq a.upstream []) then a.upstream else model

abbrev pub rule_id_of : Option RoutingRule → Option ℕ
rule_id_of none = none
rule_id_of (some r) = some r.id

abbrev pub billed : (Usage → ℤ) → Option Billed → Option ℤ
billed f none = none
billed f (some b) = some (f b.usage)

abbrev pub bill_cost : Option Billed → Option ℤ
bill_cost none = none
bill_cost (some b) = some (cost b.price b.usage)

-- What gateModelPrice comes to: the price, or a rejection by its status, with what the client reads
-- and what the log says.
pub data Gate : Type 0 where
  admitted : Option ModelPrice → Gate
  rejected : ℤ → Message → Message → Gate

-- One turn of the failover loop: the request ended, or the next candidate is due.
pub data Turn (S : Type 0) : Type 0 where
  ended : Relay S → Turn S
  again : LastError → Option Attempt → Relay S → Turn S

abbrev pub write_reply : {S : Type 0} → Reply → Relay S → Relay S
write_reply r st = record st { replies = st.replies ++ (r ∷ []) }

module _ {S : Type 0} (env : Upstreams S) (rq : Request) where
  unfoldable pub debit : LogStatus → Option ℤ → Service S → Service S
  unfolding consume
  debit log_success (some c) q =
      if ltb_ℤ (pos 0) c then (consume env.backend rq.token_id rq.user_id c q).1 else q
  debit log_success none q = q
  debit log_error c q = q

  abbrev pub log_entry :
      Option Attempt
      → Option RoutingRule
      → LogStatus
      → ℤ
      → Message
      → TokenCounts
      → Option Billed
      → LogEntry
  log_entry att rule status http msg tokens bill = record {
    user_id = rq.user_id;
    token_id = rq.token_id;
    channel_id = channel_of att;
    rule_id = rule_id_of rule;
    model = rq.model;
    upstream = upstream_of rq.model att;
    tokens = tokens;
    cache_read = billed (λ u. u.cache_read_tokens) bill;
    cache_write = billed (λ u. u.cache_write_tokens) bill;
    cost_micro_usd = bill_cost bill;
    status = status;
    http_status = http;
    error_message = msg;
  }

  unfoldable pub finish :
      Option Attempt
      → Option RoutingRule
      → LogStatus
      → ℤ
      → Message
      → TokenCounts
      → Option Billed
      → Relay S
      → Relay S
  unfolding debit
  finish att rule status http msg tokens bill st = record st {
    quota = debit status (bill_cost bill) st.quota;
    log = st.log ++ (log_entry att rule status http msg tokens bill ∷ []);
  }

  -- WriteOutError, then finish
  unfoldable pub fail_request :
      ℤ → Message → Message → Option Attempt → Option RoutingRule → Relay S → Relay S
  unfolding finish
  fail_request status msg logged att rule st =
      finish att rule log_error status logged (estimated rq.est_prompt) none
        (write_reply (errored status msg) st)

  unfoldable pub fail_no_channel : RouteError → Relay S → Relay S
  unfolding fail_request
  fail_no_channel e =
      fail_request (pos 502) (routing_failed rq.model e) (routing_failed rq.model e) none none

  unfoldable pub fail_upstream : UpstreamError → Attempt → Option RoutingRule → Relay S → Relay S
  unfolding fail_request clamp_status
  fail_upstream u att =
      fail_request (clamp_status u.status_code) (upstream_message u.message) (upstream_text u)
        (some att)

  unfoldable pub fail_all_candidates :
      Option LastError → Option Attempt → Option RoutingRule → Relay S → Relay S
  unfolding fail_request
  fail_all_candidates e = fail_request (pos 502) (all_candidates_failed e) (all_candidates_failed e)

  unfoldable pub gate_quota : Option ModelPrice → ℤ → Result ℤ × Service S → Gate × Service S
  gate_quota p est (err e, q) = (rejected (pos 500) quota_unknown (quota_check e), q)
  gate_quota p est (ok left, q) =
      if leb_ℤ (pos 0) left && ltb_ℤ left est
      then (rejected (pos 402) (insufficient_balance est left) (insufficient_balance est left), q)
      else (admitted p, q)

  unfoldable pub gate_price : PriceLookup → Service S → Gate × Service S
  unfolding gate_quota cost check_remaining
  gate_price (lookup_failed e) q = (rejected (pos 500) price_unknown (price_lookup e), q)
  gate_price (price p) q =
      let est = cost p (estimate rq.est_prompt) in
      gate_quota p est (check_remaining env.backend rq.token_id rq.user_id est q)

  -- gateModelPrice
  unfoldable pub gate : Attempt → Service S → Gate × Service S
  unfolding gate_price lookup_price
  gate att q = gate_price (lookup_price (env.price_row att.channel.id att.upstream q.store)) q

  -- The end of a turn, after the exchange.
  unfoldable pub take_exchange :
      Attempt → Option ModelPrice → Option RoutingRule → Exchange → Relay S → Turn S
  unfolding fail_upstream finish retryable usage_tokens
  take_exchange att p rule (build_failed e) st = again (failed_with e) (some att) st
  take_exchange att p rule (network_failed e) st = again (failed_with e) (some att) st
  take_exchange att p rule (unparseable e) st = again (failed_with e) (some att) st
  take_exchange att p rule (refused u) st =
      if retryable u
      then again (upstream_error u) (some att) st
      else ended (fail_upstream u att rule st)
  take_exchange att p rule (responded body u) st = ended (
      finish (some att) rule log_success (pos 200) no_message (usage_tokens u rq.est_prompt)
        (some (record { price = p; usage = u })) (write_reply (answered att.channel body) st))

  -- What a relay does with a channel that passed the gate: the exchange with its upstream.
  abbrev pub Exchanged : Type 0
  Exchanged = Attempt → Option ModelPrice → Option RoutingRule → Relay S → Turn S

  unfoldable pub exchange_once : Exchanged
  unfolding take_exchange
  exchange_once att p rule st =
      let (x, store') = env.exchange att.channel att.upstream st.quota.store in
      take_exchange att p rule x (record st { quota = record st.quota { store = store' } })

  abbrev Rest : Type 0
  Rest = Option LastError → Option Attempt → Relay S → Option (Relay S)

  unfoldable pub after_turn : Turn S → Rest → Option (Relay S)
  after_turn (ended st) rest = some st
  after_turn (again e att st) rest = rest (some e) att st

  -- The failover loop, which both relays share.
  module _ (exchanged : Exchanged) where
    unfoldable pub take_gate : Attempt → Option RoutingRule → Gate × Service S → Relay S → Turn S
    unfolding fail_request
    take_gate att rule (rejected status msg logged, q) st =
        ended (fail_request status msg logged (some att) rule (record st { quota = q }))
    take_gate att rule (admitted p, q) st = exchanged att p rule (record st { quota = q })

    unfoldable pub try_candidate : Selection → Channel → Option Attempt → Relay S → Turn S
    unfolding has_adapter gate take_gate upstream_model serving_model
    try_candidate sel ch last st =
        let att : Attempt = record {
          channel = ch;
          upstream = upstream_model env.json ch (serving_model sel);
        } in
        if not (has_adapter ch)
        then again (no_adapter ch.kind) last st
        else take_gate att sel.rule (gate att st.quota) st

    unfoldable pub turn : Option Channel × Selection → (Selection → Rest) → Rest
    unfolding try_candidate after_turn fail_all_candidates
    turn (none, sel) rest e att st = some (fail_all_candidates e att sel.rule st)
    turn (some ch, sel) rest e att st = after_turn (try_candidate sel ch att st) (rest sel)

    -- The loop of serveNonStream and serveStream, on fuel; `none` is out of fuel.
    unfoldable pub serve_loop : ℕ → Selection → Rest
    unfolding turn next
    serve_loop zero sel e att st = none
    serve_loop (suc f) sel e att st = turn (next sel) (serve_loop f) e att st

    -- The whole of it, of what SelectChannelCtx returned
    unfoldable pub serve : RouteError ⊎ Selection → Relay S → Option (Relay S)
    unfolding serve_loop fail_no_channel
    serve (inl e) st = some (fail_no_channel e st)
    serve (inr sel) st = serve_loop (suc (length sel.candidates)) sel none none st

  unfoldable pub serve_non_stream : RouteError ⊎ Selection → Relay S → Option (Relay S)
  unfolding serve exchange_once
  serve_non_stream = serve exchange_once
