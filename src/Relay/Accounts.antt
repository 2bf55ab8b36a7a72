-- ===== src/Relay/Accounts.antt =====
-- Every request that reaches the failover loop of server/internal/relay/relay.go is answered once and
-- logged once.
use hhrouter.Base.{
  ℕ, zero, suc, ◌+◌, ◌-◌, ◌<◌, Option, none, some, [], ◌∷◌, ◌++◌, ◌≡◌, refl, ◌⊎◌, inl, inr, arith,
  length, Bool-cases,
}
use hhrouter.Base.Int.{ℤ, pos}
use hhrouter.Model.{Channel, RoutingRule}
use hhrouter.Billing.{ModelPrice, usage_tokens, cost}
use hhrouter.Quota.Service.{Service}
use hhrouter.Router.Outcome.{RouteError}
use hhrouter.Router.Selection.{Selection}
use hhrouter.Router.Selection.Failover.{next-cases}
use hhrouter.Adapter.{retryable}
use hhrouter.Relay.Data.{
  Exchange, build_failed, network_failed, unparseable, refused, responded, LastError, Message,
  Reply, answered, streamed, errored, log_success, log_error, LogEntry, upstream_message,
  upstream_text, all_candidates_failed, routing_failed, no_message, Request, Attempt, Billed, Relay,
}
use hhrouter.Relay.{
  log_entry, clamp_status, estimated, Upstreams, has_adapter, Gate, admitted, rejected, Turn, ended,
  again, finish, fail_request, fail_no_channel, fail_upstream, fail_all_candidates, take_exchange,
  Exchanged, exchange_once, take_gate, try_candidate, after_turn, turn, serve_loop, serve,
  serve_non_stream,
}

-- A row that tells what the client got.
abbrev pub Records : Reply → LogEntry → Type 0
Records (answered ch body) l =
    (l.status ≡ log_success)
    × (l.http_status ≡ pos 200)
    × (l.channel_id ≡ ch.id)
    × (c : ℤ) × (l.cost_micro_usd ≡ some c)
Records (streamed ch events) l =
    (l.channel_id ≡ ch.id)
    × (((l.status ≡ log_success) × (l.http_status ≡ pos 200))
        ⊎ ((l.status ≡ log_error) × (l.cost_micro_usd ≡ none)))
Records (errored n msg) l = (l.status ≡ log_error) × (l.http_status ≡ n) × (l.cost_micro_usd ≡ none)

-- One more reply and one more row, and they agree.
abbrev pub Accounts : {S : Type 0} → Relay S → Relay S → Type 0
Accounts st st' =
    (r : Reply) × (l : LogEntry) × (st'.replies ≡ st.replies ++ (r ∷ []))
    × (st'.log ≡ st.log ++ (l ∷ []))
    × Records r l

-- The replies and the log are as they were.
abbrev pub Silent : {S : Type 0} → Relay S → Relay S → Type 0
Silent st st' = (st'.replies ≡ st.replies) × (st'.log ≡ st.log)

abbrev pub TurnAccounts : {S : Type 0} → Relay S → Turn S → Type 0
TurnAccounts st (ended st') = Accounts st st'
TurnAccounts st (again e att st') = Silent st st'

module _ {S : Type 0} (env : Upstreams S) (rq : Request) where
  pub fail_request-Accounts :
      (n : ℤ) (msg logged : Message) (att : Option Attempt) (rule : Option RoutingRule)
      (st : Relay S)
      → Accounts st (fail_request env rq n msg logged att rule st)
  unfolding fail_request finish
  fail_request-Accounts n msg logged att rule st = (
    errored n msg,
    log_entry env rq att rule log_error n logged (estimated rq.est_prompt) none,
    refl,
    refl,
    (refl, refl, refl),
  )

  take_exchange-Accounts :
      (att : Attempt) (p : Option ModelPrice) (rule : Option RoutingRule) (x : Exchange)
      (st : Relay S)
      → TurnAccounts st (take_exchange env rq att p rule x st)
  unfolding take_exchange finish fail_upstream
  take_exchange-Accounts att p rule (build_failed e) st = (refl, refl)
  take_exchange-Accounts att p rule (network_failed e) st = (refl, refl)
  take_exchange-Accounts att p rule (unparseable e) st = (refl, refl)
  take_exchange-Accounts att p rule (refused u) st = elim (Bool-cases (retryable u)) [
    | inl e ↦ rw e (refl, refl)
    | inr e ↦ rw e (
        fail_request-Accounts (clamp_status u.status_code) (upstream_message u.message)
          (upstream_text u) (some att) rule st)
  ]
  take_exchange-Accounts att p rule (responded body u) st =
      let bill : Option Billed = some (record { price = p; usage = u }) in
      (
        answered att.channel body,
        log_entry env rq (some att) rule log_success (pos 200) no_message
            (usage_tokens u rq.est_prompt) bill,
        refl,
        refl,
        (refl, refl, refl, cost p u, refl),
      )

  exchange_once-Accounts :
      (att : Attempt) (p : Option ModelPrice) (rule : Option RoutingRule) (st : Relay S)
      → TurnAccounts st (exchange_once env rq att p rule st)
  unfolding exchange_once
  exchange_once-Accounts att p rule st =
      let (x, store') = env.exchange att.channel att.upstream st.quota.store in
      take_exchange-Accounts att p rule x (record st { quota = record st.quota { store = store' } })

  -- Enough fuel answers: the loop ends.
  Settles : Relay S → Option (Relay S) → Type 0
  Settles st o = (st' : Relay S) × (o ≡ some st') × Accounts st st'

  after_turn-Settles :
      (st : Relay S) (t : Turn S)
      (rest : Option LastError → Option Attempt → Relay S → Option (Relay S))
      → TurnAccounts st t
      → ((e : Option LastError) (att : Option Attempt) (st' : Relay S)
          → Settles st' (rest e att st'))
      → Settles st (after_turn env rq t rest)
  unfolding after_turn Settles
  after_turn-Settles st (ended st') rest h more = (st', refl, h)
  after_turn-Settles st (again e att st') rest h more =
      let (end, eq, (r, l, replies, log, same)) = more (some e) att st' in
      (end, eq, (r, l, (rw (replies, h.0) refl), (rw (log, h.1) refl), same))

  -- Both relays, by what they do with an upstream.
  module _ (exchanged : Exchanged env rq)
      (exchanged-Accounts : (att : Attempt) (p : Option ModelPrice) (rule : Option RoutingRule)
          (st : Relay S)
        → TurnAccounts st (exchanged att p rule st)) where
    take_gate-Accounts :
        (att : Attempt) (rule : Option RoutingRule) (g : Gate × Service S) (st : Relay S)
        → TurnAccounts st (take_gate env rq exchanged att rule g st)
    unfolding take_gate
    take_gate-Accounts att rule (rejected n msg logged, q) st =
        fail_request-Accounts n msg logged (some att) rule (record st { quota = q })
    take_gate-Accounts att rule (admitted p, q) st =
        exchanged-Accounts att p rule (record st { quota = q })

    try_candidate-Accounts :
        (sel : Selection) (ch : Channel) (last : Option Attempt) (st : Relay S)
        → TurnAccounts st (try_candidate env rq exchanged sel ch last st)
    unfolding try_candidate
    try_candidate-Accounts sel ch last st = elim (Bool-cases (has_adapter ch)) [
      | inl e ↦ rw e (take_gate-Accounts _ sel.rule _ st)
      | inr e ↦ rw e (refl, refl)
    ]

    serve_loop-Settles :
        (f : ℕ) (sel : Selection)
        → length sel.candidates - sel.cursor < f
        → (e : Option LastError) (att : Option Attempt) (st : Relay S)
        → Settles st (serve_loop env rq exchanged f sel e att st)
    unfolding serve_loop turn Settles fail_all_candidates
    serve_loop-Settles zero sel h e att st = absurd (omega arith)
    serve_loop-Settles (suc f) sel h e att st = elim (next-cases sel) [
      | inl eq ↦ rw eq (
        _,
        refl,
        fail_request-Accounts (pos 502) (all_candidates_failed e) (all_candidates_failed e) att
            sel.rule st,
      )
      | inr (left, ch, eq) ↦ rw eq (
          after_turn-Settles st _ _
            (try_candidate-Accounts (record sel { cursor = sel.cursor + 1 }) ch att st)
            (serve_loop-Settles f (record sel { cursor = sel.cursor + 1 })
              (omega (arith, left, h))))
    ]

    pub serve-Accounts :
        (routed : RouteError ⊎ Selection) (st : Relay S)
        → (st' : Relay S) × (serve env rq exchanged routed st ≡ some st') × Accounts st st'
    unfolding serve fail_no_channel Settles
    serve-Accounts (inl e) st = (
      _,
      refl,
      fail_request-Accounts (pos 502) (routing_failed rq.model e) (routing_failed rq.model e) none
          none st,
    )
    serve-Accounts (inr sel) st =
        serve_loop-Settles (suc (length sel.candidates)) sel (omega arith) none none st

  -- Every request that the router answered, with a selection or with an error, and whatever the
  -- upstreams, the price table and the quotas answer: serveNonStream ends, writes one reply to the
  -- client and one row to the log, and the two agree. A success is logged with status 200, the
  -- channel that answered and a cost; a failure with the status that the client got and no cost.
  pub serve_non_stream-Accounts :
      (routed : RouteError ⊎ Selection) (st : Relay S)
      → (st' : Relay S) × (serve_non_stream env rq routed st ≡ some st') × Accounts st st'
  unfolding serve_non_stream
  serve_non_stream-Accounts = serve-Accounts (exchange_once env rq) exchange_once-Accounts
