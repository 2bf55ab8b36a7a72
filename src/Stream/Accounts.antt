-- ===== src/Stream/Accounts.antt =====
-- Every streamed request of server/internal/relay/stream.go is answered once and logged once, and a
-- stream that fails costs nothing.
use hhrouter.Base.{
  ◌||◌, Option, none, some, [], ◌∷◌, ◌++◌, ◌≡◌, refl, ◌⊎◌, inl, inr, Bool-cases, arith,
}
use hhrouter.Base.Int.{ℤ, pos, ltb_ℤ, ◌≤ℤ◌, eqb_ℤ}
use hhrouter.Base.Text.{Bytes}
use hhrouter.Model.{Channel, RoutingRule}
use hhrouter.Billing.{ModelPrice}
use hhrouter.Adapter.{retryable}
use hhrouter.Router.Outcome.{RouteError}
use hhrouter.Router.Selection.{Selection}
use hhrouter.Relay.Data.{
  upstream_message, upstream_text, stream_message, streamed, LogEntry, log_error, Request, Attempt,
  Relay,
}
use hhrouter.Relay.{Upstreams, write_reply, fail_upstream, clamp_status, finish, debit}
use hhrouter.Relay.Accounts.{Accounts, TurnAccounts, fail_request-Accounts, serve-Accounts}
use hhrouter.Stream.Events.{OutputFormat}
use hhrouter.Stream.Pump.{StreamFailure, upstream_failed, read_broken, Pump}
use hhrouter.Stream.Serve.{
  Connection, unbuilt, unreachable, rejected_by, connected, Decoders, upstream_http_status,
  failure_status, pump, settle_stream, stream_phase, take_connection, stream_once, serve_stream,
}

-- 200, or an error's status.
abbrev pub StreamStatus : ℤ → Type 0
StreamStatus n = (n ≡ pos 200) ⊎ ((pos 400 ≤ℤ n) × (n ≤ℤ pos 599))

failure_status-StreamStatus : (f : StreamFailure) → StreamStatus (failure_status f)
unfolding upstream_http_status
failure_status-StreamStatus (read_broken e) = inl refl
failure_status-StreamStatus (upstream_failed u) =
    elim (Bool-cases (ltb_ℤ u.status_code (pos 400) || ltb_ℤ (pos 599) u.status_code)) [
      | inl e ↦ rw e (inr (omega arith, omega arith))
      | inr e ↦ elim (Bool-cases (eqb_ℤ u.status_code (pos 0))) [
        | inl zero_status ↦ rw (e, zero_status) (inl refl)
        | inr other ↦ rw (e, other) (inr (ground arith, ground arith))
      ]
    ]

module _ {S : Type 0} (env : Upstreams S) (json : Decoders)
    (connect : Channel → Bytes → S → Connection × S) (format : OutputFormat) (rq : Request) where
  settle_stream-Accounts :
      (att : Attempt) (p : Option ModelPrice) (rule : Option RoutingRule) (pumped : Pump)
      (f : Option StreamFailure) (st : Relay S)
      → Accounts st (
          settle_stream env json connect format rq att p rule pumped f
            (write_reply (streamed att.channel pumped.out) st))
  unfolding settle_stream finish
  settle_stream-Accounts att p rule pumped none st =
      (streamed att.channel pumped.out, _, refl, refl, (refl, inl (refl, refl)))
  settle_stream-Accounts att p rule pumped (some f) st =
      (streamed att.channel pumped.out, _, refl, refl, (refl, inr (refl, refl)))

  take_connection-Accounts :
      (att : Attempt) (p : Option ModelPrice) (rule : Option RoutingRule) (c : Connection)
      (st : Relay S)
      → TurnAccounts st (take_connection env json connect format rq att p rule c st)
  unfolding take_connection stream_phase fail_upstream
  take_connection-Accounts att p rule (unbuilt e) st = (refl, refl)
  take_connection-Accounts att p rule (unreachable e) st = (refl, refl)
  take_connection-Accounts att p rule (rejected_by u) st = elim (Bool-cases (retryable u)) [
    | inl e ↦ rw e (refl, refl)
    | inr e ↦ rw e (
        fail_request-Accounts env rq (clamp_status u.status_code) (upstream_message u.message)
          (upstream_text u) (some att) rule st)
  ]
  take_connection-Accounts att p rule (connected body gone) st =
      let pumped : Pump = pump env json connect format rq att.channel body gone in
      settle_stream-Accounts att p rule pumped pumped.fatal_err st

  stream_once-Accounts :
      (att : Attempt) (p : Option ModelPrice) (rule : Option RoutingRule) (st : Relay S)
      → TurnAccounts st (stream_once env json connect format rq att p rule st)
  unfolding stream_once
  stream_once-Accounts att p rule st =
      let (c, store') = connect att.channel att.upstream st.quota.store in
      take_connection-Accounts att p rule c
        (record st { quota = record st.quota { store = store' } })

  -- Every streamed request that the router answered, with a selection or with an error, and whatever
  -- the upstreams, their streams, the client's connection, the price table and the quotas do:
  -- serveStream ends, writes one reply to the client and one row to the log, and the two agree. A
  -- request that failed before a stream began is an error reply, logged with its status and no cost; a
  -- stream is logged with the channel that sent it, as a success with status 200 or as an error with
  -- no cost.
  pub serve_stream-Accounts :
      (routed : RouteError ⊎ Selection) (st : Relay S)
      → (st' : Relay S) × (serve_stream env json connect format rq routed st ≡ some st')
        × Accounts st st'
  unfolding serve_stream
  serve_stream-Accounts =
      serve-Accounts env rq (stream_once env json connect format rq) stream_once-Accounts

  -- A stream that fails midway, at an upstream's error event or a broken connection: the client has
  -- got what was pumped until then, the quotas are as they were, and the one row that is logged is an
  -- error with that failure's message, no cost, and status 200 or one between 400 and 599.
  pub stream_phase_failed :
      (att : Attempt) (p : Option ModelPrice) (rule : Option RoutingRule) (pumped : Pump)
      (f : StreamFailure) (st : Relay S)
      → pumped.fatal_err ≡ some f
      → let st' : Relay S = stream_phase env json connect format rq att p rule pumped st in
        (st'.quota ≡ st.quota)
        × (st'.replies ≡ st.replies ++ (streamed att.channel pumped.out ∷ []))
        × (l : LogEntry) × (st'.log ≡ st.log ++ (l ∷ []))
        × (l.status ≡ log_error)
        × (l.cost_micro_usd ≡ none)
        × (l.error_message ≡ stream_message f)
        × StreamStatus l.http_status
  unfolding stream_phase settle_stream finish debit
  stream_phase_failed att p rule pumped f st e =
      simp (e) (refl, refl, _, refl, refl, refl, refl, failure_status-StreamStatus f)
