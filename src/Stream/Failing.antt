-- ===== src/Stream/Failing.antt =====
-- A stream in which the upstream reports an error: what server/internal/relay/stream.go sends to the
-- client and puts in the log.
use hhrouter.Base.{
  ℕ, Bool, true, false, ◌&&◌, not, Option, none, some, List, [], ◌∷◌, ◌++◌, ◌≡◌, refl, sym, ap, ◌∙◌,
  Bool-cases, inl, inr,
}
use hhrouter.Base.Predicates.{All}
use hhrouter.Base.Text.{Bytes, bytes_eq, codes}
use hhrouter.Model.{Channel, RoutingRule}
use hhrouter.Billing.{ModelPrice}
use hhrouter.Wire.Reader.{Source}
use hhrouter.Wire.EventStream.{StreamEvent}
use hhrouter.Adapter.{UpstreamError, StreamChunk, ParsedChunk, is_some}
use hhrouter.Relay.Data.{stream_message, streamed, LogEntry, log_error, Request, Attempt, Relay}
use hhrouter.Relay.{Upstreams, Turn, ended}
use hhrouter.Stream.Events.{WireEvent, OutputFormat, out_openai, out_anthropic, out_bedrock}
use hhrouter.Stream.Pump.{
  upstream_failed, Pump, new_pump, emit_anthropic_prelude, close_anth_tool_block, emit,
  merged_usage, observe, FeedEnd, closed, forward, take_parsed, process, drain, read_terminal_err,
  take_chunk, close_anthropic, close_bedrock, close_stream, pump_stream,
}
use hhrouter.Stream.Serve.{
  Connection, connected, Decoders, parser, upstream_events, feed, is_anthropic, pump,
  take_connection,
}
use hhrouter.Stream.Accounts.{StreamStatus, stream_phase_failed}
use hhrouter.Stream.Commuting.{
  failing, Commutes, keeps_failure, if_false, emit_anthropic_prelude-Commutes,
  close_text_block-Commutes, close_anth_tool_block-Commutes, emit_bedrock_prelude-Commutes,
  emit-Commutes,
}

-- The error that an event tells of.
abbrev pub told : ParsedChunk → Option UpstreamError
told none = none
told (some (chunk, meaningful)) = chunk.upstream_err

module _ (parse : Bytes → Bytes → ParsedChunk) (format : OutputFormat) (model : Bytes) where
  abbrev pub Passes : StreamEvent → Type 0
  Passes ev = told (parse ev.event_type ev.payload) ≡ none

  close_anthropic-Commutes : Commutes (close_anthropic parse format model)
  unfolding close_anthropic
  close_anthropic-Commutes f st =
      rw
        (
          emit_anthropic_prelude-Commutes model f st,
          close_anth_tool_block-Commutes f (emit_anthropic_prelude model st),
          close_text_block-Commutes f (close_anth_tool_block (emit_anthropic_prelude model st)),
        )
        refl

  close_bedrock-Commutes : Commutes (close_bedrock parse format model)
  unfolding close_bedrock
  close_bedrock-Commutes f st = rw (emit_bedrock_prelude-Commutes f st) refl

  close_stream-Commutes : (o : OutputFormat) → Commutes (close_stream parse format model o)
  close_stream-Commutes out_anthropic = close_anthropic-Commutes
  close_stream-Commutes out_bedrock = close_bedrock-Commutes
  close_stream-Commutes out_openai = λ f st. refl

  take_chunk_passes :
      (o : Option UpstreamError) (chunk : StreamChunk) (meaningful : Bool) (st : Pump)
      → o ≡ none
      → (take_chunk parse format model o chunk meaningful st).fatal_err ≡ st.fatal_err
  unfolding forward observe
  take_chunk_passes (some e) chunk meaningful st h = cc
  take_chunk_passes none chunk meaningful st h =
      elim (Bool-cases (not meaningful && not chunk.done)) [
        | inl e ↦ rw e refl
        | inr e ↦ rw e (
            keeps_failure
              (emit format model (record chunk { usage = merged_usage st.final_usage chunk.usage }))
              (emit-Commutes format model
                (record chunk { usage = merged_usage st.final_usage chunk.usage }))
              (observe chunk st))
      ]

  take_parsed_passes :
      (p : ParsedChunk) (st : Pump)
      → told p ≡ none
      → (take_parsed parse format model p st).fatal_err ≡ st.fatal_err
  take_parsed_passes none st h = refl
  take_parsed_passes (some (chunk, meaningful)) st h =
      take_chunk_passes chunk.upstream_err chunk meaningful st h

  take_parsed_fails :
      (p : ParsedChunk) (st : Pump) (u : UpstreamError)
      → told p ≡ some u
      → take_parsed parse format model p st ≡ failing (some (upstream_failed u)) st
  take_parsed_fails none st u h = cc
  take_parsed_fails (some (chunk, meaningful)) st u h = rw h refl

  drain_stops :
      (events : List StreamEvent) (end : FeedEnd) (st : Pump)
      → is_some st.fatal_err ≡ true
      → drain parse format model events end st ≡ st
  unfolding drain
  drain_stops [] end st h = rw h refl
  drain_stops (ev ∷ events) end st h = rw h refl

  drain_nil : (st : Pump) → drain parse format model [] (closed none) st ≡ st
  unfolding drain read_terminal_err
  drain_nil st = elim (Bool-cases (is_some st.fatal_err)) [ inl e ↦ rw e refl | inr e ↦ rw e refl ]

  drain_cons :
      (ev : StreamEvent) (events : List StreamEvent) (end : FeedEnd) (st : Pump)
      → st.fatal_err ≡ none
      → drain parse format model (ev ∷ events) end st
        ≡ drain parse format model events end
            (take_parsed parse format model (parse ev.event_type ev.payload) st)
  unfolding drain process
  drain_cons ev events end st h = if_false (is_some st.fatal_err) _ _ (ap is_some h)

  -- What comes before the error is taken, and nothing behind it.
  drain_error :
      (before : List StreamEvent) (ev : StreamEvent) (after : List StreamEvent) (end : FeedEnd)
      (u : UpstreamError) (st : Pump)
      → All Passes before
      → told (parse ev.event_type ev.payload) ≡ some u
      → st.fatal_err ≡ none
      → drain parse format model (before ++ (ev ∷ after)) end st
        ≡ failing (some (upstream_failed u)) (drain parse format model before (closed none) st)
  drain_error [] ev after end u st passes error none_yet =
      drain_cons ev after end st none_yet
      ∙ ap (drain parse format model after end)
          (take_parsed_fails (parse ev.event_type ev.payload) st u error)
      ∙ drain_stops after end (failing (some (upstream_failed u)) st) refl
      ∙ ap (failing (some (upstream_failed u))) (sym (drain_nil st))
  drain_error (e ∷ before) ev after end u st passes error none_yet =
      drain_cons e (before ++ (ev ∷ after)) end st none_yet
      ∙ drain_error before ev after end u
          (take_parsed parse format model (parse e.event_type e.payload) st) passes.1 error
          (take_parsed_passes (parse e.event_type e.payload) st passes.0 ∙ none_yet)
      ∙ ap (failing (some (upstream_failed u)))
          (sym (drain_cons e before (closed none) st none_yet))

  -- The pump of a stream with an error is that of the events before it, but for the failure.
  pub pump_stream_error :
      (before : List StreamEvent) (ev : StreamEvent) (after : List StreamEvent) (end : FeedEnd)
      (u : UpstreamError)
      → All Passes before
      → told (parse ev.event_type ev.payload) ≡ some u
      → pump_stream parse format model (before ++ (ev ∷ after)) end
        ≡ failing (some (upstream_failed u)) (pump_stream parse format model before (closed none))
  unfolding pump_stream
  pump_stream_error before ev after end u passes error =
      ap (close_stream parse format model format)
        (drain_error before ev after end u new_pump passes error refl)
      ∙ close_stream-Commutes format (some (upstream_failed u))
          (drain parse format model before (closed none) new_pump)

module _ {S : Type 0} (env : Upstreams S) (json : Decoders)
    (connect : Channel → Bytes → S → Connection × S) (format : OutputFormat) (rq : Request) where
  -- The turn is the last one: what was sent, and the one row that is logged.
  abbrev pub FailsWith : Attempt → UpstreamError → List WireEvent → Relay S → Turn S → Type 0
  FailsWith att u sent st turn =
      (st' : Relay S) × (turn ≡ ended st')
      × (st'.quota ≡ st.quota)
      × (st'.replies ≡ st.replies ++ (streamed att.channel sent ∷ []))
      × (l : LogEntry) × (st'.log ≡ st.log ++ (l ∷ []))
      × (l.status ≡ log_error)
      × (l.cost_micro_usd ≡ none)
      × (l.error_message ≡ stream_message (upstream_failed u))
      × StreamStatus l.http_status

  -- The upstream of a connected channel reports an error in one of its events, none of those before it
  -- does, and the stream is not passed through as it came. Then the turn is the last one; the client
  -- gets what it would get if the upstream had ended in front of the error, and nothing of what
  -- follows; the quotas are as they were; and the one row that is logged is an error with the
  -- upstream's message, no cost, and status 200 or one between 400 and 599.
  pub take_connection_failed :
      (att : Attempt) (p : Option ModelPrice) (rule : Option RoutingRule) (body : Source)
      (gone : Option ℕ) (before : List StreamEvent) (ev : StreamEvent) (after : List StreamEvent)
      (end : FeedEnd) (u : UpstreamError) (st : Relay S)
      → (bytes_eq att.channel.kind (codes "anthropic") && is_anthropic format) ≡ false
      → feed gone (upstream_events att.channel.kind body) ≡ (before ++ (ev ∷ after), end)
      → All (Passes (parser json att.channel.kind) format rq.model) before
      → told (parser json att.channel.kind ev.event_type ev.payload) ≡ some u
      → FailsWith att u
          (pump_stream (parser json att.channel.kind) format rq.model before (closed none)).out
          st
          (take_connection env json connect format rq att p rule (connected body gone) st)
  unfolding take_connection
  take_connection_failed att p rule body gone before ev after end u st transformed fed passes
        error =
      let clean : Pump =
        pump_stream (parser json att.channel.kind) format rq.model before (closed none) in
      let pumped : pump env json connect format rq att.channel body gone
          ≡ failing (some (upstream_failed u)) clean =
        unfold pump in
        rw (transformed, fed)
          (pump_stream_error (parser json att.channel.kind) format rq.model before ev after end u
            passes error) in
      let (quota, replies, l, log, status, cost, message, http) =
        stream_phase_failed env json connect format rq att p rule
          (failing (some (upstream_failed u)) clean) (upstream_failed u) st refl in
      rw pumped (_, refl, quota, replies, l, log, status, cost, message, http)
