-- ===== src/Stream/Passthrough.antt =====
-- The pump between an Anthropic upstream and a client of Anthropic's dialect, `pumpAnthropicPassthrough`
-- of server/internal/relay/stream.go: events go on as they came. What encoding/json makes of a payload
-- is a parameter, which also answers where decoding fails.
use hhrouter.Base.{
  Bool, true, false, ◌||◌, not, Option, none, some, List, [], ◌∷◌, ◌++◌, if◌then◌else◌, ◌≡◌, refl,
  sym, ap, ◌∙◌, map, append_assoc, append-nil, Bool-cases, inl, inr,
}
use hhrouter.Base.Int.{pos}
use hhrouter.Base.Text.{Bytes, bytes_eq, codes}
use hhrouter.Wire.Reader.{at_eof, unexpected_eof, read_failed}
use hhrouter.Wire.EventStream.{StreamEvent, malformed_lengths, bounds_exceed_frame, read_error}
use hhrouter.Adapter.{UpstreamError, is_some}
use hhrouter.Adapter.Tokens.{AnthropicCounts}
use hhrouter.Adapter.Anthropic.{EventDelta, EventError, start_usage, delta_usage, error_message}
use hhrouter.Stream.Events.{WireEvent, verbatim}
use hhrouter.Stream.Pump.{
  upstream_failed, Pump, new_pump, write, merged, FeedEnd, closed, client_gone, read_terminal_err,
  finish_feed, merge_stream_usage,
}

-- anthropicPassthroughEvent
pub record PassthroughEvent : Type 0 where
  pub kind : Bytes
  pub message : Option (Option AnthropicCounts)
  pub delta : Option EventDelta
  pub usage : Option AnthropicCounts
  pub error : Option EventError

abbrev pub text_of : Option EventDelta → Bytes
unfolding bytes_eq
text_of none = []
text_of (some d) = if bytes_eq d.kind (codes "text_delta") then d.text else []

abbrev pub is_input : Option EventDelta → Bool
unfolding bytes_eq
is_input none = false
is_input (some d) = bytes_eq d.kind (codes "input_json_delta")

unfoldable pub sniff_event : PassthroughEvent → Pump → Pump
unfolding merge_stream_usage start_usage delta_usage bytes_eq
sniff_event ev st = record st {
  final_usage = merged (merged st.final_usage (start_usage ev.message)) (delta_usage ev.usage);
  completion = st.completion ++ text_of ev.delta;
  first_token = st.first_token || not (bytes_eq (text_of ev.delta) []) || is_input ev.delta;
}

module _ (sniff : Bytes → PassthroughEvent) where
  -- writeSSENamedRaw under eventNameFor
  abbrev pub forwarded : StreamEvent → WireEvent
  forwarded raw = verbatim (sniff raw.payload).kind raw.payload

  abbrev pub is_error : StreamEvent → Bool
  unfolding bytes_eq
  is_error raw = bytes_eq (sniff raw.payload).kind (codes "error")

  abbrev pub failure : StreamEvent → UpstreamError
  failure raw = record {
    provider = codes "anthropic";
    status_code = pos 502;
    message = error_message (sniff raw.payload).error;
    body = [];
  }

  unfoldable pub pass : StreamEvent → Pump → Pump
  unfolding sniff_event
  pass raw st =
      if is_error raw
      then write (forwarded raw) (record st { fatal_err = some (upstream_failed (failure raw)) })
      else write (forwarded raw) (sniff_event (sniff raw.payload) st)

  unfoldable pub drain : List StreamEvent → FeedEnd → Pump → Pump
  unfolding pass
  drain [] end st = if is_some st.fatal_err then st else finish_feed end st
  drain (ev ∷ events) end st = if is_some st.fatal_err then st else drain events end (pass ev st)

  unfoldable pub pump_passthrough : List StreamEvent → FeedEnd → Pump
  unfolding drain
  pump_passthrough events end = drain events end new_pump

  -- The events up to the first error event, and that one.
  abbrev pub until_error : List StreamEvent → List StreamEvent
  until_error [] = []
  until_error (ev ∷ events) =
      let rest = until_error events in if is_error ev then ev ∷ [] else ev ∷ rest

  -- The stream ends as the reader says, unless an error event came first.
  finish_feed-out : (end : FeedEnd) (st : Pump) → (finish_feed end st).out ≡ st.out
  unfolding read_terminal_err
  finish_feed-out client_gone st = refl
  finish_feed-out (closed none) st = refl
  finish_feed-out (closed (some (malformed_lengths t n))) st = refl
  finish_feed-out (closed (some bounds_exceed_frame)) st = refl
  finish_feed-out (closed (some (read_error at_eof))) st = refl
  finish_feed-out (closed (some (read_error unexpected_eof))) st = refl
  finish_feed-out (closed (some (read_error (read_failed e)))) st = refl

  stopped :
      (events : List StreamEvent) (end : FeedEnd) (st : Pump)
      → is_some st.fatal_err ≡ true
      → drain events end st ≡ st
  unfolding drain
  stopped [] end st h = rw h refl
  stopped (ev ∷ events) end st h = rw h refl

  drain-out :
      (events : List StreamEvent) (end : FeedEnd) (st : Pump)
      → is_some st.fatal_err ≡ false
      → (drain events end st).out ≡ st.out ++ map forwarded (until_error events)
  unfolding drain pass sniff_event
  drain-out [] end st h = rw h (finish_feed-out end st ∙ sym (append-nil st.out))
  drain-out (ev ∷ events) end st h = elim (Bool-cases (is_error ev)) [
    | inl e ↦
        let failed : Pump =
          write (forwarded ev) (record st { fatal_err = some (upstream_failed (failure ev)) }) in
        rw (h, e) (ap (λ (s : Pump). s.out) (stopped events end failed refl))
    | inr e ↦
        let on : Pump = write (forwarded ev) (sniff_event (sniff ev.payload) st) in
        rw (h, e)
          (drain-out events end on h
            ∙ append_assoc st.out (forwarded ev ∷ []) (map forwarded (until_error events)))
  ]

  -- What the upstream sends goes to the client unchanged: every event, whether or not it is valid
  -- JSON, under the name that its type gives, once and in order, and nothing else, up to the first
  -- error event, which the client still gets and behind which nothing is sent.
  pub pump_passthrough_verbatim :
      (events : List StreamEvent) (end : FeedEnd)
      → (pump_passthrough events end).out ≡ map forwarded (until_error events)
  unfolding pump_passthrough
  pump_passthrough_verbatim events end = drain-out events end new_pump refl
