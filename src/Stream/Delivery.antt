-- ===== src/Stream/Delivery.antt =====
-- The text that the pump of server/internal/relay/stream.go sends, and the one that it keeps.
use hhrouter.Base.{
  Bool, true, false, ◌&&◌, not, Option, none, some, List, [], ◌∷◌, ◌++◌, ◌≡◌, refl, sym, ap, ◌∙◌,
  ◌⊎◌, inl, inr, arith, Bool-cases, append-nil,
}
use hhrouter.Base.Text.{Bytes}
use hhrouter.Wire.Reader.{at_eof, unexpected_eof, read_failed}
use hhrouter.Wire.EventStream.{StreamEvent, malformed_lengths, bounds_exceed_frame, read_error}
use hhrouter.Billing.{Usage}
use hhrouter.Adapter.{StreamChunk, ParsedChunk, UpstreamError, is_some}
use hhrouter.Adapter.Stops.{stop_to_anthropic, stop_to_bedrock}
use hhrouter.Stream.Events.{
  OutputFormat, out_openai, out_anthropic, out_bedrock, message_delta, message_stop, WireEvent,
  anthropic, openai_done, bedrock, bedrock_block_stop, bedrock_message_stop, bedrock_metadata,
  anthropic_usage_of, bedrock_usage,
}
use hhrouter.Stream.Pump.{
  Pump, new_pump, write, emit_anthropic_prelude, close_anth_tool_block, close_text_block,
  emit_anthropic, emit_bedrock_prelude, emit, merged_usage, FeedEnd, closed, client_gone,
  read_terminal_err, finish_feed, process, drain, close_anthropic, close_bedrock, close_stream,
  pump_stream, forward, observe, take_chunk, take_parsed, usage_or_zero,
}
use hhrouter.Stream.Text.{
  then_write, sent_text, Says, emit_anthropic_parts-Says, write_openai-Says, write_bedrock-Says,
  Quiet, write-Quiet, then-Quiet, emit_anthropic_prelude-Quiet, close_blocks-Quiet,
  emit_bedrock_prelude-Quiet,
}

-- What is asked of the adapter: text comes in meaningful chunks, and, for a client of Anthropic's
-- dialect, in a chunk of its own.
abbrev pub Carries : OutputFormat → StreamChunk → Bool → Type 0
Carries out_anthropic c meaningful =
    (c.delta ≡ []) ⊎ ((meaningful ≡ true) × (c.tool_call_delta ≡ none))
Carries out_openai c meaningful = (c.delta ≡ []) ⊎ (meaningful ≡ true)
Carries out_bedrock c meaningful = (c.delta ≡ []) ⊎ (meaningful ≡ true)

abbrev pub Delivers : OutputFormat → ParsedChunk → Type 0
Delivers format none = Unit
Delivers format (some (c, meaningful)) = Carries format c meaningful

emit-Says :
    (format : OutputFormat) (model : Bytes) (c : StreamChunk) (meaningful : Bool) (st : Pump)
    → Carries format c meaningful
    → Says st c.delta (emit format model c st)
unfolding emit emit_anthropic
emit-Says out_anthropic model c meaningful st (inl e) =
    emit_anthropic_parts-Says model c.tool_call_delta c.delta st (inr e)
emit-Says out_anthropic model c meaningful st (inr (m, e)) =
    emit_anthropic_parts-Says model c.tool_call_delta c.delta st (inl e)
emit-Says out_openai model c meaningful st h = write_openai-Says model c st
emit-Says out_bedrock model c meaningful st h = write_bedrock-Says c st

silent_skip :
    (format : OutputFormat) (c : StreamChunk) (meaningful : Bool)
    → Carries format c meaningful
    → meaningful ≡ false
    → c.delta ≡ []
silent_skip out_anthropic c m (inl e) skip = e
silent_skip out_anthropic c m (inr (e, t)) skip = cc
silent_skip out_openai c m (inl e) skip = e
silent_skip out_openai c m (inr e) skip = cc
silent_skip out_bedrock c m (inl e) skip = e
silent_skip out_bedrock c m (inr e) skip = cc

abbrev Kept : Pump → Type 0
Kept st = sent_text st.out ≡ st.completion

carried_on :
    (format : OutputFormat) (c : StreamChunk) (u : Option Usage) (meaningful : Bool)
    → Carries format c meaningful
    → Carries format (record c { usage = u }) meaningful
carried_on out_anthropic c u meaningful h = h
carried_on out_openai c u meaningful h = h
carried_on out_bedrock c u meaningful h = h

module _ (parse : Bytes → Bytes → ParsedChunk) (format : OutputFormat) (model : Bytes) where
  forward-Kept :
      (chunk : StreamChunk) (meaningful : Bool) (st : Pump)
      → Carries format chunk meaningful
      → Kept st
      → Kept (forward parse format model chunk meaningful st)
  unfolding forward observe
  forward-Kept chunk meaningful st h k = elim (Bool-cases (not meaningful && not chunk.done)) [
    | inl skip ↦
        rw (skip, silent_skip format chunk meaningful h (ground arith))
          (k ∙ sym (append-nil st.completion))
    | inr on ↦
        let sent : StreamChunk = record chunk { usage = merged_usage st.final_usage chunk.usage } in
        let (text, kept) =
          emit-Says format model sent meaningful (observe chunk st)
            (carried_on format chunk _ meaningful h) in
        rw on (text ∙ ap (λ (s : Bytes). s ++ chunk.delta) k ∙ sym kept)
  ]

  take_parsed-Kept :
      (p : ParsedChunk) (st : Pump)
      → Delivers format p
      → Kept st
      → Kept (take_parsed parse format model p st)
  take_parsed-Kept none st h k = k
  take_parsed-Kept (some (chunk, meaningful)) st h k = taken chunk.upstream_err
    where
      taken :
          (e : Option UpstreamError) → Kept (take_chunk parse format model e chunk meaningful st)
      taken none = forward-Kept chunk meaningful st h k
      taken (some e) = k

  finish_feed-Kept : (end : FeedEnd) (st : Pump) → Kept st → Kept (finish_feed end st)
  unfolding read_terminal_err
  finish_feed-Kept client_gone st k = k
  finish_feed-Kept (closed none) st k = k
  finish_feed-Kept (closed (some (malformed_lengths t n))) st k = k
  finish_feed-Kept (closed (some bounds_exceed_frame)) st k = k
  finish_feed-Kept (closed (some (read_error at_eof))) st k = k
  finish_feed-Kept (closed (some (read_error unexpected_eof))) st k = k
  finish_feed-Kept (closed (some (read_error (read_failed e)))) st k = k

  module _ (delivers : (t p : Bytes) → Delivers format (parse t p)) where
    drain-Kept :
        (events : List StreamEvent) (end : FeedEnd) (st : Pump)
        → Kept st
        → Kept (drain parse format model events end st)
    unfolding drain process
    drain-Kept [] end st k = elim (Bool-cases (is_some st.fatal_err)) [
      | inl e ↦ rw e k
      | inr e ↦ rw e (finish_feed-Kept end st k)
    ]
    drain-Kept (ev ∷ events) end st k = elim (Bool-cases (is_some st.fatal_err)) [
      | inl e ↦ rw e k
      | inr e ↦ rw e (
          drain-Kept events end _ (
            take_parsed-Kept (parse ev.event_type ev.payload) st (delivers ev.event_type ev.payload)
              k))
    ]

  close_anthropic-Quiet : (st : Pump) → Quiet st (close_anthropic parse format model st)
  unfolding close_anthropic
  close_anthropic-Quiet st =
      let started : Pump = emit_anthropic_prelude model st in
      let shut : Pump = close_text_block (close_anth_tool_block started) in
      let last : WireEvent =
        anthropic
          (message_delta (stop_to_anthropic st.final_stop) (anthropic_usage_of st.final_usage)) in
      then_write (anthropic message_stop) st (write last shut) refl (
        then_write last st shut refl (
          then-Quiet st started shut (emit_anthropic_prelude-Quiet model st)
            (close_blocks-Quiet started)))

  close_bedrock-Quiet : (st : Pump) → Quiet st (close_bedrock parse format model st)
  unfolding close_bedrock
  close_bedrock-Quiet st =
      let started : Pump = emit_bedrock_prelude st in
      let stopped : Pump = write (bedrock bedrock_block_stop) started in
      let reason : WireEvent = bedrock (bedrock_message_stop (stop_to_bedrock st.final_stop)) in
      then_write (bedrock (bedrock_metadata (bedrock_usage (usage_or_zero st.final_usage)))) st
        (write reason stopped) refl
        (then_write reason st stopped refl
          (then_write (bedrock bedrock_block_stop) st started refl (emit_bedrock_prelude-Quiet st)))

  close_stream-Quiet :
      (out : OutputFormat) (st : Pump) → Quiet st (close_stream parse format model out st)
  close_stream-Quiet out_anthropic st = close_anthropic-Quiet st
  close_stream-Quiet out_bedrock st = close_bedrock-Quiet st
  close_stream-Quiet out_openai st = write-Quiet openai_done st refl

-- In every dialect, however the stream ends, the text that the client is sent is the text that the
-- relay has kept for its log and its token estimate, byte for byte and in order: the closing events
-- add none, and nothing is sent twice or lost. It is asked of the adapter that a chunk with text is
-- a meaningful one and, for a client of Anthropic's dialect, carries no tool call besides.
pub pump_stream_text :
    (parse : Bytes → Bytes → ParsedChunk) (format : OutputFormat) (model : Bytes)
    → ((event_type payload : Bytes) → Delivers format (parse event_type payload))
    → (events : List StreamEvent) (end : FeedEnd)
    → sent_text (pump_stream parse format model events end).out
      ≡ (pump_stream parse format model events end).completion
unfolding pump_stream sent_text
pump_stream_text parse format model delivers events end =
    let drained : Pump = drain parse format model events end new_pump in
    let (quiet, kept) = close_stream-Quiet parse format model format drained in
    quiet ∙ drain-Kept parse format model delivers events end new_pump refl ∙ sym kept
