-- ===== src/Stream/Pump.antt =====
-- The pump of the streaming relay (server/internal/relay/stream.go, `pumpStream`): each upstream event
-- is parsed and what it comes to goes out in the client's dialect. The adapter's parser is a
-- parameter. Of `emitChunk`, the case of the Anthropic dialect is left out: `process` returns before.
use hhrouter.Base.{
  Bool, true, false, ◌&&◌, ◌||◌, not, Option, none, some, List, [], ◌∷◌, ◌++◌, if◌then◌else◌,
}
use hhrouter.Base.Int.{ℤ, pos, ltb_ℤ, eqb_ℤ, wrap64, ◌+ℤ◌}
use hhrouter.Base.Text.{Bytes, bytes_eq}
use hhrouter.Billing.{Usage}
use hhrouter.Wire.Reader.{at_eof, unexpected_eof, read_failed}
use hhrouter.Wire.EventStream.{
  StreamEvent, StreamError, malformed_lengths, bounds_exceed_frame, read_error,
}
use hhrouter.Adapter.{
  UpstreamError, StopReason, stop_unknown, is_known, ToolCallDelta, StreamChunk, ParsedChunk,
  is_some,
}
use hhrouter.Adapter.Stops.{stop_to_anthropic, stop_to_bedrock}
use hhrouter.Stream.Events.{
  OutputFormat, out_openai, out_anthropic, out_bedrock, bedrock_usage, message_start,
  text_block_start, tool_block_start, text_delta, input_json_delta, content_block_stop,
  message_delta, message_stop, AnthropicEvent, OpenAiChunk, BedrockEvent, bedrock_message_start,
  bedrock_block_start, bedrock_block_stop, bedrock_message_stop, bedrock_metadata, WireEvent,
  anthropic, openai_chunk, openai_done, bedrock, build_openai_stream_chunk,
  build_bedrock_stream_event, anthropic_usage_of,
}

-- What ends a stream before its time: an upstream's error event, or a broken connection.
pub data StreamFailure : Type 0 where
  upstream_failed : UpstreamError → StreamFailure
  read_broken : StreamError → StreamFailure

-- The variables of pumpStream, and what has been written to the client.
pub record Pump : Type 0 where
  pub final_usage : Option Usage
  pub completion : Bytes
  pub anth_opened : Bool
  pub anth_text_open : Bool
  pub anth_tool_idx : ℤ
  pub bedrock_opened : Bool
  pub final_stop : StopReason
  pub fatal_err : Option StreamFailure
  pub first_token : Bool
  pub out : List WireEvent

abbrev pub new_pump : Pump
new_pump = record {
  final_usage = none;
  completion = [];
  anth_opened = false;
  anth_text_open = false;
  anth_tool_idx = pos 0;
  bedrock_opened = false;
  final_stop = stop_unknown;
  fatal_err = none;
  first_token = false;
  out = [];
}

-- `next` unless it is zero
abbrev pub nonzero_or : ℤ → ℤ → ℤ
nonzero_or prev next = if eqb_ℤ next (pos 0) then prev else next

unfoldable pub merge_stream_usage : Option Usage → Usage → Usage
merge_stream_usage none next = next
merge_stream_usage (some prev) next =
    let prompt = nonzero_or prev.prompt_tokens next.prompt_tokens in
    let completion = nonzero_or prev.completion_tokens next.completion_tokens in
    let total = nonzero_or prev.total_tokens next.total_tokens in
    record {
      prompt_tokens = prompt;
      completion_tokens = completion;
      total_tokens = if eqb_ℤ total (pos 0) then wrap64 (prompt +ℤ completion) else total;
      cache_read_tokens = nonzero_or prev.cache_read_tokens next.cache_read_tokens;
      cache_write_tokens = nonzero_or prev.cache_write_tokens next.cache_write_tokens;
    }

abbrev pub write : WireEvent → Pump → Pump
write e st = record st { out = st.out ++ (e ∷ []) }

abbrev pub write_anthropic : AnthropicEvent → Pump → Pump
write_anthropic e st = write (anthropic e) st

unfoldable pub emit_anthropic_prelude : Bytes → Pump → Pump
emit_anthropic_prelude model st =
    if st.anth_opened
    then st
    else write_anthropic (message_start model) (record st { anth_opened = true })

unfoldable pub open_text_block : Pump → Pump
open_text_block st =
    if st.anth_text_open
    then st
    else write_anthropic (text_block_start (pos 0)) (record st { anth_text_open = true })

unfoldable pub open_anthropic_text : Bytes → Pump → Pump
open_anthropic_text model st = open_text_block (emit_anthropic_prelude model st)

unfoldable pub close_anth_tool_block : Pump → Pump
close_anth_tool_block st =
    if ltb_ℤ (pos 0) st.anth_tool_idx
    then write_anthropic (content_block_stop st.anth_tool_idx) (record st { anth_tool_idx = pos 0 })
    else st

unfoldable pub close_text_block : Pump → Pump
close_text_block st =
    if st.anth_text_open
    then write_anthropic (content_block_stop (pos 0)) (record st { anth_text_open = false })
    else st

-- The block of a tool call: index 0 is the text's.
unfoldable pub tool_block_index : ℤ → ℤ
tool_block_index i = let next = wrap64 (i +ℤ pos 1) in if ltb_ℤ next (pos 1) then pos 1 else next

unfoldable pub start_tool_block : ToolCallDelta → Pump → Pump
unfolding tool_block_index
start_tool_block tc st =
    let index = tool_block_index tc.index in
    write_anthropic (tool_block_start index tc.id tc.name) (record st { anth_tool_idx = index })

unfoldable pub open_tool_block : ToolCallDelta → Pump → Pump
open_tool_block tc st =
    if bytes_eq tc.name []
    then st
    else start_tool_block tc (close_text_block (close_anth_tool_block st))

unfoldable pub write_arguments : ToolCallDelta → Pump → Pump
unfolding bytes_eq
write_arguments tc st =
    if not (bytes_eq tc.args_fragment []) && ltb_ℤ (pos 0) st.anth_tool_idx
    then write_anthropic (input_json_delta st.anth_tool_idx tc.args_fragment) st
    else st

unfoldable pub write_text : Bytes → Bytes → Pump → Pump
unfolding bytes_eq
write_text model delta st =
    if bytes_eq delta []
    then st
    else write_anthropic (text_delta (pos 0) delta) (open_anthropic_text model st)

abbrev pub emit_anthropic_parts : Bytes → Option ToolCallDelta → Bytes → Pump → Pump
emit_anthropic_parts model (some tc) delta st =
    write_arguments tc (open_tool_block tc (emit_anthropic_prelude model st))
emit_anthropic_parts model none delta st = write_text model delta st

unfoldable pub emit_anthropic : Bytes → StreamChunk → Pump → Pump
emit_anthropic model chunk st = emit_anthropic_parts model chunk.tool_call_delta chunk.delta st

unfoldable pub emit_bedrock_prelude : Pump → Pump
emit_bedrock_prelude st =
    if st.bedrock_opened
    then st
    else write (bedrock bedrock_block_start)
        (write (bedrock bedrock_message_start) (record st { bedrock_opened = true }))

abbrev pub write_openai : Option OpenAiChunk → Pump → Pump
write_openai none st = st
write_openai (some c) st = write (openai_chunk c) st

abbrev pub write_bedrock : Option BedrockEvent → Pump → Pump
write_bedrock none st = st
write_bedrock (some e) st = write (bedrock e) (emit_bedrock_prelude st)

-- emitChunk, and emitAnthropic
unfoldable pub emit : OutputFormat → Bytes → StreamChunk → Pump → Pump
emit out_anthropic model chunk st = emit_anthropic model chunk st
emit out_bedrock model chunk st = write_bedrock (build_bedrock_stream_event chunk) st
emit out_openai model chunk st = write_openai (build_openai_stream_chunk model chunk) st

-- The totals so far, which a chunk with a usage is sent with.
abbrev pub merged : Option Usage → Option Usage → Option Usage
merged prev none = prev
merged prev (some u) = some (merge_stream_usage prev u)

abbrev pub merged_usage : Option Usage → Option Usage → Option Usage
merged_usage prev none = none
merged_usage prev (some u) = some (merge_stream_usage prev u)

unfoldable pub observe : StreamChunk → Pump → Pump
unfolding merge_stream_usage is_known bytes_eq
observe chunk st = record st {
  final_usage = merged st.final_usage chunk.usage;
  completion = st.completion ++ chunk.delta;
  first_token = st.first_token || not (bytes_eq chunk.delta []) || is_some chunk.tool_call_delta;
  final_stop = if is_known chunk.stop_reason then chunk.stop_reason else st.final_stop;
}

-- What is drained: the events in their order, then a closed channel with the reader's error, or the
-- client's departure.
pub data FeedEnd : Type 0 where
  closed : Option StreamError → FeedEnd
  client_gone : FeedEnd

unfoldable pub read_terminal_err : Option StreamError → Pump → Pump
read_terminal_err none st = st
read_terminal_err (some (malformed_lengths t h)) st = record st {
  fatal_err = some (read_broken (malformed_lengths t h));
}
read_terminal_err (some bounds_exceed_frame) st = record st {
  fatal_err = some (read_broken bounds_exceed_frame);
}
read_terminal_err (some (read_error at_eof)) st = st
read_terminal_err (some (read_error unexpected_eof)) st = record st {
  fatal_err = some (read_broken (read_error unexpected_eof));
}
read_terminal_err (some (read_error (read_failed e))) st = record st {
  fatal_err = some (read_broken (read_error (read_failed e)));
}

abbrev pub finish_feed : FeedEnd → Pump → Pump
finish_feed (closed e) st = read_terminal_err e st
finish_feed client_gone st = st

abbrev pub usage_or_zero : Option Usage → Usage
usage_or_zero (some u) = u
usage_or_zero none = record {
  prompt_tokens = pos 0;
  completion_tokens = pos 0;
  total_tokens = pos 0;
  cache_read_tokens = pos 0;
  cache_write_tokens = pos 0;
}

module _ (parse_stream_chunk : Bytes → Bytes → ParsedChunk) (format : OutputFormat)
    (model : Bytes) where
  unfoldable pub forward : StreamChunk → Bool → Pump → Pump
  forward chunk meaningful st =
      let sent : StreamChunk = record chunk { usage = merged_usage st.final_usage chunk.usage } in
      let seen : Pump = observe chunk st in
      if not meaningful && not chunk.done then seen else emit format model sent seen

  abbrev pub take_chunk : Option UpstreamError → StreamChunk → Bool → Pump → Pump
  take_chunk (some e) chunk meaningful st = record st { fatal_err = some (upstream_failed e) }
  take_chunk none chunk meaningful st = forward chunk meaningful st

  abbrev pub take_parsed : ParsedChunk → Pump → Pump
  take_parsed none st = st
  take_parsed (some (chunk, meaningful)) st = take_chunk chunk.upstream_err chunk meaningful st

  unfoldable pub process : StreamEvent → Pump → Pump
  process ev st = take_parsed (parse_stream_chunk ev.event_type ev.payload) st

  -- The steps of c.Stream
  unfoldable pub drain : List StreamEvent → FeedEnd → Pump → Pump
  unfolding process
  drain [] end st = if is_some st.fatal_err then st else finish_feed end st
  drain (ev ∷ events) end st = if is_some st.fatal_err then st else drain events end (process ev st)

  -- The terminal framing
  unfoldable pub close_anthropic : Pump → Pump
  close_anthropic st =
      let shut = close_text_block (close_anth_tool_block (emit_anthropic_prelude model st)) in
      write_anthropic message_stop (
        write_anthropic
          (message_delta (stop_to_anthropic st.final_stop) (anthropic_usage_of st.final_usage))
          shut)

  unfoldable pub close_bedrock : Pump → Pump
  unfolding stop_to_bedrock bedrock_usage
  close_bedrock st =
      write (bedrock (bedrock_metadata (bedrock_usage (usage_or_zero st.final_usage)))) (
        write (bedrock (bedrock_message_stop (stop_to_bedrock st.final_stop)))
          (write (bedrock bedrock_block_stop) (emit_bedrock_prelude st)))

  abbrev pub close_stream : OutputFormat → Pump → Pump
  close_stream out_anthropic st = close_anthropic st
  close_stream out_bedrock st = close_bedrock st
  close_stream out_openai st = write openai_done st

  unfoldable pub pump_stream : List StreamEvent → FeedEnd → Pump
  unfolding drain close_anthropic close_bedrock
  pump_stream events end = close_stream format (drain events end new_pump)
