-- ===== src/Stream/Framing.antt =====
-- What the pump of server/internal/relay/stream.go writes for a client of Anthropic's dialect.
use hhrouter.Base.{
  ℕ, zero, suc, Bool, true, false, ◌&&◌, not, Option, none, some, List, [], ◌∷◌, if◌then◌else◌, ◌≡◌,
  refl, inl, inr, arith, Bool-cases,
}
use hhrouter.Base.Int.{ℤ, pos, negsuc, ltb_ℤ, wrap64, ◌+ℤ◌}
use hhrouter.Base.Text.{Bytes, bytes_eq}
use hhrouter.Wire.Reader.{at_eof, unexpected_eof, read_failed}
use hhrouter.Wire.EventStream.{StreamEvent, malformed_lengths, bounds_exceed_frame, read_error}
use hhrouter.Adapter.{ToolCallDelta, StreamChunk, ParsedChunk, UpstreamError, is_some}
use hhrouter.Adapter.Stops.{stop_to_anthropic}
use hhrouter.Stream.Events.{
  out_anthropic, tool_block_start, input_json_delta, content_block_stop, message_delta,
  message_stop, WireEvent, anthropic_usage_of,
}
use hhrouter.Stream.Pump.{
  StreamFailure, upstream_failed, Pump, new_pump, write_anthropic, close_anth_tool_block,
  close_text_block, tool_block_index, start_tool_block, open_tool_block, write_arguments,
  emit_anthropic, emit_anthropic_parts, emit, FeedEnd, closed, client_gone, read_terminal_err,
  finish_feed, process, drain, close_anthropic, pump_stream, forward, observe, take_chunk,
  take_parsed,
}
use hhrouter.Stream.Protocol.{before, closing, over, during, accept_all}
use hhrouter.Stream.Blocks.{
  sent, emit_anthropic_prelude-Started, accept_tool_stop, accept_arguments, positive_lt,
  write_text-Framed, blocks, at, Sent, Started, started, Framed, unopened, opened,
}

-- Closing the tool block, then the text block, leaves none open.
data Shut : Pump → Type 0 where
  shut : (st : Pump) (out : List WireEvent) → Sent out (during []) → Shut (at true false 0 out st)

close_text_block-Shut :
    (st : Pump) (t : Bool) (out : List WireEvent)
    → Sent out (during (blocks t 0))
    → Shut (close_text_block (at true t 0 out st))
unfolding close_text_block
close_text_block-Shut st true out h =
    shut st _ (sent out (during (blocks true 0)) (during []) (content_block_stop (pos 0)) h refl)
close_text_block-Shut st false out h = shut st out h

close_blocks-Shut : (st : Pump) → Started st → Shut (close_text_block (close_anth_tool_block st))
unfolding close_anth_tool_block
close_blocks-Shut _ (started st t zero out h) = close_text_block-Shut st t out h
close_blocks-Shut _ (started st t (suc n) out h) = rw (positive_lt n) (
    close_text_block-Shut st t _ (
      sent out (during (blocks t (suc n))) (during (blocks t 0)) (content_block_stop (pos (suc n)))
        h (accept_tool_stop t n)))

-- A tool block never has the text's index.
tool_block_index_positive : (i : ℤ) → (n : ℕ) × (tool_block_index i ≡ pos (suc n))
unfolding tool_block_index
tool_block_index_positive i = at_least_one (wrap64 (i +ℤ pos 1))
  where
    at_least_one : (z : ℤ) → (n : ℕ) × ((if ltb_ℤ z (pos 1) then pos 1 else z) ≡ pos (suc n))
    at_least_one (pos zero) = (0, refl)
    at_least_one (pos (suc n)) = (n, ground arith)
    at_least_one (negsuc n) = (0, ground arith)

start_tool_block-Started :
    (tc : ToolCallDelta) (st : Pump) → Shut st → Started (start_tool_block tc st)
unfolding start_tool_block
start_tool_block-Started tc _ (shut st out h) =
    let (n, e) = tool_block_index_positive tc.index in
    simp (e) (
      started st false (suc n) _ (
        sent out (during []) (during (blocks false (suc n)))
          (tool_block_start (pos (suc n)) tc.id tc.name) h refl))

open_tool_block-Started :
    (tc : ToolCallDelta) (st : Pump) → Started st → Started (open_tool_block tc st)
unfolding open_tool_block
open_tool_block-Started tc st h = elim (Bool-cases (bytes_eq tc.name [])) [
  | inl e ↦ rw e h
  | inr e ↦ rw e (start_tool_block-Started tc _ (close_blocks-Shut st h))
]

write_arguments-Started :
    (tc : ToolCallDelta) (st : Pump) → Started st → Started (write_arguments tc st)
unfolding write_arguments
write_arguments-Started tc _ (started st t zero out h) =
    elim (Bool-cases (bytes_eq tc.args_fragment [])) [
      | inl e ↦ rw e (started st t 0 out h)
      | inr e ↦ rw e (started st t 0 out h)
    ]
write_arguments-Started tc _ (started st t (suc n) out h) =
    elim (Bool-cases (bytes_eq tc.args_fragment [])) [
      | inl e ↦ rw e (started st t (suc n) out h)
      | inr e ↦
          rw (e, positive_lt n)
            (started st t (suc n) _ (
              sent out (during (blocks t (suc n))) (during (blocks t (suc n)))
                (input_json_delta (pos (suc n)) tc.args_fragment) h
                (accept_arguments t n tc.args_fragment)))
    ]

emit_anthropic-Framed :
    (model : Bytes) (chunk : StreamChunk) (st : Pump)
    → Framed st
    → Framed (emit_anthropic model chunk st)
unfolding emit_anthropic
emit_anthropic-Framed model chunk st h = parts chunk.tool_call_delta
  where
    parts : (tc : Option ToolCallDelta) → Framed (emit_anthropic_parts model tc chunk.delta st)
    parts none = write_text-Framed model chunk.delta st h
    parts (some tc) = opened (
        write_arguments-Started tc _
          (open_tool_block-Started tc _ (emit_anthropic_prelude-Started model st h)))

observe-Framed : (chunk : StreamChunk) (st : Pump) → Framed st → Framed (observe chunk st)
unfolding observe
observe-Framed chunk _ (unopened st out h) = unopened (observe chunk st) out h
observe-Framed chunk _ (opened (started st t n out h)) =
    opened (started (observe chunk st) t n out h)

module _ (parse : Bytes → Bytes → ParsedChunk) (model : Bytes) where
  forward-Framed :
      (chunk : StreamChunk) (meaningful : Bool) (st : Pump)
      → Framed st
      → Framed (forward parse out_anthropic model chunk meaningful st)
  unfolding forward emit
  forward-Framed chunk meaningful st h = elim (Bool-cases (not meaningful && not chunk.done)) [
    | inl e ↦ rw e (observe-Framed chunk st h)
    | inr e ↦ rw e (emit_anthropic-Framed model _ _ (observe-Framed chunk st h))
  ]

  failed-Framed :
      (e : StreamFailure) (st : Pump) → Framed st → Framed (record st { fatal_err = some e })
  failed-Framed e _ (unopened st out h) = unopened (record st { fatal_err = some e }) out h
  failed-Framed e _ (opened (started st t n out h)) =
      opened (started (record st { fatal_err = some e }) t n out h)

  take_chunk-Framed :
      (e : Option UpstreamError) (chunk : StreamChunk) (meaningful : Bool) (st : Pump)
      → Framed st
      → Framed (take_chunk parse out_anthropic model e chunk meaningful st)
  take_chunk-Framed none chunk meaningful st h = forward-Framed chunk meaningful st h
  take_chunk-Framed (some e) chunk meaningful st h = failed-Framed (upstream_failed e) st h

  take_parsed-Framed :
      (p : ParsedChunk) (st : Pump)
      → Framed st
      → Framed (take_parsed parse out_anthropic model p st)
  take_parsed-Framed none st h = h
  take_parsed-Framed (some (chunk, meaningful)) st h =
      take_chunk-Framed chunk.upstream_err chunk meaningful st h

  finish_feed-Framed : (end : FeedEnd) (st : Pump) → Framed st → Framed (finish_feed end st)
  unfolding read_terminal_err
  finish_feed-Framed client_gone st h = h
  finish_feed-Framed (closed none) st h = h
  finish_feed-Framed (closed (some (malformed_lengths t n))) st h = failed-Framed _ st h
  finish_feed-Framed (closed (some bounds_exceed_frame)) st h = failed-Framed _ st h
  finish_feed-Framed (closed (some (read_error at_eof))) st h = h
  finish_feed-Framed (closed (some (read_error unexpected_eof))) st h = failed-Framed _ st h
  finish_feed-Framed (closed (some (read_error (read_failed e)))) st h = failed-Framed _ st h

  drain-Framed :
      (events : List StreamEvent) (end : FeedEnd) (st : Pump)
      → Framed st
      → Framed (drain parse out_anthropic model events end st)
  unfolding drain process
  drain-Framed [] end st h = elim (Bool-cases (is_some st.fatal_err)) [
    | inl e ↦ rw e h
    | inr e ↦ rw e (finish_feed-Framed end st h)
  ]
  drain-Framed (ev ∷ events) end st h = elim (Bool-cases (is_some st.fatal_err)) [
    | inl e ↦ rw e h
    | inr e ↦
        rw e (drain-Framed events end _ (take_parsed-Framed (parse ev.event_type ev.payload) st h))
  ]

  close_anthropic_over :
      (st : Pump) → Framed st → Sent (close_anthropic parse out_anthropic model st).out over
  unfolding close_anthropic
  close_anthropic_over st h = go _ (close_blocks-Shut _ (emit_anthropic_prelude-Started model st h))
    where
      go :
          (last : Pump)
          → Shut last
          → Sent
              (write_anthropic message_stop (
                write_anthropic
                  (message_delta
                    (stop_to_anthropic st.final_stop)
                    (anthropic_usage_of st.final_usage))
                  last)).out
              over
      go _ (shut last out h) =
          sent _ closing over message_stop
            (sent out (during []) closing
              (message_delta (stop_to_anthropic st.final_stop) (anthropic_usage_of st.final_usage))
              h refl)
            refl

  -- Whatever the upstream sends, in whatever order, however the adapter reads it, and however the
  -- stream ends, with a clean end, an error or the client's departure, what the pump writes for a
  -- client of Anthropic's dialect is one whole message by the protocol: it starts once, a block is
  -- opened at a free index only, text and tool arguments go only into open blocks of their kind, every
  -- block is closed once, and then come one closing delta and the stop.
  pub pump_stream_framing :
      (events : List StreamEvent) (end : FeedEnd)
      → accept_all (some before) (pump_stream parse out_anthropic model events end).out ≡ some over
  unfolding pump_stream accept_all
  pump_stream_framing events end =
      close_anthropic_over _ (drain-Framed events end new_pump (unopened new_pump [] refl))
