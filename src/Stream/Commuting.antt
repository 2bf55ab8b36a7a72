-- ===== src/Stream/Commuting.antt =====
-- Steps of the pump of server/internal/relay/stream.go that leave its failure alone.
use hhrouter.Base.{
  Bool, true, false, ◌&&◌, not, Option, none, some, [], ◌≡◌, refl, ap, ◌∙◌, if◌then◌else◌,
  Bool-cases, inl, inr,
}
use hhrouter.Base.Int.{pos, ltb_ℤ}
use hhrouter.Base.Text.{Bytes, bytes_eq}
use hhrouter.Adapter.{ToolCallDelta, StreamChunk}
use hhrouter.Stream.Events.{
  OutputFormat, out_openai, out_anthropic, out_bedrock, OpenAiChunk, BedrockEvent,
  build_openai_stream_chunk, build_bedrock_stream_event,
}
use hhrouter.Stream.Pump.{
  StreamFailure, Pump, emit_anthropic_prelude, open_text_block, open_anthropic_text,
  close_anth_tool_block, close_text_block, start_tool_block, open_tool_block, write_arguments,
  write_text, emit_anthropic_parts, emit_anthropic, emit_bedrock_prelude, write_openai,
  write_bedrock, emit,
}

abbrev pub failing : Option StreamFailure → Pump → Pump
failing f st = record st { fatal_err = f }

-- A step that neither reads nor sets the failure.
abbrev pub Commutes : (Pump → Pump) → Type 0
Commutes step = (f : Option StreamFailure) (st : Pump) → step (failing f st) ≡ failing f (step st)

pub keeps_failure :
    (step : Pump → Pump) → Commutes step → (st : Pump) → (step st).fatal_err ≡ st.fatal_err
keeps_failure step c st = ap (λ (p : Pump). p.fatal_err) (c st.fatal_err st)

failing-if :
    (f : Option StreamFailure) (b : Bool) (x y : Pump)
    → (if b then failing f x else failing f y) ≡ failing f (if b then x else y)
failing-if f true x y = refl
failing-if f false x y = refl

pub if_false : (b : Bool) (x y : Pump) → b ≡ false → (if b then x else y) ≡ y
if_false b x y h = rw h refl

Commutes-then :
    (first second : Pump → Pump)
    → Commutes first
    → Commutes second
    → Commutes (λ st. second (first st))
Commutes-then first second c d f st = ap second (c f st) ∙ d f (first st)

pub emit_anthropic_prelude-Commutes : (model : Bytes) → Commutes (emit_anthropic_prelude model)
unfolding emit_anthropic_prelude
emit_anthropic_prelude-Commutes model f st = failing-if f st.anth_opened _ _

open_text_block-Commutes : Commutes open_text_block
unfolding open_text_block
open_text_block-Commutes f st = failing-if f st.anth_text_open _ _

pub close_text_block-Commutes : Commutes close_text_block
unfolding close_text_block
close_text_block-Commutes f st = failing-if f st.anth_text_open _ _

pub close_anth_tool_block-Commutes : Commutes close_anth_tool_block
unfolding close_anth_tool_block
close_anth_tool_block-Commutes f st = failing-if f (ltb_ℤ (pos 0) st.anth_tool_idx) _ _

pub emit_bedrock_prelude-Commutes : Commutes emit_bedrock_prelude
unfolding emit_bedrock_prelude
emit_bedrock_prelude-Commutes f st = failing-if f st.bedrock_opened _ _

close_blocks-Commutes : Commutes (λ st. close_text_block (close_anth_tool_block st))
close_blocks-Commutes =
    Commutes-then close_anth_tool_block close_text_block close_anth_tool_block-Commutes
      close_text_block-Commutes

open_tool_block-Commutes : (tc : ToolCallDelta) → Commutes (open_tool_block tc)
unfolding open_tool_block start_tool_block
open_tool_block-Commutes tc f st = elim (Bool-cases (bytes_eq tc.name [])) [
  | inl e ↦ rw e refl
  | inr e ↦ rw e (ap (start_tool_block tc) (close_blocks-Commutes f st))
]

write_arguments-Commutes : (tc : ToolCallDelta) → Commutes (write_arguments tc)
unfolding write_arguments
write_arguments-Commutes tc f st =
    failing-if f (not (bytes_eq tc.args_fragment []) && ltb_ℤ (pos 0) st.anth_tool_idx) _ _

open_anthropic_text-Commutes : (model : Bytes) → Commutes (open_anthropic_text model)
unfolding open_anthropic_text
open_anthropic_text-Commutes model =
    Commutes-then (emit_anthropic_prelude model) open_text_block
      (emit_anthropic_prelude-Commutes model) open_text_block-Commutes

write_text-Commutes : (model delta : Bytes) → Commutes (write_text model delta)
unfolding write_text
write_text-Commutes model delta f st = elim (Bool-cases (bytes_eq delta [])) [
  | inl e ↦ rw e refl
  | inr e ↦ rw (e, open_anthropic_text-Commutes model f st) refl
]

emit_anthropic_parts-Commutes :
    (model : Bytes) (o : Option ToolCallDelta) (delta : Bytes)
    → Commutes (emit_anthropic_parts model o delta)
emit_anthropic_parts-Commutes model none delta = write_text-Commutes model delta
emit_anthropic_parts-Commutes model (some tc) delta =
    Commutes-then (λ st. open_tool_block tc (emit_anthropic_prelude model st)) (write_arguments tc)
      (Commutes-then (emit_anthropic_prelude model) (open_tool_block tc)
        (emit_anthropic_prelude-Commutes model) (open_tool_block-Commutes tc))
      (write_arguments-Commutes tc)

write_openai-Commutes : (c : Option OpenAiChunk) → Commutes (write_openai c)
write_openai-Commutes none f st = refl
write_openai-Commutes (some c) f st = refl

write_bedrock-Commutes : (e : Option BedrockEvent) → Commutes (write_bedrock e)
write_bedrock-Commutes none f st = refl
write_bedrock-Commutes (some e) f st = rw (emit_bedrock_prelude-Commutes f st) refl

pub emit-Commutes :
    (format : OutputFormat) (model : Bytes) (chunk : StreamChunk)
    → Commutes (emit format model chunk)
unfolding emit emit_anthropic
emit-Commutes out_anthropic model chunk =
    emit_anthropic_parts-Commutes model chunk.tool_call_delta chunk.delta
emit-Commutes out_openai model chunk = write_openai-Commutes (build_openai_stream_chunk model chunk)
emit-Commutes out_bedrock model chunk = write_bedrock-Commutes (build_bedrock_stream_event chunk)
