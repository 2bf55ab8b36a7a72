-- ===== src/Adapter/Response/Chained.antt =====
-- A response that one gateway builds and another one parses (server/internal/adapter).
use hhrouter.Base.{
  some, List, [], ◌∷◌, map, ◌≡◌, refl, sym, ap, ◌∙◌, append-nil, Bool-cases, inl, inr,
}
use hhrouter.Base.Text.{Bytes, bytes_eq, bytes_eq→eq}
use hhrouter.Adapter.Stops.{
  anthropic_stop_to_unified, bedrock_stop_to_unified, in_anthropic, in_bedrock,
  stop_reasons_roundtrip,
}
use hhrouter.Base.Predicates.{All}
use hhrouter.Adapter.Response.Sent.{
  Json, arrived, sent_anthropic, sent_bedrock, Sendable, anthropic_with, bedrock_with,
  bedrock_blocks, sent_anthropic_body, sent_bedrock_body, tool_uses-SendableTool,
}
use hhrouter.Adapter.Response.{
  ToolUse, ContentBlock, text_block, tool_use_block, UnifiedResponse, join_text, text_loop,
  response_text, tool_uses, AnthropicBlock, build_anthropic_response, or_empty_text,
  anthropic_content, BedrockBlock, or_empty_block, build_bedrock_response, bedrock_content,
}

join_text_empty : (b : Bytes) → join_text b [] ≡ b
unfolding bytes_eq
join_text_empty b = elim (Bool-cases (bytes_eq b [])) [
  | inl e ↦ rw e (append-nil b)
  | inr e ↦ rw e (append-nil b)
]

or_empty_text_adds_none :
    (bs : List AnthropicBlock) → anthropic_content (or_empty_text bs) ≡ anthropic_content bs
unfolding anthropic_content bytes_eq
or_empty_text_adds_none [] = refl
or_empty_text_adds_none (b ∷ bs) = refl

anthropic_text :
    (g : ToolUse → ToolUse) (b : Bytes) (cs : List ContentBlock)
    → text_loop b (anthropic_content (map (anthropic_with g) cs)) ≡ text_loop b cs
unfolding text_loop anthropic_content bytes_eq
anthropic_text g b [] = refl
anthropic_text g b (tool_use_block t ∷ cs) = anthropic_text g (join_text b []) cs
anthropic_text g b (text_block [] ∷ cs) =
    anthropic_text g b cs ∙ ap (λ (t : Bytes). text_loop t cs) (sym (join_text_empty b))
anthropic_text g b (text_block (c ∷ s) ∷ cs) = anthropic_text g (join_text b (c ∷ s)) cs

anthropic_tools :
    (g : ToolUse → ToolUse) (cs : List ContentBlock)
    → tool_uses (anthropic_content (map (anthropic_with g) cs)) ≡ map g (tool_uses cs)
unfolding tool_uses anthropic_content bytes_eq
anthropic_tools g [] = refl
anthropic_tools g (tool_use_block t ∷ cs) =
    ap (λ (ts : List ToolUse). g t ∷ ts) (anthropic_tools g cs)
anthropic_tools g (text_block [] ∷ cs) = anthropic_tools g cs
anthropic_tools g (text_block (c ∷ s) ∷ cs) = anthropic_tools g cs

or_empty_block_adds_none :
    (bs : List BedrockBlock) → bedrock_content (or_empty_block bs) ≡ bedrock_content bs
unfolding bedrock_content bytes_eq
or_empty_block_adds_none [] = refl
or_empty_block_adds_none (b ∷ bs) = refl

-- The blocks of tool calls.
abbrev calls : (ToolUse → ToolUse) → List ToolUse → List ContentBlock
calls g [] = []
calls g (t ∷ ts) = tool_use_block (g t) ∷ calls g ts

bedrock_content-calls :
    (g : ToolUse → ToolUse) (ts : List ToolUse)
    → bedrock_content (map (bedrock_with g) ts) ≡ calls g ts
unfolding bedrock_content
bedrock_content-calls g [] = refl
bedrock_content-calls g (t ∷ ts) =
    ap (λ (cs : List ContentBlock). tool_use_block (g t) ∷ cs) (bedrock_content-calls g ts)

text_loop-calls :
    (g : ToolUse → ToolUse) (b : Bytes) (ts : List ToolUse) → text_loop b (calls g ts) ≡ b
unfolding text_loop
text_loop-calls g b [] = refl
text_loop-calls g b (t ∷ ts) = text_loop-calls g (join_text b []) ts ∙ join_text_empty b

tool_uses-calls : (g : ToolUse → ToolUse) (ts : List ToolUse) → tool_uses (calls g ts) ≡ map g ts
unfolding tool_uses
tool_uses-calls g [] = refl
tool_uses-calls g (t ∷ ts) = ap (λ (us : List ToolUse). g t ∷ us) (tool_uses-calls g ts)

bedrock_body :
    (g : ToolUse → ToolUse) (s : Bytes) (ts : List ToolUse)
    → (response_text (bedrock_content (bedrock_blocks g s ts)) ≡ s)
      × (tool_uses (bedrock_content (bedrock_blocks g s ts)) ≡ map g ts)
unfolding response_text text_loop bedrock_content tool_uses bytes_eq
bedrock_body g s ts = elim (Bool-cases (bytes_eq s [])) [
  | inl e ↦
      rw (e, or_empty_block_adds_none (map (bedrock_with g) ts), bedrock_content-calls g ts)
        (text_loop-calls g [] ts ∙ sym (bytes_eq→eq s [] e), tool_uses-calls g ts)
  | inr e ↦ rw (e, e, bedrock_content-calls g ts) (text_loop-calls g s ts, tool_uses-calls g ts)
]

-- What arrives of both dialects
abbrev pub Carried : Json → UnifiedResponse → Type 0
Carried js r =
    ((bs : List AnthropicBlock) × (sent_anthropic js (build_anthropic_response r).content ≡ some bs)
      × (response_text (anthropic_content bs) ≡ response_text r.content)
      × (tool_uses (anthropic_content bs) ≡ map (arrived js) (tool_uses r.content))
      × (anthropic_stop_to_unified (build_anthropic_response r).stop_reason
          ≡ in_anthropic r.stop_reason))
    × ((bs : List BedrockBlock) × (sent_bedrock js (build_bedrock_response r).content ≡ some bs)
        × (response_text (bedrock_content bs) ≡ response_text r.content)
        × (tool_uses (bedrock_content bs) ≡ map (arrived js) (tool_uses r.content))
        × (bedrock_stop_to_unified (build_bedrock_response r).stop_reason
            ≡ in_bedrock r.stop_reason))

-- A response that the relay builds in Anthropic's or in Bedrock's dialect, that JSON carries, and that a
-- second relay parses keeps its whole text, its tool calls in their order, each with its input as JSON
-- writes it, an empty object where it had none, and its stop reason as far as the dialect has a word
-- for it. Its strings must be such as JSON keeps, the empty one among them, and its inputs JSON.
pub response_roundtrip :
    (js : Json) (r : UnifiedResponse)
    → js.string_sent [] ≡ []
    → js.string_sent (response_text r.content) ≡ response_text r.content
    → All (Sendable js) r.content
    → Carried js r
unfolding build_anthropic_response build_bedrock_response response_text
response_roundtrip js r empty whole sendable =
    let (openai, anthropic, bedrock) = stop_reasons_roundtrip r.stop_reason in
    let s : Bytes = response_text r.content in
    let ts : List ToolUse = tool_uses r.content in
    let blocks : List AnthropicBlock = map (anthropic_with (arrived js)) r.content in
    let (text, tools) = bedrock_body (arrived js) s ts in
    (
      (
        or_empty_text blocks,
        sent_anthropic_body js r.content empty sendable,
        ap response_text (or_empty_text_adds_none blocks)
            ∙ anthropic_text (arrived js) [] r.content,
        ap tool_uses (or_empty_text_adds_none blocks) ∙ anthropic_tools (arrived js) r.content,
        anthropic,
      ),
      (
        bedrock_blocks (arrived js) s ts,
        sent_bedrock_body js s ts empty whole (tool_uses-SendableTool js r.content sendable),
        text,
        tools,
        bedrock,
      ),
    )
