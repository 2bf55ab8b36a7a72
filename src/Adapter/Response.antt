-- ===== src/Adapter/Response.antt =====
-- The content of whole responses (server/internal/adapter): the builders of
-- server/internal/adapter/transform.go for Anthropic's and Bedrock's dialects, and what `ParseResponse`
-- of these adapters makes of decoded content. It is text and tool calls, all that the parsers make;
-- JSON objects are records, and fixed keys, the model and the usage are left out. How JSON carries the
-- bodies is a parameter, in Sent.
pub mod Sent
pub mod Chained
use hhrouter.Base.{
  ℕ, Bool, true, false, ◌&&◌, ◌||◌, not, Option, none, some, List, [], ◌∷◌, ◌++◌, if◌then◌else◌,
  map, length, leb, ltb, take, ◌⊎◌, inl, inr,
}
use hhrouter.Base.Int.{ℤ, pos, ltb_ℤ, leb_ℤ}
use hhrouter.Base.Text.{Bytes, bytes_eq, codes, trim_space}
use hhrouter.Billing.{Usage}
use hhrouter.Adapter.{UpstreamError, StopReason, stop_unknown}
use hhrouter.Adapter.Stops.{
  openai_finish_to_stop, stop_to_openai_finish, anthropic_stop_to_unified, stop_to_anthropic,
  bedrock_stop_to_unified, stop_to_bedrock,
}
use hhrouter.Adapter.Tokens.{
  OpenAiCounts, BedrockCounts, AnthropicCounts, usage_from_openai, usage_from_bedrock,
  usage_from_anthropic, estimate_usage_from_text,
}

pub record ToolUse : Type 0 where
  pub id : Bytes
  pub name : Bytes
  pub input : Bytes

pub data ContentBlock : Type 0 where
  text_block : Bytes → ContentBlock
  tool_use_block : ToolUse → ContentBlock

pub record UnifiedResponse : Type 0 where
  pub content : List ContentBlock
  pub stop_reason : StopReason

abbrev pub block_text : ContentBlock → Bytes
block_text (text_block s) = s
block_text (tool_use_block t) = []

abbrev pub join_text : Bytes → Bytes → Bytes
join_text b s =
    if not (bytes_eq b []) && not (bytes_eq s []) then (b ++ (b'\n' ∷ [])) ++ s else b ++ s

unfoldable pub text_loop : Bytes → List ContentBlock → Bytes
text_loop b [] = b
text_loop b (c ∷ cs) = text_loop (join_text b (block_text c)) cs

-- UnifiedResponse.Text
unfoldable pub response_text : List ContentBlock → Bytes
unfolding text_loop
response_text cs = text_loop [] cs

unfoldable pub tool_uses : List ContentBlock → List ToolUse
tool_uses [] = []
tool_uses (text_block s ∷ cs) = tool_uses cs
tool_uses (tool_use_block t ∷ cs) = t ∷ tool_uses cs

-- An input of no JSON is an empty object.
unfoldable pub fill_input : ToolUse → ToolUse
unfolding bytes_eq trim_space
fill_input t = record t { input = if bytes_eq (trim_space t.input) [] then codes "{}" else t.input }

-- The body that a client of Anthropic's dialect gets, and that an Anthropic upstream sends.
pub record AnthropicBlock : Type 0 where
  pub kind : Bytes
  pub text : Bytes
  pub tool : ToolUse

pub record AnthropicBody : Type 0 where
  pub content : List AnthropicBlock
  pub stop_reason : Bytes

abbrev pub no_tool : ToolUse
no_tool = record { id = []; name = []; input = [] }

unfoldable pub build_anthropic_content_block : ContentBlock → AnthropicBlock
unfolding fill_input
build_anthropic_content_block (text_block s) = record {
  kind = codes "text";
  text = s;
  tool = no_tool;
}
build_anthropic_content_block (tool_use_block t) = record {
  kind = codes "tool_use";
  text = [];
  tool = fill_input t;
}

abbrev pub or_empty_text : List AnthropicBlock → List AnthropicBlock
or_empty_text [] = record { kind = codes "text"; text = []; tool = no_tool } ∷ []
or_empty_text (b ∷ bs) = b ∷ bs

unfoldable pub build_anthropic_response : UnifiedResponse → AnthropicBody
unfolding build_anthropic_content_block stop_to_anthropic
build_anthropic_response r = record {
  content = or_empty_text (map build_anthropic_content_block r.content);
  stop_reason = stop_to_anthropic r.stop_reason;
}

unfoldable pub anthropic_content : List AnthropicBlock → List ContentBlock
unfolding bytes_eq
anthropic_content [] = []
anthropic_content (b ∷ bs) =
    let rest = anthropic_content bs in
    if bytes_eq b.kind (codes "text")
    then (if bytes_eq b.text [] then rest else text_block b.text ∷ rest)
    else if bytes_eq b.kind (codes "tool_use")
    then tool_use_block b.tool ∷ rest
    else rest

-- The same of Bedrock's Converse. A block is a text or a tool call.
pub record BedrockBlock : Type 0 where
  pub text : Bytes
  pub tool_use : Option ToolUse

pub record BedrockBody : Type 0 where
  pub content : List BedrockBlock
  pub stop_reason : Bytes

abbrev pub bedrock_tool_block : ToolUse → BedrockBlock
bedrock_tool_block t = record { text = []; tool_use = some (fill_input t) }

abbrev pub bedrock_text_block : Bytes → BedrockBlock
bedrock_text_block s = record { text = s; tool_use = none }

abbrev pub or_empty_block : List BedrockBlock → List BedrockBlock
or_empty_block [] = bedrock_text_block [] ∷ []
or_empty_block (b ∷ bs) = b ∷ bs

unfoldable pub build_bedrock_response : UnifiedResponse → BedrockBody
unfolding response_text bytes_eq tool_uses stop_to_bedrock
build_bedrock_response r =
    let text = response_text r.content in
    let tools = map bedrock_tool_block (tool_uses r.content) in
    record {
      content =
          or_empty_block (if bytes_eq text [] then tools else bedrock_text_block text ∷ tools);
      stop_reason = stop_to_bedrock r.stop_reason;
    }

abbrev pub take_block : Option ToolUse → Bytes → List ContentBlock → List ContentBlock
take_block (some t) s rest = tool_use_block t ∷ rest
take_block none s rest = if bytes_eq s [] then rest else text_block s ∷ rest

unfoldable pub bedrock_content : List BedrockBlock → List ContentBlock
bedrock_content [] = []
bedrock_content (b ∷ bs) = take_block b.tool_use b.text (bedrock_content bs)
