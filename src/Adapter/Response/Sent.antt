-- ===== src/Adapter/Response/Sent.antt =====
-- A body of a response on its way to a second gateway: what encoding/json, a parameter, makes of what
-- the builders of server/internal/adapter/transform.go made.
use hhrouter.Base.{
  Bool-cases, inl, inr, Option, none, some, List, [], ◌∷◌, if◌then◌else◌, map, ◌≡◌, refl,
}
use hhrouter.Base.Text.{Bytes, bytes_eq, codes}
use hhrouter.Base.Predicates.{All}
use hhrouter.Adapter.Response.{
  ToolUse, ContentBlock, text_block, tool_use_block, tool_uses, fill_input, no_tool, AnthropicBlock,
  build_anthropic_content_block, or_empty_text, BedrockBlock, bedrock_tool_block,
  bedrock_text_block, or_empty_block,
}

-- What encoding/json makes of a body, there and back: a string is kept if it is valid UTF-8, and a raw
-- message comes back compact and escaped, or fails to be written (`none`) if it is not JSON.
pub record Json : Type 0 where
  pub string_sent : Bytes → Bytes
  pub raw_sent : Bytes → Option Bytes

abbrev pub or_nothing : Option Bytes → Bytes
or_nothing none = []
or_nothing (some s) = s

-- A tool call as it arrives
abbrev pub arrived : Json → ToolUse → ToolUse
arrived js t = record t { input = or_nothing (js.raw_sent (fill_input t).input) }

abbrev pub sent_input : Json → ToolUse → Option Bytes → Option ToolUse
sent_input js t none = none
sent_input js t (some i) =
    some (record { id = js.string_sent t.id; name = js.string_sent t.name; input = i })

abbrev pub sent_tool : Json → ToolUse → Option ToolUse
sent_tool js t = sent_input js t (js.raw_sent t.input)

abbrev pub put_tool :
    {A : Type 0} → Option ToolUse → (ToolUse → A) → Option (List A) → Option (List A)
put_tool none make o = none
put_tool (some t) make none = none
put_tool (some t) make (some bs) = some (make t ∷ bs)

abbrev pub put_text : {A : Type 0} → A → Option (List A) → Option (List A)
put_text b none = none
put_text b (some bs) = some (b ∷ bs)

-- A body on its way: of a tool call the call is written, of a text the text; the kinds are fixed words.
unfoldable pub sent_anthropic : Json → List AnthropicBlock → Option (List AnthropicBlock)
unfolding bytes_eq
sent_anthropic js [] = some []
sent_anthropic js (b ∷ bs) =
    let rest = sent_anthropic js bs in
    if bytes_eq b.kind (codes "tool_use")
    then put_tool (sent_tool js b.tool) (λ t. record b { tool = t }) rest
    else put_text (record b { text = js.string_sent b.text }) rest

abbrev pub sent_member :
    Json → Option ToolUse → BedrockBlock → Option (List BedrockBlock) → Option (List BedrockBlock)
sent_member js (some t) b rest =
    put_tool (sent_tool js t) (λ u. record b { tool_use = some u }) rest
sent_member js none b rest = put_text (record b { text = js.string_sent b.text }) rest

unfoldable pub sent_bedrock : Json → List BedrockBlock → Option (List BedrockBlock)
sent_bedrock js [] = some []
sent_bedrock js (b ∷ bs) = sent_member js b.tool_use b (sent_bedrock js bs)

-- Strings that JSON keeps, and an input that is JSON.
abbrev pub SendableTool : Json → ToolUse → Type 0
SendableTool js t =
    (js.string_sent t.id ≡ t.id)
    × (js.string_sent t.name ≡ t.name)
    × (i : Bytes) × (js.raw_sent (fill_input t).input ≡ some i)

abbrev pub Sendable : Json → ContentBlock → Type 0
Sendable js (text_block s) = js.string_sent s ≡ s
Sendable js (tool_use_block t) = SendableTool js t

sent_tool-arrived :
    (js : Json) (t : ToolUse)
    → SendableTool js t
    → sent_tool js (fill_input t) ≡ some (arrived js t)
unfolding fill_input
sent_tool-arrived js t (id, name, i, raw) = rw (raw, id, name) refl

-- The blocks of a response whose tool calls are `g` of what they were
abbrev pub anthropic_with : (ToolUse → ToolUse) → ContentBlock → AnthropicBlock
anthropic_with g (text_block s) = record { kind = codes "text"; text = s; tool = no_tool }
anthropic_with g (tool_use_block t) = record { kind = codes "tool_use"; text = []; tool = g t }

abbrev pub bedrock_with : (ToolUse → ToolUse) → ToolUse → BedrockBlock
bedrock_with g t = record { text = []; tool_use = some (g t) }

abbrev pub bedrock_blocks : (ToolUse → ToolUse) → Bytes → List ToolUse → List BedrockBlock
bedrock_blocks g s ts = or_empty_block (
    if bytes_eq s []
    then map (bedrock_with g) ts
    else bedrock_text_block s ∷ map (bedrock_with g) ts)

module _ (js : Json) where
  sent_anthropic-blocks :
      (cs : List ContentBlock)
      → All (Sendable js) cs
      → sent_anthropic js (map build_anthropic_content_block cs)
        ≡ some (map (anthropic_with (arrived js)) cs)
  unfolding sent_anthropic build_anthropic_content_block bytes_eq
  sent_anthropic-blocks [] h = refl
  sent_anthropic-blocks (text_block s ∷ cs) (kept, h) = rw (kept, sent_anthropic-blocks cs h) refl
  sent_anthropic-blocks (tool_use_block t ∷ cs) (ok, h) =
      rw (sent_tool-arrived js t ok, sent_anthropic-blocks cs h) refl

  pub sent_anthropic_body :
      (cs : List ContentBlock)
      → js.string_sent [] ≡ []
      → All (Sendable js) cs
      → sent_anthropic js (or_empty_text (map build_anthropic_content_block cs))
        ≡ some (or_empty_text (map (anthropic_with (arrived js)) cs))
  unfolding sent_anthropic bytes_eq
  sent_anthropic_body [] empty h = rw empty refl
  sent_anthropic_body (c ∷ cs) empty h = sent_anthropic-blocks (c ∷ cs) h

  sent_bedrock-tools :
      (ts : List ToolUse)
      → All (SendableTool js) ts
      → sent_bedrock js (map bedrock_tool_block ts) ≡ some (map (bedrock_with (arrived js)) ts)
  unfolding sent_bedrock
  sent_bedrock-tools [] h = refl
  sent_bedrock-tools (t ∷ ts) (ok, h) = rw (sent_tool-arrived js t ok, sent_bedrock-tools ts h) refl

  sent_or_empty :
      (ts : List ToolUse)
      → js.string_sent [] ≡ []
      → All (SendableTool js) ts
      → sent_bedrock js (or_empty_block (map bedrock_tool_block ts))
        ≡ some (or_empty_block (map (bedrock_with (arrived js)) ts))
  unfolding sent_bedrock
  sent_or_empty [] empty h = rw empty refl
  sent_or_empty (t ∷ ts) empty h = sent_bedrock-tools (t ∷ ts) h

  pub sent_bedrock_body :
      (s : Bytes) (ts : List ToolUse)
      → js.string_sent [] ≡ []
      → js.string_sent s ≡ s
      → All (SendableTool js) ts
      → sent_bedrock js (bedrock_blocks fill_input s ts) ≡ some (bedrock_blocks (arrived js) s ts)
  unfolding sent_bedrock
  sent_bedrock_body s ts empty kept h = elim (Bool-cases (bytes_eq s [])) [
    | inl e ↦ rw e (sent_or_empty ts empty h)
    | inr e ↦ rw (e, kept, sent_bedrock-tools ts h) refl
  ]

  pub tool_uses-SendableTool :
      (cs : List ContentBlock) → All (Sendable js) cs → All (SendableTool js) (tool_uses cs)
  unfolding tool_uses
  tool_uses-SendableTool [] h = tt
  tool_uses-SendableTool (text_block s ∷ cs) (ok, h) = tool_uses-SendableTool cs h
  tool_uses-SendableTool (tool_use_block t ∷ cs) (ok, h) = (ok, tool_uses-SendableTool cs h)
