-- ===== src/Adapter/Examples.antt =====
-- Small inputs for the theorems on server/internal/adapter.
use hhrouter.Base.{some, refl, ◌==◌, if◌then◌else◌, true, ◌≡◌, [], ◌∷◌}
use hhrouter.Base.Text.{Bytes, codes}
use hhrouter.Adapter.{stop_tool_use}
use hhrouter.Adapter.Stops.{
  openai_finish_to_stop, stop_to_openai_finish, anthropic_stop_to_unified, stop_to_anthropic,
  bedrock_stop_to_unified, stop_to_bedrock, stop_reasons_roundtrip,
}
use hhrouter.Adapter.Response.{ToolUse, UnifiedResponse, text_block, tool_use_block, fill_input}
use hhrouter.Adapter.Response.Chained.{Carried, response_roundtrip}
use hhrouter.Adapter.Response.Sent.{Json}
use hhrouter.Adapter.Profile.{apply_inference_profile, apply_inference_profile_idem}

stop_reasons_roundtrip_example :
    (openai_finish_to_stop (stop_to_openai_finish stop_tool_use) ≡ stop_tool_use)
    × (anthropic_stop_to_unified (stop_to_anthropic stop_tool_use) ≡ stop_tool_use)
    × (bedrock_stop_to_unified (stop_to_bedrock stop_tool_use) ≡ stop_tool_use)
stop_reasons_roundtrip_example = stop_reasons_roundtrip stop_tool_use

apply_inference_profile_idem_example :
    apply_inference_profile
      (apply_inference_profile (codes "anthropic.claude") (codes "eu-west-1") true)
      (codes "eu-west-1")
      true
    ≡ apply_inference_profile (codes "anthropic.claude") (codes "eu-west-1") true
apply_inference_profile_idem_example =
    apply_inference_profile_idem (codes "anthropic.claude") (codes "eu-west-1") true

abbrev find_call : ToolUse
find_call = record { id = codes "1"; name = codes "find"; input = codes "{ 7 }" }

abbrev called : UnifiedResponse
called = record {
  content = text_block (codes "I will look") ∷ text_block [] ∷ tool_use_block find_call ∷ [];
  stop_reason = stop_tool_use;
}

abbrev squeeze : Bytes → Bytes
squeeze [] = []
squeeze (c ∷ s) = let rest = squeeze s in if c == 32 then rest else c ∷ rest

-- Strings are kept, and a raw message comes back without its blanks.
abbrev json : Json
json = record { string_sent = λ s. s; raw_sent = λ s. some (squeeze s) }

response_roundtrip_example : Carried json called
response_roundtrip_example =
    response_roundtrip json called refl refl
      (refl, (refl, ((refl, refl, squeeze (fill_input find_call).input, refl), tt)))
