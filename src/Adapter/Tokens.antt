-- ===== src/Adapter/Tokens.antt =====
-- Token usage: server/internal/adapter/usage.go, and `usageFromAnthropic` of
-- server/internal/adapter/anthropic_adapter.go. Where the upstream gave no usage, HasUpstream is false
-- and the numbers are not read: that is `none`.
use hhrouter.Base.{ℕ, ◌+◌, ◌/◌, Option, none, some, [], ◌∷◌, if◌then◌else◌, length}
use hhrouter.Base.Int.{ℤ, pos, eqb_ℤ, wrap64, ◌+ℤ◌}
use hhrouter.Base.Text.{Bytes}
use hhrouter.Billing.{Usage}

unfoldable pub normalize : Usage → Usage
normalize u = record u {
  total_tokens =
      if eqb_ℤ u.total_tokens (pos 0)
      then wrap64 (u.prompt_tokens +ℤ u.completion_tokens)
      else u.total_tokens;
}

-- openAIUsage; `cached_tokens` is `none` without prompt_tokens_details
pub record OpenAiCounts : Type 0 where
  pub prompt_tokens : ℤ
  pub completion_tokens : ℤ
  pub total_tokens : ℤ
  pub cached_tokens : Option ℤ

abbrev pub or_zero : Option ℤ → ℤ
or_zero none = pos 0
or_zero (some n) = n

unfoldable pub usage_from_openai : Option OpenAiCounts → Option Usage
unfolding normalize
usage_from_openai none = none
usage_from_openai (some u) = some (
    normalize (record {
      prompt_tokens = u.prompt_tokens;
      completion_tokens = u.completion_tokens;
      total_tokens = u.total_tokens;
      cache_read_tokens = or_zero u.cached_tokens;
      cache_write_tokens = pos 0;
    }))

-- bedrockUsage
pub record BedrockCounts : Type 0 where
  pub input_tokens : ℤ
  pub output_tokens : ℤ
  pub total_tokens : ℤ
  pub cache_read_input_tokens : ℤ
  pub cache_write_input_tokens : ℤ

unfoldable pub usage_from_bedrock : Option BedrockCounts → Option Usage
unfolding normalize
usage_from_bedrock none = none
usage_from_bedrock (some u) = some (
    normalize (record {
      prompt_tokens = u.input_tokens;
      completion_tokens = u.output_tokens;
      total_tokens = u.total_tokens;
      cache_read_tokens = u.cache_read_input_tokens;
      cache_write_tokens = u.cache_write_input_tokens;
    }))

-- anthropicUsage
pub record AnthropicCounts : Type 0 where
  pub input_tokens : ℤ
  pub output_tokens : ℤ
  pub cache_read_input_tokens : ℤ
  pub cache_creation_input_tokens : ℤ

unfoldable pub usage_from_anthropic : Option AnthropicCounts → Option Usage
unfolding normalize
usage_from_anthropic none = none
usage_from_anthropic (some u) = some (
    normalize (record {
      prompt_tokens = u.input_tokens;
      completion_tokens = u.output_tokens;
      total_tokens = pos 0;
      cache_read_tokens = u.cache_read_input_tokens;
      cache_write_tokens = u.cache_creation_input_tokens;
    }))

-- estimateTokens, and estimateTextTokens of the relay
unfoldable pub estimate_tokens : Bytes → ℕ
estimate_tokens [] = 0
estimate_tokens (c ∷ text) = (length (c ∷ text) + 3) / 4

unfoldable pub estimate_usage_from_text : Bytes → Bytes → Usage
unfolding estimate_tokens
estimate_usage_from_text prompt_text completion_text =
    let p = estimate_tokens prompt_text in
    let c = estimate_tokens completion_text in
    record {
      prompt_tokens = pos p;
      completion_tokens = pos c;
      total_tokens = pos (p + c);
      cache_read_tokens = pos 0;
      cache_write_tokens = pos 0;
    }
