-- ===== src/Billing.antt =====
-- Prices and costs: `Lookup` and `Cost` of server/internal/service/pricing_service.go, the token
-- usage of server/internal/adapter/usage.go, and `usageTokens` of server/internal/relay/usage.go.
pub mod Rounding
mod Examples
use hhrouter.Base.{ℕ, Bool, true, false, ◌&&◌, ◌||◌, Option, none, some, ◌+◌, ◌^◌, if◌then◌else◌}
use hhrouter.Base.Int.{ℤ, pos, negsuc, ltb_ℤ, leb_ℤ, eqb_ℤ, wrap64, ◌+ℤ◌, ◌*ℤ◌, ◌/ℤ◌}
use hhrouter.Base.Text.{Bytes}

-- A row of the price table: its prices.
pub record ModelPrice : Type 0 where
  pub input : ℤ
  pub output : ℤ
  pub cache_read : ℤ
  pub cache_write : ℤ

-- The answer of the database for a channel and a model.
pub data PriceRow : Type 0 where
  price_found : ModelPrice → PriceRow
  price_missing : PriceRow
  price_failed : Bytes → PriceRow

pub data PriceLookup : Type 0 where
  price : Option ModelPrice → PriceLookup
  lookup_failed : Bytes → PriceLookup

unfoldable pub lookup_price : PriceRow → PriceLookup
lookup_price (price_found p) =
    if leb_ℤ p.input (pos 0) || leb_ℤ p.output (pos 0) then price none else price (some p)
lookup_price price_missing = price none
lookup_price (price_failed e) = lookup_failed e

pub record Usage : Type 0 where
  pub prompt_tokens : ℤ
  pub completion_tokens : ℤ
  pub total_tokens : ℤ
  pub cache_read_tokens : ℤ
  pub cache_write_tokens : ℤ

-- The sum of Cost before it is rounded; every product and sum wraps to int64.
unfoldable pub numerator : ModelPrice → Usage → ℤ
numerator p u = wrap64 (
    wrap64 (
      wrap64 (wrap64 (u.prompt_tokens *ℤ p.input) +ℤ wrap64 (u.completion_tokens *ℤ p.output))
      +ℤ wrap64 (u.cache_read_tokens *ℤ p.cache_read))
    +ℤ wrap64 (u.cache_write_tokens *ℤ p.cache_write))

unfoldable pub round_up : ℤ → ℤ
round_up n =
    if leb_ℤ n (pos 0) then pos 0 else wrap64 (wrap64 (n +ℤ pos 1000000) +ℤ negsuc 0) /ℤ 1000000

unfoldable pub cost : Option ModelPrice → Usage → ℤ
unfolding numerator round_up
cost none u = pos 0
cost (some p) u = round_up (numerator p u)

pub record TokenCounts : Type 0 where
  pub prompt : ℤ
  pub completion : ℤ
  pub total : ℤ

-- usageTokens
unfoldable pub usage_tokens : Usage → ℤ → TokenCounts
usage_tokens u est_prompt =
    let prompt =
      if eqb_ℤ u.prompt_tokens (pos 0) && ltb_ℤ (pos 0) est_prompt
      then est_prompt
      else u.prompt_tokens in
    record {
      prompt = prompt;
      completion = u.completion_tokens;
      total =
          if eqb_ℤ u.total_tokens (pos 0)
          then wrap64 (prompt +ℤ u.completion_tokens)
          else u.total_tokens;
    }
