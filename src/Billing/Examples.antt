-- ===== src/Billing/Examples.antt =====
-- A price and a usage for `Cost` of server/internal/service/pricing_service.go.
use hhrouter.Base.{ℕ, ◌+◌, ◌*◌, ◌≤◌, ◌<◌, ◌≡◌, some, arith}
use hhrouter.Base.Int.{pos}
use hhrouter.Billing.{cost}
use hhrouter.Billing.Rounding.{cost_rounds_up}

cost_rounds_up_example :
    (k : ℕ) × (cost
        (some (record {
          input = pos 3000000;
          output = pos 15000000;
          cache_read = pos 0;
          cache_write = pos 0;
        }))
        (record {
          prompt_tokens = pos 1;
          completion_tokens = pos 2;
          total_tokens = pos 3;
          cache_read_tokens = pos 4;
          cache_write_tokens = pos 5;
        })
      ≡ pos k)
    × (1 * 3000000 + 2 * 15000000 + 4 * 0 + 5 * 0 ≤ k * 1000000)
    × (k * 1000000 < 1 * 3000000 + 2 * 15000000 + 4 * 0 + 5 * 0 + 1000000)
cost_rounds_up_example = cost_rounds_up 3000000 15000000 0 0 1 2 4 5 (pos 3) (omega arith)
