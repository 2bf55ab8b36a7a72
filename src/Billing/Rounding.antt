-- ===== src/Billing/Rounding.antt =====
-- `Cost` of server/internal/service/pricing_service.go, where nothing overflows: it rounds up.
use hhrouter.Base.{ℕ, zero, suc, ◌+◌, ◌*◌, ◌/◌, ◌^◌, ◌≤◌, ◌<◌, some, ◌≡◌, refl, arith}
use hhrouter.Base.Int.{ℤ, pos, negsuc, wrap64, wrap64_pos, add_pos, mul_pos, ◌+ℤ◌}
use hhrouter.Billing.{numerator, round_up, cost}

round_up_lem :
    (n : ℕ)
    → n + 1000000 < 2 ^ 63
    → (k : ℕ) × (round_up (pos n) ≡ pos k) × (n ≤ k * 1000000) × (k * 1000000 < n + 1000000)
unfolding round_up
round_up_lem zero h = (0, refl, omega arith, omega arith)
round_up_lem (suc n) h =
    let sum : wrap64 (pos (suc n) +ℤ pos 1000000) ≡ pos (suc n + 1000000) =
      rw (add_pos (suc n) 1000000) (wrap64_pos (suc n + 1000000) h) in
    let less : pos (suc n + 1000000) +ℤ negsuc 0 ≡ pos (n + 1000000) = ground arith in
    let fits : wrap64 (pos (n + 1000000)) ≡ pos (n + 1000000) =
      wrap64_pos (n + 1000000) (omega arith) in
    ((n + 1000000) / 1000000, (ground (arith, sum, less, fits)), omega arith, omega arith)

-- Where a sum of prices in micro-USD per million tokens times tokens, none negative, stays
-- 1,000,000 below 2 ^ 63, the cost is that sum over 1,000,000, rounded up.
pub cost_rounds_up :
    (i o r w p c x y : ℕ) (total : ℤ)
    → p * i + c * o + x * r + y * w + 1000000 < 2 ^ 63
    → (k : ℕ) × (cost
          (some (record { input = pos i; output = pos o; cache_read = pos r; cache_write = pos w }))
          (record {
            prompt_tokens = pos p;
            completion_tokens = pos c;
            total_tokens = total;
            cache_read_tokens = pos x;
            cache_write_tokens = pos y;
          })
        ≡ pos k)
      × (p * i + c * o + x * r + y * w ≤ k * 1000000)
      × (k * 1000000 < p * i + c * o + x * r + y * w + 1000000)
unfolding cost numerator
cost_rounds_up i o r w p c x y total h =
    rw
      (
        mul_pos p i,
        mul_pos c o,
        mul_pos x r,
        mul_pos y w,
        wrap64_pos (p * i) (omega arith),
        wrap64_pos (c * o) (omega arith),
        wrap64_pos (x * r) (omega arith),
        wrap64_pos (y * w) (omega arith),
        add_pos (p * i) (c * o),
        wrap64_pos (p * i + c * o) (omega arith),
        add_pos (p * i + c * o) (x * r),
        wrap64_pos (p * i + c * o + x * r) (omega arith),
        add_pos (p * i + c * o + x * r) (y * w),
        wrap64_pos (p * i + c * o + x * r + y * w) (omega arith),
      )
      (round_up_lem (p * i + c * o + x * r + y * w) h)
