-- ===== src/Router/Balance/Order.antt =====
-- `loadBalanceOrder` of server/internal/router/engine.go returns the candidates, those of higher
-- priority first.
use mathlib.Core.List.{Perm}
use mathlib.Core.List.Perm
use hhrouter.Base.{
  ℕ, ◌^◌, ◌≤◌, ◌<◌, ◌≡◌, refl, List, [], ◌∷◌, ◌++◌, arith, Bool-cases, inl, inr, leb, length,
}
use hhrouter.Base.Int.{ℤ, ◌≤ℤ◌}
use hhrouter.Base.Predicates.{All, All-map, All-append}
use hhrouter.Model.{Channel}
use hhrouter.Router.Outcome.{Yields}
use hhrouter.Router.Balance.{Rand, priorities, sort_desc, bucket, order_loop, load_balance_order}
use hhrouter.Router.Balance.Shuffle.{weight_sum, weighted_shuffle-Shuffled}
use hhrouter.Router.Balance.Buckets.{
  Below, StrictDesc, sorted-StrictDesc, sorted-Covers, buckets, buckets-Perm, bucket-All,
  weight_sum-bucket_le,
}

-- No channel stands before one of higher priority.
abbrev pub ByPriority : List Channel → Type 0
ByPriority [] = Unit
ByPriority (c ∷ cs) = All (λ d. d.priority ≤ℤ c.priority) cs × ByPriority cs

ByPriority-append :
    (xs ys : List Channel) (p : ℤ)
    → All (λ c. c.priority ≡ p) xs
    → All (λ c. Below p c.priority) ys
    → ByPriority ys
    → ByPriority (xs ++ ys)
ByPriority-append [] ys p hx hy s = s
ByPriority-append (x ∷ xs) ys p hx hy s = (
  All-append (λ d. d.priority ≤ℤ x.priority) xs ys
      (All-map _ _ (λ d e. rw (e, hx.0) (omega arith)) xs hx.1)
      (All-map _ _ (λ d b. rw (hx.0) (omega arith)) ys hy),
  ByPriority-append xs ys p hx.1 hy s,
)

-- What the loop over the priorities makes of its buckets.
record Ordered (prios : List ℤ) (cs : List Channel) (out : List Channel × ℕ) : Type 0 where
  perm : Perm out.0 (buckets prios cs)
  sorted : ByPriority out.0
  below : (p : ℤ) → All (Below p) prios → All (λ c. Below p c.priority) out.0

order_loop-Ordered :
    (rand : Rand) (k : ℕ) (prios : List ℤ) (cs : List Channel)
    → StrictDesc prios
    → weight_sum cs < 2 ^ 63
    → Yields (Ordered prios cs) (order_loop rand k prios cs)
unfolding order_loop
order_loop-Ordered rand k [] cs s fits =
    (([], k), refl, record { perm = Perm.refl []; sorted = tt; below = λ p h. tt })
order_loop-Ordered rand k (p ∷ prios) cs s fits =
    let ((first, k₁), e₁, shuffled) =
      weighted_shuffle-Shuffled rand k (bucket p cs) (omega (arith, weight_sum-bucket_le p cs)) in
    let ((others, k₂), e₂, ordered) = order_loop-Ordered rand k₁ prios cs s.1 fits in
    let of_p = shuffled.keeps (λ c. c.priority ≡ p) (bucket-All p cs) in
    (
      (first ++ others, k₂),
      rw (e₁, e₂),
      record {
        perm = Perm.append shuffled.perm ordered.perm;
        sorted = ByPriority-append first others p of_p (ordered.below p s.0) ordered.sorted;
        below = λ q h.
            All-append (λ c. Below q c.priority) first others
              (All-map _ _ (λ c e. rw e h.0) first of_p) (ordered.below q h.1);
      },
    )

-- The order returned.
pub record Balanced (candidates : List Channel) (out : List Channel × ℕ) : Type 0 where
  pub perm : Perm out.0 candidates
  pub sorted : ByPriority out.0

short-ByPriority : (cs : List Channel) → length cs ≤ 1 → ByPriority cs
short-ByPriority [] h = tt
short-ByPriority (c ∷ []) h = (tt, tt)
short-ByPriority (c ∷ d ∷ cs) h = absurd (omega arith)

-- Whatever the generator answers, `loadBalanceOrder` returns each candidate as often as it was given,
-- and none before one of higher priority, if the sum of the weights fits an int64.
pub load_balance_order-Balanced :
    (rand : Rand) (k : ℕ) (candidates : List Channel)
    → weight_sum candidates < 2 ^ 63
    → Yields (Balanced candidates) (load_balance_order rand k candidates)
unfolding load_balance_order
load_balance_order-Balanced rand k candidates fits = elim (Bool-cases (leb (length candidates) 1)) [
  | inl e ↦ rw e (
    (candidates, k),
    refl,
    record { perm = Perm.refl candidates; sorted = short-ByPriority candidates (ground arith) },
  )
  | inr e ↦
      let prios = sort_desc (priorities candidates) in
      let (out, eq, ordered) =
        order_loop-Ordered rand k prios candidates (sorted-StrictDesc candidates) fits in
      rw e (
        out,
        eq,
        record {
          perm = Perm.trans ordered.perm (
              buckets-Perm prios candidates (sorted-StrictDesc candidates)
                (sorted-Covers candidates));
          sorted = ordered.sorted;
        },
      )
]
