-- ===== src/Router/Balance.antt =====
-- Load balancing of server/internal/router/engine.go: `loadBalanceOrder` and `weightedShuffle`. The
-- generator behind `randIntn` is a parameter: `rand k n` is its answer to the k-th call, made with n.
pub mod Shuffle
pub mod Buckets
pub mod Order
use hhrouter.Base.{
  ℕ, zero, suc, ◌+◌, ◌-◌, Bool, true, false, ◌||◌, Option, none, some, List, [], ◌∷◌, ◌++◌, leb,
  ltb, if◌then◌else◌, length, get_elem?,
}
use hhrouter.Base.Int.{ℤ, pos, pos_part, leb_ℤ, eqb_ℤ, wrap64, ◌+ℤ◌}
use hhrouter.Model.{Channel}
use hhrouter.Router.Outcome.{Outcome, ok, panic, ◌>>=◌, of_option}

abbrev pub Rand : Type 0
Rand = ℕ → ℕ → ℕ

unfoldable pub effective_weight : ℤ → ℕ
effective_weight w = if leb_ℤ w (pos 0) then 1 else pos_part w

-- `total += effectiveWeight(…)` over the pool, on 64-bit ints
unfoldable pub total_loop : ℤ → List Channel → ℤ
unfolding effective_weight
total_loop total [] = total
total_loop total (c ∷ pool) = total_loop (wrap64 (total +ℤ pos (effective_weight c.weight))) pool

-- The loop that takes each weight off `pick` until it is below 0: the index where that happens, 0 if
-- it does not. `pick` is 0 or more at each test, so `pick - w < 0` reads `pick < w`.
unfoldable pub pick_loop : List Channel → ℕ → ℕ → ℕ
unfolding effective_weight
pick_loop [] i pick = 0
pick_loop (c ∷ pool) i pick =
    let w = effective_weight c.weight in
    let later = pick_loop pool (suc i) (pick - w) in if ltb pick w then i else later

-- append(pool[:idx], pool[idx+1:]...)
unfoldable pub remove_at {ℓ} : {A : Type ℓ} → ℕ → List A → List A
remove_at i [] = []
remove_at zero (x ∷ xs) = xs
remove_at (suc i) (x ∷ xs) = x ∷ remove_at i xs

-- The loop of `weightedShuffle`, which removes one channel in each of `n` rounds. randIntn panics on
-- an argument that is not positive. The second part of the result counts the calls made.
unfoldable pub shuffle_loop : ℕ → Rand → ℕ → List Channel → Outcome (List Channel × ℕ)
shuffle_loop zero rand k pool = ok ([], k)
shuffle_loop (suc n) rand k pool =
    let total = total_loop (pos 0) pool in
    let idx = pick_loop pool 0 (rand k (pos_part total)) in
    let round = do
      c ← of_option (get_elem? pool idx)
      (out, k') ← shuffle_loop n rand (suc k) (remove_at idx pool)
      ok (c ∷ out, k')
    in if leb_ℤ total (pos 0) then panic else round

unfoldable pub weighted_shuffle : Rand → ℕ → List Channel → Outcome (List Channel × ℕ)
unfolding shuffle_loop
weighted_shuffle rand k bucket = shuffle_loop (length bucket) rand k bucket

-- The keys of `bucketsByPrio`. (Go ranges over a map in any order; the keys are sorted next.)
unfoldable pub has_priority : ℤ → List ℤ → Bool
has_priority p [] = false
has_priority p (q ∷ prios) = eqb_ℤ q p || has_priority p prios

unfoldable pub priorities : List Channel → List ℤ
unfolding has_priority
priorities [] = []
priorities (c ∷ cs) =
    let prios = priorities cs in if has_priority c.priority prios then prios else c.priority ∷ prios

-- sort.Sort(sort.Reverse(sort.IntSlice(prios)))
unfoldable pub insert_desc : ℤ → List ℤ → List ℤ
insert_desc p [] = p ∷ []
insert_desc p (q ∷ prios) = if leb_ℤ q p then p ∷ q ∷ prios else q ∷ insert_desc p prios

unfoldable pub sort_desc : List ℤ → List ℤ
unfolding insert_desc
sort_desc [] = []
sort_desc (p ∷ prios) = insert_desc p (sort_desc prios)

-- bucketsByPrio[p]
unfoldable pub bucket : ℤ → List Channel → List Channel
bucket p [] = []
bucket p (c ∷ cs) = if eqb_ℤ c.priority p then c ∷ bucket p cs else bucket p cs

unfoldable pub order_loop : Rand → ℕ → List ℤ → List Channel → Outcome (List Channel × ℕ)
unfolding weighted_shuffle bucket
order_loop rand k [] cs = ok ([], k)
order_loop rand k (p ∷ prios) cs = do
  (first, k₁) ← weighted_shuffle rand k (bucket p cs)
  (others, k₂) ← order_loop rand k₁ prios cs
  ok (first ++ others, k₂)

unfoldable pub load_balance_order : Rand → ℕ → List Channel → Outcome (List Channel × ℕ)
unfolding order_loop priorities sort_desc
load_balance_order rand k candidates =
    if leb (length candidates) 1
    then ok (candidates, k)
    else order_loop rand k (sort_desc (priorities candidates)) candidates
