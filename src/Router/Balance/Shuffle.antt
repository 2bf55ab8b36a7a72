-- ===== src/Router/Balance/Shuffle.antt =====
-- `weightedShuffle` of server/internal/router/engine.go: it returns the bucket in another order, and
-- each draw picks a channel for as many values of the draw as its weight.
use mathlib.Core.List.{Perm}
use mathlib.Core.List.Perm
use hhrouter.Base.{
  ℕ, zero, suc, ◌+◌, ◌-◌, ◌^◌, ◌≤◌, ◌<◌, ◌≡◌, refl, false, some, List, [], ◌∷◌, ltb, length,
  get_elem?, take, arith, ltb→lt, subst, Bool-cases, inl, inr, ap, ◌∙◌,
}
use hhrouter.Base.Int.{ℤ, pos, leb_ℤ, wrap64, wrap64-id, ◌+ℤ◌}
use hhrouter.Base.Predicates.{All}
use hhrouter.Model.{Channel}
use hhrouter.Router.Outcome.{ok, ◌>>=◌, Yields}
use hhrouter.Router.Balance.{
  Rand, effective_weight, total_loop, pick_loop, remove_at, shuffle_loop, weighted_shuffle,
}

abbrev pub weight_sum : List Channel → ℕ
weight_sum [] = 0
weight_sum (c ∷ cs) = effective_weight c.weight + weight_sum cs

zero_plus : (n : ℕ) → zero + n ≡ n
zero_plus n = omega arith

pub effective_weight_pos : (w : ℤ) → 0 < effective_weight w
unfolding effective_weight
effective_weight_pos w = ground arith

add_fits : (t w : ℕ) → t + w < 2 ^ 63 → wrap64 (pos t +ℤ pos w) ≡ pos (t + w)
add_fits t w h =
    let exact : pos t +ℤ pos w ≡ pos (t + w) = ground arith in
    rw exact (wrap64-id (pos (t + w)) (omega arith, omega arith))

-- While the sum fits an int64, the total is the sum.
total_loop_lem :
    (t : ℕ) (pool : List Channel)
    → t + weight_sum pool < 2 ^ 63
    → total_loop (pos t) pool ≡ pos (t + weight_sum pool)
unfolding total_loop
total_loop_lem t [] h = ap pos (omega arith)
total_loop_lem t (c ∷ pool) h =
    let w = effective_weight c.weight in
    rw (add_fits t w (omega arith))
      (total_loop_lem (t + w) pool (omega arith) ∙ ap pos (omega arith))

-- The channel that a draw picks stands in the pool, where its share of the weights holds the draw.
pub record Picks (pool : List Channel) (pick j : ℕ) (c : Channel) : Type 0 where
  pub there : get_elem? pool j ≡ some c
  pub from : weight_sum (take j pool) ≤ pick
  pub below : pick < weight_sum (take j pool) + effective_weight c.weight

pick_loop-Picks :
    (pool : List Channel) (i pick : ℕ)
    → pick < weight_sum pool
    → (j : ℕ) × (c : Channel) × (pick_loop pool i pick ≡ i + j) × Picks pool pick j c
unfolding pick_loop
pick_loop-Picks [] i pick h = absurd (omega arith)
pick_loop-Picks (c ∷ pool) i pick h = elim (Bool-cases (ltb pick (effective_weight c.weight))) [
  | inl e ↦ rw e (
    0,
    c,
    omega arith,
    record { there = refl; from = omega arith; below = omega (arith, ltb→lt _ _ e) },
  )
  | inr e ↦
      let le : effective_weight c.weight ≤ pick = ground arith in
      let (j, d, found, picks) =
        pick_loop-Picks pool (suc i) (pick - effective_weight c.weight) (omega (arith, le)) in
      rw e (
        suc j,
        d,
        omega (arith, found),
        record {
          there = picks.there;
          from = omega (arith, picks.from, le);
          below = omega (arith, picks.below, le);
        },
      )
]

-- A draw past all the weights leaves the index at 0.
pick_loop_past :
    (pool : List Channel) (i pick : ℕ) → weight_sum pool ≤ pick → pick_loop pool i pick ≡ 0
unfolding pick_loop
pick_loop_past [] i pick h = refl
pick_loop_past (c ∷ pool) i pick h =
    let not_yet : ltb pick (effective_weight c.weight) ≡ false = ground arith in
    rw not_yet (pick_loop_past pool (suc i) (pick - effective_weight c.weight) (omega arith))

-- Whatever is drawn, the index is that of a channel.
pick_loop_in_range :
    (c : Channel) (pool : List Channel) (pick : ℕ)
    → (d : Channel) × (get_elem? (c ∷ pool) (pick_loop (c ∷ pool) 0 pick) ≡ some d)
pick_loop_in_range c pool pick = elim (Bool-cases (ltb pick (weight_sum (c ∷ pool)))) [
  | inl e ↦
      let (j, d, found, picks) = pick_loop-Picks (c ∷ pool) 0 pick (ltb→lt _ _ e) in
      (d, rw (found, zero_plus j) picks.there)
  | inr e ↦ (c, rw (pick_loop_past (c ∷ pool) 0 pick (ground arith)))
]

remove_at-Perm {ℓ} :
    {A : Type ℓ} (i : ℕ) (xs : List A) {x : A}
    → get_elem? xs i ≡ some x
    → Perm (x ∷ remove_at i xs) xs
unfolding remove_at
remove_at-Perm i [] h = cc
remove_at-Perm zero (y ∷ xs) {x} h = let e : x ≡ y = cc in rw e (Perm.refl (y ∷ xs))
remove_at-Perm (suc i) (y ∷ xs) {x} h =
    Perm.trans (Perm.swap y x (remove_at i xs)) (Perm.cons y (remove_at-Perm i xs h))

length-remove_at {ℓ} :
    {A : Type ℓ} (i : ℕ) (xs : List A) {x : A}
    → get_elem? xs i ≡ some x
    → suc (length (remove_at i xs)) ≡ length xs
unfolding remove_at
length-remove_at i [] h = cc
length-remove_at zero (y ∷ xs) h = refl
length-remove_at (suc i) (y ∷ xs) h = ap suc (length-remove_at i xs h)

weight_sum-remove_at_le :
    (i : ℕ) (pool : List Channel) → weight_sum (remove_at i pool) ≤ weight_sum pool
unfolding remove_at
weight_sum-remove_at_le i [] = omega arith
weight_sum-remove_at_le zero (c ∷ pool) = omega arith
weight_sum-remove_at_le (suc i) (c ∷ pool) = omega (arith, weight_sum-remove_at_le i pool)

All-remove_at :
    (P : Channel → Type 0) (i : ℕ) (pool : List Channel) → All P pool → All P (remove_at i pool)
unfolding remove_at
All-remove_at P i [] h = tt
All-remove_at P zero (c ∷ pool) h = h.1
All-remove_at P (suc i) (c ∷ pool) h = (h.0, All-remove_at P i pool h.1)

All-get_elem? :
    (P : Channel → Type 0) (i : ℕ) (pool : List Channel) {c : Channel}
    → get_elem? pool i ≡ some c
    → All P pool
    → P c
All-get_elem? P i [] h a = cc
All-get_elem? P zero (d ∷ pool) {c} h a = let e : d ≡ c = cc in subst P e a.0
All-get_elem? P (suc i) (d ∷ pool) h a = All-get_elem? P i pool h a.1

-- What one round does, if the weights of the pool fit an int64.
shuffle_picks :
    (n : ℕ) (rand : Rand) (k : ℕ) (c : Channel) (pool : List Channel)
    → weight_sum (c ∷ pool) < 2 ^ 63
    → (i : ℕ) (d : Channel) → pick_loop (c ∷ pool) 0 (rand k (weight_sum (c ∷ pool))) ≡ i
    → get_elem? (c ∷ pool) i ≡ some d
    → shuffle_loop (suc n) rand k (c ∷ pool)
      ≡ (shuffle_loop n rand (suc k) (remove_at i (c ∷ pool)) >>= λ (out, k'). ok (d ∷ out, k'))
unfolding shuffle_loop
shuffle_picks n rand k c pool fits i d found there =
    let pool' : List Channel = c ∷ pool in
    let sum = weight_sum pool' in
    let total : total_loop (pos 0) pool' ≡ pos sum =
      total_loop_lem 0 pool' (omega arith) ∙ ap pos (zero_plus sum) in
    let positive : leb_ℤ (pos sum) (pos 0) ≡ false =
      ground (arith, effective_weight_pos c.weight) in
    rw (total, positive, found, there)

shuffle_round :
    (n : ℕ) (rand : Rand) (k : ℕ) (c : Channel) (pool : List Channel)
    → weight_sum (c ∷ pool) < 2 ^ 63
    → (i : ℕ) × (d : Channel) × (get_elem? (c ∷ pool) i ≡ some d)
      × (shuffle_loop (suc n) rand k (c ∷ pool) ≡ (
          shuffle_loop n rand (suc k) (remove_at i (c ∷ pool)) >>= λ (out, k'). ok (d ∷ out, k')))
shuffle_round n rand k c pool fits =
    let idx = pick_loop (c ∷ pool) 0 (rand k (weight_sum (c ∷ pool))) in
    let (d, there) = pick_loop_in_range c pool (rand k (weight_sum (c ∷ pool))) in
    (idx, d, there, shuffle_picks n rand k c pool fits idx d refl there)

-- What a shuffle makes of a pool: an order of it, of channels of which all holds that held of it.
pub record Shuffled (pool : List Channel) (out : List Channel × ℕ) : Type 1 where
  pub perm : Perm out.0 pool
  pub keeps : (P : Channel → Type 0) → All P pool → All P out.0

shuffle_loop-Shuffled :
    (n : ℕ) (rand : Rand) (k : ℕ) (pool : List Channel)
    → length pool ≡ n
    → weight_sum pool < 2 ^ 63
    → Yields (Shuffled pool) (shuffle_loop n rand k pool)
unfolding shuffle_loop
shuffle_loop-Shuffled zero rand k [] e fits =
    (([], k), refl, record { perm = Perm.refl []; keeps = λ P h. tt })
shuffle_loop-Shuffled zero rand k (c ∷ pool) e fits = absurd (omega arith)
shuffle_loop-Shuffled (suc n) rand k [] e fits = absurd (omega arith)
shuffle_loop-Shuffled (suc n) rand k (c ∷ pool) e fits =
    let (i, d, there, round) = shuffle_round n rand k c pool fits in
    let pool' : List Channel = c ∷ pool in
    let ((out, k'), eq, s) =
      shuffle_loop-Shuffled n rand (suc k) (remove_at i pool')
        (omega (arith, length-remove_at i pool' there))
        (omega (arith, weight_sum-remove_at_le i pool')) in
    (
      (d ∷ out, k'),
      rw (round, eq),
      record {
        perm = Perm.trans (Perm.cons d s.perm) (remove_at-Perm i pool' there);
        keeps = λ P h. (All-get_elem? P i pool' there h, s.keeps P (All-remove_at P i pool' h));
      },
    )

-- Whatever the generator answers, `weightedShuffle` returns the channels of the bucket, each as
-- often as it stands there, if the sum of their weights fits an int64.
pub weighted_shuffle-Shuffled :
    (rand : Rand) (k : ℕ) (pool : List Channel)
    → weight_sum pool < 2 ^ 63
    → Yields (Shuffled pool) (weighted_shuffle rand k pool)
unfolding weighted_shuffle
weighted_shuffle-Shuffled rand k pool fits =
    shuffle_loop-Shuffled (length pool) rand k pool refl fits

-- If the sum of the weights fits an int64 and the generator answers below its bound, the channel at the
-- head of a shuffled bucket is the one whose share of the weights holds the first draw.
pub weighted_shuffle_head :
    (rand : Rand) (k : ℕ) (c : Channel) (pool : List Channel)
    → weight_sum (c ∷ pool) < 2 ^ 63
    → rand k (weight_sum (c ∷ pool)) < weight_sum (c ∷ pool)
    → (j : ℕ) × (d : Channel) × (others : List Channel) × (k' : ℕ) × (weighted_shuffle rand k
          (c ∷ pool)
        ≡ ok (d ∷ others, k'))
      × Picks (c ∷ pool) (rand k (weight_sum (c ∷ pool))) j d
unfolding weighted_shuffle
weighted_shuffle_head rand k c pool fits contract =
    let pool' : List Channel = c ∷ pool in
    let (j, d, found, picks) = pick_loop-Picks pool' 0 (rand k (weight_sum pool')) contract in
    let round =
      shuffle_picks (length pool) rand k c pool fits j d (found ∙ zero_plus j) picks.there in
    let ((out, k'), eq, s) =
      shuffle_loop-Shuffled (length pool) rand (suc k) (remove_at j pool')
        (omega (arith, length-remove_at j pool' picks.there))
        (omega (arith, weight_sum-remove_at_le j pool')) in
    (j, d, out, k', rw (round, eq), picks)
