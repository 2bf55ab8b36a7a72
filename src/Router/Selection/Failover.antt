-- ===== src/Router/Selection/Failover.antt =====
-- What `Next` of server/internal/router/engine.go hands out, call after call.
use hhrouter.Base.{
  ℕ, zero, suc, ◌+◌, ◌-◌, ◌≤◌, ◌<◌, ◌≡◌, refl, Bool, true, false, ◌||◌, none, some, List, [], ◌∷◌,
  leb, length, get_elem?, take, drop, arith, Bool-cases, ◌⊎◌, inl, inr,
}
use hhrouter.Base.Int.{ℤ, pos, negsuc, leb_ℤ}
use hhrouter.Model.{Channel}
use hhrouter.Router.Selection.{Selection, next}

abbrev pub retry_cap : ℤ → ℕ
retry_cap (pos n) = n
retry_cap (negsuc n) = 0

drop_elem :
    (n : ℕ) (xs : List Channel)
    → n < length xs
    → (x : Channel) × (get_elem? xs n ≡ some x) × (drop n xs ≡ x ∷ drop (suc n) xs)
drop_elem n [] h = absurd (omega arith)
drop_elem zero (x ∷ xs) h = (x, refl, refl)
drop_elem (suc n) (x ∷ xs) h = drop_elem n xs (omega arith)

take_nil : (n : ℕ) → take {A = Channel} n [] ≡ []
take_nil zero = refl
take_nil (suc n) = refl

drop_all : (n : ℕ) (xs : List Channel) → length xs ≤ n → drop n xs ≡ []
drop_all zero [] h = refl
drop_all zero (x ∷ xs) h = absurd (omega arith)
drop_all (suc n) [] h = refl
drop_all (suc n) (x ∷ xs) h = drop_all n xs (omega arith)

-- What is left to hand out.
abbrev pub remaining : Selection → List Channel
remaining s = take (retry_cap s.max_retries - s.cursor) (drop s.cursor s.candidates)

pub exhausted : Selection → Bool
exhausted s = leb (length s.candidates) s.cursor || leb_ℤ s.max_retries (pos s.cursor)

pub next-exhausted :
    (s : Selection) → exhausted s ≡ true → (next s ≡ (none, s)) × (remaining s ≡ [])
unfolding exhausted next
next-exhausted s h = (
  rw h,
  elim (Bool-cases (leb (length s.candidates) s.cursor)) [
    | inl e ↦
        rw (drop_all s.cursor s.candidates (ground arith))
          (take_nil (retry_cap s.max_retries - s.cursor))
    | inr e ↦ rw (capped s.max_retries (ground arith))
  ],
)
  where
    capped : (m : ℤ) → leb_ℤ m (pos s.cursor) ≡ true → retry_cap m - s.cursor ≡ 0
    capped (pos n) e = ground arith
    capped (negsuc n) e = omega arith

pub not_exhausted : (s : Selection) → exhausted s ≡ false → s.cursor < length s.candidates
unfolding exhausted
not_exhausted s e = ground arith

pub next_hands_out :
    (s : Selection)
    → exhausted s ≡ false
    → (ch : Channel) × (next s ≡ (some ch, record s { cursor = s.cursor + 1 }))
      × (remaining s ≡ ch ∷ remaining (record s { cursor = s.cursor + 1 }))
unfolding exhausted next
next_hands_out s h =
    let (ch, there, rest) = drop_elem s.cursor s.candidates (ground arith) in
    let more : retry_cap s.max_retries - s.cursor ≡ suc (retry_cap s.max_retries - (s.cursor + 1)) =
      uncapped s.max_retries (ground arith) in
    let one : s.cursor + 1 ≡ suc s.cursor = omega arith in
    (ch, rw (h, there), rw (one, rest) (rw one at (cut ch more)))
  where
    uncapped :
        (m : ℤ)
        → leb_ℤ m (pos s.cursor) ≡ false
        → retry_cap m - s.cursor ≡ suc (retry_cap m - (s.cursor + 1))
    uncapped (pos n) e = ground arith
    uncapped (negsuc n) e = ground arith

    cut :
        (ch : Channel)
        → retry_cap s.max_retries - s.cursor ≡ suc (retry_cap s.max_retries - (s.cursor + 1))
        → take (retry_cap s.max_retries - s.cursor) (ch ∷ drop (s.cursor + 1) s.candidates)
          ≡ ch ∷ take (retry_cap s.max_retries - (s.cursor + 1)) (drop (s.cursor + 1) s.candidates)
    cut ch e = rw e

-- `Next` hands out nothing, or a channel and moves on.
pub next-cases :
    (s : Selection)
    → (next s ≡ (none, s))
      ⊎ ((s.cursor < length s.candidates)
          × (ch : Channel) × (next s ≡ (some ch, record s { cursor = s.cursor + 1 })))
next-cases s = elim (Bool-cases (exhausted s)) [
  | inl e ↦ inl (next-exhausted s e).0
  | inr e ↦ let (ch, eq, more) = next_hands_out s e in inr (not_exhausted s e, ch, eq)
]
