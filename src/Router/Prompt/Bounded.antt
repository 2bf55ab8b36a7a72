-- ===== src/Router/Prompt/Bounded.antt =====
-- What is kept in the prompt of the routing classifier (server/internal/router/engine.go), and its size.
use hhrouter.Base.{
  ℕ, ◌+◌, ◌-◌, ◌/◌, ◌≤◌, List, [], ◌∷◌, ◌++◌, ltb, leb, length, take, drop, reverse, ◌≡◌, ◌⊎◌, inl,
  inr, arith, Bool-cases, length-append, length-take, length-drop, leb→le,
}
use hhrouter.Router.Prompt.{
  Runes, Turn, byte_length, marker, truncate_middle, render_turn, budget, concat,
}

-- A truncated text is no longer than it may be.
pub truncate_middle_bound : (s : Runes) (max : ℕ) → length (truncate_middle s max) ≤ max
unfolding truncate_middle
truncate_middle_bound s max = elim (Bool-cases (leb (length s) max)) [
  | inl short ↦ rw short (leb→le (length s) max short)
  | inr long ↦ elim (Bool-cases (ltb (max - 13) 2)) [
    | inl tight ↦ rw (long, tight) (omega (arith, length-take max s))
    | inr room ↦
        let keep : ℕ = max - 13 in
        let head : Runes = take (keep / 2) s in
        let tail : Runes = drop (length s - (keep - keep / 2)) s in
        let bound : length (head ++ (marker ++ tail)) ≤ max = ground (
          arith,
          length-append head (marker ++ tail),
          length-append marker tail,
          length-take (keep / 2) s,
          length-drop (length s - (keep - keep / 2)) s,
        ) in
        rw (long, room) bound
  ]
]

-- The turns, rendered.
abbrev pub segments : List Turn → Runes
segments [] = []
segments (t ∷ ts) = render_turn t.role t.text ++ segments ts

-- What is kept of turns that are given newest first: the first m of them, within the budget unless it
-- is one alone.
record Keeps (used : ℕ) (kept : List Runes) (older : List Turn) (out : List Runes × ℕ)
    : Type 0 where
  count : ℕ
  text : concat out.0 ≡ segments (reverse (take count older)) ++ concat kept
  size : out.1 ≡ used + byte_length (segments (reverse (take count older)))
  fits : (out.1 ≤ budget) ⊎ ((count ≡ 0) ⊎ ((count ≡ 1) × (kept ≡ [])))

-- One more turn in front of those that were kept.
module _ (used : ℕ) (kept : List Runes) (t : Turn) (older : List Turn) (out : List Runes × ℕ) where
  seg : Runes
  seg = render_turn t.role t.text

abbrev none_kept : List Runes
none_kept = []

-- The last m turns of a conversation, in its order.
abbrev pub newest : ℕ → List Turn → List Turn
newest m turns = reverse (take m (reverse turns))
