-- ===== src/Router/Glob.antt =====
-- Model patterns of server/internal/router/engine.go: `modelMatches` and `wildcardMatch`. A result
-- `none` stands for the panic of a slice out of range.
pub mod Segments
pub mod Correct
use hhrouter.Base.{
  ℕ, suc, ◌+◌, ◌-◌, Bool, true, false, ◌&&◌, not, Option, none, some, List, [], ◌∷◌, leb, ◌==◌, ◌≡◌,
  if◌then◌else◌, length, take, drop,
}
use hhrouter.Base.Text.{Bytes, bytes_eq, has_prefix}

abbrev pub star : ℕ
star = b'*'

-- strings.Split(pattern, "*"): its first part, and the others
unfoldable pub split : Bytes → Bytes × List Bytes
split [] = ([], [])
split (c ∷ p) =
    let (first, others) = split p in if c == star then ([], first ∷ others) else (c ∷ first, others)

-- strings.Contains(pattern, "*")
unfoldable pub has_star : Bytes → Bool
has_star [] = false
has_star (c ∷ p) = if c == star then true else has_star p

-- parts[len(parts)-1] and parts[1:len(parts)-1], where the parts are one before `g`, `g` and `gs`
unfoldable pub last_part : Bytes → List Bytes → Bytes
last_part g [] = g
last_part g (h ∷ gs) = last_part h gs

unfoldable pub middle_parts : Bytes → List Bytes → List Bytes
middle_parts g [] = []
middle_parts g (h ∷ gs) = g ∷ middle_parts h gs

-- strings.HasSuffix
unfoldable pub has_suffix : Bytes → Bytes → Bool
unfolding bytes_eq
has_suffix s t = leb (length t) (length s) && bytes_eq (drop (length s - length t) s) t

abbrev pub one_on : Option ℕ → Option ℕ
one_on none = none
one_on (some i) = some (suc i)

-- strings.Index
unfoldable pub index : Bytes → Bytes → Option ℕ
unfolding has_prefix
index [] mid = if has_prefix [] mid then some 0 else none
index (c ∷ s) mid =
    let later = one_on (index s mid) in if has_prefix (c ∷ s) mid then some 0 else later

-- The loop over the middle parts.
unfoldable pub middle_loop : List Bytes → Bytes → Bool
unfolding index
middle_loop [] s = true
middle_loop ([] ∷ mids) s = middle_loop mids s
middle_loop ((c ∷ mid) ∷ mids) s = elim (index s (c ∷ mid)) [
  | none ↦ false
  | some i ↦ middle_loop mids (drop (i + length (c ∷ mid)) s)
]

-- `wildcardMatch` behind the test of its first part: `last` is the last part, and `mids` gives the
-- middle ones, if the slice that takes them is in range.
unfoldable pub match_rest : Bytes → Option (List Bytes) → Bytes → Option Bool
unfolding has_suffix middle_loop
match_rest last mids s = if not (has_suffix s last) then some false else elim mids [
  | none ↦ none
  | some ms ↦ some (middle_loop ms (take (length s - length last) s))
]

-- parts[1:len(parts)-1] is out of range where there is one part only.
unfoldable pub match_parts : Bytes → List Bytes → Bytes → Option Bool
unfolding has_prefix match_rest last_part middle_parts
match_parts first [] s =
    if not (has_prefix s first) then some false else match_rest first none (drop (length first) s)
match_parts first (g ∷ gs) s =
    if not (has_prefix s first)
    then some false
    else match_rest (last_part g gs) (some (middle_parts g gs)) (drop (length first) s)

unfoldable pub wildcard_match : Bytes → Bytes → Option Bool
unfolding split match_parts
wildcard_match pattern s = let (first, others) = split pattern in match_parts first others s

unfoldable pub model_matches : Bytes → Bytes → Option Bool
unfolding bytes_eq has_star wildcard_match
model_matches pattern requested =
    if bytes_eq pattern requested
    then some true
    else if not (has_star pattern)
    then some false
    else wildcard_match pattern requested

-- What a pattern means: a star stands for any run of bytes, any other byte for itself.
pub data Matches : Bytes → Bytes → Type 0 where
  empty : Matches [] []
  byte : {c : ℕ} {p s : Bytes} → (c == star) ≡ false → Matches p s → Matches (c ∷ p) (c ∷ s)
  leave : {c : ℕ} {p s : Bytes} → (c == star) ≡ true → Matches p s → Matches (c ∷ p) s
  take_one :
      {a c : ℕ} {p s : Bytes} → (a == star) ≡ true → Matches (a ∷ p) s → Matches (a ∷ p) (c ∷ s)
