-- ===== src/Base/Text.antt =====
-- Go strings as lists of bytes, with the operators == and < of Go's string type and the functions
-- of package strings that the sources call.
use Prim.Native.Nat.{◌*◌, ◌^◌, ℕ, zero, suc, ◌+◌, ◌-◌}
use Prim.Native.Char.{code}
use Prim.Native.String.{String}
use mathlib.Core.Path.{◌≡◌, refl, ap, ◌∙◌}
use mathlib.Core.Bool.{Bool, true, false, ◌&&◌, ◌||◌, not}
use mathlib.Core.Logic.{◌↔◌}
use mathlib.Core.List.{List, [], ◌∷◌, ◌++◌, reverse, reverse-append, reverse-reverse}
use native.Mathlib.Omega.{arith}
use mathlib.Core.Option.{Option, none, some}
use hhrouter.Base.Int.{ℤ, pos, negsuc}
use hhrouter.Base.Lists.{length, drop}
use hhrouter.Base.Tests.{ltb, leb, ◌==◌, if◌then◌else◌}

abbrev pub Bytes : Type 0
Bytes = List ℕ

-- The bytes of an ASCII literal.
abbrev pub codes : String → Bytes
codes String.[] = []
codes (String.◌∷◌ c s) = code c ∷ codes s

-- s == t
unfoldable pub bytes_eq : Bytes → Bytes → Bool
bytes_eq [] [] = true
bytes_eq [] (y ∷ t) = false
bytes_eq (x ∷ s) [] = false
bytes_eq (x ∷ s) (y ∷ t) = (x == y) && bytes_eq s t

-- s < t, byte by byte
unfoldable pub bytes_lt : Bytes → Bytes → Bool
bytes_lt s [] = false
bytes_lt [] (y ∷ t) = true
bytes_lt (x ∷ s) (y ∷ t) = ltb x y || ((x == y) && bytes_lt s t)

pub bytes_eq→eq : (s t : Bytes) → bytes_eq s t ≡ true → s ≡ t
unfolding bytes_eq
bytes_eq→eq [] [] h = refl
bytes_eq→eq [] (y ∷ t) h = cc
bytes_eq→eq (x ∷ s) [] h = cc
bytes_eq→eq (x ∷ s) (y ∷ t) h = ground (arith, bytes_eq→eq s t)

pub bytes_eq_refl : (s : Bytes) → bytes_eq s s ≡ true
unfolding bytes_eq
bytes_eq_refl [] = refl
bytes_eq_refl (x ∷ s) = ground (arith, bytes_eq_refl s)

pub bytes_eq_iff : (s t : Bytes) → (bytes_eq s t ≡ true) ↔ (s ≡ t)
bytes_eq_iff s t = (bytes_eq→eq s t, λ e. rw e (bytes_eq_refl t))

-- unicode.IsSpace of the runes that UTF-8 writes as one, two or three bytes.
abbrev pub is_space1 : ℕ → Bool
is_space1 c = (c == 9) || (c == 10) || (c == 11) || (c == 12) || (c == 13) || (c == 32)

is_space2 : ℕ → ℕ → Bool
is_space2 a b = (a == 0xc2) && ((b == 0x85) || (b == 0xa0))

is_space3 : ℕ → ℕ → ℕ → Bool
is_space3 a b c =
    ((a == 0xe1) && (b == 0x9a) && (c == 0x80))
    || ((a == 0xe2)
        && (b == 0x80)
        && ((leb 0x80 c && leb c 0x8a) || (c == 0xa8) || (c == 0xa9) || (c == 0xaf)))
    || ((a == 0xe2) && (b == 0x81) && (c == 0x9f))
    || ((a == 0xe3) && (b == 0x80) && (c == 0x80))

-- The number of bytes of the white-space rune that a text begins with, 0 if there is none.
space_prefix : Bytes → ℕ
unfolding is_space2 is_space3
space_prefix [] = 0
space_prefix (a ∷ []) = if is_space1 a then 1 else 0
space_prefix (a ∷ b ∷ []) = if is_space1 a then 1 else if is_space2 a b then 2 else 0
space_prefix (a ∷ b ∷ c ∷ s) =
    if is_space1 a then 1 else if is_space2 a b then 2 else if is_space3 a b c then 3 else 0

-- The same at the end of a text that is given backwards.
space_suffix : Bytes → ℕ
unfolding is_space2 is_space3
space_suffix [] = 0
space_suffix (a ∷ []) = if is_space1 a then 1 else 0
space_suffix (a ∷ b ∷ []) = if is_space1 a then 1 else if is_space2 b a then 2 else 0
space_suffix (a ∷ b ∷ c ∷ s) =
    if is_space1 a then 1 else if is_space2 b a then 2 else if is_space3 c b a then 3 else 0

-- Each round drops one rune, so the text's length is fuel enough.
trim_by : (Bytes → ℕ) → ℕ → Bytes → Bytes
trim_by width zero s = s
trim_by width (suc f) s =
    let rest = trim_by width f (drop (width s) s) in if width s == 0 then s else rest

space_prefix_other :
    (c : ℕ) (s : Bytes) → is_space1 c ≡ false → ltb c 0x80 ≡ true → space_prefix (c ∷ s) ≡ 0
unfolding space_prefix is_space2 is_space3
space_prefix_other c [] h ascii = rw h refl
space_prefix_other c (a ∷ []) h ascii = ground arith
space_prefix_other c (a ∷ b ∷ s) h ascii = ground arith

trim_by_stop : (width : Bytes → ℕ) (f : ℕ) (s : Bytes) → width s ≡ 0 → trim_by width f s ≡ s
unfolding trim_by
trim_by_stop width zero s h = refl
trim_by_stop width (suc f) s h = rw h refl

-- strings.TrimSpace
unfoldable pub trim_space : Bytes → Bytes
unfolding trim_by space_prefix space_suffix
trim_space s =
    let left = trim_by space_prefix (length s) s in
    reverse (trim_by space_suffix (length left) (reverse left))

space_prefix_blank : (s : Bytes) → space_prefix (32 ∷ s) ≡ 1
unfolding space_prefix
space_prefix_blank [] = refl
space_prefix_blank (a ∷ []) = refl
space_prefix_blank (a ∷ b ∷ s) = refl

space_suffix_other :
    (c : ℕ) (s : Bytes) → is_space1 c ≡ false → ltb c 0x80 ≡ true → space_suffix (c ∷ s) ≡ 0
unfolding space_suffix is_space2 is_space3
space_suffix_other c [] h ascii = rw h refl
space_suffix_other c (a ∷ []) h ascii = ground arith
space_suffix_other c (a ∷ b ∷ s) h ascii = ground arith

reverse_ends :
    (a : ℕ) (m : Bytes) (b : ℕ) → reverse (a ∷ (m ++ (b ∷ []))) ≡ b ∷ (reverse m ++ (a ∷ []))
reverse_ends a m b =
    reverse-append (a ∷ []) (m ++ (b ∷ []))
    ∙ ap (λ (s : Bytes). s ++ (a ∷ [])) (reverse-append m (b ∷ []))

-- A blank goes, and what begins and ends with an ASCII character that is no white space stays.
pub trim_space_blank :
    (a : ℕ) (m : Bytes) (b : ℕ)
    → (is_space1 a || not (ltb a 0x80)) ≡ false
    → (is_space1 b || not (ltb b 0x80)) ≡ false
    → trim_space (32 ∷ a ∷ (m ++ (b ∷ []))) ≡ a ∷ (m ++ (b ∷ []))
unfolding trim_space trim_by
trim_space_blank a m b ha hb =
    let s : Bytes = a ∷ (m ++ (b ∷ [])) in
    let left : trim_by space_prefix (length (32 ∷ s)) (32 ∷ s) ≡ s = rw (space_prefix_blank s) (
      trim_by_stop space_prefix (length s) s
        (space_prefix_other a (m ++ (b ∷ [])) (ground arith) (ground arith))) in
    let right : trim_by space_suffix (length s) (reverse s) ≡ reverse s = rw (reverse_ends a m b) (
      trim_by_stop space_suffix (length s) (b ∷ (reverse m ++ (a ∷ [])))
        (space_suffix_other b (reverse m ++ (a ∷ [])) (ground arith) (ground arith))) in
    rw left (rw right (reverse-reverse s))

-- strings.TrimSpace(s) == ""
unfoldable pub is_blank : Bytes → Bool
unfolding trim_space bytes_eq
is_blank s = bytes_eq (trim_space s) []

-- strings.HasPrefix
unfoldable pub has_prefix : Bytes → Bytes → Bool
has_prefix s [] = true
has_prefix [] (y ∷ t) = false
has_prefix (x ∷ s) (y ∷ t) = (x == y) && has_prefix s t

-- containsString of engine.go
unfoldable pub contains_string : List Bytes → Bytes → Bool
unfolding bytes_eq
contains_string [] needle = false
contains_string (s ∷ haystack) needle =
    if bytes_eq s needle then true else contains_string haystack needle

digits? : ℕ → Bytes → Option ℕ
digits? acc [] = some acc
digits? acc (c ∷ s) =
    let rest = digits? (acc * 10 + (c - b'0')) s in if leb b'0' c && leb c b'9' then rest else none

number? : Bytes → Option ℕ
unfolding digits?
number? [] = none
number? (c ∷ s) = digits? 0 (c ∷ s)

positive : Option ℕ → Option ℤ
positive none = none
positive (some n) = if ltb n (2 ^ 63) then some (pos n) else none

negative : Option ℕ → Option ℤ
negative none = none
negative (some zero) = some (pos 0)
negative (some (suc n)) = if ltb n (2 ^ 63) then some (negsuc n) else none

-- strconv.Atoi; `none` is its error
unfoldable pub atoi? : Bytes → Option ℤ
unfolding number? positive negative
atoi? [] = none
atoi? (c ∷ s) =
    if c == b'-'
    then negative (number? s)
    else if c == b'+'
    then positive (number? s)
    else positive (number? (c ∷ s))
