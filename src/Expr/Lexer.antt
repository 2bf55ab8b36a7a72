-- ===== src/Expr/Lexer.antt =====
-- The lexer of server/internal/router/expr/expr.go. The Go loop holds an index `i` into `src`; here
-- it holds what is left of `src`, and `i` is the length of `src` less the length of what is left.
use hhrouter.Base.{
  ℕ, zero, suc, ◌+◌, ◌-◌, ◌*◌, ◌^◌, Bool, true, false, ◌&&◌, ◌||◌, Option, none, some, List, [],
  ◌∷◌, leb, ltb, ◌==◌, if◌then◌else◌, length,
}
use mathlib.Core.List.{tail}
use hhrouter.Base.Text.{Bytes, codes, bytes_eq}
use hhrouter.Expr.Result.{
  Result, ok, err, ◌>>=◌, out_of_fuel, unterminated_string, unexpected_single, single_equals,
  unexpected_character,
}

pub data TokKind : Type 0 where
  tk_eof tk_int tk_str tk_bool tk_ident tk_op tk_lparen tk_rparen : TokKind

pub record Token : Type 0 where
  pub kind : TokKind
  pub text : Bytes
  pub start : ℕ
  pub ival : ℕ
  pub bval : Bool

-- A token literal that sets kind, text and position.
abbrev pub token : TokKind → Bytes → ℕ → Token
token k s i = record { kind = k; text = s; start = i; ival = 0; bval = false }

unfoldable pub is_ident_start : ℕ → Bool
is_ident_start c = (c == b'_') || (leb b'a' c && leb c b'z') || (leb b'A' c && leb c b'Z')

unfoldable pub is_digit : ℕ → Bool
is_digit c = leb b'0' c && leb c b'9'

unfoldable pub is_ident_part : ℕ → Bool
unfolding is_ident_start is_digit
is_ident_part c = is_ident_start c || is_digit c

-- `for j < len(src) && p(src[j]) { j++ }`: what the loop passes over, and the rest.
unfoldable pub span : (ℕ → Bool) → Bytes → Bytes × Bytes
span p [] = ([], [])
span p (c ∷ s) = let (run, rest) = span p s in if p c then (c ∷ run, rest) else ([], c ∷ s)

abbrev pub push : ℕ → Option (Bytes × Bytes) → Option (Bytes × Bytes)
push c none = none
push c (some (body, rest)) = some (c ∷ body, rest)

-- The body of a string literal up to its closing quote; `none` if the text ends first.
unfoldable pub scan_string : ℕ → Bytes → Option (Bytes × Bytes)
scan_string quote [] = none
scan_string quote (c ∷ []) = if c == quote then some ([], []) else none
scan_string quote (c ∷ d ∷ s) =
    let escaped = push d (scan_string quote s) in
    let plain = push c (scan_string quote (d ∷ s)) in
    if c == quote then some ([], d ∷ s) else if c == 92 then escaped else plain

-- The value of a run of digits; strconv.Atoi, its error ignored, stops at the largest int.
unfoldable pub digits_value : ℕ → Bytes → ℕ
digits_value acc [] = acc
digits_value acc (c ∷ s) = digits_value (acc * 10 + (c - b'0')) s

unfoldable pub atoi : Bytes → ℕ
unfolding digits_value
atoi s = let n = digits_value 0 s in if ltb n (2 ^ 63) then n else 2 ^ 63 - 1

abbrev pub head_is : Bytes → ℕ → Bool
head_is [] c = false
head_is (d ∷ _) c = d == c

unfoldable pub word_token : Bytes → ℕ → Token
unfolding bytes_eq
word_token word i =
    if bytes_eq word (codes "true")
    then record { kind = tk_bool; text = word; start = i; ival = 0; bval = true }
    else if bytes_eq word (codes "false")
    then record { kind = tk_bool; text = word; start = i; ival = 0; bval = false }
    else token tk_ident word i

-- A string literal that opens with `quote` at `i`.
unfoldable pub lex_string : ℕ → Bytes → ℕ → Result (Option Token × Bytes)
unfolding scan_string
lex_string quote s i = elim (scan_string quote s) [
  | none ↦ err (unterminated_string i)
  | some (body, rest) ↦ ok (some (token tk_str body i), rest)
]

unfoldable pub lex_number : Bytes → ℕ → Result (Option Token × Bytes)
unfolding span is_digit atoi
lex_number s i =
    let (run, rest) = span is_digit s in
    ok (some (record { kind = tk_int; text = run; start = i; ival = atoi run; bval = false }), rest)

unfoldable pub lex_word : Bytes → ℕ → Result (Option Token × Bytes)
unfolding span is_ident_part word_token
lex_word s i = let (run, rest) = span is_ident_part s in ok (some (word_token run i), rest)

unfoldable pub is_blank_byte : ℕ → Bool
is_blank_byte c = (c == 32) || (c == 9) || (c == 10) || (c == 13)

unfoldable pub is_quote : ℕ → Bool
is_quote c = (c == 34) || (c == 39)

unfoldable pub is_amp_or_bar : ℕ → Bool
is_amp_or_bar c = (c == b'&') || (c == b'|')

unfoldable pub is_comparison : ℕ → Bool
is_comparison c = (c == b'=') || (c == b'!') || (c == b'<') || (c == b'>')

-- `&` or `|`, which must come twice
unfoldable pub lex_logic : ℕ → Bytes → ℕ → Result (Option Token × Bytes)
lex_logic c s i =
    if head_is s c
    then ok (some (token tk_op (c ∷ c ∷ []) i), tail s)
    else err (unexpected_single c i)

-- `=`, `!`, `<` or `>`, with or without a `=` behind it
unfoldable pub lex_comparison : ℕ → Bytes → ℕ → Result (Option Token × Bytes)
lex_comparison c s i =
    if head_is s b'='
    then ok (some (token tk_op (c ∷ b'=' ∷ []) i), tail s)
    else if c == b'!'
    then ok (some (token tk_op (c ∷ []) i), s)
    else if (c == b'<') || (c == b'>')
    then ok (some (token tk_op (c ∷ []) i), s)
    else err (single_equals i)

-- One round of the loop in `lex`, at the byte `c` with `s` behind it.
unfoldable pub lex_step : ℕ → Bytes → ℕ → Result (Option Token × Bytes)
unfolding is_blank_byte is_quote is_amp_or_bar is_comparison is_digit is_ident_start lex_string
    lex_logic lex_comparison lex_number lex_word
lex_step c s i =
    if is_blank_byte c
    then ok (none, s)
    else if c == b'('
    then ok (some (token tk_lparen (codes "(") i), s)
    else if c == b')'
    then ok (some (token tk_rparen (codes ")") i), s)
    else if is_quote c
    then lex_string c s i
    else if is_amp_or_bar c
    then lex_logic c s i
    else if is_comparison c
    then lex_comparison c s i
    else if is_digit c
    then lex_number (c ∷ s) i
    else if is_ident_start c
    then lex_word (c ∷ s) i
    else err (unexpected_character c i)

abbrev pub push_token : Option Token → List Token → List Token
push_token none toks = toks
push_token (some t) toks = t ∷ toks

-- The loop of `lex` over what is left of a source of length `n`.
unfoldable pub lex_loop : ℕ → ℕ → Bytes → Result (List Token)
unfolding lex_step
lex_loop f n [] = ok (token tk_eof [] n ∷ [])
lex_loop zero n (c ∷ s) = out_of_fuel
lex_loop (suc f) n (c ∷ s) = do
  (t, rest) ← lex_step c s (n - length (c ∷ s))
  toks ← lex_loop f n rest
  ok (push_token t toks)

unfoldable pub lex : Bytes → Result (List Token)
unfolding lex_loop
lex src = lex_loop (length src) (length src) src
