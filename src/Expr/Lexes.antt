-- ===== src/Expr/Lexes.antt =====
-- What the lexer of server/internal/router/expr/expr.go returns: it ends within its fuel, and its
-- tokens stand in order and close with one end-of-file token.
use hhrouter.Base.{
  ℕ, zero, suc, ◌-◌, ◌^◌, ◌≤◌, ◌<◌, ◌≡◌, refl, ◌≢◌, inl, inr, Bool, true, false, List, [], ◌∷◌,
  arith, if◌then◌else◌, length, Option, none, some, Bool-cases, ◌==◌, ◌||◌,
}
use mathlib.Core.List.{tail}
use hhrouter.Base.Text.{Bytes, codes, bytes_eq}
use hhrouter.Expr.Result.{
  ok, err, unterminated_string, Ends, holds, refused, Ends-if, Ends-bind, Ends-map,
}
use hhrouter.Expr.Lexer.{
  tk_eof, tk_str, tk_op, Token, token, span, scan_string, push, lex_string, lex_number, lex_word,
  word_token, lex_step, lex_loop, lex, atoi, head_is, push_token, is_digit, is_ident_part,
  lex_logic, lex_comparison, is_ident_start, is_blank_byte, is_quote, is_amp_or_bar, is_comparison,
}

-- A token list of a source of length `n` whose first token starts at `from` or later: the starts
-- rise, an int token's value is an int, and the one end-of-file token closes the list, at `n`.
pub data Lexed (n : ℕ) : ℕ → List Token → Type 0 where
  close : {start : ℕ} → start ≤ n → Lexed n start (token tk_eof [] n ∷ [])
  tok :
      {start : ℕ} {t : Token} {toks : List Token}
      → t.kind ≢ tk_eof
      → t.ival < 2 ^ 63
      → start ≤ t.start
      → Lexed n (suc t.start) toks
      → Lexed n start (t ∷ toks)

weaken : {n a b : ℕ} {toks : List Token} → b ≤ a → Lexed n a toks → Lexed n b toks
weaken h (close k) = close (omega arith)
weaken h (tok ne v k l) = tok ne v (omega arith) l

length-span : (p : ℕ → Bool) (s : Bytes) → length (span p s).1 ≤ length s
unfolding span
length-span p [] = omega arith
length-span p (c ∷ s) = ground (arith, length-span p s)

length-span_lt :
    (p : ℕ → Bool) (c : ℕ) (s : Bytes) → p c ≡ true → length (span p (c ∷ s)).1 ≤ length s
unfolding span
length-span_lt p c s h = ground (arith, length-span p s)

-- Scanning a string literal takes at least its closing quote.
abbrev Scanned : ℕ → Option (Bytes × Bytes) → Type 0
Scanned n none = Unit
Scanned n (some (body, rest)) = length rest < n

push-Scanned : (c n m : ℕ) (o : Option (Bytes × Bytes)) → n ≤ m → Scanned n o → Scanned m (push c o)
push-Scanned c n m none h k = tt
push-Scanned c n m (some (body, rest)) h k = omega arith

if-Scanned :
    (b : Bool) (n : ℕ) (x y : Option (Bytes × Bytes))
    → Scanned n x
    → Scanned n y
    → Scanned n (if b then x else y)
if-Scanned true n x y hx hy = hx
if-Scanned false n x y hx hy = hy

scan_string-Scanned : (quote : ℕ) (s : Bytes) → Scanned (length s) (scan_string quote s)
unfolding scan_string
scan_string-Scanned quote [] = tt
scan_string-Scanned quote (c ∷ []) = if-Scanned (c == quote) 1 _ _ (omega arith) tt
scan_string-Scanned quote (c ∷ d ∷ s) =
    let n = length (c ∷ d ∷ s) in
    if-Scanned (c == quote) n _ _ (omega arith) (
      if-Scanned (c == 92) n _ _ (push-Scanned d _ n _ (omega arith) (scan_string-Scanned quote s))
        (push-Scanned c _ n _ (omega arith) (scan_string-Scanned quote (d ∷ s))))

-- One round takes at least the byte `c`, and what token it makes starts at `i`.
abbrev Stepped : ℕ → Bytes → Option Token × Bytes → Type 0
Stepped i s (none, rest) = length rest ≤ length s
Stepped i s (some t, rest) =
    (length rest ≤ length s) × (t.kind ≢ tk_eof) × (t.ival < 2 ^ 63) × (t.start ≡ i)

Stepped-le :
    (i : ℕ) (s : Bytes) (t : Option Token) (rest : Bytes)
    → Stepped i s (t, rest)
    → length rest ≤ length s
Stepped-le i s none rest h = h
Stepped-le i s (some t) rest h = h.0

length-tail_le : (s : Bytes) → length (tail s) ≤ length s
length-tail_le [] = omega arith
length-tail_le (c ∷ s) = omega arith

lex_string-Ends : (quote : ℕ) (s : Bytes) (i : ℕ) → Ends (Stepped i s) (lex_string quote s i)
unfolding lex_string
lex_string-Ends quote s i = literal (scan_string quote s) (scan_string-Scanned quote s)
  where
    literal :
        (o : Option (Bytes × Bytes))
        → Scanned (length s) o
        → Ends (Stepped i s) (elim o [
          | none ↦ err (unterminated_string i)
          | some (body, rest) ↦ ok (some (token tk_str body i), rest)
        ])
    literal none h = refused
    literal (some (body, rest)) h = holds (omega arith, (λ e. cc), omega arith, refl)

atoi-lt : (s : Bytes) → atoi s < 2 ^ 63
unfolding atoi
atoi-lt s = ground arith

lex_number-Ends :
    (c : ℕ) (s : Bytes) (i : ℕ) → is_digit c ≡ true → Ends (Stepped i s) (lex_number (c ∷ s) i)
unfolding lex_number
lex_number-Ends c s i h =
    holds (length-span_lt is_digit c s h, (λ e. cc), atoi-lt (span is_digit (c ∷ s)).0, refl)

word_token-Stepped :
    (word : Bytes) (i : ℕ) (s rest : Bytes)
    → length rest ≤ length s
    → Stepped i s (some (word_token word i), rest)
unfolding word_token
word_token-Stepped word i s rest h = elim (Bool-cases (bytes_eq word (codes "true"))) [
  | inl a ↦ rw a (h, (λ e. cc), omega arith, refl)
  | inr a ↦ elim (Bool-cases (bytes_eq word (codes "false"))) [
    | inl b ↦ rw (a, b) (h, (λ e. cc), omega arith, refl)
    | inr b ↦ rw (a, b) (h, (λ e. cc), omega arith, refl)
  ]
]

lex_word-Ends :
    (c : ℕ) (s : Bytes) (i : ℕ) → is_ident_start c ≡ true → Ends (Stepped i s) (lex_word (c ∷ s) i)
unfolding lex_word
lex_word-Ends c s i h = holds (
    word_token-Stepped (span is_ident_part (c ∷ s)).0 i s _
      (length-span_lt is_ident_part c s (unfold is_ident_part in ground arith)))

lex_logic-Ends : (c : ℕ) (s : Bytes) (i : ℕ) → Ends (Stepped i s) (lex_logic c s i)
unfolding lex_logic
lex_logic-Ends c s i =
    Ends-if (head_is s c) (λ _. holds (length-tail_le s, (λ e. cc), omega arith, refl))
      (λ _. refused)

lex_comparison-Ends : (c : ℕ) (s : Bytes) (i : ℕ) → Ends (Stepped i s) (lex_comparison c s i)
unfolding lex_comparison
lex_comparison-Ends c s i =
    let op : (n : ℕ) → n ≤ length s → (n ≤ length s) × (tk_op ≢ tk_eof) × (0 < 2 ^ 63) × (i ≡ i) =
      λ n h. (h, (λ e. cc), omega arith, refl) in
    Ends-if (head_is s b'=') (λ _. holds (op _ (length-tail_le s)))
      λ _.
        Ends-if (c == b'!') (λ _. holds (op _ (omega arith)))
          λ _. Ends-if ((c == b'<') || (c == b'>')) (λ _. holds (op _ (omega arith))) λ _. refused

lex_step-Ends : (c : ℕ) (s : Bytes) (i : ℕ) → Ends (Stepped i s) (lex_step c s i)
unfolding lex_step
lex_step-Ends c s i =
    Ends-if (is_blank_byte c) (λ _. holds (omega arith))
      λ _.
        Ends-if (c == b'(') (λ _. holds (omega arith, (λ e. cc), omega arith, refl))
          λ _.
            Ends-if (c == b')') (λ _. holds (omega arith, (λ e. cc), omega arith, refl))
              λ _.
                Ends-if (is_quote c) (λ _. lex_string-Ends c s i)
                  λ _.
                    Ends-if (is_amp_or_bar c) (λ _. lex_logic-Ends c s i)
                      λ _.
                        Ends-if (is_comparison c) (λ _. lex_comparison-Ends c s i)
                          λ _.
                            Ends-if (is_digit c) (λ h. lex_number-Ends c s i h)
                              λ _.
                                Ends-if (is_ident_start c) (λ h. lex_word-Ends c s i h) λ _. refused

push-Lexed :
    (n : ℕ) (s rest : Bytes) (t : Option Token) (toks : List Token)
    → length s < n
    → Stepped (n - suc (length s)) s (t, rest)
    → Lexed n (n - length rest) toks
    → Lexed n (n - suc (length s)) (push_token t toks)
push-Lexed n s rest none toks h st l = weaken (omega arith) l
push-Lexed n s rest (some t) toks h st l =
    tok st.1 st.2 (omega (arith, st.3)) (weaken (omega (arith, st.0, st.3)) l)

lex_loop-Ends :
    (f n : ℕ) (s : Bytes)
    → length s ≤ f
    → length s ≤ n
    → Ends (Lexed n (n - length s)) (lex_loop f n s)
unfolding lex_loop
lex_loop-Ends f n [] h k = holds (close (omega arith))
lex_loop-Ends zero n (c ∷ s) h k = absurd (omega arith)
lex_loop-Ends (suc f) n (c ∷ s) h k =
    Ends-bind (lex_step-Ends c s (n - suc (length s))) λ (t, rest) st.
      Ends-bind
        (lex_loop-Ends f n rest (omega (arith, Stepped-le (n - suc (length s)) s t rest st))
          (omega (arith, Stepped-le (n - suc (length s)) s t rest st)))
        λ toks l. holds (push-Lexed n s rest t toks k st l)

-- The lexer ends on every source within its fuel, with an error or with tokens in source order of
-- which the last, and no other, is the end of the file at the source's length.
pub lex-Ends : (src : Bytes) → Ends (Lexed (length src) 0) (lex src)
unfolding lex
lex-Ends src =
    Ends-map (lex_loop-Ends (length src) (length src) src (omega arith) (omega arith))
      λ toks l. weaken (omega arith) l
