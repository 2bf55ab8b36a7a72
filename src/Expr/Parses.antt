-- ===== src/Expr/Parses.antt =====
-- What the parser of server/internal/router/expr/expr.go returns: it ends within its fuel, it never
-- reads past the tokens, and a tree that it builds is well typed.
use hhrouter.Base.{
  subst, ℕ, zero, suc, ◌+◌, ◌*◌, ◌≤◌, ◌<◌, ◌≡◌, refl, inl, inr, List, [], ◌∷◌, arith, length, some,
  not,
}
use hhrouter.Base.Text.{Bytes, codes, is_blank}
use hhrouter.Expr.Ast.{type_bool, type_eq, Node, logic_node, typ, Program}
use hhrouter.Expr.Result.{Ends, holds, refused, Ends-if, Ends-bind}
use hhrouter.Expr.Lexer.{Token}
use hhrouter.Expr.Lexes.{Lexed, close, tok, lex-Ends}
use hhrouter.Expr.Parser.{
  Parser, advance, at_op, at_cmp_op, both_bool, parse_or, or_loop, parse_and, and_loop, parse_not,
  parse_comparison, parse_primary, parse_fuel, finish, compile_tokens, compile, at_end,
}
use hhrouter.Expr.Typing.{WellTyped, is_not, is_logic, type_eq→eq}
use hhrouter.Expr.Advances.{
  at_op-Advanced, at_cmp_op-Advanced, at_cmp_op→is_cmp_op, both_bool→eq, compare_nodes-Ends,
  primary-Ends, LastEof, IsOpen, left_over, Advanced, Parsed,
}

-- One induction on the fuel: each function uses up a token, so what is left stays below its bound.
mutual
  unfolding parse_or

  parse_or-Ends :
      (f : ℕ) (p : Parser)
      → IsOpen p
      → 8 * left_over p + 5 ≤ f
      → Ends (Parsed (left_over p)) (parse_or f p)
  parse_or-Ends zero p o h = absurd (omega arith)
  parse_or-Ends (suc f) p o h =
      Ends-bind (parse_and-Ends f p o (omega arith))
        λ (x, q) (w, lt, o'). or_loop-Ends f (left_over p) x q w o' (omega arith) lt

  or_loop-Ends :
      (f n : ℕ) (x : Node) (p : Parser)
      → WellTyped x
      → IsOpen p
      → 8 * left_over p + 1 ≤ f
      → left_over p < n
      → Ends (Parsed n) (or_loop f x p)
  or_loop-Ends zero n x p w o h lt = absurd (omega arith)
  or_loop-Ends (suc f) n x p w o h lt =
      Ends-if (at_op (codes "||") p)
        (λ a.
          let step : Advanced p = at_op-Advanced (codes "||") p o a in
          Ends-bind (parse_and-Ends f (advance p) step.0 (omega (arith, step.1)))
            λ (y, q) (v, lt', o').
              Ends-if (both_bool x y)
                (λ b.
                  let kinds = both_bool→eq x y b in
                  or_loop-Ends f n (logic_node (codes "||") x y) q
                    (is_logic (inr refl) w v kinds.0 kinds.1) o' (omega (arith, step.1))
                    (omega (arith, step.1)))
                (λ _. refused))
        (λ _. holds (w, lt, o))

  parse_and-Ends :
      (f : ℕ) (p : Parser)
      → IsOpen p
      → 8 * left_over p + 4 ≤ f
      → Ends (Parsed (left_over p)) (parse_and f p)
  parse_and-Ends zero p o h = absurd (omega arith)
  parse_and-Ends (suc f) p o h =
      Ends-bind (parse_not-Ends f p o (omega arith))
        λ (x, q) (w, lt, o'). and_loop-Ends f (left_over p) x q w o' (omega arith) lt

  and_loop-Ends :
      (f n : ℕ) (x : Node) (p : Parser)
      → WellTyped x
      → IsOpen p
      → 8 * left_over p + 1 ≤ f
      → left_over p < n
      → Ends (Parsed n) (and_loop f x p)
  and_loop-Ends zero n x p w o h lt = absurd (omega arith)
  and_loop-Ends (suc f) n x p w o h lt =
      Ends-if (at_op (codes "&&") p)
        (λ a.
          let step : Advanced p = at_op-Advanced (codes "&&") p o a in
          Ends-bind (parse_not-Ends f (advance p) step.0 (omega (arith, step.1)))
            λ (y, q) (v, lt', o').
              Ends-if (both_bool x y)
                (λ b.
                  let kinds = both_bool→eq x y b in
                  and_loop-Ends f n (logic_node (codes "&&") x y) q
                    (is_logic (inl refl) w v kinds.0 kinds.1) o' (omega (arith, step.1))
                    (omega (arith, step.1)))
                (λ _. refused))
        (λ _. holds (w, lt, o))

  parse_not-Ends :
      (f : ℕ) (p : Parser)
      → IsOpen p
      → 8 * left_over p + 3 ≤ f
      → Ends (Parsed (left_over p)) (parse_not f p)
  parse_not-Ends zero p o h = absurd (omega arith)
  parse_not-Ends (suc f) p o h =
      Ends-if (at_op (codes "!") p)
        (λ a.
          let step : Advanced p = at_op-Advanced (codes "!") p o a in
          Ends-bind (parse_not-Ends f (advance p) step.0 (omega (arith, step.1)))
            λ (x, q) (w, lt, o').
              Ends-if (type_eq (typ x) type_bool)
                (λ b. holds (is_not w (type_eq→eq _ _ b), omega (arith, step.1), o'))
                (λ _. refused))
        (λ _. parse_comparison-Ends f p o (omega arith))

  parse_comparison-Ends :
      (f : ℕ) (p : Parser)
      → IsOpen p
      → 8 * left_over p + 2 ≤ f
      → Ends (Parsed (left_over p)) (parse_comparison f p)
  parse_comparison-Ends zero p o h = absurd (omega arith)
  parse_comparison-Ends (suc f) p o h =
      Ends-bind (parse_primary-Ends f p o (omega arith)) λ (x, q) (w, lt, o').
        Ends-if (at_cmp_op q)
          (λ a.
            let step : Advanced q = at_cmp_op-Advanced q o' a in
            Ends-bind (parse_primary-Ends f (advance q) step.0 (omega (arith, step.1)))
              λ (y, r) (v, lt', o'').
                Ends-bind (compare_nodes-Ends q.cur.text x y (at_cmp_op→is_cmp_op q a) w v)
                  λ n wn. holds (wn, omega (arith, step.1), o''))
          (λ _. holds (w, lt, o'))

  parse_primary-Ends :
      (f : ℕ) (p : Parser)
      → IsOpen p
      → 8 * left_over p + 1 ≤ f
      → Ends (Parsed (left_over p)) (parse_primary f p)
  parse_primary-Ends zero p o h = absurd (omega arith)
  parse_primary-Ends (suc f) p o h =
      primary-Ends p.cur.kind (parse_or f) p refl o λ q o' lt. parse_or-Ends f q o' (omega arith)

-- What a program holds: nothing, or a condition over the five variables.
abbrev pub IsCondition : Program → Type 0
IsCondition prog = (n : Node) → prog.root ≡ some n → WellTyped n × (typ n ≡ type_bool)

root-IsCondition :
    (x n : Node)
    → WellTyped x
    → typ x ≡ type_bool
    → some x ≡ some n
    → WellTyped n × (typ n ≡ type_bool)
root-IsCondition x n w b e = subst (λ (o : Node). WellTyped o × (typ o ≡ type_bool)) (cc) (w, b)

finish-Ends : (n : ℕ) (r : Node × Parser) → Parsed n r → Ends IsCondition (finish r)
unfolding finish
finish-Ends n (x, q) (w, lt, o) =
    Ends-if (not (at_end q)) (λ _. refused)
      λ _.
        Ends-if (not (type_eq (typ x) type_bool)) (λ _. refused)
          λ b. holds (λ m e. root-IsCondition x m w (type_eq→eq _ _ (ground arith)) e)

abbrev Closes : List Token → Type 0
Closes [] = ⊥
Closes (t ∷ ts) = LastEof t ts

Closes-cons : (t : Token) (toks : List Token) → Closes toks → Closes (t ∷ toks)
Closes-cons t [] h = absurd h
Closes-cons t (u ∷ us) h = h

Lexed-Closes : {n start : ℕ} {toks : List Token} → Lexed n start toks → Closes toks
Lexed-Closes (close h) = refl
Lexed-Closes (tok {t} {toks} ne v h l) = Closes-cons t toks (Lexed-Closes l)

compile_tokens-Ends_closed :
    (toks : List Token) → Closes toks → Ends IsCondition (compile_tokens toks)
unfolding compile_tokens
compile_tokens-Ends_closed [] o = absurd o
compile_tokens-Ends_closed (t ∷ ts) o =
    Ends-bind
      (parse_or-Ends (parse_fuel (length ts)) (record { cur = t; behind = ts }) o (omega arith))
      (finish-Ends (length ts))

-- On every source the compiler returns: an error, or a program that is blank or a well-typed
-- condition. It never reads past its tokens and never stops for lack of fuel.
pub compile-Ends : (src : Bytes) → Ends IsCondition (compile src)
unfolding compile
compile-Ends src =
    Ends-if (is_blank src) (λ _. holds (λ n e. cc))
      (λ _. Ends-bind (lex-Ends src) λ toks l. compile_tokens-Ends_closed toks (Lexed-Closes l))
