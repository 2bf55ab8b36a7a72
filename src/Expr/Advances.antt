-- ===== src/Expr/Advances.antt =====
-- Steps of the parser of server/internal/router/expr/expr.go that read a token, and what they leave.
use hhrouter.Base.{
  ℕ, suc, ◌<◌, ◌≡◌, refl, ◌≢◌, true, false, List, [], ◌∷◌, arith, length, and_true, not, ◌||◌,
}
use hhrouter.Base.Text.{Bytes}
use hhrouter.Expr.Ast.{ValType, type_bool, type_eq, Node, typ, known_vars}
use hhrouter.Expr.Result.{Result, ok, Ends, holds, refused, Ends-if, Ends-bind, Ends-map}
use hhrouter.Expr.Lexer.{
  TokKind, tk_eof, tk_int, tk_str, tk_bool, tk_ident, tk_op, tk_lparen, tk_rparen, Token,
}
use hhrouter.Expr.Parser.{
  Parser, advance, at_op, at_cmp_op, both_bool, compare_nodes, variable, close_paren, primary,
  is_op_kind, is_rparen, is_cmp_op,
}
use hhrouter.Expr.Typing.{WellTyped, is_bool, is_int, is_str, is_var, is_cmp, type_eq→eq}

-- The last token is the end of the file.
abbrev pub LastEof : Token → List Token → Type 0
LastEof t [] = t.kind ≡ tk_eof
LastEof t (u ∷ us) = LastEof u us

abbrev pub IsOpen : Parser → Type 0
IsOpen p = LastEof p.cur p.behind

abbrev pub left_over : Parser → ℕ
left_over p = length p.behind

-- Past a token that is not the end, `advance` leaves one token less.
abbrev pub Advanced : Parser → Type 0
Advanced p = IsOpen (advance p) × (suc (left_over (advance p)) ≡ left_over p)

advance-Advanced_at :
    (t : Token) (ts : List Token)
    → LastEof t ts
    → t.kind ≢ tk_eof
    → Advanced (record { cur = t; behind = ts })
unfolding advance
advance-Advanced_at t [] o ne = absurd (ne o)
advance-Advanced_at t (u ∷ us) o ne = (o, refl)

advance-Advanced : (p : Parser) → IsOpen p → p.cur.kind ≢ tk_eof → Advanced p
advance-Advanced p o ne = advance-Advanced_at p.cur p.behind o ne

op_not_eof : (p : Parser) (k : TokKind) → is_op_kind k ≡ true → k ≢ tk_eof
unfolding is_op_kind
op_not_eof p k h e = ground arith

pub at_op-Advanced : (op : Bytes) (p : Parser) → IsOpen p → at_op op p ≡ true → Advanced p
unfolding at_op
at_op-Advanced op p o h = advance-Advanced p o (op_not_eof p p.cur.kind (and_true _ _ h).0)

pub at_cmp_op-Advanced : (p : Parser) → IsOpen p → at_cmp_op p ≡ true → Advanced p
unfolding at_cmp_op
at_cmp_op-Advanced p o h = advance-Advanced p o (op_not_eof p p.cur.kind (and_true _ _ h).0)

pub at_cmp_op→is_cmp_op : (p : Parser) → at_cmp_op p ≡ true → is_cmp_op p.cur.text ≡ true
unfolding at_cmp_op
at_cmp_op→is_cmp_op p h = (and_true _ _ h).1

-- A tree and the parser behind it, with fewer than `n` tokens left.
abbrev pub Parsed : ℕ → Node × Parser → Type 0
Parsed n (x, q) = WellTyped x × (left_over q < n) × IsOpen q

pub both_bool→eq : (l r : Node) → both_bool l r ≡ true → (typ l ≡ type_bool) × (typ r ≡ type_bool)
unfolding both_bool
both_bool→eq l r h = let (a, b) = and_true _ _ h in (type_eq→eq _ _ a, type_eq→eq _ _ b)

compared_not_bool :
    (a b : ValType) → (type_eq a type_bool || type_eq b type_bool) ≡ false → a ≢ type_bool
unfolding type_eq
compared_not_bool a b h e = ground arith

pub compare_nodes-Ends :
    (op : Bytes) (l r : Node)
    → is_cmp_op op ≡ true
    → WellTyped l
    → WellTyped r
    → Ends WellTyped (compare_nodes op l r)
unfolding compare_nodes
compare_nodes-Ends op l r h wl wr =
    Ends-if (type_eq (typ l) type_bool || type_eq (typ r) type_bool) (λ _. refused)
      λ a.
        Ends-if (not (type_eq (typ l) (typ r))) (λ _. refused)
          λ b. holds (
            is_cmp h wl wr (compared_not_bool (typ l) (typ r) a) (type_eq→eq _ _ (ground arith))
              refl)

variable-Ends : (t : Token) → Ends WellTyped (variable t)
unfolding variable
variable-Ends t =
    Ends-if (not (known_vars t.text)) (λ _. refused) λ k. holds (is_var _ _ (ground arith) refl)

rparen_not_eof : (k : TokKind) → is_rparen k ≡ true → k ≢ tk_eof
unfolding is_rparen
rparen_not_eof k h e = ground arith

close_paren-Ends : (n : ℕ) (r : Node × Parser) → Parsed n r → Ends (Parsed n) (close_paren r)
unfolding close_paren
close_paren-Ends n (x, q) (w, lt, o) =
    Ends-if (is_rparen q.cur.kind)
      (λ h.
        let step : Advanced q = advance-Advanced q o (rparen_not_eof q.cur.kind h) in
        holds (w, omega (arith, step.1), step.0))
      (λ _. refused)

-- An atom: the parser moves past one token.
atom-Ends :
    (p : Parser) (x : Node)
    → IsOpen p
    → p.cur.kind ≢ tk_eof
    → WellTyped x
    → Ends (Parsed (left_over p)) (ok (x, advance p))
atom-Ends p x o ne w =
    let step : Advanced p = advance-Advanced p o ne in holds (w, omega (arith, step.1), step.0)

pub primary-Ends :
    (k : TokKind) (parse_expr : Parser → Result (Node × Parser)) (p : Parser)
    → p.cur.kind ≡ k
    → IsOpen p
    → ((q : Parser)
        → IsOpen q
        → left_over q < left_over p
        → Ends (Parsed (left_over q)) (parse_expr q))
    → Ends (Parsed (left_over p)) (primary k parse_expr p)
unfolding primary
primary-Ends tk_lparen parse_expr p e o ih =
    let step : Advanced p = advance-Advanced p o (λ k. cc) in
    Ends-bind
      (Ends-map (ih (advance p) step.0 (omega (arith, step.1)))
        (λ (x, q) (w, lt, o'). (w, omega (arith, step.1), o')))
      (close_paren-Ends (left_over p))
primary-Ends tk_int parse_expr p e o ih = atom-Ends p _ o (λ k. cc) (is_int _)
primary-Ends tk_str parse_expr p e o ih = atom-Ends p _ o (λ k. cc) (is_str _)
primary-Ends tk_bool parse_expr p e o ih = atom-Ends p _ o (λ k. cc) (is_bool _)
primary-Ends tk_ident parse_expr p e o ih =
    Ends-bind (variable-Ends p.cur) λ x w. atom-Ends p x o (λ k. cc) w
primary-Ends tk_eof parse_expr p e o ih = refused
primary-Ends tk_op parse_expr p e o ih = refused
primary-Ends tk_rparen parse_expr p e o ih = refused
