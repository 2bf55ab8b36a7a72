-- ===== src/Expr/Parser.antt =====
-- The recursive-descent parser and `Compile` of server/internal/router/expr/expr.go. The parser's
-- index only moves forward, so its state is the token it is at and the tokens behind that.
use hhrouter.Base.{
  ℕ, zero, suc, ◌+◌, ◌*◌, Bool, true, false, ◌&&◌, ◌||◌, not, none, some, List, [], ◌∷◌,
  if◌then◌else◌, length,
}
use hhrouter.Base.Text.{Bytes, codes, bytes_eq, is_blank}
use hhrouter.Expr.Ast.{
  type_bool, type_int, type_str, type_eq, Node, bool_lit, int_lit, str_lit, var_ref, not_node,
  logic_node, cmp_node, typ, known_vars, numeric_vars, Program,
}
use hhrouter.Expr.Lexer.{
  TokKind, tk_eof, tk_int, tk_str, tk_bool, tk_ident, tk_op, tk_lparen, tk_rparen, Token, lex,
}
use hhrouter.Expr.Result.{
  Result, ok, err, panic, out_of_fuel, ◌>>=◌, or_requires_boolean, and_requires_boolean,
  not_requires_boolean, cannot_compare_boolean, cannot_compare, missing_paren, unknown_variable,
  unexpected_token, not_a_condition,
}

pub record Parser : Type 0 where
  pub cur : Token
  pub behind : List Token

-- The parser on a token list; reading toks[0] of an empty slice panics.
unfoldable pub parser : List Token → Result Parser
parser [] = panic
parser (t ∷ ts) = ok (record { cur = t; behind = ts })

unfoldable pub move : Token → List Token → Parser
move t [] = record { cur = t; behind = [] }
move t (u ∷ us) = record { cur = u; behind = us }

-- `advance` stays on the last token.
unfoldable pub advance : Parser → Parser
unfolding move
advance p = move p.cur p.behind

unfoldable pub is_eof : TokKind → Bool
is_eof tk_eof = true
is_eof _ = false

unfoldable pub at_end : Parser → Bool
unfolding is_eof
at_end p = is_eof p.cur.kind

unfoldable pub is_op_kind : TokKind → Bool
is_op_kind tk_op = true
is_op_kind _ = false

unfoldable pub is_rparen : TokKind → Bool
is_rparen tk_rparen = true
is_rparen _ = false

-- p.cur().kind == tkOp && p.cur().text == op
unfoldable pub at_op : Bytes → Parser → Bool
unfolding is_op_kind bytes_eq
at_op op p = is_op_kind p.cur.kind && bytes_eq p.cur.text op

unfoldable pub is_cmp_op : Bytes → Bool
unfolding bytes_eq
is_cmp_op s =
    bytes_eq s (codes "==")
    || bytes_eq s (codes "!=")
    || bytes_eq s (codes "<")
    || bytes_eq s (codes "<=")
    || bytes_eq s (codes ">")
    || bytes_eq s (codes ">=")

unfoldable pub at_cmp_op : Parser → Bool
unfolding is_op_kind is_cmp_op
at_cmp_op p = is_op_kind p.cur.kind && is_cmp_op p.cur.text

unfoldable pub both_bool : Node → Node → Bool
unfolding type_eq typ
both_bool l r = type_eq (typ l) type_bool && type_eq (typ r) type_bool

-- What `parseComparison` makes of its two sides.
unfoldable pub compare_nodes : Bytes → Node → Node → Result Node
unfolding type_eq typ
compare_nodes op l r =
    if type_eq (typ l) type_bool || type_eq (typ r) type_bool
    then err (cannot_compare_boolean op)
    else if not (type_eq (typ l) (typ r))
    then err (cannot_compare (typ l) (typ r) op)
    else ok (cmp_node op l r (type_eq (typ l) type_int))

-- The identifier case of `parsePrimary`
unfoldable pub variable : Token → Result Node
unfolding known_vars numeric_vars
variable t =
    if not (known_vars t.text)
    then err (unknown_variable t.text t.start)
    else ok (var_ref t.text (if numeric_vars t.text then type_int else type_str))

unfoldable pub close_paren : Node × Parser → Result (Node × Parser)
unfolding is_rparen advance
close_paren (inner, p) =
    if is_rparen p.cur.kind then ok (inner, advance p) else err (missing_paren p.cur.start)

-- `parsePrimary`, with `parseExpr` handed in for what stands in parentheses.
unfoldable pub primary :
    TokKind → (Parser → Result (Node × Parser)) → Parser → Result (Node × Parser)
unfolding advance variable close_paren
primary tk_lparen parse_expr p = do r ← parse_expr (advance p); close_paren r
primary tk_int parse_expr p = ok (int_lit p.cur.ival, advance p)
primary tk_str parse_expr p = ok (str_lit p.cur.text, advance p)
primary tk_bool parse_expr p = ok (bool_lit p.cur.bval, advance p)
primary tk_ident parse_expr p = do n ← variable p.cur; ok (n, advance p)
primary tk_eof parse_expr p = err (unexpected_token p.cur.text p.cur.start)
primary tk_op parse_expr p = err (unexpected_token p.cur.text p.cur.start)
primary tk_rparen parse_expr p = err (unexpected_token p.cur.text p.cur.start)

-- Each call costs a unit of fuel, since what it leaves of the tokens is no structural part of them.
unfoldable mutual
  unfolding at_op at_cmp_op advance both_bool compare_nodes primary type_eq typ

  -- parseExpr is parseOr.
  pub parse_or : ℕ → Parser → Result (Node × Parser)
  parse_or zero p = out_of_fuel
  parse_or (suc f) p = do (left, q) ← parse_and f p; or_loop f left q

  pub or_loop : ℕ → Node → Parser → Result (Node × Parser)
  or_loop zero left p = out_of_fuel
  or_loop (suc f) left p =
      let more = do
        (right, q) ← parse_and f (advance p)
        let next = or_loop f (logic_node (codes "||") left right) q
        if both_bool left right then next else err or_requires_boolean
      in if at_op (codes "||") p then more else ok (left, p)

  pub parse_and : ℕ → Parser → Result (Node × Parser)
  parse_and zero p = out_of_fuel
  parse_and (suc f) p = do (left, q) ← parse_not f p; and_loop f left q

  pub and_loop : ℕ → Node → Parser → Result (Node × Parser)
  and_loop zero left p = out_of_fuel
  and_loop (suc f) left p =
      let more = do
        (right, q) ← parse_not f (advance p)
        let next = and_loop f (logic_node (codes "&&") left right) q
        if both_bool left right then next else err and_requires_boolean
      in if at_op (codes "&&") p then more else ok (left, p)

  pub parse_not : ℕ → Parser → Result (Node × Parser)
  parse_not zero p = out_of_fuel
  parse_not (suc f) p =
      let negated = do
        (x, q) ← parse_not f (advance p)
        if type_eq (typ x) type_bool then ok (not_node x, q) else err not_requires_boolean
      in let plain = parse_comparison f p in if at_op (codes "!") p then negated else plain

  pub parse_comparison : ℕ → Parser → Result (Node × Parser)
  parse_comparison zero p = out_of_fuel
  parse_comparison (suc f) p = do
    (left, q) ← parse_primary f p
    let more = do
      (right, r) ← parse_primary f (advance q)
      n ← compare_nodes q.cur.text left right
      ok (n, r)
    if at_cmp_op q then more else ok (left, q)

  pub parse_primary : ℕ → Parser → Result (Node × Parser)
  parse_primary zero p = out_of_fuel
  parse_primary (suc f) p = primary p.cur.kind (parse_or f) p

-- Fuel for a parser with `n` tokens behind the one it is at.
abbrev pub parse_fuel : ℕ → ℕ
parse_fuel n = 8 * n + 6

unfoldable pub finish : Node × Parser → Result Program
unfolding at_end type_eq typ
finish (root, p) =
    if not (at_end p)
    then err (unexpected_token p.cur.text p.cur.start)
    else if not (type_eq (typ root) type_bool)
    then err (not_a_condition (typ root))
    else ok (record { root = some root })

unfoldable pub compile_tokens : List Token → Result Program
unfolding parser parse_or finish
compile_tokens toks = do p ← parser toks; r ← parse_or (parse_fuel (length p.behind)) p; finish r

unfoldable pub compile : Bytes → Result Program
unfolding is_blank lex compile_tokens
compile src =
    if is_blank src then ok (record { root = none }) else (do toks ← lex src; compile_tokens toks)
