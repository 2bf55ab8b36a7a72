-- ===== src/Expr/Tests.antt =====
-- Runs of the compiler on small sources.
use hhrouter.Base.{arith, ◌≡◌, refl, ◌↔◌, length, ◌||◌, Bool, true, false, [], ◌∷◌, some}
use hhrouter.Base.Int.{pos}
use hhrouter.Base.Text.{Bytes, codes, bytes_eq→eq}
use hhrouter.Expr.Ast.{
  Vars, eval_program, refs, references, lookup, Node, var_w, var_t, var_group, type_int, cmp_node,
  var_ref, int_lit,
}
use hhrouter.Expr.Result.{
  Result, ok, err, ◌>>=◌, unterminated_string, not_a_condition, unexpected_token,
}
use hhrouter.Expr.Parser.{compile}
use hhrouter.Expr.Result.{Ends}
use hhrouter.Expr.Lexer.{lex}
use hhrouter.Expr.Lexes.{Lexed, lex-Ends}
use hhrouter.Expr.Parses.{IsCondition, compile-Ends}
use hhrouter.Expr.Refs.{AgreeAt, eval_program-AgreeAt}
use hhrouter.Expr.Sound.{RootMeans, compile-RootMeans}

abbrev slow_write : Vars
slow_write = record {
  int_vars = (var_w, pos 1) ∷ (var_t, pos 600) ∷ [];
  str_vars = (var_group, codes "vip") ∷ [];
}

abbrev run : Bytes → Vars → Result Bool
run src v = do p ← compile src; ok (eval_program p v)

write_and_long : run (codes "w == 1 && t > 500") slow_write ≡ ok true
unfolding compile eval_program
write_and_long = refl

not_in_group : run (codes "!(group != 'vip') || t<=3") slow_write ≡ ok true
unfolding compile eval_program
not_in_group = refl

blank_matches : run (codes "  ") slow_write ≡ ok true
unfolding compile eval_program
blank_matches = refl

open_string : compile (codes "group == \"vip") ≡ err (unterminated_string 9)
unfolding compile
open_string = refl

number_is_no_condition : compile (codes "t") ≡ err (not_a_condition type_int)
unfolding compile
number_is_no_condition = refl

double_minus : compile (codes "w == 1 )") ≡ err (unexpected_token (codes ")") 7)
unfolding compile
double_minus = refl

-- Where the theorems on the language apply.
abbrev sample : Bytes
sample = codes "w == 1 && t > 500"

compile-Ends_example : Ends IsCondition (compile sample)
compile-Ends_example = compile-Ends sample

lex-Ends_example : Ends (Lexed (length sample) 0) (lex sample)
lex-Ends_example = lex-Ends sample

abbrev is_write : Node
is_write = cmp_node (codes "==") (var_ref var_w type_int) (int_lit 1) true

abbrev fast_write : Vars
fast_write = record slow_write { int_vars = (var_w, pos 1) ∷ [] }

or_nothing : (b : Bool) → (b || false) ≡ true → b ≡ true
or_nothing b h = ground arith

agree :
    (x : Bytes)
    → references (record { root = some is_write }) x ≡ true
    → AgreeAt slow_write fast_write x
unfolding references refs lookup
agree x h = let same : var_w ≡ x = bytes_eq→eq var_w x (or_nothing _ h) in rw (← same) (refl, refl)

eval_program-AgreeAt_example :
    eval_program (record { root = some is_write }) slow_write
    ≡ eval_program (record { root = some is_write }) fast_write
eval_program-AgreeAt_example =
    eval_program-AgreeAt slow_write fast_write (record { root = some is_write }) agree

compile-RootMeans_example :
    (eval_program (record { root = some is_write }) slow_write ≡ true)
    ↔ RootMeans slow_write (some is_write)
unfolding compile
compile-RootMeans_example =
    compile-RootMeans (codes "w == 1") slow_write (record { root = some is_write }) refl
