-- ===== src/Expr/Sound.antt =====
-- `Compile`, then `Program.Eval` (server/internal/router/expr/expr.go): what an expression of a rule
-- decides.
use hhrouter.Base.{true, Option, none, some, ◌≡◌, refl, ◌↔◌}
use hhrouter.Base.Text.{Bytes}
use hhrouter.Expr.Ast.{Vars, Node, Program, eval_program}
use hhrouter.Expr.Result.{ok, Ends-ok}
use hhrouter.Expr.Parser.{compile}
use hhrouter.Expr.Meaning.{Meaning, eval-Meaning}
use hhrouter.Expr.Parses.{IsCondition, compile-Ends}

-- A blank expression asks for nothing.
abbrev pub RootMeans : Vars → Option Node → Type 0
RootMeans v none = Unit
RootMeans v (some n) = Meaning v n

program-RootMeans :
    (v : Vars) (o : Option Node)
    → IsCondition (record { root = o })
    → (eval_program (record { root = o }) v ≡ true) ↔ RootMeans v o
unfolding eval_program
program-RootMeans v none h = ((λ _. tt), λ _. refl)
program-RootMeans v (some n) h = let (w, b) = h n refl in eval-Meaning v w b

-- Where the compiler accepts a source, the program that it returns evaluates to true under exactly
-- those variables for which the tree that it parsed means something true; a blank source is true
-- under all.
pub compile-RootMeans :
    (src : Bytes) (v : Vars) (p : Program)
    → compile src ≡ ok p
    → (eval_program p v ≡ true) ↔ RootMeans v p.root
compile-RootMeans src v p e = program-RootMeans v p.root (Ends-ok (compile-Ends src) e)
