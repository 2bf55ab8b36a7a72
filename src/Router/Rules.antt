-- ===== src/Router/Rules.antt =====
-- Rule matching of server/internal/router/engine.go: `ruleMatches` and `matchRuleExpr`.
pub mod Spec
pub mod First
use hhrouter.Base.{
  ℕ, Bool, true, false, ◌&&◌, ◌||◌, not, Option, none, some, List, [], ◌∷◌, map, if◌then◌else◌,
}
use mathlib.Core.List.{tail}
use hhrouter.Base.Int.{ℤ, pos, ltb_ℤ}
use hhrouter.Base.Text.{Bytes, contains_string, is_blank}
use hhrouter.Expr.Ast.{Program, Vars, eval_program, references, var_w, var_t}
use hhrouter.Expr.Result
use hhrouter.Expr.Parser.{compile}
use hhrouter.Model.{RoutingRule, MatchSpec}
use hhrouter.Router.Outcome.{Outcome, ok, panic, ◌>>=◌, of_option}
use hhrouter.Router.Glob.{model_matches}

-- What json.Unmarshal leaves in a zero-valued target, its error dropped, for each JSON column.
pub record Json : Type 0 where
  pub spec : Bytes → MatchSpec
  pub ids : Bytes → List ℕ
  pub names : Bytes → List Bytes
  pub mapping : Bytes → List (Bytes × Bytes)

abbrev pub empty_spec : MatchSpec
empty_spec = record { groups = []; models = []; min_tokens = pos 0; max_tokens = pos 0 }

unfoldable pub is_empty {ℓ} : {A : Type ℓ} → List A → Bool
is_empty [] = true
is_empty (x ∷ xs) = false

unfoldable pub decode_match : Json → Bytes → MatchSpec
unfolding is_empty
decode_match json raw = if is_empty raw then empty_spec else json.spec raw

unfoldable pub any_model_matches : List Bytes → Bytes → Option Bool
any_model_matches [] requested = some false
any_model_matches (p ∷ patterns) requested = elim (model_matches p requested) [
  | none ↦ none
  | some b ↦ elim b [ true ↦ some true | false ↦ any_model_matches patterns requested ]
]

-- The test of the model dimension, which runs `anyModelMatches` only if there are patterns.
unfoldable pub models_pass : List Bytes → Bytes → Option Bool
unfolding is_empty any_model_matches
models_pass patterns requested =
    if is_empty patterns then some true else any_model_matches patterns requested

unfoldable pub groups_pass : List Bytes → Bytes → Bool
unfolding is_empty contains_string
groups_pass groups group = is_empty groups || contains_string groups group

unfoldable pub tokens_pass : MatchSpec → ℤ → Bool
tokens_pass spec est_tokens =
    if ltb_ℤ (pos 0) spec.min_tokens && ltb_ℤ est_tokens spec.min_tokens
    then false
    else if ltb_ℤ (pos 0) spec.max_tokens && ltb_ℤ spec.max_tokens est_tokens
    then false
    else true

unfoldable pub rule_matches : MatchSpec → Bytes → Bytes → ℤ → Option Bool
unfolding groups_pass models_pass tokens_pass
rule_matches spec group requested est_tokens =
    if not (groups_pass spec.groups group)
    then some false
    else elim (models_pass spec.models requested) [
      | none ↦ none
      | some b ↦ if not b then some false else some (tokens_pass spec est_tokens)
    ]

-- A stored expression as the engine holds it: nil if it does not compile. (`compile` neither panics
-- nor runs out of fuel, so those cases do not arise.)
unfoldable pub stored_program : Result.Result Program → Option Program
stored_program (Result.Result.ok p) = some p
stored_program (Result.Result.err e) = none
stored_program Result.Result.panic = none
stored_program Result.Result.out_of_fuel = none

unfoldable pub rule_program : RoutingRule → Option Program
unfolding stored_program
rule_program r = stored_program (compile r.expr)

unfoldable pub needs_probe : Option Program → Bool
unfolding references
needs_probe none = false
needs_probe (some p) = references p var_w || references p var_t

-- The loop that compiles the rules' expressions and collects `needProbe`.
unfoldable pub any_needs_probe : List (Option Program) → Bool
unfolding needs_probe
any_needs_probe [] = false
any_needs_probe (p ∷ ps) = needs_probe p || any_needs_probe ps

-- p != nil && p.Eval(vars)
unfoldable pub program_passes : Option Program → Vars → Bool
unfolding eval_program
program_passes none v = false
program_passes (some p) v = eval_program p v

-- progs[i]
abbrev pub first_program : List (Option Program) → Outcome (Option Program)
first_program [] = panic
first_program (p ∷ ps) = ok p

unfoldable pub match_rule_expr :
    Json
    → List RoutingRule
    → List (Option Program)
    → Bytes
    → Bytes
    → ℤ
    → Vars
    → Outcome (Option (RoutingRule × Option Program))
unfolding decode_match rule_matches program_passes
match_rule_expr json [] progs group requested est_tokens v = ok none
match_rule_expr json (r ∷ rules) progs group requested est_tokens v =
    let rest = match_rule_expr json rules (tail progs) group requested est_tokens v in
    do
      matched ← of_option (rule_matches (decode_match json r.match) group requested est_tokens)
      let tried = do
        p ← first_program progs
        if not (is_blank r.expr) && not (program_passes p v) then rest else ok (some (r, p))
      if matched then tried else rest
