-- ===== src/Router/Select/Probing.antt =====
-- `SelectChannelCtx` of server/internal/router/engine.go asks the probe only if an expression needs
-- it, which changes no match.
use hhrouter.Base.{
  Bool, true, false, ◌||◌, Option, none, some, List, [], ◌∷◌, map, ◌≡◌, refl, sym, ◌∙◌, Bool-cases,
  inl, inr, true_and_false, arith,
}
use hhrouter.Base.Int.{ℤ}
use hhrouter.Base.Text.{Bytes, bytes_eq, bytes_eq→eq}
use hhrouter.Expr.Ast.{Vars, Program, lookup, references, var_w, var_t}
use hhrouter.Expr.Refs.{eval_program-AgreeAt}
use hhrouter.Model.{RoutingRule}
use hhrouter.Router.Rules.{
  Json, rule_program, needs_probe, any_needs_probe, program_passes, match_rule_expr,
}
use hhrouter.Router.Select.{Engine, RouteInput, request_vars, with_signals, run_probe}

-- A key that is not w or t reads the same with the signals set.
lookup_past :
    (k : Bytes) (a : ℤ) (m : List (Bytes × ℤ)) (x : Bytes)
    → bytes_eq k x ≡ false
    → lookup ((k, a) ∷ m) x ≡ lookup m x
unfolding lookup
lookup_past k a m x h = rw h

referenced_apart :
    (p : Program) (k x : Bytes)
    → references p k ≡ false
    → references p x ≡ true
    → bytes_eq k x ≡ false
referenced_apart p k x h hx = elim (Bool-cases (bytes_eq k x)) [
  | inl e ↦ absurd (true_and_false hx (rw (← bytes_eq→eq k x e) h))
  | inr e ↦ e
]

or_false : (a b : Bool) → (a || b) ≡ false → (a ≡ false) × (b ≡ false)
or_false a b h = ground arith

program_passes_signals :
    (p : Option Program) (w t : ℤ) (v : Vars)
    → needs_probe p ≡ false
    → program_passes p (with_signals w t v) ≡ program_passes p v
unfolding needs_probe program_passes
program_passes_signals none w t v h = refl
program_passes_signals (some p) w t v h =
    let (no_w, no_t) = or_false _ _ h in
    eval_program-AgreeAt (with_signals w t v) v p λ x used. (
      lookup_past var_w w ((var_t, t) ∷ v.int_vars) x (referenced_apart p var_w x no_w used)
          ∙ lookup_past var_t t v.int_vars x (referenced_apart p var_t x no_t used),
      refl,
    )

-- If no program of the list references w or t, the match comes out the same whatever the signals.
pub match_rule_expr_signals :
    (json : Json) (rules : List RoutingRule) (progs : List (Option Program))
    (group requested : Bytes) (est w t : ℤ) (v : Vars)
    → any_needs_probe progs ≡ false
    → match_rule_expr json rules progs group requested est (with_signals w t v)
      ≡ match_rule_expr json rules progs group requested est v
unfolding match_rule_expr any_needs_probe
match_rule_expr_signals json [] progs group requested est w t v h = refl
match_rule_expr_signals json (r ∷ rules) [] group requested est w t v h =
    rw (match_rule_expr_signals json rules [] group requested est w t v h)
match_rule_expr_signals json (r ∷ rules) (p ∷ progs) group requested est w t v h =
    let (here, later) = or_false _ _ h in
    rw (
      program_passes_signals p w t v here,
      match_rule_expr_signals json rules progs group requested est w t v later,
    )

-- Where no rule's expression references w or t the engine does not ask the probe, and finds the rule
-- that it would find with any signals that the probe might have answered.
pub unprobed_match :
    (engine : Engine) (req : RouteInput) (rules : List RoutingRule) (w t : ℤ)
    → any_needs_probe (map rule_program rules) ≡ false
    → let progs = map rule_program rules in
      let probed = run_probe (any_needs_probe progs) engine.current_probe req in
      (probed.0 ≡ none)
      × (match_rule_expr engine.json rules progs req.group req.model req.est_tokens probed.1
          ≡ match_rule_expr engine.json rules progs req.group req.model req.est_tokens
              (with_signals w t (request_vars req)))
unfolding run_probe
unprobed_match engine req rules w t h = rw h (
  refl,
  sym (
      match_rule_expr_signals engine.json rules (map rule_program rules) req.group req.model
        req.est_tokens w t (request_vars req) h),
)
