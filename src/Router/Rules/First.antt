-- ===== src/Router/Rules/First.antt =====
-- `matchRuleExpr` of server/internal/router/engine.go returns the first rule that applies.
use hhrouter.Base.{
  subst, Bool, true, false, ◌&&◌, not, Option, none, some, List, [], ◌∷◌, ◌++◌, ◌≡◌, refl, ◌⊎◌, inl,
  inr, ap, map, Bool-cases, arith, true_and_false, ◌↔◌,
}
use hhrouter.Base.Int.{ℤ}
use hhrouter.Base.Text.{Bytes, is_blank}
use hhrouter.Base.Predicates.{All}
use hhrouter.Expr.Ast.{Program, Vars, eval_program}
use hhrouter.Expr.Result
use hhrouter.Expr.Parser.{compile}
use hhrouter.Model.{RoutingRule}
use hhrouter.Router.Outcome.{Outcome, Yields}
use hhrouter.Router.Glob.Correct.{Answers}
use hhrouter.Router.Rules.{
  Json, decode_match, rule_matches, rule_program, stored_program, program_passes, match_rule_expr,
}
use hhrouter.Router.Rules.Spec.{SpecHolds, rule_matches-Answers, Applies}

abbrev Compiled : Vars → Result.Result Program → Type 0
Compiled v c = (p : Program) × (c ≡ Result.Result.ok p) × (eval_program p v ≡ true)

passes_iff :
    (v : Vars) (c : Result.Result Program)
    → (program_passes (stored_program c) v ≡ true) ↔ Compiled v c
unfolding program_passes stored_program
passes_iff v (Result.Result.ok p) = (
  (λ h. (p, refl, h)),
  λ (q, e, h). let same : q ≡ p = cc in subst (λ (x : Program). eval_program x v ≡ true) same h,
)
passes_iff v (Result.Result.err e) = ((λ h. cc), λ (q, e, h). cc)
passes_iff v Result.Result.panic = ((λ h. cc), λ (q, e, h). cc)
passes_iff v Result.Result.out_of_fuel = ((λ h. cc), λ (q, e, h). cc)

rule_passes_iff :
    (v : Vars) (r : RoutingRule)
    → (program_passes (rule_program r) v ≡ true) ↔ Compiled v (compile r.expr)
unfolding rule_program
rule_passes_iff v r = passes_iff v (compile r.expr)

gate_open : (b c : Bool) → (not b && not c) ≡ false → (b ≡ true) ⊎ (c ≡ true)
gate_open b c h = ground arith

gate_closed : (b c : Bool) → (not b && not c) ≡ true → (b ≡ false) × (c ≡ false)
gate_closed b c h = ground arith

condition_holds :
    (v : Vars) (r : RoutingRule)
    → (not (is_blank r.expr) && not (program_passes (rule_program r) v)) ≡ false
    → (is_blank r.expr ≡ true) ⊎ Compiled v (compile r.expr)
condition_holds v r h = elim (gate_open _ _ h) [
  | inl blank ↦ inl blank
  | inr passed ↦ inr ((rule_passes_iff v r).0 passed)
]

condition_fails :
    (v : Vars) (r : RoutingRule)
    → (not (is_blank r.expr) && not (program_passes (rule_program r) v)) ≡ true
    → ¬ ((is_blank r.expr ≡ true) ⊎ Compiled v (compile r.expr))
condition_fails v r h c =
    let (blank, failed) = gate_closed _ _ h in
    elim c [
      | inl b ↦ true_and_false b blank
      | inr p ↦ true_and_false ((rule_passes_iff v r).1 p) failed
    ]

-- The first rule that applies, all before it not; or that none applies.
module _ (json : Json) (group requested : Bytes) (est : ℤ) (v : Vars) where
  abbrev pub First : List RoutingRule → Option (RoutingRule × Option Program) → Type 0
  First rules none = All (λ r. ¬ Applies json group requested est v r) rules
  First rules (some (r, p)) =
      (before after : List RoutingRule) × (rules ≡ before ++ r ∷ after)
      × All (λ r'. ¬ Applies json group requested est v r') before
      × Applies json group requested est v r
      × (p ≡ rule_program r)

  First-cons :
      (r : RoutingRule) (rules : List RoutingRule) (o : Option (RoutingRule × Option Program))
      → ¬ Applies json group requested est v r
      → First rules o
      → First (r ∷ rules) o
  First-cons r rules none n h = (n, h)
  First-cons r rules (some (r', p)) n (before, after, e, bs, a, ep) =
      (r ∷ before, after, ap (◌∷◌ r) e, (n, bs), a, ep)

  abbrev found : List RoutingRule → Outcome (Option (RoutingRule × Option Program))
  found rules = match_rule_expr json rules (map rule_program rules) group requested est v

  -- `matchRuleExpr`, given each rule's own compiled expression, returns the first rule in the list
  -- that applies to the request, with its program, and nothing if none applies.
  pub match_rule_expr-First : (rules : List RoutingRule) → Yields (First rules) (found rules)
  unfolding match_rule_expr
  match_rule_expr-First [] = (none, refl, tt)
  match_rule_expr-First (r ∷ rules) =
      step (rule_matches-Answers (decode_match json r.match) group requested est)
        (match_rule_expr-First rules)
    where
      step :
          Answers
            (SpecHolds (decode_match json r.match) group requested est)
            (rule_matches (decode_match json r.match) group requested est)
          → Yields (First rules) (found rules)
          → Yields (First (r ∷ rules)) (found (r ∷ rules))
      step (false, e, (sound, complete)) (o, eq, h) =
          rw (e) (o, eq, First-cons r rules o (λ a. true_and_false (complete a.predicate) refl) h)
      step (true, e, (sound, complete)) (o, eq, h) =
          elim (Bool-cases (not (is_blank r.expr) && not (program_passes (rule_program r) v))) [
            | inl skip ↦
                rw (e, skip)
                  (o, eq, First-cons r rules o (λ a. condition_fails v r skip a.condition) h)
            | inr take ↦
                rw (e, take)
                  (
                    some (r, rule_program r),
                    refl,
                    (
                      [],
                      rules,
                      refl,
                      tt,
                      record { predicate = sound refl; condition = condition_holds v r take },
                      refl,
                    ),
                  )
          ]
