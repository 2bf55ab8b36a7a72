-- ===== src/Router/Select/Routes.antt =====
-- What `SelectChannelCtx` of server/internal/router/engine.go promises: the first rule that applies
-- decides, and the candidates are the eligible channels, balanced.
use hhrouter.Base.{◌^◌, ◌≤◌, ◌<◌, Option, List, [], ◌∷◌, map, ◌≡◌, refl, inr, ◌≢◌, arith}
use hhrouter.Expr.Ast.{Vars, Program}
use hhrouter.Model.{Channel, RoutingRule}
use hhrouter.Router.Outcome.{Outcome, ok, fail}
use hhrouter.Router.Rules.{is_empty, rule_program, any_needs_probe}
use hhrouter.Router.Rules.First.{First, match_rule_expr-First}
use hhrouter.Router.Balance.Shuffle.{weight_sum}
use hhrouter.Router.Balance.Order.{Balanced, load_balance_order-Balanced}
use hhrouter.Router.Candidates.Spec.{
  Eligible, Selects, none_left, kept, dropped, candidate_channels-Selects,
}
use hhrouter.Router.Selection.{ProbeResult, Selection}
use hhrouter.Router.Select.{
  Engine, RouteInput, run_probe, matched_rule, effective_model, no_channel, balance,
  select_channel_ctx,
}

-- The eligible channels of a request, and what becomes of them.
module _ (engine : Engine) (req : RouteInput) where
  -- The specification of a selection among `channels` under a rule: an error that names the rule if
  -- no channel is eligible, else all eligible channels, by priority, from the start.
  pub data Routed (rule : Option RoutingRule) (channels : List Channel)
      : Outcome Selection → Type 0 where
    refused :
        Selects (Eligible engine.json rule (effective_model rule req.model)) channels []
        → Routed rule channels (fail (no_channel rule req.model))
    routed :
        (eligible : List Channel) (s : Selection)
        → Selects (Eligible engine.json rule (effective_model rule req.model)) channels eligible
        → eligible ≢ []
        → s.rule ≡ rule
        → s.effective_model ≡ effective_model rule req.model
        → Balanced eligible (s.candidates, 0)
        → s.cursor ≡ 0
        → Routed rule channels (ok s)

  balance-Routed :
      (probe : Option ProbeResult) (rule : Option RoutingRule) (channels candidates : List Channel)
      → Selects (Eligible engine.json rule (effective_model rule req.model)) channels candidates
      → weight_sum candidates < 2 ^ 63
      → Routed rule channels (balance engine req probe rule candidates)
  unfolding balance is_empty
  balance-Routed probe rule channels [] sel fits = refused sel
  balance-Routed probe rule channels (c ∷ cs) sel fits =
      let ((out, calls), eq, b) = load_balance_order-Balanced engine.rand 0 (c ∷ cs) fits in
      rw eq (
        routed (c ∷ cs) _ sel (λ e. cc) refl refl (record { perm = b.perm; sorted = b.sorted })
          refl)

weight_sum-Selects :
    {P : Channel → Type 0} {cs out : List Channel}
    → Selects P cs out
    → weight_sum out ≤ weight_sum cs
weight_sum-Selects none_left = omega arith
weight_sum-Selects (kept p s) = omega (arith, weight_sum-Selects s)
weight_sum-Selects (dropped n s) = omega (arith, weight_sum-Selects s)

-- The variables that the expressions of `rules` see: with the probe's signals if any needs them.
abbrev pub seen_vars : Engine → RouteInput → List RoutingRule → Vars
seen_vars engine req rules =
    (run_probe (any_needs_probe (map rule_program rules)) engine.current_probe req).1

-- If both queries return rows and the weights of the channels fit an int64, a selection follows the
-- specification: `found` is the first rule in the order of the query that applies, or none, and the
-- result is what `Routed` says for it, an error included. No panic is reached.
pub select_channel_ctx-Routed :
    (engine : Engine) (req : RouteInput) (rules : List RoutingRule) (channels : List Channel)
    → engine.find_rules ≡ inr rules
    → engine.find_channels ≡ inr channels
    → weight_sum channels < 2 ^ 63
    → (found : Option (RoutingRule × Option Program)) × First engine.json req.group req.model
        req.est_tokens
        (seen_vars engine req rules)
        rules
        found
      × Routed engine req (matched_rule found) channels (select_channel_ctx engine req)
unfolding select_channel_ctx
select_channel_ctx-Routed engine req rules channels er ec fits =
    let (found, eq, first) =
      match_rule_expr-First engine.json req.group req.model req.est_tokens
        (seen_vars engine req rules) rules in
    let rule = matched_rule found in
    let sel =
      candidate_channels-Selects engine.json rule (effective_model rule req.model) channels in
    (
      found,
      first,
      simp (er, eq, ec)
          (balance-Routed engine req _ rule channels _ sel (omega (arith, weight_sum-Selects sel))),
    )
