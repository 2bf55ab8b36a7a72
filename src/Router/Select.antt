-- ===== src/Router/Select.antt =====
-- `SelectChannelCtx` of server/internal/router/engine.go: match, candidates, load balancing.
pub mod Routes
pub mod Probing
use hhrouter.Base.{
  ℕ, Bool, true, false, ◌||◌, ◌&&◌, not, Option, none, some, List, [], ◌∷◌, map, if◌then◌else◌, ◌⊎◌,
  inl, inr,
}
use hhrouter.Base.Int.{ℤ, pos, ltb_ℤ}
use hhrouter.Base.Text.{Bytes, bytes_eq, trim_space, atoi?}
use hhrouter.Expr.Ast.{Vars, Program, var_w, var_t, var_tokens, var_group, var_model}
use hhrouter.Model.{Channel, RoutingRule}
use hhrouter.Router.Outcome.{
  Outcome, RouteError, ok, fail, ◌>>=◌, db_error, no_candidate, no_target_for_model,
  no_target_for_override,
}
use hhrouter.Router.Rules.{Json, is_empty, rule_program, any_needs_probe, match_rule_expr}
use hhrouter.Router.Balance.{Rand, load_balance_order}
use hhrouter.Router.Candidates.{candidate_channels}
use hhrouter.Router.Selection.{ProbeResult, Selection}

pub data Prediction : Type 0 where
  predicted : ℤ → ℤ → Prediction
  predict_failed : Bytes → Prediction

-- A routing classifier (server/internal/router/probe): its name, and its answer to a prompt.
pub record Probe : Type 0 where
  pub name : Bytes
  pub predict : Bytes → Prediction

-- What one selection reads from outside: the answers of the two queries (enabled rules in ascending
-- priority, enabled channels), each an error or rows; the option `RouterMaxRetries`; the probe that
-- is configured; the generator; the JSON decoder.
pub record Engine : Type 0 where
  pub find_rules : Bytes ⊎ List RoutingRule
  pub find_channels : Bytes ⊎ List Channel
  pub max_retries_option : Bytes
  pub current_probe : Option Probe
  pub rand : Rand
  pub json : Json

pub record RouteInput : Type 0 where
  pub group : Bytes
  pub model : Bytes
  pub est_tokens : ℤ
  pub prompt : Bytes

abbrev pub query {ℓ} : {A : Type ℓ} → Bytes ⊎ A → Outcome A
query (inl e) = fail (db_error e)
query (inr a) = ok a

unfoldable pub default_max_retries : ℤ
default_max_retries = pos 3

unfoldable pub max_retries : Bytes → ℤ
unfolding trim_space atoi? default_max_retries
max_retries v = elim (atoi? (trim_space v)) [
  | none ↦ default_max_retries
  | some n ↦ if ltb_ℤ (pos 0) n then n else default_max_retries
]

-- exprVars before the probe
abbrev pub request_vars : RouteInput → Vars
request_vars req = record {
  int_vars = (var_tokens, req.est_tokens) ∷ [];
  str_vars = (var_group, req.group) ∷ (var_model, req.model) ∷ [];
}

abbrev pub with_signals : ℤ → ℤ → Vars → Vars
with_signals w t v = record v { int_vars = (var_w, w) ∷ (var_t, t) ∷ v.int_vars }

unfoldable pub record_prediction : Bytes → Prediction → RouteInput → Option ProbeResult × Vars
record_prediction name (predicted w t) req =
    (some (record { w = w; t = t; name = name; err = [] }), with_signals w t (request_vars req))
record_prediction name (predict_failed e) req =
    (some (record { w = pos 0; t = pos 0; name = name; err = e }), request_vars req)

-- The probe step: what is logged of it, and the variables that the expressions are evaluated with.
unfoldable pub run_probe : Bool → Option Probe → RouteInput → Option ProbeResult × Vars
unfolding record_prediction
run_probe false probe req = (none, request_vars req)
run_probe true none req = (none, request_vars req)
run_probe true (some p) req = record_prediction p.name (p.predict req.prompt) req

abbrev pub matched_rule : Option (RoutingRule × Option Program) → Option RoutingRule
matched_rule none = none
matched_rule (some (r, p)) = some r

unfoldable pub effective_model : Option RoutingRule → Bytes → Bytes
unfolding trim_space bytes_eq
effective_model none requested = requested
effective_model (some r) requested =
    if not (bytes_eq (trim_space r.target_model) []) then trim_space r.target_model else requested

-- The error where no channel is left, which names the rule and its target model if there are such.
unfoldable pub no_channel : Option RoutingRule → Bytes → RouteError
unfolding trim_space bytes_eq
no_channel none requested = no_candidate
no_channel (some r) requested =
    if not (bytes_eq (trim_space r.target_model) [])
    then no_target_for_override r.name r.id (trim_space r.target_model) requested
    else no_target_for_model r.name r.id requested

-- Steps 2 and 3, for the rule that was matched.
unfoldable pub balance :
    Engine → RouteInput → Option ProbeResult → Option RoutingRule → List Channel → Outcome Selection
unfolding is_empty no_channel effective_model max_retries
balance engine req probe rule candidates =
    let balanced = do
      (ordered, calls) ← load_balance_order engine.rand 0 candidates
      ok (record {
        rule = rule;
        model = req.model;
        probe = probe;
        effective_model = effective_model rule req.model;
        candidates = ordered;
        max_retries = max_retries engine.max_retries_option;
        cursor = 0;
      })
    in if is_empty candidates then fail (no_channel rule req.model) else balanced

unfoldable pub select_channel_ctx : Engine → RouteInput → Outcome Selection
select_channel_ctx engine req = do
  rules ← query engine.find_rules
  let progs = map rule_program rules
  let probed = run_probe (any_needs_probe progs) engine.current_probe req
  found ← match_rule_expr engine.json rules progs req.group req.model req.est_tokens probed.1
  channels ← query engine.find_channels
  let rule = matched_rule found
  let candidates = candidate_channels engine.json rule (effective_model rule req.model) channels
  balance engine req probed.0 rule candidates

-- `SelectChannel`: no prompt
unfoldable pub select_channel : Engine → Bytes → Bytes → ℤ → Outcome Selection
unfolding select_channel_ctx
select_channel engine group requested est_tokens =
    select_channel_ctx engine
      (record { group = group; model = requested; est_tokens = est_tokens; prompt = [] })
