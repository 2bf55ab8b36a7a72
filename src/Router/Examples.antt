-- ===== src/Router/Examples.antt =====
-- A small router for the theorems on server/internal/router/engine.go to run on: a premium channel,
-- two shared ones, and two rules.
use hhrouter.Base.{
  ℕ, ◌-◌, ◌≡◌, refl, true, false, Option, none, some, List, [], ◌∷◌, map, inr, arith,
}
use hhrouter.Base.Int.{ℤ, pos}
use hhrouter.Base.Text.{Bytes, codes}
use hhrouter.Expr.Parser.{compile}
use hhrouter.Expr.Ast.{Program}
use hhrouter.Model.{Channel, RoutingRule, channel_enabled}
use hhrouter.Router.Outcome.{ok, Yields}
use hhrouter.Router.Glob.{model_matches, Matches}
use hhrouter.Router.Glob.Correct.{Answers, model_matches-Answers}
use hhrouter.Router.Rules.{
  Json, empty_spec, rule_matches, rule_program, any_needs_probe, match_rule_expr,
}
use hhrouter.Router.Rules.Spec.{SpecHolds, rule_matches-Answers}
use hhrouter.Router.Rules.First.{First, match_rule_expr-First}
use hhrouter.Router.Balance.{Rand, effective_weight, weighted_shuffle, load_balance_order}
use hhrouter.Router.Balance.Shuffle.{
  weight_sum, Picks, Shuffled, weighted_shuffle-Shuffled, weighted_shuffle_head,
}
use hhrouter.Router.Balance.Order.{Balanced, load_balance_order-Balanced}
use hhrouter.Router.Candidates.{candidate_channels}
use hhrouter.Router.Candidates.Spec.{Eligible, Selects, candidate_channels-Selects}
use hhrouter.Router.Selection.{Selection}
use hhrouter.Router.Select.{
  Engine, RouteInput, run_probe, request_vars, with_signals, matched_rule, select_channel_ctx,
}
use hhrouter.Router.Select.Routes.{Routed, seen_vars, select_channel_ctx-Routed}
use hhrouter.Router.Select.Probing.{unprobed_match}

abbrev channel : ℕ → ℤ → ℤ → Channel
channel id priority weight = record {
  id = id;
  name = codes "up";
  kind = codes "openai";
  base_url = [];
  key = [];
  region = [];
  models = codes "gpt";
  model_mapping = [];
  use_inference_profile = true;
  auto_cache_system = false;
  group = codes "shared";
  priority = priority;
  weight = weight;
  status = channel_enabled;
}

abbrev premium : Channel
premium = channel 1 (pos 10) (pos 1)

abbrev first_shared : Channel
first_shared = channel 2 (pos 0) (pos 3)

abbrev second_shared : Channel
second_shared = channel 3 (pos 0) (pos 0)

abbrev channels : List Channel
channels = first_shared ∷ premium ∷ second_shared ∷ []

-- A decoder that reads a list of names as one name, and a predicate as a list of groups.
abbrev plain_json : Json
plain_json = record {
  spec = λ raw. record empty_spec { groups = raw ∷ [] };
  ids = λ raw. [];
  names = λ raw. raw ∷ [];
  mapping = λ raw. [];
}

abbrev rule : ℕ → Bytes → Bytes → RoutingRule
rule id groups condition = record {
  id = id;
  name = codes "r";
  enabled = true;
  priority = pos 0;
  match = groups;
  target_channel_ids = [];
  target_group = codes "shared";
  expr = condition;
  target_model = [];
}

abbrev rules : List RoutingRule
rules = rule 1 (codes "vip") (codes "tokens > 100") ∷ rule 2 (codes "free") [] ∷ []

-- A generator that answers the same remainder of each bound.
abbrev last : Rand
last k n = n - 1

abbrev engine : Engine
engine = record {
  find_rules = inr rules;
  find_channels = inr channels;
  max_retries_option = codes "2";
  current_probe = none;
  rand = last;
  json = plain_json;
}

abbrev request : RouteInput
request = record { group = codes "free"; model = codes "gpt"; est_tokens = pos 20; prompt = [] }

select_channel_ctx-Routed_example :
    (found : Option (RoutingRule × Option Program)) × First plain_json
      (codes "free")
      (codes "gpt")
      (pos 20)
      (seen_vars engine request rules)
      rules
      found
    × Routed engine request (matched_rule found) channels (select_channel_ctx engine request)
unfolding effective_weight
select_channel_ctx-Routed_example =
    select_channel_ctx-Routed engine request rules channels refl refl (omega arith)

model_matches-Answers_example :
    Answers
      (Matches (codes "claude-*") (codes "claude-opus"))
      (model_matches (codes "claude-*") (codes "claude-opus"))
model_matches-Answers_example = model_matches-Answers (codes "claude-*") (codes "claude-opus")

load_balance_order-Balanced_example :
    Yields (Balanced channels) (load_balance_order last 0 channels)
unfolding effective_weight
load_balance_order-Balanced_example = load_balance_order-Balanced last 0 channels (omega arith)

match_rule_expr-First_example :
    Yields (First plain_json (codes "free") (codes "gpt") (pos 20) (request_vars request) rules) (
      match_rule_expr plain_json rules
        (map rule_program rules)
        (codes "free")
        (codes "gpt")
        (pos 20)
        (request_vars request))
match_rule_expr-First_example =
    match_rule_expr-First plain_json (codes "free") (codes "gpt") (pos 20) (request_vars request)
      rules

abbrev free_rule : Option RoutingRule
free_rule = some (rule 2 (codes "free") [])

candidate_channels-Selects_example :
    Selects
      (Eligible plain_json free_rule (codes "gpt"))
      channels
      (candidate_channels plain_json free_rule (codes "gpt") channels)
candidate_channels-Selects_example =
    candidate_channels-Selects plain_json free_rule (codes "gpt") channels

abbrev selection : Selection
selection = record {
  rule = none;
  model = codes "gpt";
  probe = none;
  effective_model = codes "gpt";
  candidates = channels;
  max_retries = pos 2;
  cursor = 0;
}

weighted_shuffle-Shuffled_example : Yields (Shuffled channels) (weighted_shuffle last 0 channels)
unfolding effective_weight
weighted_shuffle-Shuffled_example = weighted_shuffle-Shuffled last 0 channels (omega arith)

weighted_shuffle_head_example :
    (j : ℕ) × (d : Channel) × (others : List Channel) × (k' : ℕ) × (weighted_shuffle last 0 channels
      ≡ ok (d ∷ others, k'))
    × Picks channels (last 0 (weight_sum channels)) j d
unfolding effective_weight
weighted_shuffle_head_example =
    weighted_shuffle_head last 0 first_shared (premium ∷ second_shared ∷ []) (omega arith)
      (omega arith)

unprobed_match_example :
    ((run_probe (any_needs_probe (map rule_program rules)) none request).0 ≡ none)
    × (match_rule_expr plain_json rules
          (map rule_program rules)
          (codes "free")
          (codes "gpt")
          (pos 20)
          (run_probe (any_needs_probe (map rule_program rules)) none request).1
        ≡ match_rule_expr plain_json rules
            (map rule_program rules)
            (codes "free")
            (codes "gpt")
            (pos 20)
            (with_signals (pos 1) (pos 600) (request_vars request)))
unfolding any_needs_probe rule_program compile
unprobed_match_example = unprobed_match engine request rules (pos 1) (pos 600) refl

rule_matches-Answers_example :
    Answers
      (SpecHolds
        (record empty_spec { models = codes "gpt*" ∷ [] })
        (codes "vip")
        (codes "gpt-4")
        (pos 9))
      (rule_matches
        (record empty_spec { models = codes "gpt*" ∷ [] })
        (codes "vip")
        (codes "gpt-4")
        (pos 9))
rule_matches-Answers_example =
    rule_matches-Answers (record empty_spec { models = codes "gpt*" ∷ [] }) (codes "vip")
      (codes "gpt-4") (pos 9)
