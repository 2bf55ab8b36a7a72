-- ===== src/Admin.antt =====
-- Routing rules as the admin writes them (server/internal/service/rule_service.go): what Create and
-- Update check, and the row that they hand to the database. encoding/json is a parameter.
pub mod Valid
pub mod Tokens
mod Examples
use hhrouter.Base.{
  ℕ, Bool, true, false, Option, none, some, List, [], ◌∷◌, ◌⊎◌, inl, inr, if◌then◌else◌,
}
use hhrouter.Base.Int.{ℤ, pos}
use hhrouter.Base.Text.{Bytes, codes, trim_space, is_blank}
use hhrouter.Expr.Ast.{Program}
use hhrouter.Expr.Result
use hhrouter.Expr.Parser.{compile}
use hhrouter.Model.{RoutingRule, MatchSpec}

pub data RuleError : Type 0 where
  name_required name_empty : RuleError
  bad_match bad_target_ids : Bytes → RuleError
  bad_expr : Result.ExprError → RuleError

-- `crashed` stands for a compiler that panics or does not return.
pub data Saved {ℓ} (A : Type ℓ) : Type ℓ where
  ok : A → Saved A
  err : RuleError → Saved A
  crashed : Saved A

infixl 5 ◌>>=◌
abbrev pub ◌>>=◌ : {A B : Type 0} → Saved A → (A → Saved B) → Saved B
ok a >>= f = f a
err e >>= f = err e
crashed >>= f = crashed

-- A nil pointer is `none`.
pub record RuleInput : Type 0 where
  pub name : Option Bytes
  pub enabled : Option Bool
  pub priority : Option ℤ
  pub match : Option MatchSpec
  pub target_channel_ids : Option (List ℕ)
  pub target_group : Option Bytes
  pub expr : Option Bytes
  pub target_model : Option Bytes

-- json.Marshal: an error or the bytes
pub record Encoder : Type 0 where
  pub encode_match : MatchSpec → Bytes ⊎ Bytes
  pub encode_ids : List ℕ → Bytes ⊎ Bytes

abbrev pub given {ℓ} : {A : Type ℓ} → Option A → A → A
given none a = a
given (some b) a = b

abbrev pub given_trimmed : Option Bytes → Bytes → Bytes
given_trimmed none s = s
given_trimmed (some t) s = trim_space t

abbrev pub encoded : (Bytes → RuleError) → Bytes ⊎ Bytes → Saved Bytes
encoded bad (inl e) = err (bad e)
encoded bad (inr b) = ok b

unfoldable pub set_match : Encoder → Option MatchSpec → RoutingRule → Saved RoutingRule
set_match enc none rule = ok rule
set_match enc (some spec) rule = do
  b ← encoded bad_match (enc.encode_match spec)
  ok (record rule { match = b })

unfoldable pub set_target_ids : Encoder → Option (List ℕ) → RoutingRule → Saved RoutingRule
set_target_ids enc none rule = ok rule
set_target_ids enc (some ids) rule = do
  b ← encoded bad_target_ids (enc.encode_ids ids)
  ok (record rule { target_channel_ids = b })

unfoldable pub take_expr : Bytes → Result.Result Program → RoutingRule → Saved RoutingRule
take_expr e (Result.Result.ok p) rule = ok (record rule { expr = e })
take_expr e (Result.Result.err x) rule = err (bad_expr x)
take_expr e Result.Result.panic rule = crashed
take_expr e Result.Result.out_of_fuel rule = crashed

unfoldable pub set_expr : Option Bytes → RoutingRule → Saved RoutingRule
unfolding take_expr compile trim_space
set_expr none rule = ok rule
set_expr (some src) rule = take_expr (trim_space src) (compile (trim_space src)) rule

unfoldable pub apply_input : Encoder → RuleInput → RoutingRule → Saved RoutingRule
unfolding set_match set_target_ids set_expr trim_space
apply_input enc input rule = do
  let named : RoutingRule = record rule {
    name = given_trimmed input.name rule.name;
    enabled = given input.enabled rule.enabled;
    priority = given input.priority rule.priority;
  }
  matched ← set_match enc input.match named
  targeted ← set_target_ids enc input.target_channel_ids matched
  grouped ←
      set_expr input.expr
        (record targeted { target_group = given_trimmed input.target_group targeted.target_group })
  ok (record grouped { target_model = given_trimmed input.target_model grouped.target_model })

abbrev pub blank_rule : RoutingRule
blank_rule = record {
  id = 0;
  name = [];
  enabled = true;
  priority = pos 0;
  match = [];
  target_channel_ids = [];
  target_group = [];
  expr = [];
  target_model = [];
}

-- The row that Create inserts. A nil JSON column is the empty list.
abbrev pub or_default : Bytes → Bytes → Bytes
or_default d [] = d
or_default d (c ∷ s) = c ∷ s

abbrev pub with_columns : RoutingRule → RoutingRule
with_columns rule = record rule {
  match = or_default (codes "{}") rule.match;
  target_channel_ids = or_default (codes "[]") rule.target_channel_ids;
}

unfoldable pub create_named : Encoder → RuleInput → Option Bytes → Saved RoutingRule
unfolding apply_input is_blank
create_named enc input none = err name_required
create_named enc input (some name) =
    let made = apply_input enc input blank_rule >>= λ rule. ok (with_columns rule) in
    if is_blank name then err name_required else made

unfoldable pub new_rule : Encoder → RuleInput → Saved RoutingRule
unfolding create_named
new_rule enc input = create_named enc input input.name

-- The row that Update saves over `rule`; a name that is given must not be blank.
unfoldable pub update_named : Encoder → RuleInput → RoutingRule → Option Bytes → Saved RoutingRule
unfolding apply_input is_blank
update_named enc input rule none = apply_input enc input rule
update_named enc input rule (some name) =
    let made = apply_input enc input rule in if is_blank name then err name_empty else made

unfoldable pub updated_rule : Encoder → RuleInput → RoutingRule → Saved RoutingRule
unfolding update_named
updated_rule enc input rule = update_named enc input rule input.name
