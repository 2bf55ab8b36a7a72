-- ===== src/Admin/Valid.antt =====
-- What `RuleService` (server/internal/service/rule_service.go) stores.
use hhrouter.Base.{Bool-cases, ◌≡◌, refl, Option, none, some, ◌⊎◌, inl, inr, List, ℕ}
use hhrouter.Base.Text.{Bytes, trim_space, is_blank}
use hhrouter.Expr.Ast.{Program}
use hhrouter.Expr.Result
use hhrouter.Expr.Parser.{compile}
use hhrouter.Expr.Parses.{IsCondition, compile-Ends}
use hhrouter.Model.{RoutingRule, MatchSpec}
use hhrouter.Admin.{
  RuleError, Saved, ok, err, ◌>>=◌, RuleInput, Encoder, encoded, bad_match, bad_target_ids,
  set_match, set_target_ids, take_expr, set_expr, apply_input, blank_rule, create_named,
  update_named, new_rule, updated_rule,
}

-- The engine can compile the rule's expression.
abbrev pub Compiles : RoutingRule → Type 0
Compiles rule = (p : Program) × (compile rule.expr ≡ Result.Result.ok p)

-- An error, or a row that `P` holds of; no crash.
pub data Stores (P : RoutingRule → Type 0) : Saved RoutingRule → Type 0 where
  refused : {e : RuleError} → Stores P (err e)
  stored : {rule : RoutingRule} → P rule → Stores P (ok rule)

Stores-bind :
    {P Q : RoutingRule → Type 0} {r : Saved RoutingRule} {f : RoutingRule → Saved RoutingRule}
    → Stores P r
    → ((rule : RoutingRule) → P rule → Stores Q (f rule))
    → Stores Q (r >>= f)
Stores-bind refused k = refused
Stores-bind (stored {rule} h) k = k rule h

set_match-Stores :
    (enc : Encoder) (o : Option MatchSpec) (rule : RoutingRule)
    → Compiles rule
    → Stores Compiles (set_match enc o rule)
unfolding set_match
set_match-Stores enc none rule h = stored h
set_match-Stores enc (some spec) rule h = done (enc.encode_match spec)
  where
    done :
        (x : Bytes ⊎ Bytes)
        → Stores Compiles (encoded bad_match x >>= λ b. ok (record rule { match = b }))
    done (inl e) = refused
    done (inr b) = stored h

set_target_ids-Stores :
    (enc : Encoder) (o : Option (List ℕ)) (rule : RoutingRule)
    → Compiles rule
    → Stores Compiles (set_target_ids enc o rule)
unfolding set_target_ids
set_target_ids-Stores enc none rule h = stored h
set_target_ids-Stores enc (some ids) rule h = done (enc.encode_ids ids)
  where
    done :
        (x : Bytes ⊎ Bytes)
        → Stores Compiles
            (encoded bad_target_ids x >>= λ b. ok (record rule { target_channel_ids = b }))
    done (inl e) = refused
    done (inr b) = stored h

take_expr-Stores :
    (e : Bytes) (c : Result.Result Program) (rule : RoutingRule)
    → Result.Ends IsCondition c
    → compile e ≡ c
    → Stores Compiles (take_expr e c rule)
unfolding take_expr
take_expr-Stores e _ rule (Result.Ends.holds {a} h) eq = stored (a, eq)
take_expr-Stores e _ rule Result.Ends.refused eq = refused

set_expr-Stores :
    (o : Option Bytes) (rule : RoutingRule) → Compiles rule → Stores Compiles (set_expr o rule)
unfolding set_expr
set_expr-Stores none rule h = stored h
set_expr-Stores (some src) rule h =
    take_expr-Stores (trim_space src) (compile (trim_space src)) rule
      (compile-Ends (trim_space src)) refl

apply_input-Stores :
    (enc : Encoder) (input : RuleInput) (rule : RoutingRule)
    → Compiles rule
    → Stores Compiles (apply_input enc input rule)
unfolding apply_input
apply_input-Stores enc input rule h =
    Stores-bind (set_match-Stores enc input.match _ h) λ matched h₁.
      Stores-bind (set_target_ids-Stores enc input.target_channel_ids matched h₁)
        λ targeted h₂. Stores-bind (set_expr-Stores input.expr _ h₂) λ grouped h₃. stored h₃

create_named-Stores :
    (enc : Encoder) (input : RuleInput) (o : Option Bytes)
    → Stores Compiles (create_named enc input o)
unfolding create_named compile
create_named-Stores enc input none = refused
create_named-Stores enc input (some name) = elim (Bool-cases (is_blank name)) [
  | inl e ↦ rw e refused
  | inr e ↦
      rw e (Stores-bind (apply_input-Stores enc input blank_rule (_, refl)) λ rule h. stored h)
]

update_named-Stores :
    (enc : Encoder) (input : RuleInput) (rule : RoutingRule) (o : Option Bytes)
    → Compiles rule
    → Stores Compiles (update_named enc input rule o)
unfolding update_named
update_named-Stores enc input rule none h = apply_input-Stores enc input rule h
update_named-Stores enc input rule (some name) h = elim (Bool-cases (is_blank name)) [
  | inl e ↦ rw e refused
  | inr e ↦ rw e (apply_input-Stores enc input rule h)
]

-- Create hands over no rule but one whose expression compiles, whatever the input and the encoder,
-- and Update keeps that of a rule that had it. Neither crashes: what is not stored is an error.
pub saved_rule-Stores :
    (enc : Encoder) (input : RuleInput) (rule : RoutingRule)
    → Compiles rule
    → Stores Compiles (new_rule enc input) × Stores Compiles (updated_rule enc input rule)
unfolding new_rule updated_rule
saved_rule-Stores enc input rule h =
    (create_named-Stores enc input input.name, update_named-Stores enc input rule input.name h)
