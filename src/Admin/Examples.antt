-- ===== src/Admin/Examples.antt =====
-- An edit of a rule: a new expression, and the rest left as it is.
use hhrouter.Base.{none, some, inr, refl}
use hhrouter.Base.Text.{codes}
use hhrouter.Expr.Parser.{compile}
use hhrouter.Model.{RoutingRule}
use hhrouter.Admin.{RuleInput, Encoder, blank_rule, new_rule, updated_rule}
use hhrouter.Admin.Valid.{Compiles, Stores, saved_rule-Stores}

abbrev encoder : Encoder
encoder = record { encode_match = λ spec. inr (codes "{}"); encode_ids = λ ids. inr (codes "[]") }

abbrev edit : RuleInput
edit = record {
  name = some (codes "long writes");
  enabled = none;
  priority = none;
  match = none;
  target_channel_ids = none;
  target_group = none;
  expr = some (codes " w == 1 && t > 500 ");
  target_model = none;
}

abbrev old_rule : RoutingRule
old_rule = record blank_rule { expr = codes "w == 1" }

old_rule-Compiles : Compiles old_rule
unfolding compile
old_rule-Compiles = (_, refl)

saved_rule-Stores_example :
    Stores Compiles (new_rule encoder edit) × Stores Compiles (updated_rule encoder edit old_rule)
saved_rule-Stores_example = saved_rule-Stores encoder edit old_rule old_rule-Compiles
