-- ===== src/Expr/Typing.antt =====
-- Which syntax trees the parser builds (server/internal/router/expr/expr.go), what such a tree
-- means, and that evaluation computes that meaning.
use hhrouter.Base.{ℕ, Bool, true, false, ◌≡◌, refl, ◌≢◌, ◌⊎◌, arith, if◌then◌else◌}
use hhrouter.Base.Text.{Bytes, codes}
use hhrouter.Expr.Ast.{
  ValType, type_bool, type_int, type_str, type_eq, Value, bool, int, str, Vars, Node, bool_lit,
  int_lit, str_lit, var_ref, not_node, logic_node, cmp_node, typ, known_vars, numeric_vars, eval,
  eval_var,
}
use hhrouter.Expr.Parser.{is_cmp_op}

-- Trees over the five variables in which every operator has operands of its kind.
pub data WellTyped : Node → Type 0 where
  is_bool : (b : Bool) → WellTyped (bool_lit b)
  is_int : (n : ℕ) → WellTyped (int_lit n)
  is_str : (s : Bytes) → WellTyped (str_lit s)
  is_var :
      (x : Bytes) (vt : ValType)
      → known_vars x ≡ true
      → vt ≡ (if numeric_vars x then type_int else type_str)
      → WellTyped (var_ref x vt)
  is_not : {x : Node} → WellTyped x → typ x ≡ type_bool → WellTyped (not_node x)
  is_logic :
      {op : Bytes} {l r : Node}
      → (op ≡ codes "&&") ⊎ (op ≡ codes "||")
      → WellTyped l
      → WellTyped r
      → typ l ≡ type_bool
      → typ r ≡ type_bool
      → WellTyped (logic_node op l r)
  is_cmp :
      {op : Bytes} {l r : Node} {numeric : Bool}
      → is_cmp_op op ≡ true
      → WellTyped l
      → WellTyped r
      → typ l ≢ type_bool
      → typ l ≡ typ r
      → numeric ≡ type_eq (typ l) type_int
      → WellTyped (cmp_node op l r numeric)

-- A value of a kind, with nothing of the conversions `v.(bool)`, `toInt`, `toStr` in it.
abbrev pub HasType : ValType → Value → Type 0
HasType type_bool (bool b) = Unit
HasType type_int (int i) = Unit
HasType type_str (str s) = Unit
HasType _ _ = ⊥

pub type_eq→eq : (a b : ValType) → type_eq a b ≡ true → a ≡ b
unfolding type_eq
type_eq→eq a b h = ground arith

pub type_eq_refl : (a : ValType) → type_eq a a ≡ true
unfolding type_eq
type_eq_refl type_bool = refl
type_eq_refl type_int = refl
type_eq_refl type_str = refl

eval_var-HasType :
    (v : Vars) (x : Bytes) (b : Bool)
    → HasType (if b then type_int else type_str) (eval_var v x (if b then type_int else type_str))
unfolding eval_var
eval_var-HasType v x true = tt
eval_var-HasType v x false = tt

pub eval-HasType_lem : (v : Vars) {n : Node} → WellTyped n → HasType (typ n) (eval v n)
unfolding typ eval
eval-HasType_lem v (is_bool b) = tt
eval-HasType_lem v (is_int n) = tt
eval-HasType_lem v (is_str s) = tt
eval-HasType_lem v (is_var x vt known e) = rw e (eval_var-HasType v x (numeric_vars x))
eval-HasType_lem v (is_not w e) = tt
eval-HasType_lem v (is_logic op wl wr el er) = tt
eval-HasType_lem v (is_cmp op wl wr ne e en) = tt
