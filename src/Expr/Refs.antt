-- ===== src/Expr/Refs.antt =====
-- Which variables a compiled expression reads (server/internal/router/expr/expr.go): those that
-- `collectRefs` names and no others, so the engine may leave the rest unset.
use hhrouter.Base.{Bool, true, ◌≡◌, refl, ◌||◌, ap, arith, Option, none, some}
use hhrouter.Base.Text.{Bytes, bytes_eq_refl}
use hhrouter.Expr.Ast.{
  Vars, Node, bool_lit, int_lit, str_lit, var_ref, not_node, logic_node, cmp_node, type_bool,
  type_int, type_str, refs, eval, eval_var, lookup, Program, references, eval_program, as_bool,
  ValType,
}

-- Two settings of the variables that give `name` one value.
abbrev pub AgreeAt : Vars → Vars → Bytes → Type 0
AgreeAt v w name =
    (lookup v.int_vars name ≡ lookup w.int_vars name)
    × (lookup v.str_vars name ≡ lookup w.str_vars name)

eval_var-AgreeAt :
    (v w : Vars) (x : Bytes) (vt : ValType) → AgreeAt v w x → eval_var v x vt ≡ eval_var w x vt
unfolding eval_var
eval_var-AgreeAt v w x type_bool (i, s) = rw s
eval_var-AgreeAt v w x type_int (i, s) = rw i
eval_var-AgreeAt v w x type_str (i, s) = rw s

or_left : (a b : Bool) → a ≡ true → (a || b) ≡ true
or_left a b h = ground arith

or_right : (a b : Bool) → b ≡ true → (a || b) ≡ true
or_right a b h = ground arith

eval-AgreeAt :
    (v w : Vars) (n : Node) → ((x : Bytes) → refs n x ≡ true → AgreeAt v w x) → eval v n ≡ eval w n
unfolding refs eval
eval-AgreeAt v w (bool_lit b) h = refl
eval-AgreeAt v w (int_lit n) h = refl
eval-AgreeAt v w (str_lit s) h = refl
eval-AgreeAt v w (var_ref x vt) h = eval_var-AgreeAt v w x vt (h x (bytes_eq_refl x))
eval-AgreeAt v w (not_node x) h = rw (eval-AgreeAt v w x h)
eval-AgreeAt v w (logic_node op l r) h = rw (
  eval-AgreeAt v w l (λ x e. h x (or_left _ _ e)),
  eval-AgreeAt v w r (λ x e. h x (or_right _ _ e)),
)
eval-AgreeAt v w (cmp_node op l r numeric) h = rw (
  eval-AgreeAt v w l (λ x e. h x (or_left _ _ e)),
  eval-AgreeAt v w r (λ x e. h x (or_right _ _ e)),
)

eval_root-AgreeAt :
    (v w : Vars) (o : Option Node)
    → ((x : Bytes) → references (record { root = o }) x ≡ true → AgreeAt v w x)
    → eval_program (record { root = o }) v ≡ eval_program (record { root = o }) w
unfolding references eval_program
eval_root-AgreeAt v w none h = refl
eval_root-AgreeAt v w (some n) h = ap as_bool (eval-AgreeAt v w n h)

-- A program has one result under any two settings that agree at the variables it references.
pub eval_program-AgreeAt :
    (v w : Vars) (p : Program)
    → ((x : Bytes) → references p x ≡ true → AgreeAt v w x)
    → eval_program p v ≡ eval_program p w
eval_program-AgreeAt v w p h = eval_root-AgreeAt v w p.root h
