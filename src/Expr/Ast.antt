-- ===== src/Expr/Ast.antt =====
-- The values, syntax trees and evaluation of server/internal/router/expr/expr.go.
use hhrouter.Base.{
  ℕ, Bool, true, false, ◌||◌, not, List, [], ◌∷◌, if◌then◌else◌, Option, none, some,
}
use hhrouter.Base.Int.{ℤ, pos, ltb_ℤ, leb_ℤ, eqb_ℤ}
use hhrouter.Base.Text.{Bytes, codes, bytes_eq, bytes_lt}

-- VarW, VarT, VarTokens, VarGroup, VarModel
abbrev pub var_w : Bytes
var_w = codes "w"

abbrev pub var_t : Bytes
var_t = codes "t"

abbrev pub var_tokens : Bytes
var_tokens = codes "tokens"

abbrev pub var_group : Bytes
var_group = codes "group"

abbrev pub var_model : Bytes
var_model = codes "model"

unfoldable pub numeric_vars : Bytes → Bool
unfolding bytes_eq
numeric_vars s = bytes_eq s var_w || bytes_eq s var_t || bytes_eq s var_tokens

unfoldable pub known_vars : Bytes → Bool
unfolding numeric_vars
known_vars s = numeric_vars s || bytes_eq s var_group || bytes_eq s var_model

pub data ValType : Type 0 where
  type_bool type_int type_str : ValType

-- valType's operator ==
unfoldable pub type_eq : ValType → ValType → Bool
type_eq type_bool type_bool = true
type_eq type_int type_int = true
type_eq type_str type_str = true
type_eq _ _ = false

-- What Go's `any` holds here.
pub data Value : Type 0 where
  bool : Bool → Value
  int : ℤ → Value
  str : Bytes → Value

-- A Go map read with a key that may be missing: `none` is the zero value. A nil map reads the same.
pub record Vars : Type 0 where
  pub int_vars : List (Bytes × ℤ)
  pub str_vars : List (Bytes × Bytes)

unfoldable pub lookup {ℓ} : {V : Type ℓ} → List (Bytes × V) → Bytes → Option V
unfolding bytes_eq
lookup [] k = none
lookup ((j, v) ∷ m) k = if bytes_eq j k then some v else lookup m k

abbrev pub get_or {ℓ} : {V : Type ℓ} → Option V → V → V
get_or none d = d
get_or (some v) d = v

pub data Node : Type 0 where
  bool_lit : Bool → Node
  int_lit : ℕ → Node
  str_lit : Bytes → Node
  var_ref : Bytes → ValType → Node
  not_node : Node → Node
  logic_node : Bytes → Node → Node → Node
  cmp_node : Bytes → Node → Node → Bool → Node

-- b, _ := v.(bool)
unfoldable pub as_bool : Value → Bool
as_bool (bool b) = b
as_bool (int i) = false
as_bool (str s) = false

unfoldable pub to_int : Value → ℤ
to_int (int i) = i
to_int (bool b) = pos 0
to_int (str s) = pos 0

unfoldable pub to_str : Value → Bytes
to_str (str s) = s
to_str (bool b) = []
to_str (int i) = []

unfoldable pub eval_var : Vars → Bytes → ValType → Value
unfolding lookup
eval_var v name type_int = int (get_or (lookup v.int_vars name) (pos 0))
eval_var v name type_bool = str (get_or (lookup v.str_vars name) [])
eval_var v name type_str = str (get_or (lookup v.str_vars name) [])

-- logicNode.eval: any operator but && is read as ||.
unfoldable pub eval_logic : Bytes → Bool → Bool → Bool
unfolding bytes_eq
eval_logic op lb rb =
    if bytes_eq op (codes "&&") then (if not lb then false else rb) else if lb then true else rb

-- The numeric branch of cmpNode.eval
unfoldable pub cmp_int : Bytes → ℤ → ℤ → Bool
unfolding bytes_eq
cmp_int op li ri =
    if bytes_eq op (codes "==")
    then eqb_ℤ li ri
    else if bytes_eq op (codes "!=")
    then not (eqb_ℤ li ri)
    else if bytes_eq op (codes "<")
    then ltb_ℤ li ri
    else if bytes_eq op (codes "<=")
    then leb_ℤ li ri
    else if bytes_eq op (codes ">")
    then ltb_ℤ ri li
    else if bytes_eq op (codes ">=")
    then leb_ℤ ri li
    else false

-- The string branch of cmpNode.eval
unfoldable pub cmp_str : Bytes → Bytes → Bytes → Bool
unfolding bytes_eq bytes_lt
cmp_str op ls rs =
    if bytes_eq op (codes "==")
    then bytes_eq ls rs
    else if bytes_eq op (codes "!=")
    then not (bytes_eq ls rs)
    else if bytes_eq op (codes "<")
    then bytes_lt ls rs
    else if bytes_eq op (codes "<=")
    then not (bytes_lt rs ls)
    else if bytes_eq op (codes ">")
    then bytes_lt rs ls
    else if bytes_eq op (codes ">=")
    then not (bytes_lt ls rs)
    else false

unfoldable pub eval : Vars → Node → Value
unfolding eval_var as_bool eval_logic cmp_int cmp_str to_int to_str
eval v (bool_lit b) = bool b
eval v (int_lit n) = int (pos n)
eval v (str_lit s) = str s
eval v (var_ref name vt) = eval_var v name vt
eval v (not_node x) = bool (not (as_bool (eval v x)))
eval v (logic_node op l r) = bool (eval_logic op (as_bool (eval v l)) (as_bool (eval v r)))
eval v (cmp_node op l r numeric) = bool (
    if numeric
    then cmp_int op (to_int (eval v l)) (to_int (eval v r))
    else cmp_str op (to_str (eval v l)) (to_str (eval v r)))

unfoldable pub typ : Node → ValType
typ (bool_lit b) = type_bool
typ (int_lit n) = type_int
typ (str_lit s) = type_str
typ (var_ref name vt) = vt
typ (not_node x) = type_bool
typ (logic_node op l r) = type_bool
typ (cmp_node op l r numeric) = type_bool

-- collectRefs: whether it puts `name` into the set.
unfoldable pub refs : Node → Bytes → Bool
unfolding bytes_eq
refs (bool_lit b) name = false
refs (int_lit n) name = false
refs (str_lit s) name = false
refs (var_ref x vt) name = bytes_eq x name
refs (not_node x) name = refs x name
refs (logic_node op l r) name = refs l name || refs r name
refs (cmp_node op l r numeric) name = refs l name || refs r name

-- A compiled expression; `none` is the nil root of a blank source.
pub record Program : Type 0 where
  pub root : Option Node

-- Program.References, on a program that is not nil
unfoldable pub references : Program → Bytes → Bool
unfolding refs
references p name = elim p.root [ none ↦ false | some n ↦ refs n name ]

-- Program.Eval, on a program that is not nil
unfoldable pub eval_program : Program → Vars → Bool
unfolding eval
eval_program p v = elim p.root [ none ↦ true | some n ↦ as_bool (eval v n) ]
