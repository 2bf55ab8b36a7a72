-- ===== src/Expr/Meaning.antt =====
-- What a condition of server/internal/router/expr/expr.go says of the request variables, as a
-- proposition, and that evaluation decides it.
use mathlib.Core.Logic.{◌≢◌, ◌↔◌, ◌⊎◌, inl, inr}
use mathlib.Core.Bool.{false≢true}
use hhrouter.Base.{
  ℕ, ◌<◌, Bool, true, false, ◌≡◌, refl, not, [], ◌∷◌, arith, if◌then◌else◌, Bool-cases, ltb, ◌+◌,
  sym, ltb→lt,
}
use hhrouter.Base.Int.{ℤ, pos, ltb_ℤ, leb_ℤ, eqb_ℤ, pos_part, neg_part, eqb_ℤ_iff}
use hhrouter.Base.Text.{Bytes, codes, bytes_eq, bytes_lt, bytes_eq_iff}
use hhrouter.Expr.Ast.{
  ValType, type_bool, type_int, type_str, type_eq, Vars, Node, bool_lit, int_lit, str_lit, var_ref,
  not_node, logic_node, cmp_node, typ, eval, eval_var, as_bool, to_int, to_str, eval_logic, cmp_int,
  cmp_str, lookup, get_or,
}
use hhrouter.Expr.Parser.{is_cmp_op}
use hhrouter.Expr.Typing.{WellTyped, is_bool, is_int, is_str, is_var, is_not, is_logic, is_cmp}

-- The order of Go's ints, and that of Go's strings: by the first byte in which they differ.
abbrev pub LtInt : ℤ → ℤ → Type 0
LtInt a b = pos_part a + neg_part b < pos_part b + neg_part a

pub data LtStr : Bytes → Bytes → Type 0 where
  shorter : {y : ℕ} {t : Bytes} → LtStr [] (y ∷ t)
  lower : {x y : ℕ} {s t : Bytes} → x < y → LtStr (x ∷ s) (y ∷ t)
  later : {x y : ℕ} {s t : Bytes} → x ≡ y → LtStr s t → LtStr (x ∷ s) (y ∷ t)

bytes_lt→LtStr : (s t : Bytes) → bytes_lt s t ≡ true → LtStr s t
unfolding bytes_lt
bytes_lt→LtStr s [] h = cc
bytes_lt→LtStr [] (y ∷ t) h = shorter
bytes_lt→LtStr (x ∷ s) (y ∷ t) h = elim (Bool-cases (ltb x y)) [
  | inl e ↦ lower (ltb→lt x y e)
  | inr e ↦ later (ground arith) (bytes_lt→LtStr s t (ground arith))
]

LtStr→bytes_lt : {s t : Bytes} → LtStr s t → bytes_lt s t ≡ true
unfolding bytes_lt
LtStr→bytes_lt shorter = refl
LtStr→bytes_lt (lower h) = ground arith
LtStr→bytes_lt (later e d) = ground (arith, LtStr→bytes_lt d)

-- The relation that a comparison operator names, over an order.
abbrev pub Compares : {A : Type 0} → (A → A → Type 0) → Bytes → A → A → Type 0
Compares Lt op a b =
    if bytes_eq op (codes "==")
    then a ≡ b
    else if bytes_eq op (codes "!=")
    then a ≢ b
    else if bytes_eq op (codes "<")
    then Lt a b
    else if bytes_eq op (codes "<=")
    then ¬ Lt b a
    else if bytes_eq op (codes ">")
    then Lt b a
    else ¬ Lt a b

-- An operand that is a number, or a text.
abbrev pub number : Vars → Node → ℤ
number v (int_lit n) = pos n
number v (var_ref x vt) = get_or (lookup v.int_vars x) (pos 0)
number v _ = pos 0

abbrev pub words : Vars → Node → Bytes
words v (str_lit s) = s
words v (var_ref x vt) = get_or (lookup v.str_vars x) []
words v _ = []

abbrev pub Meaning : Vars → Node → Type 0
Meaning v (bool_lit b) = b ≡ true
Meaning v (not_node x) = ¬ Meaning v x
Meaning v (logic_node op l r) =
    let both = Meaning v l × Meaning v r in
    let either = Meaning v l ⊎ Meaning v r in if bytes_eq op (codes "&&") then both else either
Meaning v (cmp_node op l r true) = Compares LtInt op (number v l) (number v r)
Meaning v (cmp_node op l r false) = Compares LtStr op (words v l) (words v r)
Meaning v _ = ⊥

-- A test decides a proposition.
abbrev Decided : Type 0 → Bool → Type 0
Decided P b = (b ≡ true → P) × (b ≡ false → ¬ P)

Decided-if :
    {P Q : Type 0} (c x y : Bool)
    → (c ≡ true → Decided P x)
    → (c ≡ false → Decided Q y)
    → Decided (if c then P else Q) (if c then x else y)
Decided-if true x y p q = p refl
Decided-if false x y p q = q refl

Decided-not : {P : Type 0} (b : Bool) → Decided P b → Decided (¬ P) (not b)
Decided-not true d = (λ e. cc, λ e n. n (d.0 refl))
Decided-not false d = (λ e. d.1 refl, λ e. cc)

of_iff : {P : Type 0} (b : Bool) → (b ≡ true) ↔ P → Decided P b
of_iff true e = (e.0, λ h. cc)
of_iff false e = (e.0, λ h p. false≢true (e.1 p))

Decided-then : {P : Type 0} (c x y : Bool) → c ≡ true → Decided P x → Decided P (if c then x else y)
Decided-then true x y h d = d
Decided-then false x y h d = cc

-- The ladder of operators that both branches of cmpNode.eval go through.
ladder : Bytes → Bool → Bool → Bool → Bool → Bool → Bool → Bool
ladder op eq ne lt le gt ge =
    if bytes_eq op (codes "==")
    then eq
    else if bytes_eq op (codes "!=")
    then ne
    else if bytes_eq op (codes "<")
    then lt
    else if bytes_eq op (codes "<=")
    then le
    else if bytes_eq op (codes ">")
    then gt
    else if bytes_eq op (codes ">=")
    then ge
    else false

ladder-Decided :
    {A : Type 0} (Lt : A → A → Type 0) (op : Bytes) (a b : A) (eq ne lt le gt ge : Bool)
    → is_cmp_op op ≡ true
    → Decided (a ≡ b) eq
    → Decided (a ≢ b) ne
    → Decided (Lt a b) lt
    → Decided (¬ Lt b a) le
    → Decided (Lt b a) gt
    → Decided (¬ Lt a b) ge
    → Decided (Compares Lt op a b) (ladder op eq ne lt le gt ge)
unfolding is_cmp_op ladder
ladder-Decided Lt op a b eq ne lt le gt ge h deq dne dlt dle dgt dge =
    Decided-if (bytes_eq op (codes "==")) _ _ (λ _. deq)
      λ n₁.
        Decided-if (bytes_eq op (codes "!=")) _ _ (λ _. dne)
          λ n₂.
            Decided-if (bytes_eq op (codes "<")) _ _ (λ _. dlt)
              λ n₃.
                Decided-if (bytes_eq op (codes "<=")) _ _ (λ _. dle)
                  λ n₄.
                    Decided-if (bytes_eq op (codes ">")) _ _ (λ _. dgt)
                      λ n₅.
                        Decided-then (bytes_eq op (codes ">=")) ge false
                          (rw (n₁, n₂, n₃, n₄, n₅) at h) dge

lt_int : (a b : ℤ) → Decided (LtInt a b) (ltb_ℤ a b)
lt_int a b = (ltb→lt _ _, λ e h. ground arith)

le_int : (a b : ℤ) → Decided (¬ LtInt b a) (leb_ℤ a b)
le_int a b = (λ e h. ground arith, λ e h. h (ground arith))

compared-int :
    (op : Bytes) (a b : ℤ) → is_cmp_op op ≡ true → Decided (Compares LtInt op a b) (cmp_int op a b)
unfolding cmp_int ladder
compared-int op a b h =
    let eq = of_iff (eqb_ℤ a b) (eqb_ℤ_iff a b) in
    ladder-Decided LtInt op a b _ _ _ _ _ _ h eq (Decided-not _ eq) (lt_int a b) (le_int a b)
      (lt_int b a) (le_int b a)

lt_str : (s t : Bytes) → Decided (LtStr s t) (bytes_lt s t)
lt_str s t = of_iff _ (bytes_lt→LtStr s t, LtStr→bytes_lt)

compared-str :
    (op : Bytes) (a b : Bytes)
    → is_cmp_op op ≡ true
    → Decided (Compares LtStr op a b) (cmp_str op a b)
unfolding cmp_str ladder
compared-str op a b h =
    let eq = of_iff (bytes_eq a b) (bytes_eq_iff a b) in
    ladder-Decided LtStr op a b _ _ _ _ _ _ h eq (Decided-not _ eq) (lt_str a b)
      (Decided-not _ (lt_str b a)) (lt_str b a) (Decided-not _ (lt_str a b))

to_int-eval :
    (v : Vars) {n : Node} → WellTyped n → typ n ≡ type_int → to_int (eval v n) ≡ number v n
unfolding eval typ
to_int-eval v (is_bool b) e = cc
to_int-eval v (is_int n) e = refl
to_int-eval v (is_str s) e = cc
to_int-eval v (is_var x vt known k) e = rw (e, eval_var)
to_int-eval v (is_not w k) e = cc
to_int-eval v (is_logic op wl wr kl kr) e = cc
to_int-eval v (is_cmp op wl wr ne k kn) e = cc

to_str-eval : (v : Vars) {n : Node} → WellTyped n → typ n ≡ type_str → to_str (eval v n) ≡ words v n
unfolding eval typ
to_str-eval v (is_bool b) e = cc
to_str-eval v (is_int n) e = cc
to_str-eval v (is_str s) e = refl
to_str-eval v (is_var x vt known k) e = rw (e, eval_var)
to_str-eval v (is_not w k) e = cc
to_str-eval v (is_logic op wl wr kl kr) e = cc
to_str-eval v (is_cmp op wl wr ne k kn) e = cc

-- The kind of both operands of a comparison, by the flag that the parser stored.
operand_kinds :
    (a b : ValType) (numeric : Bool)
    → a ≢ type_bool
    → a ≡ b
    → numeric ≡ type_eq a type_int
    → ((numeric ≡ true) × (a ≡ type_int) × (b ≡ type_int))
      ⊎ ((numeric ≡ false) × (a ≡ type_str) × (b ≡ type_str))
unfolding type_eq
operand_kinds type_bool b numeric ne e en = absurd (ne refl)
operand_kinds type_int b numeric ne e en = inl (en, refl, sym e)
operand_kinds type_str b numeric ne e en = inr (en, refl, sym e)

logic-Decided :
    {P Q : Type 0} (op : Bytes) (a b : Bool)
    → Decided P a
    → Decided Q b
    → Decided (if bytes_eq op (codes "&&") then P × Q else P ⊎ Q) (eval_logic op a b)
unfolding eval_logic
logic-Decided op true true da db =
    Decided-if (bytes_eq op (codes "&&")) _ _ (λ _. (λ _. (da.0 refl, db.0 refl), λ e. cc))
      λ _. (λ _. inl (da.0 refl), λ e. cc)
logic-Decided op true false da db =
    Decided-if (bytes_eq op (codes "&&")) _ _ (λ _. (λ e. cc, λ _ h. db.1 refl h.1))
      λ _. (λ _. inl (da.0 refl), λ e. cc)
logic-Decided op false b da db =
    Decided-if (bytes_eq op (codes "&&")) _ _ (λ _. (λ e. cc, λ _ h. da.1 refl h.0))
      λ _. (λ e. inr (db.0 e), λ e h. elim h [ inl p ↦ da.1 refl p | inr q ↦ db.1 e q ])

condition-Decided :
    (v : Vars) {n : Node}
    → WellTyped n
    → typ n ≡ type_bool
    → Decided (Meaning v n) (as_bool (eval v n))
unfolding eval typ
condition-Decided v (is_bool b) e = (λ h. h, λ h k. cc)
condition-Decided v (is_int n) e = cc
condition-Decided v (is_str s) e = cc
condition-Decided v (is_var x vt known k) e = absurd (ground arith)
condition-Decided v (is_not w k) e = Decided-not _ (condition-Decided v w k)
condition-Decided v (is_logic {op} o wl wr kl kr) e =
    logic-Decided op _ _ (condition-Decided v wl kl) (condition-Decided v wr kr)
condition-Decided v (is_cmp {op} {l} {r} {numeric} o wl wr ne k kn) e =
    elim (operand_kinds (typ l) (typ r) numeric ne k kn) [
      | inl (n, kl, kr) ↦ rw (n, to_int-eval v wl kl, to_int-eval v wr kr) (compared-int op _ _ o)
      | inr (n, kl, kr) ↦ rw (n, to_str-eval v wl kl, to_str-eval v wr kr) (compared-str op _ _ o)
    ]

-- On a tree that the parser can build and that is a condition, evaluation answers true exactly
-- when what the tree says holds.
pub eval-Meaning :
    (v : Vars) {n : Node}
    → WellTyped n
    → typ n ≡ type_bool
    → (as_bool (eval v n) ≡ true) ↔ Meaning v n
eval-Meaning v {n} w e =
    let d = condition-Decided v w e in
    (d.0, λ m. elim (Bool-cases (as_bool (eval v n))) [ inl t ↦ t | inr f ↦ absurd (d.1 f m) ])
