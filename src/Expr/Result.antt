-- ===== src/Expr/Result.antt =====
-- Results of the lexer and the parser, and postconditions on them. `err` is an error that the Go
-- code returns, one constructor for each message; `panic` is an index out of range, and
-- `out_of_fuel` belongs to the model only.
use mathlib.Core.Path.{subst}
use hhrouter.Base.{ℕ, ◌≡◌, refl, ◌≢◌, Bool, true, false, if◌then◌else◌}
use hhrouter.Base.Text.{Bytes}
use hhrouter.Expr.Ast.{ValType}

pub data ExprError : Type 0 where
  unterminated_string : ℕ → ExprError
  unexpected_single : ℕ → ℕ → ExprError
  single_equals : ℕ → ExprError
  unexpected_character : ℕ → ℕ → ExprError
  or_requires_boolean and_requires_boolean not_requires_boolean : ExprError
  cannot_compare_boolean : Bytes → ExprError
  cannot_compare : ValType → ValType → Bytes → ExprError
  missing_paren : ℕ → ExprError
  unknown_variable : Bytes → ℕ → ExprError
  unexpected_token : Bytes → ℕ → ExprError
  not_a_condition : ValType → ExprError

pub data Result {ℓ} (A : Type ℓ) : Type ℓ where
  ok : A → Result A
  err : ExprError → Result A
  panic out_of_fuel : Result A

infixl 5 ◌>>=◌
abbrev pub ◌>>=◌ {ℓ κ} : {A : Type ℓ} {B : Type κ} → Result A → (A → Result B) → Result B
ok a >>= f = f a
err e >>= f = err e
panic >>= f = panic
out_of_fuel >>= f = out_of_fuel

-- The run ended with a value or with an error of the Go code, and `P` holds of the value.
pub data Ends {ℓ κ} {A : Type ℓ} (P : A → Type κ) : Result A → Type (ℓ ⊔ κ) where
  holds : {a : A} → P a → Ends P (ok a)
  refused : {e : ExprError} → Ends P (err e)

module _ {ℓ κ} {A : Type ℓ} {P : A → Type κ} where
  pub Ends-ok : {r : Result A} {a : A} → Ends P r → r ≡ ok a → P a
  Ends-ok (holds h) e = subst P (cc) h
  Ends-ok refused e = cc

  pub Ends-ne-panic : {r : Result A} → Ends P r → r ≢ panic
  Ends-ne-panic (holds h) = cc
  Ends-ne-panic refused = cc

  pub Ends-ne-out_of_fuel : {r : Result A} → Ends P r → r ≢ out_of_fuel
  Ends-ne-out_of_fuel (holds h) = cc
  Ends-ne-out_of_fuel refused = cc

  pub Ends-if :
      (b : Bool) {x y : Result A}
      → (b ≡ true → Ends P x)
      → (b ≡ false → Ends P y)
      → Ends P (if b then x else y)
  Ends-if true hx hy = hx refl
  Ends-if false hx hy = hy refl

  pub Ends-bind {ℓ' κ'} :
      {B : Type ℓ'} {Q : B → Type κ'} {r : Result A} {f : A → Result B}
      → Ends P r
      → ((a : A) → P a → Ends Q (f a))
      → Ends Q (r >>= f)
  Ends-bind (holds {a} h) k = k a h
  Ends-bind refused k = refused

  pub Ends-map {κ'} : {Q : A → Type κ'} {r : Result A} → Ends P r → ((a : A) → P a → Q a) → Ends Q r
  Ends-map (holds {a} h) f = holds (f a h)
  Ends-map refused f = refused
