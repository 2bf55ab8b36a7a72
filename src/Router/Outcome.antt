-- ===== src/Router/Outcome.antt =====
-- What a step of the routing engine (server/internal/router/engine.go) ends in: a value, an error
-- that it returns, or a panic.
use hhrouter.Base.{ℕ, ◌≡◌, Option, none, some}
use hhrouter.Base.Text.{Bytes}

pub data RouteError : Type 0 where
  db_error : Bytes → RouteError
  no_candidate : RouteError
  no_target_for_model : Bytes → ℕ → Bytes → RouteError
  no_target_for_override : Bytes → ℕ → Bytes → Bytes → RouteError

pub data Outcome {ℓ} (A : Type ℓ) : Type ℓ where
  ok : A → Outcome A
  fail : RouteError → Outcome A
  panic : Outcome A

infixl 5 ◌>>=◌
abbrev pub ◌>>=◌ {ℓ κ} : {A : Type ℓ} {B : Type κ} → Outcome A → (A → Outcome B) → Outcome B
ok a >>= f = f a
fail e >>= f = fail e
panic >>= f = panic

abbrev pub of_option {ℓ} : {A : Type ℓ} → Option A → Outcome A
of_option none = panic
of_option (some a) = ok a

-- The code returned a value, and `P` holds of it.
abbrev pub Yields {ℓ κ} : {A : Type ℓ} → (A → Type κ) → Outcome A → Type (ℓ ⊔ κ)
Yields {A} P o = (a : A) × (o ≡ ok a) × P a
