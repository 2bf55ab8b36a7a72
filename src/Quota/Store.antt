-- ===== src/Quota/Store.antt =====
-- What server/internal/service/quota_service.go asks of PostgreSQL and of Redis: an interface, whose
-- operations may fail.
use hhrouter.Base.{
  Bool-cases, inl, inr, ℕ, zero, suc, ◌+◌, ◌-◌, ◌*◌, ◌/◌, ◌%◌, ◌<◌, Bool, Option, [], ◌∷◌, ◌++◌,
  ltb, if◌then◌else◌, ◌≡◌, ◌∙◌, sym, ap, arith,
}
use hhrouter.Base.Int.{ℤ}
use hhrouter.Base.Text.{Bytes, codes}

-- The columns quota and used_quota of a row.
pub record Usage : Type 0 where
  pub quota : ℤ
  pub used : ℤ

pub data Row : Type 0 where
  found : Usage → Row
  record_not_found : Row
  query_failed : Bytes → Row

-- A reply to GET read as an int64; `redis_nil` is a missing key.
pub data Reply : Type 0 where
  value : ℤ → Reply
  redis_nil : Reply
  reply_failed : Bytes → Reply

-- A write: the error, if there is one, and the state behind it.
abbrev pub Write : Type 0 → Type 0
Write S = Option Bytes × S

pub record Backend (S : Type 0) : Type 0 where
  pub has_redis : Bool
  pub token_row : ℕ → S → Row
  pub user_row : ℕ → S → Row
  pub add_token_used : ℕ → ℤ → S → Write S
  pub add_user_used : ℕ → ℤ → S → Write S
  pub set_token_used : ℕ → ℤ → S → Write S
  pub set_user_used : ℕ → ℤ → S → Write S
  pub redis_get : Bytes → S → Reply
  pub redis_set_nx : Bytes → ℤ → S → Write S
  pub redis_incr_by : Bytes → ℤ → S → Write S
  pub redis_del : Bytes → S → Write S

-- fmt's %d of an unsigned number, on fuel; its digits are put before `acc`.
decimal_loop : ℕ → ℕ → Bytes → Bytes
decimal_loop zero n acc = acc
decimal_loop (suc f) n acc =
    let more = decimal_loop f (n / 10) ((n % 10 + b'0') ∷ acc) in
    if ltb n 10 then (n + b'0') ∷ acc else more

unfoldable pub decimal : ℕ → Bytes
unfolding decimal_loop
decimal n = decimal_loop (suc n) n []

unfoldable pub token_used_key : ℕ → Bytes
unfolding decimal
token_used_key id = codes "quota:token:used:" ++ decimal id

unfoldable pub user_used_key : ℕ → Bytes
unfolding decimal
user_used_key id = codes "quota:user:used:" ++ decimal id

-- Keys of different entities differ.
digits_value : ℕ → Bytes → ℕ
digits_value v [] = v
digits_value v (c ∷ s) = digits_value (v * 10 + (c - b'0')) s

digits_value-decimal_loop :
    (f n : ℕ) (acc : Bytes) → n < f → digits_value 0 (decimal_loop f n acc) ≡ digits_value n acc
unfolding digits_value decimal_loop
digits_value-decimal_loop zero n acc h = absurd (omega arith)
digits_value-decimal_loop (suc f) n acc h = elim (Bool-cases (ltb n 10)) [
  | inl e ↦
      let same : 0 * 10 + (n + b'0' - b'0') ≡ n = omega arith in
      rw e (ap (λ (v : ℕ). digits_value v acc) same)
  | inr e ↦
      let same : n / 10 * 10 + (n % 10 + b'0' - b'0') ≡ n = omega arith in
      rw (e, digits_value-decimal_loop f (n / 10) ((n % 10 + b'0') ∷ acc) (ground arith), same)
]

decimal-injective : (m n : ℕ) → decimal m ≡ decimal n → m ≡ n
unfolding decimal digits_value
decimal-injective m n e =
    sym (digits_value-decimal_loop (suc m) m [] (omega arith))
    ∙ ap (digits_value 0) e
    ∙ digits_value-decimal_loop (suc n) n [] (omega arith)

drop_prefix : (p s t : Bytes) → p ++ s ≡ p ++ t → s ≡ t
drop_prefix [] s t e = e
drop_prefix (c ∷ p) s t e = drop_prefix p s t (cc)

pub token_used_key-injective : (m n : ℕ) → token_used_key m ≡ token_used_key n → m ≡ n
unfolding token_used_key
token_used_key-injective m n e =
    decimal-injective m n (drop_prefix (codes "quota:token:used:") _ _ e)

pub user_used_key-injective : (m n : ℕ) → user_used_key m ≡ user_used_key n → m ≡ n
unfolding user_used_key
user_used_key-injective m n e = decimal-injective m n (drop_prefix (codes "quota:user:used:") _ _ e)

seventh : Bytes → ℕ
seventh (a ∷ b ∷ c ∷ d ∷ e ∷ f ∷ g ∷ s) = g
seventh s = 0

pub token_used_key-ne-user_used_key : (m n : ℕ) → ¬ (token_used_key m ≡ user_used_key n)
unfolding token_used_key user_used_key seventh
token_used_key-ne-user_used_key m n e =
    let differ : ◌≡◌ {A = ℕ} b't' b'u' = ap seventh e in omega arith
