-- ===== src/Quota/Reliable.antt =====
-- What server/internal/service/quota_service.go relies on where PostgreSQL and Redis answer: the laws
-- of their operations, as they are documented, over a view of what both hold. A store of functions
-- shows that the laws can be met.
use hhrouter.Base.{
  ℕ, true, Option, none, some, ◌==◌, if◌then◌else◌, ◌≡◌, refl, ◌≢◌, Bool-cases, inl, inr,
}
use hhrouter.Base.Int.{ℤ, pos, ◌+ℤ◌, InInt64}
use hhrouter.Base.Text.{Bytes, bytes_eq, bytes_eq→eq}
use hhrouter.Expr.Ast.{get_or}
use hhrouter.Quota.Store.{
  Usage, Row, found, record_not_found, Reply, value, redis_nil, Backend, Write,
}

pub record View : Type 0 where
  pub tokens : ℕ → Option Usage
  pub users : ℕ → Option Usage
  pub counters : Bytes → Option ℤ

abbrev pub row_of : Option Usage → Row
row_of none = record_not_found
row_of (some u) = found u

abbrev pub reply_of : Option ℤ → Reply
reply_of none = redis_nil
reply_of (some v) = value v

abbrev pub put_counter : Bytes → Option ℤ → View → View
put_counter k o v = record v { counters = λ j. if bytes_eq k j then o else v.counters j }

-- SETNX: the value is set only where there is none.
abbrev pub seed : Option ℤ → Bytes → ℤ → View → View
seed none k n v = put_counter k (some n) v
seed (some m) k n v = v

abbrev pub with_used : ℤ → Option Usage → Option Usage
with_used n none = none
with_used n (some u) = some (record u { used = n })

abbrev pub put_rows : ℕ → ℤ → (ℕ → Option Usage) → ℕ → Option Usage
put_rows id n rows j = if id == j then with_used n (rows j) else rows j

abbrev pub put_token : ℕ → ℤ → View → View
put_token id n v = record v { tokens = put_rows id n v.tokens }

abbrev pub put_user : ℕ → ℤ → View → View
put_user id n v = record v { users = put_rows id n v.users }

-- A write that did not fail, and what is seen behind it.
abbrev pub Writes : {S : Type 0} → (S → View) → Write S → View → Type 0
Writes view w v = (w.0 ≡ none) × (view w.1 ≡ v)

pub record IsReliable {S : Type 0} (b : Backend S) (view : S → View) : Type 0 where
  pub redis_on : b.has_redis ≡ true
  pub token_row_law : (id : ℕ) (s : S) → b.token_row id s ≡ row_of ((view s).tokens id)
  pub user_row_law : (id : ℕ) (s : S) → b.user_row id s ≡ row_of ((view s).users id)
  pub get_law : (k : Bytes) (s : S) → b.redis_get k s ≡ reply_of ((view s).counters k)
  pub set_nx_law :
      (k : Bytes) (n : ℤ) (s : S)
      → Writes view (b.redis_set_nx k n s) (seed ((view s).counters k) k n (view s))
  pub incr_law :
      (k : Bytes) (m n : ℤ) (s : S)
      → (view s).counters k ≡ some m
      → InInt64 (m +ℤ n)
      → Writes view (b.redis_incr_by k n s) (put_counter k (some (m +ℤ n)) (view s))
  pub del_law : (k : Bytes) (s : S) → Writes view (b.redis_del k s) (put_counter k none (view s))
  pub set_token_law :
      (id : ℕ) (n : ℤ) (s : S) → Writes view (b.set_token_used id n s) (put_token id n (view s))
  pub set_user_law :
      (id : ℕ) (n : ℤ) (s : S) → Writes view (b.set_user_used id n s) (put_user id n (view s))

pub seed_other :
    (o : Option ℤ) (k j : Bytes) (n : ℤ) (v : View)
    → k ≢ j
    → (seed o k n v).counters j ≡ v.counters j
seed_other none k j n v ne = elim (Bool-cases (bytes_eq k j)) [
  | inl e ↦ absurd (ne (bytes_eq→eq k j e))
  | inr e ↦ rw e
]
seed_other (some m) k j n v ne = refl

pub seed_tokens : (o : Option ℤ) (k : Bytes) (n : ℤ) (v : View) → (seed o k n v).tokens ≡ v.tokens
seed_tokens none k n v = refl
seed_tokens (some m) k n v = refl

pub seed_users : (o : Option ℤ) (k : Bytes) (n : ℤ) (v : View) → (seed o k n v).users ≡ v.users
seed_users none k n v = refl
seed_users (some m) k n v = refl

abbrev pub add_used : ℤ → Option Usage → Option Usage
add_used n none = none
add_used n (some u) = some (record u { used = u.used +ℤ n })

abbrev pub add_rows : ℕ → ℤ → (ℕ → Option Usage) → ℕ → Option Usage
add_rows id n rows j = if id == j then add_used n (rows j) else rows j

-- A store that is its own view.
abbrev pub view_backend : Backend View
view_backend = record {
  has_redis = true;
  token_row = λ id v. row_of (v.tokens id);
  user_row = λ id v. row_of (v.users id);
  add_token_used = λ id n v. (none, record v { tokens = add_rows id n v.tokens });
  add_user_used = λ id n v. (none, record v { users = add_rows id n v.users });
  set_token_used = λ id n v. (none, put_token id n v);
  set_user_used = λ id n v. (none, put_user id n v);
  redis_get = λ k v. reply_of (v.counters k);
  redis_set_nx = λ k n v. (none, seed (v.counters k) k n v);
  redis_incr_by = λ k n v. (none, put_counter k (some (get_or (v.counters k) (pos 0) +ℤ n)) v);
  redis_del = λ k v. (none, put_counter k none v);
}

pub view_backend-IsReliable : IsReliable view_backend (λ v. v)
view_backend-IsReliable = record {
  redis_on = refl;
  token_row_law = λ id s. refl;
  user_row_law = λ id s. refl;
  get_law = λ k s. refl;
  set_nx_law = λ k n s. (refl, refl);
  incr_law = λ k m n s e h. (refl, rw e refl);
  del_law = λ k s. (refl, refl);
  set_token_law = λ id n s. (refl, refl);
  set_user_law = λ id n s. (refl, refl);
}
