-- ===== src/Quota/Service.antt =====
-- The operations of `QuotaService` (server/internal/service/quota_service.go), over a backend.
use hhrouter.Base.{ℕ, Bool, true, ◌&&◌, Option, none, some, List, [], ◌∷◌, ◌==◌, if◌then◌else◌, not}
use hhrouter.Base.Int.{ℤ, pos, negsuc, ltb_ℤ, leb_ℤ, wrap64, ◌-ℤ◌}
use hhrouter.Base.Text.{Bytes, codes}
use hhrouter.Quota.Store.{
  Usage, Row, found, record_not_found, query_failed, Reply, value, redis_nil, reply_failed, Backend,
  Write, token_used_key, user_used_key,
}

pub data QuotaError : Type 0 where
  token_not_found user_not_found : QuotaError
  store_error : Bytes → QuotaError

pub data Result {ℓ} (A : Type ℓ) : Type ℓ where
  ok : A → Result A
  err : QuotaError → Result A

-- The service's own state beside that of the backend: the ids that wait for a write-back. (A Go map
-- used as a set; its order is not observed.)
pub record Service (S : Type 0) : Type 0 where
  pub store : S
  pub dirty_tokens : List ℕ
  pub dirty_users : List ℕ

abbrev pub written : Option Bytes → Result (Unit {0})
written none = ok tt
written (some e) = err (store_error e)

abbrev pub M : Type 0 → Type 0 → Type 0
M S A = Service S → Result A × Service S

module _ {S : Type 0} where
  abbrev pub pure : {A : Type 0} → A → M S A
  pure a s = (ok a, s)

  abbrev pub raise : {A : Type 0} → QuotaError → M S A
  raise e s = (err e, s)

  abbrev pub continue : {A B : Type 0} → Result A → (A → M S B) → M S B
  continue (ok a) f s = f a s
  continue (err e) f s = (err e, s)

  infixl 5 ◌>>=◌ ◌>>◌
  abbrev pub ◌>>=◌ : {A B : Type 0} → M S A → (A → M S B) → M S B
  ◌>>=◌ m f s = continue (m s).0 f (m s).1

  abbrev pub ◌>>◌ : {B : Type 0} → M S (Unit {0}) → M S B → M S B
  m >> k = m >>= λ _. k

  -- A write of the backend, its error returned.
  abbrev pub perform : (S → Write S) → M S (Unit {0})
  perform w s = (written (w s.store).0, record s { store = (w s.store).1 })

unfoldable pub remaining : ℤ → ℤ → ℤ
remaining quota used =
    if ltb_ℤ quota (pos 0)
    then negsuc 0
    else let r = wrap64 (quota -ℤ used) in if ltb_ℤ r (pos 0) then pos 0 else r

unfoldable pub min_remaining : ℤ → ℤ → ℤ
min_remaining a b =
    if ltb_ℤ a (pos 0) && ltb_ℤ b (pos 0)
    then negsuc 0
    else if ltb_ℤ a (pos 0)
    then b
    else if ltb_ℤ b (pos 0)
    then a
    else if ltb_ℤ a b
    then a
    else b

unfoldable pub insert_id : ℕ → List ℕ → List ℕ
insert_id id [] = id ∷ []
insert_id id (i ∷ ids) = if i == id then i ∷ ids else i ∷ insert_id id ids

unfoldable pub delete_id : ℕ → List ℕ → List ℕ
delete_id id [] = []
delete_id id (i ∷ ids) = if i == id then delete_id id ids else i ∷ delete_id id ids

module _ {S : Type 0} (backend : Backend S) where
  -- The second GET of `usedCounter`, which returns any error, a missing key included.
  abbrev pub read_back : Reply → M S ℤ
  read_back (value v) = pure v
  read_back redis_nil = raise (store_error (codes "redis: nil"))
  read_back (reply_failed e) = raise (store_error e)

  -- `usedCounter` after its first GET
  unfoldable pub seed_counter : Bytes → ℤ → Reply → M S ℤ
  seed_counter key db_used (value v) = pure v
  seed_counter key db_used redis_nil = do
    perform (backend.redis_set_nx key db_used)
    λ s. read_back (backend.redis_get key s.store) s
  seed_counter key db_used (reply_failed e) = raise (store_error e)

  unfoldable pub used_counter : Bytes → ℤ → M S ℤ
  unfolding seed_counter
  used_counter key db_used s =
      if backend.has_redis
      then seed_counter key db_used (backend.redis_get key s.store) s
      else (ok db_used, s)

  unfoldable pub quota_and_used : Bytes → QuotaError → Row → M S Usage
  unfolding used_counter
  quota_and_used key missing (found u) = do
    used ← used_counter key u.used
    pure (record { quota = u.quota; used = used })
  quota_and_used key missing record_not_found = raise missing
  quota_and_used key missing (query_failed e) = raise (store_error e)

  unfoldable pub token_quota_and_used : ℕ → M S Usage
  unfolding quota_and_used token_used_key
  token_quota_and_used id s =
      quota_and_used (token_used_key id) token_not_found (backend.token_row id s.store) s

  unfoldable pub user_quota_and_used : ℕ → M S Usage
  unfolding quota_and_used user_used_key
  user_quota_and_used id s =
      quota_and_used (user_used_key id) user_not_found (backend.user_row id s.store) s

  unfoldable pub check_remaining : ℕ → ℕ → ℤ → M S ℤ
  unfolding token_quota_and_used user_quota_and_used remaining min_remaining
  check_remaining token_id user_id est_tokens = do
    t ← token_quota_and_used token_id
    u ← user_quota_and_used user_id
    pure (min_remaining (remaining t.quota t.used) (remaining u.quota u.used))

  unfoldable pub has_remaining : ℕ → ℕ → ℤ → M S Bool
  unfolding check_remaining
  has_remaining token_id user_id est_tokens = do
    rem ← check_remaining token_id user_id est_tokens
    pure (if ltb_ℤ rem (pos 0) then true else leb_ℤ est_tokens rem)

  unfoldable pub mark_dirty : ℕ → ℕ → M S (Unit {0})
  unfolding insert_id
  mark_dirty token_id user_id s = (
    ok tt,
    record s {
      dirty_tokens = insert_id token_id s.dirty_tokens;
      dirty_users = insert_id user_id s.dirty_users;
    },
  )

  -- `Consume` without Redis, and with it
  unfoldable pub consume_db : ℕ → ℕ → ℤ → M S (Unit {0})
  consume_db token_id user_id n = do
    perform (backend.add_token_used token_id n)
    perform (backend.add_user_used user_id n)

  unfoldable pub consume_redis : ℕ → ℕ → ℤ → M S (Unit {0})
  unfolding token_quota_and_used user_quota_and_used mark_dirty
  consume_redis token_id user_id n = do
    _ ← token_quota_and_used token_id
    _ ← user_quota_and_used user_id
    perform (backend.redis_incr_by (token_used_key token_id) n)
    perform (backend.redis_incr_by (user_used_key user_id) n)
    mark_dirty token_id user_id

  unfoldable pub consume : ℕ → ℕ → ℤ → M S (Unit {0})
  unfolding consume_db consume_redis
  consume token_id user_id n =
      if leb_ℤ n (pos 0)
      then pure tt
      else if not backend.has_redis
      then consume_db token_id user_id n
      else consume_redis token_id user_id n

  abbrev pub forget_user : ℕ → M S (Unit {0})
  forget_user user_id s = (ok tt, record s { dirty_users = delete_id user_id s.dirty_users })

  unfoldable pub reset_user_usage : ℕ → M S (Unit {0})
  unfolding delete_id
  reset_user_usage user_id = do
    perform (backend.set_user_used user_id (pos 0))
    forget_user user_id
    if not backend.has_redis then pure tt else perform (backend.redis_del (user_used_key user_id))

  -- What a flush does with one entity: its counter is read and written to the row; on an error the
  -- id is marked again. The first error is kept.
  abbrev pub first_error : Option Bytes → Bytes → Option Bytes
  first_error none e = some e
  first_error (some e') e = some e'

  unfoldable pub flush_token : ℕ → Option Bytes × Service S → Option Bytes × Service S
  unfolding insert_id token_used_key
  flush_token id (first, s) = elim (backend.redis_get (token_used_key id) s.store) [
    | redis_nil ↦ (first, s)
    | reply_failed e ↦
        (first_error first e, record s { dirty_tokens = insert_id id s.dirty_tokens })
    | value v ↦
        let (failed, store') = backend.set_token_used id v s.store in
        elim failed [
          | none ↦ (first, record s { store = store' })
          | some e ↦ (
            first_error first e,
            record s { store = store'; dirty_tokens = insert_id id s.dirty_tokens },
          )
        ]
  ]

  unfoldable pub flush_user : ℕ → Option Bytes × Service S → Option Bytes × Service S
  unfolding insert_id user_used_key
  flush_user id (first, s) = elim (backend.redis_get (user_used_key id) s.store) [
    | redis_nil ↦ (first, s)
    | reply_failed e ↦ (first_error first e, record s { dirty_users = insert_id id s.dirty_users })
    | value v ↦
        let (failed, store') = backend.set_user_used id v s.store in
        elim failed [
          | none ↦ (first, record s { store = store' })
          | some e ↦ (
            first_error first e,
            record s { store = store'; dirty_users = insert_id id s.dirty_users },
          )
        ]
  ]

  unfoldable pub flush_tokens : List ℕ → Option Bytes × Service S → Option Bytes × Service S
  unfolding flush_token
  flush_tokens [] acc = acc
  flush_tokens (id ∷ ids) acc = flush_tokens ids (flush_token id acc)

  unfoldable pub flush_users : List ℕ → Option Bytes × Service S → Option Bytes × Service S
  unfolding flush_user
  flush_users [] acc = acc
  flush_users (id ∷ ids) acc = flush_users ids (flush_user id acc)

  -- `WriteBack`: the snapshot of the dirty sets, then both loops.
  unfoldable pub write_back : Service S → Option Bytes × Service S
  unfolding flush_tokens flush_users
  write_back s =
      if not backend.has_redis
      then (none, s)
      else flush_users s.dirty_users
          (flush_tokens s.dirty_tokens (none, record s { dirty_tokens = []; dirty_users = [] }))
