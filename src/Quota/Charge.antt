-- ===== src/Quota/Charge.antt =====
-- What `Consume` of server/internal/service/quota_service.go charges where Redis answers.
use hhrouter.Base.{
  ℕ, ◌<◌, false, Option, none, some, ◌≡◌, refl, ap, ◌∙◌, sym, subst, Bool-cases, inl, inr, ◌≢◌,
  arith,
}
use hhrouter.Base.Int.{ℤ, pos, leb_ℤ, ◌+ℤ◌, InInt64}
use hhrouter.Base.Text.{Bytes, bytes_eq, bytes_eq→eq, bytes_eq_refl}
use hhrouter.Expr.Ast.{get_or}
use hhrouter.Quota.Store.{
  Usage, Backend, token_used_key, user_used_key, token_used_key-ne-user_used_key,
}
use hhrouter.Quota.Service.{ok, Service, insert_id, mark_dirty, consume_redis, consume}
use hhrouter.Quota.Reliable.{
  View, IsReliable, Writes, seed, seed_other, seed_tokens, seed_users, put_counter,
}
use hhrouter.Quota.Admission.{live_used, token-Runs, user-Runs}

-- Behind the seed a counter is there, and it holds what was used.
seed_there :
    (o : Option ℤ) (k : Bytes) (n : ℤ) (v : View)
    → v.counters k ≡ o
    → (seed o k n v).counters k ≡ some (get_or o n)
seed_there none k n v e = rw (bytes_eq_refl k)
seed_there (some m) k n v e = e

put_counter_other :
    (k j : Bytes) (o : Option ℤ) (v : View) → k ≢ j → (put_counter k o v).counters j ≡ v.counters j
put_counter_other k j o v ne = elim (Bool-cases (bytes_eq k j)) [
  | inl e ↦ absurd (ne (bytes_eq→eq k j e))
  | inr e ↦ rw e
]

put_counter_there : (k : Bytes) (o : Option ℤ) (v : View) → (put_counter k o v).counters k ≡ o
put_counter_there k o v = rw (bytes_eq_refl k)

-- One counter went up by `n`.
abbrev pub Charged : View → View → Bytes → ℤ → ℤ → Type 0
Charged v v' key db_used n = v'.counters key ≡ some (live_used v key db_used +ℤ n)

-- Both counters went up by `n`, and nothing else changed.
abbrev pub ChargedBoth : View → View → Bytes → ℤ → Bytes → ℤ → ℤ → Type 0
ChargedBoth v v' tk t uk u n =
    Charged v v' tk t n
    × Charged v v' uk u n
    × (v'.tokens ≡ v.tokens)
    × (v'.users ≡ v.users)
    × ((key : Bytes) → tk ≢ key → uk ≢ key → v'.counters key ≡ v.counters key)

-- The views that the four steps of a charge leave behind.
module _ (v0 : View) (tk uk : Bytes) (apart : tk ≢ uk) (t u n : ℤ) where
  abbrev seeded : View
  seeded = seed (v0.counters tk) tk t v0

  abbrev seeded_both : View
  seeded_both = seed (seeded.counters uk) uk u seeded

  abbrev charged : View
  charged = put_counter tk (some (live_used v0 tk t +ℤ n)) seeded_both

  abbrev charged_both : View
  charged_both = put_counter uk (some (live_used v0 uk u +ℤ n)) charged

  token_there : seeded_both.counters tk ≡ some (live_used v0 tk t)
  token_there =
      seed_other (seeded.counters uk) uk tk u seeded (λ e. apart (sym e))
      ∙ seed_there (v0.counters tk) tk t v0 refl

  user_there : charged.counters uk ≡ some (live_used v0 uk u)
  user_there =
      put_counter_other tk uk (some (live_used v0 tk t +ℤ n)) seeded_both apart
      ∙ seed_there (seeded.counters uk) uk u seeded refl
      ∙ ap (λ o. some (get_or o u)) (seed_other (v0.counters tk) tk uk t v0 apart)

  charged_both-ChargedBoth : ChargedBoth v0 charged_both tk t uk u n
  charged_both-ChargedBoth = (
    put_counter_other uk tk _ charged (λ e. apart (sym e)) ∙ put_counter_there tk _ seeded_both,
    put_counter_there uk _ charged,
    seed_tokens (seeded.counters uk) uk u seeded ∙ seed_tokens (v0.counters tk) tk t v0,
    seed_users (seeded.counters uk) uk u seeded ∙ seed_users (v0.counters tk) tk t v0,
    λ key nt nu.
        put_counter_other uk key _ charged nu
        ∙ put_counter_other tk key _ seeded_both nt
        ∙ seed_other (seeded.counters uk) uk key u seeded nu
        ∙ seed_other (v0.counters tk) tk key t v0 nt,
  )

module _ {S : Type 0} (b : Backend S) (view : S → View) (r : IsReliable b view) where
  -- INCRBY of a counter that is there.
  incremented :
      (key : Bytes) (m n : ℤ) (x : S) (v : View)
      → view x ≡ v
      → v.counters key ≡ some m
      → InInt64 (m +ℤ n)
      → Writes view (b.redis_incr_by key n x) (put_counter key (some (m +ℤ n)) v)
  incremented key m n x v e there fits =
      let (done, seen) = r.incr_law key m n x (ap (λ (w : View). w.counters key) e ∙ there) fits in
      (done, seen ∙ ap (put_counter key (some (m +ℤ n))) e)

  through_redis :
      (token_id user_id n : ℕ) (s : Service S)
      → 0 < n
      → consume b token_id user_id (pos n) s ≡ consume_redis b token_id user_id (pos n) s
  unfolding consume
  through_redis token_id user_id n s positive =
      let due : leb_ℤ (pos n) (pos 0) ≡ false = ground arith in simp (due, r.redis_on)

  -- Where both rows are there and both stores answer, Consume of n > 0 micro-dollars succeeds: the
  -- counters of the token and of its user hold what was used before and n more, no other counter and
  -- no row changes, and both ids wait for the write-back. The sums must fit an int64.
  pub consume-ChargedBoth :
      (token_id user_id n : ℕ) (s : Service S) (t u : Usage)
      → (view s.store).tokens token_id ≡ some t
      → (view s.store).users user_id ≡ some u
      → 0 < n
      → InInt64 (live_used (view s.store) (token_used_key token_id) t.used +ℤ pos n)
      → InInt64 (live_used (view s.store) (user_used_key user_id) u.used +ℤ pos n)
      → (x : S) × (consume b token_id user_id (pos n) s ≡ (
        ok tt,
        record {
          store = x;
          dirty_tokens = insert_id token_id s.dirty_tokens;
          dirty_users = insert_id user_id s.dirty_users;
        },
      ))
        × ChargedBoth
            (view s.store)
            (view x)
            (token_used_key token_id)
            t.used
            (user_used_key user_id)
            u.used
            (pos n)
  unfolding consume_redis mark_dirty
  consume-ChargedBoth token_id user_id n s t u et eu positive ft fu =
      let tk = token_used_key token_id in
      let uk = user_used_key user_id in
      let apart = token_used_key-ne-user_used_key token_id user_id in
      let v0 = view s.store in
      let (s1, e1, v1) = token-Runs b view r token_id t s et in
      let row : (view s1).users user_id ≡ some u =
        ap (λ (v : View). v.users user_id) v1
        ∙ ap (λ f. f user_id) (seed_users (v0.counters tk) tk t.used v0)
        ∙ eu in
      let (s2, e2, v2) = user-Runs b view r user_id u (record s { store = s1 }) row in
      let seen : view s2 ≡ seeded_both v0 tk uk apart t.used u.used (pos n) =
        v2 ∙ ap (λ (v : View). seed (v.counters uk) uk u.used v) v1 in
      let (w3, v3) =
        incremented tk _ (pos n) s2 _ seen (token_there v0 tk uk apart t.used u.used (pos n)) ft in
      let s3 = (b.redis_incr_by tk (pos n) s2).1 in
      let (w4, v4) =
        incremented uk _ (pos n) s3 _ v3 (user_there v0 tk uk apart t.used u.used (pos n)) fu in
      (
        (b.redis_incr_by uk (pos n) s3).1,
        through_redis token_id user_id n s positive ∙ rw (e1, e2, w3, w4) refl,
        subst (λ v. ChargedBoth v0 v tk t.used uk u.used (pos n)) (sym v4)
            (charged_both-ChargedBoth v0 tk uk apart t.used u.used (pos n)),
      )
