-- ===== src/Quota/Admission.antt =====
-- What `CheckRemaining` and `HasRemaining` of server/internal/service/quota_service.go answer where
-- PostgreSQL and Redis answer.
use hhrouter.Base.{ℕ, ◌^◌, ◌<◌, Bool, true, Option, none, some, ◌≡◌, refl, ◌↔◌, ◌∙◌, ap, and_true}
use hhrouter.Base.Int.{ℤ, pos, InInt64}
use hhrouter.Base.Text.{Bytes, bytes_eq_refl}
use hhrouter.Expr.Ast.{get_or}
use hhrouter.Quota.Store.{
  Usage, found, value, Backend, token_used_key, user_used_key, token_used_key-ne-user_used_key,
}
use hhrouter.Quota.Service.{
  QuotaError, token_not_found, user_not_found, Result, ok, Service, used_counter, seed_counter,
  quota_and_used, token_quota_and_used, user_quota_and_used, check_remaining, has_remaining,
  remaining, min_remaining,
}
use hhrouter.Quota.Reliable.{
  View, IsReliable, seed, seed_other, seed_users, seed_tokens, reply_of, put_counter,
}
use hhrouter.Quota.Headroom.{fits, fits-min_remaining, HasRoom, fits-remaining}

-- What was used, as the service counts it: by the counter, or by the row where there is no counter.
abbrev pub live_used : View → Bytes → ℤ → ℤ
live_used v key db_used = get_or (v.counters key) db_used

fits-both :
    (p q : ℤ) (m n : ℕ) (est : ℤ)
    → InInt64 p
    → InInt64 q
    → m < 2 ^ 63
    → n < 2 ^ 63
    → (fits (min_remaining (remaining p (pos m)) (remaining q (pos n))) est ≡ true)
      ↔ (HasRoom p (pos m) est × HasRoom q (pos n) est)
fits-both p q m n est hp hq hm hn =
    let left = fits-remaining p m est hp hm in
    let right = fits-remaining q n est hq hn in
    rw (fits-min_remaining (remaining p (pos m)) (remaining q (pos n)) est) (
      (λ h. (left.0 (and_true _ _ h).0, right.0 (and_true _ _ h).1)),
      λ h. rw (left.1 h.0, right.1 h.1) refl,
    )

module _ {S : Type 0} (b : Backend S) (view : S → View) (r : IsReliable b view) where
  -- A run that returned `a`, and what is seen in the store behind it; the dirty sets stay.
  abbrev pub Runs : {A : Type 0} → Result A × Service S → A → Service S → View → Type 0
  Runs out a s v = (t : S) × (out ≡ (ok a, record s { store = t })) × (view t ≡ v)

  seeded :
      (key : Bytes) (db_used : ℤ) (s : Service S) (o : Option ℤ)
      → (view s.store).counters key ≡ o
      → Runs
          (seed_counter b key db_used (reply_of o) s)
          (get_or o db_used)
          s
          (seed o key db_used (view s.store))
  unfolding seed_counter
  seeded key db_used s (some v) e = (s.store, refl, refl)
  seeded key db_used s none e =
      let (wrote, seen) = r.set_nx_law key db_used s.store in
      let after = (b.redis_set_nx key db_used s.store).1 in
      let there : view after ≡ put_counter key (some db_used) (view s.store) =
        seen ∙ ap (λ (o : Option ℤ). seed o key db_used (view s.store)) e in
      let count : (view after).counters key ≡ some db_used =
        ap (λ (v : View). v.counters key) there ∙ rw (bytes_eq_refl key) refl in
      let got : b.redis_get key after ≡ value db_used = r.get_law key after ∙ ap reply_of count in
      (after, (simp (wrote, got)), there)

  pub used_counter-Runs :
      (key : Bytes) (db_used : ℤ) (s : Service S)
      → Runs
          (used_counter b key db_used s)
          (live_used (view s.store) key db_used)
          s
          (seed ((view s.store).counters key) key db_used (view s.store))
  unfolding used_counter
  used_counter-Runs key db_used s =
      rw (r.redis_on, r.get_law key s.store)
        (seeded key db_used s ((view s.store).counters key) refl)

  quota_and_used-Runs :
      (key : Bytes) (missing : QuotaError) (u : Usage) (s : Service S)
      → Runs
          (quota_and_used b key missing (found u) s)
          (record u { used = live_used (view s.store) key u.used })
          s
          (seed ((view s.store).counters key) key u.used (view s.store))
  unfolding quota_and_used
  quota_and_used-Runs key missing u s =
      let (t, e, v) = used_counter-Runs key u.used s in (t, rw e refl, v)

  pub token-Runs :
      (id : ℕ) (u : Usage) (s : Service S)
      → (view s.store).tokens id ≡ some u
      → Runs
          (token_quota_and_used b id s)
          (record u { used = live_used (view s.store) (token_used_key id) u.used })
          s
          (seed
            ((view s.store).counters (token_used_key id))
            (token_used_key id)
            u.used
            (view s.store))
  unfolding token_quota_and_used
  token-Runs id u s e =
      rw (r.token_row_law id s.store, e)
        (quota_and_used-Runs (token_used_key id) token_not_found u s)

  pub user-Runs :
      (id : ℕ) (u : Usage) (s : Service S)
      → (view s.store).users id ≡ some u
      → Runs
          (user_quota_and_used b id s)
          (record u { used = live_used (view s.store) (user_used_key id) u.used })
          s
          (seed
            ((view s.store).counters (user_used_key id))
            (user_used_key id)
            u.used
            (view s.store))
  unfolding user_quota_and_used
  user-Runs id u s e =
      rw (r.user_row_law id s.store, e) (quota_and_used-Runs (user_used_key id) user_not_found u s)

  -- Where both rows are there, with quotas in int64 and counts below 2 ^ 63 as the service counts them
  -- (by the Redis counter, or by the row where there is no counter), and both stores answer,
  -- HasRemaining answers, says true exactly if both quotas have room for the estimate, and leaves the
  -- rows and the dirty sets as they were.
  pub has_remaining-Admits :
      (token_id user_id : ℕ) (est : ℤ) (s : Service S) (t u : Usage) (m n : ℕ)
      → (view s.store).tokens token_id ≡ some t
      → (view s.store).users user_id ≡ some u
      → InInt64 t.quota
      → InInt64 u.quota
      → m < 2 ^ 63
      → n < 2 ^ 63
      → live_used (view s.store) (token_used_key token_id) t.used ≡ pos m
      → live_used (view s.store) (user_used_key user_id) u.used ≡ pos n
      → (answer : Bool) × (v : View) × (Runs (has_remaining b token_id user_id est s) answer s v)
        × ((answer ≡ true) ↔ (HasRoom t.quota (pos m) est × HasRoom u.quota (pos n) est))
        × (v.tokens ≡ (view s.store).tokens)
        × (v.users ≡ (view s.store).users)
  unfolding has_remaining check_remaining
  has_remaining-Admits token_id user_id est s t u m n et eu qt qu hm hn lt lu =
      let tk = token_used_key token_id in
      let uk = user_used_key user_id in
      let o = (view s.store).counters tk in
      let (s1, e1, v1) = token-Runs token_id t s et in
      let row1 : (view s1).users user_id ≡ some u =
        ap (λ (v : View). v.users user_id) v1
        ∙ ap (λ f. f user_id) (seed_users o tk t.used (view s.store))
        ∙ eu in
      let same : (view s1).counters uk ≡ (view s.store).counters uk =
        ap (λ (v : View). v.counters uk) v1
        ∙ seed_other o tk uk t.used (view s.store)
            (token_used_key-ne-user_used_key token_id user_id) in
      let (s2, e2, v2) = user-Runs user_id u (record s { store = s1 }) row1 in
      let count : live_used (view s1) uk u.used ≡ pos n = ap (λ o. get_or o u.used) same ∙ lu in
      let left = remaining t.quota (pos m) in
      let right = remaining u.quota (pos n) in
      let run : has_remaining b token_id user_id est s
          ≡ (ok (fits (min_remaining left right) est), record s { store = s2 }) =
        rw (e1, e2, lt, count) refl in
      let tokens_kept =
        ap View.tokens v2
        ∙ seed_tokens ((view s1).counters uk) uk u.used (view s1)
        ∙ ap View.tokens v1
        ∙ seed_tokens o tk t.used (view s.store) in
      let users_kept =
        ap View.users v2
        ∙ seed_users ((view s1).counters uk) uk u.used (view s1)
        ∙ ap View.users v1
        ∙ seed_users o tk t.used (view s.store) in
      (
        fits (min_remaining left right) est,
        view s2,
        (s2, run, refl),
        fits-both t.quota u.quota m n est qt qu hm hn,
        tokens_kept,
        users_kept,
      )
