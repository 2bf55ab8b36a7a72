-- ===== src/Quota/Flush.antt =====
-- What `WriteBack` of server/internal/service/quota_service.go writes where both stores answer.
use hhrouter.Base.{
  ℕ, Bool, true, false, ◌||◌, not, Option, none, some, List, [], ◌∷◌, ◌==◌, ◌≡◌, refl, ap, ◌∙◌,
  if◌then◌else◌, Bool-cases, inl, inr, ==_iff,
}
use hhrouter.Base.Int.{ℤ}
use hhrouter.Base.Text.{Bytes}
use hhrouter.Quota.Store.{Usage, Backend, token_used_key, user_used_key}
use hhrouter.Quota.Service.{Service, flush_token, flush_user, flush_tokens, flush_users, write_back}
use hhrouter.Quota.Reliable.{View, IsReliable, with_used, put_rows}

abbrev pub among : ℕ → List ℕ → Bool
among id [] = false
among id (i ∷ ids) = (i == id) || among id ids

-- A row takes over its counter if it was marked and there is a counter.
abbrev pub settled : Bool → Option ℤ → Option Usage → Option Usage
settled true (some n) row = with_used n row
settled true none row = row
settled false c row = row

settled_again :
    (m : Bool) (c : Option ℤ) (row : Option Usage)
    → settled m c (settled true c row) ≡ settled true c row
settled_again true none row = refl
settled_again true (some n) none = refl
settled_again true (some n) (some u) = refl
settled_again false c row = refl

-- The rows once the counter of `i` was written.
abbrev flushed_rows : Option ℤ → ℕ → (ℕ → Option Usage) → ℕ → Option Usage
flushed_rows none i rows = rows
flushed_rows (some n) i rows = put_rows i n rows

flushed_row :
    (c : ℕ → Option ℤ) (i id : ℕ) (ids : List ℕ) (rows : ℕ → Option Usage)
    → settled (among id ids) (c id) (flushed_rows (c i) i rows id)
      ≡ settled (among id (i ∷ ids)) (c id) (rows id)
flushed_row c i id ids rows = elim (Bool-cases (i == id)) [
  | inl e ↦ rw (e, (==_iff i id).0 e) (here (c id) (among id ids))
  | inr e ↦ rw e (ap (settled (among id ids) (c id)) (there (c i) e))
]
  where
    here :
        (o : Option ℤ) (m : Bool)
        → settled m o (flushed_rows o id rows id) ≡ settled true o (rows id)
    here none m = settled_again m none (rows id)
    here (some n) m = rw ((==_iff id id).1 refl) (settled_again m (some n) (rows id))

    there : (o : Option ℤ) → (i == id) ≡ false → flushed_rows o i rows id ≡ rows id
    there none e = refl
    there (some n) e = rw e

-- Each row of `rows` behind the loop over the marked `ids`.
abbrev pub Settles : (ℕ → Option ℤ) → List ℕ → (ℕ → Option Usage) → (ℕ → Option Usage) → Type 0
Settles c ids rows rows' = (id : ℕ) → rows' id ≡ settled (among id ids) (c id) (rows id)

module _ {S : Type 0} (b : Backend S) (view : S → View) (r : IsReliable b view) where
  -- A loop returned no error, and left the counters; what it did to the rows is `Did`.
  abbrev Flushed : (View → View → Type 0) → Service S → Option Bytes × Service S → Type 0
  Flushed Did s out =
      (x : S) × (out ≡ (none, record s { store = x }))
      × ((view x).counters ≡ (view s.store).counters)
      × Did (view s.store) (view x)

  abbrev TokenDone : ℕ → View → View → Type 0
  TokenDone id v v' =
      (v'.tokens ≡ flushed_rows (v.counters (token_used_key id)) id v.tokens) × (v'.users ≡ v.users)

  flush_token-Flushed :
      (id : ℕ) (s : Service S) (o : Option ℤ)
      → (view s.store).counters (token_used_key id) ≡ o
      → Flushed (TokenDone id) s (flush_token b id (none, s))
  unfolding flush_token
  flush_token-Flushed id s none e = (
    s.store,
    rw (flush_token, r.get_law (token_used_key id) s.store, e) refl,
    refl,
    (rw e refl, refl),
  )
  flush_token-Flushed id s (some n) e =
      let (done, seen) = r.set_token_law id n s.store in
      (
        (b.set_token_used id n s.store).1,
        rw (flush_token, r.get_law (token_used_key id) s.store, e, done) refl,
        ap View.counters seen,
        (rw e (ap View.tokens seen), ap View.users seen),
      )

  abbrev TokensDone : List ℕ → View → View → Type 0
  TokensDone ids v v' =
      Settles (λ id. v.counters (token_used_key id)) ids v.tokens v'.tokens × (v'.users ≡ v.users)

  flush_tokens-Flushed :
      (ids : List ℕ) (s : Service S) → Flushed (TokensDone ids) s (flush_tokens b ids (none, s))
  unfolding flush_tokens
  flush_tokens-Flushed [] s = (s.store, refl, refl, ((λ id. refl), refl))
  flush_tokens-Flushed (i ∷ ids) s =
      let (x, e, kept, (rows, users)) = flush_token-Flushed i s _ refl in
      let (y, e', kept', (rows', users')) = flush_tokens-Flushed ids (record s { store = x }) in
      (
        y,
        ap (flush_tokens b ids) e ∙ e',
        kept' ∙ kept,
        (
          (λ id.
              rows' id
              ∙ rw (kept, rows)
                  (flushed_row (λ j. (view s.store).counters (token_used_key j)) i id ids
                    (view s.store).tokens)),
          users' ∙ users,
        ),
      )

  abbrev UserDone : ℕ → View → View → Type 0
  UserDone id v v' =
      (v'.users ≡ flushed_rows (v.counters (user_used_key id)) id v.users) × (v'.tokens ≡ v.tokens)

  flush_user-Flushed :
      (id : ℕ) (s : Service S) (o : Option ℤ)
      → (view s.store).counters (user_used_key id) ≡ o
      → Flushed (UserDone id) s (flush_user b id (none, s))
  unfolding flush_user
  flush_user-Flushed id s none e = (
    s.store,
    rw (flush_user, r.get_law (user_used_key id) s.store, e) refl,
    refl,
    (rw e refl, refl),
  )
  flush_user-Flushed id s (some n) e =
      let (done, seen) = r.set_user_law id n s.store in
      (
        (b.set_user_used id n s.store).1,
        rw (flush_user, r.get_law (user_used_key id) s.store, e, done) refl,
        ap View.counters seen,
        (rw e (ap View.users seen), ap View.tokens seen),
      )

  abbrev UsersDone : List ℕ → View → View → Type 0
  UsersDone ids v v' =
      Settles (λ id. v.counters (user_used_key id)) ids v.users v'.users × (v'.tokens ≡ v.tokens)

  flush_users-Flushed :
      (ids : List ℕ) (s : Service S) → Flushed (UsersDone ids) s (flush_users b ids (none, s))
  unfolding flush_users
  flush_users-Flushed [] s = (s.store, refl, refl, ((λ id. refl), refl))
  flush_users-Flushed (i ∷ ids) s =
      let (x, e, kept, (rows, tokens)) = flush_user-Flushed i s _ refl in
      let (y, e', kept', (rows', tokens')) = flush_users-Flushed ids (record s { store = x }) in
      (
        y,
        ap (flush_users b ids) e ∙ e',
        kept' ∙ kept,
        (
          (λ id.
              rows' id
              ∙ rw (kept, rows)
                  (flushed_row (λ j. (view s.store).counters (user_used_key j)) i id ids
                    (view s.store).users)),
          tokens' ∙ tokens,
        ),
      )

  -- Where both stores answer, WriteBack reports no error and leaves no id marked. Every marked token and
  -- user whose counter is there has the counter as its used quota in the database; all other rows, and
  -- the counters, are as they were.
  pub write_back-Settles :
      (s : Service S)
      → (x : S) × (write_back b s
          ≡ (none, record s { store = x; dirty_tokens = []; dirty_users = [] }))
        × ((view x).counters ≡ (view s.store).counters)
        × Settles
            (λ id. (view s.store).counters (token_used_key id))
            s.dirty_tokens
            (view s.store).tokens
            (view x).tokens
        × Settles
            (λ id. (view s.store).counters (user_used_key id))
            s.dirty_users
            (view s.store).users
            (view x).users
  unfolding write_back
  write_back-Settles s =
      let clean : Service S = record s { dirty_tokens = []; dirty_users = [] } in
      let (x, e, kept, (rows, users)) = flush_tokens-Flushed s.dirty_tokens clean in
      let (y, e', kept', (rows', tokens)) =
        flush_users-Flushed s.dirty_users (record clean { store = x }) in
      (
        y,
        skipped s clean ∙ ap (flush_users b s.dirty_users) e ∙ e',
        kept' ∙ kept,
        (λ id. ap (λ f. f id) tokens ∙ rows id),
        λ id. rows' id ∙ rw (kept, users) refl,
      )
    where
      skipped :
          (s clean : Service S)
          → (if not b.has_redis
              then (none, s)
              else flush_users b s.dirty_users (flush_tokens b s.dirty_tokens (none, clean)))
            ≡ flush_users b s.dirty_users (flush_tokens b s.dirty_tokens (none, clean))
      skipped s clean = simp (r.redis_on)
