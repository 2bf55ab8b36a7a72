-- ===== src/Router/Balance/Buckets.antt =====
-- The priority buckets of server/internal/router/engine.go: the sorted priorities fall strictly, and
-- the buckets taken in that order hold each candidate once.
use mathlib.Core.List.{Perm, perm_middle}
use mathlib.Core.List.Perm
use hhrouter.Base.{
  suc, ◌+◌, ◌≤◌, ◌≡◌, refl, true, false, ◌||◌, List, [], ◌∷◌, ◌++◌, arith, Bool-cases, inl, inr,
}
use hhrouter.Base.Int.{ℤ, pos_part, neg_part, leb_ℤ, eqb_ℤ, eqb_ℤ_iff}
use hhrouter.Base.Predicates.{All, All-map}
use hhrouter.Model.{Channel}
use hhrouter.Router.Balance.{has_priority, priorities, insert_desc, sort_desc, bucket}
use hhrouter.Router.Balance.Shuffle.{weight_sum}

abbrev pub Below : ℤ → ℤ → Type 0
Below p q = suc (pos_part q + neg_part p) ≤ pos_part p + neg_part q

abbrev pub StrictDesc : List ℤ → Type 0
StrictDesc [] = Unit
StrictDesc (p ∷ prios) = All (Below p) prios × StrictDesc prios

Below-trans : (p q r : ℤ) → Below p q → Below q r → Below p r
Below-trans p q r h k = omega arith

has_priority-insert_desc :
    (x p : ℤ) (prios : List ℤ)
    → has_priority x (insert_desc p prios) ≡ (eqb_ℤ p x || has_priority x prios)
unfolding has_priority insert_desc
has_priority-insert_desc x p [] = refl
has_priority-insert_desc x p (q ∷ prios) = ground (arith, has_priority-insert_desc x p prios)

has_priority-sort_desc :
    (x : ℤ) (prios : List ℤ) → has_priority x (sort_desc prios) ≡ has_priority x prios
unfolding has_priority sort_desc
has_priority-sort_desc x [] = refl
has_priority-sort_desc x (p ∷ prios) =
    rw (has_priority-insert_desc x p (sort_desc prios), has_priority-sort_desc x prios)

All-insert_desc :
    (P : ℤ → Type 0) (p : ℤ) (prios : List ℤ) → P p → All P prios → All P (insert_desc p prios)
unfolding insert_desc
All-insert_desc P p [] h k = (h, tt)
All-insert_desc P p (q ∷ prios) h k = elim (Bool-cases (leb_ℤ q p)) [
  | inl e ↦ rw e (h, k)
  | inr e ↦ rw e (k.0, All-insert_desc P p prios h k.1)
]

insert_desc-StrictDesc :
    (p : ℤ) (prios : List ℤ)
    → has_priority p prios ≡ false
    → StrictDesc prios
    → StrictDesc (insert_desc p prios)
unfolding insert_desc has_priority
insert_desc-StrictDesc p [] h s = (tt, tt)
insert_desc-StrictDesc p (q ∷ prios) h s = elim (Bool-cases (leb_ℤ q p)) [
  | inl e ↦
      let below : Below p q = ground arith in
      rw e ((below, All-map (Below q) (Below p) (λ r. Below-trans p q r below) prios s.0), s)
  | inr e ↦ rw e (
    All-insert_desc (Below q) p prios (ground arith) s.0,
    insert_desc-StrictDesc p prios (ground arith) s.1,
  )
]

-- The keys of a map are distinct.
abbrev Distinct : List ℤ → Type 0
Distinct [] = Unit
Distinct (p ∷ prios) = (has_priority p prios ≡ false) × Distinct prios

sort_desc-StrictDesc : (prios : List ℤ) → Distinct prios → StrictDesc (sort_desc prios)
unfolding sort_desc
sort_desc-StrictDesc [] d = tt
sort_desc-StrictDesc (p ∷ prios) d =
    insert_desc-StrictDesc p (sort_desc prios) (rw (has_priority-sort_desc p prios) d.0)
      (sort_desc-StrictDesc prios d.1)

priorities-Distinct : (cs : List Channel) → Distinct (priorities cs)
unfolding priorities
priorities-Distinct [] = tt
priorities-Distinct (c ∷ cs) = elim (Bool-cases (has_priority c.priority (priorities cs))) [
  | inl e ↦ rw e (priorities-Distinct cs)
  | inr e ↦ rw e (e, priorities-Distinct cs)
]

pub sorted-StrictDesc : (cs : List Channel) → StrictDesc (sort_desc (priorities cs))
sorted-StrictDesc cs = sort_desc-StrictDesc (priorities cs) (priorities-Distinct cs)

abbrev pub Covers : List ℤ → List Channel → Type 0
Covers prios cs = All (λ c. has_priority c.priority prios ≡ true) cs

eqb_ℤ-refl : (p : ℤ) → eqb_ℤ p p ≡ true
eqb_ℤ-refl p = (eqb_ℤ_iff p p).1 refl

priorities_step :
    (c : Channel) (cs : List Channel) (x : ℤ)
    → has_priority x (priorities (c ∷ cs)) ≡ (eqb_ℤ c.priority x || has_priority x (priorities cs))
unfolding priorities has_priority
priorities_step c cs x = elim (Bool-cases (has_priority c.priority (priorities cs))) [
  | inl e ↦ elim (Bool-cases (eqb_ℤ c.priority x)) [
    | inl same ↦ rw (e, same) (rw ((eqb_ℤ_iff c.priority x).0 same) at e)
    | inr other ↦ rw (e, other)
  ]
  | inr e ↦ rw e
]

priorities-Covers : (cs : List Channel) → Covers (priorities cs) cs
priorities-Covers [] = tt
priorities-Covers (c ∷ cs) = (
  rw (priorities_step c cs c.priority, eqb_ℤ-refl c.priority),
  All-map _ _ (λ d h. rw (priorities_step c cs d.priority) (ground arith)) cs
      (priorities-Covers cs),
)

pub sorted-Covers : (cs : List Channel) → Covers (sort_desc (priorities cs)) cs
sorted-Covers cs =
    All-map _ _ (λ c h. rw (has_priority-sort_desc c.priority (priorities cs)) h) cs
      (priorities-Covers cs)

-- The buckets, one after the other.
abbrev pub buckets : List ℤ → List Channel → List Channel
buckets [] cs = []
buckets (p ∷ prios) cs = bucket p cs ++ buckets prios cs

bucket_in :
    (p : ℤ) (c : Channel) (cs : List Channel)
    → eqb_ℤ c.priority p ≡ true
    → bucket p (c ∷ cs) ≡ c ∷ bucket p cs
unfolding bucket
bucket_in p c cs h = rw h

bucket_out :
    (p : ℤ) (c : Channel) (cs : List Channel)
    → eqb_ℤ c.priority p ≡ false
    → bucket p (c ∷ cs) ≡ bucket p cs
unfolding bucket
bucket_out p c cs h = rw h

-- A channel of another priority than those listed changes no bucket.
buckets_out :
    (prios : List ℤ) (c : Channel) (cs : List Channel)
    → All (Below c.priority) prios
    → buckets prios (c ∷ cs) ≡ buckets prios cs
buckets_out [] c cs h = refl
buckets_out (p ∷ prios) c cs h = rw (bucket_out p c cs (ground arith), buckets_out prios c cs h.1)

-- A channel of a priority that is listed joins one bucket.
buckets_in :
    (prios : List ℤ) (c : Channel) (cs : List Channel)
    → StrictDesc prios
    → has_priority c.priority prios ≡ true
    → Perm (buckets prios (c ∷ cs)) (c ∷ buckets prios cs)
unfolding has_priority
buckets_in [] c cs s h = cc
buckets_in (p ∷ prios) c cs s h = elim (Bool-cases (eqb_ℤ c.priority p)) [
  | inl e ↦
      let same : c.priority ≡ p = (eqb_ℤ_iff c.priority p).0 e in
      let below : All (Below c.priority) prios = rw same s.0 in
      rw (bucket_in p c cs e, buckets_out prios c cs below)
        (Perm.refl (c ∷ (bucket p cs ++ buckets prios cs)))
  | inr e ↦ rw (bucket_out p c cs e) (
      Perm.trans (Perm.append (Perm.refl (bucket p cs)) (buckets_in prios c cs s.1 (ground arith)))
        (perm_middle (bucket p cs) (buckets prios cs)))
]

buckets_nil : (prios : List ℤ) → buckets prios [] ≡ []
unfolding bucket
buckets_nil [] = refl
buckets_nil (p ∷ prios) = buckets_nil prios

-- Taken in strictly falling order, the buckets of priorities that cover all the candidates hold each
-- candidate once.
pub buckets-Perm :
    (prios : List ℤ) (cs : List Channel)
    → StrictDesc prios
    → Covers prios cs
    → Perm (buckets prios cs) cs
buckets-Perm prios [] s h = rw (buckets_nil prios) (Perm.refl [])
buckets-Perm prios (c ∷ cs) s h =
    Perm.trans (buckets_in prios c cs s h.0) (Perm.cons c (buckets-Perm prios cs s h.1))

pub bucket-All : (p : ℤ) (cs : List Channel) → All (λ c. c.priority ≡ p) (bucket p cs)
unfolding bucket
bucket-All p [] = tt
bucket-All p (c ∷ cs) = elim (Bool-cases (eqb_ℤ c.priority p)) [
  | inl e ↦ rw e ((eqb_ℤ_iff c.priority p).0 e, bucket-All p cs)
  | inr e ↦ rw e (bucket-All p cs)
]

pub weight_sum-bucket_le : (p : ℤ) (cs : List Channel) → weight_sum (bucket p cs) ≤ weight_sum cs
unfolding bucket
weight_sum-bucket_le p [] = omega arith
weight_sum-bucket_le p (c ∷ cs) = ground (arith, weight_sum-bucket_le p cs)
