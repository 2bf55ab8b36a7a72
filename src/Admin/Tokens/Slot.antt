-- ===== src/Admin/Tokens/Slot.antt =====
-- A table tokens of at most one row, which keeps the laws asked of the statements.
use hhrouter.Base.{
  subst, ℕ, Bool, Bool-cases, Option, none, some, [], ◌⊎◌, inl, inr, ◌≡◌, refl, ◌≢◌, ◌==◌, ==_iff,
  sym, ap, ◌∙◌, ◌&&◌, and_true, if◌then◌else◌, true_and_false, true, false,
}
use hhrouter.Base.Text.{Bytes, codes, bytes_eq, bytes_eq_refl}
use hhrouter.Admin.Tokens.{TokenRow, Found, found, no_record, Database}
use hhrouter.Base.Int.{ℤ, pos, negsuc, eqb_ℤ}
use hhrouter.Admin.Tokens.Issued.{Kept, IsWritten, IsIndexed}
use hhrouter.Admin.Tokens.Owned.{IsTable, found_injective}

abbrev pub Slot : Type 0
Slot = Option TokenRow

abbrev pub find : Bool → TokenRow → Found
find true r = found r
find false r = no_record

abbrev pub slot_first : ℕ → Slot → Found
slot_first i none = no_record
slot_first i (some r) = find (r.id == i) r

abbrev pub slot_by_hash : Bytes → Slot → Found
slot_by_hash h none = no_record
slot_by_hash h (some r) = find (bytes_eq r.key_hash h) r

-- A column `default:-1`, of which GORM does not write a zero.
abbrev pub defaulted : ℤ → ℤ
defaulted n = if eqb_ℤ n (pos 0) then negsuc 0 else n

abbrev pub first_row : TokenRow → TokenRow
first_row t = record t { id = 1; quota = defaulted t.quota }

abbrev pub slot_create : TokenRow → Slot → (Bytes ⊎ TokenRow) × Slot
slot_create t none = (inr (first_row t), some (first_row t))
slot_create t (some r) = (inl (codes "full"), some r)

abbrev pub kept_or : Bool → TokenRow → TokenRow → TokenRow
kept_or true t r = t
kept_or false t r = r

abbrev pub slot_save : TokenRow → Slot → Option Bytes × Slot
slot_save t none = (some (codes "no row"), none)
slot_save t (some r) = (none, some (kept_or (r.id == t.id) t r))

abbrev pub slot_or_empty : Bool → TokenRow → Slot
slot_or_empty true r = none
slot_or_empty false r = some r

abbrev pub slot_delete : ℕ → ℕ → Slot → (Bytes ⊎ ℕ) × Slot
slot_delete j user none = (inr 0, none)
slot_delete j user (some r) = (
  inr (if (r.id == j) && (r.user_id == user) then 1 else 0),
  slot_or_empty ((r.id == j) && (r.user_id == user)) r,
)

abbrev pub slot : Database Slot
slot = record {
  first = slot_first;
  first_by_hash = slot_by_hash;
  rows_of = λ user s. inr [];
  user_group = λ user s. some (codes "team");
  create = slot_create;
  save = slot_save;
  delete = slot_delete;
}

found_or_not : Found → Bool
found_or_not (found r) = true
found_or_not _ = false

pub missing_not_found : {r : TokenRow} → no_record ≡ found r → ⊥
unfolding found_or_not
missing_not_found h = true_and_false refl (sym (ap found_or_not h))

found_row : (b : Bool) (t r : TokenRow) → find b t ≡ found r → (b ≡ true) × (t ≡ r)
found_row true t r h = (refl, found_injective h)
found_row false t r h = absurd (missing_not_found h)

slot_first_law : (i : ℕ) (s : Slot) (r : TokenRow) → slot_first i s ≡ found r → r.id ≡ i
slot_first_law i none r h = absurd (missing_not_found h)
slot_first_law i (some t) r h =
    let (b, e) = found_row (t.id == i) t r h in
    ap (λ (x : TokenRow). x.id) (sym e) ∙ (==_iff t.id i).0 b

slot_create_keeps :
    (t : TokenRow) (i : ℕ) (s : Slot) (r : TokenRow)
    → slot_first i s ≡ found r
    → slot_first i (slot_create t s).1 ≡ found r
slot_create_keeps t i none r h = absurd (missing_not_found h)
slot_create_keeps t i (some u) r h = h

Kept-refl : (t : TokenRow) → Kept t t
Kept-refl t = record {
  owner_kept = refl;
  hash_kept = refl;
  name_kept = λ h. refl;
  group_kept = λ h. refl;
  key_kept = λ h. h;
}

first_row-Kept : (t : TokenRow) → Kept t (first_row t)
first_row-Kept t = record {
  owner_kept = refl;
  hash_kept = refl;
  name_kept = λ h. refl;
  group_kept = λ h. refl;
  key_kept = λ h. h;
}

slot_create_writes :
    (t : TokenRow) (i : ℕ) (s : Slot) (r : TokenRow)
    → slot_first i (slot_create t s).1 ≡ found r
    → (slot_first i s ≡ found r) ⊎ Kept t r
slot_create_writes t i none r h =
    let (b, e) = found_row (1 == i) (first_row t) r h in inr (subst (Kept t) e (first_row-Kept t))
slot_create_writes t i (some u) r h = inl h

slot_save_keeps :
    (t : TokenRow) (i : ℕ) (s : Slot) (r : TokenRow)
    → i ≢ t.id
    → slot_first i s ≡ found r
    → slot_first i (slot_save t s).1 ≡ found r
slot_save_keeps t i none r other h = absurd (missing_not_found h)
slot_save_keeps t i (some u) r other h = elim (Bool-cases (u.id == t.id)) [
  | inl e ↦
      let (b, same) = found_row (u.id == i) u r h in
      absurd (other (sym ((==_iff u.id i).0 b) ∙ (==_iff u.id t.id).0 e))
  | inr e ↦ rw e h
]

slot_save_writes :
    (t : TokenRow) (i : ℕ) (s : Slot) (r : TokenRow)
    → slot_first i (slot_save t s).1 ≡ found r
    → (slot_first i s ≡ found r) ⊎ Kept t r
slot_save_writes t i none r h = inl h
slot_save_writes t i (some u) r h = written (u.id == t.id) h
  where
    written :
        (b : Bool)
        → slot_first i (some (kept_or b t u)) ≡ found r
        → (slot_first i (some u) ≡ found r) ⊎ Kept t r
    written true at = inr (subst (Kept t) (found_row (t.id == i) t r at).1 (Kept-refl t))
    written false at = inl at

slot_delete_keeps :
    (j user i : ℕ) (s : Slot) (r : TokenRow)
    → user ≢ r.user_id
    → slot_first i s ≡ found r
    → slot_first i (slot_delete j user s).1 ≡ found r
slot_delete_keeps j user i none r other h = h
slot_delete_keeps j user i (some u) r other h =
    elim (Bool-cases ((u.id == j) && (u.user_id == user))) [
      | inl e ↦
          let (b, same) = found_row (u.id == i) u r h in
          let (at, mine) = and_true (u.id == j) (u.user_id == user) e in
          absurd
            (other (sym ((==_iff u.user_id user).0 mine) ∙ ap (λ (x : TokenRow). x.user_id) same))
      | inr e ↦ rw e h
    ]

slot_delete_writes :
    (j user i : ℕ) (s : Slot) (r : TokenRow)
    → slot_first i (slot_delete j user s).1 ≡ found r
    → slot_first i s ≡ found r
slot_delete_writes j user i none r h = h
slot_delete_writes j user i (some u) r h = left ((u.id == j) && (u.user_id == user)) h
  where
    left : (b : Bool) → slot_first i (slot_or_empty b u) ≡ found r → slot_first i (some u) ≡ found r
    left true at = absurd (missing_not_found at)
    left false at = at

pub slot-IsTable : IsTable slot
slot-IsTable = record {
  first_law = slot_first_law;
  create_keeps = slot_create_keeps;
  save_keeps = slot_save_keeps;
  delete_keeps = slot_delete_keeps;
}

pub slot-IsWritten : IsWritten slot
slot-IsWritten = record {
  create_writes = slot_create_writes;
  save_writes = slot_save_writes;
  delete_writes = slot_delete_writes;
}

answered : TokenRow → Bytes ⊎ TokenRow → TokenRow
answered d (inl e) = d
answered d (inr a) = a

answered_row : (t a : TokenRow) → Path (Bytes ⊎ TokenRow) (inr t) (inr a) → t ≡ a
unfolding answered
answered_row t a h = ap (answered t) h

pub slot-IsIndexed : IsIndexed slot
slot-IsIndexed t a none h = (
  subst (Kept t) (answered_row (first_row t) a h) (first_row-Kept t),
  first_row t,
  rw (bytes_eq_refl t.key_hash) refl,
  first_row-Kept t,
)
slot-IsIndexed t a (some u) h = cc
