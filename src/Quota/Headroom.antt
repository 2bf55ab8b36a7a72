-- ===== src/Quota/Headroom.antt =====
-- The arithmetic of `remaining` and `minRemaining` (server/internal/service/quota_service.go): an
-- estimate fits what they report exactly if it fits at both levels.
use hhrouter.Base.{
  suc, leb, ℕ, ◌-◌, ◌^◌, ◌≤◌, ◌<◌, Bool, true, ◌&&◌, ◌≡◌, refl, ◌↔◌, ◌⊎◌, inl, inr, if◌then◌else◌,
  arith, Bool-cases,
}
use hhrouter.Base.Int.{
  ℤ, pos, negsuc, pos_part, neg_part, ltb_ℤ, leb_ℤ, wrap64-id, ◌-ℤ◌, ◌+ℤ◌, ◌≤ℤ◌, InInt64,
}
use hhrouter.Quota.Service.{remaining, min_remaining}

-- The test of HasRemaining on what CheckRemaining reports.
abbrev pub fits : ℤ → ℤ → Bool
fits rem est = if ltb_ℤ rem (pos 0) then true else leb_ℤ est rem

pub fits-min_remaining : (a b est : ℤ) → fits (min_remaining a b) est ≡ (fits a est && fits b est)
unfolding min_remaining
fits-min_remaining a b est = ground arith

-- A quota has room for an estimate: it is unlimited, or nothing is asked for, or what was used and
-- the estimate stay within it.
abbrev pub HasRoom : ℤ → ℤ → ℤ → Type 0
HasRoom quota used est =
    (suc (pos_part quota) ≤ neg_part quota) ⊎ ((est ≤ℤ pos 0) ⊎ (used +ℤ est ≤ℤ quota))

-- A bounded quota leaves what was not used, and 0 where more was used: nothing wraps.
remaining_bounded : (q u : ℕ) → q < 2 ^ 63 → u < 2 ^ 63 → remaining (pos q) (pos u) ≡ pos (q - u)
unfolding remaining
remaining_bounded q u hq hu = elim (Bool-cases (leb u q)) [
  | inl e ↦
      let diff : pos q -ℤ pos u ≡ pos (q - u) = ground arith in
      rw (diff, wrap64-id (pos (q - u)) (omega arith, omega arith)) (ground arith)
  | inr e ↦
      let diff : pos q -ℤ pos u ≡ negsuc (u - q - 1) = ground arith in
      rw (diff, wrap64-id (negsuc (u - q - 1)) (omega arith, omega arith)) (ground arith)
]

remaining_unlimited : (n : ℕ) (used : ℤ) → remaining (negsuc n) used ≡ negsuc 0
unfolding remaining
remaining_unlimited n used = ground arith

-- For a quota in int64 and a count below 2 ^ 63, what `remaining` reports fits an estimate exactly if
-- the quota has room for it.
pub fits-remaining :
    (quota : ℤ) (u : ℕ) (est : ℤ)
    → InInt64 quota
    → u < 2 ^ 63
    → (fits (remaining quota (pos u)) est ≡ true) ↔ HasRoom quota (pos u) est
fits-remaining (pos q) u est hq hu =
    rw (remaining_bounded q u hq.0 hu) ((λ h. ground arith), λ h. ground arith)
fits-remaining (negsuc n) u est hq hu =
    rw (remaining_unlimited n (pos u)) ((λ h. inl (omega arith)), λ h. refl)
