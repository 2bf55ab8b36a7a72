-- ===== src/Router/Selection.antt =====
-- The result of routing in server/internal/router/engine.go, and the walk over its candidates.
pub mod Failover
use hhrouter.Base.{
  ℕ, zero, suc, ◌+◌, Bool, true, false, ◌||◌, not, Option, none, some, List, [], ◌∷◌, leb,
  if◌then◌else◌, length, get_elem?,
}
use hhrouter.Base.Int.{ℤ, pos, leb_ℤ}
use hhrouter.Base.Text.{Bytes, bytes_eq}
use hhrouter.Model.{Channel, RoutingRule}

pub record ProbeResult : Type 0 where
  pub w : ℤ
  pub t : ℤ
  pub name : Bytes
  pub err : Bytes

pub record Selection : Type 0 where
  pub rule : Option RoutingRule
  pub model : Bytes
  pub probe : Option ProbeResult
  pub effective_model : Bytes
  pub candidates : List Channel
  pub max_retries : ℤ
  pub cursor : ℕ

-- Selection.EffectiveModel
unfoldable pub serving_model : Selection → Bytes
unfolding bytes_eq
serving_model s = if not (bytes_eq s.effective_model []) then s.effective_model else s.model

-- Selection.Next: `none` is ErrFailoverExhausted.
unfoldable pub next : Selection → Option Channel × Selection
next s =
    if leb (length s.candidates) s.cursor || leb_ℤ s.max_retries (pos s.cursor)
    then (none, s)
    else (get_elem? s.candidates s.cursor, record s { cursor = s.cursor + 1 })
