-- ===== src/Router/Candidates.antt =====
-- Candidate channels of server/internal/router/engine.go: `candidateChannels`, `channelServes` and
-- `UpstreamModel`.
pub mod Spec
use hhrouter.Base.{
  ℕ, Bool, true, false, ◌||◌, ◌&&◌, not, Option, none, some, List, [], ◌∷◌, ◌==◌, if◌then◌else◌,
}
use hhrouter.Base.Text.{Bytes, bytes_eq, contains_string, trim_space}
use hhrouter.Expr.Ast.{lookup}
use hhrouter.Model.{Channel, RoutingRule}
use hhrouter.Router.Rules.{Json, is_empty}

unfoldable pub decode_ids : Json → Bytes → List ℕ
unfolding is_empty
decode_ids json raw = if is_empty raw then [] else json.ids raw

unfoldable pub decode_models : Json → Bytes → List Bytes
unfolding is_empty
decode_models json raw = if is_empty raw then [] else json.names raw

unfoldable pub decode_mapping : Json → Bytes → List (Bytes × Bytes)
unfolding is_empty
decode_mapping json raw = if is_empty raw then [] else json.mapping raw

unfoldable pub is_some {ℓ} : {A : Type ℓ} → Option A → Bool
is_some none = false
is_some (some a) = true

unfoldable pub channel_serves : Json → Channel → Bytes → Bool
unfolding decode_models decode_mapping contains_string lookup is_some
channel_serves json ch want =
    if contains_string (decode_models json ch.models) want
    then true
    else is_some (lookup (decode_mapping json ch.model_mapping) want)

unfoldable pub upstream_model : Json → Channel → Bytes → Bytes
unfolding decode_mapping lookup bytes_eq
upstream_model json ch external = elim (lookup (decode_mapping json ch.model_mapping) external) [
  | none ↦ external
  | some upstream ↦ if not (bytes_eq upstream []) then upstream else external
]

-- allowIDs and allowGroup; an empty list is the nil map.
unfoldable pub allow_ids : Json → Option RoutingRule → List ℕ
unfolding decode_ids
allow_ids json none = []
allow_ids json (some r) = decode_ids json r.target_channel_ids

unfoldable pub allow_group : Option RoutingRule → Bytes
unfolding trim_space
allow_group none = []
allow_group (some r) = trim_space r.target_group

unfoldable pub contains_id : List ℕ → ℕ → Bool
contains_id [] id = false
contains_id (i ∷ ids) id = (i == id) || contains_id ids id

-- One round of the loop over the enabled channels: whether the channel is kept.
unfoldable pub keeps : Json → List ℕ → Bytes → Bytes → Channel → Bool
unfolding is_empty bytes_eq
keeps json ids group model ch =
    let targets_pinned = not (is_empty ids) || not (bytes_eq group []) in
    if not (is_empty ids) && not (contains_id ids ch.id)
    then false
    else if is_empty ids && (not (bytes_eq group []) && not (bytes_eq ch.group group))
    then false
    else if not targets_pinned && not (channel_serves json ch model)
    then false
    else true

unfoldable pub keep_loop : Json → List ℕ → Bytes → Bytes → List Channel → List Channel
unfolding keeps
keep_loop json ids group model [] = []
keep_loop json ids group model (ch ∷ channels) =
    let rest = keep_loop json ids group model channels in
    if keeps json ids group model ch then ch ∷ rest else rest

-- `candidateChannels`, on the enabled channels that its query found.
unfoldable pub candidate_channels : Json → Option RoutingRule → Bytes → List Channel → List Channel
unfolding keep_loop allow_ids allow_group
candidate_channels json rule effective_model channels =
    keep_loop json (allow_ids json rule) (allow_group rule) effective_model channels
