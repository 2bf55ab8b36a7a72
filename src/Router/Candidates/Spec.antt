-- ===== src/Router/Candidates/Spec.antt =====
-- Which channels `candidateChannels` of server/internal/router/engine.go keeps: the targets that the
-- rule names, or, where it names none, the channels that serve the model.
use hhrouter.Base.{
  ℕ, true, Option, none, some, List, [], ◌∷◌, ◌==◌, ◌≡◌, refl, ◌⊎◌, inl, inr, ◌↔◌, Bool-cases,
  true_and_false, arith, ==_iff,
}
use hhrouter.Base.Text.{Bytes, bytes_eq_iff, contains_string}
use hhrouter.Expr.Ast.{lookup}
use hhrouter.Model.{Channel, RoutingRule}
use hhrouter.Router.Rules.{Json}
use hhrouter.Router.Rules.Spec.{Among, contains_string_iff}
use hhrouter.Router.Candidates.{
  decode_models, decode_mapping, is_some, channel_serves, allow_ids, allow_group, contains_id,
  keeps, keep_loop, candidate_channels,
}

-- The channel lists the model, or maps it to another name.
abbrev pub Serves : Json → Channel → Bytes → Type 0
Serves json ch model =
    Among model (decode_models json ch.models)
    ⊎ ((upstream : Bytes) × (lookup (decode_mapping json ch.model_mapping) model ≡ some upstream))

abbrev pub AmongIds : ℕ → List ℕ → Type 0
AmongIds id [] = ⊥
AmongIds id (i ∷ ids) = (i ≡ id) ⊎ AmongIds id ids

-- Ids come before a group, and both before the model.
abbrev pub Targeted : Json → Channel → List ℕ → Bytes → Bytes → Type 0
Targeted json ch (i ∷ ids) group model = AmongIds ch.id (i ∷ ids)
Targeted json ch [] (g ∷ group) model = ch.group ≡ g ∷ group
Targeted json ch [] [] model = Serves json ch model

abbrev pub Eligible : Json → Option RoutingRule → Bytes → Channel → Type 0
Eligible json rule model ch = Targeted json ch (allow_ids json rule) (allow_group rule) model

-- `out` is what is left of `cs`, in order, when all of which `P` fails is taken out.
pub data Selects (P : Channel → Type 0) : List Channel → List Channel → Type 0 where
  none_left : Selects P [] []
  kept :
      {c : Channel} {cs out : List Channel} → P c → Selects P cs out → Selects P (c ∷ cs) (c ∷ out)
  dropped :
      {c : Channel} {cs out : List Channel} → ¬ P c → Selects P cs out → Selects P (c ∷ cs) out

is_some_iff : {A : Type 0} (o : Option A) → (is_some o ≡ true) ↔ ((a : A) × (o ≡ some a))
unfolding is_some
is_some_iff none = ((λ h. cc), λ (a, e). cc)
is_some_iff (some a) = ((λ _. (a, refl)), λ _. refl)

channel_serves_iff :
    (json : Json) (ch : Channel) (model : Bytes)
    → (channel_serves json ch model ≡ true) ↔ Serves json ch model
unfolding channel_serves
channel_serves_iff json ch model =
    let (listed, list) = contains_string_iff (decode_models json ch.models) model in
    let (mapped, map) = is_some_iff (lookup (decode_mapping json ch.model_mapping) model) in
    elim (Bool-cases (contains_string (decode_models json ch.models) model)) [
      | inl e ↦ rw e ((λ _. inl (listed e)), λ _. refl)
      | inr e ↦ rw e (
        (λ h. inr (mapped h)),
        λ s. elim s [ inl m ↦ absurd (true_and_false (list m) e) | inr m ↦ map m ],
      )
    ]

contains_id_iff : (ids : List ℕ) (id : ℕ) → (contains_id ids id ≡ true) ↔ AmongIds id ids
unfolding contains_id
contains_id_iff [] id = ((λ h. cc), λ h. absurd h)
contains_id_iff (i ∷ ids) id =
    let (sound, complete) = contains_id_iff ids id in
    elim (Bool-cases (i == id)) [
      | inl e ↦ rw e ((λ _. inl ((==_iff i id).0 e)), λ _. refl)
      | inr e ↦ rw e (
        (λ h. inr (sound h)),
        λ m. elim m [ inl k ↦ absurd (true_and_false ((==_iff i id).1 k) e) | inr k ↦ complete k ],
      )
    ]

keeps_iff :
    (json : Json) (ids : List ℕ) (group model : Bytes) (ch : Channel)
    → (keeps json ids group model ch ≡ true) ↔ Targeted json ch ids group model
unfolding keeps
keeps_iff json (i ∷ ids) group model ch =
    let (sound, complete) = contains_id_iff (i ∷ ids) ch.id in
    ((λ h. sound (ground arith)), λ t. rw (complete t))
keeps_iff json [] (g ∷ group) model ch =
    let (sound, complete) = bytes_eq_iff ch.group (g ∷ group) in
    ((λ h. sound (ground arith)), λ t. rw (complete t))
keeps_iff json [] [] model ch =
    let (sound, complete) = channel_serves_iff json ch model in
    ((λ h. sound (ground arith)), λ t. rw (complete t))

keep_loop-Selects :
    (json : Json) (ids : List ℕ) (group model : Bytes) (cs : List Channel)
    → Selects (λ ch. Targeted json ch ids group model) cs (keep_loop json ids group model cs)
unfolding keep_loop
keep_loop-Selects json ids group model [] = none_left
keep_loop-Selects json ids group model (ch ∷ cs) =
    let (sound, complete) = keeps_iff json ids group model ch in
    let rest = keep_loop-Selects json ids group model cs in
    elim (Bool-cases (keeps json ids group model ch)) [
      | inl e ↦ rw e (kept (sound e) rest)
      | inr e ↦ rw e (dropped (λ t. true_and_false (complete t) e) rest)
    ]

-- `candidateChannels` keeps, in the order of the query, the channels that are eligible, and no other.
pub candidate_channels-Selects :
    (json : Json) (rule : Option RoutingRule) (model : Bytes) (cs : List Channel)
    → Selects (Eligible json rule model) cs (candidate_channels json rule model cs)
unfolding candidate_channels
candidate_channels-Selects json rule model cs =
    keep_loop-Selects json (allow_ids json rule) (allow_group rule) model cs
