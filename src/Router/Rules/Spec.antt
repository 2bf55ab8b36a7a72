-- ===== src/Router/Rules/Spec.antt =====
-- What it means that a routing rule applies to a request (server/internal/router/engine.go), and that
-- `ruleMatches` decides its match predicate.
use hhrouter.Base.{
  Bool, true, false, not, none, some, List, [], ◌∷◌, ◌≡◌, refl, ◌↔◌, ◌⊎◌, inl, inr, if◌then◌else◌,
  Bool-cases, arith, true_and_false,
}
use hhrouter.Base.Int.{ℤ, pos, ◌≤ℤ◌}
use hhrouter.Base.Text.{Bytes, contains_string, bytes_eq, bytes_eq→eq, bytes_eq_iff, is_blank}
use hhrouter.Expr.Ast.{Program, Vars, eval_program}
use hhrouter.Expr.Result
use hhrouter.Expr.Parser.{compile}
use hhrouter.Model.{RoutingRule, MatchSpec}
use hhrouter.Router.Glob.{model_matches, Matches}
use hhrouter.Router.Glob.Correct.{Answers, model_matches-Answers}
use hhrouter.Router.Rules.{
  Json, decode_match, any_model_matches, models_pass, groups_pass, tokens_pass, rule_matches,
}

abbrev pub Among : Bytes → List Bytes → Type 0
Among a [] = ⊥
Among a (x ∷ xs) = (x ≡ a) ⊎ Among a xs

-- Some pattern of the list matches.
abbrev pub SomeMatches : List Bytes → Bytes → Type 0
SomeMatches [] requested = ⊥
SomeMatches (p ∷ ps) requested = Matches p requested ⊎ SomeMatches ps requested

abbrev pub GroupsHold : List Bytes → Bytes → Type 0
GroupsHold [] group = Unit
GroupsHold (g ∷ gs) group = Among group (g ∷ gs)

abbrev pub ModelsHold : List Bytes → Bytes → Type 0
ModelsHold [] requested = Unit
ModelsHold (p ∷ ps) requested = SomeMatches (p ∷ ps) requested

-- The four dimensions of a match predicate; an empty list or a bound of 0 or less sets no condition.
pub record SpecHolds (spec : MatchSpec) (group requested : Bytes) (est_tokens : ℤ) : Type 0 where
  pub groups_hold : GroupsHold spec.groups group
  pub models_hold : ModelsHold spec.models requested
  pub min_holds : (spec.min_tokens ≤ℤ pos 0) ⊎ (spec.min_tokens ≤ℤ est_tokens)
  pub max_holds : (spec.max_tokens ≤ℤ pos 0) ⊎ (est_tokens ≤ℤ spec.max_tokens)

-- A test that never panics and decides `P`.
answer : {P : Type 0} (b : Bool) → (b ≡ true) ↔ P → Answers P (some b)
answer b e = (b, refl, e)

any_model_matches-Answers :
    (ps : List Bytes) (requested : Bytes)
    → Answers (SomeMatches ps requested) (any_model_matches ps requested)
unfolding any_model_matches
any_model_matches-Answers [] requested = answer false ((λ h. cc), λ h. absurd h)
any_model_matches-Answers (p ∷ ps) requested =
    first (model_matches-Answers p requested) (any_model_matches-Answers ps requested)
  where
    first :
        Answers (Matches p requested) (model_matches p requested)
        → Answers (SomeMatches ps requested) (any_model_matches ps requested)
        → Answers (SomeMatches (p ∷ ps) requested) (any_model_matches (p ∷ ps) requested)
    first (true, e, (sound, complete)) rest =
        rw (e, any_model_matches) (answer true ((λ _. inl (sound refl)), λ _. refl))
    first (false, e, (sound, complete)) (b, e', (sound', complete')) =
        rw (e, any_model_matches)
          (
            b,
            e',
            (
              (λ t. inr (sound' t)),
              λ m. elim m [
                | inl m' ↦ absurd (true_and_false (complete m') refl)
                | inr m' ↦ complete' m'
              ],
            ),
          )

models_pass-Answers :
    (ps : List Bytes) (requested : Bytes)
    → Answers (ModelsHold ps requested) (models_pass ps requested)
unfolding models_pass
models_pass-Answers [] requested = answer true ((λ _. tt), λ _. refl)
models_pass-Answers (p ∷ ps) requested = any_model_matches-Answers (p ∷ ps) requested

pub contains_string_iff :
    (gs : List Bytes) (group : Bytes) → (contains_string gs group ≡ true) ↔ Among group gs
unfolding contains_string
contains_string_iff [] group = ((λ h. cc), λ h. absurd h)
contains_string_iff (g ∷ gs) group =
    let (sound, complete) = contains_string_iff gs group in
    elim (Bool-cases (bytes_eq g group)) [
      | inl e ↦ rw e ((λ _. inl (bytes_eq→eq g group e)), λ _. refl)
      | inr e ↦ rw e (
        (λ h. inr (sound h)),
        λ m. elim m [
          | inl k ↦ absurd (true_and_false ((bytes_eq_iff g group).1 k) e)
          | inr k ↦ complete k
        ],
      )
    ]

groups_pass_iff :
    (gs : List Bytes) (group : Bytes) → (groups_pass gs group ≡ true) ↔ GroupsHold gs group
unfolding groups_pass
groups_pass_iff [] group = ((λ _. tt), λ _. refl)
groups_pass_iff (g ∷ gs) group = contains_string_iff (g ∷ gs) group

abbrev TokensHold : MatchSpec → ℤ → Type 0
TokensHold spec est_tokens =
    ((spec.min_tokens ≤ℤ pos 0) ⊎ (spec.min_tokens ≤ℤ est_tokens))
    × ((spec.max_tokens ≤ℤ pos 0) ⊎ (est_tokens ≤ℤ spec.max_tokens))

tokens_pass_iff : (spec : MatchSpec) (est : ℤ) → (tokens_pass spec est ≡ true) ↔ TokensHold spec est
unfolding tokens_pass
tokens_pass_iff spec est = ((λ h. (ground arith, ground arith)), λ h. ground arith)

-- `ruleMatches` always returns, and answers true exactly if the predicate holds of the request.
pub rule_matches-Answers :
    (spec : MatchSpec) (group requested : Bytes) (est : ℤ)
    → Answers (SpecHolds spec group requested est) (rule_matches spec group requested est)
unfolding rule_matches
rule_matches-Answers spec group requested est =
    let (gs, gc) = groups_pass_iff spec.groups group in
    let (b, e, (ms, mc)) = models_pass-Answers spec.models requested in
    elim (Bool-cases (groups_pass spec.groups group)) [
      | inl g ↦ rw g (decide_rest b e (gs g) ms mc)
      | inr g ↦
          rw g (answer false ((λ h. cc), λ holds. absurd (true_and_false (gc holds.groups_hold) g)))
    ]
  where
    decide_rest :
        (b : Bool)
        → models_pass spec.models requested ≡ some b
        → GroupsHold spec.groups group
        → (b ≡ true → ModelsHold spec.models requested)
        → (ModelsHold spec.models requested → b ≡ true)
        → Answers (SpecHolds spec group requested est) (elim (models_pass spec.models requested) [
          | none ↦ none
          | some b ↦ if not b then some false else some (tokens_pass spec est)
        ])
    decide_rest false e g ms mc = (false, rw e, ((λ h. cc), λ holds. mc holds.models_hold))
    decide_rest true e g ms mc = (
      tokens_pass spec est,
      rw e,
      (
        (λ t.
            let (low, high) = (tokens_pass_iff spec est).0 t in
            record { groups_hold = g; models_hold = ms refl; min_holds = low; max_holds = high }),
        λ holds. (tokens_pass_iff spec est).1 (holds.min_holds, holds.max_holds),
      ),
    )

-- A rule applies to a request: its match predicate holds, and so does its condition, if it has one.
pub record Applies (json : Json) (group requested : Bytes) (est : ℤ) (v : Vars) (r : RoutingRule)
    : Type 0 where
  pub predicate : SpecHolds (decode_match json r.match) group requested est
  pub condition :
      (is_blank r.expr ≡ true)
      ⊎ ((p : Program) × (compile r.expr ≡ Result.Result.ok p) × (eval_program p v ≡ true))
