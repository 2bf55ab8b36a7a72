-- ===== src/Adapter/Profile.antt =====
-- Bedrock's URLs and inference profiles (server/internal/adapter/bedrock_adapter.go).
use hhrouter.Base.{
  Bool, true, false, ◌||◌, not, [], ◌∷◌, ◌++◌, ◌==◌, if◌then◌else◌, ◌≡◌, refl, ap, ◌⊎◌, inl, inr,
  Bool-cases,
}
use hhrouter.Base.Text.{Bytes, bytes_eq, codes, has_prefix}

unfoldable pub bedrock_endpoint : Bytes → Bytes → Bool → Bytes
bedrock_endpoint region model_id stream =
    codes "https://bedrock-runtime."
    ++ (region
        ++ (codes ".amazonaws.com/model/"
            ++ (model_id
                ++ (codes "/" ++ (if stream then codes "converse-stream" else codes "converse")))))

unfoldable pub region_to_profile_prefix : Bytes → Bytes
unfolding has_prefix
region_to_profile_prefix region =
    if has_prefix region (codes "us-gov-")
    then []
    else if has_prefix region (codes "us-")
    then codes "us."
    else if has_prefix region (codes "eu-")
    then codes "eu."
    else if has_prefix region (codes "ap-")
    then codes "apac."
    else []

unfoldable pub already_profile_prefixed : Bytes → Bool
unfolding has_prefix
already_profile_prefixed model_id =
    has_prefix model_id (codes "us.")
    || has_prefix model_id (codes "eu.")
    || has_prefix model_id (codes "apac.")
    || has_prefix model_id (codes "global.")

-- strings.Contains(modelID, ".")
unfoldable pub has_dot : Bytes → Bool
has_dot [] = false
has_dot (c ∷ s) = (c == b'.') || has_dot s

unfoldable pub apply_inference_profile : Bytes → Bytes → Bool → Bytes
unfolding already_profile_prefixed has_dot region_to_profile_prefix bytes_eq
apply_inference_profile model_id region enabled =
    let prefix = region_to_profile_prefix region in
    if not enabled || already_profile_prefixed model_id
    then model_id
    else if not (has_dot model_id)
    then model_id
    else if bytes_eq prefix []
    then model_id
    else prefix ++ model_id

-- A region has no prefix, or one that marks the model.
prefixes :
    (region : Bytes)
    → (region_to_profile_prefix region ≡ [])
      ⊎ ((m : Bytes) → already_profile_prefixed (region_to_profile_prefix region ++ m) ≡ true)
unfolding region_to_profile_prefix already_profile_prefixed has_prefix
prefixes region =
    go (has_prefix region (codes "us-gov-")) (has_prefix region (codes "us-"))
      (has_prefix region (codes "eu-")) (has_prefix region (codes "ap-"))
  where
    choose : Bool → Bool → Bool → Bool → Bytes
    choose gov us eu ap =
        if gov
        then []
        else if us
        then codes "us."
        else if eu
        then codes "eu."
        else if ap
        then codes "apac."
        else []

    go :
        (gov us eu ap : Bool)
        → (choose gov us eu ap ≡ [])
          ⊎ ((m : Bytes) → already_profile_prefixed (choose gov us eu ap ++ m) ≡ true)
    go true us eu ap = inl refl
    go false true eu ap = inr λ m. refl
    go false false true ap = inr λ m. refl
    go false false false true = inr λ m. refl
    go false false false false = inl refl

prefixed_stays :
    (m region : Bytes) (enabled : Bool)
    → already_profile_prefixed m ≡ true
    → apply_inference_profile m region enabled ≡ m
unfolding apply_inference_profile
prefixed_stays m region true h = rw h refl
prefixed_stays m region false h = refl

-- A model comes out as it went in, or with a prefix.
applied :
    (m region : Bytes) (enabled : Bool)
    → (apply_inference_profile m region enabled ≡ m)
      ⊎ (already_profile_prefixed (apply_inference_profile m region enabled) ≡ true)
unfolding apply_inference_profile
applied m region enabled = elim (Bool-cases (not enabled || already_profile_prefixed m)) [
  | inl e ↦ inl (rw e refl)
  | inr e ↦ elim (Bool-cases (not (has_dot m))) [
    | inl d ↦ inl (rw (e, d) refl)
    | inr d ↦ elim (Bool-cases (bytes_eq (region_to_profile_prefix region) [])) [
      | inl n ↦ inl (rw (e, d, n) refl)
      | inr n ↦ elim (prefixes region) [
        | inl nothing ↦ absurd cc
        | inr marks ↦ inr (rw (e, d, n) (marks m))
      ]
    ]
  ]
]

-- A model never gets two profile prefixes: the profile applied to its own result, whatever the region
-- and whether or not the channel uses profiles, changes nothing.
pub apply_inference_profile_idem :
    (m region : Bytes) (enabled : Bool)
    → apply_inference_profile (apply_inference_profile m region enabled) region enabled
      ≡ apply_inference_profile m region enabled
apply_inference_profile_idem m region enabled = elim (applied m region enabled) [
  | inl same ↦ ap (λ (x : Bytes). apply_inference_profile x region enabled) same
  | inr marked ↦ prefixed_stays (apply_inference_profile m region enabled) region enabled marked
]
