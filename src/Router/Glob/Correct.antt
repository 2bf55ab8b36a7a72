-- ===== src/Router/Glob/Correct.antt =====
-- `modelMatches` of server/internal/router/engine.go decides what a pattern means: taking the first
-- place for each middle part loses no match.
use hhrouter.Base.{
  ◌≢◌, true_and_false, ◌∙◌, ℕ, zero, suc, ◌+◌, ◌-◌, ◌≤◌, Bool, true, false, ◌≡◌, refl, ◌↔◌, List,
  [], ◌∷◌, ◌++◌, ◌==◌, Bool-cases, Option-cases, inl, inr, ap, append_assoc, subst, sym, Option,
  none, some, length, take, drop, arith, length-append, drop-length_append, take-length_append,
  take-append-drop, and_true,
}
use hhrouter.Base.Text.{Bytes, bytes_eq, bytes_eq→eq, bytes_eq_refl, bytes_eq_iff, has_prefix}
use hhrouter.Router.Glob.{
  star, split, has_star, last_part, middle_parts, has_suffix, index, one_on, middle_loop,
  match_rest, match_parts, wildcard_match, model_matches, Matches, empty, byte, leave, take_one,
}
use hhrouter.Router.Glob.Segments.{
  Parts, Matches→Parts, Parts→Matches, Gaps, Gaps-append, Parts→Gaps, Gaps→Parts,
}

pub has_prefix→append : (s t : Bytes) → has_prefix s t ≡ true → s ≡ t ++ drop (length t) s
unfolding has_prefix
has_prefix→append s [] h = refl
has_prefix→append [] (y ∷ t) h = cc
has_prefix→append (x ∷ s) (y ∷ t) h = ground (arith, has_prefix→append s t)

pub has_prefix-append : (t r : Bytes) → has_prefix (t ++ r) t ≡ true
unfolding has_prefix
has_prefix-append [] r = refl
has_prefix-append (y ∷ t) r = ground (arith, has_prefix-append t r)

drop-append_le : (n : ℕ) (xs ys : Bytes) → n ≤ length xs → drop n (xs ++ ys) ≡ drop n xs ++ ys
drop-append_le zero xs ys h = refl
drop-append_le (suc n) [] ys h = absurd (omega arith)
drop-append_le (suc n) (x ∷ xs) ys h = drop-append_le n xs ys (omega arith)

zero_plus : (n : ℕ) → zero + n ≡ n
zero_plus n = omega arith

suc_plus : (i n : ℕ) → suc i + n ≡ suc (i + n)
suc_plus i n = omega arith

-- What `strings.Index` finds is an occurrence.
abbrev Occurs : Bytes → Bytes → Option ℕ → Type 0
Occurs s mid none = Unit
Occurs s mid (some i) = s ≡ take i s ++ (mid ++ drop (i + length mid) s)

Occurs-zero : (s mid : Bytes) → has_prefix s mid ≡ true → Occurs s mid (some 0)
Occurs-zero s mid h = rw zero_plus (has_prefix→append s mid h)

Occurs-one_on :
    (c : ℕ) (s mid : Bytes) (o : Option ℕ) → Occurs s mid o → Occurs (c ∷ s) mid (one_on o)
Occurs-one_on c s mid none h = tt
Occurs-one_on c s mid (some i) h = rw suc_plus (ap (◌∷◌ c) h)

index-Occurs : (s mid : Bytes) → Occurs s mid (index s mid)
unfolding index
index-Occurs [] mid = elim (Bool-cases (has_prefix [] mid)) [
  | inl e ↦ rw e (Occurs-zero [] mid e)
  | inr e ↦ rw e tt
]
index-Occurs (c ∷ s) mid = elim (Bool-cases (has_prefix (c ∷ s) mid)) [
  | inl e ↦ rw e (Occurs-zero (c ∷ s) mid e)
  | inr e ↦ rw e (Occurs-one_on c s mid (index s mid) (index-Occurs s mid))
]

-- One is found in `s`, no later than where `r` follows it.
abbrev Found : Bytes → Bytes → Bytes → Type 0
Found s mid r = (i : ℕ) × (x : Bytes) × (index s mid ≡ some i) × (drop (i + length mid) s ≡ x ++ r)

Found-zero :
    (s mid y r : Bytes)
    → s ≡ y ++ r
    → length mid ≤ length y
    → has_prefix s mid ≡ true
    → index s mid ≡ some 0
    → Found s mid r
Found-zero s mid y r e le h found =
    (0, drop (length mid) y, found, rw (zero_plus, e) (drop-append_le (length mid) y r le))

index_here : (s mid : Bytes) → has_prefix s mid ≡ true → index s mid ≡ some 0
unfolding index
index_here [] mid h = rw h
index_here (c ∷ s) mid h = rw h

index_later :
    (c : ℕ) (s mid : Bytes)
    → has_prefix (c ∷ s) mid ≡ false
    → index (c ∷ s) mid ≡ one_on (index s mid)
unfolding index
index_later c s mid h = rw h

index-Found : (junk mid r : Bytes) → Found (junk ++ (mid ++ r)) mid r
index-Found [] mid r =
    let h = has_prefix-append mid r in
    Found-zero (mid ++ r) mid mid r refl (omega arith) h (index_here (mid ++ r) mid h)
index-Found (c ∷ junk) mid r =
    let s : Bytes = junk ++ (mid ++ r) in
    elim (Bool-cases (has_prefix (c ∷ s) mid)) [
      | inl h ↦
          Found-zero (c ∷ s) mid (c ∷ junk ++ mid) r (ap (◌∷◌ c) (sym (append_assoc junk mid r)))
            (omega (arith, length-append {0} junk mid)) h (index_here (c ∷ s) mid h)
      | inr h ↦
          let (i, x, found, e) = index-Found junk mid r in
          (suc i, x, rw (index_later c s mid h, found), rw suc_plus e)
    ]

-- The rest of the loop where a middle part is found, and where it is not.
loop_found :
    (c i : ℕ) (mid : Bytes) (mids : List Bytes) (s : Bytes)
    → index s (c ∷ mid) ≡ some i
    → middle_loop ((c ∷ mid) ∷ mids) s ≡ middle_loop mids (drop (i + length (c ∷ mid)) s)
unfolding middle_loop
loop_found c i mid mids s e = rw (e, middle_loop)

loop_empty : (mids : List Bytes) (s : Bytes) → middle_loop ([] ∷ mids) s ≡ middle_loop mids s
unfolding middle_loop
loop_empty mids s = refl

loop_not_found :
    (c : ℕ) (mid : Bytes) (mids : List Bytes) (s : Bytes)
    → index s (c ∷ mid) ≡ none
    → middle_loop ((c ∷ mid) ∷ mids) s ≡ false
unfolding middle_loop
loop_not_found c mid mids s e = rw (e, middle_loop)

middle_loop→Gaps : (mids : List Bytes) (s : Bytes) → middle_loop mids s ≡ true → Gaps mids s
middle_loop→Gaps [] s h = tt
middle_loop→Gaps ([] ∷ mids) s h =
    ([], s, refl, middle_loop→Gaps mids s (rw (loop_empty mids s) at h))
middle_loop→Gaps ((c ∷ mid) ∷ mids) s h = elim (Option-cases (index s (c ∷ mid))) [
  | inl e ↦ absurd (cc (loop_not_found c mid mids s e))
  | inr (i, e) ↦
      let tail_of : Bytes = drop (i + length (c ∷ mid)) s in
      let occurs : Occurs s (c ∷ mid) (some i) = rw e at (index-Occurs s (c ∷ mid)) in
      (
        take i s,
        tail_of,
        occurs,
        middle_loop→Gaps mids tail_of (rw (loop_found c i mid mids s e) at h),
      )
]

Gaps→middle_loop : (mids : List Bytes) (s : Bytes) → Gaps mids s → middle_loop mids s ≡ true
Gaps→middle_loop [] s h = unfold middle_loop in refl
Gaps→middle_loop ([] ∷ mids) s (junk, r, e, h) =
    rw (loop_empty mids s, e) (Gaps→middle_loop mids (junk ++ r) (Gaps-append mids junk r h))
Gaps→middle_loop ((c ∷ mid) ∷ mids) s (junk, r, e, h) =
    let (i, x, found, eq) = index-Found junk (c ∷ mid) r in
    rw e (
      rw (loop_found c i mid mids (junk ++ c ∷ (mid ++ r)) found, eq)
        (Gaps→middle_loop mids (x ++ r) (Gaps-append mids x r h)))

-- The text before a suffix that is there.
abbrev before : Bytes → Bytes → Bytes
before s t = take (length s - length t) s

has_suffix→append : (s t : Bytes) → has_suffix s t ≡ true → s ≡ before s t ++ t
unfolding has_suffix
has_suffix→append s t h =
    let e = bytes_eq→eq (drop (length s - length t) s) t (and_true _ _ h).1 in
    sym (subst (λ (u : Bytes). before s t ++ u ≡ s) e (take-append-drop (length s - length t) s))

length_before : (b t : Bytes) → length (b ++ t) - length t ≡ length b
length_before b t = omega (arith, length-append {0} b t)

before-append : (b t : Bytes) → before (b ++ t) t ≡ b
before-append b t = rw (length_before b t) (take-length_append b t)

has_suffix-append : (b t : Bytes) → has_suffix (b ++ t) t ≡ true
unfolding has_suffix
has_suffix-append b t =
    rw (length_before b t, drop-length_append b t, bytes_eq_refl t)
      (ground (arith, length-append {0} b t))

-- The code returned, with the right answer to the question `P`.
abbrev pub Answers : Type 0 → Option Bool → Type 0
Answers P o = (b : Bool) × (o ≡ some b) × ((b ≡ true) ↔ P)

refuses : {P : Type 0} → ¬ P → Answers P (some false)
refuses n = (false, refl, ((λ h. cc), λ p. absurd (n p)))

-- Each test of `wildcardMatch`, from the last to the first.
match_rest-Answers :
    (last : Bytes) (mids : List Bytes) (s : Bytes)
    → Answers ((body : Bytes) × (s ≡ body ++ last) × Gaps mids body) (match_rest last (some mids) s)
unfolding match_rest
match_rest-Answers last mids s = elim (Bool-cases (has_suffix s last)) [
  | inl h ↦ rw h (
    middle_loop mids (before s last),
    refl,
    (
      (λ m. (before s last, has_suffix→append s last h, middle_loop→Gaps mids _ m)),
      λ (body, e, gaps). rw (e, before-append body last) (Gaps→middle_loop mids body gaps),
    ),
  )
  | inr h ↦
      rw h (refuses λ (body, e, gaps). true_and_false (has_suffix-append body last) (rw e at h))
]

match_parts-Answers :
    (f g : Bytes) (gs : List Bytes) (s : Bytes)
    → Answers (Parts f (g ∷ gs) s) (match_parts f (g ∷ gs) s)
unfolding match_parts
match_parts-Answers f g gs s = elim (Bool-cases (has_prefix s f)) [
  | inl h ↦
      let (b, e, (sound, complete)) =
        match_rest-Answers (last_part g gs) (middle_parts g gs) (drop (length f) s) in
      rw h (
        b,
        e,
        (
          (λ t.
              let (body, eq, gaps) = sound t in
              subst (Parts f (g ∷ gs))
                (sym (has_prefix→append s f h ∙ ap (λ (u : Bytes). f ++ u) eq))
                (Gaps→Parts f g gs body gaps)),
          λ parts.
              let (body, eq, gaps) = Parts→Gaps f g gs s parts in
              complete (body, rw (eq, drop-length_append f (body ++ last_part g gs)), gaps),
        ),
      )
  | inr h ↦ rw h (
      refuses λ parts.
        let (body, eq, gaps) = Parts→Gaps f g gs s parts in
        true_and_false (has_prefix-append f (body ++ last_part g gs)) (rw eq at h))
]

split_others : (p : Bytes) → has_star p ≡ true → (split p).1 ≢ []
unfolding has_star split
split_others [] h e = cc
split_others (c ∷ p) h e = ground (arith, split_others p)

wildcard_match-Answers :
    (pattern s : Bytes)
    → has_star pattern ≡ true
    → Answers (Matches pattern s) (wildcard_match pattern s)
unfolding wildcard_match
wildcard_match-Answers pattern s h = starred (split pattern).1 (split_others pattern h) refl
  where
    starred :
        (others : List Bytes)
        → others ≢ []
        → (split pattern).1 ≡ others
        → Answers (Matches pattern s) (match_parts (split pattern).0 others s)
    starred [] ne e = absurd (ne refl)
    starred (g ∷ gs) ne e =
        let (b, eq, (sound, complete)) = match_parts-Answers (split pattern).0 g gs s in
        (
          b,
          eq,
          (
            (λ t.
                Parts→Matches pattern s
                  (subst (λ (os : List Bytes). Parts (split pattern).0 os s) (sym e) (sound t))),
            λ m.
                complete
                  (subst (λ (os : List Bytes). Parts (split pattern).0 os s) e (Matches→Parts m)),
          ),
        )

Matches-refl : (s : Bytes) → Matches s s
Matches-refl [] = empty
Matches-refl (c ∷ s) = elim (Bool-cases (c == star)) [
  | inl e ↦ take_one e (leave e (Matches-refl s))
  | inr e ↦ byte e (Matches-refl s)
]

-- A pattern with no star matches its own text only.
Matches-plain : {p s : Bytes} → has_star p ≡ false → Matches p s → p ≡ s
unfolding has_star
Matches-plain h empty = refl
Matches-plain h (byte {c} e m) = ap (◌∷◌ c) (Matches-plain (rw e at h) m)
Matches-plain h (leave e m) = cc (rw e at h)
Matches-plain h (take_one e m) = cc (rw e at h)

-- `modelMatches` always returns, and answers true exactly if the text matches the pattern.
pub model_matches-Answers :
    (pattern requested : Bytes)
    → Answers (Matches pattern requested) (model_matches pattern requested)
unfolding model_matches
model_matches-Answers pattern requested = elim (Bool-cases (bytes_eq pattern requested)) [
  | inl e ↦ rw e (
    true,
    refl,
    ((λ _. rw (bytes_eq→eq pattern requested e) (Matches-refl requested)), λ _. refl),
  )
  | inr e ↦ elim (Bool-cases (has_star pattern)) [
    | inl h ↦ rw (e, h) (wildcard_match-Answers pattern requested h)
    | inr h ↦
        rw (e, h)
          (refuses λ m. true_and_false ((bytes_eq_iff pattern requested).1 (Matches-plain h m)) e)
  ]
]
