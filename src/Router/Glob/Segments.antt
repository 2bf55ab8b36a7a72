-- ===== src/Router/Glob/Segments.antt =====
-- A pattern of server/internal/router/engine.go matches a text exactly if the parts between its stars
-- stand in the text in order, the first at the start and the last at the end.
use hhrouter.Base.{
  ℕ, true, false, ◌≡◌, refl, List, [], ◌∷◌, ◌++◌, ◌==◌, Bool-cases, inl, inr, ap, append_assoc,
}
use hhrouter.Base.Text.{Bytes}
use hhrouter.Router.Glob.{
  star, split, last_part, middle_parts, Matches, empty, byte, leave, take_one,
}

-- The parts in order, with any run of bytes between two of them.
abbrev pub Parts : Bytes → List Bytes → Bytes → Type 0
Parts f [] s = s ≡ f
Parts f (g ∷ gs) s = (junk r : Bytes) × (s ≡ f ++ (junk ++ r)) × Parts g gs r

abbrev PartsOf : Bytes × List Bytes → Bytes → Type 0
PartsOf (f, gs) s = Parts f gs s

Parts-cons :
    (c : ℕ) (f : Bytes) (gs : List Bytes) (s : Bytes) → Parts f gs s → Parts (c ∷ f) gs (c ∷ s)
Parts-cons c f [] s e = ap (◌∷◌ c) e
Parts-cons c f (g ∷ gs) s (junk, r, e, h) = (junk, r, ap (◌∷◌ c) e, h)

split-star :
    (c : ℕ) (p : Bytes) → (c == star) ≡ true → split (c ∷ p) ≡ ([], (split p).0 ∷ (split p).1)
unfolding split
split-star c p h = rw h

split-byte :
    (c : ℕ) (p : Bytes) → (c == star) ≡ false → split (c ∷ p) ≡ (c ∷ (split p).0, (split p).1)
unfolding split
split-byte c p h = rw h

pub Matches→Parts : {p s : Bytes} → Matches p s → PartsOf (split p) s
Matches→Parts empty = unfold split in refl
Matches→Parts (byte {c} {p} {s} h m) = rw (split-byte c p h) (Parts-cons c _ _ s (Matches→Parts m))
Matches→Parts (leave {c} {p} {s} h m) = rw (split-star c p h) ([], s, refl, Matches→Parts m)
Matches→Parts (take_one {a} {c} {p} {s} h m) =
    let (junk, r, e, k) = rw (split-star a p h) at (Matches→Parts m) in
    rw (split-star a p h) (c ∷ junk, r, ap (◌∷◌ c) e, k)

take_run :
    (a : ℕ) (p junk r : Bytes) → (a == star) ≡ true → Matches p r → Matches (a ∷ p) (junk ++ r)
take_run a p [] r h m = leave h m
take_run a p (c ∷ junk) r h m = take_one h (take_run a p junk r h m)

-- What stands behind a leading byte of the first part.
Parts-uncons :
    (c : ℕ) (f : Bytes) (gs : List Bytes) (s : Bytes)
    → Parts (c ∷ f) gs s
    → (t : Bytes) × (s ≡ c ∷ t) × Parts f gs t
Parts-uncons c f [] s e = (f, e, refl)
Parts-uncons c f (g ∷ gs) s (junk, r, e, h) = (f ++ (junk ++ r), e, (junk, r, refl, h))

pub Parts→Matches : (p s : Bytes) → PartsOf (split p) s → Matches p s
Parts→Matches [] s h = let e : s ≡ [] = unfold split in h in rw e empty
Parts→Matches (c ∷ p) s h = elim (Bool-cases (c == star)) [
  | inl e ↦
      let (junk, r, eq, k) = rw (split-star c p e) at h in
      rw eq (take_run c p junk r e (Parts→Matches p r k))
  | inr e ↦
      let (t, eq, k) = Parts-uncons c (split p).0 (split p).1 s (rw (split-byte c p e) at h) in
      rw eq (byte e (Parts→Matches p t k))
]

-- The middle parts in order, anywhere in a text.
abbrev pub Gaps : List Bytes → Bytes → Type 0
Gaps [] body = Unit
Gaps (m ∷ ms) body = (junk r : Bytes) × (body ≡ junk ++ (m ++ r)) × Gaps ms r

pub Gaps-append : (ms : List Bytes) (x body : Bytes) → Gaps ms body → Gaps ms (x ++ body)
Gaps-append [] x body h = tt
Gaps-append (m ∷ ms) x body (junk, r, e, h) =
    (x ++ junk, r, rw (e, append_assoc x junk (m ++ r)), h)

pub Parts→Gaps :
    (f g : Bytes) (gs : List Bytes) (s : Bytes)
    → Parts f (g ∷ gs) s
    → (body : Bytes) × (s ≡ f ++ (body ++ last_part g gs)) × Gaps (middle_parts g gs) body
unfolding last_part middle_parts
Parts→Gaps f g [] s (junk, r, e, h) = (junk, rw (e, h), tt)
Parts→Gaps f g (k ∷ gs) s (junk, r, e, h) =
    let (body, eq, gaps) = Parts→Gaps g k gs r h in
    (junk ++ (g ++ body), simp (e, eq, append_assoc), (junk, body, refl, gaps))

pub Gaps→Parts :
    (f g : Bytes) (gs : List Bytes) (body : Bytes)
    → Gaps (middle_parts g gs) body
    → Parts f (g ∷ gs) (f ++ (body ++ last_part g gs))
unfolding last_part middle_parts
Gaps→Parts f g [] body h = (body, g, refl, refl)
Gaps→Parts f g (k ∷ gs) body (junk, r, e, h) =
    (junk, g ++ (r ++ last_part k gs), simp (e, append_assoc), Gaps→Parts g k gs r h)
