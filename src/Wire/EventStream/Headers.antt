-- ===== src/Wire/EventStream/Headers.antt =====
-- The scan of a frame's headers (`eventTypeFromHeaders` of server/internal/relay/stream.go).
use hhrouter.Base.{
  ℕ, zero, suc, ◌≤◌, ◌<◌, Bool, true, false, ◌&&◌, ◌||◌, [], ◌∷◌, ltb, leb, ◌==◌, if◌then◌else◌,
  length, take, drop, ◌≡◌, refl, arith, length-drop,
}
use hhrouter.Base.Text.{Bytes, bytes_eq}
use hhrouter.Wire.Reader.{get_u16, Reading, read, slice}
use hhrouter.Wire.EventStream.{
  event_type_header, string_value, header_value, typed_value, header_loop, event_type_of,
}

-- A result, no panic and no end of the fuel.
abbrev pub Ok : {A : Type 0} → Reading A → Type 0
Ok {A} o = (a : A) × (o ≡ read a)

Ok-if :
    {A : Type 0} (b : Bool) (x y : Reading A)
    → (b ≡ true → Ok x)
    → (b ≡ false → Ok y)
    → Ok (if b then x else y)
Ok-if true x y hx hy = hx refl
Ok-if false x y hx hy = hy refl

slice-Ok :
    {A : Type 0} (n : ℕ) (v : Bytes) (k : Bytes → Reading A)
    → ltb (length v) n ≡ false
    → Ok (k (take n v))
    → Ok (slice n v k)
slice-Ok n v k h ok = Ok-if (leb n (length v)) _ _ (λ e. ok) (λ e. absurd (ground arith))

-- The next turn has fuel for all that is shorter than what this one had.
string_value-Ok :
    (t : ℕ) (name v : Bytes) (again : Bytes → Reading Bytes)
    → ((w : Bytes) → length w ≤ length v → Ok (again w))
    → Ok (string_value t name v again)
unfolding string_value
string_value-Ok t name v again h =
    Ok-if (ltb (length v) 2) _ _ (λ e. ([], refl))
      λ two.
        Ok-if (leb 2 (length v)) _ _
          (λ e.
            Ok-if (ltb (length (drop 2 v)) (get_u16 (take 2 v))) _ _ (λ e. ([], refl))
              λ inside.
                Ok-if (t == 7 && bytes_eq name event_type_header) _ _
                  (λ e. slice-Ok (get_u16 (take 2 v)) (drop 2 v) read inside (_, refl))
                  (λ e.
                    h (drop (get_u16 (take 2 v)) (drop 2 v)) (
                      omega (arith, length-drop (get_u16 (take 2 v)) (drop 2 v), length-drop 2 v))))
          (λ e. absurd (ground arith))

header_value-Ok :
    (t : ℕ) (name v : Bytes) (again : Bytes → Reading Bytes)
    → ((w : Bytes) → length w ≤ length v → Ok (again w))
    → Ok (header_value t name v again)
unfolding header_value
header_value-Ok t name v again h =
    let skipped : (n : ℕ) → Ok (again (drop n v)) =
      λ n. h (drop n v) (omega (arith, length-drop n v)) in
    Ok-if (t == 0 || t == 1) _ _ (λ e. h v (omega arith))
      λ e.
        Ok-if (t == 2) _ _ (λ e. skipped 1)
          λ e.
            Ok-if (t == 3) _ _ (λ e. skipped 2)
              λ e.
                Ok-if (t == 4) _ _ (λ e. skipped 4)
                  λ e.
                    Ok-if (t == 5 || t == 8) _ _ (λ e. skipped 8)
                      λ e.
                        Ok-if (t == 6 || t == 7) _ _ (λ e. string_value-Ok t name v again h)
                          λ e. Ok-if (t == 9) _ _ (λ e. skipped 16) (λ e. ([], refl))

typed_value-Ok :
    (name v : Bytes) (again : Bytes → Reading Bytes)
    → ((w : Bytes) → length w < length v → Ok (again w))
    → Ok (typed_value name v again)
typed_value-Ok name [] again h = ([], refl)
typed_value-Ok name (t ∷ v) again h = header_value-Ok t name v again (λ w le. h w (omega arith))

header_loop-Ok : (f : ℕ) (h : Bytes) → length h ≤ f → Ok (header_loop f h)
unfolding header_loop
header_loop-Ok f [] le = ([], refl)
header_loop-Ok zero (n ∷ h) le = absurd (omega arith)
header_loop-Ok (suc f) (n ∷ h) le =
    Ok-if (ltb (length h) n) _ _ (λ e. ([], refl))
      λ whole.
        Ok-if (leb n (length h)) _ _
          (λ e.
            typed_value-Ok (take n h) (drop n h) (header_loop f)
              (λ w lt. header_loop-Ok f w (omega (arith, length-drop n h))))
          (λ e. absurd (ground arith))

pub event_type_of-Ok : (h : Bytes) → Ok (event_type_of h)
unfolding event_type_of
event_type_of-Ok h = header_loop-Ok (length h) h (omega arith)
