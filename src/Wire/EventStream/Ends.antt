-- ===== src/Wire/EventStream/Ends.antt =====
-- What the reader of event-stream frames (server/internal/relay/stream.go) makes of any input.
use hhrouter.Base.{
  ℕ, zero, suc, ◌+◌, ◌-◌, ◌≤◌, ◌<◌, Bool, true, false, ◌||◌, Option, none, some, List, [], ◌∷◌,
  ◌++◌, ltb, leb, if◌then◌else◌, length, take, drop, ◌≡◌, refl, sym, ◌∙◌, ap, arith, length-append,
  length-take, length-drop, take-append-drop, append_assoc, Bool-cases, inl, inr, ◌⊎◌,
}
use hhrouter.Base.Text.{Bytes}
use hhrouter.Wire.Reader.{
  Source, ReadEnd, eof, cut, broken, read_failed, short_read, full, read_full, get_u32,
  get_u32_bound, Reading, read,
}
use hhrouter.Wire.EventStream.{
  StreamEvent, StreamError, malformed_lengths, bounds_exceed_frame, read_error, event_type_of,
  Events, emit_typed, prelude_failed, body_length, take_frame, take_prelude, frame_loop,
  read_event_stream,
}
use hhrouter.Wire.EventStream.Headers.{event_type_of-Ok}

-- The two lengths that a prelude tells
abbrev pub total_of : Bytes → ℕ
total_of p = get_u32 (take 4 p)

abbrev pub headers_of : Bytes → ℕ
headers_of p = get_u32 (drop 4 p)

-- An event is sent on if it has a type or a payload.
abbrev pub said : Bytes → Bytes → List StreamEvent → List StreamEvent
said [] [] evs = evs
said [] (b ∷ payload) evs = record { event_type = []; payload = b ∷ payload } ∷ evs
said (t ∷ et) payload evs = record { event_type = t ∷ et; payload = payload } ∷ evs

-- Bytes of a connection and how it ends, and the events and the error that they stand for.
pub data Frames : Bytes → ReadEnd → Events → Type 0 where
  ended : {s : Bytes} → length s < 12 → Frames s eof ([], none)
  ended_short : {s : Bytes} → length s < 12 → Frames s cut ([], none)
  lost : {s e : Bytes} → length s < 12 → Frames s (broken e) ([], some (read_error (read_failed e)))
  bad_lengths :
      {s : Bytes} {end : ReadEnd} (p r : Bytes)
      → s ≡ p ++ r
      → length p ≡ 12
      → (total_of p < 16) ⊎ (total_of p < headers_of p)
      → Frames s end ([], some (malformed_lengths (total_of p) (headers_of p)))
  cut_frame :
      {s : Bytes} {end : ReadEnd} (p r : Bytes)
      → s ≡ p ++ r
      → length p ≡ 12
      → 16 ≤ total_of p
      → headers_of p ≤ total_of p
      → length s < total_of p
      → Frames s end ([], some (read_error (short_read r end)))
  no_room :
      {s : Bytes} {end : ReadEnd} (p r : Bytes)
      → s ≡ p ++ r
      → length p ≡ 12
      → 16 ≤ total_of p
      → headers_of p ≤ total_of p
      → total_of p ≤ length s
      → total_of p < headers_of p + 16
      → Frames s end ([], some bounds_exceed_frame)
  frame :
      {s : Bytes} {end : ReadEnd} {evs : List StreamEvent} {e : Option StreamError}
      (p h payload checksum rest et : Bytes)
      → s ≡ p ++ (h ++ (payload ++ (checksum ++ rest)))
      → length p ≡ 12
      → length h ≡ headers_of p
      → length checksum ≡ 4
      → 16 + length h + length payload ≡ total_of p
      → event_type_of h ≡ read et
      → Frames rest end (evs, e)
      → Frames s end (said et payload evs, e)

-- The reader ends with what the bytes stand for.
abbrev Reads : Bytes → ReadEnd → Reading Events → Type 0
Reads s end o = (out : Events) × (o ≡ read out) × Frames s end out

Reads-if :
    (s : Bytes) (end : ReadEnd) (b : Bool) (x y : Reading Events)
    → (b ≡ true → Reads s end x)
    → (b ≡ false → Reads s end y)
    → Reads s end (if b then x else y)
Reads-if s end true x y hx hy = hx refl
Reads-if s end false x y hx hy = hy refl

prelude_failed-Reads :
    (s : Bytes) (end : ReadEnd) → length s < 12 → Reads s end (prelude_failed (short_read s end))
prelude_failed-Reads [] eof h = (_, refl, ended h)
prelude_failed-Reads (b ∷ s) eof h = (_, refl, ended h)
prelude_failed-Reads [] cut h = (_, refl, ended_short h)
prelude_failed-Reads (b ∷ s) cut h = (_, refl, ended_short h)
prelude_failed-Reads [] (broken e) h = (_, refl, lost h)
prelude_failed-Reads (b ∷ s) (broken e) h = (_, refl, lost h)

emit_typed-said :
    (et payload : Bytes) (evs : List StreamEvent) (e : Option StreamError)
    → emit_typed (read et) payload (read (evs, e)) ≡ read (said et payload evs, e)
emit_typed-said [] [] evs e = refl
emit_typed-said [] (b ∷ payload) evs e = refl
emit_typed-said (t ∷ et) payload evs e = refl

frame_parts :
    (b rest : Bytes) (n k : ℕ)
    → b ++ rest ≡ take n b ++ (take k (drop n b) ++ (drop k (drop n b) ++ rest))
frame_parts b rest n k = sym (
    ap (λ (x : Bytes). take n b ++ x)
      (sym (append_assoc (take k (drop n b)) (drop k (drop n b)) rest)
        ∙ ap (λ (x : Bytes). x ++ rest) (take-append-drop k (drop n b)))
    ∙ sym (append_assoc (take n b) (drop n b) rest)
    ∙ ap (λ (x : Bytes). x ++ rest) (take-append-drop n b))

module _ (end : ReadEnd) (again : Source → Reading Events) (s p : Bytes) (twelve : length p ≡ 12)
    (low : 16 ≤ total_of p) (inside : headers_of p ≤ total_of p) where
  -- A whole frame, whose rest `b` follows the prelude.
  take_frame-Reads :
      (b rest : Bytes)
      → s ≡ p ++ (b ++ rest)
      → 12 + length b ≡ total_of p
      → Reads rest end (again (record { bytes = rest; end = end }))
      → Reads s end (take_frame (headers_of p) (full b (record { bytes = rest; end = end })) again)
  unfolding take_frame
  take_frame-Reads b rest eq size ((evs, e), same, frames) =
      let n : ℕ = headers_of p in
      let k : ℕ = length b - n - 4 in
      Reads-if s end (ltb (length b) (n + 4)) _ _
        (λ small. (
          _,
          refl,
          no_room p (b ++ rest) eq twelve low inside
              (rw eq (omega (arith, length-append p (b ++ rest), length-append b rest)))
              (ground arith),
        ))
        (λ large.
          Reads-if s end (leb n (length b)) _ _
            (λ h₁.
              Reads-if s end (leb (n + 4) (length b)) _ _
                (λ h₂.
                  let (et, typed) = event_type_of-Ok (take n b) in
                  (
                    _,
                    rw (typed, same) (emit_typed-said et (take k (drop n b)) evs e),
                    frame p (take n b) (take k (drop n b)) (drop k (drop n b)) rest et
                        (eq ∙ ap (λ (x : Bytes). p ++ x) (frame_parts b rest n k)) twelve
                        (ground (arith, length-take n b))
                        (ground (arith, length-drop k (drop n b), length-drop n b))
                        (ground (arith, length-take n b, length-take k (drop n b), length-drop n b))
                        typed frames,
                  ))
                (λ h₂. absurd (ground arith)))
            (λ h₁. absurd (ground arith)))

  read_rest-Reads :
      (r : Bytes)
      → s ≡ p ++ r
      → ((w : Bytes) → length w ≤ length r → Reads w end (again (record { bytes = w; end = end })))
      → Reads s end (
          take_frame
            (headers_of p)
            (read_full (body_length (total_of p)) (record { bytes = r; end = end }))
            again)
  unfolding take_frame read_full
  read_rest-Reads r eq ih =
      let n : ℕ = body_length (total_of p) in
      let width : n ≡ total_of p - 12 = omega (arith, get_u32_bound (take 4 p)) in
      let all : length s ≡ 12 + length r = rw eq (omega (arith, length-append p r)) in
      elim (Bool-cases (leb n (length r))) [
        | inl e ↦ rw e (
            take_frame-Reads (take n r) (drop n r)
              (eq ∙ ap (λ (x : Bytes). p ++ x) (sym (take-append-drop n r)))
              (ground (arith, length-take n r)) (ih (drop n r) (omega (arith, length-drop n r))))
        | inr e ↦ rw e (_, refl, cut_frame p r eq twelve low inside (ground arith))
      ]

take_prelude-Reads :
    (end : ReadEnd) (again : Source → Reading Events) (s p r : Bytes)
    → length p ≡ 12
    → s ≡ p ++ r
    → ((w : Bytes) → length w ≤ length r → Reads w end (again (record { bytes = w; end = end })))
    → Reads s end (take_prelude (full p (record { bytes = r; end = end })) again)
unfolding take_prelude
take_prelude-Reads end again s p r twelve eq ih =
    Reads-if s end (ltb (total_of p) 16 || ltb (total_of p) (headers_of p)) _ _
      (λ bad. (_, refl, bad_lengths p r eq twelve (ground arith)))
      (λ good. read_rest-Reads end again s p twelve (ground arith) (ground arith) r eq ih)

frame_loop-Reads :
    (f : ℕ) (s : Bytes) (end : ReadEnd)
    → length s < f
    → Reads s end (frame_loop f (record { bytes = s; end = end }))
unfolding frame_loop read_full take_prelude
frame_loop-Reads zero s end h = absurd (omega arith)
frame_loop-Reads (suc f) s end h = elim (Bool-cases (leb 12 (length s))) [
  | inr e ↦ rw e (prelude_failed-Reads s end (ground arith))
  | inl e ↦ rw e (
      take_prelude-Reads end (frame_loop f) s (take 12 s) (drop 12 s)
        (ground (arith, length-take 12 s)) (sym (take-append-drop 12 s))
        (λ w le. frame_loop-Reads f w end (ground (arith, length-drop 12 s))))
]

-- The reader neither panics nor goes on for ever, whatever the bytes and whatever ends the connection,
-- and it gives what they stand for as frames: the events of the whole frames that have a type or a
-- payload, in order, up to the end of the input or to the first frame whose lengths do not fit, whose
-- headers leave no room for the checksum, or that is cut off, which is the error. A connection that
-- ends, or is cut, within the 12 bytes in front of a frame is a clean end, and one that breaks there
-- another way is that error.
pub read_event_stream_ends :
    (r : Source) → (out : Events) × (read_event_stream r ≡ read out) × Frames r.bytes r.end out
unfolding read_event_stream
read_event_stream_ends r = frame_loop-Reads (suc (length r.bytes)) r.bytes r.end (omega arith)
