-- ===== src/Wire/Sse/RoundTrip.antt =====
-- What the SSE writers of server/internal/relay/stream.go write, `readSSE` reads back.
use hhrouter.Base.{
  ℕ, false, ◌||◌, none, some, List, [], ◌∷◌, ◌++◌, ◌==◌, reverse, ◌≡◌, refl, ap, ◌∙◌, append_assoc,
  Bool-cases, inl, inr,
}
use hhrouter.Base.Text.{Bytes, bytes_eq, codes, has_prefix, trim_space_blank}
use hhrouter.Base.Predicates.{All, All-append}
use mathlib.Core.List.{reverse-append, reverse-reverse}
use hhrouter.Wire.Reader.{eof}
use hhrouter.Wire.Sse.{
  lines, strip_newlines, trim_right, line_payload, payloads, read_sse, data_line,
  write_sse_named_raw,
}

abbrev pub NoNewline : Bytes → Type 0
NoNewline s = All (λ c. (c == b'\n') ≡ false) s

-- A JSON object on one line, of which `m` stands between the braces.
abbrev pub object : Bytes → Bytes
object m = b'{' ∷ (m ++ (b'}' ∷ []))

lines_first : (l s : Bytes) → NoNewline l → lines (l ++ (b'\n' ∷ s)) ≡ (l ++ (b'\n' ∷ [])) ∷ lines s
unfolding lines
lines_first [] s h = refl
lines_first (c ∷ l) s h = rw (h.0, lines_first l s h.1) refl

-- A text with its last byte, backwards.
reverse_snoc : (s : Bytes) (c : ℕ) → reverse (s ++ (c ∷ [])) ≡ c ∷ reverse s
reverse_snoc s c = reverse-append s (c ∷ [])

reverse_cons : (c : ℕ) (s : Bytes) → reverse (c ∷ s) ≡ reverse s ++ (c ∷ [])
reverse_cons c s = reverse-append (c ∷ []) s

-- One newline goes, when what stands before it ends in something else.
trim_right_newline :
    (s : Bytes) (c : ℕ)
    → (c == b'\r' || c == b'\n') ≡ false
    → trim_right ((s ++ (c ∷ [])) ++ (b'\n' ∷ [])) ≡ s ++ (c ∷ [])
unfolding trim_right strip_newlines
trim_right_newline s c h =
    rw
      (
        reverse_snoc (s ++ (c ∷ [])) b'\n',
        reverse_snoc s c,
        h,
        reverse_cons c (reverse s),
        reverse-reverse s,
      )
      refl

-- What stops the trimming stays.
strip_newlines_last :
    (s : Bytes) (c : ℕ)
    → (c == b'\r' || c == b'\n') ≡ false
    → (t : Bytes) × (strip_newlines (s ++ (c ∷ [])) ≡ t ++ (c ∷ []))
unfolding strip_newlines
strip_newlines_last [] c h = ([], rw h refl)
strip_newlines_last (a ∷ s) c h =
    let (t, e) = strip_newlines_last s c h in
    elim (Bool-cases (a == b'\r' || a == b'\n')) [
      | inl newline ↦ (t, rw newline e)
      | inr other ↦ (a ∷ s, rw other refl)
    ]

trim_right_first :
    (c : ℕ) (s : Bytes)
    → (c == b'\r' || c == b'\n') ≡ false
    → (t : Bytes) × (trim_right (c ∷ s) ≡ c ∷ t)
unfolding trim_right
trim_right_first c s h =
    let (t, e) = strip_newlines_last (reverse s) c h in
    (reverse t, rw (reverse_cons c s, e, reverse_snoc t c) refl)

-- The payload lines of the writers.
line_payload-object :
    (m : Bytes) → line_payload (codes "data: " ++ (object m ++ (b'\n' ∷ []))) ≡ some (object m)
unfolding line_payload has_prefix bytes_eq
line_payload-object m =
    let line : trim_right (codes "data: " ++ (object m ++ (b'\n' ∷ [])))
        ≡ codes "data: " ++ object m =
      trim_right_newline (codes "data: " ++ (b'{' ∷ m)) b'}' refl in
    rw (line, trim_space_blank b'{' m b'}' refl refl) refl

-- Lines that carry no payload.
line_payload_event : (s : Bytes) → line_payload (codes "event: " ++ s) ≡ none
unfolding line_payload has_prefix
line_payload_event s = let (t, e) = trim_right_first 101 (codes "vent: " ++ s) refl in rw e refl

NoNewline-object : (m : Bytes) → NoNewline m → NoNewline (object m)
NoNewline-object m h = (refl, All-append (λ c. (c == b'\n') ≡ false) m (b'}' ∷ []) h (refl, tt))

read_data_line :
    (m s : Bytes)
    → NoNewline m
    → payloads (lines (data_line (object m) ++ s)) ≡ object m ∷ payloads (lines s)
unfolding payloads
read_data_line m s h =
    let line : Bytes = codes "data: " ++ object m in
    let split : data_line (object m) ++ s ≡ line ++ (b'\n' ∷ b'\n' ∷ s) =
      append_assoc line (b'\n' ∷ b'\n' ∷ []) s in
    rw
      (
        split,
        lines_first line (b'\n' ∷ s)
            (refl, (refl, (refl, (refl, (refl, (refl, NoNewline-object m h)))))),
        lines_first [] s tt,
        line_payload-object m,
      )
      refl

read_event_line :
    (event s : Bytes)
    → NoNewline event
    → payloads (lines ((codes "event: " ++ (event ++ (b'\n' ∷ []))) ++ s)) ≡ payloads (lines s)
unfolding payloads
read_event_line event s h =
    let line : Bytes = codes "event: " ++ event in
    let split : (line ++ (b'\n' ∷ [])) ++ s ≡ line ++ (b'\n' ∷ s) =
      append_assoc line (b'\n' ∷ []) s in
    rw
      (
        split,
        lines_first line s (refl, (refl, (refl, (refl, (refl, (refl, (refl, h))))))),
        line_payload_event (event ++ (b'\n' ∷ [])),
      )
      refl

-- An event as the relay writes it: its name, which may be empty, and its JSON object.
pub record SseEvent : Type 0 where
  pub name : Bytes
  pub inside : Bytes

abbrev pub OneLine : SseEvent → Type 0
OneLine ev = NoNewline ev.name × NoNewline ev.inside

abbrev pub written : List SseEvent → Bytes
written [] = []
written (ev ∷ evs) = write_sse_named_raw ev.name (object ev.inside) ++ written evs

abbrev pub objects : List SseEvent → List Bytes
objects [] = []
objects (ev ∷ evs) = object ev.inside ∷ objects evs

read_event :
    (ev : SseEvent) (s : Bytes)
    → OneLine ev
    → payloads (lines (write_sse_named_raw ev.name (object ev.inside) ++ s))
      ≡ object ev.inside ∷ payloads (lines s)
unfolding write_sse_named_raw
read_event ev s h = elim (Bool-cases (bytes_eq ev.name [])) [
  | inl none_given ↦ rw none_given (read_data_line ev.inside s h.1)
  | inr given ↦ rw given (
      ap (λ (t : Bytes). payloads (lines t))
        (append_assoc (codes "event: " ++ (ev.name ++ (b'\n' ∷ []))) (data_line (object ev.inside))
          s)
      ∙ read_event_line ev.name (data_line (object ev.inside) ++ s) h.0
      ∙ read_data_line ev.inside s h.1)
]

read_written :
    (evs : List SseEvent) → All OneLine evs → payloads (lines (written evs)) ≡ objects evs
unfolding payloads lines
read_written [] h = refl
read_written (ev ∷ evs) h =
    read_event ev (written evs) h.0
    ∙ ap (λ (ps : List Bytes). object ev.inside ∷ ps) (read_written evs h.1)

-- What the SSE writer puts on the wire, named events and bare data lines in any order, the SSE reader
-- gives back: the JSON objects, each of them once and in order, and no error, when names and objects
-- have no newline in them.
pub read_sse-written :
    (evs : List SseEvent)
    → All OneLine evs
    → read_sse (record { bytes = written evs; end = eof }) ≡ (objects evs, none)
unfolding read_sse
read_sse-written evs h = rw (read_written evs h) refl
