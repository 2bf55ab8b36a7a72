-- ===== src/Wire/EventStream/RoundTrip.antt =====
-- A frame that server/internal/adapter/bedrock_eventstream.go writes is read back by
-- server/internal/relay/stream.go.
use hhrouter.Base.{
  ℕ, zero, suc, ◌+◌, ◌-◌, ◌*◌, ◌/◌, ◌%◌, ◌^◌, ◌≤◌, ◌<◌, false, none, List, [], ◌∷◌, ◌++◌, ltb, leb,
  true, length, take, drop, ◌≡◌, refl, sym, ap, ◌∙◌, arith, length-append, take-length_append,
  drop-length_append, append_assoc,
}
use hhrouter.Base.Text.{Bytes, bytes_eq, codes}
use hhrouter.Base.Predicates.{All}
use hhrouter.Wire.Reader.{
  Reading, read, Source, ReadEnd, eof, full, read_full, put_u32, get_u32, put_u16, read_full_prefix,
  length-put_u32,
}
use hhrouter.Wire.EventStream.{
  StreamEvent, event_type_header, string_header, event_headers, frame_prelude, encode_frame,
  string_value, header_loop, event_type_of, take_frame, take_prelude, frame_loop, read_event_stream,
  Events, emit, emit_typed, body_length,
}

-- The value behind the name `:event-type`.
string_value_lem :
    (et rest : Bytes) (again : Bytes → Reading Bytes)
    → length et < 2 ^ 16
    → string_value 7 event_type_header (put_u16 (length et) ++ (et ++ rest)) again ≡ read et
unfolding string_value put_u16 bytes_eq
string_value_lem et rest again h =
    let len : length et / 256 % 256 * 256 + length et % 256 ≡ length et = omega arith in
    let long : ltb (length (et ++ rest)) (length et) ≡ false =
      ground (arith, length-append et rest) in
    let two : ltb (suc (suc (length (et ++ rest)))) 2 ≡ false = ground arith in
    let both : leb 2 (suc (suc (length (et ++ rest)))) ≡ true = ground arith in
    let whole : leb (length et) (length (et ++ rest)) ≡ true =
      ground (arith, length-append et rest) in
    rw (string_value, two, both, len, long, whole, take-length_append et rest) refl

first_header :
    (f : ℕ) (et rest : Bytes)
    → length et < 2 ^ 16
    → header_loop (suc f) (string_header event_type_header et ++ rest) ≡ read et
unfolding header_loop string_header
first_header f et rest h =
    let long : ltb
          (suc (
            suc (
              suc (
                suc (
                  suc
                    (suc (suc (suc (suc (suc (suc (suc (suc (suc (length (et ++ rest))))))))))))))))
          11
        ≡ false =
      ground arith in
    let inside : leb 11 (
          suc (
            suc (
              suc (
                suc (
                  suc
                    (suc (suc (suc (suc (suc (suc (suc (suc (suc (length (et ++ rest))))))))))))))))
        ≡ true =
      ground arith in
    rw (long, inside) (string_value_lem et rest (header_loop f) h)

event_type_of-event_headers :
    (et : Bytes) → length et < 2 ^ 16 → event_type_of (event_headers et) ≡ read et
unfolding event_type_of event_headers
event_type_of-event_headers et h =
    first_header (length (drop 1 (event_headers et))) et
      (string_header (codes ":content-type") (codes "application/json")
        ++ string_header (codes ":message-type") (codes "event"))
      h

prelude_fields :
    (crc : Bytes → ℕ) (t h : ℕ)
    → t < 2 ^ 32
    → h < 2 ^ 32
    → (get_u32 (take 4 (frame_prelude crc t h)) ≡ t)
      × (get_u32 (drop 4 (frame_prelude crc t h)) ≡ h)
      × (length (frame_prelude crc t h) ≡ 12)
unfolding frame_prelude get_u32
prelude_fields crc t h ht hh = (omega arith, omega arith, refl)

-- What the frame of an event must fit: 16 bits for the length of its type, 32 for that of the frame.
-- It has a type or a payload.
pub record Fits (ev : StreamEvent) : Type 0 where
  pub type_fits : length ev.event_type < 2 ^ 16
  pub frame_fits : length (event_headers ev.event_type) + length ev.payload + 16 < 2 ^ 32
  pub says_something : 0 < length ev.event_type + length ev.payload

emit_typed_lem :
    (et payload : Bytes) (more : Reading Events)
    → 0 < length et + length payload
    → emit_typed (read et) payload more ≡ emit (record { event_type = et; payload = payload }) more
emit_typed_lem [] [] more h = absurd (omega arith)
emit_typed_lem [] (b ∷ payload) more h = refl
emit_typed_lem (t ∷ et) payload more h = refl

-- The rest of a frame behind its prelude.
take_frame_lem :
    (ev : StreamEvent) (checksum : ℕ) (r : Source) (again : Source → Reading Events)
    → Fits ev
    → take_frame
        (length (event_headers ev.event_type))
        (full (event_headers ev.event_type ++ (ev.payload ++ put_u32 checksum)) r)
        again
      ≡ emit ev (again r)
unfolding take_frame
take_frame_lem ev checksum r again fits =
    let hs = event_headers ev.event_type in
    let tail = ev.payload ++ put_u32 checksum in
    let size : length (hs ++ tail) ≡ length hs + length ev.payload + 4 = omega (
      arith,
      length-append hs tail,
      length-append ev.payload (put_u32 checksum),
      length-put_u32 checksum,
    ) in
    let inside : ltb (length hs + length ev.payload + 4) (length hs + 4) ≡ false = ground arith in
    let headed : leb (length hs) (length hs + length ev.payload + 4) ≡ true = ground arith in
    let paid : leb (length hs + 4) (length hs + length ev.payload + 4) ≡ true = ground arith in
    let payload_size : length hs + length ev.payload + 4 - length hs - 4 ≡ length ev.payload =
      omega arith in
    rw
      (
        size,
        inside,
        headed,
        paid,
        payload_size,
        take-length_append hs tail,
        drop-length_append hs tail,
        take-length_append ev.payload (put_u32 checksum),
        event_type_of-event_headers ev.event_type fits.type_fits,
      )
      (emit_typed_lem ev.event_type ev.payload (again r) fits.says_something)

frame_loop-encode_frame :
    (crc : Bytes → ℕ) (f : ℕ) (ev : StreamEvent) (rest : Bytes) (end : ReadEnd)
    → Fits ev
    → frame_loop
        (suc f)
        (record { bytes = encode_frame crc ev.event_type ev.payload ++ rest; end = end })
      ≡ emit ev (frame_loop f (record { bytes = rest; end = end }))
unfolding frame_loop encode_frame take_prelude
frame_loop-encode_frame crc f ev rest end fits =
    let hs = event_headers ev.event_type in
    let total = 4 + 4 + 4 + length hs + length ev.payload + 4 in
    let prelude = frame_prelude crc total (length hs) in
    let checksum = crc (prelude ++ (hs ++ ev.payload)) in
    let body = hs ++ (ev.payload ++ put_u32 checksum) in
    let (t, h, twelve) =
      prelude_fields crc total (length hs) (omega (arith, fits.frame_fits))
        (omega (arith, fits.frame_fits)) in
    let first : read_full 12 (record { bytes = prelude ++ (body ++ rest); end = end })
        ≡ full prelude (record { bytes = body ++ rest; end = end }) =
      read_full_prefix 12 prelude (body ++ rest) end (sym twelve) in
    let size : body_length total ≡ length body = omega (
      arith,
      fits.frame_fits,
      length-append hs (ev.payload ++ put_u32 checksum),
      length-append ev.payload (put_u32 checksum),
      length-put_u32 checksum,
    ) in
    let second : read_full (body_length total) (record { bytes = body ++ rest; end = end })
        ≡ full body (record { bytes = rest; end = end }) =
      read_full_prefix (body_length total) body rest end size in
    let wide : ltb total 16 ≡ false = ground arith in
    let inside : ltb total (length hs) ≡ false = ground arith in
    rw (append_assoc prelude body rest, first, t, h, wide, inside, second)
      (take_frame_lem ev checksum (record { bytes = rest; end = end }) (frame_loop f) fits)

abbrev pub encode_frames : (Bytes → ℕ) → List StreamEvent → Bytes
encode_frames crc [] = []
encode_frames crc (ev ∷ evs) = encode_frame crc ev.event_type ev.payload ++ encode_frames crc evs

length-encode_frames :
    (crc : Bytes → ℕ) (evs : List StreamEvent) → length evs ≤ length (encode_frames crc evs)
unfolding encode_frame frame_prelude put_u32
length-encode_frames crc [] = omega arith
length-encode_frames crc (ev ∷ evs) =
    let rest : ℕ = length (encode_frames crc evs) in
    omega (
      arith,
      length-encode_frames crc evs,
      length-append (encode_frame crc ev.event_type ev.payload) (encode_frames crc evs),
    )

frame_loop-encode_frames :
    (crc : Bytes → ℕ) (evs : List StreamEvent) (f : ℕ)
    → All Fits evs
    → length evs < f
    → frame_loop f (record { bytes = encode_frames crc evs; end = eof }) ≡ read (evs, none)
frame_loop-encode_frames crc evs zero fits h = absurd (omega arith)
frame_loop-encode_frames crc [] (suc f) fits h = unfold frame_loop read_full take_prelude in refl
frame_loop-encode_frames crc (ev ∷ evs) (suc f) fits h =
    frame_loop-encode_frame crc f ev (encode_frames crc evs) eof fits.0
    ∙ ap (emit ev) (frame_loop-encode_frames crc evs f fits.1 (omega arith))

-- Whatever the checksum, a reader of the frames that were written for a list of events sees these
-- events, in order, and a clean end. An event's type must fit 16 bits of length and its frame 32, and it
-- must have a type or a payload.
pub read_event_stream-encode_frames :
    (crc : Bytes → ℕ) (evs : List StreamEvent)
    → All Fits evs
    → read_event_stream (record { bytes = encode_frames crc evs; end = eof }) ≡ read (evs, none)
unfolding read_event_stream
read_event_stream-encode_frames crc evs fits =
    frame_loop-encode_frames crc evs (suc (length (encode_frames crc evs))) fits
      (omega (arith, length-encode_frames crc evs))
