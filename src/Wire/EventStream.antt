-- ===== src/Wire/EventStream.antt =====
-- AWS event-stream frames: `EncodeBedrockFrame` of server/internal/adapter/bedrock_eventstream.go, and
-- `readEventStream` with `eventTypeFromHeaders` of server/internal/relay/stream.go. The checksum is
-- hash/crc32's, a parameter.
pub mod RoundTrip
pub mod Headers
pub mod Ends
use hhrouter.Base.{
  ℕ, zero, suc, ◌+◌, ◌-◌, ◌%◌, ◌^◌, Bool, true, false, ◌&&◌, ◌||◌, not, Option, none, some, List,
  [], ◌∷◌, ◌++◌, ltb, leb, ◌==◌, if◌then◌else◌, length, take, drop,
}
use hhrouter.Base.Text.{Bytes, bytes_eq, codes}
use hhrouter.Wire.Reader.{
  Source, ReadError, at_eof, unexpected_eof, read_failed, Full, full, short, read_full, put_u32,
  get_u32, put_u16, get_u16, Reading, read, panicked, out_of_fuel, slice,
}

pub record StreamEvent : Type 0 where
  pub event_type : Bytes
  pub payload : Bytes

abbrev pub event_type_header : Bytes
event_type_header = codes ":event-type"

unfoldable pub string_header : Bytes → Bytes → Bytes
unfolding put_u16
string_header name value = ((length name % 256) ∷ name) ++ (7 ∷ (put_u16 (length value) ++ value))

unfoldable pub event_headers : Bytes → Bytes
unfolding string_header
event_headers event_type =
    string_header event_type_header event_type
    ++ (string_header (codes ":content-type") (codes "application/json")
        ++ string_header (codes ":message-type") (codes "event"))

-- The prelude with its checksum.
unfoldable pub frame_prelude : (Bytes → ℕ) → ℕ → ℕ → Bytes
unfolding put_u32
frame_prelude crc total headers =
    let lengths = put_u32 total ++ put_u32 headers in lengths ++ put_u32 (crc lengths)

unfoldable pub encode_frame : (Bytes → ℕ) → Bytes → Bytes → Bytes
encode_frame crc event_type payload =
    let headers = event_headers event_type in
    let total = 4 + 4 + 4 + length headers + length payload + 4 in
    let prelude = frame_prelude crc total (length headers) in
    prelude ++ (headers ++ (payload ++ put_u32 (crc (prelude ++ (headers ++ payload)))))

-- `i += n` and the next turn of the loop. (An index past the end ends it.)
abbrev pub skip : ℕ → Bytes → (Bytes → Reading Bytes) → Reading Bytes
skip n v again = again (drop n v)

-- A value of type 6 or 7, behind its name: two bytes of length, then the value.
unfoldable pub string_value : ℕ → Bytes → Bytes → (Bytes → Reading Bytes) → Reading Bytes
unfolding bytes_eq get_u16
string_value value_type name v again =
    let body = drop 2 v in
    let sized = slice 2 v λ two.
      (if ltb (length body) (get_u16 two)
        then read []
        else if value_type == 7 && bytes_eq name event_type_header
        then slice (get_u16 two) body read
        else again (drop (get_u16 two) body)) in
    if ltb (length v) 2 then read [] else sized

unfoldable pub header_value : ℕ → Bytes → Bytes → (Bytes → Reading Bytes) → Reading Bytes
unfolding string_value
header_value value_type name v again =
    if value_type == 0 || value_type == 1
    then again v
    else if value_type == 2
    then skip 1 v again
    else if value_type == 3
    then skip 2 v again
    else if value_type == 4
    then skip 4 v again
    else if value_type == 5 || value_type == 8
    then skip 8 v again
    else if value_type == 6 || value_type == 7
    then string_value value_type name v again
    else if value_type == 9
    then skip 16 v again
    else read []

abbrev pub typed_value : Bytes → Bytes → (Bytes → Reading Bytes) → Reading Bytes
typed_value name [] again = read []
typed_value name (value_type ∷ v) again = header_value value_type name v again

-- eventTypeFromHeaders, on what is left of the headers, with fuel.
unfoldable pub header_loop : ℕ → Bytes → Reading Bytes
unfolding header_value
header_loop f [] = read []
header_loop zero (n ∷ h) = out_of_fuel
header_loop (suc f) (n ∷ h) =
    let found = slice n h λ name. typed_value name (drop n h) (header_loop f) in
    if ltb (length h) n then read [] else found

unfoldable pub event_type_of : Bytes → Reading Bytes
unfolding header_loop
event_type_of h = header_loop (length h) h

pub data StreamError : Type 0 where
  malformed_lengths : ℕ → ℕ → StreamError
  bounds_exceed_frame : StreamError
  read_error : ReadError → StreamError

-- The events that went out on the channel, and the error that follows them.
abbrev pub Events : Type 0
Events = List StreamEvent × Option StreamError

abbrev pub emit : StreamEvent → Reading Events → Reading Events
emit ev panicked = panicked
emit ev out_of_fuel = out_of_fuel
emit ev (read (evs, e)) = read (ev ∷ evs, e)

abbrev pub prelude_failed : ReadError → Reading Events
prelude_failed at_eof = read ([], none)
prelude_failed unexpected_eof = read ([], none)
prelude_failed (read_failed e) = read ([], some (read_error (read_failed e)))

-- A frame's event goes out unless it has neither a type nor a payload.
abbrev pub emit_typed : Reading Bytes → Bytes → Reading Events → Reading Events
emit_typed panicked payload more = panicked
emit_typed out_of_fuel payload more = out_of_fuel
emit_typed (read []) [] more = more
emit_typed (read []) (b ∷ payload) more =
    emit (record { event_type = []; payload = b ∷ payload }) more
emit_typed (read (t ∷ event_type)) payload more =
    emit (record { event_type = t ∷ event_type; payload = payload }) more

-- rest[headersLen : len(rest)-4]
abbrev pub slice_payload : ℕ → Bytes → (Bytes → Reading Events) → Reading Events
slice_payload headers rest k =
    if leb (headers + 4) (length rest)
    then k (take (length rest - headers - 4) (drop headers rest))
    else panicked

unfoldable pub take_frame : ℕ → Full → (Source → Reading Events) → Reading Events
take_frame headers (short e) again = read ([], some (read_error e))
take_frame headers (full rest r) again =
    let more =
      slice headers rest
        λ h. slice_payload headers rest λ payload. emit_typed (event_type_of h) payload (again r) in
    if ltb (length rest) (headers + 4) then read ([], some bounds_exceed_frame) else more

-- totalLen-12, on uint32
abbrev pub body_length : ℕ → ℕ
body_length total = (total + 2 ^ 32 - 12) % 2 ^ 32

unfoldable pub take_prelude : Full → (Source → Reading Events) → Reading Events
take_prelude (short e) again = prelude_failed e
take_prelude (full prelude r) again =
    let total = get_u32 (take 4 prelude) in
    let headers = get_u32 (drop 4 prelude) in
    let more = take_frame headers (read_full (body_length total) r) again in
    if ltb total 16 || ltb total headers
    then read ([], some (malformed_lengths total headers))
    else more

-- The loop of readEventStream, with fuel.
unfoldable pub frame_loop : ℕ → Source → Reading Events
frame_loop zero r = out_of_fuel
frame_loop (suc f) r = take_prelude (read_full 12 r) (frame_loop f)

unfoldable pub read_event_stream : Source → Reading Events
read_event_stream r = frame_loop (suc (length r.bytes)) r
