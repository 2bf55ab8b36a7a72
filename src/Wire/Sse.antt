-- ===== src/Wire/Sse.antt =====
-- SSE lines (server/internal/relay/stream.go): `readSSE`, and the writers `writeSSERaw`,
-- `writeSSENamed` and `writeSSENamedRaw`.
pub mod RoundTrip
use hhrouter.Base.{
  ℕ, Bool, true, false, ◌&&◌, ◌||◌, not, Option, none, some, List, [], ◌∷◌, ◌++◌, ◌==◌,
  if◌then◌else◌, drop, reverse,
}
use hhrouter.Base.Text.{Bytes, bytes_eq, codes, has_prefix, trim_space}
use hhrouter.Wire.Reader.{Source, ReadEnd, eof, cut, broken}

-- What ReadBytes('\n') returns, call after call: lines with their newline, and a last one without.
abbrev pub extend : ℕ → List Bytes → List Bytes
extend c [] = (c ∷ []) ∷ []
extend c (line ∷ lines) = (c ∷ line) ∷ lines

unfoldable pub lines : Bytes → List Bytes
lines [] = []
lines (c ∷ s) = let rest = lines s in if c == b'\n' then (c ∷ []) ∷ rest else extend c rest

-- bytes.TrimRight(line, "\r\n"), of a line that is given backwards
unfoldable pub strip_newlines : Bytes → Bytes
strip_newlines [] = []
strip_newlines (c ∷ s) =
    let rest = strip_newlines s in if c == b'\r' || c == b'\n' then rest else c ∷ s

unfoldable pub trim_right : Bytes → Bytes
unfolding strip_newlines
trim_right s = reverse (strip_newlines (reverse s))

abbrev pub data_prefix : Bytes
data_prefix = codes "data:"

abbrev pub done_sentinel : Bytes
done_sentinel = codes "[DONE]"

-- The payload of a line, if it is sent on.
unfoldable pub line_payload : Bytes → Option Bytes
unfolding trim_right has_prefix trim_space bytes_eq
line_payload line =
    let trimmed = trim_right line in
    let payload = trim_space (drop 5 trimmed) in
    let sent =
      if bytes_eq payload [] || bytes_eq payload done_sentinel then none else some payload in
    if has_prefix trimmed data_prefix then sent else none

abbrev pub send : Option Bytes → List Bytes → List Bytes
send none payloads = payloads
send (some p) payloads = p ∷ payloads

unfoldable pub payloads : List Bytes → List Bytes
unfolding line_payload
payloads [] = []
payloads (line ∷ rest) = send (line_payload line) (payloads rest)

abbrev pub end_error : ReadEnd → Option Bytes
end_error eof = none
end_error cut = some (codes "unexpected EOF")
end_error (broken e) = some e

unfoldable pub read_sse : Source → List Bytes × Option Bytes
unfolding lines payloads
read_sse r = (payloads (lines r.bytes), end_error r.end)

abbrev pub data_line : Bytes → Bytes
data_line payload = codes "data: " ++ (payload ++ (b'\n' ∷ b'\n' ∷ []))

unfoldable pub write_sse_raw : Bytes → Bytes
write_sse_raw payload = data_line payload

unfoldable pub write_sse_named : Bytes → Bytes → Bytes
write_sse_named event payload = codes "event: " ++ (event ++ (b'\n' ∷ data_line payload))

unfoldable pub write_sse_named_raw : Bytes → Bytes → Bytes
unfolding bytes_eq
write_sse_named_raw event payload =
    (if not (bytes_eq event []) then codes "event: " ++ (event ++ (b'\n' ∷ [])) else [])
    ++ data_line payload
