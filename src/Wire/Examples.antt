-- ===== src/Wire/Examples.antt =====
-- Small streams for the theorems on server/internal/relay/stream.go.
use hhrouter.Base.{ℕ, ◌≡◌, refl, none, [], ◌∷◌, arith, length}
use hhrouter.Base.Text.{Bytes, codes}
use hhrouter.Wire.Reader.{eof, broken, Source, read}
use hhrouter.Wire.EventStream.{StreamEvent, Events, read_event_stream, event_headers, string_header}
use hhrouter.Wire.EventStream.RoundTrip.{Fits, encode_frames, read_event_stream-encode_frames}
use hhrouter.Wire.EventStream.Ends.{Frames, read_event_stream_ends}
use hhrouter.Wire.Sse.{read_sse}
use hhrouter.Wire.Sse.RoundTrip.{SseEvent, OneLine, written, objects, read_sse-written}

abbrev checksum : Bytes → ℕ
checksum s = length s

abbrev first : StreamEvent
first = record { event_type = codes "contentBlockDelta"; payload = codes "{}" }

abbrev second : StreamEvent
second = record { event_type = codes "messageStop"; payload = [] }

first-Fits : Fits first
unfolding event_headers string_header
first-Fits = record {
  type_fits = omega arith;
  frame_fits = omega arith;
  says_something = omega arith;
}

second-Fits : Fits second
unfolding event_headers string_header
second-Fits = record {
  type_fits = omega arith;
  frame_fits = omega arith;
  says_something = omega arith;
}

read_event_stream-encode_frames_example :
    read_event_stream (record { bytes = encode_frames checksum (first ∷ second ∷ []); end = eof })
    ≡ read (first ∷ second ∷ [], none)
read_event_stream-encode_frames_example =
    read_event_stream-encode_frames checksum (first ∷ second ∷ []) (first-Fits, (second-Fits, tt))

abbrev cut_off : Source
cut_off = record { bytes = 0 ∷ 0 ∷ 0 ∷ 64 ∷ 0 ∷ 0 ∷ []; end = broken (codes "reset") }

read_event_stream_ends_example :
    (out : Events) × (read_event_stream cut_off ≡ read out) × Frames cut_off.bytes cut_off.end out
read_event_stream_ends_example = read_event_stream_ends cut_off

abbrev named : SseEvent
named = record { name = codes "message_stop"; inside = codes "x" }

abbrev bare : SseEvent
bare = record { name = []; inside = [] }

named-OneLine : OneLine named
named-OneLine = (
  (
    refl,
    (refl, (refl, (refl, (refl, (refl, (refl, (refl, (refl, (refl, (refl, (refl, tt))))))))))),
  ),
  (refl, tt),
)

read_sse-written_example :
    read_sse (record { bytes = written (named ∷ bare ∷ []); end = eof })
    ≡ (objects (named ∷ bare ∷ []), none)
read_sse-written_example = read_sse-written (named ∷ bare ∷ []) (named-OneLine, ((tt, tt), tt))
