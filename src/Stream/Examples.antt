-- ===== src/Stream/Examples.antt =====
-- Small streams for the theorems on the streaming relay, server/internal/relay/stream.go.
use hhrouter.Base.{
  ◌≡◌, refl, true, false, ◌&&◌, none, some, Option, List, [], ◌∷◌, inr, ◌==◌, if◌then◌else◌, map,
}
use hhrouter.Base.Int.{pos}
use hhrouter.Base.Text.{Bytes, bytes_eq, codes}
use hhrouter.Wire.Reader.{eof, Source}
use hhrouter.Wire.EventStream.{StreamEvent}
use hhrouter.Adapter.{no_chunk, UpstreamError, ParsedChunk, stop_tool_use}
use hhrouter.Adapter.Anthropic
use hhrouter.Adapter.Bedrock
use hhrouter.Quota.Reliable.{View}
use hhrouter.Model.{Channel}
use hhrouter.Relay.Data.{Relay, Attempt}
use hhrouter.Relay.Accounts.{Accounts}
use hhrouter.Relay.Examples.{channel, upstreams, request, start, selection}
use hhrouter.Stream.Events.{WireEvent, out_anthropic, out_openai}
use hhrouter.Stream.Pump.{closed, client_gone, pump_stream}
use hhrouter.Stream.Protocol.{accept_all, before, over}
use hhrouter.Stream.Framing.{pump_stream_framing}
use hhrouter.Stream.Text.{sent_text}
use hhrouter.Stream.Parsers.{anthropic_bedrock_text}
use hhrouter.Stream.Passthrough.{
  PassthroughEvent, pump_passthrough, forwarded, until_error, pump_passthrough_verbatim,
}
use hhrouter.Stream.Serve.{
  parser, feed, upstream_events, take_connection, Connection, connected, rejected_by, Decoders,
  serve_stream,
}
use hhrouter.Stream.Accounts.{serve_stream-Accounts}
use hhrouter.Stream.Failing.{told, FailsWith, take_connection_failed}

abbrev event : Bytes → StreamEvent
event s = record { event_type = s; payload = s }

abbrev events : List StreamEvent
events = event (codes "call") ∷ event (codes "hi") ∷ event [] ∷ []

-- A parser that makes a tool call of `call` and text of the rest
abbrev parse : Bytes → Bytes → ParsedChunk
parse t [] = none
parse t (c ∷ p) =
    if c == b'c'
    then some (
      record no_chunk {
        tool_call_delta = some (record {
          index = pos 0;
          id = codes "1";
          name = codes "f";
          args_fragment = codes "{}";
        });
        stop_reason = stop_tool_use;
      },
      true,
    )
    else some (record no_chunk { delta = c ∷ p }, true)

pump_stream_framing_example :
    accept_all (some before) (pump_stream parse out_anthropic (codes "gpt") events client_gone).out
    ≡ some over
pump_stream_framing_example = pump_stream_framing parse (codes "gpt") events client_gone

abbrev anthropic_body : Bytes → Anthropic.StreamEventBody
anthropic_body p = record {
  kind = codes "content_block_delta";
  index = pos 0;
  message = none;
  content_block = none;
  delta =
      some (record { kind = codes "text_delta"; text = p; partial_json = []; stop_reason = [] });
  usage = none;
  error = none;
}

abbrev bedrock_json : Bedrock.BedrockJson
bedrock_json = record {
  block_start = λ p. none;
  block_delta = λ p. none;
  message_stop = λ p. some p;
  metadata = λ p. some none;
  wrapped =
      λ p. some (record { content_block_delta = some p; message_stop = none; metadata = none });
  exception_message = λ p. p;
}

abbrev decode : Bytes → Option Anthropic.StreamEventBody
decode p = some (anthropic_body p)

anthropic_bedrock_text_example :
    (sent_text
        (pump_stream
          (Anthropic.parse_stream_chunk decode)
          out_openai
          (codes "gpt")
          events
          (closed none)).out
      ≡ (pump_stream
          (Anthropic.parse_stream_chunk decode)
          out_openai
          (codes "gpt")
          events
          (closed none)).completion)
    × (sent_text
          (pump_stream
            (Bedrock.parse_stream_chunk bedrock_json)
            out_openai
            (codes "gpt")
            events
            (closed none)).out
        ≡ (pump_stream
            (Bedrock.parse_stream_chunk bedrock_json)
            out_openai
            (codes "gpt")
            events
            (closed none)).completion)
anthropic_bedrock_text_example =
    anthropic_bedrock_text decode bedrock_json out_openai (codes "gpt") events (closed none)

abbrev sniff : Bytes → PassthroughEvent
sniff p = record { kind = p; message = none; delta = none; usage = none; error = none }

abbrev failing : List StreamEvent
failing = event (codes "ping") ∷ event (codes "error") ∷ event (codes "ping") ∷ []

pump_passthrough_verbatim_example :
    (pump_passthrough sniff failing (closed none)).out
    ≡ map (forwarded sniff) (until_error sniff failing)
pump_passthrough_verbatim_example = pump_passthrough_verbatim sniff failing (closed none)

abbrev pub decoders : Decoders
decoders = record {
  openai = λ p. some (record {
    choices = record { content = p; tool_calls = []; finish_reason = none } ∷ [];
    usage = none;
  });
  anthropic = decode;
  bedrock = bedrock_json;
  sniff = sniff;
}

-- The first channel answers 503, the second streams.
abbrev pub connect : Channel → Bytes → View → Connection × View
connect ch model v = (
  if ch.id == 1
      then rejected_by
          (record { provider = codes "openai"; status_code = pos 503; message = []; body = [] })
      else connected (record { bytes = codes "data: {}"; end = eof }) none,
  v,
)

serve_stream-Accounts_example :
    (st' : Relay View) × (serve_stream upstreams decoders connect out_anthropic request
        (inr selection)
        start
      ≡ some st')
    × Accounts start st'
serve_stream-Accounts_example =
    serve_stream-Accounts upstreams decoders connect out_anthropic request (inr selection) start

abbrev attempt : Attempt
attempt = record { channel = channel 2; upstream = codes "gpt" }

-- An upstream that sends a text and then an error.
abbrev fails_midway : Decoders
fails_midway = record decoders {
  anthropic = λ p.
      (if bytes_eq p (codes "x")
        then some (record (anthropic_body []) {
          kind = codes "error";
          error = some (record { kind = codes "overloaded_error"; message = codes "busy" });
        })
        else decode p);
}

abbrev anthropic_attempt : Attempt
anthropic_attempt = record {
  channel = record (channel 2) { kind = codes "anthropic" };
  upstream = codes "gpt";
}

abbrev hi_and_error : Source
hi_and_error = record { bytes = codes "data: hi\ndata: x\ndata: yo\n"; end = eof }

abbrev payload : Bytes → StreamEvent
payload p = record { event_type = []; payload = p }

abbrev busy : UpstreamError
busy = record {
  provider = codes "anthropic";
  status_code = pos 503;
  message = codes "busy";
  body = [];
}

abbrev sent_before : List WireEvent
sent_before =
    (pump_stream (parser fails_midway (codes "anthropic")) out_openai (codes "gpt")
      (payload (codes "hi") ∷ []) (closed none)).out

busy_transformed : (bytes_eq (codes "anthropic") (codes "anthropic") && false) ≡ false
unfolding bytes_eq
busy_transformed = refl

events_read :
    feed none (upstream_events (codes "anthropic") hi_and_error)
    ≡ (payload (codes "hi") ∷ payload (codes "x") ∷ payload (codes "yo") ∷ [], closed none)
unfolding upstream_events bytes_eq
events_read = refl

hi_passes : told (parser fails_midway (codes "anthropic") [] (codes "hi")) ≡ none
unfolding parser
hi_passes = refl

x_fails : told (parser fails_midway (codes "anthropic") [] (codes "x")) ≡ some busy
unfolding parser
x_fails = refl

take_connection_failed_example :
    FailsWith upstreams fails_midway connect out_openai request anthropic_attempt busy sent_before
      start
      (take_connection upstreams fails_midway connect out_openai request anthropic_attempt none none
        (connected hi_and_error none)
        start)
take_connection_failed_example =
    take_connection_failed upstreams fails_midway connect out_openai request anthropic_attempt none
      none hi_and_error none (payload (codes "hi") ∷ []) (payload (codes "x"))
      (payload (codes "yo") ∷ []) (closed none) busy start busy_transformed events_read
      (hi_passes, tt) x_fails
