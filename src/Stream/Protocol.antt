-- ===== src/Stream/Protocol.antt =====
-- The order of events that a client of Anthropic's streaming protocol expects, as an automaton on what
-- server/internal/relay/stream.go sends.
use hhrouter.Base.{
  Bool, true, false, Option, none, some, List, [], ◌∷◌, ◌++◌, if◌then◌else◌, ◌≡◌, refl,
}
use hhrouter.Base.Int.{ℤ, eqb_ℤ}
use hhrouter.Stream.Events.{
  AnthropicEvent, message_start, text_block_start, tool_block_start, text_delta, input_json_delta,
  content_block_stop, message_delta, message_stop, WireEvent, anthropic, openai_chunk, openai_done,
  bedrock, verbatim,
}

pub data Kind : Type 0 where
  text tool : Kind

abbrev pub same_kind : Kind → Kind → Bool
same_kind text text = true
same_kind tool tool = true
same_kind text tool = false
same_kind tool text = false

abbrev pub Block : Type 0
Block = ℤ × Kind

-- Nothing sent, a message with these blocks open, its closing delta sent, or all of it sent.
pub data Protocol : Type 0 where
  before closing over : Protocol
  during : List Block → Protocol

abbrev pub is_open : ℤ → List Block → Bool
is_open i [] = false
is_open i (b ∷ blocks) = if eqb_ℤ i b.0 then true else is_open i blocks

abbrev pub is_open_as : ℤ → Kind → List Block → Bool
is_open_as i k [] = false
is_open_as i k (b ∷ blocks) = if eqb_ℤ i b.0 then same_kind k b.1 else is_open_as i k blocks

abbrev pub close_block : ℤ → List Block → List Block
close_block i [] = []
close_block i (b ∷ blocks) =
    let rest = close_block i blocks in if eqb_ℤ i b.0 then rest else b ∷ rest

abbrev pub when : Bool → Protocol → Option Protocol
when true p = some p
when false p = none

-- A block is opened only when its index is free, written to and closed only when it is open, and
-- written to only in its own kind; the closing delta comes when none is open.
abbrev pub accept : Protocol → AnthropicEvent → Option Protocol
accept before (message_start model) = some (during [])
accept (during bs) (text_block_start i) =
    if is_open i bs then none else some (during ((i, text) ∷ bs))
accept (during bs) (tool_block_start i id name) =
    if is_open i bs then none else some (during ((i, tool) ∷ bs))
accept (during bs) (text_delta i s) = when (is_open_as i text bs) (during bs)
accept (during bs) (input_json_delta i s) = when (is_open_as i tool bs) (during bs)
accept (during bs) (content_block_stop i) = when (is_open i bs) (during (close_block i bs))
accept (during []) (message_delta reason usage) = some closing
accept closing message_stop = some over
accept p e = none

-- Only Anthropic's events have a place.
abbrev pub accept_event : Option Protocol → WireEvent → Option Protocol
accept_event none e = none
accept_event (some p) (anthropic e) = accept p e
accept_event (some p) (openai_chunk c) = none
accept_event (some p) openai_done = none
accept_event (some p) (bedrock e) = none
accept_event (some p) (verbatim name payload) = none

unfoldable pub accept_all : Option Protocol → List WireEvent → Option Protocol
accept_all p [] = p
accept_all p (e ∷ es) = accept_all (accept_event p e) es

pub accept_all_last :
    (p : Option Protocol) (es : List WireEvent) (e : WireEvent)
    → accept_all p (es ++ (e ∷ [])) ≡ accept_event (accept_all p es) e
unfolding accept_all
accept_all_last p [] e = refl
accept_all_last p (d ∷ es) e = accept_all_last (accept_event p d) es e
