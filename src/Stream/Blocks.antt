-- ===== src/Stream/Blocks.antt =====
-- The content blocks that the pump of server/internal/relay/stream.go has open, and its writes to the text block.
use hhrouter.Base.{
  ℕ, zero, suc, Bool, true, false, some, List, [], ◌∷◌, ◌++◌, ◌≡◌, refl, inl, inr, arith,
  Bool-cases,
}
use hhrouter.Base.Int.{pos, ltb_ℤ}
use hhrouter.Base.Text.{Bytes, bytes_eq}
use hhrouter.Stream.Events.{
  AnthropicEvent, message_start, text_block_start, text_delta, input_json_delta, content_block_stop,
  WireEvent, anthropic,
}
use hhrouter.Stream.Pump.{
  Pump, write_anthropic, emit_anthropic_prelude, open_text_block, open_anthropic_text, write_text,
}
use hhrouter.Stream.Protocol.{
  text, tool, Block, Protocol, before, during, accept, accept_all, accept_all_last,
}

-- The blocks that are open by the pump's variables.
abbrev pub tool_blocks : ℕ → List Block
tool_blocks zero = []
tool_blocks (suc n) = (pos (suc n), tool) ∷ []

abbrev pub blocks : Bool → ℕ → List Block
blocks true n = (pos 0, text) ∷ tool_blocks n
blocks false n = tool_blocks n

abbrev pub at : Bool → Bool → ℕ → List WireEvent → Pump → Pump
at opened text_open tool_idx out st = record st {
  anth_opened = opened;
  anth_text_open = text_open;
  anth_tool_idx = pos tool_idx;
  out = out;
}

abbrev pub Sent : List WireEvent → Protocol → Type 0
Sent out p = accept_all (some before) out ≡ some p

-- A message has started, and the blocks that the variables tell of are open.
pub data Started : Pump → Type 0 where
  started :
      (st : Pump) (t : Bool) (n : ℕ) (out : List WireEvent)
      → Sent out (during (blocks t n))
      → Started (at true t n out st)

pub data Framed : Pump → Type 0 where
  unopened : (st : Pump) (out : List WireEvent) → Sent out before → Framed (at false false 0 out st)
  opened : {st : Pump} → Started st → Framed st

pub sent :
    (out : List WireEvent) (p q : Protocol) (e : AnthropicEvent)
    → Sent out p
    → accept p e ≡ some q
    → Sent (out ++ (anthropic e ∷ [])) q
sent out p q e h step = rw (accept_all_last (some before) out (anthropic e), h) step

pub emit_anthropic_prelude-Started :
    (model : Bytes) (st : Pump) → Framed st → Started (emit_anthropic_prelude model st)
unfolding emit_anthropic_prelude
emit_anthropic_prelude-Started model _ (unopened st out h) =
    started st false 0 _ (sent out before (during []) (message_start model) h refl)
emit_anthropic_prelude-Started model _ (opened (started st t n out h)) = started st t n out h

accept_text_start :
    (n : ℕ)
    → accept (during (blocks false n)) (text_block_start (pos 0)) ≡ some (during (blocks true n))
accept_text_start zero = refl
accept_text_start (suc n) = ground arith

accept_text_stop :
    (n : ℕ)
    → accept (during (blocks true n)) (content_block_stop (pos 0)) ≡ some (during (blocks false n))
accept_text_stop zero = refl
accept_text_stop (suc n) = ground arith

pub accept_tool_stop :
    (t : Bool) (n : ℕ)
    → accept (during (blocks t (suc n))) (content_block_stop (pos (suc n)))
      ≡ some (during (blocks t 0))
accept_tool_stop true n = ground arith
accept_tool_stop false n = ground arith

pub accept_arguments :
    (t : Bool) (n : ℕ) (s : Bytes)
    → accept (during (blocks t (suc n))) (input_json_delta (pos (suc n)) s)
      ≡ some (during (blocks t (suc n)))
accept_arguments true n s = ground arith
accept_arguments false n s = ground arith

pub positive_lt : (n : ℕ) → ltb_ℤ (pos 0) (pos (suc n)) ≡ true
positive_lt n = ground arith

open_text_block-Started : (st : Pump) → Started st → Started (open_text_block st)
unfolding open_text_block
open_text_block-Started _ (started st true n out h) = started st true n out h
open_text_block-Started _ (started st false n out h) = started st true n _ (
    sent out (during (blocks false n)) (during (blocks true n)) (text_block_start (pos 0)) h
      (accept_text_start n))

-- A pump whose text block is open takes a delta of it.
text_delta-Started :
    (s : Bytes) (st : Pump)
    → Started st
    → Started (write_anthropic (text_delta (pos 0) s) (open_text_block st))
unfolding open_text_block
text_delta-Started s st h =
    go (open_text_block st) (open_text_block-Started st h) (open_text_block-open st h)
  where
    open_text_block-open : (st : Pump) → Started st → (open_text_block st).anth_text_open ≡ true
    open_text_block-open _ (started st true n out h) = refl
    open_text_block-open _ (started st false n out h) = refl

    go :
        (st : Pump)
        → Started st
        → st.anth_text_open ≡ true
        → Started (write_anthropic (text_delta (pos 0) s) st)
    go _ (started st true n out h) e =
        started st true n _
          (sent out (during (blocks true n)) (during (blocks true n)) (text_delta (pos 0) s) h refl)
    go _ (started st false n out h) e = cc

pub write_text-Framed :
    (model delta : Bytes) (st : Pump) → Framed st → Framed (write_text model delta st)
unfolding write_text open_anthropic_text
write_text-Framed model delta st h = elim (Bool-cases (bytes_eq delta [])) [
  | inl e ↦ rw e h
  | inr e ↦ rw e (opened (text_delta-Started delta _ (emit_anthropic_prelude-Started model st h)))
]
