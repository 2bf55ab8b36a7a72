-- ===== src/Router/Prompt.antt =====
-- The prompt of the routing classifier: `RenderProbePrompt` and `truncateMiddle` of
-- server/internal/router/engine.go. A text is its runes, as Go's []rune conversion gives them for valid
-- UTF-8; `len` of a string counts its bytes.
pub mod Bounded
mod Examples
use hhrouter.Base.{
  ℕ, ◌+◌, ◌-◌, ◌/◌, Bool, true, false, ◌&&◌, ◌||◌, not, List, [], ◌∷◌, ◌++◌, ◌==◌, if◌then◌else◌,
  ltb, leb, length, take, drop, reverse,
}
use hhrouter.Base.Text.{codes}

abbrev pub Runes : Type 0
Runes = List ℕ

pub record Turn : Type 0 where
  pub role : Runes
  pub text : Runes

unfoldable pub rune_length : ℕ → ℕ
rune_length r = if ltb r 0x80 then 1 else if ltb r 0x800 then 2 else if ltb r 0x10000 then 3 else 4

-- len(s)
unfoldable pub byte_length : Runes → ℕ
byte_length [] = 0
byte_length (r ∷ s) = rune_length r + byte_length s

unfoldable pub is_space : ℕ → Bool
is_space r =
    (leb 9 r && leb r 13)
    || (r == 32)
    || (r == 0x85)
    || (r == 0xa0)
    || (r == 0x1680)
    || (leb 0x2000 r && leb r 0x200a)
    || (r == 0x2028)
    || (r == 0x2029)
    || (r == 0x202f)
    || (r == 0x205f)
    || (r == 0x3000)

-- strings.TrimSpace(s) == ""
unfoldable pub all_space : Runes → Bool
unfolding is_space
all_space [] = true
all_space (r ∷ s) = is_space r && all_space s

abbrev pub max_probe_prompt_chars : ℕ
max_probe_prompt_chars = 16000

abbrev pub max_probe_turn_chars : ℕ
max_probe_turn_chars = 4000

abbrev pub marker : Runes
marker = 0x2026 ∷ (codes "[truncated]" ++ (0x2026 ∷ []))

unfoldable pub truncate_middle : Runes → ℕ → Runes
truncate_middle s max =
    let keep = max - length marker in
    let head = keep / 2 in
    let tail = keep - head in
    if leb (length s) max
    then s
    else if ltb keep 2
    then take max s
    else take head s ++ (marker ++ drop (length s - tail) s)

abbrev pub suffix : Runes
suffix = codes "<|im_start|>assistant\n"

unfoldable pub render_turn : Runes → Runes → Runes
unfolding truncate_middle
render_turn role text =
    codes "<|im_start|>"
    ++ (role ++ (10 ∷ (truncate_middle text max_probe_turn_chars ++ codes "<|im_end|>\n")))

unfoldable pub system_head : Runes → Runes
unfolding all_space render_turn
system_head system = if all_space system then [] else render_turn (codes "system") system

abbrev pub budget : ℕ
unfolding byte_length rune_length
budget = max_probe_prompt_chars - byte_length suffix

abbrev pub is_empty : {A : Type 0} → List A → Bool
is_empty [] = true
is_empty (a ∷ s) = false

-- The turns are walked newest first, so the list that grows is in the order of the conversation.
unfoldable pub keep_turns : ℕ → List Runes → List Turn → List Runes × ℕ
unfolding byte_length
keep_turns used kept [] = (kept, used)
keep_turns used kept (t ∷ older) =
    let seg = render_turn t.role t.text in
    let on = keep_turns (used + byte_length seg) (seg ∷ kept) older in
    if ltb budget (used + byte_length seg) && not (is_empty kept) then (kept, used) else on

abbrev pub concat : List Runes → Runes
concat [] = []
concat (s ∷ ss) = s ++ concat ss

unfoldable pub render_probe_prompt : Runes → List Turn → Runes
unfolding keep_turns system_head byte_length
render_probe_prompt system turns =
    let (kept, used) = keep_turns 0 [] (reverse turns) in
    let head = system_head system in
    (if not (is_empty head) && leb (used + byte_length head) budget then head else [])
    ++ (concat kept ++ suffix)
