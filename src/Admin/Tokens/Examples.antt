-- ===== src/Admin/Tokens/Examples.antt =====
-- Requests on the one-row table.
use hhrouter.Base.{ℕ, none, some, List, [], ◌∷◌, ◌⊎◌, inr, ◌≡◌, refl, arith}
use hhrouter.Base.Int.{pos}
use hhrouter.Base.Text.{Bytes, codes}
use hhrouter.Admin.Tokens.{
  resolve_group, TokenRow, TokenInput, found, TokenRequest, to_create, to_update, to_delete,
  perform_all,
}
use hhrouter.Admin.Tokens.Owned.{perform_all_other}
use hhrouter.Admin.Tokens.Issued.{IsSound, AllSound, inserted, perform_all-AllSound}
use hhrouter.Admin.Tokens.Slot.{
  slot, slot_first, missing_not_found, first_row, slot-IsTable, slot-IsWritten,
}

abbrev sum : Bytes → Bytes
sum s = 171 ∷ 205 ∷ []

abbrev marshal : List Bytes → Bytes ⊎ Bytes
marshal items = inr (codes "[]")

abbrev input : TokenInput
input = record {
  name = some (codes "ci");
  status = none;
  quota = some (pos 500);
  expired_at = none;
  group = none;
  allowed_models = none;
  output_format = some (codes " ");
}

abbrev old_row : TokenRow
old_row = record {
  id = 1;
  user_id = 7;
  name = codes "laptop";
  key = none;
  key_hash = codes "abcd";
  status = codes "enabled";
  quota = pos 10;
  used_quota = pos 3;
  expired_at = none;
  group = codes "team";
  allowed_models = codes "[]";
  output_format = none;
}

-- User 8 tries to rename and to delete the token of user 7.
abbrev attempts : List TokenRequest
attempts = to_update 8 1 input ∷ to_delete 8 1 ∷ to_create 8 input (inr (255 ∷ [])) ∷ []

eight_ne_seven : ¬ (◌≡◌ {A = ℕ} 8 7)
eight_ne_seven h = omega arith

perform_all_other_example :
    slot_first 1 (perform_all slot sum marshal attempts (some old_row)) ≡ found old_row
perform_all_other_example =
    perform_all_other slot sum marshal 1 old_row (some old_row) attempts slot-IsTable
      (eight_ne_seven, (eight_ne_seven, (eight_ne_seven, tt))) refl

abbrev edits : List TokenRequest
edits = to_create 7 input (inr (255 ∷ [])) ∷ to_update 7 1 input ∷ to_delete 7 2 ∷ []

empty-AllSound : AllSound slot sum marshal none
empty-AllSound i r h = absurd (missing_not_found h)

abbrev edited_row : TokenRow
edited_row = record {
  id = 1;
  user_id = 7;
  name = codes "ci";
  key = none;
  key_hash = codes "abcd";
  status = codes "enabled";
  quota = pos 500;
  used_quota = pos 0;
  expired_at = none;
  group = codes "team";
  allowed_models = codes "[]";
  output_format = none;
}

after_edits : slot_first 1 (perform_all slot sum marshal edits none) ≡ found edited_row
unfolding perform_all resolve_group
after_edits = refl

perform_all-AllSound_example : IsSound edited_row
perform_all-AllSound_example =
    perform_all-AllSound slot sum marshal edits none slot-IsWritten empty-AllSound 1 edited_row
      after_edits

abbrev made_row : TokenRow
made_row = first_row (inserted slot sum marshal 7 input (codes "ci") (255 ∷ []) none)
