-- ===== src/Admin/Tokens/Issued.antt =====
-- The rows that server/internal/service/token_service.go writes, and the key that Create hands out.
use hhrouter.Base.{
  ℕ, Bool-cases, Bool, true, false, Option, none, some, List, [], ◌∷◌, ◌⊎◌, inl, inr, ◌≡◌, refl,
  ◌++◌, ◌∙◌, ap, true_and_false,
}
use hhrouter.Base.Text.{Bytes, codes, bytes_eq, trim_space, is_blank}
use hhrouter.Admin.{given_trimmed, or_default}
use hhrouter.Admin.Tokens.{
  mask_from_hash, token_key_prefix, hex_encode, group_text, TokenRow, TokenInput, CreateTokenResult,
  found, Database, Answer, set_group, resolve_group, empty_name, apply_input, new_row, create_token,
  get_owned, update_token, delete_token, TokenRequest, to_create, to_update, to_delete, perform,
  perform_all, hash_key, get_by_key_hash,
}
use hhrouter.Admin.Tokens.Owned.{create_named-Keeps, update_owned-Keeps}

abbrev pub is_given : Bytes → Bool
is_given [] = false
is_given (c ∷ s) = true

-- What a statement keeps of the row that it is given. The owner and the hash have no default, a name
-- and a group that are given are written as they are, and a plaintext key that is nil is NULL. Nothing
-- is said of the columns that GORM may fill with a default or that PostgreSQL may normalise.
pub record Kept (t r : TokenRow) : Type 0 where
  pub owner_kept : r.user_id ≡ t.user_id
  pub hash_kept : r.key_hash ≡ t.key_hash
  pub name_kept : is_given t.name ≡ true → r.name ≡ t.name
  pub group_kept : is_given t.group ≡ true → r.group ≡ t.group
  pub key_kept : t.key ≡ none → r.key ≡ none

-- What is found after a write was there before, or was written.
pub record IsWritten {S : Type 0} (db : Database S) : Type 0 where
  pub create_writes :
      (t : TokenRow) (i : ℕ) (s : S) (r : TokenRow)
      → db.first i (db.create t s).1 ≡ found r
      → (db.first i s ≡ found r) ⊎ Kept t r
  pub save_writes :
      (t : TokenRow) (i : ℕ) (s : S) (r : TokenRow)
      → db.first i (db.save t s).1 ≡ found r
      → (db.first i s ≡ found r) ⊎ Kept t r
  pub delete_writes :
      (j user i : ℕ) (s : S) (r : TokenRow)
      → db.first i (db.delete j user s).1 ≡ found r
      → db.first i s ≡ found r

-- A row whose insertion succeeded is found by its hash, on which there is a unique index.
abbrev pub IsIndexed : {S : Type 0} → Database S → Type 0
IsIndexed {S} db =
    (t a : TokenRow) (s : S)
    → (db.create t s).0 ≡ inr a
    → Kept t a
      × (r : TokenRow) × (db.first_by_hash t.key_hash (db.create t s).1 ≡ found r)
      × Kept t r

-- A name and a group, and no plaintext key.
pub record IsSound (t : TokenRow) : Type 0 where
  pub has_name : is_given t.name ≡ true
  pub has_group : is_given t.group ≡ true
  pub key_hidden : t.key ≡ none

or_default-is_given : (s : Bytes) → is_given (or_default (codes "default") s) ≡ true
or_default-is_given [] = refl
or_default-is_given (c ∷ s) = refl

trimmed_given : (s : Bytes) → is_blank s ≡ false → is_given (trim_space s) ≡ true
unfolding is_blank
trimmed_given s h = other (trim_space s) h
  where
    other : (t : Bytes) → bytes_eq t [] ≡ false → is_given t ≡ true
    other [] h = absurd (true_and_false refl h)
    other (c ∷ t) h = refl

given_trimmed-is_given :
    (o : Option Bytes) (old : Bytes)
    → empty_name o ≡ false
    → is_given old ≡ true
    → is_given (given_trimmed o old) ≡ true
given_trimmed-is_given none old h g = g
given_trimmed-is_given (some s) old h g = trimmed_given s h

set_group-is_given :
    (o : Option Bytes) (old : Bytes) → is_given old ≡ true → is_given (set_group o old) ≡ true
set_group-is_given none old g = g
set_group-is_given (some s) old g = or_default-is_given (trim_space s)

resolve_group-is_given : (o : Option Bytes) (s : Bytes) → is_given (resolve_group o s) ≡ true
unfolding resolve_group
resolve_group-is_given none s = or_default-is_given s
resolve_group-is_given (some g) s = elim (Bool-cases (is_blank g)) [
  | inl e ↦ rw e (or_default-is_given s)
  | inr e ↦ rw e (trimmed_given g e)
]

Kept-IsSound : (t r : TokenRow) → Kept t r → IsSound t → IsSound r
Kept-IsSound t r k h = record {
  has_name = rw (k.name_kept h.has_name) h.has_name;
  has_group = rw (k.group_kept h.has_group) h.has_group;
  key_hidden = k.key_kept h.key_hidden;
}

module _ {S : Type 0} (db : Database S) (sha256 : Bytes → Bytes)
    (marshal : List Bytes → Bytes ⊎ Bytes) where
  apply_input-IsSound :
      (t : TokenRow) (input : TokenInput)
      → empty_name input.name ≡ false
      → IsSound t
      → IsSound (apply_input db sha256 marshal t input)
  unfolding apply_input
  apply_input-IsSound t input named h = record {
    has_name = given_trimmed-is_given input.name t.name named h.has_name;
    has_group = set_group-is_given input.group t.group h.has_group;
    key_hidden = h.key_hidden;
  }

  new_row-IsSound :
      (user : ℕ) (name plain inherited : Bytes) (input : TokenInput)
      → empty_name input.name ≡ false
      → is_blank name ≡ false
      → IsSound (new_row db sha256 marshal user name plain inherited input)
  unfolding new_row apply_input
  new_row-IsSound user name plain inherited input named h = record {
    has_name = given_trimmed-is_given input.name (trim_space name) named (trimmed_given name h);
    has_group = resolve_group-is_given input.group inherited;
    key_hidden = refl;
  }

  -- Every row that a query by id finds is sound.
  abbrev pub AllSound : S → Type 0
  AllSound s = (i : ℕ) (r : TokenRow) → db.first i s ≡ found r → IsSound r

  perform-AllSound :
      (q : TokenRequest) (s : S)
      → IsWritten db
      → AllSound s
      → AllSound (perform db sha256 marshal q s)
  unfolding perform create_token update_token get_owned delete_token
  perform-AllSound (to_create user input drawn) s laws h =
      create_named-Keeps db sha256 marshal AllSound user input drawn input.name s h
        λ name plain inherited same named i r at.
          let t = new_row db sha256 marshal user name plain inherited input in
          elim (laws.create_writes t i s r at) [
            | inl old ↦ h i r old
            | inr kept ↦ Kept-IsSound t r kept (
                new_row-IsSound user name plain inherited input
                  (ap (λ (o : Option Bytes). empty_name o) same ∙ named) named)
          ]
  perform-AllSound (to_update user id input) s laws h =
      update_owned-Keeps db sha256 marshal AllSound user input (db.first id s) s h
        λ t at mine named i r after.
          elim (laws.save_writes (apply_input db sha256 marshal t input) i s r after) [
            | inl old ↦ h i r old
            | inr kept ↦
                Kept-IsSound (apply_input db sha256 marshal t input) r kept
                  (apply_input-IsSound t input named (h id t at))
          ]
  perform-AllSound (to_delete user id) s laws h =
      λ i r at. h i r (laws.delete_writes id user i s r at)

  -- Where every row of the table has a name, a group and no plaintext key, that is so after any
  -- requests to create, update or delete tokens, those that fail included, on a table whose
  -- statements keep these columns, where they are given, of the row that they write.
  pub perform_all-AllSound :
      (qs : List TokenRequest) (s : S)
      → IsWritten db
      → AllSound s
      → AllSound (perform_all db sha256 marshal qs s)
  unfolding perform_all
  perform_all-AllSound [] s laws h = h
  perform_all-AllSound (q ∷ qs) s laws h =
      perform_all-AllSound qs (perform db sha256 marshal q s) laws (perform-AllSound q s laws h)

  abbrev pub key_of : Bytes → Bytes
  key_of buf = token_key_prefix ++ hex_encode buf

  -- The row that Create hands to the database
  abbrev pub inserted : ℕ → TokenInput → Bytes → Bytes → S → TokenRow
  inserted user input name buf s =
      new_row db sha256 marshal user name (key_of buf) (group_text (db.user_group user s)) input

  -- The answer shows the key and no more of it than the mask; the hash of the key is that of a row of
  -- the user, with the name and the group that were resolved.
  abbrev pub Issues : ℕ → TokenInput → Bytes → Bytes → S → Answer S CreateTokenResult → Type 0
  Issues user input name buf s answer =
      (made : CreateTokenResult) × (answer.0 ≡ inr made)
      × (made.plain_key ≡ key_of buf)
      × (made.view.token.key ≡ none)
      × (made.view.key_masked ≡ mask_from_hash (hash_key db sha256 marshal made.plain_key))
      × (r : TokenRow) × (get_by_key_hash db sha256 marshal
            (hash_key db sha256 marshal made.plain_key) answer.1
          ≡ inr r)
      × (r.user_id ≡ user)
      × (r.name ≡ trim_space name)
      × (r.group ≡ resolve_group input.group (group_text (db.user_group user s)))
