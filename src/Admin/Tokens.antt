-- ===== src/Admin/Tokens.antt =====
-- The keys of the relay's clients (server/internal/service/token_service.go): what TokenService stores
-- and who may change it. The database and SHA-256 are parameters, as is encoding/json.
pub mod Owned
pub mod Issued
pub mod Slot
mod Examples
use hhrouter.Base.{
  ℕ, ◌+◌, ◌-◌, ◌/◌, ◌%◌, Bool, true, false, Option, none, some, List, [], ◌∷◌, ◌++◌, ◌⊎◌, inl, inr,
  ◌==◌, if◌then◌else◌, ltb, length, drop,
}
use hhrouter.Base.Int.{ℤ, pos, negsuc}
use hhrouter.Base.Text.{Bytes, codes, trim_space, is_blank}
use hhrouter.Admin.{given, given_trimmed, or_default}

-- A row of the table tokens; NULL is `none`, and a NULL JSON column is the empty text. A time is in
-- nanoseconds, and 0 is Go's zero time.
pub record TokenRow : Type 0 where
  pub id : ℕ
  pub user_id : ℕ
  pub name : Bytes
  pub key : Option Bytes
  pub key_hash : Bytes
  pub status : Bytes
  pub quota : ℤ
  pub used_quota : ℤ
  pub expired_at : Option ℕ
  pub group : Bytes
  pub allowed_models : Bytes
  pub output_format : Option Bytes

pub data TokenError : Type 0 where
  token_not_found name_required name_empty : TokenError
  key_failed database_failed : Bytes → TokenError

-- A nil pointer is `none`.
pub record TokenInput : Type 0 where
  pub name : Option Bytes
  pub status : Option Bytes
  pub quota : Option ℤ
  pub expired_at : Option ℕ
  pub group : Option Bytes
  pub allowed_models : Option (List Bytes)
  pub output_format : Option Bytes

pub record TokenView : Type 0 where
  pub token : TokenRow
  pub key_masked : Bytes

pub record CreateTokenResult : Type 0 where
  pub view : TokenView
  pub plain_key : Bytes

pub data Found : Type 0 where
  found : TokenRow → Found
  no_record : Found
  query_failed : Bytes → Found

-- The statements of the service; `S` is the state of the database. `user_group` is the column of a row
-- of users, if it can be read. `create` answers the row with its new id, `delete` the number of rows.
pub record Database (S : Type 0) : Type 0 where
  pub first : ℕ → S → Found
  pub first_by_hash : Bytes → S → Found
  pub rows_of : ℕ → S → Bytes ⊎ List TokenRow
  pub user_group : ℕ → S → Option Bytes
  pub create : TokenRow → S → (Bytes ⊎ TokenRow) × S
  pub save : TokenRow → S → Option Bytes × S
  pub delete : ℕ → ℕ → S → (Bytes ⊎ ℕ) × S

abbrev pub Answer : Type 0 → Type 0 → Type 0
Answer S A = (TokenError ⊎ A) × S

abbrev pub hex_digit : ℕ → ℕ
hex_digit n = if ltb n 10 then n + 48 else n + 87

-- hex.EncodeToString
unfoldable pub hex_encode : Bytes → Bytes
hex_encode [] = []
hex_encode (b ∷ s) = hex_digit (b / 16) ∷ hex_digit (b % 16) ∷ hex_encode s

abbrev pub token_key_prefix : Bytes
token_key_prefix = codes "sk-"

-- The key that the bytes of rand.Read make.
unfoldable pub generate_key : Bytes ⊎ Bytes → TokenError ⊎ Bytes
unfolding hex_encode
generate_key (inl e) = inl (key_failed e)
generate_key (inr buf) = inr (token_key_prefix ++ hex_encode buf)

unfoldable pub mask_from_hash : Bytes → Bytes
mask_from_hash [] = []
mask_from_hash (c ∷ s) =
    let h : Bytes = c ∷ s in
    token_key_prefix ++ (codes "****" ++ (if ltb 6 (length h) then drop (length h - 6) h else h))

unfoldable pub to_view : TokenRow → TokenView
unfolding mask_from_hash
to_view t = record { token = record t { key = none }; key_masked = mask_from_hash t.key_hash }

abbrev pub to_views : List TokenRow → List TokenView
to_views [] = []
to_views (t ∷ ts) = to_view t ∷ to_views ts

abbrev pub set_expiry : Option ℕ → Option ℕ → Option ℕ
set_expiry none old = old
set_expiry (some at) old = if at == 0 then none else some at

abbrev pub set_group : Option Bytes → Bytes → Bytes
set_group none old = old
set_group (some g) old = or_default (codes "default") (trim_space g)

abbrev pub to_json_array : Bytes ⊎ Bytes → Bytes
to_json_array (inl e) = codes "[]"
to_json_array (inr b) = b

abbrev pub set_models : (List Bytes → Bytes ⊎ Bytes) → Option (List Bytes) → Bytes → Bytes
set_models marshal none old = old
set_models marshal (some items) old = to_json_array (marshal items)

abbrev pub set_format : Option Bytes → Option Bytes → Option Bytes
set_format none old = old
set_format (some f) old = if is_blank f then none else some (trim_space f)

-- The group of a new key: its own, else its owner's.
unfoldable pub resolve_group : Option Bytes → Bytes → Bytes
unfolding is_blank trim_space
resolve_group none inherited = or_default (codes "default") inherited
resolve_group (some g) inherited =
    if is_blank g then or_default (codes "default") inherited else trim_space g

abbrev pub group_text : Option Bytes → Bytes
group_text none = []
group_text (some g) = trim_space g

unfoldable pub owned : ℕ → Found → TokenError ⊎ TokenRow
owned user (found t) = if t.user_id == user then inr t else inl token_not_found
owned user no_record = inl token_not_found
owned user (query_failed e) = inl (database_failed e)

unfoldable pub by_hash : Found → TokenError ⊎ TokenRow
by_hash (found t) = inr t
by_hash no_record = inl token_not_found
by_hash (query_failed e) = inl (database_failed e)

abbrev pub affected : Bytes ⊎ ℕ → TokenError ⊎ Unit {0}
affected (inl e) = inl (database_failed e)
affected (inr n) = if n == 0 then inl token_not_found else inr tt

abbrev pub empty_name : Option Bytes → Bool
empty_name none = false
empty_name (some name) = is_blank name

abbrev pub view_of : TokenError ⊎ TokenRow → TokenError ⊎ TokenView
view_of (inl e) = inl e
view_of (inr t) = inr (to_view t)

abbrev pub listed : Bytes ⊎ List TokenRow → TokenError ⊎ List TokenView
listed (inl e) = inl (database_failed e)
listed (inr ts) = inr (to_views ts)

module _ {S : Type 0} (db : Database S) (sha256 : Bytes → Bytes)
    (marshal : List Bytes → Bytes ⊎ Bytes) where
  unfoldable pub hash_key : Bytes → Bytes
  unfolding hex_encode
  hash_key plain = hex_encode (sha256 plain)

  unfoldable pub apply_input : TokenRow → TokenInput → TokenRow
  unfolding is_blank trim_space
  apply_input t input = record t {
    name = given_trimmed input.name t.name;
    status = given input.status t.status;
    quota = given input.quota t.quota;
    expired_at = set_expiry input.expired_at t.expired_at;
    group = set_group input.group t.group;
    allowed_models = set_models marshal input.allowed_models t.allowed_models;
    output_format = set_format input.output_format t.output_format;
  }

  unfoldable pub new_row : ℕ → Bytes → Bytes → Bytes → TokenInput → TokenRow
  unfolding apply_input hash_key trim_space
  new_row user name plain inherited input =
      let t =
        apply_input
          (record {
            id = 0;
            user_id = user;
            name = trim_space name;
            key = none;
            key_hash = hash_key plain;
            status = codes "enabled";
            quota = negsuc 0;
            used_quota = pos 0;
            expired_at = none;
            group = [];
            allowed_models = [];
            output_format = none;
          })
          input in
      record t {
        group = resolve_group input.group inherited;
        allowed_models = or_default (codes "[]") t.allowed_models;
      }

  unfoldable pub created : Bytes → (Bytes ⊎ TokenRow) × S → Answer S CreateTokenResult
  unfolding to_view
  created plain (inl e, s) = (inl (database_failed e), s)
  created plain (inr t, s) = (inr (record { view = to_view t; plain_key = plain }), s)

  unfoldable pub create_keyed :
      ℕ → Bytes → TokenInput → TokenError ⊎ Bytes → S → Answer S CreateTokenResult
  unfolding created new_row
  create_keyed user name input (inl e) s = (inl e, s)
  create_keyed user name input (inr plain) s =
      let inherited = group_text (db.user_group user s) in
      created plain (db.create (new_row user name plain inherited input) s)

  unfoldable pub create_named :
      ℕ → TokenInput → Bytes ⊎ Bytes → Option Bytes → S → Answer S CreateTokenResult
  unfolding create_keyed generate_key is_blank
  create_named user input drawn none s = (inl name_required, s)
  create_named user input drawn (some name) s =
      if is_blank name
      then (inl name_required, s)
      else create_keyed user name input (generate_key drawn) s

  -- `drawn` is what rand.Read gives.
  unfoldable pub create_token : ℕ → TokenInput → Bytes ⊎ Bytes → S → Answer S CreateTokenResult
  unfolding create_named
  create_token user input drawn s = create_named user input drawn input.name s

  unfoldable pub get_owned : ℕ → ℕ → S → TokenError ⊎ TokenRow
  unfolding owned
  get_owned user id s = owned user (db.first id s)

  unfoldable pub saved : TokenRow → Option Bytes × S → Answer S TokenView
  unfolding to_view
  saved t (none, s) = (inr (to_view t), s)
  saved t (some e, s) = (inl (database_failed e), s)

  unfoldable pub update_owned : TokenInput → TokenError ⊎ TokenRow → S → Answer S TokenView
  unfolding saved apply_input is_blank
  update_owned input (inl e) s = (inl e, s)
  update_owned input (inr t) s =
      if empty_name input.name
      then (inl name_empty, s)
      else saved (apply_input t input) (db.save (apply_input t input) s)

  unfoldable pub update_token : ℕ → ℕ → TokenInput → S → Answer S TokenView
  unfolding update_owned get_owned
  update_token user id input s = update_owned input (get_owned user id s) s

  unfoldable pub delete_token : ℕ → ℕ → S → Answer S (Unit {0})
  delete_token user id s = let (n, after) = db.delete id user s in (affected n, after)

  unfoldable pub get_token : ℕ → ℕ → S → TokenError ⊎ TokenView
  unfolding get_owned to_view
  get_token user id s = view_of (get_owned user id s)

  unfoldable pub list_tokens : ℕ → S → TokenError ⊎ List TokenView
  unfolding to_view
  list_tokens user s = listed (db.rows_of user s)

  unfoldable pub get_by_key_hash : Bytes → S → TokenError ⊎ TokenRow
  unfolding by_hash
  get_by_key_hash hash s = by_hash (db.first_by_hash hash s)

-- A request of the user that its first number names.
pub data TokenRequest : Type 0 where
  to_create : ℕ → TokenInput → Bytes ⊎ Bytes → TokenRequest
  to_update : ℕ → ℕ → TokenInput → TokenRequest
  to_delete : ℕ → ℕ → TokenRequest

abbrev pub requester : TokenRequest → ℕ
requester (to_create user input drawn) = user
requester (to_update user id input) = user
requester (to_delete user id) = user

module _ {S : Type 0} (db : Database S) (sha256 : Bytes → Bytes)
    (marshal : List Bytes → Bytes ⊎ Bytes) where
  unfoldable pub perform : TokenRequest → S → S
  unfolding create_token update_token delete_token
  perform (to_create user input drawn) s = (create_token db sha256 marshal user input drawn s).1
  perform (to_update user id input) s = (update_token db sha256 marshal user id input s).1
  perform (to_delete user id) s = (delete_token db sha256 marshal user id s).1

  unfoldable pub perform_all : List TokenRequest → S → S
  unfolding perform
  perform_all [] s = s
  perform_all (r ∷ rs) s = perform_all rs (perform r s)
