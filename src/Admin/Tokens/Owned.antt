-- ===== src/Admin/Tokens/Owned.antt =====
-- Ownership in server/internal/service/token_service.go: who may change a row of the table tokens. What
-- GORM's First, Create, Save and Delete do to the other rows is a parameter, `IsTable`.
use hhrouter.Base.{
  ℕ, Bool-cases, false, Option, none, some, List, [], ◌∷◌, ◌⊎◌, inl, inr, ◌≡◌, refl, ◌≢◌, ◌==◌,
  ==_iff, sym, ◌∙◌, ap,
}
use hhrouter.Base.Text.{Bytes, is_blank}
use hhrouter.Admin.Tokens.{
  TokenRow, TokenError, TokenInput, Found, found, no_record, query_failed, Database, generate_key,
  owned, apply_input, new_row, created, create_keyed, create_named, create_token, get_owned, saved,
  empty_name, update_owned, update_token, delete_token, TokenRequest, to_create, to_update,
  to_delete, requester, perform, perform_all,
}

-- A statement leaves the other rows alone: a query by id finds the row of that id, and a row that is
-- found stays when another is inserted or saved, and when a deletion names another owner.
pub record IsTable {S : Type 0} (db : Database S) : Type 0 where
  pub first_law : (i : ℕ) (s : S) (r : TokenRow) → db.first i s ≡ found r → r.id ≡ i
  pub create_keeps :
      (t : TokenRow) (i : ℕ) (s : S) (r : TokenRow)
      → db.first i s ≡ found r
      → db.first i (db.create t s).1 ≡ found r
  pub save_keeps :
      (t : TokenRow) (i : ℕ) (s : S) (r : TokenRow)
      → i ≢ t.id
      → db.first i s ≡ found r
      → db.first i (db.save t s).1 ≡ found r
  pub delete_keeps :
      (j user i : ℕ) (s : S) (r : TokenRow)
      → user ≢ r.user_id
      → db.first i s ≡ found r
      → db.first i (db.delete j user s).1 ≡ found r

pub found_injective : {t r : TokenRow} → found t ≡ found r → t ≡ r
found_injective {t} h = ap (λ (f : Found). row_or t f) h
  where
    row_or : TokenRow → Found → TokenRow
    row_or d (found r) = r
    row_or d no_record = d
    row_or d (query_failed e) = d

abbrev pub AllOthers : ℕ → List TokenRequest → Type 0
AllOthers user [] = Unit {0}
AllOthers user (q ∷ qs) = (requester q ≢ user) × AllOthers user qs

module _ {S : Type 0} (db : Database S) (sha256 : Bytes → Bytes)
    (marshal : List Bytes → Bytes ⊎ Bytes) where
  pub saved-state : (t : TokenRow) (w : Option Bytes × S) → (saved db sha256 marshal t w).1 ≡ w.1
  unfolding saved
  saved-state t (none, s) = refl
  saved-state t (some e, s) = refl

  pub created-state :
      (plain : Bytes) (w : (Bytes ⊎ TokenRow) × S) → (created db sha256 marshal plain w).1 ≡ w.1
  unfolding created
  created-state plain (inl e, s) = refl
  created-state plain (inr t, s) = refl

  -- A property of the state that every statement of a request keeps is kept by the request.
  module _ (P : S → Type 0) where
    create_keyed-Keeps :
        (user : ℕ) (name : Bytes) (input : TokenInput) (key : TokenError ⊎ Bytes) (s : S)
        → P s
        → ((plain inherited : Bytes)
            → P (db.create (new_row db sha256 marshal user name plain inherited input) s).1)
        → P (create_keyed db sha256 marshal user name input key s).1
    unfolding create_keyed
    create_keyed-Keeps user name input (inl e) s h k = h
    create_keyed-Keeps user name input (inr plain) s h k = rw (created-state plain _) (k plain _)

    pub create_named-Keeps :
        (user : ℕ) (input : TokenInput) (drawn : Bytes ⊎ Bytes) (o : Option Bytes) (s : S)
        → P s
        → ((name plain inherited : Bytes)
            → o ≡ some name
            → is_blank name ≡ false
            → P (db.create (new_row db sha256 marshal user name plain inherited input) s).1)
        → P (create_named db sha256 marshal user input drawn o s).1
    unfolding create_named
    create_named-Keeps user input drawn none s h k = h
    create_named-Keeps user input drawn (some name) s h k = elim (Bool-cases (is_blank name)) [
      | inl e ↦ rw e h
      | inr e ↦ rw e (
          create_keyed-Keeps user name input (generate_key drawn) s h
            λ plain inherited. k name plain inherited refl e)
    ]

    pub update_owned-Keeps :
        (user : ℕ) (input : TokenInput) (f : Found) (s : S)
        → P s
        → ((t : TokenRow)
            → f ≡ found t
            → user ≡ t.user_id
            → empty_name input.name ≡ false
            → P (db.save (apply_input db sha256 marshal t input) s).1)
        → P (update_owned db sha256 marshal input (owned user f) s).1
    unfolding update_owned owned
    update_owned-Keeps user input no_record s h k = h
    update_owned-Keeps user input (query_failed e) s h k = h
    update_owned-Keeps user input (found t) s h k = elim (Bool-cases (t.user_id == user)) [
      | inr e ↦ rw e h
      | inl e ↦ elim (Bool-cases (empty_name input.name)) [
        | inl b ↦ rw e (rw b h)
        | inr b ↦ rw e (
            rw b (
              rw (saved-state (apply_input db sha256 marshal t input) _)
                (k t refl (sym ((==_iff t.user_id user).0 e)) b)))
      ]
    ]

  -- The row of another user is the same after a request.
  perform_other :
      (i : ℕ) (r : TokenRow) (s : S) (q : TokenRequest)
      → IsTable db
      → requester q ≢ r.user_id
      → db.first i s ≡ found r
      → db.first i (perform db sha256 marshal q s) ≡ found r
  unfolding perform create_token update_token get_owned delete_token apply_input
  perform_other i r s (to_create user input drawn) laws other h =
      create_named-Keeps (λ (z : S). db.first i z ≡ found r) user input drawn input.name s h
        λ name plain inherited same named. laws.create_keeps _ i s r h
  perform_other i r s (to_update user id input) laws other h =
      update_owned-Keeps (λ (z : S). db.first i z ≡ found r) user input (db.first id s) s h
        λ t at mine named.
          laws.save_keeps _ i s r
            (λ same. other (
              mine
              ∙ ap (λ (x : TokenRow). x.user_id)
                  (found_injective (
                    sym at
                    ∙ ap (λ (j : ℕ). db.first j s) (sym (same ∙ laws.first_law id s t at))
                    ∙ h))))
            h
  perform_other i r s (to_delete user id) laws other h = laws.delete_keeps id user i s r other h

  -- Whatever requests other users make, in whatever order and with whatever errors, a row of a user
  -- is found as it was, on a table whose statements leave alone the rows that they do not name.
  pub perform_all_other :
      (i : ℕ) (r : TokenRow) (s : S) (qs : List TokenRequest)
      → IsTable db
      → AllOthers r.user_id qs
      → db.first i s ≡ found r
      → db.first i (perform_all db sha256 marshal qs s) ≡ found r
  unfolding perform_all
  perform_all_other i r s [] laws others h = h
  perform_all_other i r s (q ∷ qs) laws (other, others) h =
      perform_all_other i r (perform db sha256 marshal q s) qs laws others
        (perform_other i r s q laws other h)
