-- ===== src/Quota/Examples.antt =====
-- A store with one token and its user, for the theorems on server/internal/service/quota_service.go:
-- the token's counter is in Redis, the user's is not yet.
use hhrouter.Base.{◌∷◌, ◌≡◌, refl, Bool, true, ◌↔◌, none, some, [], ◌==◌, if◌then◌else◌, arith}
use hhrouter.Base.Int.{pos, negsuc}
use hhrouter.Base.Text.{codes, bytes_eq}
use hhrouter.Quota.Store.{Usage, token_used_key, user_used_key}
use hhrouter.Quota.Service.{ok, Service, has_remaining, remaining, consume, insert_id, write_back}
use hhrouter.Quota.Reliable.{View, view_backend, view_backend-IsReliable}
use hhrouter.Quota.Headroom.{fits, HasRoom, fits-remaining}
use hhrouter.Quota.Admission.{Runs, has_remaining-Admits}
use hhrouter.Quota.Flush.{Settles, write_back-Settles}
use hhrouter.Quota.Charge.{ChargedBoth, consume-ChargedBoth}

abbrev token : Usage
token = record { quota = pos 100; used = pos 5 }

abbrev owner : Usage
owner = record { quota = negsuc 0; used = pos 50 }

abbrev view : View
view = record {
  tokens = λ id. if id == 7 then some token else none;
  users = λ id. if id == 9 then some owner else none;
  counters = λ key. if bytes_eq (codes "quota:token:used:7") key then some (pos 60) else none;
}

abbrev service : Service View
service = record { store = view; dirty_tokens = []; dirty_users = [] }

has_remaining-Admits_example :
    (answer : Bool) × (v : View) × (Runs view_backend
      (λ x. x)
      view_backend-IsReliable
      (has_remaining view_backend 7 9 (pos 30) service)
      answer
      service
      v)
    × ((answer ≡ true)
        ↔ (HasRoom (pos 100) (pos 60) (pos 30) × HasRoom (negsuc 0) (pos 50) (pos 30)))
    × (v.tokens ≡ view.tokens)
    × (v.users ≡ view.users)
unfolding bytes_eq token_used_key user_used_key
has_remaining-Admits_example =
    has_remaining-Admits view_backend (λ x. x) view_backend-IsReliable 7 9 (pos 30) service token
      owner 60 50 refl refl (omega arith, omega arith) (omega arith, omega arith) (omega arith)
      (omega arith) refl refl

fits-remaining_example :
    (fits (remaining (pos 100) (pos 60)) (pos 30) ≡ true) ↔ HasRoom (pos 100) (pos 60) (pos 30)
fits-remaining_example =
    fits-remaining (pos 100) 60 (pos 30) (omega arith, omega arith) (omega arith)

consume-ChargedBoth_example :
    (x : View) × (consume view_backend 7 9 (pos 30) service
      ≡ (ok tt, record { store = x; dirty_tokens = 7 ∷ []; dirty_users = 9 ∷ [] }))
    × ChargedBoth view x (token_used_key 7) (pos 5) (user_used_key 9) (pos 50) (pos 30)
unfolding bytes_eq token_used_key user_used_key insert_id
consume-ChargedBoth_example =
    consume-ChargedBoth view_backend (λ x. x) view_backend-IsReliable 7 9 30 service token owner
      refl refl (omega arith) (omega arith, omega arith) (omega arith, omega arith)

abbrev marked : Service View
marked = record service { dirty_tokens = 7 ∷ 8 ∷ []; dirty_users = 9 ∷ [] }

write_back-Settles_example :
    (x : View) × (write_back view_backend marked
      ≡ (none, record { store = x; dirty_tokens = []; dirty_users = [] }))
    × (x.counters ≡ view.counters)
    × Settles (λ id. view.counters (token_used_key id)) (7 ∷ 8 ∷ []) view.tokens x.tokens
    × Settles (λ id. view.counters (user_used_key id)) (9 ∷ []) view.users x.users
write_back-Settles_example = write_back-Settles view_backend (λ x. x) view_backend-IsReliable marked
