-- ===== src/Gateway/Admission.antt =====
-- Who gets past the checks in front of the relay (server/internal/middleware/relay_auth.go and quota.go,
-- `handle` of server/internal/relay/relay.go).
use hhrouter.Base.{
  ℕ, ◌≤◌, Bool, ◌≢◌, true_and_false, true, false, Option, none, some, [], ◌∷◌, ◌++◌, if◌then◌else◌,
  ◌≡◌, refl, ◌⊎◌, inl, inr, arith,
}
use hhrouter.Base.Int.{ℤ, pos, eqb_ℤ}
use hhrouter.Base.Text.{Bytes, bytes_eq, bytes_eq_refl}
use hhrouter.Model.{Channel}
use hhrouter.Quota.Service.{Result, ok, err, check_remaining}
use hhrouter.Router.Outcome.{RouteError}
use hhrouter.Router.Selection.{Selection}
use hhrouter.Stream.Events.{OutputFormat}
use hhrouter.Relay.Data.{denial, errored, Request, Relay}
use hhrouter.Relay.{Upstreams, model_allowed, serve_non_stream}
use hhrouter.Relay.Accounts.{Accounts, serve_non_stream-Accounts}
use hhrouter.Stream.Serve.{Connection, Decoders, serve_stream}
use hhrouter.Stream.Accounts.{serve_stream-Accounts}
use hhrouter.Gateway.{
  Token, User, TokenAnswer, token_found, token_missing, token_query_failed, Inbound, InboundFormat,
  HttpRequest, relay_key, token_disabled, token_expired, past, token_usable, out_format_for, deny,
  Doors, relay_request, dispatch, handle, handle_body, take_headroom, guard_quota, take_user,
  take_usable, take_token, take_key, enter,
}

-- One error reply, with a status of an error, and nothing logged.
abbrev pub Denied : {S : Type 0} → Relay S → Relay S → Type 0
Denied st st' =
    (n : ℕ) × (text : Bytes) × (400 ≤ n)
    × (n ≤ 500)
    × (st'.replies ≡ st.replies ++ (errored (pos n) (denial text) ∷ []))
    × (st'.log ≡ st.log)

passed :
    (a b c : Bool) (x y z : Bytes)
    → (if a then some x else if b then some y else if c then some z else none) ≡ none
    → (a ≡ false) × (b ≡ false) × (c ≡ false)
passed false false false x y z h = (refl, refl, refl)
passed true b c x y z h = cc
passed false true c x y z h = cc
passed false false true x y z h = cc

bytes_eq-ne : (s t : Bytes) → bytes_eq s t ≡ false → s ≢ t
bytes_eq-ne s t h e = true_and_false (rw e (bytes_eq_refl t)) h

-- A token that may be used
usable_token :
    (t : Token) (now : ℕ)
    → token_usable t.status t.expired_at now ≡ none
    → (t.status ≢ token_disabled) × (t.status ≢ token_expired) × (past t.expired_at now ≡ false)
unfolding token_usable
usable_token t now h =
    let (a, b, c) =
      passed (bytes_eq t.status token_disabled) (bytes_eq t.status token_expired)
        (past t.expired_at now) _ _ _ h in
    (bytes_eq-ne _ _ a, bytes_eq-ne _ _ b, c)

module _ {S : Type 0} (env : Upstreams S) (json : Decoders)
    (connect : Channel → Bytes → S → Connection × S) (doors : Doors S) (rq : HttpRequest) where
  -- A request that the relay served, with all that had to hold.
  pub record Admitted (st st' : Relay S) : Type 0 where
    pub key : Bytes
    pub token : Token
    pub owner : User
    pub body : Inbound
    pub headroom : ℤ
    pub key_given : relay_key rq.x_api_key rq.authorization ≡ some key
    pub key_known : doors.token_by_hash (doors.hash_key key) st.quota.store ≡ token_found token
    pub not_disabled : token.status ≢ token_disabled
    pub not_expired : token.status ≢ token_expired
    pub not_past : past token.expired_at rq.now ≡ false
    pub owner_known : doors.user_by_id token.user_id st.quota.store ≡ some owner
    pub owner_enabled : owner.enabled ≡ true
    pub checked : (check_remaining env.backend token.id owner.id (pos 0) st.quota).0 ≡ ok headroom
    pub some_left : eqb_ℤ headroom (pos 0) ≡ false
    pub decoded : rq.body ≡ some body
    pub allowed : model_allowed token.allowed_models body.model ≡ true
    pub accounts : Accounts st st'

  Answers : Relay S → Option (Relay S) → Type 0
  Answers st o = (st' : Relay S) × (o ≡ some st') × (Denied st st' ⊎ Admitted st st')

  denied :
      (n : ℕ) (text : Bytes) (st₀ st : Relay S)
      → 400 ≤ n
      → n ≤ 500
      → st.replies ≡ st₀.replies
      → st.log ≡ st₀.log
      → Answers st₀ (deny n text st)
  unfolding Answers
  denied n text st₀ st low high replies log =
      (_, refl, inl (n, text, low, high, rw replies refl, log))

  -- Both branches, each with its test.
  split :
      (P : Option (Relay S) → Type 0) (b : Bool) (x y : Option (Relay S))
      → (b ≡ true → P x)
      → (b ≡ false → P y)
      → P (if b then x else y)
  split P true x y f g = f refl
  split P false x y f g = g refl

  dispatch-Accounts :
      (endpoint : InboundFormat) (tok : Token) (user : User) (uni : Inbound) (st : Relay S)
      → (st' : Relay S) × (dispatch env json connect doors endpoint tok user uni st ≡ some st')
        × Accounts st st'
  unfolding dispatch
  dispatch-Accounts endpoint tok user uni st =
      let request : Request = relay_request env json connect doors tok user uni in
      let routed : RouteError ⊎ Selection = doors.route tok uni request.est_prompt st.quota.store in
      let format : OutputFormat = out_format_for endpoint tok.output_format in
      split (λ o. (st' : Relay S) × (o ≡ some st') × Accounts st st') uni.stream
        (serve_stream env json connect format request routed st)
        (serve_non_stream env request routed st)
        (λ e. serve_stream-Accounts env json connect format request routed st)
        (λ e. serve_non_stream-Accounts env request routed st)

  -- What was found on the way to the quota guard.
  record Known (st : Relay S) : Type 0 where
    key : Bytes
    token : Token
    owner : User
    key_given : relay_key rq.x_api_key rq.authorization ≡ some key
    key_known : doors.token_by_hash (doors.hash_key key) st.quota.store ≡ token_found token
    usable : token_usable token.status token.expired_at rq.now ≡ none
    owner_known : doors.user_by_id token.user_id st.quota.store ≡ some owner
    owner_enabled : owner.enabled ≡ true

  module _ (st : Relay S) where
    module _ (k : Known st) (left : ℤ)
        (checked : (check_remaining env.backend k.token.id k.owner.id (pos 0) st.quota).0 ≡ ok left)
        (some_left : eqb_ℤ left (pos 0) ≡ false) where
      -- The quota service may have loaded counters.
      guarded : Relay S
      guarded = record st {
        quota = (check_remaining env.backend k.token.id k.owner.id (pos 0) st.quota).1;
      }

      handle-Answers :
          (uni : Inbound)
          → rq.body ≡ some uni
          → Answers st (handle env json connect doors rq.endpoint k.token k.owner uni guarded)
      unfolding handle Answers guarded
      handle-Answers uni decoded =
          split (Answers st) (model_allowed k.token.allowed_models uni.model) _ _
            (λ allowed.
              (let (st', e, accounts) = dispatch-Accounts rq.endpoint k.token k.owner uni guarded in
                (
                  st',
                  e,
                  inr (record {
                    key = k.key;
                    token = k.token;
                    owner = k.owner;
                    body = uni;
                    headroom = left;
                    key_given = k.key_given;
                    key_known = k.key_known;
                    not_disabled = (usable_token k.token rq.now k.usable).0;
                    not_expired = (usable_token k.token rq.now k.usable).1;
                    not_past = (usable_token k.token rq.now k.usable).2;
                    owner_known = k.owner_known;
                    owner_enabled = k.owner_enabled;
                    checked = checked;
                    some_left = some_left;
                    decoded = decoded;
                    allowed = allowed;
                    accounts = accounts;
                  }),
                )))
            (λ e. denied 403 _ st guarded (omega arith) (omega arith) refl refl)

      handle_body-Answers :
          (body : Option Inbound)
          → rq.body ≡ body
          → Answers st (handle_body env json connect doors rq.endpoint body k.token k.owner guarded)
      unfolding handle_body guarded
      handle_body-Answers none e = denied 400 _ st guarded (omega arith) (omega arith) refl refl
      handle_body-Answers (some uni) e =
          split (Answers st) (bytes_eq uni.model []) _ _
            (λ nameless. denied 400 _ st guarded (omega arith) (omega arith) refl refl)
            (λ named. handle-Answers uni e)

    take_headroom-Answers :
        (k : Known st) (left : Result ℤ)
        → (check_remaining env.backend k.token.id k.owner.id (pos 0) st.quota).0 ≡ left
        → Answers st (
            take_headroom env json connect doors rq k.token k.owner left (record st {
              quota = (check_remaining env.backend k.token.id k.owner.id (pos 0) st.quota).1;
            }))
    unfolding take_headroom guarded
    take_headroom-Answers k (err e) h = denied 500 _ st _ (omega arith) (omega arith) refl refl
    take_headroom-Answers k (ok left) h =
        split (Answers st) (eqb_ℤ left (pos 0)) _ _
          (λ e. denied 402 _ st _ (omega arith) (omega arith) refl refl)
          (λ e. handle_body-Answers k left h e rq.body refl)

    take_user-Answers :
        (key : Bytes) (tok : Token) (user : Option User)
        → relay_key rq.x_api_key rq.authorization ≡ some key
        → doors.token_by_hash (doors.hash_key key) st.quota.store ≡ token_found tok
        → token_usable tok.status tok.expired_at rq.now ≡ none
        → doors.user_by_id tok.user_id st.quota.store ≡ user
        → Answers st (take_user env json connect doors rq tok user st)
    unfolding take_user guard_quota
    take_user-Answers key tok none hk ht hu ho =
        denied 401 _ st st (omega arith) (omega arith) refl refl
    take_user-Answers key tok (some user) hk ht hu ho =
        split (Answers st) user.enabled _ _
          (λ e.
            take_headroom-Answers
              (record {
                key = key;
                token = tok;
                owner = user;
                key_given = hk;
                key_known = ht;
                usable = hu;
                owner_known = ho;
                owner_enabled = e;
              })
              (check_remaining env.backend tok.id user.id (pos 0) st.quota).0 refl)
          (λ e. denied 401 _ st st (omega arith) (omega arith) refl refl)

    take_usable-Answers :
        (key : Bytes) (tok : Token) (reason : Option Bytes)
        → relay_key rq.x_api_key rq.authorization ≡ some key
        → doors.token_by_hash (doors.hash_key key) st.quota.store ≡ token_found tok
        → token_usable tok.status tok.expired_at rq.now ≡ reason
        → Answers st (take_usable env json connect doors rq tok reason st)
    take_usable-Answers key tok (some reason) hk ht hu =
        denied 401 reason st st (omega arith) (omega arith) refl refl
    take_usable-Answers key tok none hk ht hu =
        take_user-Answers key tok (doors.user_by_id tok.user_id st.quota.store) hk ht hu refl

    take_token-Answers :
        (key : Bytes) (answer : TokenAnswer)
        → relay_key rq.x_api_key rq.authorization ≡ some key
        → doors.token_by_hash (doors.hash_key key) st.quota.store ≡ answer
        → Answers st (take_token env json connect doors rq answer st)
    unfolding take_token
    take_token-Answers key token_missing hk ht =
        denied 401 _ st st (omega arith) (omega arith) refl refl
    take_token-Answers key (token_query_failed e) hk ht =
        denied 500 _ st st (omega arith) (omega arith) refl refl
    take_token-Answers key (token_found tok) hk ht =
        take_usable-Answers key tok (token_usable tok.status tok.expired_at rq.now) hk ht refl

    take_key-Answers :
        (key : Option Bytes)
        → relay_key rq.x_api_key rq.authorization ≡ key
        → Answers st (take_key env json connect doors rq key st)
    take_key-Answers none hk = denied 401 _ st st (omega arith) (omega arith) refl refl
    take_key-Answers (some key) hk =
        take_token-Answers key (doors.token_by_hash (doors.hash_key key) st.quota.store) hk refl

  -- Every request is answered, in one of two ways. It is turned away with one error reply, a status
  -- from 400 to 500, and no row in the log. Or it is served, with one reply and one row that agree, and
  -- then it had a key, whose hash is that of a token; the token's status is neither disabled nor
  -- expired, and its expiry has not passed; the
  -- token's owner exists and is enabled; the headroom of the two quotas was read and is not 0; and the
  -- body was read and asks for a model that the token allows.
  pub enter-Answers :
      (st : Relay S)
      → (st' : Relay S) × (enter env json connect doors rq st ≡ some st')
        × (Denied st st' ⊎ Admitted st st')
  unfolding enter Answers
  enter-Answers st = take_key-Answers st (relay_key rq.x_api_key rq.authorization) refl
