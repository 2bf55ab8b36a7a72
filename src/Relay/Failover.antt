-- ===== src/Relay/Failover.antt =====
-- The order in which the loop of `serveNonStream` (server/internal/relay/relay.go) tries channels.
use hhrouter.Base.{
  ℕ, zero, suc, ◌+◌, ◌-◌, ◌<◌, Option, none, some, List, [], ◌∷◌, ◌≡◌, refl, inl, inr, arith,
  length, Bool-cases,
}
use hhrouter.Model.{Channel}
use hhrouter.Router.Selection.{Selection, serving_model}
use hhrouter.Router.Selection.Failover.{
  remaining, exhausted, next-exhausted, next_hands_out, not_exhausted,
}
use hhrouter.Relay.Data.{LastError, Request, Attempt, Relay}
use hhrouter.Relay.{
  Upstreams, Turn, ended, again, fail_all_candidates, try_candidate, after_turn, turn, serve_loop,
  serve, serve_non_stream, Exchanged, exchange_once,
}

module _ {S : Type 0} (env : Upstreams S) (rq : Request) (exchanged : Exchanged env rq) where
  -- The channels are tried one by one. The first at which the request ends decides; each before it
  -- left an error and passed the request on; behind the last one, all have failed.
  pub data Serves (sel : Selection)
      : List Channel → Option LastError → Option Attempt → Relay S → Relay S → Type 0 where
    all_failed :
        {e : Option LastError} {att : Option Attempt} {st : Relay S}
        → Serves sel [] e att st (fail_all_candidates env rq e att sel.rule st)
    ended_here :
        {ch : Channel} {chs : List Channel} {e : Option LastError} {att : Option Attempt}
        {st st' : Relay S}
        → try_candidate env rq exchanged sel ch att st ≡ ended st'
        → Serves sel (ch ∷ chs) e att st st'
    passed_on :
        {ch : Channel} {chs : List Channel} {e : Option LastError} {att att' : Option Attempt}
        {st st₁ st' : Relay S} {e' : LastError}
        → try_candidate env rq exchanged sel ch att st ≡ again e' att' st₁
        → Serves sel chs (some e') att' st₁ st'
        → Serves sel (ch ∷ chs) e att st st'

  -- The place in the list makes no difference to a turn.
  moved :
      (sel : Selection) (n : ℕ) (chs : List Channel) (e : Option LastError) (att : Option Attempt)
      (st st' : Relay S)
      → Serves (record sel { cursor = n }) chs e att st st'
      → Serves sel chs e att st st'
  unfolding try_candidate serving_model
  moved sel n [] e att st st' all_failed = all_failed
  moved sel n (ch ∷ chs) e att st st' (ended_here eq) = ended_here eq
  moved sel n (ch ∷ chs) e att st st' (passed_on {st₁ = st₁} eq s) =
      passed_on eq (moved sel n chs _ _ st₁ st' s)

  Walks :
      Selection
      → List Channel
      → Option LastError
      → Option Attempt
      → Relay S
      → Option (Relay S)
      → Type 0
  Walks sel chs e att st o = (st' : Relay S) × (o ≡ some st') × Serves sel chs e att st st'

  after_turn-Walks :
      (sel : Selection) (ch : Channel) (chs : List Channel) (e : Option LastError)
      (att : Option Attempt) (st : Relay S)
      (rest : Option LastError → Option Attempt → Relay S → Option (Relay S)) (t : Turn S)
      → try_candidate env rq exchanged sel ch att st ≡ t
      → ((e' : Option LastError) (att' : Option Attempt) (st₁ : Relay S)
          → Walks sel chs e' att' st₁ (rest e' att' st₁))
      → Walks sel (ch ∷ chs) e att st (after_turn env rq t rest)
  unfolding after_turn Walks
  after_turn-Walks sel ch chs e att st rest (ended st') eq more = (st', refl, ended_here eq)
  after_turn-Walks sel ch chs e att st rest (again e' att' st₁) eq more =
      let (st', done, s) = more (some e') att' st₁ in (st', done, passed_on eq s)

  serve_loop-Walks :
      (f : ℕ) (sel : Selection)
      → length sel.candidates - sel.cursor < f
      → (e : Option LastError) (att : Option Attempt) (st : Relay S)
      → Walks sel (remaining sel) e att st (serve_loop env rq exchanged f sel e att st)
  unfolding serve_loop turn Walks try_candidate serving_model
  serve_loop-Walks zero sel h e att st = absurd (omega arith)
  serve_loop-Walks (suc f) sel h e att st = elim (Bool-cases (exhausted sel)) [
    | inl x ↦ let (eq, nothing) = next-exhausted sel x in simp (eq, nothing) (_, refl, all_failed)
    | inr x ↦
        let (ch, eq, more) = next_hands_out sel x in
        let on : Selection = record sel { cursor = sel.cursor + 1 } in
        simp (eq, more)
          (after_turn-Walks sel ch (remaining on) e att st _ _ refl λ e' att' st₁.
            let (st', done, s) =
              serve_loop-Walks f on (omega (arith, not_exhausted sel x, h)) e' att' st₁ in
            (st', done, moved sel (sel.cursor + 1) (remaining on) e' att' st₁ st' s))
  ]

  pub serve-Serves :
      (sel : Selection) (st : Relay S)
      → (st' : Relay S) × (serve env rq exchanged (inr sel) st ≡ some st')
        × Serves sel (remaining sel) none none st st'
  unfolding serve Walks
  serve-Serves sel st =
      serve_loop-Walks (suc (length sel.candidates)) sel (omega arith) none none st

module _ {S : Type 0} (env : Upstreams S) (rq : Request) where
  -- For a selection, serveNonStream ends, and it has tried the channels that are left of the selection,
  -- in their order and up to the retry cap: each is tried only after those before it failed in a way
  -- that passes the request on, the first that ends the request is the last one tried, and the client
  -- is told that all have failed only when every one of them has.
  pub serve_non_stream-Serves :
      (sel : Selection) (st : Relay S)
      → (st' : Relay S) × (serve_non_stream env rq (inr sel) st ≡ some st')
        × Serves env rq (exchange_once env rq) sel (remaining sel) none none st st'
  unfolding serve_non_stream
  serve_non_stream-Serves sel st = serve-Serves env rq (exchange_once env rq) sel st
