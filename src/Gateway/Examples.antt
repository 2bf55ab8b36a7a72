-- ===== src/Gateway/Examples.antt =====
-- A request that is served, for the theorem on the checks in front of the relay
-- (server/internal/middleware, server/internal/relay/relay.go).
use hhrouter.Base.{◌≡◌, some, true, [], ◌∷◌, inr, ◌⊎◌}
use hhrouter.Base.Text.{codes}
use hhrouter.Quota.Reliable.{View}
use hhrouter.Relay.Data.{Relay}
use hhrouter.Relay.Examples.{upstreams, start, selection}
use hhrouter.Stream.Examples.{decoders, connect}
use hhrouter.Gateway.{token_enabled, token_found, inbound_anthropic, HttpRequest, Doors, enter}
use hhrouter.Gateway.Admission.{Denied, Admitted, enter-Answers}

abbrev doors : Doors View
doors = record {
  hash_key = λ key. key;
  token_by_hash = λ hash v. token_found (record {
    id = 7;
    user_id = 9;
    status = token_enabled;
    expired_at = some 100;
    allowed_models = codes "gpt" ∷ [];
    output_format = some (codes "openai");
  });
  user_by_id = λ id v. some (record { id = id; enabled = true });
  route = λ tok uni est v. inr selection;
}

abbrev asked : HttpRequest
asked = record {
  endpoint = inbound_anthropic;
  x_api_key = [];
  authorization = codes "bearer sk-1";
  body =
      some (record { model = codes "gpt"; stream = true; system = []; texts = codes "hello" ∷ [] });
  now = 50;
}

enter-Answers_example :
    (st' : Relay View) × (enter upstreams decoders connect doors asked start ≡ some st')
    × (Denied start st' ⊎ Admitted upstreams decoders connect doors asked start st')
enter-Answers_example = enter-Answers upstreams decoders connect doors asked start
