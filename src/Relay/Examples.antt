-- ===== src/Relay/Examples.antt =====
-- A relay whose first upstream answers 503 and whose second answers, for the theorems on
-- server/internal/relay/relay.go.
use hhrouter.Base.{ℕ, ◌≡◌, true, false, none, some, [], ◌∷◌, inr, ◌==◌, if◌then◌else◌}
use hhrouter.Base.Int.{pos, negsuc}
use hhrouter.Base.Text.{codes}
use hhrouter.Model.{Channel, channel_enabled}
use hhrouter.Billing.{price_found}
use hhrouter.Quota.Reliable.{View, view_backend}
use hhrouter.Router.Rules.{Json, empty_spec}
use hhrouter.Router.Selection.{Selection}
use hhrouter.Relay.Data.{Request, Relay, refused, responded}
use hhrouter.Relay.{Upstreams, exchange_once, serve_non_stream}
use hhrouter.Relay.Accounts.{Accounts, serve_non_stream-Accounts}
use hhrouter.Relay.Failover.{Serves, serve_non_stream-Serves}

abbrev pub channel : ℕ → Channel
channel id = record {
  id = id;
  name = codes "up";
  kind = codes "openai";
  base_url = [];
  key = [];
  region = [];
  models = codes "gpt";
  model_mapping = [];
  use_inference_profile = true;
  auto_cache_system = false;
  group = codes "shared";
  priority = pos 0;
  weight = pos 1;
  status = channel_enabled;
}

abbrev json : Json
json = record {
  spec = λ raw. empty_spec;
  ids = λ raw. [];
  names = λ raw. raw ∷ [];
  mapping = λ raw. [];
}

abbrev pub upstreams : Upstreams View
upstreams = record {
  backend = view_backend;
  json = json;
  price_row = λ id model v. price_found (record {
    input = pos 1000000;
    output = pos 2000000;
    cache_read = pos 0;
    cache_write = pos 0;
  });
  exchange = λ ch model v. (
    if ch.id == 1
        then refused
            (record { provider = codes "openai"; status_code = pos 503; message = []; body = [] })
        else responded (codes "hi") (record {
          prompt_tokens = pos 10;
          completion_tokens = pos 5;
          total_tokens = pos 15;
          cache_read_tokens = pos 0;
          cache_write_tokens = pos 0;
        }),
    v,
  );
}

abbrev pub request : Request
request = record { token_id = 7; user_id = 9; model = codes "gpt"; est_prompt = pos 10 }

abbrev pub start : Relay View
start = record {
  quota = record {
    store = record {
      tokens = λ id. some (record { quota = pos 1000; used = pos 0 });
      users = λ id. some (record { quota = negsuc 0; used = pos 0 });
      counters = λ key. none;
    };
    dirty_tokens = [];
    dirty_users = [];
  };
  log = [];
  replies = [];
}

abbrev pub selection : Selection
selection = record {
  rule = none;
  model = codes "gpt";
  probe = none;
  effective_model = codes "gpt";
  candidates = channel 1 ∷ channel 2 ∷ [];
  max_retries = pos 3;
  cursor = 0;
}

serve_non_stream-Accounts_example :
    (st' : Relay View) × (serve_non_stream upstreams request (inr selection) start ≡ some st')
    × Accounts start st'
serve_non_stream-Accounts_example =
    serve_non_stream-Accounts upstreams request (inr selection) start

serve_non_stream-Serves_example :
    (st' : Relay View) × (serve_non_stream upstreams request (inr selection) start ≡ some st')
    × Serves upstreams request
        (exchange_once upstreams request)
        selection
        (channel 1 ∷ channel 2 ∷ [])
        none
        none
        start
        st'
serve_non_stream-Serves_example = serve_non_stream-Serves upstreams request selection start
