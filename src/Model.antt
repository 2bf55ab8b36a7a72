-- ===== src/Model.antt =====
-- The rows of server/internal/model/channel.go and routing_rule.go that routing reads, without their
-- time stamps. A JSON column is a list of bytes, as in Go.
use hhrouter.Base.{ℕ, List, Bool}
use hhrouter.Base.Int.{ℤ}
use hhrouter.Base.Text.{Bytes, codes}

pub record Channel : Type 0 where
  pub id : ℕ
  pub name : Bytes
  pub kind : Bytes
  pub base_url : Bytes
  pub key : Bytes
  pub region : Bytes
  pub models : Bytes
  pub model_mapping : Bytes
  pub use_inference_profile : Bool
  pub auto_cache_system : Bool
  pub group : Bytes
  pub priority : ℤ
  pub weight : ℤ
  pub status : Bytes

abbrev pub channel_enabled : Bytes
channel_enabled = codes "enabled"

abbrev pub channel_disabled : Bytes
channel_disabled = codes "disabled"

abbrev pub channel_auto_disabled : Bytes
channel_auto_disabled = codes "auto_disabled"

pub record RoutingRule : Type 0 where
  pub id : ℕ
  pub name : Bytes
  pub enabled : Bool
  pub priority : ℤ
  pub match : Bytes
  pub target_channel_ids : Bytes
  pub target_group : Bytes
  pub expr : Bytes
  pub target_model : Bytes

pub record MatchSpec : Type 0 where
  pub groups : List Bytes
  pub models : List Bytes
  pub min_tokens : ℤ
  pub max_tokens : ℤ
