-- ===== src/Providers.antt =====
-- services/signalmesh-node/internal/providers/types.go: requests, responses and health reports.
-- Left out: `ResponseFormat`, `Schema` and `RawResponse`, which no modelled code reads.
pub mod Mock
pub mod Local
pub mod Registry
pub mod Fallback
use signalmesh.Base.{ℕ, Bool, Option, List, String}
use signalmesh.Base.Int.{ℤ}
use signalmesh.Base.Clock.{Time}

-- A pointer field that may be nil is an `Option`.
pub record RequestPolicy (F : Type 0) : Type 0 where
  pub max_latency_ms : Option ℤ
  pub max_cost_usd : Option F
  pub minimum_quality_score : Option F
  pub allow_local_fallback : Option Bool
  pub requires_human_on_failure : Option Bool
  pub max_retries : Option ℤ
  pub idempotent : Option Bool

pub record Message : Type 0 where
  pub role : String
  pub content : String

pub record ModelRequest (F : Type 0) : Type 0 where
  pub request_id : String
  pub messages : List Message
  pub model : String
  pub temperature : F
  pub max_tokens : ℤ
  pub policy : Option (RequestPolicy F)
  pub task_type : String
  pub risk_level : String
  pub agent_id : String
  pub priority : String

pub record ModelResponse (F : Type 0) : Type 0 where
  pub provider_name : String
  pub model : String
  pub content : String
  pub finish_reason : String
  pub input_tokens : ℤ
  pub output_tokens : ℤ
  pub latency_ms : ℤ
  pub estimated_cost : F

pub record ProviderHealth (F : Type 0) : Type 0 where
  pub provider_name : String
  pub status : String
  pub availability_pct : F
  pub p95_latency_ms : ℤ
  pub contract_failure_pct : F
  pub last_updated : Time
  pub version : ℕ
