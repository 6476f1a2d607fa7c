-- ===== src/Proxy/State.antt =====
-- services/signalmesh-node/internal/proxy/handler.go: the state and the environment of
-- one request. `Node` is what the handler reaches through its pointers. The breakers live in a
-- memory, which router entries address. `Round` is what the outside gives to one attempt: readings
-- of the clock, reported health, what the provider generates.
use signalmesh.Base.{ℕ, Bool, Option, List, String, ◌==◌, if◌then◌else◌}
use signalmesh.Base.Int.{ℤ}
use signalmesh.Base.Clock.{Time}
use signalmesh.Providers.{ModelRequest, ModelResponse, ProviderHealth}
use signalmesh.Policy.{Policy}
use signalmesh.Breaker.{Breaker}
use signalmesh.LoopDetector.{Detector}
use signalmesh.Budget.{Manager}
use signalmesh.Router.{ProviderEntry, Decision}
use signalmesh.Validator.{Result, Decoder}
use signalmesh.Escalation.{Escalator, Escalation}
use signalmesh.Incident.{Reporter, Meta, report}
use signalmesh.Incident
use signalmesh.Reasons.{Reason, Phase}

pub record Node (F : Type 0) : Type 0 where
  pub entries : List (ProviderEntry F)
  pub breakers : ℕ → Breaker
  pub detector : Detector
  pub budgets : Manager F
  pub escalator : Escalator F
  pub reporter : Reporter

abbrev pub write : (ℕ → Breaker) → ℕ → Breaker → ℕ → Breaker
write m a b i = if i == a then b else m i

-- What `Generate` returns: an error is a deadline that passed, or another.
pub data Generated (F : Type 0) : Type 0 where
  response : ModelResponse F → Generated F
  deadline_exceeded : Generated F
  generation_error : Generated F

pub record Round (F : Type 0) : Type 0 where
  pub available_now : ProviderEntry F → Time
  pub allow_now : Time
  pub allow_at : Time
  pub outcome_at : Time
  pub failure_now : Time
  pub trip_at : Time
  pub retry_now : Time
  pub get_health : String → ProviderHealth F
  pub health_source : Option (String → ProviderHealth F)
  pub generate : ProviderEntry F → Generated F
  pub incident : Incident.Stamp

-- What stays the same over the attempts of a request. The deadline is an instant that may lie in
-- the past of every clock.
pub record Context (F : Type 0) : Type 0 where
  pub req : ModelRequest F
  pub pol : Policy F
  pub fingerprint : String
  pub deadline : ℤ
  pub decode : Decoder F

pub record FailureState (F : Type 0) : Type 0 where
  pub phase : Phase
  pub provider : String
  pub attempt : ℕ
  pub validation : Result F
  pub decision : Option (Decision F)
  pub reason_codes : List Reason

-- The end of one attempt; `rejected` says whether the loop stops.
pub data Verdict (F : Type 0) : Type 0 where
  accepted : ModelResponse F → Decision F → Verdict F
  rejected : FailureState F → Bool → Verdict F
  panicked : Verdict F

-- The end of the loop: an answer, or the last failure.
pub data Ended (F : Type 0) : Type 0 where
  answered : ModelResponse F → Decision F → Ended F
  gave_up : FailureState F → Ended F
  crashed : Ended F

-- What is written to the client. (Nothing, after a panic.)
pub data Answer (F : Type 0) : Type 0 where
  success : ModelResponse F → Decision F → Answer F
  failure : ℕ → FailureState F → Option (Escalation F) → Answer F
  panic : Answer F
