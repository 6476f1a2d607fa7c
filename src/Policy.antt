-- ===== src/Policy.antt =====
-- services/signalmesh-node/internal/policy/policy.go: the constraints of a request.
pub mod Bounds
use signalmesh.Base.{
  ℕ, ◌+◌, ◌-◌, ◌*◌, Bool, true, false, ◌||◌, Option, none, some, String, if◌then◌else◌,
}
use signalmesh.Base.Int.{ℤ, pos, negsuc, leb_ℤ, ltb_ℤ, mul_pos, wrap64}
use signalmesh.Base.Clock.{Duration, second, millisecond}
use signalmesh.Base.Text.{codes, codes_eq, to_lower, trim_space}
use signalmesh.Base.Float.{Float64, lit, flt}
use signalmesh.Providers.{ModelRequest, RequestPolicy}

pub data RiskLevel : Type 0 where
  risk_low risk_medium risk_high : RiskLevel

abbrev pub is_high : RiskLevel → Bool
is_high RiskLevel.risk_high = true
is_high _ = false

pub record Policy (F : Type 0) : Type 0 where
  pub task_type : String
  pub risk_level : RiskLevel
  pub max_latency_ms : ℤ
  pub max_cost_usd : F
  pub minimum_quality_score : F
  pub allow_local_fallback : Bool
  pub requires_human_on_failure : Bool
  pub max_retries : ℤ
  pub idempotent : Bool

unfoldable pub normalize_risk : String → RiskLevel
unfolding to_lower trim_space codes_eq
normalize_risk raw =
    let word = to_lower (trim_space (codes raw)) in
    if codes_eq word (codes "high") || codes_eq word (codes "critical")
    then RiskLevel.risk_high
    else if codes_eq word (codes "medium") || codes_eq word (codes "med")
    then RiskLevel.risk_medium
    else RiskLevel.risk_low

-- A field of the request's policy, if it is there.
abbrev pub given {ℓ} : {A : Type ℓ} → Option A → A → A
given none d = d
given (some a) d = a

module _ {F : Type 0} ⦃fl : Float64 F⦄ where
  -- The field `TaskType` is the empty text until `FromRequest` sets it.
  unfoldable pub default_policy : RiskLevel → Policy F
  default_policy RiskLevel.risk_high = record {
    task_type = "";
    risk_level = RiskLevel.risk_high;
    max_latency_ms = pos 1500;
    max_cost_usd = lit 5 2;
    minimum_quality_score = lit 85 2;
    allow_local_fallback = false;
    requires_human_on_failure = true;
    max_retries = pos 1;
    idempotent = false;
  }
  default_policy RiskLevel.risk_medium = record {
    task_type = "";
    risk_level = RiskLevel.risk_medium;
    max_latency_ms = pos 2000;
    max_cost_usd = lit 2 2;
    minimum_quality_score = lit 80 2;
    allow_local_fallback = true;
    requires_human_on_failure = false;
    max_retries = pos 1;
    idempotent = true;
  }
  default_policy RiskLevel.risk_low = record {
    task_type = "";
    risk_level = RiskLevel.risk_low;
    max_latency_ms = pos 3000;
    max_cost_usd = lit 1 2;
    minimum_quality_score = lit 70 2;
    allow_local_fallback = true;
    requires_human_on_failure = false;
    max_retries = pos 2;
    idempotent = true;
  }

  overrides : Option (RequestPolicy F) → Policy F → Policy F
  overrides none p = p
  overrides (some rp) p = record p {
    max_latency_ms = given rp.max_latency_ms p.max_latency_ms;
    max_cost_usd = given rp.max_cost_usd p.max_cost_usd;
    minimum_quality_score = given rp.minimum_quality_score p.minimum_quality_score;
    allow_local_fallback = given rp.allow_local_fallback p.allow_local_fallback;
    requires_human_on_failure = given rp.requires_human_on_failure p.requires_human_on_failure;
    max_retries = given rp.max_retries p.max_retries;
    idempotent = given rp.idempotent p.idempotent;
  }

  clamped : Policy F → Policy F
  clamped p = record p {
    max_latency_ms = if leb_ℤ p.max_latency_ms (pos 0) then pos 3000 else p.max_latency_ms;
    max_retries = if ltb_ℤ p.max_retries (pos 0) then pos 0 else p.max_retries;
    minimum_quality_score =
        if flt p.minimum_quality_score (lit 0 0) then lit 0 0 else p.minimum_quality_score;
  }

  unfoldable pub from_request : ModelRequest F → Policy F
  unfolding overrides clamped default_policy
  from_request req = clamped (
      overrides req.policy
        (record (default_policy (normalize_risk req.risk_level)) { task_type = req.task_type }))

  -- The product of two `int64` wraps around.
  unfoldable pub deadline : Policy F → Duration
  deadline p =
      if leb_ℤ p.max_latency_ms (pos 0)
      then pos (3 * second)
      else wrap64 (mul_pos p.max_latency_ms millisecond)
