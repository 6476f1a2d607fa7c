-- ===== src/Escalation.antt =====
-- services/signalmesh-node/internal/escalation/escalation.go: when a failure needs a person. The
-- two random ids and the time of an escalation are arguments (`Stamp`). The publication to NATS and
-- the log lines, which change nothing here, are left out.
pub mod Triggers
use signalmesh.Base.{
  ℕ, Bool, true, false, not, ◌&&◌, ◌||◌, Option, none, some, List, [], ◌∷◌, ◌++◌, String,
  if◌then◌else◌,
}
use signalmesh.Base.Clock.{Time}
use signalmesh.Base.Text.{codes, to_lower, trim_space, contains_any}
use signalmesh.Base.Float.{Float64, lit, flt}
use signalmesh.Providers.{ModelRequest}
use signalmesh.Policy.{Policy, RiskLevel, is_high}
use signalmesh.Validator.{Result}
use signalmesh.Reasons.{Reason, Phase}

pub data Action : Type 0 where
  human_review human_review_block_automatic_action : Action

pub record Stamp : Type 0 where
  pub event_id : String
  pub escalation_id : String
  pub created_at : Time

pub record Escalation (F : Type 0) : Type 0 where
  pub stamp : Stamp
  pub node_id : String
  pub request_id : String
  pub agent_id : String
  pub task_type : String
  pub risk_level : RiskLevel
  pub phase : Phase
  pub provider : String
  pub confidence : F
  pub reason_codes : List Reason
  pub recommended_action : Action

pub record FailureInfo (F : Type 0) : Type 0 where
  pub phase : Phase
  pub provider : String
  pub attempt : ℕ
  pub validation : Result F
  pub reason_codes : List Reason

pub record Escalator (F : Type 0) : Type 0 where
  pub node_id : String
  pub items : List (Escalation F)

unfoldable pub is_critical_task : String → Bool
unfolding contains_any to_lower trim_space
is_critical_task task = contains_any (to_lower (trim_space (codes task))) (
    "financial" ∷ "payment" ∷ "refund" ∷ "trade" ∷ "compliance" ∷ "medical" ∷ "security"
    ∷ "irreversible" ∷ "action" ∷ [])

-- Tests of a phase.
abbrev pub is_unset : Phase → Bool
is_unset Phase.unset = true
is_unset _ = false

abbrev pub is_loop : Phase → Bool
is_loop Phase.agent_loop = true
is_loop _ = false

abbrev pub is_no_provider : Phase → Bool
is_no_provider Phase.no_provider = true
is_no_provider _ = false

abbrev pub is_budget : Phase → Bool
is_budget Phase.budget = true
is_budget _ = false

-- "timeout" or "generation".
abbrev pub is_uncertain : Phase → Bool
is_uncertain Phase.timeout = true
is_uncertain Phase.generation = true
is_uncertain _ = false

-- "semantic" or "quality".
abbrev pub is_violation : Phase → Bool
is_violation Phase.semantic = true
is_violation Phase.quality = true
is_violation _ = false

abbrev add_if : Bool → Reason → List Reason → List Reason
add_if b r rs = if b then rs ++ r ∷ [] else rs

module _ {F : Type 0} ⦃fl : Float64 F⦄ where
  unfoldable pub confidence : FailureInfo F → F
  confidence f =
      if is_no_provider f.phase || is_budget f.phase
      then lit 0 0
      else if f.validation.valid
      then f.validation.score
      else if flt (lit 0 0) f.validation.score
      then f.validation.score
      else lit 5 2

  abbrev irreversible : Policy F → Bool
  irreversible pol = is_high pol.risk_level && not pol.idempotent

  -- The calls of `add`, in their order.
  unfoldable pub reasons : ModelRequest F → Policy F → FailureInfo F → List Reason
  reasons req pol f =
      let critical = is_critical_task req.task_type in
      add_if
        (is_high pol.risk_level
          && flt (confidence f) pol.minimum_quality_score
          && (is_violation f.phase || is_uncertain f.phase))
        Reason.low_confidence_high_risk
        (add_if (is_budget f.phase && is_high pol.risk_level) Reason.budget_exhausted_high_risk_task
          (add_if (is_no_provider f.phase && is_high pol.risk_level)
            Reason.no_provider_for_high_risk_task
            (add_if (critical && is_violation f.phase) Reason.critical_task_contract_violation (
              add_if (irreversible pol && is_uncertain f.phase)
                Reason.irreversible_action_uncertain_outcome
                (add_if pol.requires_human_on_failure Reason.high_risk_policy_requires_human
                  (add_if (is_loop f.phase) Reason.agent_loop_detected []))))))

  abbrev recommended : Policy F → Action
  recommended pol =
      if irreversible pol then Action.human_review_block_automatic_action else Action.human_review

  -- `escalate` is true once `add` has been called.
  raise :
      Escalator F
      → ModelRequest F
      → Policy F
      → FailureInfo F
      → Stamp
      → List Reason
      → Escalator F × Option (Escalation F)
  raise e req pol f stamp [] = (e, none)
  raise e req pol f stamp (r ∷ rs) =
      let item : Escalation F = record {
        stamp = stamp;
        node_id = e.node_id;
        request_id = req.request_id;
        agent_id = req.agent_id;
        task_type = req.task_type;
        risk_level = pol.risk_level;
        phase = f.phase;
        provider = f.provider;
        confidence = confidence f;
        reason_codes = r ∷ rs;
        recommended_action = recommended pol;
      } in
      (record e { items = e.items ++ item ∷ [] }, some item)

  unfoldable pub consider :
      Escalator F
      → ModelRequest F
      → Policy F
      → FailureInfo F
      → Stamp
      → Escalator F × Option (Escalation F)
  unfolding raise
  consider e req pol f stamp =
      if is_unset f.phase then (e, none) else raise e req pol f stamp (reasons req pol f)
