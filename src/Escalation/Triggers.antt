-- ===== src/Escalation/Triggers.antt =====
-- Which failures reach a person.
use signalmesh.Base.{
  ◌≡◌, ◌≢◌, refl, ◌↔◌, inl, inr, sym, Bool-cases, Bool, true, false, not, ◌&&◌, ◌||◌, Option, none,
  some, List, [], ◌∷◌, ◌++◌, arith,
}
use signalmesh.Base.Float.{Float64, flt}
use signalmesh.Providers.{ModelRequest}
use signalmesh.Policy.{Policy, is_high}
use signalmesh.Reasons.{Reason, Phase}
use signalmesh.Escalation.{
  Action, Stamp, Escalation, FailureInfo, Escalator, is_critical_task, is_unset, is_loop,
  is_no_provider, is_budget, is_uncertain, is_violation, confidence, reasons, raise, consider,
  add_if,
}

-- The conditions on a failure in a phase: whether the task is critical, the policy wants a person,
-- the risk is high, the request idempotent, the confidence low.
abbrev calls : Phase → Bool → Bool → Bool → Bool → Bool → Bool
calls p critical human high idempotent low =
    is_loop p
    || human
    || (critical && is_violation p)
    || (high
        && (is_no_provider p
            || is_budget p
            || (not idempotent && is_uncertain p)
            || (low && (is_violation p || is_uncertain p))))

abbrev codes_for : Phase → Bool → Bool → Bool → Bool → Bool → List Reason
codes_for p critical human high idempotent low =
    add_if (high && low && (is_violation p || is_uncertain p)) Reason.low_confidence_high_risk (
      add_if (is_budget p && high) Reason.budget_exhausted_high_risk_task (
        add_if (is_no_provider p && high) Reason.no_provider_for_high_risk_task (
          add_if (critical && is_violation p) Reason.critical_task_contract_violation (
            add_if ((high && not idempotent) && is_uncertain p)
              Reason.irreversible_action_uncertain_outcome
              (add_if human Reason.high_risk_policy_requires_human
                (add_if (is_loop p) Reason.agent_loop_detected []))))))

not_false : {b : Bool} → b ≢ false → b ≡ true
not_false {b} h = ground arith

codes_nil :
    (p : Phase) (critical human high idempotent low : Bool)
    → (codes_for p critical human high idempotent low ≡ [])
      ↔ (calls p critical human high idempotent low ≡ false)
codes_nil Phase.unset critical human high idempotent low = (λ h. ground arith, λ h. ground arith)
codes_nil _ critical human high idempotent low = (λ h. ground arith, λ h. ground arith)

module _ {F : Type 0} ⦃fl : Float64 F⦄ (req : ModelRequest F) (pol : Policy F)
    (f : FailureInfo F) where
  -- The conditions under which a person is asked, as one test.
  abbrev pub needs_human : Bool
  needs_human =
      not (is_unset f.phase)
      && calls f.phase (is_critical_task req.task_type) pol.requires_human_on_failure
          (is_high pol.risk_level) pol.idempotent (flt (confidence f) pol.minimum_quality_score)

  -- An answer of `Consider`: the record of escalations grows by exactly the one returned.
  abbrev pub IsAnswer : Escalator F → Stamp → Escalator F × Option (Escalation F) → Type 0
  IsAnswer e stamp (e', none) = (e' ≡ e) × (needs_human ≡ false)
  IsAnswer e stamp (e', some x) =
      (needs_human ≡ true)
      × (e'.items ≡ e.items ++ x ∷ [])
      × (e'.node_id ≡ e.node_id)
      × (x.reason_codes ≡ reasons req pol f)
      × (x.reason_codes ≢ [])
      × (x.phase ≡ f.phase)
      × (x.request_id ≡ req.request_id)
      × (x.stamp ≡ stamp)
      × ((x.recommended_action ≡ Action.human_review_block_automatic_action)
          ↔ ((is_high pol.risk_level ≡ true) × (pol.idempotent ≡ false)))

  pub loop_needs_human : f.phase ≡ Phase.agent_loop → needs_human ≡ true
  loop_needs_human q = rw q refl

  reasons_nil : (reasons req pol f ≡ []) ↔ (
      calls f.phase
        (is_critical_task req.task_type)
        pol.requires_human_on_failure
        (is_high pol.risk_level)
        pol.idempotent
        (flt (confidence f) pol.minimum_quality_score)
      ≡ false)
  unfolding reasons
  reasons_nil = codes_nil f.phase _ _ _ _ _

  raise-IsAnswer :
      (e : Escalator F) (stamp : Stamp) (rs : List Reason)
      → is_unset f.phase ≡ false
      → reasons req pol f ≡ rs
      → IsAnswer e stamp (raise e req pol f stamp rs)
  unfolding raise
  raise-IsAnswer e stamp [] u h = (refl, rw (u, reasons_nil.0 h) refl)
  raise-IsAnswer e stamp (r ∷ rs) u h = (
    (rw u (not_false (λ n. cc (h, reasons_nil.1 n)))),
    refl,
    refl,
    sym h,
    (λ n. cc),
    refl,
    refl,
    refl,
    ((λ a. ground arith), λ a. ground arith),
  )

  pub consider-IsAnswer :
      (e : Escalator F) (stamp : Stamp) → IsAnswer e stamp (consider e req pol f stamp)
  unfolding consider
  consider-IsAnswer e stamp = elim (Bool-cases (is_unset f.phase)) [
    | inl u ↦ rw u (refl, rw u refl)
    | inr u ↦ rw u (raise-IsAnswer e stamp (reasons req pol f) u refl)
  ]
