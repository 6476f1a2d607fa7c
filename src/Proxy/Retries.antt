-- ===== src/Proxy/Retries.antt =====
-- What has happened when the loop goes on after a failed attempt.
use signalmesh.Base.{
  ℕ, ◌+◌, ◌≡◌, refl, sym, subst, inl, inr, true, false, ◌&&◌, ◌||◌, Option, none, some, List, arith,
  Bool-cases, get_elem?,
}
use signalmesh.Base.Int.{ℤ, pos, inc, ◌≤ℤ◌, ◌<ℤ◌}
use signalmesh.Base.Clock.{Time}
use signalmesh.Base.Float.{Float64, FloatOrder, lit, flt, fle}
use signalmesh.Providers.{ModelResponse}
use signalmesh.Policy.{Policy, is_high}
use signalmesh.Breaker
use signalmesh.Budget
use signalmesh.Router.{ProviderEntry, Decision, Selection, select}
use signalmesh.Router.Choice.{Outcome, select-Outcome}
use signalmesh.Validator.{Result, validate, default_contract}
use signalmesh.Reasons.{Reason, Phase}
use signalmesh.Proxy.State.{Node, Generated, Round, Context, FailureState, Verdict}
use signalmesh.Proxy.Failure.{
  can_retry, is_final, is_doubtful, has_cost_reason, handle_failure, fail_with, on_breaker,
}
use signalmesh.Proxy.Attempt.{
  no_validation, sources, attempt_once, on_selection, on_selected, on_no_provider, on_generated,
  on_response, accept, failed_call, failure,
}

-- A second generation does no harm.
abbrev pub IsHarmless : {F : Type 0} → Policy F → Type 0
IsHarmless pol = is_high pol.risk_level ≡ true → pol.idempotent ≡ true

module _ {F : Type 0} (pol : Policy F) (attempt : ℕ) (deadline : ℤ) (now : Time) where
  -- A retry is left, and at least 100 ms of the time.
  pub record IsOpen : Type 0 where
    pub retry_left : pos attempt <ℤ inc pol.max_retries
    pub in_time : pos (now + 100000000) ≤ℤ deadline

  can_retry-IsOpen : (phase : Phase) → can_retry pol attempt deadline phase now ≡ true → IsOpen
  unfolding can_retry
  can_retry-IsOpen phase h = record { retry_left = ground arith; in_time = ground arith }

  can_retry-final :
      (phase : Phase) → is_final phase ≡ true → can_retry pol attempt deadline phase now ≡ true → ⊥
  unfolding can_retry
  can_retry-final phase e h = ground arith

  can_retry-IsHarmless :
      (phase : Phase)
      → is_doubtful phase ≡ true
      → can_retry pol attempt deadline phase now ≡ true
      → IsHarmless pol
  unfolding can_retry
  can_retry-IsHarmless phase e h = λ q. ground arith

module _ {F : Type 0} ⦃fl : Float64 F⦄ (c : Context F) (r : Round F) (n : Node F)
    (attempt : ℕ) where
  -- What a provider did that is tried again: a timeout, an error or an answer that breaks the
  -- contract, where a second generation does no harm, or a valid answer of too low a quality.
  abbrev pub IsFault : Generated F → Type 0
  IsFault Generated.deadline_exceeded = IsHarmless c.pol
  IsFault Generated.generation_error = IsHarmless c.pol
  IsFault (Generated.response resp) =
      let v = validate c.decode resp.content default_contract in
      (v.valid ≡ false → IsHarmless c.pol)
      × (v.valid ≡ true → flt v.score c.pol.minimum_quality_score ≡ true)

  -- A registered provider has been called, in vain.
  pub record IsRetried : Type 0 where
    pub open_ : IsOpen c.pol attempt c.deadline r.retry_now
    pub entry : ProviderEntry F
    pub index : ℕ
    pub registered : get_elem? n.entries index ≡ some entry
    pub let_through : (Breaker.allow (n.breakers entry.breaker) r.allow_now r.allow_at).1 ≡ true
    pub fault : IsFault (r.generate entry)

  -- If the loop goes on.
  abbrev Goes : Node F × Verdict F → Type 0
  Goes (n', Verdict.rejected f false) = IsRetried
  Goes (n', Verdict.rejected f true) = Unit
  Goes (n', Verdict.accepted resp d) = Unit
  Goes (n', Verdict.panicked) = Unit

  fail_with-Goes :
      (entry : Option (ProviderEntry F)) (f : FailureState F) (n1 : Node F)
      → f.attempt ≡ attempt
      → (can_retry c.pol attempt c.deadline f.phase r.retry_now ≡ true → IsRetried)
      → Goes (fail_with c r entry f n1)
  unfolding fail_with
  fail_with-Goes entry f n1 e k = elim (Bool-cases (handle_failure c r entry f n1).1) [
    | inl detected ↦ rw detected tt
    | inr counted ↦ elim (Bool-cases (can_retry c.pol f.attempt c.deadline f.phase r.retry_now)) [
      | inl again ↦
          rw (counted, again)
            (k (subst (λ a. can_retry c.pol a c.deadline f.phase r.retry_now ≡ true) e again))
      | inr over ↦ rw (counted, over) tt
    ]
  ]

  final-Goes :
      (entry : Option (ProviderEntry F)) (f : FailureState F) (n1 : Node F)
      → f.attempt ≡ attempt
      → is_final f.phase ≡ true
      → Goes (fail_with c r entry f n1)
  final-Goes entry f n1 e final =
      fail_with-Goes entry f n1 e
        (λ again. absurd (can_retry-final c.pol attempt c.deadline r.retry_now f.phase final again))

  module _ (e : ProviderEntry F) (d : Decision F) (i : ℕ) (reg : get_elem? n.entries i ≡ some e)
      (lt : (Breaker.allow (n.breakers e.breaker) r.allow_now r.allow_at).1 ≡ true) where
    called :
        (x : Generated F) (phase : Phase)
        → r.generate e ≡ x
        → (can_retry c.pol attempt c.deadline phase r.retry_now ≡ true → IsFault x)
        → can_retry c.pol attempt c.deadline phase r.retry_now ≡ true
        → IsRetried
    called x phase g k again = record {
      open_ = can_retry-IsOpen c.pol attempt c.deadline r.retry_now phase again;
      entry = e;
      index = i;
      registered = reg;
      let_through = lt;
      fault = subst IsFault (sym g) (k again);
    }

    failed_call-Goes :
        (x : Generated F) (phase : Phase) (v : Result F) (rs : List Reason) (n1 : Node F)
        → r.generate e ≡ x
        → (can_retry c.pol attempt c.deadline phase r.retry_now ≡ true → IsFault x)
        → Goes (failed_call c r e (failure attempt e d phase v rs) n1)
    unfolding failed_call
    failed_call-Goes x phase v rs n1 g k =
        fail_with-Goes (some e) (failure attempt e d phase v rs)
          (on_breaker Breaker.record_failure e r.outcome_at n1) refl (called x phase g k)

    harmless :
        (phase : Phase)
        → is_doubtful phase ≡ true
        → can_retry c.pol attempt c.deadline phase r.retry_now ≡ true
        → IsHarmless c.pol
    harmless = can_retry-IsHarmless c.pol attempt c.deadline r.retry_now

    on_response-Goes :
        (resp : ModelResponse F) (n1 : Node F)
        → r.generate e ≡ Generated.response resp
        → Goes (on_response c r attempt e d resp n1)
    unfolding on_response failed_call accept
    on_response-Goes resp n1 g =
        let v = validate c.decode resp.content default_contract in
        elim (Bool-cases v.valid) [
          | inr bad ↦ simp bad (
              failed_call-Goes (Generated.response resp) Phase.semantic v _ n1 g
                (λ again. (λ q. harmless Phase.semantic refl again, λ q. absurd (cc (bad, q)))))
          | inl good ↦ elim (Bool-cases (flt v.score c.pol.minimum_quality_score)) [
            | inl low ↦
                simp (good, low)
                  (failed_call-Goes (Generated.response resp) Phase.quality v _ n1 g
                    (λ again. (λ q. absurd (cc (good, q)), λ q. low)))
            | inr fine ↦
                elim (Bool-cases (
                  flt (lit 0 0) c.pol.max_cost_usd && flt c.pol.max_cost_usd resp.estimated_cost)) [
                    | inl dear ↦
                        simp (good, fine, dear)
                          (final-Goes (some e) (failure attempt e d Phase.cost v _)
                            (on_breaker Breaker.record_failure e r.outcome_at n1) refl refl)
                    | inr cheap ↦ simp (good, fine, cheap) tt
                  ]
          ]
        ]

    on_generated-Goes :
        (x : Generated F) (n1 : Node F)
        → r.generate e ≡ x
        → Goes (on_generated c r attempt e d x n1)
    unfolding on_generated
    on_generated-Goes (Generated.response resp) n1 g = on_response-Goes resp n1 g
    on_generated-Goes Generated.deadline_exceeded n1 g =
        failed_call-Goes Generated.deadline_exceeded Phase.timeout no_validation _ n1 g
          (harmless Phase.timeout refl)
    on_generated-Goes Generated.generation_error n1 g =
        failed_call-Goes Generated.generation_error Phase.generation no_validation _ n1 g
          (harmless Phase.generation refl)

  on_no_provider-Goes :
      (remaining : F) (d : Decision F) → Goes (on_no_provider c r attempt remaining d n)
  unfolding on_no_provider
  on_no_provider-Goes remaining d =
      elim (Bool-cases (has_cost_reason d || fle remaining (lit 0 0))) [
        | inl spent ↦ rw spent (final-Goes none _ n refl refl)
        | inr left ↦ rw left (final-Goes none _ n refl refl)
      ]

  on_selection-Goes :
      (remaining : F) (sel : Selection F)
      → Outcome (sources r n) c.pol remaining n.entries sel
      → Goes (on_selection c r attempt remaining sel n)
  unfolding on_selection on_selected
  on_selection-Goes remaining (Selection.selected e d) h =
      elim (Bool-cases (Breaker.allow (n.breakers e.breaker) r.allow_now r.allow_at).1) [
        | inl lt ↦ rw lt (on_generated-Goes e d h.index h.stored lt (r.generate e) _ refl)
        | inr shut ↦ rw shut (final-Goes (some e) _ _ refl refl)
      ]
  on_selection-Goes remaining (Selection.failed d) h = on_no_provider-Goes remaining d
  on_selection-Goes remaining Selection.crashed h = tt

  -- The loop goes on after an attempt only if a retry and at least 100 ms are left, and a registered
  -- provider whose breaker let the request through has been called in vain: it answered in accordance
  -- with the contract, but below the minimum quality; or it ran into the deadline, returned an error or
  -- answered against the contract, and the request is not both of high risk and not idempotent.
  pub retried_only :
      FloatOrder F
      → (n' : Node F) (f : FailureState F)
      → attempt_once c r attempt n ≡ (n', Verdict.rejected f false)
      → IsRetried
  unfolding attempt_once
  retried_only o n' f h =
      let left = Budget.remaining n.budgets c.req.agent_id in
      subst Goes h (
        on_selection-Goes left (select (sources r n) c.pol left n.entries)
          (select-Outcome (sources r n) c.pol left o n.entries))
