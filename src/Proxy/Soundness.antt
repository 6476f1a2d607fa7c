-- ===== src/Proxy/Soundness.antt =====
-- The breakers and the loop detector stay consistent, whatever happens to a request.
use signalmesh.Base.{
  ℕ, zero, suc, ◌+◌, true, false, ◌&&◌, Option, none, some, List, Bool-cases, inl, inr, ◌==◌,
}
use signalmesh.Base.Clock.{Time}
use signalmesh.Base.Float.{Float64, lit, flt}
use signalmesh.Providers.{ModelResponse}
use signalmesh.Breaker.{Breaker, Call}
use signalmesh.Breaker
use signalmesh.Breaker.Invariant as Breakers
use signalmesh.LoopDetector
use signalmesh.LoopDetector.Invariant as Detectors
use signalmesh.Router.{ProviderEntry, Decision, Selection, select}
use signalmesh.Budget
use signalmesh.Validator.{validate, default_contract}
use signalmesh.Escalation.{is_budget}
use signalmesh.Proxy.Endings.{attempts-zero, attempts-after, after}
use signalmesh.Reasons.{Reason}
use signalmesh.Proxy.State.{Node, write, Generated, Round, Context, FailureState, Verdict, Ended}
use signalmesh.Proxy.Failure.{failure_reason, trip_entry, report_loop, handle_failure, fail_with}
use signalmesh.Proxy.Attempt.{
  on_no_provider, failed_call, accept, on_response, on_generated, on_selected, on_selection,
  sources, attempt_once,
}
use signalmesh.Proxy.Chat.{
  Closing, max_attempts, attempts, blank, give_up, report_budget, conclude, serve, handle_chat,
}

write-IsValid :
    (m : ℕ → Breaker) (a : ℕ) (b : Breaker)
    → ((i : ℕ) → Breakers.IsValid (m i))
    → Breakers.IsValid b
    → (i : ℕ) → Breakers.IsValid (write m a b i)
write-IsValid m a b all new i = elim (Bool-cases (i == a)) [
  | inl same ↦ rw same new
  | inr other ↦ rw other (all i)
]

module _ {F : Type 0} ⦃fl : Float64 F⦄ where
  -- Every breaker and the detector are consistent.
  pub record IsSound (n : Node F) : Type 0 where
    pub breakers : (a : ℕ) → Breakers.IsValid (n.breakers a)
    pub detector : Detectors.IsValid n.detector

  -- A call on one breaker.
  pub call-IsSound :
      (n : Node F) (a : ℕ) (call : Call)
      → IsSound n
      → IsSound (record n { breakers = write n.breakers a (Breaker.step (n.breakers a) call) })
  call-IsSound n a call s = record {
    breakers =
        write-IsValid n.breakers a _ s.breakers
          (Breakers.step-IsValid (n.breakers a) call (s.breakers a));
    detector = s.detector;
  }

  trip_entry-IsSound :
      (n : Node F) (e : Option (ProviderEntry F)) (at : Time)
      → IsSound n
      → IsSound (trip_entry n e at)
  unfolding trip_entry Breaker.step
  trip_entry-IsSound n none at s = s
  trip_entry-IsSound n (some e) at s = call-IsSound n e.breaker (Call.trips at) s

  -- The detector notes a failure.
  noted-IsSound :
      (c : Context F) (r : Round F) (f : FailureState F) (n : Node F)
      → IsSound n
      → IsSound (record n {
        detector =
            (LoopDetector.record_failure n.detector c.fingerprint
              (failure_reason f.phase)
              r.failure_now).0;
      })
  unfolding LoopDetector.step
  noted-IsSound c r f n s = record {
    breakers = s.breakers;
    detector =
        Detectors.step-IsValid n.detector
          (LoopDetector.Call.fails c.fingerprint (failure_reason f.phase) r.failure_now) s.detector;
  }

  handle_failure-IsSound :
      (c : Context F) (r : Round F) (e : Option (ProviderEntry F)) (f : FailureState F) (n : Node F)
      → IsSound n
      → IsSound (handle_failure c r e f n).0
  unfolding handle_failure report_loop
  handle_failure-IsSound c r e f n s =
      let noted = noted-IsSound c r f n s in
      let tripped = trip_entry-IsSound _ e r.trip_at noted in
      elim (Bool-cases
        (LoopDetector.record_failure n.detector c.fingerprint (failure_reason f.phase)
          r.failure_now).1) [
            | inl detected ↦
                rw detected (record { breakers = tripped.breakers; detector = tripped.detector })
            | inr quiet ↦ rw quiet noted
          ]

  fail_with-IsSound :
      (c : Context F) (r : Round F) (e : Option (ProviderEntry F)) (f : FailureState F) (n : Node F)
      → IsSound n
      → IsSound (fail_with c r e f n).0
  unfolding fail_with
  fail_with-IsSound c r e f n s =
      let handled = handle_failure-IsSound c r e f n s in
      elim (Bool-cases (handle_failure c r e f n).1) [
        | inl detected ↦ rw detected handled
        | inr quiet ↦ rw quiet handled
      ]

  failed_call-IsSound :
      (c : Context F) (r : Round F) (e : ProviderEntry F) (f : FailureState F) (n : Node F)
      → IsSound n
      → IsSound (failed_call c r e f n).0
  unfolding failed_call Breaker.step
  failed_call-IsSound c r e f n s =
      fail_with-IsSound c r (some e) f _ (call-IsSound n e.breaker (Call.fails r.outcome_at) s)

  accept-IsSound :
      (c : Context F) (r : Round F) (e : ProviderEntry F) (d : Decision F) (resp : ModelResponse F)
      (n : Node F)
      → IsSound n
      → IsSound (accept c r e d resp n).0
  unfolding accept Breaker.step LoopDetector.step
  accept-IsSound c r e d resp n s = record {
    breakers = (call-IsSound n e.breaker (Call.succeeds r.outcome_at) s).breakers;
    detector =
        Detectors.step-IsValid n.detector (LoopDetector.Call.succeeds c.fingerprint) s.detector;
  }

  on_response-IsSound :
      (c : Context F) (r : Round F) (k : ℕ) (e : ProviderEntry F) (d : Decision F)
      (resp : ModelResponse F) (n : Node F)
      → IsSound n
      → IsSound (on_response c r k e d resp n).0
  unfolding on_response
  on_response-IsSound c r k e d resp n s =
      let v = validate c.decode resp.content default_contract in
      elim (Bool-cases v.valid) [
        | inr invalid ↦ rw invalid (failed_call-IsSound c r e _ n s)
        | inl valid ↦ rw valid (elim (Bool-cases (flt v.score c.pol.minimum_quality_score)) [
          | inl low ↦ rw low (failed_call-IsSound c r e _ n s)
          | inr fine ↦
              rw fine
                (elim (Bool-cases (
                  flt (lit 0 0) c.pol.max_cost_usd && flt c.pol.max_cost_usd resp.estimated_cost)) [
                    | inl dear ↦ rw dear (failed_call-IsSound c r e _ n s)
                    | inr cheap ↦ rw cheap (accept-IsSound c r e d resp n s)
                  ])
        ])
      ]

  on_generated-IsSound :
      (c : Context F) (r : Round F) (k : ℕ) (e : ProviderEntry F) (d : Decision F) (g : Generated F)
      (n : Node F)
      → IsSound n
      → IsSound (on_generated c r k e d g n).0
  unfolding on_generated
  on_generated-IsSound c r k e d (Generated.response resp) n s =
      on_response-IsSound c r k e d resp n s
  on_generated-IsSound c r k e d Generated.deadline_exceeded n s = failed_call-IsSound c r e _ n s
  on_generated-IsSound c r k e d Generated.generation_error n s = failed_call-IsSound c r e _ n s

  on_selection-IsSound :
      (c : Context F) (r : Round F) (k : ℕ) (remaining : F) (x : Selection F) (n : Node F)
      → IsSound n
      → IsSound (on_selection c r k remaining x n).0
  unfolding on_selection on_selected on_no_provider Breaker.step
  on_selection-IsSound c r k remaining (Selection.selected e d) n s =
      let asked = call-IsSound n e.breaker (Call.allows r.allow_now r.allow_at) s in
      elim (Bool-cases (Breaker.allow (n.breakers e.breaker) r.allow_now r.allow_at).1) [
        | inl allowed ↦ rw allowed (on_generated-IsSound c r k e d (r.generate e) _ asked)
        | inr refused ↦ rw refused (fail_with-IsSound c r (some e) _ _ asked)
      ]
  on_selection-IsSound c r k remaining (Selection.failed d) n s = fail_with-IsSound c r none _ n s
  on_selection-IsSound c r k remaining Selection.crashed n s = s

  attempt_once-IsSound :
      (c : Context F) (r : Round F) (k : ℕ) (n : Node F)
      → IsSound n
      → IsSound (attempt_once c r k n).0
  unfolding attempt_once
  attempt_once-IsSound c r k n s =
      let remaining = Budget.remaining n.budgets c.req.agent_id in
      on_selection-IsSound c r k remaining (select (sources r n) c.pol remaining n.entries) n s

  attempts-IsSound :
      (c : Context F) (rounds : ℕ → Round F) (k attempt : ℕ) (last : FailureState F) (n : Node F)
      → IsSound n
      → IsSound (attempts c rounds k attempt last n).0
  attempts-IsSound c rounds zero attempt last n s = rw (attempts-zero c rounds attempt last n) s
  attempts-IsSound c rounds (suc k) attempt last n s =
      rw (attempts-after c rounds k attempt last n) (
        after-IsSound (attempts c rounds k) attempt (attempt_once c (rounds attempt) attempt n)
          (attempt_once-IsSound c (rounds attempt) attempt n s)
          (λ f m sound. attempts-IsSound c rounds k (attempt + 1) f m sound))
    where
      after-IsSound :
          (rest : ℕ → FailureState F → Node F → Node F × Ended F) (i : ℕ) (x : Node F × Verdict F)
          → IsSound x.0
          → ((f : FailureState F) (m : Node F) → IsSound m → IsSound (rest (i + 1) f m).0)
          → IsSound (after c rounds rest i x).0
      after-IsSound rest i (m, Verdict.accepted resp d) sound ih = sound
      after-IsSound rest i (m, Verdict.rejected f true) sound ih = sound
      after-IsSound rest i (m, Verdict.rejected f false) sound ih = ih f m sound
      after-IsSound rest i (m, Verdict.panicked) sound ih = sound

  conclude-IsSound :
      (c : Context F) (z : Closing) (x : Node F × Ended F)
      → IsSound x.0
      → IsSound (conclude c z x).0
  unfolding conclude give_up report_budget
  conclude-IsSound c z (n, Ended.answered resp d) s = s
  conclude-IsSound c z (n, Ended.gave_up f) s = elim (Bool-cases (is_budget f.phase)) [
    | inl spent ↦ rw spent (record { breakers = s.breakers; detector = s.detector })
    | inr other ↦ rw other (record { breakers = s.breakers; detector = s.detector })
  ]
  conclude-IsSound c z (n, Ended.crashed) s = s

  -- Whatever happens to a request, it leaves the breakers and the detector consistent.
  pub handle_chat-IsSound :
      (c : Context F) (rounds : ℕ → Round F) (z : Closing) (refusal : Option (List Reason))
      (n : Node F)
      → IsSound n
      → IsSound (handle_chat c rounds z refusal n).0
  unfolding handle_chat serve give_up
  handle_chat-IsSound c rounds z (some rs) n s = s
  handle_chat-IsSound c rounds z none n s =
      elim (Bool-cases (LoopDetector.is_looping n.detector c.fingerprint z.looping_now)) [
        | inl looping ↦ rw looping (record { breakers = s.breakers; detector = s.detector })
        | inr free ↦
            rw free
              (conclude-IsSound c z _ (attempts-IsSound c rounds (max_attempts c.pol) 1 blank n s))
      ]
