-- ===== src/Proxy/Verdicts.antt =====
-- How one attempt ends, on every path.
use signalmesh.Base.{
  ℕ, ◌≡◌, ◌≢◌, refl, ap, inl, inr, true, false, ◌&&◌, ◌||◌, none, some, List, [], ◌∷◌, arith,
  get_elem?, Bool-cases,
}
use signalmesh.Base.Float.{Float64, FloatOrder, lit, flt, fle}
use signalmesh.Providers.{ModelResponse}
use signalmesh.LoopDetector
use signalmesh.Breaker
use signalmesh.Budget
use signalmesh.Router.{ProviderEntry, Decision, Selection, select}
use signalmesh.Router.Gates.{IsAdmissible, allowed_iff}
use signalmesh.Router.Choice.{Outcome, select-Outcome}
use signalmesh.Validator.{Result, validate, default_contract}
use signalmesh.Reasons.{Reason, Phase}
use signalmesh.Proxy.State.{Node, write, Generated, Round, Context, Verdict}
use signalmesh.Proxy.Failure.{has_cost_reason, on_breaker}
use signalmesh.Proxy.Attempt.{
  no_validation, sources, attempt_once, on_selection, on_selected, on_no_provider, on_generated,
  on_response, accept, failed_call, failure,
}
use signalmesh.Proxy.Rejections.{
  SameBooks, IsRejected, Rejected, fail_with-Rejected, append_not_nil,
}

module _ {F : Type 0} ⦃fl : Float64 F⦄ (c : Context F) (r : Round F) (n : Node F) where
  abbrev pub budget_left : F
  budget_left = Budget.remaining n.budgets c.req.agent_id

  -- A response that the loop accepts: it satisfies the contract, the quality and the cost bound of
  -- the policy; it comes from a registered provider that the router may choose and whose breaker let the
  -- request through; its cost is charged to the agent, and the pattern's failures are forgotten.
  pub record IsAccepted (n' : Node F) (resp : ModelResponse F) (d : Decision F) : Type 0 where
    pub valid : (validate c.decode resp.content default_contract).valid ≡ true
    pub quality :
        flt (validate c.decode resp.content default_contract).score c.pol.minimum_quality_score
        ≡ false
    pub cost :
        flt (lit 0 0) c.pol.max_cost_usd ≡ true → flt c.pol.max_cost_usd resp.estimated_cost ≡ false
    pub charged : n'.budgets ≡ Budget.record_cost n.budgets c.req.agent_id resp.estimated_cost
    pub forgotten : n'.detector ≡ LoopDetector.record_success n.detector c.fingerprint
    pub entries : n'.entries ≡ n.entries
    pub escalator : n'.escalator ≡ n.escalator
    pub reporter : n'.reporter ≡ n.reporter
    pub entry : ProviderEntry F
    pub index : ℕ
    pub registered : get_elem? n.entries index ≡ some entry
    pub admissible : IsAdmissible (sources r n) c.pol budget_left entry
    pub let_through : (Breaker.allow (n.breakers entry.breaker) r.allow_now r.allow_at).1 ≡ true
    pub generated : r.generate entry ≡ Generated.response resp
    pub selected : d.selected_provider ≡ entry.provider
    pub fallback : d.fallback_used ≡ entry.is_fallback

  abbrev pub IsVerdict : ℕ → Node F × Verdict F → Type 0
  IsVerdict attempt (n', Verdict.accepted resp d) = IsAccepted n' resp d
  IsVerdict attempt (n', Verdict.rejected f stop) = IsRejected c r n attempt n' f stop
  IsVerdict attempt (n', Verdict.panicked) = ⊥

  Rejected-IsVerdict :
      (attempt : ℕ) (x : Node F × Verdict F) → Rejected c r n attempt x → IsVerdict attempt x
  Rejected-IsVerdict attempt (n', Verdict.rejected f stop) h = h
  Rejected-IsVerdict attempt (n', Verdict.accepted resp d) h = absurd h
  Rejected-IsVerdict attempt (n', Verdict.panicked) h = absurd h

  same : SameBooks n n
  same = record {
    entries = refl;
    detector = refl;
    budgets = refl;
    escalator = refl;
    reporter = refl;
  }

  on_no_provider-IsVerdict :
      (attempt : ℕ) (remaining : F) (d : Decision F)
      → d.reason_codes ≢ []
      → IsVerdict attempt (on_no_provider c r attempt remaining d n)
  unfolding on_no_provider
  on_no_provider-IsVerdict attempt remaining d h =
      Rejected-IsVerdict attempt _
        (elim (Bool-cases (has_cost_reason d || fle remaining (lit 0 0))) [
          | inl spent ↦ rw spent (
              fail_with-Rejected c r n none _ n same (λ q. cc) (λ q. cc)
                (append_not_nil d.reason_codes (Reason.budget_exhausted ∷ []) (λ q. cc)))
          | inr left ↦ rw left (fail_with-Rejected c r n none _ n same (λ q. cc) (λ q. cc) h)
        ])

  module _ (e : ProviderEntry F) (d : Decision F) (attempt : ℕ) (n1 : Node F)
      (s : SameBooks n n1) where
    failed_call-IsVerdict :
        (phase : Phase) (v : Result F) (x : Reason) (xs : List Reason)
        → phase ≢ Phase.unset
        → phase ≢ Phase.agent_loop
        → IsVerdict attempt (failed_call c r e (failure attempt e d phase v (x ∷ xs)) n1)
    unfolding failed_call
    failed_call-IsVerdict phase v x xs p a = Rejected-IsVerdict attempt _ (
        fail_with-Rejected c r n (some e) (failure attempt e d phase v (x ∷ xs))
          (on_breaker Breaker.record_failure e r.outcome_at n1)
          (record {
            entries = s.entries;
            detector = s.detector;
            budgets = s.budgets;
            escalator = s.escalator;
            reporter = s.reporter;
          })
          p a (append_not_nil d.reason_codes (x ∷ xs) (λ q. cc)))

    -- The place of the entry.
    abbrev Registered : Type 0
    Registered = (i : ℕ) × (get_elem? n.entries i ≡ some e)

    accept-IsVerdict :
        (resp : ModelResponse F)
        → (validate c.decode resp.content default_contract).valid ≡ true
        → flt (validate c.decode resp.content default_contract).score c.pol.minimum_quality_score
          ≡ false
        → (flt (lit 0 0) c.pol.max_cost_usd && flt c.pol.max_cost_usd resp.estimated_cost) ≡ false
        → Registered
        → IsAdmissible (sources r n) c.pol budget_left e
        → (Breaker.allow (n.breakers e.breaker) r.allow_now r.allow_at).1 ≡ true
        → r.generate e ≡ Generated.response resp
        → d.selected_provider ≡ e.provider
        → d.fallback_used ≡ e.is_fallback
        → IsVerdict attempt (accept c r e d resp n1)
    unfolding accept
    accept-IsVerdict resp v q m (i, reg) adm lt g sp fb = record {
      valid = v;
      quality = q;
      cost = λ pos'. ground arith;
      charged = rw s.budgets refl;
      forgotten = rw s.detector refl;
      entries = s.entries;
      escalator = s.escalator;
      reporter = s.reporter;
      entry = e;
      index = i;
      registered = reg;
      admissible = adm;
      let_through = lt;
      generated = g;
      selected = sp;
      fallback = fb;
    }

    module _ (reg : Registered) (adm : IsAdmissible (sources r n) c.pol budget_left e)
        (lt : (Breaker.allow (n.breakers e.breaker) r.allow_now r.allow_at).1 ≡ true)
        (sp : d.selected_provider ≡ e.provider) (fb : d.fallback_used ≡ e.is_fallback) where
      on_response-IsVerdict :
          (resp : ModelResponse F)
          → r.generate e ≡ Generated.response resp
          → IsVerdict attempt (on_response c r attempt e d resp n1)
      unfolding on_response
      on_response-IsVerdict resp g =
          let v = validate c.decode resp.content default_contract in
          elim (Bool-cases v.valid) [
            | inr bad ↦ simp bad (failed_call-IsVerdict Phase.semantic v _ _ (λ q. cc) (λ q. cc))
            | inl good ↦ elim (Bool-cases (flt v.score c.pol.minimum_quality_score)) [
              | inl low ↦
                  simp (good, low) (failed_call-IsVerdict Phase.quality v _ _ (λ q. cc) (λ q. cc))
              | inr fine ↦
                  elim (Bool-cases (
                    flt (lit 0 0) c.pol.max_cost_usd
                    && flt c.pol.max_cost_usd resp.estimated_cost)) [
                      | inl dear ↦
                          simp (good, fine, dear)
                            (failed_call-IsVerdict Phase.cost v _ _ (λ q. cc) (λ q. cc))
                      | inr cheap ↦
                          simp (good, fine, cheap)
                            (accept-IsVerdict resp good fine cheap reg adm lt g sp fb)
                    ]
            ]
          ]

      on_generated-IsVerdict :
          (x : Generated F)
          → r.generate e ≡ x
          → IsVerdict attempt (on_generated c r attempt e d x n1)
      unfolding on_generated
      on_generated-IsVerdict (Generated.response resp) g = on_response-IsVerdict resp g
      on_generated-IsVerdict Generated.deadline_exceeded g =
          failed_call-IsVerdict Phase.timeout no_validation _ _ (λ q. cc) (λ q. cc)
      on_generated-IsVerdict Generated.generation_error g =
          failed_call-IsVerdict Phase.generation no_validation _ _ (λ q. cc) (λ q. cc)

  on_selection-IsVerdict :
      (attempt : ℕ) (sel : Selection F)
      → Outcome (sources r n) c.pol budget_left n.entries sel
      → IsVerdict attempt (on_selection c r attempt budget_left sel n)
  unfolding on_selection on_selected
  on_selection-IsVerdict attempt (Selection.selected e d) h =
      elim (Bool-cases (Breaker.allow (n.breakers e.breaker) r.allow_now r.allow_at).1) [
        | inl lt ↦ rw lt (
            on_generated-IsVerdict e d attempt _ moved (h.index, h.stored)
              ((allowed_iff (sources r n) c.pol budget_left e).0 h.allowed) lt
              (ap (λ x. x.selected_provider) h.explained) (ap (λ x. x.fallback_used) h.explained)
              (r.generate e) refl)
        | inr shut ↦ rw shut (
            Rejected-IsVerdict attempt _ (
              fail_with-Rejected c r n (some e)
                (failure attempt e d Phase.circuit no_validation
                  (Reason.circuit_breaker_rejected ∷ []))
                _ moved (λ q. cc) (λ q. cc)
                (append_not_nil d.reason_codes (Reason.circuit_breaker_rejected ∷ []) (λ q. cc))))
      ]
    where
      moved : SameBooks n (record n {
        breakers =
            write n.breakers e.breaker
              (Breaker.allow (n.breakers e.breaker) r.allow_now r.allow_at).0;
      })
      moved = record {
        entries = refl;
        detector = refl;
        budgets = refl;
        escalator = refl;
        reporter = refl;
      }
  on_selection-IsVerdict attempt (Selection.failed d) h =
      on_no_provider-IsVerdict attempt budget_left d (λ q. cc (h.2))
  on_selection-IsVerdict attempt Selection.crashed h = absurd h

  -- Whatever the outside does, an attempt ends in one of two ways: with a response that passed every
  -- test, or with an explained failure that costs nothing; it never reads out of range.
  pub attempt_once-IsVerdict :
      FloatOrder F → (attempt : ℕ) → IsVerdict attempt (attempt_once c r attempt n)
  unfolding attempt_once
  attempt_once-IsVerdict o attempt =
      on_selection-IsVerdict attempt (select (sources r n) c.pol budget_left n.entries)
        (select-Outcome (sources r n) c.pol budget_left o n.entries)
