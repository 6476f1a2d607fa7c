-- ===== src/Proxy/Answers.antt =====
-- services/signalmesh-node/internal/proxy/handler.go: what an answer is, and what reporting a failure
-- does.
use signalmesh.Base.{
  ℕ, ◌≤◌, ◌≡◌, ◌≢◌, refl, ap, ◌∙◌, true, false, Option, none, some, List, [], ◌∷◌, ◌++◌, arith,
  Bool-cases, inl, inr, get_elem?,
}
use signalmesh.Base.Float.{Float64, lit, flt, fle}
use signalmesh.Providers.{ModelResponse}
use signalmesh.Budget
use signalmesh.Router.{Decision, ProviderEntry, health_of}
use signalmesh.Validator.{validate, default_contract}
use signalmesh.Incident
use signalmesh.Escalation.{is_budget, Escalation, Escalator, FailureInfo, consider}
use package.signalmesh.Escalation as Escalations
use signalmesh.Escalation.Triggers.{IsAnswer, needs_human, loop_needs_human, consider-IsAnswer}
use signalmesh.Reasons.{Reason, Phase}
use signalmesh.Proxy.State.{Generated, Node, Round, Context, FailureState, Answer}
use signalmesh.Proxy.Attempt.{sources}
use signalmesh.Proxy.Chat.{
  status_code, explained, write_failure, with_attention, give_up, report_budget, loop_failure,
}

explained_not_nil : (rs : List Reason) → explained rs ≢ []
explained_not_nil [] = λ e. cc
explained_not_nil (r ∷ rs) = λ e. cc

status_code_error : (p : Phase) → 400 ≤ status_code p
status_code_error Phase.timeout = omega arith
status_code_error _ = omega arith

module _ {F : Type 0} ⦃fl : Float64 F⦄ (c : Context F) (rounds : ℕ → Round F) where
  -- A response that is delivered: one attempt got it from a registered provider that is permitted as
  -- a fallback if it is one, is not UNHEALTHY in what the attempt reads, and whose cost is within the
  -- bound of the policy and what remained of the budget before the request, which pays for no cost
  -- at all once it is negative; the response passes every test; its cost is charged to the agent.
  pub record IsDelivered (n n' : Node F) (resp : ModelResponse F) (d : Decision F) : Type 0 where
    pub valid : (validate c.decode resp.content default_contract).valid ≡ true
    pub quality :
        flt (validate c.decode resp.content default_contract).score c.pol.minimum_quality_score
        ≡ false
    pub cost :
        flt (lit 0 0) c.pol.max_cost_usd ≡ true → flt c.pol.max_cost_usd resp.estimated_cost ≡ false
    pub number : ℕ
    pub entry : ProviderEntry F
    pub index : ℕ
    pub registered : get_elem? n.entries index ≡ some entry
    pub generated : (rounds number).generate entry ≡ Generated.response resp
    pub selected : d.selected_provider ≡ entry.provider
    pub fallback : d.fallback_used ≡ true → c.pol.allow_local_fallback ≡ true
    pub not_unhealthy : (health_of (sources (rounds number) n) entry.provider).status ≢ "UNHEALTHY"
    pub free_if_overdrawn :
        flt (Budget.remaining n.budgets c.req.agent_id) (lit 0 0) ≡ true
        → flt (lit 0 0) entry.cost_usd ≡ false
    pub within_request :
        flt (lit 0 0) c.pol.max_cost_usd ≡ true → flt c.pol.max_cost_usd entry.cost_usd ≡ false
    pub affordable :
        fle (lit 0 0) (Budget.remaining n.budgets c.req.agent_id) ≡ true
        → flt (Budget.remaining n.budgets c.req.agent_id) entry.cost_usd ≡ false
    pub charged : n'.budgets ≡ Budget.record_cost n.budgets c.req.agent_id resp.estimated_cost
    pub escalator : n'.escalator ≡ n.escalator

  -- A failure that is reported: nothing is charged, the status is that of the phase and an error, a
  -- reason is given, and the escalations grow by the one in the answer, if there is one.
  pub record IsReported (n n' : Node F) (status : ℕ) (f : FailureState F)
      (esc : Option (Escalation F)) : Type 0 where
    pub budgets : n'.budgets ≡ n.budgets
    pub phased : f.phase ≢ Phase.unset
    pub status_is : status ≡ status_code f.phase
    pub is_error : 400 ≤ status
    pub reasoned : f.reason_codes ≢ []
    pub silent : esc ≡ none → n'.escalator ≡ n.escalator
    pub recorded :
        (x : Escalation F) → esc ≡ some x → n'.escalator.items ≡ n.escalator.items ++ x ∷ []
    pub loop_escalates : f.phase ≡ Phase.agent_loop → esc ≢ none

  abbrev pub IsServed : Node F → Node F × Answer F → Type 0
  IsServed n (n', Answer.success resp d) = IsDelivered n n' resp d
  IsServed n (n', Answer.failure status f esc) = IsReported n n' status f esc
  IsServed n (n', Answer.panic) = ⊥

  -- The case of a failure alone.
  abbrev pub IsReportedBy : Node F → Node F × Answer F → Type 0
  IsReportedBy n (n', Answer.failure status f esc) = IsReported n n' status f esc
  IsReportedBy n _ = ⊥

  -- The answer to a pattern that is looping.
  abbrev pub IsRefusal : Node F → Node F × Answer F → Type 0
  IsRefusal n (n', Answer.failure status f esc) =
      (status ≡ 429)
      × (esc ≢ none)
      × (n'.breakers ≡ n.breakers)
      × (n'.budgets ≡ n.budgets)
      × (n'.detector ≡ n.detector)
      × (n'.reporter ≡ n.reporter)
  IsRefusal n _ = ⊥

  abbrev pub info : FailureState F → FailureInfo F
  info f = record {
    phase = f.phase;
    provider = f.provider;
    attempt = f.attempt;
    validation = f.validation;
    reason_codes = f.reason_codes;
  }

  -- The failure as the client gets it, with the escalator's answer.
  abbrev pub reported :
      FailureState F → Node F → Escalator F × Option (Escalation F) → Node F × Answer F
  reported f n (e, esc) = (record n { escalator = e }, write_failure (with_attention f esc) esc)

  pub give_up-reported :
      (stamp : Escalations.Stamp) (f : FailureState F) (n : Node F)
      → give_up c stamp f n ≡ reported f n (consider n.escalator c.req c.pol (info f) stamp)
  unfolding give_up
  give_up-reported stamp f n = refl

  loop_not_silent :
      (f : FailureState F)
      → f.phase ≡ Phase.agent_loop
      → needs_human c.req c.pol (info f) ≡ false
      → ⊥
  loop_not_silent f q h = cc (h, loop_needs_human c.req c.pol (info f) q)

  reported-IsReportedBy :
      (stamp : Escalations.Stamp) (f : FailureState F) (n : Node F)
      (x : Escalator F × Option (Escalation F))
      → f.phase ≢ Phase.unset
      → IsAnswer c.req c.pol (info f) n.escalator stamp x
      → IsReportedBy n (reported f n x)
  unfolding write_failure
  reported-IsReportedBy stamp f n (e, none) p h = record {
    budgets = refl;
    phased = p;
    status_is = refl;
    is_error = status_code_error f.phase;
    reasoned = explained_not_nil f.reason_codes;
    silent = λ _. h.0;
    recorded = λ x q. cc;
    loop_escalates = λ q _. loop_not_silent f q h.1;
  }
  reported-IsReportedBy stamp f n (e, some x) p h = record {
    budgets = refl;
    phased = p;
    status_is = refl;
    is_error = status_code_error f.phase;
    reasoned = explained_not_nil (f.reason_codes ++ Reason.human_attention_required ∷ []);
    silent = λ q. cc;
    recorded = λ y q. h.1 ∙ ap (λ z. n.escalator.items ++ z ∷ []) (some_eq q);
    loop_escalates = λ q z. cc;
  }
    where
      some_eq : {y : Escalation F} → some x ≡ some y → x ≡ y
      some_eq q = cc

  pub reported-IsRefusal :
      (n : Node F) (x : Escalator F × Option (Escalation F))
      → x.1 ≢ none
      → IsRefusal n (reported loop_failure n x)
  unfolding write_failure
  reported-IsRefusal n (e, none) h = absurd (h refl)
  reported-IsRefusal n (e, some x) h = (refl, h, refl, refl, refl, refl)

  pub report_budget-accounts :
      (stamp : Incident.Stamp) (f : FailureState F) (n : Node F)
      → ((report_budget c stamp f n).budgets ≡ n.budgets)
        × ((report_budget c stamp f n).escalator ≡ n.escalator)
  unfolding report_budget
  report_budget-accounts stamp f n = elim (Bool-cases (is_budget f.phase)) [
    | inl b ↦ rw b (refl, refl)
    | inr b ↦ rw b (refl, refl)
  ]

  pub give_up-IsReportedBy :
      (stamp : Escalations.Stamp) (f : FailureState F) (n : Node F)
      → f.phase ≢ Phase.unset
      → IsReportedBy n (give_up c stamp f n)
  give_up-IsReportedBy stamp f n p = rw (give_up-reported stamp f n) (
      reported-IsReportedBy stamp f n _ p
        (consider-IsAnswer c.req c.pol (info f) n.escalator stamp))
