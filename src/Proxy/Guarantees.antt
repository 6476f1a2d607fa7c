-- ===== src/Proxy/Guarantees.antt =====
-- What a client and an operator can rely on, whatever the providers and the clock do.
use signalmesh.Base.{
  ℕ, ◌≡◌, ◌≢◌, refl, sym, ap, ◌∙◌, subst, true, false, Option, none, some, List, [], ◌∷◌, ◌++◌,
  get_elem?, arith, Bool-cases, inl, inr,
}
use signalmesh.Base.Float.{Float64, FloatOrder, lit, flt, fle}
use signalmesh.Providers.{ModelResponse}
use signalmesh.LoopDetector
use signalmesh.Budget
use signalmesh.Router.{Decision, health_of}
use signalmesh.Escalation.{Escalation, Escalator, consider}
use signalmesh.Escalation.Triggers.{IsAnswer, loop_needs_human, consider-IsAnswer}
use signalmesh.Reasons.{Reason}
use signalmesh.Proxy.State.{Node, Round, Context, Ended, Answer}
use signalmesh.Proxy.Chat.{
  Closing, max_attempts, write_failure, report_budget, blank, loop_failure, conclude, serve,
  handle_chat,
}
use signalmesh.Proxy.Endings.{IsEnd, IsAnswered, attempts-IsEnd, max_attempts_lem}
use signalmesh.Proxy.Answers.{
  IsDelivered, IsServed, IsReportedBy, IsRefusal, info, give_up-reported, reported-IsRefusal,
  report_budget-accounts, give_up-IsReportedBy,
}

module _ {F : Type 0} ⦃fl : Float64 F⦄ (c : Context F) (rounds : ℕ → Round F) where
  -- Books that agree with those before.
  IsServed-same :
      (n m : Node F) (x : Node F × Answer F)
      → m.budgets ≡ n.budgets
      → m.escalator ≡ n.escalator
      → IsReportedBy c rounds m x
      → IsServed c rounds n x
  IsServed-same n m (n', Answer.success resp d) b e h = absurd h
  IsServed-same n m (n', Answer.failure status f esc) b e h = record {
    budgets = h.budgets ∙ b;
    phased = h.phased;
    status_is = h.status_is;
    is_error = h.is_error;
    reasoned = h.reasoned;
    silent = λ q. h.silent q ∙ e;
    recorded = λ x q. h.recorded x q ∙ ap (λ v. v.items ++ x ∷ []) e;
    loop_escalates = h.loop_escalates;
  }
  IsServed-same n m (n', Answer.panic) b e h = h

  answered-IsDelivered :
      (n n' : Node F) (resp : ModelResponse F) (d : Decision F)
      → IsAnswered c rounds n n' resp d
      → IsDelivered c rounds n n' resp d
  unfolding health_of
  answered-IsDelivered n n' resp d h = record {
    valid = h.accepted.valid;
    quality = h.accepted.quality;
    cost = h.accepted.cost;
    number = h.number;
    entry = h.accepted.entry;
    index = h.accepted.index;
    registered =
        ap (λ es. get_elem? es h.accepted.index) (sym h.untouched.entries) ∙ h.accepted.registered;
    not_unhealthy = h.accepted.admissible.not_unhealthy;
    free_if_overdrawn =
        subst
          (λ b.
            flt (Budget.remaining b c.req.agent_id) (lit 0 0) ≡ true
            → flt (lit 0 0) h.accepted.entry.cost_usd ≡ false)
          h.untouched.budgets h.accepted.admissible.free_if_overdrawn;
    within_request = h.accepted.admissible.within_request;
    generated = h.accepted.generated;
    selected = h.accepted.selected;
    fallback = λ q. h.accepted.admissible.trusted (sym h.accepted.fallback ∙ q);
    affordable =
        subst
          (λ b.
            fle (lit 0 0) (Budget.remaining b c.req.agent_id) ≡ true
            → flt (Budget.remaining b c.req.agent_id) h.accepted.entry.cost_usd ≡ false)
          h.untouched.budgets h.accepted.admissible.within_remaining;
    charged =
        h.accepted.charged
        ∙ ap (λ b. Budget.record_cost b c.req.agent_id resp.estimated_cost) h.untouched.budgets;
    escalator = h.accepted.escalator ∙ h.untouched.escalator;
  }

  conclude-IsServed :
      (z : Closing) (n : Node F) (x : Node F × Ended F)
      → IsEnd c rounds n x
      → IsServed c rounds n (conclude c z x)
  unfolding conclude
  conclude-IsServed z n (n', Ended.answered resp d) h = answered-IsDelivered n n' resp d h
  conclude-IsServed z n (n', Ended.gave_up f) h =
      let (b, e) = report_budget-accounts c rounds z.budget_stamp f n' in
      IsServed-same n (report_budget c z.budget_stamp f n') _ (b ∙ h.untouched.budgets)
        (e ∙ h.untouched.escalator)
        (give_up-IsReportedBy c rounds z.escalation_stamp f (report_budget c z.budget_stamp f n')
          h.phased)
  conclude-IsServed z n (n', Ended.crashed) h = absurd h

  serve-IsServed :
      FloatOrder F → (z : Closing) (n : Node F) → IsServed c rounds n (serve c rounds z n)
  unfolding serve
  serve-IsServed o z n =
      elim (Bool-cases (LoopDetector.is_looping n.detector c.fingerprint z.looping_now)) [
        | inl looping ↦ rw looping (
            IsServed-same n n _ refl refl
              (give_up-IsReportedBy c rounds z.escalation_stamp loop_failure n (λ q. cc)))
        | inr free ↦
            let (k, e, h) = max_attempts_lem c.pol in
            rw free (
              conclude-IsServed z n _ (
                attempts-IsEnd c rounds o (max_attempts c.pol) 1 blank n
                  (λ q. absurd (omega arith))))
      ]

  -- Whatever admission, clocks, health reports and providers do, a request is answered, without a
  -- panic, in one of two ways. Success: the response passes the contract, the quality and the cost
  -- bound; it comes from a registered provider that is not UNHEALTHY in what its attempt reads, is
  -- permitted as a fallback if it is one, and whose cost is within the bound of the request, if there
  -- is one, and within what remained of the budget before the request, and not positive if that was
  -- negative; and exactly the cost of the response is charged. Failure: nothing is charged, the status
  -- is the error of the failure's phase, a reason is given, an agent loop is escalated, and the
  -- escalator records exactly the escalation in the answer.
  pub handle_chat-IsServed :
      FloatOrder F
      → (z : Closing) (refusal : Option (List Reason)) (n : Node F)
      → IsServed c rounds n (handle_chat c rounds z refusal n)
  unfolding handle_chat write_failure
  handle_chat-IsServed o z none n = serve-IsServed o z n
  handle_chat-IsServed o z (some rs) n = record {
    budgets = refl;
    phased = λ q. cc;
    status_is = refl;
    is_error = omega arith;
    reasoned = λ q. cc;
    silent = λ q. refl;
    recorded = λ x q. cc;
    loop_escalates = λ q. cc;
  }

  -- A request whose pattern is looping is refused, whatever the providers would do: the answer is 429
  -- with an escalation, and breakers, budgets, detector and incidents stay as they are.
  pub looping_refused :
      (z : Closing) (n : Node F)
      → LoopDetector.is_looping n.detector c.fingerprint z.looping_now ≡ true
      → IsRefusal c rounds n (serve c rounds z n)
  unfolding serve
  looping_refused z n looping =
      rw (looping, give_up-reported c rounds z.escalation_stamp loop_failure n)
        (reported-IsRefusal c rounds n
          (consider n.escalator c.req c.pol (info c rounds loop_failure) z.escalation_stamp)
          (answer_some _ (
            consider-IsAnswer c.req c.pol (info c rounds loop_failure) n.escalator
              z.escalation_stamp)))
    where
      answer_some :
          (x : Escalator F × Option (Escalation F))
          → IsAnswer c.req c.pol (info c rounds loop_failure) n.escalator z.escalation_stamp x
          → x.1 ≢ none
      answer_some (e, none) h =
          cc (h.1, loop_needs_human c.req c.pol (info c rounds loop_failure) refl)
      answer_some (e, some x) h = λ q. cc
