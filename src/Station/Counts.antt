-- ===== src/Station/Counts.antt =====
-- The books of the middleware against the answers of the handler, over any requests.
use signalmesh.Base.{
  ℕ, ◌+◌, ◌≤◌, ◌≡◌, ap, refl, Bool, true, false, Option, none, some, [], ◌∷◌, String, arith, length,
  length-append, str_eq,
}
use signalmesh.Base.Float.{Float64, FloatOrder}
use signalmesh.Providers.{ModelRequest}
use signalmesh.Reasons.{Phase}
use signalmesh.Router.{Decision}
use signalmesh.Escalation.{Escalation}
use signalmesh.DecisionLog.{add}
use signalmesh.Metrics.{DecisionRecord, decision_of, is_success, wrap}
use signalmesh.Proxy.State.{Node, Round, Context, FailureState, Answer}
use signalmesh.Proxy.Chat.{handle_chat}
use signalmesh.Proxy.Answers.{IsServed}
use signalmesh.Proxy.Guarantees.{handle_chat-IsServed}
use signalmesh.Proxy.Response.{
  Headers, Response, bool_text, phase_header, with_decision, with_escalation, write_success,
  write_failed, respond,
}
use signalmesh.Proxy.Entry.{
  Packages, context_of, first_headers, handle_body, handle_request, identified,
}
use signalmesh.Station.{Station, Exchange, served_of, observe, exchange}
use signalmesh.Station.Shown.{
  summary, used_fallback, is_some, one_if, IsShown, IsCounted, IsLogged, shown-IsCounted,
  shown-IsLogged,
}

bool_text_lem : (b : Bool) → str_eq (bool_text b) "true" ≡ b
bool_text_lem true = refl
bool_text_lem false = refl

phase_header_named : (p : Phase) → str_eq (phase_header p) "" ≡ false
phase_header_named Phase.unset = refl
phase_header_named _ = refl

error_fails : (status : ℕ) → 400 ≤ status → is_success status ≡ false
unfolding is_success
error_fails status h = ground arith

module _ {F : Type 0} ⦃fl : Float64 F⦄ (env : Packages F) where
  -- What the decision and the escalation of a failure add to headers without them.
  tagged :
      (hs : Headers) (d : Option (Decision F)) (e : Option (Escalation F))
      → hs.fallback ≡ ""
      → hs.escalation ≡ ""
      → let h = with_escalation e (with_decision d hs) in
        (h.phase ≡ hs.phase)
        × (str_eq h.fallback "true" ≡ used_fallback d)
        × (str_eq h.escalation "true" ≡ is_some e)
  tagged hs none none f g = (refl, ap (λ v. str_eq v "true") f, ap (λ v. str_eq v "true") g)
  tagged hs none (some x) f g = (refl, ap (λ v. str_eq v "true") f, refl)
  tagged hs (some d) none f g = (refl, bool_text_lem d.fallback_used, ap (λ v. str_eq v "true") g)
  tagged hs (some d) (some x) f g = (refl, bool_text_lem d.fallback_used, refl)

  failed-IsShown :
      (c : Context F) (status : ℕ) (f : FailureState F) (esc : Option (Escalation F))
      → 400 ≤ status
      → IsShown
          (write_failed c.req.request_id status f esc (first_headers env c))
          (summary (Answer.failure status f esc))
  unfolding write_failed first_headers
  failed-IsShown c status f esc h =
      let hs = record (first_headers env c) { phase = phase_header f.phase } in
      let tags = tagged hs f.decision esc refl refl in
      record {
        status = refl;
        outcome = tags.0;
        named = phase_header_named f.phase;
        fallback = tags.1;
        escalated = tags.2;
        reasons = refl;
        accepted = error_fails status h;
      }

  -- There is a response, which shows what the answer is.
  abbrev pub IsResponse : Option (Response F) → Answer F → Type 0
  IsResponse none a = ⊥
  IsResponse (some r) a = IsShown r (summary a)

  pub served-IsResponse :
      (c : Context F) (rounds : ℕ → Round F) (n : Node F) (x : Node F × Answer F)
      → IsServed c rounds n x
      → IsResponse (respond env.formats c (first_headers env c) x) x.1
  unfolding respond write_success first_headers is_success
  served-IsResponse c rounds n (n', Answer.success resp d) h = record {
    status = refl;
    outcome = refl;
    named = refl;
    fallback = bool_text_lem d.fallback_used;
    escalated = refl;
    reasons = refl;
    accepted = refl;
  }
  served-IsResponse c rounds n (n', Answer.failure status f esc) h =
      failed-IsShown c status f esc h.is_error
  served-IsResponse c rounds n (n', Answer.panic) h = absurd h

  -- The escalations that an answer adds.
  pub escalations-served :
      (c : Context F) (rounds : ℕ → Round F) (n : Node F) (x : Node F × Answer F)
      → IsServed c rounds n x
      → length x.0.escalator.items ≡ length n.escalator.items + one_if (summary x.1).escalated
  escalations-served c rounds n (n', Answer.success resp d) h =
      omega (arith, ap (λ e. length e.items) h.escalator)
  escalations-served c rounds n (n', Answer.failure status f none) h =
      omega (arith, ap (λ e. length e.items) (h.silent refl))
  escalations-served c rounds n (n', Answer.failure status f (some e)) h =
      omega (arith, ap length (h.recorded e refl), length-append n.escalator.items (e ∷ []))
  escalations-served c rounds n (n', Answer.panic) h = absurd h

module _ {F : Type 0} ⦃fl : Float64 F⦄ (env : Packages F) (text : ℕ → String) where
  -- What the answer of a request adds to the books.
  pub record IsBooked (s s' : Station F) (a : Answer F) : Type 0 where
    pub counted : IsCounted s.metrics s'.metrics (summary a)
    pub entry : DecisionRecord
    pub added : s'.decisions ≡ add s.decisions entry
    pub logged : IsLogged entry (summary a)
    pub escalations :
        s'.metrics.escalations_total + length s.node.escalator.items
        ≡ s.metrics.escalations_total + length s'.node.escalator.items

  -- The context that a request with a body is served in.
  abbrev pub context_for : Exchange F → ModelRequest F → Context F
  context_for x req = context_of env (identified env req x.incoming.named_at) x.incoming.started_at

  -- The answer of the handler.
  abbrev pub answer_to : Station F → Exchange F → ModelRequest F → Node F × Answer F
  answer_to s x req = handle_chat (context_for x req) x.rounds x.closing x.refusal s.node

  pub handled :
      (s : Station F) (x : Exchange F) (req : ModelRequest F)
      → str_eq x.incoming.method "POST" ≡ true
      → x.incoming.body ≡ some req
      → let c = context_for x req in
        exchange env text s x
        ≡ observe env text x s
            ((answer_to s x req).0, respond env.formats c (first_headers env c) (answer_to s x req))
  unfolding exchange handle_request handle_body
  handled s x req post body = rw (post, body) refl

  observed-IsBooked :
      (s : Station F) (x : Exchange F) (o : Option (Response F)) (y : Node F × Answer F)
      → IsResponse env o y.1
      → length y.0.escalator.items ≡ length s.node.escalator.items + one_if (summary y.1).escalated
      → IsBooked s (observe env text x s (y.0, o)) y.1
  unfolding wrap
  observed-IsBooked s x none y shown e = absurd shown
  observed-IsBooked s x (some r) y shown e =
      let counted =
        shown-IsCounted text s.metrics s.decisions r (summary y.1) x.start x.ended x.logged shown in
      record {
        counted = counted;
        entry = decision_of text (served_of r x.start x.ended x.logged);
        added = refl;
        logged = shown-IsLogged text r (summary y.1) x.start x.ended x.logged shown;
        escalations = omega (arith, counted.escalations, e);
      }

  -- One round.
  pub exchange-IsBooked :
      FloatOrder F
      → (s : Station F) (x : Exchange F) (req : ModelRequest F)
      → str_eq x.incoming.method "POST" ≡ true
      → x.incoming.body ≡ some req
      → IsBooked s (exchange env text s x) (answer_to s x req).1
  exchange-IsBooked o s x req post body =
      let c = context_for x req in
      let served = handle_chat-IsServed c x.rounds o x.closing x.refusal s.node in
      rw (handled s x req post body) (
        observed-IsBooked s x _ (answer_to s x req)
          (served-IsResponse env c x.rounds s.node (answer_to s x req) served)
          (escalations-served env c x.rounds s.node (answer_to s x req) served))
