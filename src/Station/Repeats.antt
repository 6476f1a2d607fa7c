-- ===== src/Station/Repeats.antt =====
-- What the books say of a request whose pattern is looping already.
use signalmesh.Base.{ℕ, ◌+◌, ◌≡◌, ◌∙◌, ap, refl, true, Option, none, some, String, str_eq}
use signalmesh.Base.Float.{Float64, FloatOrder}
use signalmesh.Providers.{ModelRequest}
use signalmesh.LoopDetector
use signalmesh.Escalation.{Escalator, Escalation, consider}
use signalmesh.Proxy.State.{Node, Context, Answer, Round}
use signalmesh.Proxy.Chat.{Closing, loop_failure, serve, handle_chat, write_failure}
use signalmesh.Proxy.Answers.{IsRefusal, give_up-reported, reported, info}
use signalmesh.Proxy.Guarantees.{looping_refused}
use signalmesh.Proxy.Response.{Response}
use signalmesh.Proxy.Entry.{Packages}
use signalmesh.Station.{Station, Exchange, observe, exchange}
use signalmesh.Station.Shown.{has, is_loop_or_budget, summary, one_if}
use signalmesh.Station.Counts.{exchange-IsBooked, context_for, answer_to, handled}

module _ {F : Type 0} ⦃fl : Float64 F⦄ where
  loop_counts :
      (c : Context F) (rounds : ℕ → Round F) (n : Node F) (x : Escalator F × Option (Escalation F))
      → has is_loop_or_budget (summary (reported c rounds loop_failure n x).1).reasons ≡ true
  unfolding write_failure
  loop_counts c rounds n (e, none) = refl
  loop_counts c rounds n (e, some esc) = refl

  serve_counts :
      (c : Context F) (rounds : ℕ → Round F) (z : Closing) (n : Node F)
      → LoopDetector.is_looping n.detector c.fingerprint z.looping_now ≡ true
      → has is_loop_or_budget (summary (serve c rounds z n).1).reasons ≡ true
  unfolding serve
  serve_counts c rounds z n looping =
      rw (looping, give_up-reported c rounds z.escalation_stamp loop_failure n)
        (loop_counts c rounds n
          (consider n.escalator c.req c.pol (info c rounds loop_failure) z.escalation_stamp))

  refusal_reporter :
      (c : Context F) (rounds : ℕ → Round F) (n : Node F) (x : Node F × Answer F)
      → IsRefusal c rounds n x
      → x.0.reporter ≡ n.reporter
  refusal_reporter c rounds n (n', Answer.success resp d) h = absurd h
  refusal_reporter c rounds n (n', Answer.failure status f esc) h = h.5
  refusal_reporter c rounds n (n', Answer.panic) h = absurd h

  observe_node :
      (env : Packages F) (text : ℕ → String) (x : Exchange F) (s : Station F)
      (y : Node F × Option (Response F))
      → (observe env text x s y).node ≡ y.0
  observe_node env text x s (n, none) = refl
  observe_node env text x s (n, some r) = refl

  -- A request that is admitted while its pattern is looping is counted as an incident, but none is
  -- reported: the counter grows by one and the list of incidents stays as it is.
  pub repeat_counted :
      FloatOrder F
      → (env : Packages F) (text : ℕ → String) (s : Station F) (x : Exchange F)
        (req : ModelRequest F)
      → str_eq x.incoming.method "POST" ≡ true
      → x.incoming.body ≡ some req
      → x.refusal ≡ none
      → LoopDetector.is_looping s.node.detector
          (context_for env text x req).fingerprint
          x.closing.looping_now
        ≡ true
      → let s' = exchange env text s x in
        (s'.metrics.incidents_total ≡ s.metrics.incidents_total + 1)
        × (s'.node.reporter ≡ s.node.reporter)
  unfolding handle_chat
  repeat_counted o env text s x req post body admitted looping =
      let c = context_for env text x req in
      let booked = exchange-IsBooked env text o s x req post body in
      let y = serve c x.rounds x.closing s.node in
      let served = serve_counts c x.rounds x.closing s.node looping in
      let answered = admitted_answer in
      (
        booked.counted.incidents
            ∙ ap (λ b. s.metrics.incidents_total + one_if b)
                (ap (λ y. has is_loop_or_budget (summary y.1).reasons) answered ∙ served),
        rw (handled env text s x req post body) (
            ap (λ n. n.reporter) (observe_node env text x s _)
            ∙ ap (λ y. y.0.reporter) answered
            ∙ refusal_reporter c x.rounds s.node y
                (looping_refused c x.rounds x.closing s.node looping)),
      )
    where
      admitted_answer :
          answer_to env text s x req ≡ serve (context_for env text x req) x.rounds x.closing s.node
      admitted_answer = rw admitted refl
