-- ===== src/Station/History.antt =====
-- What holds of a running node after any history.
use signalmesh.Base.{
  ℕ, ◌+◌, ◌≡◌, ◌∙◌, ap, refl, sym, true, Option, none, some, List, [], ◌∷◌, String, arith, length,
  str_eq, ◌==◌, Bool-cases, inl, inr, Option-cases, ◌*◌,
}
use signalmesh.Base.Int.{pos}
use signalmesh.Base.Clock.{Time, second, since}
use signalmesh.Base.Float.{Float64, FloatOrder}
use signalmesh.Providers.{ModelRequest}
use signalmesh.Breaker.{Call}
use signalmesh.Breaker
use signalmesh.Breaker.Invariant as Breakers
use signalmesh.LoopDetector.Invariant as Detectors
use signalmesh.DecisionLog.{DecisionLog}
use signalmesh.Metrics.{
  Metrics, new_metrics, DecisionRecord, wrap, record_request, count_reasons, is_success, status_of,
}
use signalmesh.Metrics.Counting.{IsConsistent, outcome-IsSame, wrap-IsConsistent, new-IsConsistent}
use signalmesh.Proxy.State.{Node, Answer}
use signalmesh.Proxy.Guarantees.{handle_chat-IsServed}
use signalmesh.Proxy.Soundness.{IsSound, call-IsSound, handle_chat-IsSound}
use signalmesh.Proxy.Response.{Response, write_json_error, no_headers}
use signalmesh.Proxy.Entry.{Packages, handle_request}
use signalmesh.Station.{Station, Exchange, served_of, observe, exchange}
use signalmesh.Station.Shown.{one_if, summary, counted_if}
use signalmesh.Station.Counts.{
  IsResponse, served-IsResponse, escalations-served, context_for, answer_to, handled,
}
use signalmesh.Station.Startup.{
  Environment, Startup, Event, main_breakers, main_node, main_station, reset_both, happen, history,
}

module _ {F : Type 0} ⦃fl : Float64 F⦄ where
  -- After some requests: the breakers and the detector are consistent, every request is counted
  -- once, and the counter of escalations is the number of those that are kept.
  pub record IsRunning (requests : ℕ) (s : Station F) : Type 0 where
    pub sound : IsSound s.node
    pub books : IsConsistent requests s.metrics
    pub escalations : s.metrics.escalations_total ≡ length s.node.escalator.items

  wrap-escalations :
      (text : ℕ → String) (m : Metrics) (d : DecisionLog DecisionRecord) (r : Response F)
      (start ended logged : Time)
      → (wrap text (m, d) (served_of r start ended logged)).0.escalations_total
        ≡ m.escalations_total + one_if (str_eq r.headers.escalation "true")
  unfolding wrap count_reasons record_request
  wrap-escalations text m d r start ended logged =
      let first =
        record_request m (since ended start)
          (is_success (status_of (served_of r start ended logged)))
          (str_eq r.headers.fallback "true") in
      let same =
        outcome-IsSame first r.headers.provider
          (is_success (status_of (served_of r start ended logged))) in
      counted_if _ refl ∙ ap (λ n. n + one_if (str_eq r.headers.escalation "true")) same.escalated

  -- A response that tells of an escalation exactly when one is added.
  abbrev Tells : Station F → Node F × Option (Response F) → Type 0
  Tells s (n, none) = ⊥
  Tells s (n, some r) =
      length n.escalator.items
      ≡ length s.node.escalator.items + one_if (str_eq r.headers.escalation "true")

  observe-IsRunning :
      (env : Packages F) (text : ℕ → String) (x : Exchange F) (k : ℕ) (s : Station F)
      (y : Node F × Option (Response F))
      → IsSound y.0
      → Tells s y
      → IsRunning k s
      → IsRunning (k + 1) (observe env text x s y)
  observe-IsRunning env text x k s (n, none) sound tells h = absurd tells
  observe-IsRunning env text x k s (n, some r) sound tells h = record {
    sound = sound;
    books =
        wrap-IsConsistent text s.metrics s.decisions (served_of r x.start x.ended x.logged) k
          h.books;
    escalations =
        wrap-escalations text s.metrics s.decisions r x.start x.ended x.logged
        ∙ omega (arith, h.escalations, tells);
  }

  answer-Tells :
      (env : Packages F) (s : Station F) (o : Option (Response F)) (y : Node F × Answer F)
      → IsResponse env o y.1
      → length y.0.escalator.items ≡ length s.node.escalator.items + one_if (summary y.1).escalated
      → Tells s (y.0, o)
  answer-Tells env s none y shown e = shown
  answer-Tells env s (some r) y shown e =
      e ∙ ap (λ b. length s.node.escalator.items + one_if b) (sym shown.escalated)

  -- A request that is refused before its body is read.
  turned_away :
      (env : Packages F) (text : ℕ → String) (x : Exchange F) (k : ℕ) (s : Station F) (status : ℕ)
      (reasons : List String)
      → IsRunning k s
      → IsRunning
          (k + 1)
          (observe env text x s (s.node, some (write_json_error status reasons no_headers)))
  unfolding write_json_error
  turned_away env text x k s status reasons h =
      observe-IsRunning env text x k s (s.node, some (write_json_error status reasons no_headers))
        h.sound (omega arith) h

  exchange-IsRunning :
      FloatOrder F
      → (env : Packages F) (text : ℕ → String) (x : Exchange F) (k : ℕ) (s : Station F)
      → IsRunning k s
      → IsRunning (k + 1) (exchange env text s x)
  unfolding exchange handle_request
  exchange-IsRunning o env text x k s h = elim (Bool-cases (str_eq x.incoming.method "POST")) [
    | inr other ↦ rw other (turned_away env text x k s 405 ("METHOD_NOT_ALLOWED" ∷ []) h)
    | inl post ↦ elim (Option-cases x.incoming.body) [
      | inl garbled ↦
          rw (post, garbled) (turned_away env text x k s 400 ("INVALID_REQUEST_JSON" ∷ []) h)
      | inr (req, body) ↦ answered req post body
    ]
  ]
    where
      answered :
          (req : ModelRequest F)
          → str_eq x.incoming.method "POST" ≡ true
          → x.incoming.body ≡ some req
          → IsRunning (k + 1) (exchange env text s x)
      answered req post body =
          let c = context_for env text x req in
          let y = answer_to env text s x req in
          let served = handle_chat-IsServed c x.rounds o x.closing x.refusal s.node in
          rw (handled env text s x req post body) (
            observe-IsRunning env text x k s _
              (handle_chat-IsSound c x.rounds x.closing x.refusal s.node h.sound)
              (answer-Tells env s _ y (served-IsResponse env c x.rounds s.node y served)
                (escalations-served env c x.rounds s.node y served))
              h)

  -- How many events are requests.
  unfoldable pub request_count : List (Event F) → ℕ → ℕ
  request_count [] k = k
  request_count (Event.requested x ∷ xs) k = request_count xs (k + 1)
  request_count (Event.restored t u ∷ xs) k = request_count xs k
  request_count (Event.limited agent limit ∷ xs) k = request_count xs k

  reset_both-IsSound : (t u : Time) (n : Node F) → IsSound n → IsSound (reset_both t u n)
  unfolding Breaker.step
  reset_both-IsSound t u n s = call-IsSound _ 1 (Call.resets u) (call-IsSound n 0 (Call.resets t) s)

  history-IsRunning :
      FloatOrder F
      → (env : Packages F) (text : ℕ → String) (xs : List (Event F)) (k : ℕ) (s : Station F)
      → IsRunning k s
      → IsRunning (request_count xs k) (history env text s xs)
  unfolding history happen request_count
  history-IsRunning o env text [] k s h = h
  history-IsRunning o env text (Event.requested x ∷ xs) k s h =
      history-IsRunning o env text xs (k + 1) _ (exchange-IsRunning o env text x k s h)
  history-IsRunning o env text (Event.restored t u ∷ xs) k s h =
      history-IsRunning o env text xs k _ (record {
        sound = reset_both-IsSound t u s.node h.sound;
        books = h.books;
        escalations = h.escalations;
      })
  history-IsRunning o env text (Event.limited agent limit ∷ xs) k s h =
      history-IsRunning o env text xs k _ (record {
        sound = record { breakers = h.sound.breakers; detector = h.sound.detector };
        books = h.books;
        escalations = h.escalations;
      })

  -- The station that `main` builds.
  main_station-IsRunning : (e : Environment F) (t : Startup) → IsRunning 0 (main_station e t)
  unfolding main_station main_node main_breakers new_metrics
  main_station-IsRunning e t = record {
    sound = record {
      breakers = λ a. elim (Bool-cases (a == 0)) [
        | inl first ↦ rw first (Breakers.new-IsValid Breaker.default_config t.primary_made)
        | inr other ↦ rw other (Breakers.new-IsValid Breaker.default_config t.local_made)
      ];
      detector = Detectors.new-IsValid (pos 3) (pos (60 * second));
    };
    books = new-IsConsistent;
    escalations = refl;
  }

  -- Whatever the environment, after any sequence of requests, restores and budget changes on the node
  -- that main starts: every breaker and the loop detector are consistent, every request is counted
  -- once, as a success or as a failure, no other counter exceeds their number, and the counter of
  -- escalations is the number of escalations that are kept.
  pub history-main-IsRunning :
      FloatOrder F
      → (env : Packages F) (text : ℕ → String) (e : Environment F) (t : Startup)
        (xs : List (Event F))
      → IsRunning (request_count xs 0) (history env text (main_station e t) xs)
  history-main-IsRunning o env text e t xs =
      history-IsRunning o env text xs 0 (main_station e t) (main_station-IsRunning e t)
