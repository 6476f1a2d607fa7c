-- ===== src/Metrics/Counting.antt =====
-- The counters agree with each other and with the requests.
use signalmesh.Base.{
  ℕ, ◌+◌, ◌-◌, ◌≤◌, ◌≡◌, refl, Bool, not, List, [], ◌∷◌, ◌++◌, String, arith, subst, sym, length,
  length-drop, str_eq, eq_iff, if◌then◌else◌, Bool-cases, inl, inr,
}
use signalmesh.Base.Clock.{Duration, since}
use signalmesh.Base.Maps.{lookup, lookup-insert}
use signalmesh.DecisionLog.{DecisionLog}
use signalmesh.Metrics.{
  Metrics, new_metrics, count_if, keep_latencies, record_request, counter, record_provider_outcome,
  Served, DecisionRecord, status_of, is_success, split_csv, count_reasons, wrap,
}

pub record IsConsistent (n : ℕ) (m : Metrics) : Type 0 where
  pub all_counted : m.requests_total ≡ n
  pub outcomes : m.success_total + m.failure_total ≡ n
  pub fallbacks : m.fallback_total ≤ n
  pub semantic : m.semantic_failures_total ≤ n
  pub escalated : m.escalations_total ≤ n
  pub incidents : m.incidents_total ≤ n
  pub dropped_within : m.admission_dropped_total ≤ n
  pub few_latencies : length m.latencies ≤ 1000
  pub providers :
      (p : String)
      → counter p m.provider_success + counter p m.provider_failures ≡ counter p m.provider_requests

length-keep_latencies : (ds : List Duration) → length (keep_latencies ds) ≤ 1000
unfolding keep_latencies
length-keep_latencies ds = ground (arith, length-drop (length ds - 1000) ds)

outcome_counted :
    (m : Metrics) (p q : String) (success : Bool)
    → counter q m.provider_success + counter q m.provider_failures ≡ counter q m.provider_requests
    → let m' = record_provider_outcome m p success in
      counter q m'.provider_success + counter q m'.provider_failures
      ≡ counter q m'.provider_requests
unfolding record_provider_outcome
outcome_counted m p q success h =
    let all = lookup-insert p q (counter p m.provider_requests + 1) m.provider_requests in
    let good =
      lookup-insert p q (count_if success (counter p m.provider_success)) m.provider_success in
    let bad =
      lookup-insert p q (count_if (not success) (counter p m.provider_failures))
        m.provider_failures in
    ground (arith, all, good, bad, h, eq_iff p q)

none_yet : (p : String) → counter p [] + counter p [] ≡ counter p []
unfolding lookup
none_yet p = refl

-- What the outcome of a provider leaves as it was.
pub record IsSame (m m' : Metrics) : Type 0 where
  pub requests : m'.requests_total ≡ m.requests_total
  pub successes : m'.success_total ≡ m.success_total
  pub failures : m'.failure_total ≡ m.failure_total
  pub fallbacks : m'.fallback_total ≡ m.fallback_total
  pub semantic : m'.semantic_failures_total ≡ m.semantic_failures_total
  pub escalated : m'.escalations_total ≡ m.escalations_total
  pub incidents : m'.incidents_total ≡ m.incidents_total
  pub dropped_ : m'.admission_dropped_total ≡ m.admission_dropped_total
  pub latencies : m'.latencies ≡ m.latencies

IsSame-refl : (m : Metrics) → IsSame m m
IsSame-refl m = record {
  requests = refl;
  successes = refl;
  failures = refl;
  fallbacks = refl;
  semantic = refl;
  escalated = refl;
  incidents = refl;
  dropped_ = refl;
  latencies = refl;
}

pub outcome-IsSame :
    (m : Metrics) (p : String) (success : Bool) → IsSame m (record_provider_outcome m p success)
unfolding record_provider_outcome
outcome-IsSame m p success = elim (Bool-cases (str_eq p "")) [
  | inl unnamed ↦ simp unnamed (IsSame-refl m)
  | inr named ↦ simp named (record {
    requests = refl;
    successes = refl;
    failures = refl;
    fallbacks = refl;
    semantic = refl;
    escalated = refl;
    incidents = refl;
    dropped_ = refl;
    latencies = refl;
  })
]

counted-IsConsistent :
    (m : Metrics) (n : ℕ) (duration : Duration) (success fallback : Bool) (p : String)
    (reasons : List (List ℕ)) (escalated : Bool)
    → IsConsistent n m
    → IsConsistent (n + 1) (
        count_reasons
          (record_provider_outcome (record_request m duration success fallback) p success)
          reasons
          escalated)
unfolding count_reasons record_request
counted-IsConsistent m n duration success fallback p reasons escalated c =
    let first = record_request m duration success fallback in
    let same = outcome-IsSame first p success in
    record {
      all_counted = omega (arith, same.requests, c.all_counted);
      outcomes = ground (arith, same.successes, same.failures, c.outcomes);
      fallbacks = ground (arith, same.fallbacks, c.fallbacks);
      semantic = ground (arith, same.semantic, c.semantic);
      escalated = ground (arith, same.escalated, c.escalated);
      incidents = ground (arith, same.incidents, c.incidents);
      dropped_within = ground (arith, same.dropped_, c.dropped_within);
      few_latencies =
          subst (λ ds. length ds ≤ 1000) (sym same.latencies)
            (length-keep_latencies (m.latencies ++ duration ∷ []));
      providers = λ q. outcome_counted first p q success (c.providers q);
    }

abbrev pub chats : Served → ℕ → ℕ
chats s n = if str_eq s.path "/v1/chat/completions" then n + 1 else n

pub wrap-IsConsistent :
    (status_text : ℕ → String) (m : Metrics) (d : DecisionLog DecisionRecord) (s : Served) (n : ℕ)
    → IsConsistent n m
    → IsConsistent (chats s n) (wrap status_text (m, d) s).0
unfolding wrap
wrap-IsConsistent status_text m d s n c = elim (Bool-cases (str_eq s.path "/v1/chat/completions")) [
  | inl chat ↦ simp chat (
      counted-IsConsistent m n (since s.ended s.start) (is_success (status_of s))
        (str_eq s.fallback "true") s.provider (split_csv s.reasons) (str_eq s.escalation "true") c)
  | inr other ↦ simp other c
]

unfoldable pub wrap_all :
    (ℕ → String)
    → Metrics × DecisionLog DecisionRecord
    → List Served
    → Metrics × DecisionLog DecisionRecord
unfolding wrap
wrap_all status_text n [] = n
wrap_all status_text n (s ∷ ss) = wrap_all status_text (wrap status_text n s) ss

-- How many of the requests are of the chat endpoint, with those before.
unfoldable pub chat_count : List Served → ℕ → ℕ
chat_count [] n = n
chat_count (s ∷ ss) n = chat_count ss (chats s n)

all-IsConsistent :
    (status_text : ℕ → String) (ss : List Served) (m : Metrics) (d : DecisionLog DecisionRecord)
    (n : ℕ)
    → IsConsistent n m
    → IsConsistent (chat_count ss n) (wrap_all status_text (m, d) ss).0
unfolding wrap_all chat_count
all-IsConsistent status_text [] m d n c = c
all-IsConsistent status_text (s ∷ ss) m d n c =
    let next = wrap status_text (m, d) s in
    all-IsConsistent status_text ss next.0 next.1 (chats s n)
      (wrap-IsConsistent status_text m d s n c)

pub new-IsConsistent : IsConsistent 0 new_metrics
unfolding new_metrics
new-IsConsistent = record {
  all_counted = refl;
  outcomes = omega arith;
  fallbacks = omega arith;
  semantic = omega arith;
  escalated = omega arith;
  incidents = omega arith;
  dropped_within = omega arith;
  few_latencies = omega arith;
  providers = λ p. none_yet p;
}

-- After any requests have passed the middleware: all chat requests are counted, each as a success or
-- a failure, no other counter exceeds their number, at most 1000 latencies are kept, and for every
-- provider successes and failures add up to its requests.
pub wrap_all-IsConsistent :
    (status_text : ℕ → String) (ss : List Served) (d : DecisionLog DecisionRecord)
    → IsConsistent (chat_count ss 0) (wrap_all status_text (new_metrics, d) ss).0
wrap_all-IsConsistent status_text ss d =
    all-IsConsistent status_text ss new_metrics d 0 new-IsConsistent
