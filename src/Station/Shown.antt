-- ===== src/Station/Shown.antt =====
-- What the middleware counts of an answer of `HandleChat`, whose headers are all that it sees.
use signalmesh.Base.{
  ℕ, ◌+◌, ◌≡◌, ◌∙◌, ap, not, str_eq, refl, Bool, true, false, ◌||◌, Option, none, some, List, [],
  ◌∷◌, String, map, arith, if◌then◌else◌,
}
use signalmesh.Base.Clock.{Time}
use signalmesh.Base.Text.{codes, codes_eq}
use signalmesh.Reasons.{Reason}
use signalmesh.Proxy.State.{Answer}
use signalmesh.Proxy.Response.{Response}
use signalmesh.Proxy.Response.{phase_header}
use signalmesh.Router.{Decision}
use signalmesh.DecisionLog.{DecisionLog}
use signalmesh.Base.Clock.{since}
use signalmesh.Metrics.{
  Metrics, contains, dropped, is_incident, DecisionRecord, decision_of, wrap, split_csv, is_success,
  count_if, record_request, count_reasons, status_of, on_calls, on_call,
}
use signalmesh.Station.{served_of}
use signalmesh.Metrics.Counting.{outcome-IsSame}
use signalmesh.Metrics.Joined.{reason_codes, header_of, split_csv-header_of}

-- Some reason passes a test.
abbrev pub has : (Reason → Bool) → List Reason → Bool
has test [] = false
has test (r ∷ rs) = test r || has test rs

abbrev pub is_semantic : Reason → Bool
is_semantic Reason.semantic_validation_failed = true
is_semantic _ = false

-- Admission dropped the request.
abbrev pub is_drop : Reason → Bool
is_drop Reason.admission_rejected = true
is_drop Reason.admission_queue_full = true
is_drop Reason.global_load_shedding = true
is_drop Reason.admission_timeout = true
is_drop _ = false

abbrev pub is_loop_or_budget : Reason → Bool
is_loop_or_budget Reason.agent_loop_detected = true
is_loop_or_budget Reason.budget_exhausted = true
is_loop_or_budget _ = false

abbrev is_named : String → Reason → Bool
is_named name r = codes_eq (reason_codes r) (codes name)

contains-map :
    (name : String) (rs : List Reason)
    → contains (map reason_codes rs) name ≡ has (is_named name) rs
unfolding contains
contains-map name [] = refl
contains-map name (r ∷ rs) = ground (arith, contains-map name rs)

semantic_named : (r : Reason) → is_named "SEMANTIC_VALIDATION_FAILED" r ≡ is_semantic r
unfolding codes_eq
semantic_named Reason.no_providers_registered = refl
semantic_named _ = refl

drop_named :
    (r : Reason)
    → (is_named "ADMISSION_REJECTED" r
        || is_named "ADMISSION_QUEUE_FULL" r
        || is_named "GLOBAL_LOAD_SHEDDING" r
        || is_named "ADMISSION_TIMEOUT" r)
      ≡ is_drop r
unfolding codes_eq
drop_named Reason.no_providers_registered = refl
drop_named _ = refl

incident_named :
    (r : Reason)
    → (is_named "AGENT_LOOP_DETECTED" r || is_named "BUDGET_EXHAUSTED" r) ≡ is_loop_or_budget r
unfolding codes_eq
incident_named Reason.no_providers_registered = refl
incident_named _ = refl

has-or :
    (s t : Reason → Bool) (rs : List Reason) → (has s rs || has t rs) ≡ has (λ r. s r || t r) rs
has-or s t [] = refl
has-or s t (r ∷ rs) = ground (arith, has-or s t rs)

has-same :
    (s t : Reason → Bool) → ((r : Reason) → s r ≡ t r) → (rs : List Reason) → has s rs ≡ has t rs
has-same s t same [] = refl
has-same s t same (r ∷ rs) = cc (same r, has-same s t same rs)

contains-semantic :
    (rs : List Reason)
    → contains (map reason_codes rs) "SEMANTIC_VALIDATION_FAILED" ≡ has is_semantic rs
contains-semantic rs = contains-map _ rs ∙ has-same _ is_semantic semantic_named rs

dropped-has : (rs : List Reason) → dropped (map reason_codes rs) ≡ has is_drop rs
dropped-has rs =
    rw
      (
        contains-map "ADMISSION_REJECTED" rs,
        contains-map "ADMISSION_QUEUE_FULL" rs,
        contains-map "GLOBAL_LOAD_SHEDDING" rs,
        contains-map "ADMISSION_TIMEOUT" rs,
        has-or (is_named "ADMISSION_REJECTED") (is_named "ADMISSION_QUEUE_FULL") rs,
        has-or _ (is_named "GLOBAL_LOAD_SHEDDING") rs,
        has-or _ (is_named "ADMISSION_TIMEOUT") rs,
      )
      (has-same _ is_drop drop_named rs)

is_incident-has : (rs : List Reason) → is_incident (map reason_codes rs) ≡ has is_loop_or_budget rs
is_incident-has rs =
    rw
      (
        contains-map "AGENT_LOOP_DETECTED" rs,
        contains-map "BUDGET_EXHAUSTED" rs,
        has-or (is_named "AGENT_LOOP_DETECTED") _ rs,
      )
      (has-same _ is_loop_or_budget incident_named rs)

-- What an answer is to an operator.
pub record Summary : Type 0 where
  pub status : ℕ
  pub accepted : Bool
  pub outcome : String
  pub fallback : Bool
  pub escalated : Bool
  pub reasons : List Reason

abbrev pub used_fallback : {F : Type 0} → Option (Decision F) → Bool
used_fallback none = false
used_fallback (some d) = d.fallback_used

abbrev pub is_some : {A : Type 0} → Option A → Bool
is_some none = false
is_some (some a) = true

abbrev pub summary : {F : Type 0} → Answer F → Summary
summary (Answer.success resp d) = record {
  status = 200;
  accepted = true;
  outcome = "accepted";
  fallback = d.fallback_used;
  escalated = false;
  reasons = d.reason_codes;
}
summary (Answer.failure status f esc) = record {
  status = status;
  accepted = false;
  outcome = phase_header f.phase;
  fallback = used_fallback f.decision;
  escalated = is_some esc;
  reasons = f.reason_codes;
}
summary Answer.panic = record {
  status = 0;
  accepted = false;
  outcome = "";
  fallback = false;
  escalated = false;
  reasons = [];
}

abbrev pub one_if : Bool → ℕ
one_if b = if b then 1 else 0

-- The counters after an answer.
pub record IsCounted (m m' : Metrics) (s : Summary) : Type 0 where
  pub requests : m'.requests_total ≡ m.requests_total + 1
  pub successes : m'.success_total ≡ m.success_total + one_if s.accepted
  pub failures : m'.failure_total ≡ m.failure_total + one_if (not s.accepted)
  pub fallbacks : m'.fallback_total ≡ m.fallback_total + one_if s.fallback
  pub semantic :
      m'.semantic_failures_total ≡ m.semantic_failures_total + one_if (has is_semantic s.reasons)
  pub escalations : m'.escalations_total ≡ m.escalations_total + one_if s.escalated
  pub incidents : m'.incidents_total ≡ m.incidents_total + one_if (has is_loop_or_budget s.reasons)
  pub dropped_ :
      m'.admission_dropped_total ≡ m.admission_dropped_total + one_if (has is_drop s.reasons)

-- The record of decisions of an answer.
pub record IsLogged (d : DecisionRecord) (s : Summary) : Type 0 where
  pub status : d.status ≡ s.status
  pub outcome : d.outcome ≡ s.outcome
  pub fallback : d.fallback_used ≡ s.fallback
  pub reasons : d.reason_codes ≡ map reason_codes s.reasons

-- A response whose headers say what a summary says.
pub record IsShown {F : Type 0} (r : Response F) (s : Summary) : Type 0 where
  pub status : r.status ≡ s.status
  pub outcome : r.headers.phase ≡ s.outcome
  pub named : str_eq s.outcome "" ≡ false
  pub fallback : str_eq r.headers.fallback "true" ≡ s.fallback
  pub escalated : str_eq r.headers.escalation "true" ≡ s.escalated
  pub reasons : r.headers.reasons ≡ header_of s.reasons
  pub accepted : is_success s.status ≡ s.accepted

pub shown-IsLogged :
    {F : Type 0} (text : ℕ → String) (r : Response F) (s : Summary) (start ended logged : Time)
    → IsShown r s
    → IsLogged (decision_of text (served_of r start ended logged)) s
unfolding decision_of status_of on_calls on_call
shown-IsLogged text r s start ended logged h = record {
  status = h.status;
  outcome = rw (h.outcome, h.named) refl;
  fallback = h.fallback;
  reasons = ap split_csv h.reasons ∙ split_csv-header_of s.reasons;
}

pub counted_if : {b b' : Bool} (n : ℕ) → b ≡ b' → count_if b n ≡ n + one_if b'
counted_if {b} {b'} n h = ground (arith, h)

pub shown-IsCounted :
    {F : Type 0} (text : ℕ → String) (m : Metrics) (d : DecisionLog DecisionRecord) (r : Response F)
    (s : Summary) (start ended logged : Time)
    → IsShown r s
    → IsCounted m (wrap text (m, d) (served_of r start ended logged)).0 s
unfolding wrap record_request count_reasons
shown-IsCounted text m d r s start ended logged h =
    let first =
      record_request m (since ended start) (is_success r.status)
        (str_eq r.headers.fallback "true") in
    let same = outcome-IsSame first r.headers.provider (is_success r.status) in
    let read = ap split_csv h.reasons ∙ split_csv-header_of s.reasons in
    let ok = ap is_success h.status ∙ h.accepted in
    record {
      requests = same.requests;
      successes = same.successes ∙ counted_if m.success_total ok;
      failures = same.failures ∙ counted_if m.failure_total (ap not ok);
      fallbacks = same.fallbacks ∙ counted_if m.fallback_total h.fallback;
      semantic =
          counted_if _
            (ap (λ x. contains x "SEMANTIC_VALIDATION_FAILED") read ∙ contains-semantic s.reasons)
          ∙ ap (λ n. n + one_if (has is_semantic s.reasons)) same.semantic;
      escalations = counted_if _ h.escalated ∙ ap (λ n. n + one_if s.escalated) same.escalated;
      incidents =
          counted_if _ (ap is_incident read ∙ is_incident-has s.reasons)
          ∙ ap (λ n. n + one_if (has is_loop_or_budget s.reasons)) same.incidents;
      dropped_ =
          counted_if _ (ap dropped read ∙ dropped-has s.reasons)
          ∙ ap (λ n. n + one_if (has is_drop s.reasons)) same.dropped_;
    }
