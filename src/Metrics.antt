-- ===== src/Metrics.antt =====
-- services/signalmesh-node/internal/observability/metrics.go and middleware.go: the counters, the
-- latencies, and what is counted of a request. The counters are far from 2 ^ 63; additions to atomic
-- counters commute, so the model makes the calls for one request one after the other.
pub mod Counting
pub mod Joined
pub mod Reports
pub mod Exposed
pub mod Format
pub mod Percentiles
use signalmesh.Base.{
  ℕ, ◌+◌, ◌-◌, Bool, true, false, not, ◌&&◌, ◌||◌, Option, none, some, List, [], ◌∷◌, ◌++◌, String,
  length, drop, ltb, leb, str_eq, if◌then◌else◌,
}
use signalmesh.Base.Int.{ℤ, pos, negsuc, leb_ℤ, ltb_ℤ}
use signalmesh.Base.Clock.{Time, Duration, since, milliseconds}
use signalmesh.Base.Float.{Float64, lit, fmul, fdiv, of_int, to_int}
use signalmesh.Base.Maps.{Map, lookup, insert}
use signalmesh.Base.Sorting.{sort, at_index, clamp}
use signalmesh.Base.Text.{codes, codes_eq, split_commas, trimmed_parts, trim_space}
use signalmesh.DecisionLog.{DecisionLog, add}

pub record Metrics : Type 0 where
  pub requests_total : ℕ
  pub success_total : ℕ
  pub failure_total : ℕ
  pub fallback_total : ℕ
  pub semantic_failures_total : ℕ
  pub escalations_total : ℕ
  pub incidents_total : ℕ
  pub admission_dropped_total : ℕ
  pub latencies : List Duration
  pub provider_requests : Map ℕ
  pub provider_success : Map ℕ
  pub provider_failures : Map ℕ

unfoldable pub new_metrics : Metrics
new_metrics = record {
  requests_total = 0;
  success_total = 0;
  failure_total = 0;
  fallback_total = 0;
  semantic_failures_total = 0;
  escalations_total = 0;
  incidents_total = 0;
  admission_dropped_total = 0;
  latencies = [];
  provider_requests = [];
  provider_success = [];
  provider_failures = [];
}

-- `n.Add(1)` under a condition.
abbrev pub count_if : Bool → ℕ → ℕ
count_if b n = if b then n + 1 else n

-- Only the last 1000 latencies.
unfoldable pub keep_latencies : List Duration → List Duration
keep_latencies ds = if ltb 1000 (length ds) then drop (length ds - 1000) ds else ds

unfoldable pub record_request : Metrics → Duration → Bool → Bool → Metrics
unfolding keep_latencies
record_request m duration success fallback = record m {
  requests_total = m.requests_total + 1;
  success_total = count_if success m.success_total;
  failure_total = count_if (not success) m.failure_total;
  fallback_total = count_if fallback m.fallback_total;
  latencies = keep_latencies (m.latencies ++ duration ∷ []);
}

-- A counter that is not there yet is 0.
abbrev pub loaded : Option ℕ → ℕ
loaded none = 0
loaded (some n) = n

abbrev pub counter : String → Map ℕ → ℕ
counter provider counters = loaded (lookup provider counters)

unfoldable pub record_provider_outcome : Metrics → String → Bool → Metrics
record_provider_outcome m provider success = if str_eq provider "" then m else record m {
  provider_requests =
      insert provider (counter provider m.provider_requests + 1) m.provider_requests;
  provider_success =
      insert provider (count_if success (counter provider m.provider_success)) m.provider_success;
  provider_failures =
      insert provider (count_if (not success) (counter provider m.provider_failures))
        m.provider_failures;
}

-- `statusRecorder`: what the handler calls on the writer.
pub data WriterCall : Type 0 where
  write_header : ℕ → WriterCall
  write : WriterCall

pub record StatusRecorder : Type 0 where
  pub status : ℕ
  pub written : Bool

unfoldable pub on_call : StatusRecorder → WriterCall → StatusRecorder
on_call r (write_header code) = if r.written then r else record { status = code; written = true }
on_call r write = if not r.written then record { status = 200; written = true } else r

unfoldable pub on_calls : StatusRecorder → List WriterCall → StatusRecorder
unfolding on_call
on_calls r [] = r
on_calls r (c ∷ cs) = on_calls (on_call r c) cs

-- The code points of the values that stand between commas, trimmed, without the blank ones.
unfoldable pub split_csv : List ℕ → List (List ℕ)
unfolding trim_space codes_eq split_commas trimmed_parts
split_csv value =
    let trimmed = trim_space value in
    if codes_eq trimmed [] then [] else trimmed_parts (split_commas [] trimmed)

unfoldable pub contains : List (List ℕ) → String → Bool
unfolding codes_eq
contains [] value = false
contains (item ∷ items) value = codes_eq item (codes value) || contains items value

-- What a handler did with one request: the calls on the writer, and the headers at the end.
pub record Served : Type 0 where
  pub path : String
  pub calls : List WriterCall
  pub request_id : String
  pub agent : String
  pub task : String
  pub risk : String
  pub traffic_class : String
  pub provider : String
  pub phase : String
  pub fallback : String
  pub escalation : String
  pub reasons : List ℕ
  pub start : Time
  pub ended : Time
  pub logged : Time

pub record DecisionRecord : Type 0 where
  pub timestamp : Time
  pub request_id : String
  pub agent_id : String
  pub task_type : String
  pub risk_level : String
  pub traffic_class : String
  pub provider : String
  pub fallback_used : Bool
  pub status : ℕ
  pub outcome : String
  pub reason_codes : List (List ℕ)
  pub latency_ms : ℤ

unfoldable pub status_of : Served → ℕ
unfolding on_calls
status_of s = (on_calls (record { status = 200; written = false }) s.calls).status

unfoldable pub is_success : ℕ → Bool
is_success status = leb 200 status && ltb status 300

abbrev pub dropped : List (List ℕ) → Bool
dropped reasons =
    contains reasons "ADMISSION_REJECTED"
    || contains reasons "ADMISSION_QUEUE_FULL"
    || contains reasons "GLOBAL_LOAD_SHEDDING"
    || contains reasons "ADMISSION_TIMEOUT"

abbrev pub is_incident : List (List ℕ) → Bool
is_incident reasons = contains reasons "AGENT_LOOP_DETECTED" || contains reasons "BUDGET_EXHAUSTED"

-- The counters that depend on the reasons and the escalation.
unfoldable pub count_reasons : Metrics → List (List ℕ) → Bool → Metrics
unfolding contains
count_reasons m reasons escalated = record m {
  semantic_failures_total =
      count_if (contains reasons "SEMANTIC_VALIDATION_FAILED") m.semantic_failures_total;
  escalations_total = count_if escalated m.escalations_total;
  admission_dropped_total = count_if (dropped reasons) m.admission_dropped_total;
  incidents_total = count_if (is_incident reasons) m.incidents_total;
}

-- `http.StatusText` is an argument.
unfoldable pub decision_of : (ℕ → String) → Served → DecisionRecord
unfolding status_of split_csv
decision_of status_text s = record {
  timestamp = s.logged;
  request_id = s.request_id;
  agent_id = s.agent;
  task_type = s.task;
  risk_level = s.risk;
  traffic_class = s.traffic_class;
  provider = s.provider;
  fallback_used = str_eq s.fallback "true";
  status = status_of s;
  outcome = if str_eq s.phase "" then status_text (status_of s) else s.phase;
  reason_codes = split_csv s.reasons;
  latency_ms = milliseconds (since s.ended s.start);
}

-- `Wrap`, after the handler.
unfoldable pub wrap :
    (ℕ → String)
    → Metrics × DecisionLog DecisionRecord
    → Served
    → Metrics × DecisionLog DecisionRecord
unfolding record_request record_provider_outcome count_reasons decision_of is_success status_of
    split_csv add
wrap status_text (m, d) s =
    if not (str_eq s.path "/v1/chat/completions")
    then (m, d)
    else (let success = is_success (status_of s) in
        (
          count_reasons
              (record_provider_outcome
                (record_request m (since s.ended s.start) success (str_eq s.fallback "true"))
                s.provider success)
              (split_csv s.reasons) (str_eq s.escalation "true"),
          add d (decision_of status_text s),
        ))

-- An index below 0 reads the first entry.
abbrev pub at_least_zero : ℤ → ℤ
at_least_zero (pos n) = pos n
at_least_zero (negsuc n) = pos 0

module _ {F : Type 0} ⦃fl : Float64 F⦄ where
  -- `percentile` of a list that is not empty, at p percent. `none` would be a panic.
  unfoldable pub percentile : F → List Duration → Option Duration
  percentile p sorted =
      let n = length sorted in
      at_index sorted
        (at_least_zero (clamp n (to_int (fmul (fdiv p (lit 100 0)) (of_int (pos n))))))

abbrev pub three : Option Duration → Option Duration → Option Duration → Option (ℤ × ℤ × ℤ)
three (some a) (some b) (some c) = some (milliseconds a, milliseconds b, milliseconds c)
three _ _ _ = none

unfoldable pub percentiles_of : (F : Type 0) ⦃fl : Float64 F⦄ → List Duration → Option (ℤ × ℤ × ℤ)
unfolding percentile
percentiles_of F sorted =
    three (percentile (lit {F = F} 50 0) sorted) (percentile (lit {F = F} 95 0) sorted)
      (percentile (lit {F = F} 99 0) sorted)

-- `Percentiles`, computed with a type of numbers; `none` would be a panic.
unfoldable pub percentiles : (F : Type 0) ⦃fl : Float64 F⦄ → List Duration → Option (ℤ × ℤ × ℤ)
unfolding percentiles_of sort
percentiles F [] = some (pos 0, pos 0, pos 0)
percentiles F (d ∷ ds) = percentiles_of F (sort (d ∷ ds))
