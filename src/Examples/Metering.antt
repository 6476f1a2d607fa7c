-- ===== src/Examples/Metering.antt =====
-- What is counted of three requests, and of three results of the load generator.
use mathlib.Core.List.Permᴰ as Permuted
use signalmesh.Base.{ℕ, ◌≡◌, refl, none, some, List, [], ◌∷◌, String, arith}
use signalmesh.Base.Int.{pos, ◌≤ℤ◌}
use signalmesh.Base.Text.{codes}
use signalmesh.Bench.{Result, no_results, count_results}
use signalmesh.DecisionLog.{DecisionLog, new}
use signalmesh.Metrics.{Served, DecisionRecord, WriterCall, split_csv}
use signalmesh.Metrics.Percentiles.{IsRanked, cut}
use signalmesh.Base.Float.{of_int}
use signalmesh.Metrics.{Metrics, new_metrics}
use signalmesh.Metrics.Counting.{wrap_all}
use signalmesh.Metrics.Reports.{Printer, ProviderOrder, snapshot, exposition}
use signalmesh.Metrics.Exposed.{IsTaken, snapshot-IsTaken}
use signalmesh.Metrics.Format.{IsFormatted, exposition-IsFormatted}
use signalmesh.Examples.Cents.{Cents, cents_float}

abbrev served : String → List WriterCall → String → Served
served path calls reasons = record {
  path = path;
  calls = calls;
  request_id = "req-1";
  agent = "agent-1";
  task = "refund";
  risk = "high";
  traffic_class = "critical";
  provider = "remote";
  phase = "";
  fallback = "false";
  escalation = "false";
  reasons = codes reasons;
  start = 5;
  ended = 9;
  logged = 10;
}

abbrev traffic : List Served
traffic =
    served "/v1/chat/completions" (WriterCall.write_header 503 ∷ WriterCall.write ∷ []) "A,B"
    ∷ served "/healthz" (WriterCall.write ∷ []) ""
    ∷ served "/v1/chat/completions" (WriterCall.write ∷ []) ""
    ∷ []

abbrev status_text : ℕ → String
status_text code = "status"

abbrev log : DecisionLog DecisionRecord
log = new (pos 10)

reasons_split : split_csv (codes " A,B") ≡ codes "A" ∷ codes "B" ∷ []
unfolding split_csv
reasons_split = refl

below : (n : ℕ) → cut Cents 50 n ≤ℤ cut Cents 95 n
below n = ground arith

below_most : (n : ℕ) → cut Cents 95 n ≤ℤ cut Cents 99 n
below_most n = ground arith

ranks : IsRanked Cents
ranks = record { half_below = below; most_below = below_most }

abbrev refused : Result
refused = record { status = 0; provider = ""; latency = pos 0; err = some "refused" }

abbrev unnamed : Result
unnamed = record { status = 200; provider = ""; latency = pos 7000000; err = none }

abbrev busy : Result
busy = record { status = 503; provider = "remote"; latency = pos 2000000; err = none }

run_counts :
    let t = count_results no_results (unnamed ∷ refused ∷ busy ∷ []) in
    (t.success ≡ 1) × (t.failed ≡ 2) × (t.status_counts 0 ≡ 1) × (t.provider_counts "unknown" ≡ 1)
unfolding count_results
run_counts = (refl, refl, refl, refl)

abbrev printer : Printer Cents
printer = record { integer = λ n. "1"; decimal = λ x. "0.500000"; seconds = λ d. of_int (pos 1) }

abbrev as_stored : ProviderOrder
as_stored = record { requested = λ es. es; succeeded = λ es. es; failed = λ es. es }

abbrev books : Metrics
books = (wrap_all status_text (new_metrics, log) traffic).0

snapshot-IsTaken_example :
    IsTaken books books.provider_requests (snapshot printer "node-1" 1 books as_stored 20)
snapshot-IsTaken_example =
    snapshot-IsTaken ranks status_text traffic log printer "node-1" 1 20 as_stored
      (λ es. Permuted.refl es)

exposition-IsFormatted_example : IsFormatted printer books (exposition printer 1 books as_stored 20)
exposition-IsFormatted_example = exposition-IsFormatted printer ranks 1 20 books as_stored
