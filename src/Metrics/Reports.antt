-- ===== src/Metrics/Reports.antt =====
-- services/signalmesh-node/internal/observability/metrics.go: `Snapshot` and `Prometheus`. `range` over
-- a Go map takes its entries in any order, which is an argument; what package fmt prints and the
-- conversion to seconds are parameters. A text is written line by line.
use Prim.Native.String.{◌++◌ as ◌<>◌}
use signalmesh.Base.{ℕ, Option, none, some, List, [], ◌∷◌, ◌++◌, String, ◌>>=◌}
use signalmesh.Base.Int.{ℤ, pos}
use signalmesh.Base.Clock.{Time, Duration, since}
use signalmesh.Base.Float.{Float64}
use signalmesh.Base.Maps.{Map, lookup}
use signalmesh.Metrics.{Metrics, percentiles}

-- "%d", "%f", and `d.Seconds()`.
pub record Printer (F : Type 0) : Type 0 where
  pub integer : ℤ → String
  pub decimal : F → String
  pub seconds : Duration → F

-- The orders of the three loops over providers.
pub record ProviderOrder : Type 0 where
  pub requested : Map ℕ → Map ℕ
  pub succeeded : Map ℕ → Map ℕ
  pub failed : Map ℕ → Map ℕ

pub record Outcome : Type 0 where
  pub requests : ℕ
  pub success : ℕ
  pub failures : ℕ

pub record Snapshot (F : Type 0) : Type 0 where
  pub node_id : String
  pub uptime_seconds : F
  pub totals : Metrics
  pub p50_ms : ℤ
  pub p95_ms : ℤ
  pub p99_ms : ℤ
  pub provider_outcomes : Map Outcome

-- The loop of `Snapshot`; `none` is a counter that is not there, whose `Load` panics.
unfoldable pub outcomes : Metrics → Map ℕ → Option (Map Outcome)
outcomes m [] = some []
outcomes m (entry ∷ rest) = do
  success ← lookup entry.0 m.provider_success
  failures ← lookup entry.0 m.provider_failures
  others ← outcomes m rest
  some ((entry.0, record { requests = entry.1; success = success; failures = failures }) ∷ others)

pub data Line : Type 0 where
  help : String → String → Line
  kind : String → String → Line
  sample : String → Option String → String → Line
  blank : Line

abbrev pub label : Option String → String
label none = ""
label (some provider) = ",provider=\"" <> provider <> "\""

-- A line of the text.
unfoldable pub render : String → Line → String
render node (Line.help name text) = "# HELP " <> name <> " " <> text <> "\n"
render node (Line.kind name word) = "# TYPE " <> name <> " " <> word <> "\n"
render node (Line.sample name provider value) =
    name <> "{node_id=\"" <> node <> "\"" <> label provider <> "} " <> value <> "\n"
render node Line.blank = "\n"

-- One metric of the whole node.
abbrev pub single : String → String → String → String → List Line
single name text word value =
    Line.help name text ∷ Line.kind name word ∷ Line.sample name none value ∷ Line.blank ∷ []

module _ {F : Type 0} ⦃fl : Float64 F⦄ (print : Printer F) where
  unfoldable pub snapshot : String → Time → Metrics → ProviderOrder → Time → Option (Snapshot F)
  unfolding outcomes percentiles
  snapshot node_id started m order now = do
    ps ← percentiles F m.latencies
    found ← outcomes m (order.requested m.provider_requests)
    some (record {
      node_id = node_id;
      uptime_seconds = print.seconds (since now started);
      totals = m;
      p50_ms = ps.0;
      p95_ms = ps.1;
      p99_ms = ps.2;
      provider_outcomes = found;
    })

  -- `writeCounter`.
  abbrev pub counter_lines : String → String → ℕ → List Line
  counter_lines name text n = single name text "counter" (print.integer (pos n))

  -- The loop over the counters of the providers.
  abbrev pub provider_samples : String → Map ℕ → List Line
  provider_samples name [] = Line.blank ∷ []
  provider_samples name (entry ∷ rest) =
      Line.sample name (some entry.0) (print.integer (pos entry.1)) ∷ provider_samples name rest

  abbrev pub provider_lines : String → String → Map ℕ → List Line
  provider_lines name text entries =
      Line.help name text ∷ Line.kind name "counter" ∷ provider_samples name entries

  -- The eight counters.
  unfoldable pub total_lines : Metrics → List Line
  total_lines m =
      counter_lines "signalmesh_requests_total" "Total AI requests processed by this node."
        m.requests_total
      ++ (counter_lines "signalmesh_request_success_total" "Total successful AI requests."
            m.success_total
          ++ (counter_lines "signalmesh_request_failure_total" "Total failed AI requests."
                m.failure_total
              ++ (counter_lines "signalmesh_fallback_total"
                    "Total requests served by fallback providers." m.fallback_total
                  ++ (counter_lines "signalmesh_semantic_failure_total"
                        "Total semantic validation failures." m.semantic_failures_total
                      ++ (counter_lines "signalmesh_escalations_total"
                            "Total human attention escalations." m.escalations_total
                          ++ (counter_lines "signalmesh_incidents_total" "Total incidents reported."
                                m.incidents_total
                              ++ counter_lines "signalmesh_admission_dropped_total"
                                  "Total requests dropped by admission control."
                                  m.admission_dropped_total))))))

  unfoldable pub gauge_lines : Duration → ℤ × ℤ × ℤ → List Line
  gauge_lines up ps =
      single "signalmesh_uptime_seconds" "Node uptime." "gauge" (print.decimal (print.seconds up))
      ++ (single "signalmesh_request_latency_p50_ms" "Request latency p50." "gauge"
            (print.integer ps.0)
          ++ (single "signalmesh_request_latency_p95_ms" "Request latency p95." "gauge"
                (print.integer ps.1)
              ++ single "signalmesh_request_latency_p99_ms" "Request latency p99." "gauge"
                  (print.integer ps.2)))

  unfoldable pub all_provider_lines : Metrics → ProviderOrder → List Line
  all_provider_lines m order =
      provider_lines "signalmesh_provider_requests_total" "Provider request count."
        (order.requested m.provider_requests)
      ++ (provider_lines "signalmesh_provider_success_total" "Provider success count."
            (order.succeeded m.provider_success)
          ++ provider_lines "signalmesh_provider_failure_total" "Provider failure count."
              (order.failed m.provider_failures))

  -- The lines of `Prometheus`.
  unfoldable pub exposition : Time → Metrics → ProviderOrder → Time → Option (List Line)
  unfolding total_lines gauge_lines all_provider_lines percentiles
  exposition started m order now = do
    ps ← percentiles F m.latencies
    some (total_lines m ++ (gauge_lines (since now started) ps ++ all_provider_lines m order))

abbrev pub written : String → List Line → String
written node [] = ""
written node (l ∷ ls) = render node l <> written node ls

-- `Prometheus`.
unfoldable pub prometheus :
    {F : Type 0} ⦃fl : Float64 F⦄
    → Printer F
    → String
    → Time
    → Metrics
    → ProviderOrder
    → Time
    → Option String
unfolding exposition render
prometheus print node started m order now = do
  lines ← exposition print started m order now
  some (written node lines)
