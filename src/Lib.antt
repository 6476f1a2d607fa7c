-- ===== src/Lib.antt =====
-- SignalMesh: a node that routes requests of agents to model providers, and keeps misbehaving
-- providers, runaway agents and spending in check. All paths below are under services/signalmesh-
-- node/internal, but those that start with cmd, which are under services/signalmesh-node.
--
-- A request passes through these parts, in this order. The policy (policy/policy.go) turns the
-- request into constraints. Admission (admission/admission.go) lets it in, queues it or refuses it
-- by its class of traffic. The loop detector (loopdetector/loopdetector.go) refuses a pattern of
-- requests that keeps failing. The proxy (proxy/handler.go) then makes attempts: the router
-- (router/router.go) chooses a provider by score, reading the breakers
-- (circuitbreaker/circuitbreaker.go), the health of the providers and the remaining budget
-- (budget/budget.go); the breaker is asked once more; the provider generates; the validator
-- (validator/validator.go) checks the content. A failure goes to the breaker, the loop detector
-- and, if a loop is detected, to the incidents (incident/incident.go); the last one goes to the
-- escalation engine (escalation/escalation.go) and to the client. A log of decisions
-- (observability/decisionlog.go) keeps the newest records.
--
-- Beside the requests, each node probes its providers (health/observer.go) and tells the others
-- over a bus; the store (cluster/store.go) keeps what all nodes report, and what a majority of
-- them says is the health that the router reads. The chaos engine (chaos/engine.go) makes the mock
-- provider (providers/mock.go) or the heartbeats fail for a while, and restores them.
--
-- Files and code:
--   Base             what the parts share: tests and lists, integers (Int), clocks (Clock), maps
--                    (Maps), texts (Text, Blank), sums and orders of lists (Perms, Sorting), and `float64` as
--                    an interface (Float).
--   Providers        providers/types.go: ModelRequest, RequestPolicy, ModelResponse, ProviderHealth;
--                    providers/mock.go (Mock), local.go (Local, with Fallback) and registry.go (Registry).
--   Reasons          the phases of a failure and the reason codes of all packages.
--   Policy           FromRequest is from_request, normalizeRisk normalize_risk, defaultPolicy
--                    default_policy, Deadline deadline. Policy/Bounds has the theorems.
--   Breaker          New, Available, Allow, RecordSuccess, RecordFailure, Reset, Trip and setState
--                    under the same words; `step` and `run` apply sequences of calls. Invariant,
--                    Transitions, Streak and Recovery have the theorems.
--   LoopDetector     New, Fingerprint, RecordFailure, RecordSuccess, IsLooping; Invariant, Counting,
--                    Window.
--   Budget           NewManager, SetAgentLimit, Remaining, Record (record_cost), Status; Ledger.
--   Router           AddProviderWithCost, Select (evaluate, tally, select_loop, conclude, select);
--                    Gates, Best, Choice.
--   Events           events/events.go: Publish, Subscribe, NewID (new_id); Identity.
--   Validator        Validate on a decoder that is an argument; Acceptance.
--   Escalation       isCriticalTask, Consider; Triggers.
--   Incident         Report.
--   Admission        NewManager, Acquire and Release as atomic steps of interleaved requests, Classify;
--                    Steps, Bulkheads, Isolation, Passage.
--   Cluster          cluster/store.go: heartbeats and observations between nodes (Cluster itself, with
--                    Events), GetProviderHealth (Reading, with Consensus), cleanup and Status (Upkeep,
--                    with Cleanup), PublishChaos and handleChaos (Commands).
--   Health           health/observer.go: probeAll, probeProvider (probed, probe_provider), record
--                    (record_result), computeHealth; Windows, Verdicts, and Exclusion, which leads from
--                    the observations of the nodes to the gates of the router.
--   Chaos            chaos/engine.go: Run, autoRestore (auto_restore), stopLocked, and from
--                    cmd/signalmesh/main.go the handlers of commands (on_chaos) and of restores. Timers
--                    has the steps, Load the workers of a load; Restoring, Numbering, Callbacks, Stranded
--                    and Bursts have the theorems.
--   LoadBalancer     cmd/signalmesh-lb/main.go: ServeHTTP (serve_http, try_backends), next; Rotation.
--   Metrics          observability/metrics.go and middleware.go: RecordRequest, RecordProviderOutcome,
--                    Percentiles, Wrap, splitCSV, contains, and Snapshot and Prometheus (Reports);
--                    Counting, Percentiles, Exposed and Format, and Joined on the header of reasons.
--   Console          cmd/signalmesh/main.go: the debug handlers that inject a failure, set a budget or
--                    start a scenario, lastEscalations and lastIncidents (last_items), cors, envInt and
--                    envFloat (env_number); Refusals.
--   Bench            cmd/signalmesh-bench/main.go: the workers and the channel of requests as steps in
--                    any order (Workers), the loop that counts the results (count_results), percentile
--                    and average (Summary); Moves, Kept, Totals and Progress have the theorems.
--   DecisionLog      NewDecisionLog, Add, Recent, over any type of records; Recent.
--   Proxy            State is what the handler reaches and what the outside gives to an attempt.
--                    Failure has handleFailure, canRetry, hasCostReason. Attempt is one round of the
--                    loop of HandleChat, Chat the loop and what stands around it. Response has
--                    writeSuccess, writeFailure and writeJSONError with their headers, Entry the front of
--                    HandleChat (handle_request). Rejections, Verdicts, Retries, Endings, Answers,
--                    Guarantees, Soundness and Runaways, on requests in a row (Turns), have the
--                    theorems.
--   Station          cmd/signalmesh/main.go: HandleChat behind the middleware (exchange), the parts that
--                    main puts together (Startup), and what reaches them afterwards (history). Shown,
--                    Counts, History and Repeats have the theorems.
--   Examples         runs of the code, and the theorems at concrete inputs.
--
-- How the code is represented. A struct is a record, and a method that changes it returns the new
-- one; a mutex makes a method one step, and without one each atomic access is a step. Each reading
-- of the clock is an argument of its own, so a theorem holds for every clock, also one that jumps.
-- Signed integers are exact, except where the source can overflow: MaxRetries + 1, the product in
-- Deadline and the sum in average wrap at 64 bits. A `float64` is any type with the interface Float64; where a theorem
-- needs a law of `<` it takes FloatOrder (transitive and irreflexive), which IEEE 754 gives with
-- NaN included, and for constants and for quotients of small integers FloatRatios and FloatCents.
-- A loop over a Go map takes its order as an argument. Router entries hold the address of their
-- breaker, so two entries may share one. The loop of a request runs on the number of attempts that
-- the source computes, so it needs no other fuel. An index out of range is a panic, a constructor
-- of its own.
--
-- Parameters: what a provider generates, the client of NATS, what package fmt prints, the health
-- that the router is told, random numbers, the JSON encoder and decoder, the exchange with Ollama,
-- the SHA-256 digest, random identifiers, `math.Ceil` and clocks.
--
-- Left out: log lines, the JSON of output, the debug handlers that only
-- encode a report, the HTTP servers and tickers, and of the load generator its flags and the
-- text of its summary. HandleChat is modelled for one request at a time, given the answer of
-- `Acquire`; steps of concurrent requests interleave in Admission, timers and callbacks in Chaos,
-- calls of `next` in LoadBalancer, workers in Bench.
pub mod Base
pub mod Breaker
pub mod Providers
pub mod LoopDetector
pub mod Reasons
pub mod Policy
pub mod Router
pub mod Events
pub mod Budget
pub mod Validator
pub mod Escalation
pub mod Incident
pub mod Admission
pub mod Cluster
pub mod Health
pub mod Chaos
pub mod LoadBalancer
pub mod DecisionLog
pub mod Metrics
pub mod Console
pub mod Bench
pub mod Proxy
pub mod Station
pub mod Examples
