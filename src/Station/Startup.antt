-- ===== src/Station/Startup.antt =====
-- services/signalmesh-node/cmd/signalmesh/main.go: how `main` puts the parts of a node together, and
-- what changes them afterwards.
use Prim.Native.Nat.{ℕ}
use signalmesh.Base.{true, false, Option, List, [], ◌∷◌, String, ◌==◌, ◌*◌, if◌then◌else◌}
use signalmesh.Base.Int.{ℤ, pos}
use signalmesh.Base.Clock.{Time, second}
use signalmesh.Base.Float.{Float64, lit}
use signalmesh.Breaker.{Breaker, Call}
use signalmesh.Breaker
use signalmesh.LoopDetector
use signalmesh.Budget.{new_manager, set_agent_limit}
use signalmesh.Admission.{Config, Manager, Class}
use signalmesh.Admission
use signalmesh.Cluster.{Store, new_store}
use signalmesh.Cluster.Reading.{set_local_provider_health}
use signalmesh.Providers.Mock.{new_mock_provider, mock_get_health}
use signalmesh.Providers.Local.{new_local_provider, local_get_health}
use signalmesh.Router.{ProviderEntry, add_provider_with_cost}
use signalmesh.DecisionLog
use signalmesh.Metrics.{new_metrics}
use signalmesh.Console.{env_text, env_number}
use signalmesh.Proxy.State.{Node, write}
use signalmesh.Proxy.Entry.{Packages}
use signalmesh.Station.{Station, Exchange, exchange}

-- The environment of the process, with `strings.TrimSpace` of a value, `strconv.Atoi` and
-- `strconv.ParseFloat`.
pub record Environment (F : Type 0) : Type 0 where
  pub getenv : String → String
  pub trimmed : String → String
  pub atoi : String → Option ℤ
  pub parse_float : String → Option F

-- Readings of the clock while `main` starts.
pub record Startup : Type 0 where
  pub primary_made : Time
  pub local_made : Time
  pub mock_read : Time
  pub mock_set : Time
  pub local_read : Time
  pub local_set : Time

module _ {F : Type 0} ⦃fl : Float64 F⦄ (e : Environment F) where
  abbrev int_of : String → ℕ → ℤ
  int_of key fallback = env_number e.atoi (e.getenv key) (pos fallback)

  abbrev float_of : String → F → F
  float_of key fallback = env_number e.parse_float (e.getenv key) fallback

  abbrev pub node_id : String
  node_id = env_text (e.getenv "NODE_ID") "node-a"

  -- The providers of the router, and the addresses of their breakers.
  unfoldable pub main_entries : List (ProviderEntry F)
  unfolding add_provider_with_cost
  main_entries =
      add_provider_with_cost (add_provider_with_cost [] "mock-primary" 0 false (lit 1 4))
        "local-fallback" 1 true (lit 0 0)

  -- No other address holds a breaker of the program.
  unfoldable pub main_breakers : Startup → ℕ → Breaker
  unfolding Breaker.new
  main_breakers t a =
      if a == 0
      then Breaker.new Breaker.default_config t.primary_made
      else Breaker.new Breaker.default_config t.local_made

  unfoldable pub main_node : Startup → Node F
  unfolding main_entries main_breakers env_text env_number LoopDetector.new new_manager
  main_node t = record {
    entries = main_entries;
    breakers = main_breakers t;
    detector = LoopDetector.new (pos 3) (pos (60 * second));
    budgets =
        new_manager (float_of "GLOBAL_BUDGET_USD" (lit 100 0))
          (float_of "DEFAULT_AGENT_BUDGET_USD" (lit 1 0));
    escalator = record { node_id = node_id; items = [] };
    reporter = record { node_id = node_id; incidents = [] };
  }

  unfoldable pub main_station : Startup → Station F
  unfolding main_node new_metrics DecisionLog.new
  main_station t = record {
    node = main_node t;
    metrics = new_metrics;
    decisions = DecisionLog.new (pos 200);
  }

  unfoldable pub main_admission : Manager
  unfolding env_number Admission.new_manager
  main_admission =
      Admission.new_manager
        (record {
          concurrency = int_of "ADMISSION_CRITICAL_CONCURRENCY" 100;
          max_queue = int_of "ADMISSION_CRITICAL_QUEUE" 100;
        })
        (record {
          concurrency = int_of "ADMISSION_NORMAL_CONCURRENCY" 50;
          max_queue = int_of "ADMISSION_NORMAL_QUEUE" 50;
        })
        (record {
          concurrency = int_of "ADMISSION_BACKGROUND_CONCURRENCY" 10;
          max_queue = int_of "ADMISSION_BACKGROUND_QUEUE" 10;
        })
        (int_of "ADMISSION_GLOBAL_MAX_ACTIVE" 200)

  -- The store, with what both providers say of themselves.
  unfoldable pub main_store : Startup → Store F
  unfolding env_text env_number new_store set_local_provider_health new_mock_provider
      mock_get_health new_local_provider local_get_health
  main_store t =
      let mock = new_mock_provider "mock-primary" in
      let local =
        new_local_provider "local-fallback" (e.trimmed (e.getenv "OLLAMA_URL"))
          (e.trimmed (e.getenv "OLLAMA_MODEL")) in
      let s = new_store node_id (int_of "SIGNALMESH_CLUSTER_SIZE" 3) in
      let s' =
        set_local_provider_health s mock.name (mock_get_health mock t.mock_read) t.mock_set in
      set_local_provider_health s' local.name (local_get_health local t.local_read) t.local_set

-- What reaches the station of a running node: a request, a restore of the chaos engine, a new limit
-- of an agent.
pub data Event (F : Type 0) : Type 0 where
  requested : Exchange F → Event F
  restored : Time → Time → Event F
  limited : String → F → Event F

-- The hook of `OnRestore` resets both breakers.
abbrev pub reset_both : {F : Type 0} → Time → Time → Node F → Node F
reset_both t u n =
    let first = write n.breakers 0 (Breaker.reset (n.breakers 0) t) in
    record n { breakers = write first 1 (Breaker.reset (first 1) u) }

module _ {F : Type 0} ⦃fl : Float64 F⦄ (env : Packages F) (text : ℕ → String) where
  unfoldable pub happen : Station F → Event F → Station F
  unfolding exchange Breaker.reset set_agent_limit
  happen s (Event.requested x) = exchange env text s x
  happen s (Event.restored t u) = record s { node = reset_both t u s.node }
  happen s (Event.limited agent limit) = record s {
    node = record s.node { budgets = set_agent_limit s.node.budgets agent limit };
  }

  unfoldable pub history : Station F → List (Event F) → Station F
  unfolding happen
  history s [] = s
  history s (x ∷ xs) = history (happen s x) xs
