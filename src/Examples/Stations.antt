-- ===== src/Examples/Stations.antt =====
-- A station that serves requests behind the middleware.
use signalmesh.Base.{ℕ, ◌≡◌, ◌+◌, refl, true, none, some, List, [], ◌∷◌, String}
use signalmesh.Base.Int.{pos}
use signalmesh.Base.Float.{lit}
use signalmesh.Base.Maps.{lookup}
use signalmesh.LoopDetector
use signalmesh.DecisionLog
use signalmesh.Metrics.{new_metrics}
use signalmesh.Proxy.Entry.{Packages, context_of}
use signalmesh.Station.{Station, Exchange, exchange}
use signalmesh.Station.Counts.{IsBooked, exchange-IsBooked, answer_to}
use signalmesh.Station.Startup.{Environment, Startup, Event, main_station, history}
use signalmesh.Station.History.{IsRunning, request_count, history-main-IsRunning}
use signalmesh.Station.Repeats.{repeat_counted}
use signalmesh.Examples.Cents.{Cents, cents_float, cents_order}
use signalmesh.Examples.Components.{refund, decode}
use signalmesh.Examples.Requests.{node, worn, rounds, closing}

abbrev packages : Packages Cents
packages = record {
  formats = record { decimal = λ n. "7"; fixed = λ x. "1.000000" };
  digest = λ cs. "a";
  decode = decode;
}

abbrev status_text : ℕ → String
status_text code = "status"

abbrev call : String → Exchange Cents
call method = record {
  incoming = record { method = method; body = some refund; named_at = 0; started_at = 0 };
  rounds = rounds;
  closing = closing;
  refusal = none;
  start = 0;
  ended = 4000000;
  logged = 5000000;
}

abbrev station : Station Cents
station = record { node = node; metrics = new_metrics; decisions = DecisionLog.new (pos 200) }

exchange-IsBooked_example :
    IsBooked packages status_text station
      (exchange packages status_text station (call "POST"))
      (answer_to packages status_text station (call "POST") refund).1
exchange-IsBooked_example =
    exchange-IsBooked packages status_text cents_order station (call "POST") refund refl refl

-- An empty environment.
abbrev environment : Environment Cents
environment = record {
  getenv = λ key. "";
  trimmed = λ v. v;
  atoi = λ v. none;
  parse_float = λ v. none;
}

abbrev started : Startup
started = record {
  primary_made = 1;
  local_made = 2;
  mock_read = 3;
  mock_set = 4;
  local_read = 5;
  local_set = 6;
}

abbrev events : List (Event Cents)
events =
    Event.requested (call "GET")
    ∷ Event.requested (call "POST")
    ∷ Event.restored 7 8
    ∷ Event.limited "agent-1" (lit 2 0)
    ∷ Event.requested (call "POST")
    ∷ []

history-main-IsRunning_example :
    IsRunning
      (request_count events 0)
      (history packages status_text (main_station environment started) events)
history-main-IsRunning_example =
    history-main-IsRunning cents_order packages status_text environment started events

abbrev tired : Station Cents
tired = record station { node = worn }

tired_loops : LoopDetector.is_looping worn.detector "a" 0 ≡ true
unfolding LoopDetector.is_looping lookup
tired_loops = refl

repeat_counted_example :
    let s' = exchange packages status_text tired (call "POST") in
    (s'.metrics.incidents_total ≡ tired.metrics.incidents_total + 1)
    × (s'.node.reporter ≡ tired.node.reporter)
unfolding context_of LoopDetector.fingerprint
repeat_counted_example =
    repeat_counted cents_order packages status_text tired (call "POST") refund refl refl refl
      tired_loops
