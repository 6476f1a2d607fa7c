-- ===== src/Bench/Workers.antt =====
-- cmd/signalmesh-bench/main.go: the workers and the channel of requests to send.
use signalmesh.Base.{
  ℕ, zero, suc, ◌+◌, Bool, true, false, none, some, List, [], ◌∷◌, ◌++◌, String, ltb, length,
  if◌then◌else◌,
}
use signalmesh.Base.Int.{ℤ, pos, pos_part, leb_ℤ}
use signalmesh.Base.Clock.{Duration}
use signalmesh.Bench.{Result}

-- How the exchange of a request ends.
pub data Exchange : Type 0 where
  no_body : String → Exchange
  no_request : String → Exchange
  no_answer : Duration → String → Exchange
  answered : Duration → ℕ → String → Exchange

abbrev pub failed_with : Duration → String → Result
failed_with latency e = record { status = 0; provider = ""; latency = latency; err = some e }

-- What a worker keeps of it.
unfoldable pub result_of : Exchange → Result
result_of (Exchange.no_body e) = failed_with (pos 0) e
result_of (Exchange.no_request e) = failed_with (pos 0) e
result_of (Exchange.no_answer latency e) = failed_with latency e
result_of (Exchange.answered latency status provider) = record {
  status = status;
  provider = provider;
  latency = latency;
  err = none;
}

-- A worker waits for a request, sends the one with a number, or has left its loop.
pub data Worker : Type 0 where
  waiting : Worker
  sending : ℕ → Worker
  done : Worker

pub record Machine : Type 0 where
  pub sent : ℕ
  pub jobs : List ℕ
  pub closed : Bool
  pub workers : List Worker
  pub results : List Result

-- The number of workers, from the flag.
unfoldable pub concurrency_of : ℤ → ℕ
concurrency_of c = if leb_ℤ c (pos 0) then 1 else pos_part c

abbrev pub waiting_workers : ℕ → List Worker
waiting_workers zero = []
waiting_workers (suc k) = Worker.waiting ∷ waiting_workers k

abbrev pub new_machine : ℤ → Machine
new_machine c = record {
  sent = 0;
  jobs = [];
  closed = false;
  workers = waiting_workers (concurrency_of c);
  results = [];
}

-- Who takes the next step: the main function, or the worker with a number.
pub data Turn : Type 0 where
  main : Turn
  worker : ℕ → Turn

-- Channel and results, and a worker that has them.
abbrev pub Shared : Type 0
Shared = List ℕ × List Result

module _ (exchange : ℕ → Exchange) where
  unfoldable pub work : Bool → Shared → Worker → Shared × Worker
  work closed ([], rs) Worker.waiting = (([], rs), if closed then Worker.done else Worker.waiting)
  work closed (i ∷ js, rs) Worker.waiting = ((js, rs), Worker.sending i)
  work closed (js, rs) (Worker.sending i) =
      ((js, rs ++ (result_of (exchange i) ∷ [])), Worker.waiting)
  work closed s Worker.done = (s, Worker.done)

  unfoldable pub work_at : Bool → ℕ → Shared → List Worker → Shared × List Worker
  work_at closed k s [] = (s, [])
  work_at closed zero s (w ∷ ws) = let (s', w') = work closed s w in (s', w' ∷ ws)
  work_at closed (suc k) s (w ∷ ws) = let (s', ws') = work_at closed k s ws in (s', w ∷ ws')

  -- The loop that fills the channel, which blocks while that is full, and the close after it.
  unfoldable pub feed : ℕ → ℕ → Machine → Machine
  feed total capacity m =
      if ltb m.sent total
      then (if ltb (length m.jobs) capacity
          then record m { sent = m.sent + 1; jobs = m.jobs ++ (m.sent ∷ []) }
          else m)
      else record m { closed = true }

  unfoldable pub step : ℕ → ℕ → Machine → Turn → Machine
  step total capacity m Turn.main = feed total capacity m
  step total capacity m (Turn.worker k) =
      let ((js, rs), ws) = work_at m.closed k (m.jobs, m.results) m.workers in
      record m { jobs = js; results = rs; workers = ws }

  unfoldable pub run : ℕ → ℕ → Machine → List Turn → Machine
  run total capacity m [] = m
  run total capacity m (t ∷ ts) = run total capacity (step total capacity m t) ts

-- `wg.Wait` returns.
abbrev pub all_done : List Worker → Bool
all_done [] = true
all_done (Worker.done ∷ ws) = all_done ws
all_done (w ∷ ws) = false
