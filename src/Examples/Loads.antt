-- ===== src/Examples/Loads.antt =====
-- A run of the load generator with two workers.
use signalmesh.Base.{◌≡◌, refl, ℕ, List, [], ◌∷◌, ◌==◌, if◌then◌else◌}
use signalmesh.Base.Int.{pos}
use signalmesh.Bench.{Result}
use signalmesh.Bench.Workers.{
  Exchange, Turn, concurrency_of, new_machine, run, step, feed, work, work_at, result_of,
}
use signalmesh.Bench.Progress.{IsRun, run-IsRun}

-- The second request is not answered.
abbrev exchange : ℕ → Exchange
exchange i =
    if i == 1 then Exchange.no_answer (pos 9) "timeout" else Exchange.answered (pos 4) 200 "local"

-- The second worker is faster than the first one.
abbrev turns : List Turn
turns =
    Turn.main
    ∷ Turn.main
    ∷ Turn.worker 0
    ∷ Turn.worker 1
    ∷ Turn.worker 1
    ∷ Turn.main
    ∷ Turn.worker 1
    ∷ Turn.worker 1
    ∷ []

abbrev statuses : List Result → List ℕ
statuses [] = []
statuses (r ∷ rs) = r.status ∷ statuses rs

run-IsRun_example :
    IsRun exchange 3
      (concurrency_of (pos 2))
      (run exchange 3 (concurrency_of (pos 2)) (new_machine (pos 2)) turns)
run-IsRun_example = run-IsRun exchange 3 (pos 2) turns

-- The results stand in the order in which they have been kept, not in that of the requests.
kept_codes :
    statuses (run exchange 3 (concurrency_of (pos 2)) (new_machine (pos 2)) turns).results
    ≡ 0 ∷ 200 ∷ []
unfolding run step feed work work_at result_of concurrency_of
kept_codes = refl
