-- ===== src/Bench/Progress.antt =====
-- A run of the load generator can always be finished.
use signalmesh.Base.{
  ℕ, zero, suc, ◌+◌, ◌-◌, ◌*◌, ◌≤◌, ◌<◌, ◌≡◌, refl, ap, inl, inr, Bool, true, false, List, [], ◌∷◌,
  ◌++◌, map, ltb, length, length-append, if◌then◌else◌, arith, Bool-cases,
}
use signalmesh.Base.Int.{ℤ}
use signalmesh.Base.Perms.{count_of, upto}
use signalmesh.Bench.{Result, no_results, count_results}
use signalmesh.Bench.Totals.{IsCount}
use signalmesh.Bench.Moves.{outcome, held}
use signalmesh.Bench.Kept.{accounts, run-IsTracked, new-IsTracked, done-IsCount, concurrency_lem}
use signalmesh.Bench.Workers.{
  Exchange, Worker, Machine, concurrency_of, new_machine, Turn, Shared, work, work_at, feed, step,
  run, all_done,
}

-- What is left to do for workers in their states, and for a channel beside them.
abbrev weights : List Worker → ℕ
weights [] = 0
weights (Worker.waiting ∷ ws) = 1 + weights ws
weights (Worker.sending i ∷ ws) = 3 + weights ws
weights (Worker.done ∷ ws) = weights ws

abbrev load : Shared × List Worker → ℕ
load ((js, rs), ws) = 3 * length js + weights ws

-- Whether a worker that waits can go on.
abbrev ready : Bool → List ℕ → Bool
ready closed [] = closed
ready closed (j ∷ js) = true

-- How far a run is from its end.
abbrev left : ℕ → Machine → ℕ
left total m =
    4 * (total - m.sent) + (load ((m.jobs, m.results), m.workers) + (if m.closed then 0 else 1))

unready : (closed : Bool) (js : List ℕ) → ready closed js ≡ false → (js ≡ []) × (closed ≡ false)
unready closed [] r = (refl, r)
unready closed (j ∷ js) r = absurd cc

module _ (exchange : ℕ → Exchange) where
  -- Some worker goes on if one has not left its loop.
  worker_goes_on :
      (closed : Bool) (s : Shared) (ws : List Worker)
      → all_done ws ≡ false
      → ready closed s.0 ≡ true
      → (k : ℕ) × (load (work_at exchange closed k s ws) < load (s, ws))
  unfolding work_at work
  worker_goes_on closed s [] open_worker r = absurd cc
  worker_goes_on true ([], rs) (Worker.waiting ∷ ws) open_worker r = (0, omega arith)
  worker_goes_on false ([], rs) (Worker.waiting ∷ ws) open_worker r = absurd cc
  worker_goes_on closed (i ∷ js, rs) (Worker.waiting ∷ ws) open_worker r = (0, omega arith)
  worker_goes_on closed s (Worker.sending i ∷ ws) open_worker r = (0, omega arith)
  worker_goes_on closed s (Worker.done ∷ ws) open_worker r =
      let (k, h) = worker_goes_on closed s ws open_worker r in (suc k, h)

  module _ (total capacity : ℕ) (room : 1 ≤ capacity) where
    main_goes_on :
        (m : Machine)
        → ready m.closed m.jobs ≡ false
        → left total (feed exchange total capacity m) < left total m
    unfolding feed
    main_goes_on m r =
        let (empty, open_channel) = unready m.closed m.jobs r in
        elim (Bool-cases (ltb m.sent total)) [
          | inl more ↦
              let vacant : ltb (length m.jobs) capacity ≡ true =
                ground (arith, ap length empty, room) in
              rw (more, vacant) (ground (arith, length-append m.jobs (m.sent ∷ []), more))
          | inr over ↦ rw (over, open_channel) (omega arith)
        ]

    goes_on :
        (m : Machine)
        → all_done m.workers ≡ false
        → (turn : Turn) × (left total (step exchange total capacity m turn) < left total m)
    unfolding step
    goes_on m open_worker = elim (Bool-cases (ready m.closed m.jobs)) [
      | inl can ↦
          let (k, h) = worker_goes_on m.closed (m.jobs, m.results) m.workers open_worker can in
          (Turn.worker k, omega (arith, h))
      | inr cannot ↦ (Turn.main, main_goes_on m cannot)
    ]

    finishes :
        (n : ℕ) (m : Machine)
        → left total m ≤ n
        → (ts : List Turn) × (all_done (run exchange total capacity m ts).workers ≡ true)
    unfolding run
    finishes zero m small = elim (Bool-cases (all_done m.workers)) [
      | inl finished ↦ ([], finished)
      | inr unfinished ↦ absurd (omega (arith, (goes_on m unfinished).1))
    ]
    finishes (suc n) m small = elim (Bool-cases (all_done m.workers)) [
      | inl finished ↦ ([], finished)
      | inr unfinished ↦
          let (turn, h) = goes_on m unfinished in
          let (ts, e) = finishes n (step exchange total capacity m turn) (omega (arith, h)) in
          (turn ∷ ts, e)
    ]

-- A run at any point, and one way to its end.
pub record IsRun (exchange : ℕ → Exchange) (total capacity : ℕ) (m : Machine) : Type 0 where
  pub below : m.sent ≤ total
  pub accounted :
      (p : Result → Bool)
      → count_of p m.results + count_of (λ i. p (outcome exchange i)) (m.jobs ++ held m.workers)
        ≡ count_of (λ i. p (outcome exchange i)) (upto m.sent)
  pub rest : List Turn
  pub finished : all_done (run exchange total capacity m rest).workers ≡ true
  pub counted :
      IsCount
        (map (outcome exchange) (upto total))
        (count_results no_results (run exchange total capacity m rest).results)

-- A run of the load generator, whatever steps main and the workers have taken and in whatever
-- order: at most as many requests as asked for are sent, and for any test of results, as many of
-- the requests sent so far have a result that passes it as there are such results that are kept,
-- in the channel and with a worker together. The run can go on until all workers have left their
-- loops, and then the summary counts the result of each of the requests once.
pub run-IsRun :
    (exchange : ℕ → Exchange) (total : ℕ) (c : ℤ) (ts : List Turn)
    → IsRun exchange total
        (concurrency_of c)
        (run exchange total (concurrency_of c) (new_machine c) ts)
run-IsRun exchange total c ts =
    let w = concurrency_of c in
    let m = run exchange total w (new_machine c) ts in
    let t = run-IsTracked exchange total w ts (new_machine c) (new-IsTracked exchange total w c) in
    let (k, e) = concurrency_lem c in
    let (rest, finished) =
      finishes exchange total w (omega (arith, e)) (left total m) m (omega arith) in
    record {
      below = t.below;
      accounted = accounts exchange total w m t;
      rest = rest;
      finished = finished;
      counted =
          done-IsCount exchange total w (run exchange total w m rest)
            (run-IsTracked exchange total w rest m t) finished;
    }
