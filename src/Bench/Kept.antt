-- ===== src/Bench/Kept.antt =====
-- Every request of a run of the load generator is kept once.
use signalmesh.Base.{
  ℕ, zero, suc, ◌+◌, ◌-◌, ◌≤◌, ◌≡◌, ◌≢◌, refl, ap, ◌∙◌, inl, inr, Bool, true, false, List, [], ◌∷◌,
  ◌++◌, map, ltb, length, if◌then◌else◌, arith, Bool-cases,
}
use signalmesh.Base.Int.{ℤ, pos, negsuc}
use signalmesh.Base.Perms.{
  sum_of, count_of, sum_of-append, sum_of-single, sum_of-map, upto, sum_of-upto,
}
use signalmesh.Bench.{Result, no_results, count_results}
use signalmesh.Bench.Totals.{IsCount, same-IsCount}
use signalmesh.Bench.Moves.{held, any_done, outcome, work_at-Moves}
use signalmesh.Bench.Workers.{
  Exchange, Worker, Machine, concurrency_of, waiting_workers, new_machine, Turn, feed, step, run,
  all_done,
}

pub concurrency_lem : (c : ℤ) → (k : ℕ) × (concurrency_of c ≡ suc k)
unfolding concurrency_of
concurrency_lem (pos n) = (n - 1, ground arith)
concurrency_lem (negsuc n) = (0, ground arith)

module _ (exchange : ℕ → Exchange) where
  -- Each request that has been sent is in the channel, with a worker, or kept.
  pub record IsTracked (total : ℕ) (m : Machine) : Type 0 where
    kept : List ℕ
    results : m.results ≡ map (outcome exchange) kept
    same :
        (f : ℕ → ℕ)
        → sum_of f m.jobs + (sum_of f (held m.workers) + sum_of f kept) ≡ sum_of f (upto m.sent)
    pub below : m.sent ≤ total
    all_sent : m.closed ≡ true → m.sent ≡ total
    manned : m.workers ≢ []
    ended : any_done m.workers ≡ true → (m.closed ≡ true) × (m.jobs ≡ [])

  module _ (total capacity : ℕ) where
    early : (m : Machine) → IsTracked total m → ltb m.sent total ≡ true → m.closed ≡ true → ⊥
    early m t more q = ground (arith, t.all_sent q, more)

    feed-IsTracked :
        (m : Machine) → IsTracked total m → IsTracked total (feed exchange total capacity m)
    unfolding feed
    feed-IsTracked m t = elim (Bool-cases (ltb m.sent total)) [
      | inl more ↦ elim (Bool-cases (ltb (length m.jobs) capacity)) [
        | inl room ↦
            rw (more, room)
              (record {
                kept = t.kept;
                results = t.results;
                same = λ f. omega (
                  arith,
                  t.same f,
                  sum_of-append f m.jobs (m.sent ∷ []),
                  sum_of-single f m.sent,
                  sum_of-upto f m.sent,
                );
                below = ground (arith, more);
                all_sent = λ q. absurd (early m t more q);
                manned = t.manned;
                ended = λ q. absurd (early m t more (t.ended q).0);
              })
        | inr full ↦ rw (more, full) t
      ]
      | inr over ↦ rw over (record {
        kept = t.kept;
        results = t.results;
        same = t.same;
        below = t.below;
        all_sent = λ q. ground (arith, over, t.below);
        manned = t.manned;
        ended = λ q. (refl, (t.ended q).1);
      })
    ]

    pub step-IsTracked :
        (m : Machine) (turn : Turn)
        → IsTracked total m
        → IsTracked total (step exchange total capacity m turn)
    unfolding step
    step-IsTracked m Turn.main t = feed-IsTracked m t
    step-IsTracked m (Turn.worker k) t =
        let v = work_at-Moves exchange m.closed k (m.jobs, m.results) m.workers t.kept t.results in
        record {
          kept = v.kept;
          results = v.results;
          same = λ f. v.same f ∙ t.same f;
          below = t.below;
          all_sent = t.all_sent;
          manned = λ q. t.manned (v.manned q);
          ended = λ q. elim (Bool-cases (any_done m.workers)) [
            | inl before ↦ ((t.ended before).0, v.drained (t.ended before).1)
            | inr first ↦ v.ended q first
          ];
        }

    pub run-IsTracked :
        (ts : List Turn) (m : Machine)
        → IsTracked total m
        → IsTracked total (run exchange total capacity m ts)
    unfolding run
    run-IsTracked [] m t = t
    run-IsTracked (turn ∷ ts) m t =
        run-IsTracked ts (step exchange total capacity m turn) (step-IsTracked m turn t)

    held_waiting : (k : ℕ) → held (waiting_workers k) ≡ []
    held_waiting zero = refl
    held_waiting (suc k) = held_waiting k

    none_done : (k : ℕ) → any_done (waiting_workers k) ≡ false
    none_done zero = refl
    none_done (suc k) = none_done k

    some_waiting : (c : ℤ) → waiting_workers (concurrency_of c) ≢ []
    some_waiting c q = let (k, e) = concurrency_lem c in cc (ap waiting_workers e, q)

    pub new-IsTracked : (c : ℤ) → IsTracked total (new_machine c)
    unfolding sum_of
    new-IsTracked c = record {
      kept = [];
      results = refl;
      same = λ f. rw (held_waiting (concurrency_of c)) refl;
      below = omega arith;
      all_sent = λ q. absurd cc;
      manned = some_waiting c;
      ended = λ q. absurd (cc (q, none_done (concurrency_of c)));
    }

    -- The end of a run: every worker has left its loop.
    done_none : (ws : List Worker) → all_done ws ≡ true → held ws ≡ []
    done_none [] q = refl
    done_none (Worker.done ∷ ws) q = done_none ws q
    done_none (Worker.waiting ∷ ws) q = absurd cc
    done_none (Worker.sending i ∷ ws) q = absurd cc

    done_any : (ws : List Worker) → ws ≢ [] → all_done ws ≡ true → any_done ws ≡ true
    done_any [] some_worker q = absurd (some_worker refl)
    done_any (Worker.done ∷ ws) some_worker q = refl
    done_any (Worker.waiting ∷ ws) some_worker q = absurd cc
    done_any (Worker.sending i ∷ ws) some_worker q = absurd cc

    all_kept :
        (m : Machine)
        → IsTracked total m
        → all_done m.workers ≡ true
        → (f : Result → ℕ) → sum_of f m.results ≡ sum_of f (map (outcome exchange) (upto total))
    unfolding sum_of
    all_kept m t q f =
        let (shut, empty) = t.ended (done_any m.workers t.manned q) in
        let g = λ (i : ℕ). f (outcome exchange i) in
        ap (sum_of f) t.results
        ∙ sum_of-map f (outcome exchange) t.kept
        ∙ omega (
          arith,
          t.same g,
          ap (sum_of g) empty,
          ap (sum_of g) (done_none m.workers q),
          ap (λ k. sum_of g (upto k)) (t.all_sent shut),
          sum_of-map f (outcome exchange) (upto total),
        )

    -- The results of a run whose workers have all left their loops.
    pub done-IsCount :
        (m : Machine)
        → IsTracked total m
        → all_done m.workers ≡ true
        → IsCount (map (outcome exchange) (upto total)) (count_results no_results m.results)
    unfolding count_of
    done-IsCount m t q =
        same-IsCount (map (outcome exchange) (upto total)) m.results
          (λ p. all_kept m t q (λ r. if p r then 1 else 0))

    -- Each request sent so far is in the channel, with a worker, or among the results, just once.
    pub accounts :
        (m : Machine)
        → IsTracked total m
        → (p : Result → Bool)
        → count_of p m.results + count_of (λ i. p (outcome exchange i)) (m.jobs ++ held m.workers)
          ≡ count_of (λ i. p (outcome exchange i)) (upto m.sent)
    unfolding count_of
    accounts m t p =
        let f : Result → ℕ = λ r. if p r then 1 else 0 in
        let g : ℕ → ℕ = λ i. f (outcome exchange i) in
        omega (
          arith,
          t.same g,
          ap (sum_of f) t.results ∙ sum_of-map f (outcome exchange) t.kept,
          sum_of-append g m.jobs (held m.workers),
        )
