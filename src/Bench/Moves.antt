-- ===== src/Bench/Moves.antt =====
-- What one step of a worker of the load generator moves.
use signalmesh.Base.{
  ℕ, zero, suc, ◌+◌, ◌≡◌, refl, ap, Bool, true, false, List, [], ◌∷◌, ◌++◌, map, arith,
}
use signalmesh.Base.Perms.{sum_of, sum_of-append}
use signalmesh.Bench.{Result}
use signalmesh.Bench.Workers.{Exchange, result_of, Worker, Shared, work, work_at}

-- The requests that workers are sending.
abbrev pub held : List Worker → List ℕ
held [] = []
held (Worker.sending i ∷ ws) = i ∷ held ws
held (w ∷ ws) = held ws

abbrev pub any_done : List Worker → Bool
any_done [] = false
any_done (Worker.done ∷ ws) = true
any_done (w ∷ ws) = any_done ws

map-append : {A B : Type 0} (f : A → B) (xs ys : List A) → map f (xs ++ ys) ≡ map f xs ++ map f ys
map-append f [] ys = refl
map-append f (x ∷ xs) ys = ap (λ zs. f x ∷ zs) (map-append f xs ys)

module _ (exchange : ℕ → Exchange) where
  abbrev pub outcome : ℕ → Result
  outcome i = result_of (exchange i)

  -- A worker's step moves requests on and neither drops nor repeats one.
  pub record Moves (closed : Bool) (s : Shared) (ws : List Worker) (ks : List ℕ) (s' : Shared)
      (ws' : List Worker) : Type 0 where
    pub kept : List ℕ
    pub results : s'.1 ≡ map outcome kept
    pub same :
        (f : ℕ → ℕ)
        → sum_of f s'.0 + (sum_of f (held ws') + sum_of f kept)
          ≡ sum_of f s.0 + (sum_of f (held ws) + sum_of f ks)
    pub drained : s.0 ≡ [] → s'.0 ≡ []
    pub manned : ws' ≡ [] → ws ≡ []
    pub ended : any_done ws' ≡ true → any_done ws ≡ false → (closed ≡ true) × (s'.0 ≡ [])

  stays :
      (closed : Bool) (s : Shared) (ws : List Worker) (ks : List ℕ)
      → s.1 ≡ map outcome ks
      → Moves closed s ws ks s ws
  stays closed s ws ks e = record {
    kept = ks;
    results = e;
    same = λ f. refl;
    drained = λ q. q;
    manned = λ q. q;
    ended = λ p q. absurd cc;
  }

  work-Moves :
      (closed : Bool) (s : Shared) (w : Worker) (ws : List Worker) (ks : List ℕ)
      → s.1 ≡ map outcome ks
      → Moves closed s (w ∷ ws) ks (work exchange closed s w).0 ((work exchange closed s w).1 ∷ ws)
  unfolding work sum_of
  work-Moves false ([], rs) Worker.waiting ws ks e = stays false ([], rs) (Worker.waiting ∷ ws) ks e
  work-Moves true ([], rs) Worker.waiting ws ks e = record {
    kept = ks;
    results = e;
    same = λ f. refl;
    drained = λ q. q;
    manned = λ q. absurd cc;
    ended = λ p q. (refl, refl);
  }
  work-Moves closed (i ∷ js, rs) Worker.waiting ws ks e = record {
    kept = ks;
    results = e;
    same = λ f. omega arith;
    drained = λ q. absurd cc;
    manned = λ q. absurd cc;
    ended = λ p q. absurd cc;
  }
  work-Moves closed (js, rs) (Worker.sending i) ws ks e = record {
    kept = ks ++ (i ∷ []);
    results = rw (e, map-append outcome ks (i ∷ [])) refl;
    same = λ f. omega (arith, sum_of-append f ks (i ∷ []));
    drained = λ q. q;
    manned = λ q. absurd cc;
    ended = λ p q. absurd cc;
  }
  work-Moves closed s Worker.done ws ks e = stays closed s (Worker.done ∷ ws) ks e

  -- A step of one worker seen beside a worker that does nothing.
  beside :
      (closed : Bool) (s s' : Shared) (w : Worker) (ws ws' : List Worker) (ks : List ℕ)
      → Moves closed s ws ks s' ws'
      → Moves closed s (w ∷ ws) ks s' (w ∷ ws')
  unfolding sum_of
  beside closed s s' Worker.waiting ws ws' ks m = record {
    kept = m.kept;
    results = m.results;
    same = m.same;
    drained = m.drained;
    manned = λ q. absurd cc;
    ended = m.ended;
  }
  beside closed s s' (Worker.sending i) ws ws' ks m = record {
    kept = m.kept;
    results = m.results;
    same = λ f. omega (arith, m.same f);
    drained = m.drained;
    manned = λ q. absurd cc;
    ended = m.ended;
  }
  beside closed s s' Worker.done ws ws' ks m = record {
    kept = m.kept;
    results = m.results;
    same = m.same;
    drained = m.drained;
    manned = λ q. absurd cc;
    ended = λ p q. absurd cc;
  }

  pub work_at-Moves :
      (closed : Bool) (k : ℕ) (s : Shared) (ws : List Worker) (ks : List ℕ)
      → s.1 ≡ map outcome ks
      → Moves closed s ws ks (work_at exchange closed k s ws).0 (work_at exchange closed k s ws).1
  unfolding work_at
  work_at-Moves closed k s [] ks e = stays closed s [] ks e
  work_at-Moves closed zero s (w ∷ ws) ks e = work-Moves closed s w ws ks e
  work_at-Moves closed (suc k) s (w ∷ ws) ks e =
      beside closed s _ w ws _ ks (work_at-Moves closed k s ws ks e)
