-- ===== src/LoadBalancer.antt =====
-- services/signalmesh-node/cmd/signalmesh-lb/main.go: the round-robin load balancer. The counter is a
-- `uint64` that wraps, and each call of `next` is one atomic step. Other requests may call it between
-- two attempts of a request: how often is an argument. `exchange` is the HTTP request to a backend,
-- for each attempt. Texts are given by their code points.
pub mod Rotation
use mathlib.Core.Option.{map as option_map}
use signalmesh.Base.{
  ℕ, zero, suc, ◌+◌, ◌%◌, Bool, true, false, Option, none, some, List, [], ◌∷◌, ◌++◌, String, ◌==◌,
  length, get_elem?, if◌then◌else◌,
}
use mathlib.Core.List.{reverse}
use signalmesh.Base.Text.{split_commas, trimmed_parts, codes, codes_eq, trim_space}

pub record LoadBalancer : Type 0 where
  pub backends : List (List ℕ)
  pub current : ℕ

-- What the client sends, as far as the balancer reads it.
pub record Request : Type 0 where
  pub readable : Bool
  pub path : List ℕ
  pub raw_query : List ℕ

pub data Outcome (R : Type 0) : Type 0 where
  answered : R → Outcome R
  bad_request : Outcome R
  bad_gateway : Outcome R
  panicked : Outcome R

-- The balancer that `main` sets up; without backends it exits, `none`.
unfoldable pub new_load_balancer : List ℕ → Option LoadBalancer
unfolding split_commas trimmed_parts codes_eq
new_load_balancer backends_env = elim (trimmed_parts (split_commas [] backends_env)) [
  | [] ↦ none
  | b ∷ bs ↦ some (record { backends = b ∷ bs; current = 0 })
]

-- `strings.TrimSuffix(backend, "/")`.
unfoldable pub trim_slash : List ℕ → List ℕ
trim_slash [] = []
trim_slash (c ∷ cs) =
    let rest = trim_slash cs in if codes_eq (c ∷ cs) (b'/' ∷ []) then [] else c ∷ rest

unfoldable pub target : List ℕ → Request → List ℕ
unfolding trim_slash codes_eq
target backend r =
    trim_slash backend ++ r.path ++ (if codes_eq r.raw_query [] then [] else b'?' ∷ r.raw_query)

unfoldable pub next : ℕ → ℕ
next current = (current + 1) % 18446744073709551616

-- The counter after some calls of `next`.
unfoldable pub nexts : ℕ → ℕ → ℕ
unfolding next
nexts zero current = current
nexts (suc n) current = nexts n (next current)

module _ {R : Type 0} where
  -- A response is passed on, an error lets the loop go on.
  abbrev pub on_response : ℕ → ℕ × Outcome R → Option R → ℕ × Outcome R
  on_response mine later none = later
  on_response mine later (some resp) = (mine, Outcome.answered resp)

  -- An index out of range would be a panic.
  abbrev pub on_backend : (List ℕ → Option R) → ℕ → ℕ × Outcome R → Option (List ℕ) → ℕ × Outcome R
  on_backend send mine later none = (mine, Outcome.panicked)
  on_backend send mine later (some backend) = on_response mine later (send backend)

  -- The loop from an attempt on, with the number of attempts that are left. The new counter comes
  -- with the outcome.
  unfoldable pub try_backends :
      List (List ℕ) → Request → (ℕ → List ℕ → Option R) → (ℕ → ℕ) → ℕ → ℕ → ℕ → ℕ × Outcome R
  unfolding next nexts target
  try_backends backends r exchange others i zero current = (current, Outcome.bad_gateway)
  try_backends backends r exchange others i (suc left) current =
      let mine = next (nexts (others i) current) in
      let later = try_backends backends r exchange others (suc i) left mine in
      on_backend (λ backend. exchange i (target backend r)) mine later
        (get_elem? backends (mine % length backends))

  unfoldable pub serve_http :
      LoadBalancer → Request → (ℕ → List ℕ → Option R) → (ℕ → ℕ) → LoadBalancer × Outcome R
  unfolding try_backends
  serve_http lb r exchange others =
      if r.readable
      then (let (current, outcome) =
            try_backends lb.backends r exchange others 0 (length lb.backends) lb.current in
          (record lb { current = current }, outcome))
      else (lb, Outcome.bad_request)
