-- ===== src/Examples/Balancing.antt =====
-- The load balancer with two backends of which the first is down.
use signalmesh.Base.{
  ℕ, ◌≡◌, refl, true, Option, none, some, List, [], ◌∷◌, String, arith, if◌then◌else◌,
}
use signalmesh.Base.Text.{codes, codes_eq}
use signalmesh.LoadBalancer.{Request, Outcome, new_load_balancer, target, serve_http}
use signalmesh.LoadBalancer.Rotation.{reaches_backend}

abbrev backends : List (List ℕ)
backends = codes "http://a" ∷ codes "http://b" ∷ []

abbrev request : Request
request = record { readable = true; path = codes "/v1"; raw_query = [] }

abbrev exchange : ℕ → List ℕ → Option String
exchange i url = if codes_eq url (codes "http://b/v1") then some "hello" else none

parsed :
    new_load_balancer (codes " http://a,http://b")
    ≡ some (record { backends = backends; current = 0 })
unfolding new_load_balancer
parsed = refl

up : (k : ℕ) → (resp : String) × (exchange k (target (codes "http://b") request) ≡ some resp)
unfolding target codes_eq
up k = ("hello", refl)

reaches_backend_example :
    (resp : String) × ((serve_http
        (record { backends = backends; current = 1 })
        request
        exchange
        (λ i. 0)).1
      ≡ Outcome.answered resp)
reaches_backend_example =
    reaches_backend backends request exchange (codes "http://b") 1 1 refl up refl (omega arith)

-- One call of `next` by another request between the attempts, and the backend that is up is missed.
starved :
    (serve_http (record { backends = backends; current = 0 }) request exchange (λ i. 1)).1
    ≡ Outcome.bad_gateway
unfolding serve_http codes_eq
starved = refl
