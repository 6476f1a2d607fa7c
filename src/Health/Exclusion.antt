-- ===== src/Health/Exclusion.antt =====
-- From the probes of the nodes to the router's choice.
use signalmesh.Base.{
  ◌+◌, ◌/◌, ◌≤◌, ◌≡◌, ◌≢◌, false, some, arith, eq_iff, Bool-cases, inl, inr, String, ℕ,
}
use signalmesh.Base.Int.{pos}
use signalmesh.Base.Clock.{Time}
use signalmesh.Base.Float.{Float64}
use signalmesh.Base.Perms.{count_of}
use signalmesh.Providers.{ProviderHealth}
use signalmesh.Policy.{Policy}
use signalmesh.Router.{ProviderEntry, Sources, health_of, evaluate}
use signalmesh.Router.Gates.{allowed_iff}
use signalmesh.Cluster.{Store, by_node}
use signalmesh.Cluster.Reading.{MapOrder, IsMapOrder, is_recent, get_provider_health}
use signalmesh.Cluster.Consensus.{supports, majority_wins}

unhealthy_known : ◌≢◌ {A = String} "UNHEALTHY" "UNKNOWN"
unhealthy_known h = ground (arith, eq_iff "UNHEALTHY" "UNKNOWN", h)

module _ {F : Type 0} ⦃fl : Float64 F⦄ where
  -- The router reads the health of a provider from the cluster store.
  pub record IsReading (src : Sources F) (ord : MapOrder F) (s : Store F) (name : String)
      (now : Time) : Type 0 where
    pub source : String → ProviderHealth F
    pub connected : src.health_source ≡ some source
    pub read : get_provider_health ord s name now ≡ some (source name)

  status_read :
      (src : Sources F) (name st : String) (source : String → ProviderHealth F)
      → src.health_source ≡ some source
      → (source name).status ≡ st
      → (health_of src name).status ≡ st
  unfolding health_of
  status_read src name st source c e = rw c (ground arith)

  -- If a strict majority of the cluster size, of the live nodes with a fresh observation, reports a
  -- provider as UNHEALTHY, and no more nodes than the cluster size report, then a router that reads
  -- the store does not allow the provider, whatever its breaker, the policy and the budget are.
  pub outage_excludes :
      (src : Sources F) (ord : MapOrder F) (s : Store F) (e : ProviderEntry F) (now : Time) (c : ℕ)
      (pol : Policy F) (remaining : F)
      → IsMapOrder ord
      → IsReading src ord s e.provider now
      → s.cluster_size ≡ pos c
      → c / 2 + 1 ≤ count_of (supports s now "UNHEALTHY") (by_node s e.provider)
      → count_of (is_recent s now) (by_node s e.provider) ≤ c
      → (evaluate src pol remaining e).allowed ≡ false
  outage_excludes src ord s e now c pol remaining all r size votes few =
      let agreed =
        majority_wins ord s e.provider "UNHEALTHY" now c all size unhealthy_known votes few in
      let status : (r.source e.provider).status ≡ "UNHEALTHY" = ground (arith, r.read, agreed) in
      elim (Bool-cases (evaluate src pol remaining e).allowed) [
        | inr refused ↦ refused
        | inl permitted ↦ absurd (
            ((allowed_iff src pol remaining e).0 permitted).not_unhealthy
              (status_read src e.provider "UNHEALTHY" r.source r.connected status))
      ]
