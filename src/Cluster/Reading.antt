-- ===== src/Cluster/Reading.antt =====
-- services/signalmesh-node/internal/cluster/store.go: what a node reports of the providers, and how
-- it forgets. `range` over a Go map goes through the entries in any order: the order is an argument.
use signalmesh.Base.{
  ℕ, suc, ◌+◌, ◌*◌, ◌/◌, Bool, false, Option, none, some, List, [], ◌∷◌, String, ltb, ◌==◌, str_eq,
  if◌then◌else◌, length, map,
}
use mathlib.Core.List.{Permᴰ}
use mathlib.Core.Option.{map as option_map}
use signalmesh.Base.Int.{ℤ, pos, negsuc, ltb_ℤ, leb_ℤ, add_ℤ, sub_ℕ}
use signalmesh.Base.Clock.{Time, second, since}
use signalmesh.Base.Float.{Float64, lit, fadd, fmul, fdiv, of_int, to_int}
use signalmesh.Base.Maps.{Map, lookup, insert}
use signalmesh.Base.Sorting.{sort, at_index, clamp}
use signalmesh.Providers.{ProviderHealth}
use signalmesh.Cluster.{Observation, Store, observation_ttl, node_alive, by_node}

-- The orders in which two loops go through their maps.
pub record MapOrder (F : Type 0) : Type 0 where
  pub observed : Map (Observation F) → Map (Observation F)
  pub counted : Map ℕ → Map ℕ

-- Every entry of the map, once each.
pub record IsMapOrder {F : Type 0} (ord : MapOrder F) : Type 0 where
  pub observed_all : (m : Map (Observation F)) → Permᴰ (ord.observed m) m
  pub counted_all : (m : Map ℕ) → Permᴰ (ord.counted m) m

abbrev pub seen_ttl : ℕ
seen_ttl = 60 * second

-- A count that is not in the map yet is 0.
abbrev pub or_zero : Option ℕ → ℕ
or_zero none = 0
or_zero (some n) = n

unfoldable pub increment : String → Map ℕ → Map ℕ
increment st counts = insert st (or_zero (lookup st counts) + 1) counts

-- `clusterSize/2 + 1`; the division cuts off toward 0.
unfoldable pub required : ℤ → ℤ
required (pos n) = pos (n / 2 + 1)
required (negsuc n) = add_ℤ (sub_ℕ 0 (suc n / 2)) (pos 1)

-- The first status in the order of the loop that has the required count.
unfoldable pub majority : ℤ → Map ℕ → String
majority r [] = "UNKNOWN"
majority r (entry ∷ rest) =
    let later = majority r rest in if leb_ℤ r (pos entry.1) then entry.0 else later

unfoldable pub expired : ℕ → Time → Time → Bool
expired ttl now at = ltb_ℤ (pos ttl) (since now at)

module _ {F : Type 0} where
  -- `IsZero` holds of the instant 0 alone.
  unfoldable pub set_local_provider_health : Store F → String → ProviderHealth F → Time → Store F
  set_local_provider_health s name health now =
      let named = record health { provider_name = name } in
      record s {
        local_health =
            insert name
              (if named.last_updated == 0 then record named { last_updated = now } else named)
              s.local_health;
      }

  unfoldable pub is_recent : Store F → Time → String × Observation F → Bool
  unfolding expired
  is_recent s now entry =
      if expired observation_ttl now entry.1.timestamp then false else node_alive s entry.0 now

  unfoldable pub recent_of : Store F → Time → Map (Observation F) → List (Observation F)
  unfolding is_recent
  recent_of s now [] = []
  recent_of s now (entry ∷ rest) =
      let others = recent_of s now rest in
      if is_recent s now entry then entry.1 ∷ others else others

  unfoldable pub tally : List (Observation F) → Map ℕ → Map ℕ
  unfolding increment
  tally [] counts = counts
  tally (o ∷ os) counts = tally os (increment o.status counts)

  unfoldable pub latest : Observation F → List (Observation F) → Observation F
  latest best [] = best
  latest best (o ∷ os) = latest (if ltb best.timestamp o.timestamp then o else best) os

  unfoldable pub status_of : MapOrder F → ℤ → Observation F → List (Observation F) → String
  unfolding tally majority latest required
  status_of ord cluster_size o os =
      let status = majority (required cluster_size) (ord.counted (tally (o ∷ os) [])) in
      if str_eq status "UNKNOWN" then (latest o (o ∷ os)).status else status

module _ {F : Type 0} ⦃fl : Float64 F⦄ where
  unfoldable pub p95_of : List (Observation F) → Option ℤ
  unfolding sort
  p95_of os =
      let latencies = map (λ o. o.p95_latency_ms) os in
      let n = length latencies in
      at_index (sort latencies) (clamp n (to_int (fmul (of_int {F = F} (pos n)) (lit 95 2))))

  unfoldable pub sum_by : (Observation F → F) → F → List (Observation F) → F
  sum_by f acc [] = acc
  sum_by f acc (o ∷ os) = sum_by f (fadd acc (f o)) os

  unfoldable pub mean_by : (Observation F → F) → List (Observation F) → F
  unfolding sum_by
  mean_by f os = fdiv (sum_by f (lit 0 0) os) (of_int (pos (length os)))

  -- A provider that nobody has reported has no name yet and version 0.
  abbrev pub name_of : Option (ProviderHealth F) → String
  name_of none = ""
  name_of (some health) = health.provider_name

  abbrev pub version_of : Option (ProviderHealth F) → ℕ
  version_of none = 0
  version_of (some health) = health.version

  abbrev unknown_health : String → Time → ProviderHealth F
  unknown_health name now = record {
    provider_name = name;
    status = "UNKNOWN";
    availability_pct = lit 100 0;
    p95_latency_ms = pos 0;
    contract_failure_pct = lit 0 0;
    last_updated = now;
    version = 0;
  }

  abbrev pub own_health : Option (ProviderHealth F) → String → Time → ProviderHealth F
  own_health none name now = unknown_health name now
  own_health (some health) name now =
      if str_eq health.provider_name "" then unknown_health name now else health

  unfoldable pub consensus :
      MapOrder F → Store F → String → Time → List (Observation F) → Option (ProviderHealth F)
  unfolding status_of p95_of mean_by
  consensus ord s name now [] = some (own_health (lookup name s.local_health) name now)
  consensus ord s name now (o ∷ os) =
      let recent = o ∷ os in
      option_map
        (λ p95. record {
          provider_name = name;
          status = status_of ord s.cluster_size o os;
          availability_pct = mean_by (λ obs. obs.availability_pct) recent;
          p95_latency_ms = p95;
          contract_failure_pct = mean_by (λ obs. obs.contract_failure_pct) recent;
          last_updated = now;
          version = version_of (lookup name s.local_health);
        })
        (p95_of recent)

  unfoldable pub get_provider_health :
      MapOrder F → Store F → String → Time → Option (ProviderHealth F)
  unfolding recent_of consensus
  get_provider_health ord s name now =
      consensus ord s name now (recent_of s now (ord.observed (by_node s name)))
