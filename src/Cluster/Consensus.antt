-- ===== src/Cluster/Consensus.antt =====
-- What the nodes agree on is what is reported, in whatever order the maps are read.
use mathlib.Core.Option.{map as option_map}
use signalmesh.Base.{
  ℕ, ◌+◌, ◌/◌, ◌≤◌, ◌≡◌, ◌≢◌, refl, ap, ◌∙◌, subst, Bool, true, false, some, List, [], ◌∷◌, String,
  All, arith, str_eq, eq_iff, if◌then◌else◌, Bool-cases, inl, inr, length, map,
}
use signalmesh.Base.Int.{ℤ, pos, leb_ℤ}
use signalmesh.Base.Clock.{Time}
use signalmesh.Base.Float.{Float64}
use signalmesh.Base.Maps.{Map, lookup, insert, lookup-insert, str_eq_refl}
use signalmesh.Base.Perms.{sum_of, count_of, count_of-perm, All-perm}
use signalmesh.Base.Sorting.{sort, length-sort, at_index-clamp}
use signalmesh.Cluster.{Observation, Store, by_node}
use signalmesh.Cluster.Reading.{
  MapOrder, IsMapOrder, or_zero, increment, required, majority, is_recent, recent_of, tally,
  status_of, p95_of, consensus, get_provider_health,
}

module _ {F : Type 0} where
  -- How many observations have a status.
  abbrev votes : String → List (Observation F) → ℕ
  votes st os = count_of (λ o. str_eq o.status st) os

  -- The entries of live nodes that are fresh and have a status.
  abbrev pub supports : Store F → Time → String → String × Observation F → Bool
  supports s now st entry = if is_recent s now entry then str_eq entry.1.status st else false

  votes-recent :
      (s : Store F) (now : Time) (st : String) (m : Map (Observation F))
      → votes st (recent_of s now m) ≡ count_of (supports s now st) m
  unfolding recent_of count_of sum_of
  votes-recent s now st [] = refl
  votes-recent s now st (entry ∷ rest) = ground (arith, votes-recent s now st rest)

  length-recent :
      (s : Store F) (now : Time) (m : Map (Observation F))
      → length (recent_of s now m) ≡ count_of (is_recent s now) m
  unfolding recent_of count_of sum_of
  length-recent s now [] = refl
  length-recent s now (entry ∷ rest) = ground (arith, length-recent s now rest)

  -- Nobody votes twice.
  votes_apart :
      (a b : String) (os : List (Observation F)) → a ≢ b → votes a os + votes b os ≤ length os
  unfolding count_of sum_of
  votes_apart a b [] d = omega arith
  votes_apart a b (o ∷ os) d =
      ground (arith, votes_apart a b os d, eq_iff o.status a, eq_iff o.status b)

or_zero-increment :
    (st k : String) (m : Map ℕ)
    → or_zero (lookup k (increment st m)) ≡ (if str_eq st k then 1 else 0) + or_zero (lookup k m)
unfolding increment
or_zero-increment st k m =
    ground (arith, lookup-insert st k (or_zero (lookup st m) + 1) m, eq_iff st k)

-- No count is above a bound that depends on the key.
abbrev IsWithin : (String → ℕ) → Map ℕ → Type 0
IsWithin g m = All (λ e. e.1 ≤ g e.0) m

IsWithin-insert :
    (g : String → ℕ) (k : String) (v : ℕ) (m : Map ℕ)
    → IsWithin g m
    → v ≤ g k
    → IsWithin g (insert k v m)
unfolding insert
IsWithin-insert g k v [] h l = (l, tt)
IsWithin-insert g k v (e ∷ rest) h l = elim (Bool-cases (str_eq e.0 k)) [
  | inl same ↦ rw same (IsWithin-insert g k v rest h.1 l)
  | inr other ↦ rw other (h.0, IsWithin-insert g k v rest h.1 l)
]

IsWithin-mono :
    (g g' : String → ℕ) (m : Map ℕ) → ((k : String) → g k ≤ g' k) → IsWithin g m → IsWithin g' m
IsWithin-mono g g' [] le h = tt
IsWithin-mono g g' (e ∷ rest) le h = (omega (arith, h.0, le e.0), IsWithin-mono g g' rest le h.1)

IsWithin-lookup :
    (g : String → ℕ) (k : String) (m : Map ℕ) → IsWithin g m → or_zero (lookup k m) ≤ g k
unfolding lookup
IsWithin-lookup g k [] h = omega arith
IsWithin-lookup g k (e ∷ rest) h = elim (Bool-cases (str_eq e.0 k)) [
  | inl same ↦ rw same (subst (λ q. e.1 ≤ g q) ((eq_iff e.0 k).0 same) h.0)
  | inr other ↦ rw other (IsWithin-lookup g k rest h.1)
]

module _ {F : Type 0} where
  or_zero-tally :
      (k : String) (os : List (Observation F)) (m : Map ℕ)
      → or_zero (lookup k (tally os m)) ≡ votes k os + or_zero (lookup k m)
  unfolding tally count_of sum_of
  or_zero-tally k [] m = omega arith
  or_zero-tally k (o ∷ os) m =
      omega (arith, or_zero-tally k os (increment o.status m), or_zero-increment o.status k m)

  IsWithin-tally :
      (os : List (Observation F)) (g : String → ℕ) (m : Map ℕ)
      → IsWithin g m
      → IsWithin (λ k. votes k os + g k) (tally os m)
  unfolding tally increment count_of sum_of
  IsWithin-tally [] g m h = IsWithin-mono g _ m (λ k. omega arith) h
  IsWithin-tally (o ∷ os) g m h =
      let one = λ (k : String). (if str_eq o.status k then 1 else 0) + g k in
      IsWithin-mono _ _ _ (λ k. omega arith)
        (IsWithin-tally os one (increment o.status m) (
          IsWithin-insert one o.status _ m (IsWithin-mono g one m (λ k. omega arith) h)
            (rw (str_eq_refl o.status) (omega (arith, IsWithin-lookup g o.status m h)))))

-- A status that is read with the required count is found in the loop.
reaches :
    (r : ℤ) (k : String) (m : Map ℕ)
    → leb_ℤ r (pos (or_zero (lookup k m))) ≡ true
    → leb_ℤ r (pos 0) ≡ false
    → 1 ≤ count_of (λ e. leb_ℤ r (pos e.1)) m
unfolding lookup count_of sum_of
reaches r k [] h z = ground arith
reaches r k (e ∷ rest) h z = elim (Bool-cases (str_eq e.0 k)) [
  | inl same ↦ ground arith
  | inr other ↦ ground (arith, reaches r k rest)
]

majority-found :
    (r : ℤ) (st : String) (m : Map ℕ)
    → All (λ e. leb_ℤ r (pos e.1) ≡ true → e.0 ≡ st) m
    → 1 ≤ count_of (λ e. leb_ℤ r (pos e.1)) m
    → majority r m ≡ st
unfolding majority count_of sum_of
majority-found r st [] h n = absurd (omega arith)
majority-found r st (e ∷ rest) h n = elim (Bool-cases (leb_ℤ r (pos e.1))) [
  | inl enough ↦ rw enough (h.0 enough)
  | inr few ↦ rw few (majority-found r st rest h.1 (ground arith))
]

module _ {F : Type 0} where
  module _ (ord : MapOrder F) (all : IsMapOrder ord) (c : ℕ) (st : String) where
    only_majority :
        (os : List (Observation F)) (e : String × ℕ)
        → c / 2 + 1 ≤ votes st os
        → length os ≤ c
        → e.1 ≤ votes e.0 os + 0
        → leb_ℤ (pos (c / 2 + 1)) (pos e.1) ≡ true
        → e.0 ≡ st
    only_majority os e v l b r = elim (Bool-cases (str_eq e.0 st)) [
      | inl same ↦ (eq_iff e.0 st).0 same
      | inr other ↦ ground (arith, votes_apart e.0 st os, eq_iff e.0 st)
    ]

    All-map_imp :
        (os : List (Observation F)) (m : Map ℕ)
        → c / 2 + 1 ≤ votes st os
        → length os ≤ c
        → IsWithin (λ k. votes k os + 0) m
        → All (λ e. leb_ℤ (pos (c / 2 + 1)) (pos e.1) ≡ true → e.0 ≡ st) m
    All-map_imp os [] v l h = tt
    All-map_imp os (e ∷ rest) v l h = (only_majority os e v l h.0, All-map_imp os rest v l h.1)

    status_of-majority :
        (o : Observation F) (os : List (Observation F))
        → st ≢ "UNKNOWN"
        → c / 2 + 1 ≤ votes st (o ∷ os)
        → length (o ∷ os) ≤ c
        → status_of ord (pos c) o os ≡ st
    unfolding status_of required
    status_of-majority o os known v l =
        let m = tally (o ∷ os) [] in
        let found : majority (pos (c / 2 + 1)) (ord.counted m) ≡ st =
          majority-found (pos (c / 2 + 1)) st (ord.counted m)
            (All-perm _ (all.counted_all m)
              (All-map_imp (o ∷ os) m v l (IsWithin-tally (o ∷ os) (λ k. 0) [] tt)))
            (omega (
              arith,
              count_of-perm (λ e. leb_ℤ (pos (c / 2 + 1)) (pos e.1)) (all.counted_all m),
              reaches (pos (c / 2 + 1)) st m (rw (or_zero-tally st (o ∷ os) []) (ground arith))
                  (ground arith),
            )) in
        rw found (ground (arith, eq_iff st "UNKNOWN"))

module _ {F : Type 0} ⦃fl : Float64 F⦄ where
  p95_value : (o : Observation F) (os : List (Observation F)) → (p : ℤ) × (p95_of (o ∷ os) ≡ some p)
  unfolding p95_of
  p95_value o os =
      let latencies = map (λ x. x.p95_latency_ms) (o ∷ os) in
      at_index-clamp (sort latencies) (length (map (λ (x : Observation F). x.p95_latency_ms) os)) _
        (length-sort latencies)

  -- What is reported when some nodes have a fresh observation.
  consensus-some :
      (ord : MapOrder F) (s : Store F) (name : String) (now : Time) (o : Observation F)
      (os : List (Observation F))
      → option_map (λ h. h.status) (consensus ord s name now (o ∷ os))
        ≡ some (status_of ord s.cluster_size o os)
  unfolding consensus
  consensus-some ord s name now o os = rw ((p95_value o os).1) refl

  consensus_majority :
      (ord : MapOrder F) (s : Store F) (name st : String) (now : Time) (c : ℕ)
      (os : List (Observation F))
      → IsMapOrder ord
      → s.cluster_size ≡ pos c
      → st ≢ "UNKNOWN"
      → c / 2 + 1 ≤ votes st os
      → length os ≤ c
      → option_map (λ h. h.status) (consensus ord s name now os) ≡ some st
  unfolding count_of sum_of
  consensus_majority ord s name st now c [] all size known v l = absurd (omega arith)
  consensus_majority ord s name st now c (o ∷ os) all size known v l =
      consensus-some ord s name now o os
      ∙ ap some
          (ap (λ z. status_of ord z o os) size ∙ status_of-majority ord all c st o os known v l)

  -- If a strict majority of the cluster size, of the live nodes with a fresh observation, reports one
  -- status other than UNKNOWN, and no more nodes than the cluster size report, then that status is
  -- what GetProviderHealth reports, in whatever order it reads its maps.
  pub majority_wins :
      (ord : MapOrder F) (s : Store F) (name st : String) (now : Time) (c : ℕ)
      → IsMapOrder ord
      → s.cluster_size ≡ pos c
      → st ≢ "UNKNOWN"
      → c / 2 + 1 ≤ count_of (supports s now st) (by_node s name)
      → count_of (is_recent s now) (by_node s name) ≤ c
      → option_map (λ h. h.status) (get_provider_health ord s name now) ≡ some st
  unfolding get_provider_health
  majority_wins ord s name st now c all size known v l =
      let m = by_node s name in
      let read = all.observed_all m in
      consensus_majority ord s name st now c (recent_of s now (ord.observed m)) all size known
        (omega
          (arith, votes-recent s now st (ord.observed m), count_of-perm (supports s now st) read))
        (omega (arith, length-recent s now (ord.observed m), count_of-perm (is_recent s now) read))
