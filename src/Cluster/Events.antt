-- ===== src/Cluster/Events.antt =====
-- Events that arrive again, late, or out of order.
use signalmesh.Base.{
  ◌≡◌, ◌≢◌, refl, ap, ◌∙◌, subst, true, Option, none, some, List, [], ◌∷◌, String, All, arith,
  if◌then◌else◌, Bool-cases, inl, inr, ◌<◌, ◌≤◌, ◌⊎◌,
}
use signalmesh.Base.Clock.{Time}
use signalmesh.Base.Maps.{Map, lookup, insert, lookup-insert, str_eq_refl}
use signalmesh.Cluster.{
  Observation, Store, is_stale, is_old, or_empty, by_node, already_seen, set_observation,
}

module _ {F : Type 0} where
  -- An event that is known already is skipped.
  pub seen_again :
      (s : Store F) (event : String) (now : Time)
      → lookup event s.seen ≢ none
      → already_seen s event now ≡ (s, true)
  unfolding already_seen
  seen_again s event now h = ground arith

  -- What is stored of a node about a provider.
  abbrev pub current : Store F → String → String → Option (Observation F)
  current s provider node = lookup node (by_node s provider)

  -- The order of observations by time and then by version.
  abbrev pub NotNewer : Observation F → Observation F → Type 0
  NotNewer a b =
      (a.timestamp < b.timestamp) ⊎ ((a.timestamp ≡ b.timestamp) × (a.version ≤ b.version))

  NotNewer-trans : (a b c : Observation F) → NotNewer a b → NotNewer b c → NotNewer a c
  NotNewer-trans a b c p q = ground arith

  unfoldable pub set_all : Store F → List (Observation F) → Store F
  set_all s [] = s
  set_all s (o ∷ os) = set_all (set_observation s o) os

  -- The one of the two that is kept.
  abbrev kept : Option (Observation F) → Observation F → Observation F
  kept none o = o
  kept (some x) o = if is_stale o x then x else o

  kept_entry :
      (o : Observation F) (m : Map (Observation F)) (x : Option (Observation F))
      → lookup o.node_id m ≡ x
      → lookup o.node_id (if is_old o x then m else insert o.node_id o m) ≡ some (kept x o)
  unfolding is_old
  kept_entry o m none h = rw (lookup-insert o.node_id o.node_id o m, str_eq_refl o.node_id) refl
  kept_entry o m (some x) h = elim (Bool-cases (is_stale o x)) [
    | inl old ↦ rw old h
    | inr new ↦ rw (new, lookup-insert o.node_id o.node_id o m, str_eq_refl o.node_id) refl
  ]

  stored-set_observation :
      (s : Store F) (o : Observation F)
      → let m = by_node s o.provider in
        lookup o.provider (set_observation s o).observations
        ≡ some (if is_old o (lookup o.node_id m) then m else insert o.node_id o m)
  unfolding set_observation
  stored-set_observation s o =
      lookup-insert o.provider o.provider _ s.observations ∙ rw (str_eq_refl o.provider) refl

  current-set_observation :
      (s : Store F) (o : Observation F)
      → current (set_observation s o) o.provider o.node_id
        ≡ some (kept (current s o.provider o.node_id) o)
  current-set_observation s o =
      ap (λ x. lookup o.node_id (or_empty x)) (stored-set_observation s o)
      ∙ kept_entry o (by_node s o.provider) (lookup o.node_id (by_node s o.provider)) refl

  kept-NotNewer :
      (x o : Observation F) → NotNewer o (kept (some x) o) × NotNewer x (kept (some x) o)
  kept-NotNewer x o = ground arith

  kept_covers : (c : Option (Observation F)) (o : Observation F) → NotNewer o (kept c o)
  kept_covers none o = inr (refl, omega arith)
  kept_covers (some x) o = (kept-NotNewer x o).0

  abbrev pub IsFrom : String → String → Observation F → Type 0
  IsFrom provider node o = (o.provider ≡ provider) × (o.node_id ≡ node)

  current_after :
      (s : Store F) (o : Observation F) (provider node : String)
      → IsFrom provider node o
      → current (set_observation s o) provider node ≡ some (kept (current s provider node) o)
  current_after s o provider node f =
      subst (λ q. current (set_observation s o) q node ≡ some (kept (current s q node) o)) f.0
        (subst
          (λ n. current (set_observation s o) o.provider n ≡ some (kept (current s o.provider n) o))
          f.1 (current-set_observation s o))

  -- What is stored in the end, after observations of one node about one provider.
  pub record IsNewest (s : Store F) (provider node : String) (os : List (Observation F))
      (x : Observation F) : Type 0 where
    pub stored : current s provider node ≡ some x
    pub newest : All (λ o. NotNewer o x) os

  latest_from :
      (os : List (Observation F)) (s : Store F) (provider node : String) (x : Observation F)
      → current s provider node ≡ some x
      → All (IsFrom provider node) os
      → (y : Observation F) × IsNewest (set_all s os) provider node os y × NotNewer x y
  unfolding set_all
  latest_from [] s provider node x h f =
      (x, record { stored = h; newest = tt }, inr (refl, omega arith))
  latest_from (o ∷ os) s provider node x h f =
      let next = kept (some x) o in
      let (old, new) = kept-NotNewer x o in
      let (y, r, q) =
        latest_from os (set_observation s o) provider node next
          (current_after s o provider node f.0 ∙ ap (λ c. some (kept c o)) h) f.1 in
      (
        y,
        record { stored = r.stored; newest = (NotNewer-trans o next y old q, r.newest) },
        NotNewer-trans x next y new q,
      )

  -- In whatever order the observations of a node about a provider arrive, late ones included, one
  -- that none of them is newer than is stored in the end.
  pub latest_wins :
      (o : Observation F) (os : List (Observation F)) (s : Store F) (provider node : String)
      → All (IsFrom provider node) (o ∷ os)
      → (y : Observation F) × IsNewest (set_all s (o ∷ os)) provider node (o ∷ os) y
  unfolding set_all
  latest_wins o os s provider node f =
      let first = kept (current s provider node) o in
      let (y, r, q) =
        latest_from os (set_observation s o) provider node first
          (current_after s o provider node f.0) f.1 in
      (
        y,
        record {
          stored = r.stored;
          newest = (NotNewer-trans o first y (kept_covers (current s provider node) o) q, r.newest);
        },
      )
