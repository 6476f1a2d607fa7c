-- ===== src/Cluster/Cleanup.antt =====
-- What a cleanup forgets is what nothing reads any more.
use signalmesh.Base.{
  ◌≤◌, ◌≡◌, refl, sym, ap, ◌∙◌, true, List, [], ◌∷◌, String, arith, Bool-cases, inl, inr,
}
use signalmesh.Base.Clock.{Time}
use signalmesh.Base.Float.{Float64}
use signalmesh.Base.Maps.{Map, lookup, retain, lookup-delete}
use signalmesh.Cluster.{Observation, Store, observation_ttl, or_empty, node_alive}
use signalmesh.Cluster.Reading.{
  MapOrder, expired, is_recent, recent_of, consensus, get_provider_health,
}
use signalmesh.Cluster.Upkeep.{is_empty, fresh, prune, cleanup}

expired-later :
    (ttl now t at : Time) → now ≤ t → expired ttl now at ≡ true → expired ttl t at ≡ true
unfolding expired
expired-later ttl now t at l h = ground arith

module _ {F : Type 0} where
  recent-fresh :
      (s : Store F) (now t : Time) (m : Map (Observation F))
      → now ≤ t
      → recent_of s t (fresh now m) ≡ recent_of s t m
  unfolding recent_of fresh retain is_recent
  recent-fresh s now t [] l = refl
  recent-fresh s now t (e ∷ rest) l =
      ground
        (arith, recent-fresh s now t rest l, expired-later observation_ttl now t e.1.timestamp l)

  is_empty-nil : (m : Map (Observation F)) → is_empty m ≡ true → m ≡ []
  unfolding is_empty
  is_empty-nil [] h = refl
  is_empty-nil (e ∷ m) h = cc

  recent-prune :
      (s : Store F) (now t : Time) (name : String) (all : Map (Map (Observation F)))
      → now ≤ t
      → recent_of s t (or_empty (lookup name (prune now all)))
        ≡ recent_of s t (or_empty (lookup name all))
  unfolding prune lookup recent_of
  recent-prune s now t name [] l = refl
  recent-prune s now t name (e ∷ rest) l =
      let here = recent-fresh s now t e.1 l in
      let there = recent-prune s now t name rest l in
      elim (Bool-cases (is_empty (fresh now e.1))) [
        | inl gone ↦
            rw (gone, lookup-delete e.0 name (prune now rest))
              (ground (arith, here, there, is_empty-nil (fresh now e.1) gone))
        | inr kept ↦ rw kept (ground (arith, here, there))
      ]

module _ {F : Type 0} ⦃fl : Float64 F⦄ where
  -- The reports read nothing else that a cleanup changes.
  recent-cleanup :
      (s : Store F) (now t : Time) (m : Map (Observation F))
      → recent_of (cleanup s now) t m ≡ recent_of s t m
  unfolding cleanup recent_of is_recent node_alive
  recent-cleanup s now t [] = refl
  recent-cleanup s now t (e ∷ rest) = rw (recent-cleanup s now t rest) refl

  consensus-cleanup :
      (ord : MapOrder F) (s : Store F) (now : Time) (name : String) (t : Time)
      (os : List (Observation F))
      → consensus ord (cleanup s now) name t os ≡ consensus ord s name t os
  unfolding cleanup consensus
  consensus-cleanup ord s now name t [] = refl
  consensus-cleanup ord s now name t (o ∷ os) = refl

  -- From the instant of a cleanup on, GetProviderHealth reports of every provider what it would
  -- report without the cleanup, provided that it reads its map in the order of the entries.
  pub cleanup_silent :
      (ord : MapOrder F) (s : Store F) (now t : Time) (name : String)
      → ((m : Map (Observation F)) → ord.observed m ≡ m)
      → now ≤ t
      → get_provider_health ord (cleanup s now) name t ≡ get_provider_health ord s name t
  unfolding get_provider_health cleanup
  cleanup_silent ord s now t name same l =
      consensus-cleanup ord s now name t _
      ∙ ap (consensus ord s name t) (
          recent-cleanup s now t _
          ∙ ap (recent_of s t) (same _)
          ∙ recent-prune s now t name s.observations l
          ∙ ap (recent_of s t) (sym (same _)))
