-- ===== src/Providers/Registry.antt =====
-- services/signalmesh-node/internal/providers/registry.go: the providers by name.
use signalmesh.Base.{◌≡◌, Option, some, String, List, map, str_eq, if◌then◌else◌}
use signalmesh.Base.Maps.{Map, lookup, insert, lookup-insert}

module _ {P : Type 0} where
  unfoldable pub register : (P → String) → Map P → P → Map P
  unfolding insert
  register name_of registry p = insert (name_of p) p registry

  -- A provider that is not found is an error, `none`.
  unfoldable pub get : Map P → String → Option P
  unfolding lookup
  get registry name = lookup name registry

  -- In the order of the map, which is any.
  unfoldable pub list : Map P → List P
  list registry = map (λ entry. entry.1) registry

  -- Of the providers registered under a name Get finds the one registered last.
  pub get-register :
      (name_of : P → String) (registry : Map P) (p : P) (name : String)
      → get (register name_of registry p) name
        ≡ (if str_eq (name_of p) name then some p else get registry name)
  unfolding get register
  get-register name_of registry p name = lookup-insert (name_of p) name p registry
