-- ===== src/Adapter/Registry.antt =====
-- The registry is total and consistent (src/adapter.cpp).
use tracy_query.Prelude.{not, ◌||◌, ◌≡◌, refl, Bool, true, false, some, [], ◌∷◌, map, codes, take}
use tracy_query.Model
use tracy_query.Model.{Kind, kind_number}
use tracy_query.Adapter.{AdapterDescriptor, adapter_registry, adapter_for}

-- The kinds that the command line accepts zone structure options for.
abbrev pub is_zone : Kind → Bool
is_zone Kind.cpu_zone = true
is_zone Kind.gpu_zone = true
is_zone Kind.ghost_zone = true
is_zone _ = false

-- A descriptor fits a kind: it is that kind's, it is nested exactly for the zone kinds, what nests
-- has an end, and its filters begin with the three fields that every record has.
pub record Fits (k : Kind) (a : AdapterDescriptor) : Type 0 where
  pub own : a.kind ≡ k
  pub zones : a.nested ≡ is_zone k
  pub ends : (not a.nested || a.interval) ≡ true
  pub common : take 3 a.filter_fields ≡ codes "trace" ∷ codes "source" ∷ codes "kind" ∷ []

-- Every kind has a descriptor that is its own, is nested exactly for the zones, has an interval if it
-- is nested, and whose first filter fields are trace, source and kind.
pub adapter_for-total : (k : Kind) → (a : AdapterDescriptor) × (adapter_for k ≡ some a) × Fits k a
unfolding adapter_for
adapter_for-total Kind.message =
    (_, refl, record { own = refl; zones = refl; ends = refl; common = refl })
adapter_for-total Kind.plot =
    (_, refl, record { own = refl; zones = refl; ends = refl; common = refl })
adapter_for-total Kind.cpu_zone =
    (_, refl, record { own = refl; zones = refl; ends = refl; common = refl })
adapter_for-total _ = (_, refl, record { own = refl; zones = refl; ends = refl; common = refl })

pub map-kind-registry :
    map (λ a. kind_number a.kind) adapter_registry ≡ map kind_number Model.all_kinds
unfolding adapter_registry
map-kind-registry = refl
