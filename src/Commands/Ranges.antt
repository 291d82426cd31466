-- ===== src/Commands/Ranges.antt =====
-- The times that src/commands.cpp gathers: `update_range`, `update_interval` and the recursions that
-- count zones.
use tracy_query.Prelude.{ℕ, add_u64, Option, none, some, if◌then◌else◌}
use tracy_query.Prelude.Int.{ℤ, ltb_ℤ}
use tracy_query.Visit.Worker.{Forest, nil, node, GpuZoneData, GhostZoneData}

pub record Range : Type 0 where
  pub first : Option ℤ
  pub last : Option ℤ

abbrev pub no_range : Range
no_range = record { first = none; last = none }

abbrev pub earlier : ℤ → Option ℤ → Option ℤ
earlier t none = some t
earlier t (some first) = if ltb_ℤ t first then some t else some first

abbrev pub later : ℤ → Option ℤ → Option ℤ
later t none = some t
later t (some last) = if ltb_ℤ last t then some t else some last

unfoldable pub update_range : ℤ → Range → Range
update_range t r = record { first = earlier t r.first; last = later t r.last }

unfoldable pub update_interval : ℤ → ℤ → Range → Range
unfolding update_range
update_interval begin end r = update_range end (update_range begin r)

-- Each zone is counted, then those inside it.
unfoldable pub count_gpu_zones : Forest GpuZoneData → Range → ℕ × Range
unfolding update_interval
count_gpu_zones nil r = (0, r)
count_gpu_zones (node zone children rest) r =
    let (inside, r₁) = count_gpu_zones children (update_interval zone.start zone.end r) in
    let (after, r₂) = count_gpu_zones rest r₁ in (add_u64 (add_u64 1 inside) after, r₂)

unfoldable pub count_ghost_zones : Forest GhostZoneData → Range → ℕ × Range
unfolding update_interval
count_ghost_zones nil r = (0, r)
count_ghost_zones (node zone children rest) r =
    let (inside, r₁) = count_ghost_zones children (update_interval zone.start zone.end r) in
    let (after, r₂) = count_ghost_zones rest r₁ in (add_u64 (add_u64 1 inside) after, r₂)
