-- ===== src/Commands/Extremes.antt =====
-- The ranges that `count_gpu_zones` and `count_ghost_zones` of src/commands.cpp gather.
use tracy_query.Prelude.{
  u64_mod, ◌<◌, ◌≡◌, refl, Bool, true, false, ◌&&◌, Option, none, some, arith,
}
use tracy_query.Prelude.Int.{ℤ, leb_ℤ}
use tracy_query.Visit.Worker.{Forest, nil, node, GpuZoneData}
use tracy_query.Visit.Numbers.{size}
use tracy_query.Commands.Ranges.{Range, update_range, update_interval, count_gpu_zones}

-- The time is between the first and the last of the range.
abbrev after_first : Option ℤ → ℤ → Bool
after_first none t = false
after_first (some first) t = leb_ℤ first t

abbrev before_last : Option ℤ → ℤ → Bool
before_last none t = false
before_last (some last) t = leb_ℤ t last

abbrev pub covers : Range → ℤ → Bool
covers r t = after_first r.first t && before_last r.last t

update_range-covers : (t : ℤ) (r : Range) → covers (update_range t r) t ≡ true
unfolding update_range
update_range-covers t r = ground arith

update_range-keeps : (t u : ℤ) (r : Range) → covers r u ≡ true → covers (update_range t r) u ≡ true
unfolding update_range
update_range-keeps t u r h = ground arith

update_interval-covers :
    (begin end : ℤ) (r : Range)
    → (covers (update_interval begin end r) begin ≡ true)
      × (covers (update_interval begin end r) end ≡ true)
unfolding update_interval
update_interval-covers begin end r = (
  update_range-keeps end begin (update_range begin r) (update_range-covers begin r),
  update_range-covers end (update_range begin r),
)

update_interval-keeps :
    (begin end u : ℤ) (r : Range)
    → covers r u ≡ true
    → covers (update_interval begin end r) u ≡ true
unfolding update_interval
update_interval-keeps begin end u r h =
    update_range-keeps end u (update_range begin r) (update_range-keeps begin u r h)

count_gpu_zones-keeps :
    (f : Forest GpuZoneData) (u : ℤ) (r : Range)
    → covers r u ≡ true
    → covers (count_gpu_zones f r).1 u ≡ true
unfolding count_gpu_zones
count_gpu_zones-keeps nil u r h = h
count_gpu_zones-keeps (node zone children rest) u r h =
    let r₀ : Range = update_interval zone.start zone.end r in
    count_gpu_zones-keeps rest u (count_gpu_zones children r₀).1
      (count_gpu_zones-keeps children u r₀ (update_interval-keeps zone.start zone.end u r h))

-- A property of all the zones of a vector, those inside others too.
abbrev pub AllZones {ℓ} : {A : Type ℓ} → (A → Type 0) → Forest A → Type 0
AllZones P nil = Unit
AllZones P (node zone children rest) = P zone × AllZones P children × AllZones P rest

AllZones-map {ℓ} :
    {A : Type ℓ} {P Q : A → Type 0} (g : (a : A) → P a → Q a) (f : Forest A)
    → AllZones P f
    → AllZones Q f
AllZones-map g nil h = tt
AllZones-map g (node zone children rest) h =
    (g zone h.0, AllZones-map g children h.1, AllZones-map g rest h.2)

abbrev pub InRange : Range → GpuZoneData → Type 0
InRange r zone = (covers r zone.start ≡ true) × (covers r zone.end ≡ true)

-- The recursion over the zones of a GPU thread counts every zone, where there are fewer than 2 ^
-- 64, and the range that it gathers, from any range, covers the start and the end of every zone.
pub count_gpu_zones_lem :
    (f : Forest GpuZoneData) (r : Range)
    → size f < u64_mod
    → ((count_gpu_zones f r).0 ≡ size f) × AllZones (InRange (count_gpu_zones f r).1) f
unfolding count_gpu_zones
count_gpu_zones_lem nil r small = (refl, tt)
count_gpu_zones_lem (node zone children rest) r small =
    let r₀ : Range = update_interval zone.start zone.end r in
    let r₁ : Range = (count_gpu_zones children r₀).1 in
    let inside = count_gpu_zones_lem children r₀ (omega (arith, small)) in
    let after = count_gpu_zones_lem rest r₁ (omega (arith, small)) in
    let these = update_interval-covers zone.start zone.end r in
    let on : (u : ℤ) → covers r₁ u ≡ true → covers (count_gpu_zones rest r₁).1 u ≡ true =
      λ u. count_gpu_zones-keeps rest u r₁ in
    (
      omega (arith, inside.0, after.0, small),
      (
        (
          on zone.start (count_gpu_zones-keeps children zone.start r₀ these.0),
          on zone.end (count_gpu_zones-keeps children zone.end r₀ these.1),
        ),
        AllZones-map (λ z h. (on z.start h.0, on z.end h.1)) children inside.1,
        after.1,
      ),
    )
