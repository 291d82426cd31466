-- ===== src/Query/Range.antt =====
-- `temporal_range_match` of src/query.cpp.
use tracy_query.Prelude.{
  ◌≡◌, Bool, true, false, ◌&&◌, ◌||◌, not, Option, none, some, arith, if◌then◌else◌, ◌↔◌,
}
use tracy_query.Prelude.Int.{ℤ, pos, ◌≤ℤ◌, leb_ℤ}
use tracy_query.Model.{RangeMatch, Record, TimeSelection}

abbrev pub value_or : Option ℤ → ℤ → ℤ
value_or none d = d
value_or (some a) d = a

abbrev pub is_some {ℓ} : {A : Type ℓ} → Option A → Bool
is_some none = false
is_some (some a) = true

abbrev pub explicit_range : TimeSelection → Bool
explicit_range t = is_some t.from_ns || (is_some t.to_ns || (t.from_start || t.to_end))

abbrev pub end_of : Record → ℤ
end_of r = value_or r.end_timestamp_ns r.timestamp_ns

-- The three modes, from the record's two times and the range's.
unfoldable pub range_match : RangeMatch → ℤ → ℤ → ℤ → ℤ → Bool
range_match RangeMatch.overlap begin end from to = leb_ℤ begin to && leb_ℤ from end
range_match RangeMatch.start begin end from to = leb_ℤ from begin && leb_ℤ begin to
range_match RangeMatch.contained begin end from to = leb_ℤ from begin && leb_ℤ end to

unfoldable pub temporal_range_match : Record → TimeSelection → ℤ → Bool
unfolding range_match
temporal_range_match r t trace_end =
    if not (explicit_range t)
    then true
    else range_match t.range_match r.timestamp_ns (end_of r) (value_or t.from_ns (pos 0))
        (value_or t.to_ns trace_end)

-- The times that the record covers and the range admits, both ends included.
abbrev pub Common : Record → ℤ → ℤ → ℤ → Type 0
Common r from to x = (r.timestamp_ns ≤ℤ x) × (x ≤ℤ end_of r) × (from ≤ℤ x) × (x ≤ℤ to)

latest : ℤ → ℤ → ℤ
latest a b = if leb_ℤ a b then b else a

-- In the default mode, with an explicit range, a record is kept exactly when it and the range have a
-- time in common; the record and the range must not end before they begin.
pub overlap_iff :
    (r : Record) (t : TimeSelection) (trace_end : ℤ)
    → explicit_range t ≡ true
    → t.range_match ≡ RangeMatch.overlap
    → r.timestamp_ns ≤ℤ end_of r
    → value_or t.from_ns (pos 0) ≤ℤ value_or t.to_ns trace_end
    → (temporal_range_match r t trace_end ≡ true)
      ↔ ((x : ℤ) × Common r (value_or t.from_ns (pos 0)) (value_or t.to_ns trace_end) x)
unfolding temporal_range_match latest
overlap_iff r t trace_end e m h k =
    (λ kept. (latest r.timestamp_ns (value_or t.from_ns (pos 0)), ground arith), λ c. meets c.0 c.1)
  where
    meets :
        (x : ℤ)
        → Common r (value_or t.from_ns (pos 0)) (value_or t.to_ns trace_end) x
        → temporal_range_match r t trace_end ≡ true
    meets x c = ground arith

abbrev pub with_mode : TimeSelection → RangeMatch → TimeSelection
with_mode t m = record t { range_match = m }

-- The modes are ordered: what is contained starts in the range, and what starts in it overlaps it.
pub modes_ordered :
    (r : Record) (t : TimeSelection) (trace_end : ℤ)
    → r.timestamp_ns ≤ℤ end_of r
    → (temporal_range_match r (with_mode t RangeMatch.contained) trace_end ≡ true
        → temporal_range_match r (with_mode t RangeMatch.start) trace_end ≡ true)
      × (temporal_range_match r (with_mode t RangeMatch.start) trace_end ≡ true
          → temporal_range_match r (with_mode t RangeMatch.overlap) trace_end ≡ true)
unfolding temporal_range_match
modes_ordered r t trace_end h = (λ c. ground arith, λ c. ground arith)
