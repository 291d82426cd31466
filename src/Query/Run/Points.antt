-- ===== src/Query/Run/Points.antt =====
-- `--latest` and `--next`: the map holds, for each kind of each source, the closest record.
use tracy_query.Prelude.{
  all, not, ◌||◌, arith, Bool-cases, inl, inr, refl, ℕ, ◌≡◌, refl, ap, ◌∙◌, Bool, true, false, ◌&&◌,
  not, Option, none, some, List, [], ◌∷◌, arith, if◌then◌else◌, Bool-cases, Option-cases, Text,
  text_eq, text_eq→eq, text_eq_refl, All, keep, inl, inr,
}
use tracy_query.Prelude.Int.{ℤ, leb_ℤ, ltb_ℤ}
use tracy_query.Model.{kind_name, Options, Record}
use tracy_query.Query.Run.{
  State, count_record, with_sorter, visit, visit_at, visit_all, lookup, insert_or_assign, point_key,
  update_latest,
}
use tracy_query.Query.Range.{temporal_range_match}
use tracy_query.Query.Sorter.{add}

pub lookup-insert_or_assign :
    (key other : Text) (r : Record) (m : List (Text × Record))
    → lookup key (insert_or_assign other r m) ≡ (if text_eq other key then some r else lookup key m)
unfolding text_eq
lookup-insert_or_assign key other r [] = refl
lookup-insert_or_assign key other r ((k, a) ∷ m) = ground (
  arith,
  lookup-insert_or_assign key other r m,
  text_eq→eq k other,
  text_eq→eq other key,
  text_eq→eq k key,
  text_eq_refl k,
  text_eq_refl other,
)

pub lookup_same :
    (k key : Text) (m : List (Text × Record)) → text_eq k key ≡ true → lookup k m ≡ lookup key m
lookup_same k key m same = ap (λ u. lookup u m) (text_eq→eq k key same)

-- What is there satisfies the test.
abbrev pub holds : (Record → Bool) → Option Record → Bool
holds p none = true
holds p (some b) = p b

-- The records passed through `update_latest` in turn.
unfoldable pub latest_of : ℤ → List Record → List (Text × Record) → List (Text × Record)
unfolding update_latest
latest_of at [] m = m
latest_of at (r ∷ rs) m = latest_of at rs (update_latest at r m)

-- What a record does to the one that the map holds for its key.
pick_latest : ℤ → Record → Option Record → Option Record
pick_latest at r none = if leb_ℤ r.timestamp_ns at then some r else none
pick_latest at r (some b) =
    if leb_ℤ r.timestamp_ns at
    then (if ltb_ℤ b.timestamp_ns r.timestamp_ns then some r else some b)
    else some b

-- The record is of the kind of source, and on the side of `at` that is asked for.
abbrev pub is_latest_of : Text → ℤ → Record → Bool
unfolding text_eq kind_name
is_latest_of key at r = text_eq (point_key r) key && leb_ℤ r.timestamp_ns at

-- There is a record, and the other is not closer.
abbrev pub covers_latest : Option Record → Record → Bool
covers_latest none r = false
covers_latest (some b) r = leb_ℤ r.timestamp_ns b.timestamp_ns

lookup-update_latest :
    (key : Text) (at : ℤ) (r : Record) (m : List (Text × Record))
    → lookup key (update_latest at r m)
      ≡ (if text_eq (point_key r) key then pick_latest at r (lookup key m) else lookup key m)
unfolding update_latest pick_latest
lookup-update_latest key at r m = elim (Option-cases (lookup (point_key r) m)) [
  | inl absent ↦ ground (
    arith,
    absent,
    lookup_same (point_key r) key m,
    lookup-insert_or_assign key (point_key r) r m,
  )
  | inr found ↦ ground (
    arith,
    found.1,
    lookup_same (point_key r) key m,
    lookup-insert_or_assign key (point_key r) r m,
  )
]

covers-pick_latest :
    (at : ℤ) (r old : Record) (o : Option Record)
    → covers_latest o old ≡ true
    → covers_latest (pick_latest at r o) old ≡ true
unfolding pick_latest
covers-pick_latest at r old none h = ground arith
covers-pick_latest at r old (some b) h = ground arith

covers-pick_latest_new :
    (at : ℤ) (r : Record) (o : Option Record)
    → (leb_ℤ r.timestamp_ns at) ≡ true
    → covers_latest (pick_latest at r o) r ≡ true
unfolding pick_latest
covers-pick_latest_new at r none h = ground arith
covers-pick_latest_new at r (some b) h = ground arith

covers-latest_of_old :
    (key : Text) (at : ℤ) (old : Record) (rs : List Record) (m : List (Text × Record))
    → covers_latest (lookup key m) old ≡ true
    → covers_latest (lookup key (latest_of at rs m)) old ≡ true
unfolding latest_of
covers-latest_of_old key at old [] m h = h
covers-latest_of_old key at old (r ∷ rs) m h =
    covers-latest_of_old key at old rs (update_latest at r m)
      (ground (arith, lookup-update_latest key at r m, covers-pick_latest at r old (lookup key m)))

-- After any records, the map holds for a key one at or before the time, and none of those with the
-- key at or before the time is later than it.
pub latest_of-covers :
    (key : Text) (at : ℤ) (rs : List Record) (m : List (Text × Record))
    → all (λ r. not (is_latest_of key at r) || covers_latest (lookup key (latest_of at rs m)) r) rs
      ≡ true
unfolding latest_of
latest_of-covers key at [] m = refl
latest_of-covers key at (r ∷ rs) m =
    let rest = latest_of-covers key at rs (update_latest at r m) in
    elim (Bool-cases (is_latest_of key at r)) [
      | inl mine ↦
          let covered = covers-latest_of_old key at r rs (update_latest at r m) (
            ground (
              arith,
              mine,
              lookup-update_latest key at r m,
              covers-pick_latest_new at r (lookup key m),
            )) in
          ground (arith, mine, covered, rest)
      | inr other ↦ ground (arith, other, rest)
    ]

holds_latest-pick :
    (at : ℤ) (r : Record) (p : Record → Bool) (o : Option Record)
    → holds p o ≡ true
    → (leb_ℤ r.timestamp_ns at ≡ true → p r ≡ true)
    → holds p (pick_latest at r o) ≡ true
unfolding pick_latest
holds_latest-pick at r p none h k = ground arith
holds_latest-pick at r p (some b) h k = ground arith

-- Whatever holds of the map's record and of the records of the key at or before the time holds of the
-- record that the map has after them.
pub latest_of-from :
    (key : Text) (at : ℤ) (p : Record → Bool) (rs : List Record) (m : List (Text × Record))
    → holds p (lookup key m) ≡ true
    → All (λ r. is_latest_of key at r ≡ true → p r ≡ true) rs
    → holds p (lookup key (latest_of at rs m)) ≡ true
unfolding latest_of
latest_of-from key at p [] m h k = h
latest_of-from key at p (r ∷ rs) m h k =
    let next : holds p (lookup key (update_latest at r m)) ≡ true =
      elim (Bool-cases (text_eq (point_key r) key)) [
        | inl same ↦ ground (
          arith,
          lookup-update_latest key at r m,
          same,
          holds_latest-pick at r p (lookup key m) h (λ side. k.0 (ground arith)),
        )
        | inr other ↦ ground (arith, lookup-update_latest key at r m, other)
      ] in
    latest_of-from key at p rs (update_latest at r m) next k.1

module _ (format_double : ℕ → Text) (matches : Record → Bool) (options : Options) (at : ℤ) where
  pub visit-at :
      (trace_end : ℤ) (r : Record) (s : State)
      → options.time.at_ns ≡ some at
      → visit format_double matches options trace_end r s
        ≡ (if matches r then visit_at options.time at r s else s)
  unfolding visit
  visit-at trace_end r s at_point =
      ap
        (λ o. if not (matches r) then s else elim o [
          | some a ↦ visit_at options.time a r s
          | none ↦
              if temporal_range_match r options.time trace_end
              then if options.count
                then count_record options.group_by r s
                else with_sorter s (add format_double options s.sorter r)
              else s
        ])
        at_point
      ∙ elim (Bool-cases (matches r)) [
        | inl matching ↦ rw matching refl
        | inr other ↦ rw other refl
      ]

  visit-latest :
      (trace_end : ℤ) (r : Record) (s : State)
      → options.time.at_ns ≡ some at
      → options.time.latest ≡ true
      → (visit format_double matches options trace_end r s).latest
        ≡ (if matches r then update_latest at r s.latest else s.latest)
  unfolding visit_at
  visit-latest trace_end r s at_point asked =
      ap (λ u. u.latest) (visit-at trace_end r s at_point) ∙ elim (Bool-cases (matches r)) [
        | inl matching ↦
            rw matching (ap (λ c. if c then update_latest at r s.latest else s.latest) asked)
        | inr other ↦ rw other refl
      ]

  -- With `--at` and `--latest`, the visitor keeps the map from the matching records alone.
  pub visit_all-latest :
      (trace_end : ℤ) (rs : List Record) (s : State)
      → options.time.at_ns ≡ some at
      → options.time.latest ≡ true
      → (visit_all format_double matches options trace_end rs s).latest
        ≡ latest_of at (keep matches rs) s.latest
  unfolding visit_all latest_of
  visit_all-latest trace_end [] s at_point asked = refl
  visit_all-latest trace_end (r ∷ rs) s at_point asked =
      let rest =
        visit_all-latest trace_end rs (visit format_double matches options trace_end r s) at_point
          asked in
      let one =
        ap (λ u. latest_of at (keep matches rs) u) (visit-latest trace_end r s at_point asked) in
      elim (Bool-cases (matches r)) [
        | inl matching ↦ rw matching (
            rest
            ∙ one
            ∙ ap
                (λ c.
                  latest_of at (keep matches rs)
                    (if c then update_latest at r s.latest else s.latest))
                matching)
        | inr other ↦ rw other (
            rest
            ∙ one
            ∙ ap
                (λ c.
                  latest_of at (keep matches rs)
                    (if c then update_latest at r s.latest else s.latest))
                other)
      ]
