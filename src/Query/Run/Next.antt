-- ===== src/Query/Run/Next.antt =====
-- `--next`: the map holds, for each kind of each source, the closest record at or after the time.
use tracy_query.Prelude.{
  all, not, ◌||◌, arith, Bool-cases, inl, inr, refl, ℕ, ◌≡◌, refl, ap, ◌∙◌, Bool, true, false, ◌&&◌,
  Option, none, some, List, [], ◌∷◌, arith, if◌then◌else◌, Bool-cases, Option-cases, Text, text_eq,
  All, keep, inl, inr,
}
use tracy_query.Prelude.Int.{ℤ, leb_ℤ, ltb_ℤ}
use tracy_query.Model.{kind_name, Options, Record}
use tracy_query.Query.Run.{State, visit, visit_at, visit_all, lookup, point_key, update_next}
use tracy_query.Query.Run.Points.{lookup-insert_or_assign, lookup_same, holds, visit-at}

-- The records passed through `update_next` in turn.
unfoldable pub next_of : ℤ → List Record → List (Text × Record) → List (Text × Record)
unfolding update_next
next_of at [] m = m
next_of at (r ∷ rs) m = next_of at rs (update_next at r m)

-- What a record does to the one that the map holds for its key.
pick_next : ℤ → Record → Option Record → Option Record
pick_next at r none = if leb_ℤ at r.timestamp_ns then some r else none
pick_next at r (some b) =
    if leb_ℤ at r.timestamp_ns
    then (if ltb_ℤ r.timestamp_ns b.timestamp_ns then some r else some b)
    else some b

-- The record is of the kind of source, and on the side of `at` that is asked for.
abbrev pub is_next_of : Text → ℤ → Record → Bool
unfolding text_eq kind_name
is_next_of key at r = text_eq (point_key r) key && leb_ℤ at r.timestamp_ns

-- There is a record, and the other is not closer.
abbrev pub covers_next : Option Record → Record → Bool
covers_next none r = false
covers_next (some b) r = leb_ℤ b.timestamp_ns r.timestamp_ns

lookup-update_next :
    (key : Text) (at : ℤ) (r : Record) (m : List (Text × Record))
    → lookup key (update_next at r m)
      ≡ (if text_eq (point_key r) key then pick_next at r (lookup key m) else lookup key m)
unfolding update_next pick_next
lookup-update_next key at r m = elim (Option-cases (lookup (point_key r) m)) [
  | inl absent ↦ ground (
    arith,
    absent,
    lookup_same (point_key r) key m,
    lookup-insert_or_assign key (point_key r) r m,
  )
  | inr found ↦ ground (
    arith,
    found.1,
    lookup_same (point_key r) key m,
    lookup-insert_or_assign key (point_key r) r m,
  )
]

covers-pick_next :
    (at : ℤ) (r old : Record) (o : Option Record)
    → covers_next o old ≡ true
    → covers_next (pick_next at r o) old ≡ true
unfolding pick_next
covers-pick_next at r old none h = ground arith
covers-pick_next at r old (some b) h = ground arith

covers-pick_next_new :
    (at : ℤ) (r : Record) (o : Option Record)
    → (leb_ℤ at r.timestamp_ns) ≡ true
    → covers_next (pick_next at r o) r ≡ true
unfolding pick_next
covers-pick_next_new at r none h = ground arith
covers-pick_next_new at r (some b) h = ground arith

covers-next_of_old :
    (key : Text) (at : ℤ) (old : Record) (rs : List Record) (m : List (Text × Record))
    → covers_next (lookup key m) old ≡ true
    → covers_next (lookup key (next_of at rs m)) old ≡ true
unfolding next_of
covers-next_of_old key at old [] m h = h
covers-next_of_old key at old (r ∷ rs) m h =
    covers-next_of_old key at old rs (update_next at r m)
      (ground (arith, lookup-update_next key at r m, covers-pick_next at r old (lookup key m)))

-- After any records, the map holds for a key one at or after the time, and none of those with the key
-- at or after the time is earlier than it.
pub next_of-covers :
    (key : Text) (at : ℤ) (rs : List Record) (m : List (Text × Record))
    → all (λ r. not (is_next_of key at r) || covers_next (lookup key (next_of at rs m)) r) rs ≡ true
unfolding next_of
next_of-covers key at [] m = refl
next_of-covers key at (r ∷ rs) m =
    let rest = next_of-covers key at rs (update_next at r m) in
    elim (Bool-cases (is_next_of key at r)) [
      | inl mine ↦
          let covered = covers-next_of_old key at r rs (update_next at r m) (
            ground (
              arith,
              mine,
              lookup-update_next key at r m,
              covers-pick_next_new at r (lookup key m),
            )) in
          ground (arith, mine, covered, rest)
      | inr other ↦ ground (arith, other, rest)
    ]

holds_next-pick :
    (at : ℤ) (r : Record) (p : Record → Bool) (o : Option Record)
    → holds p o ≡ true
    → (leb_ℤ at r.timestamp_ns ≡ true → p r ≡ true)
    → holds p (pick_next at r o) ≡ true
unfolding pick_next
holds_next-pick at r p none h k = ground arith
holds_next-pick at r p (some b) h k = ground arith

-- Whatever holds of the map's record and of the records of the key at or after the time holds of the
-- record that the map has after them.
pub next_of-from :
    (key : Text) (at : ℤ) (p : Record → Bool) (rs : List Record) (m : List (Text × Record))
    → holds p (lookup key m) ≡ true
    → All (λ r. is_next_of key at r ≡ true → p r ≡ true) rs
    → holds p (lookup key (next_of at rs m)) ≡ true
unfolding next_of
next_of-from key at p [] m h k = h
next_of-from key at p (r ∷ rs) m h k =
    let next : holds p (lookup key (update_next at r m)) ≡ true =
      elim (Bool-cases (text_eq (point_key r) key)) [
        | inl same ↦ ground (
          arith,
          lookup-update_next key at r m,
          same,
          holds_next-pick at r p (lookup key m) h (λ side. k.0 (ground arith)),
        )
        | inr other ↦ ground (arith, lookup-update_next key at r m, other)
      ] in
    next_of-from key at p rs (update_next at r m) next k.1

module _ (format_double : ℕ → Text) (matches : Record → Bool) (options : Options) (at : ℤ) where
  visit-next :
      (trace_end : ℤ) (r : Record) (s : State)
      → options.time.at_ns ≡ some at
      → options.time.next ≡ true
      → (visit format_double matches options trace_end r s).next
        ≡ (if matches r then update_next at r s.next else s.next)
  unfolding visit_at
  visit-next trace_end r s at_point asked =
      ap (λ u. u.next) (visit-at format_double matches options at trace_end r s at_point)
      ∙ elim (Bool-cases (matches r)) [
        | inl matching ↦ rw matching (ap (λ c. if c then update_next at r s.next else s.next) asked)
        | inr other ↦ rw other refl
      ]

  -- With `--at` and `--next`, the visitor keeps the map from the matching records alone.
  pub visit_all-next :
      (trace_end : ℤ) (rs : List Record) (s : State)
      → options.time.at_ns ≡ some at
      → options.time.next ≡ true
      → (visit_all format_double matches options trace_end rs s).next
        ≡ next_of at (keep matches rs) s.next
  unfolding visit_all next_of
  visit_all-next trace_end [] s at_point asked = refl
  visit_all-next trace_end (r ∷ rs) s at_point asked =
      let rest =
        visit_all-next trace_end rs (visit format_double matches options trace_end r s) at_point
          asked in
      let one =
        ap (λ u. next_of at (keep matches rs) u) (visit-next trace_end r s at_point asked) in
      elim (Bool-cases (matches r)) [
        | inl matching ↦ rw matching (
            rest
            ∙ one
            ∙ ap (λ c. next_of at (keep matches rs) (if c then update_next at r s.next else s.next))
                matching)
        | inr other ↦ rw other (
            rest
            ∙ one
            ∙ ap (λ c. next_of at (keep matches rs) (if c then update_next at r s.next else s.next))
                other)
      ]
