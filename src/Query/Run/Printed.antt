-- ===== src/Query/Run/Printed.antt =====
-- What `--count --group-by` prints.
use tracy_query.Prelude.{
  ℕ, ◌^◌, ◌<◌, ◌≡◌, refl, sym, ap, ◌∙◌, subst, Bool, true, false, Bool-cases, none, List, [], ◌∷◌,
  ◌++◌, ◌==◌, Text, text_eq, text_eq→eq, text_lt, codes, is_empty, All, length, inl, inr,
}
use tracy_query.Prelude.Int.{ℤ}
use tracy_query.Model.{Value, Fields, Options, Record}
use tracy_query.Output.{emit_object}
use tracy_query.Query.Run.{
  Groups, group_key, group_fields, count_group, count_groups, emit_groups, run_query,
}
use tracy_query.Query.Run.Groups.{
  group_count, with_key, IsAscending, count_groups-ascends, count_by_key,
}
use tracy_query.Query.Run.Stream.{admitted, run_query-count_groups}

-- What holds of the key and the fields of each group.
abbrev pub AllGroups : (Text → Fields → Type 0) → Groups → Type 0
AllGroups P = All (λ g. P g.0 g.1.0)

module _ (P : Text → Fields → Type 0) where
  count_group-AllGroups :
      (key : Text) (fields : Fields) (gs : Groups)
      → P key fields
      → AllGroups P gs
      → AllGroups P (count_group key fields gs)
  unfolding count_group
  count_group-AllGroups key fields [] h k = (h, tt)
  count_group-AllGroups key fields ((other, (f, n)) ∷ gs) h k =
      elim (Bool-cases (text_lt key other)) [
        | inl lt ↦ rw lt (h, k)
        | inr ge ↦ rw ge (elim (Bool-cases (text_eq other key)) [
          | inr different ↦ rw different (k.0, count_group-AllGroups key fields gs h k.1)
          | inl same ↦ rw same (elim (Bool-cases (n == 0)) [
            | inl new ↦ rw new (subst (λ x. P x fields) (sym (text_eq→eq other key same)) h, k.1)
            | inr old ↦ rw old k
          ])
        ])
      ]

  count_groups-AllGroups :
      (group_by : List Text) (rs : List Record) (gs : Groups)
      → All (λ r. P (group_key group_by r) (group_fields group_by r)) rs
      → AllGroups P gs
      → AllGroups P (count_groups group_by rs gs)
  unfolding count_groups
  count_groups-AllGroups group_by [] gs h k = k
  count_groups-AllGroups group_by (r ∷ rs) gs h k =
      count_groups-AllGroups group_by rs
        (count_group (group_key group_by r) (group_fields group_by r) gs) h.1
        (count_group-AllGroups (group_key group_by r) (group_fields group_by r) gs h.0 k)

-- A line for each group: its fields and its count.
abbrev pub group_lines : (ℕ → Text) → Options → Groups → Text
group_lines format_double options [] = []
group_lines format_double options ((key, (fields, n)) ∷ gs) =
    emit_object format_double options.format (fields ++ ((codes "count", Value.uint64 n) ∷ []))
    ++ group_lines format_double options gs

emit_groups-lines :
    (format_double : ℕ → Text) (matches : Record → Bool) (options : Options) (gs : Groups)
    → emit_groups format_double matches options gs ≡ group_lines format_double options gs
unfolding emit_groups
emit_groups-lines format_double matches options [] = refl
emit_groups-lines format_double matches options ((key, (fields, n)) ∷ gs) =
    ap
      (λ rest.
        emit_object format_double options.format (fields ++ ((codes "count", Value.uint64 n) ∷ []))
        ++ rest)
      (emit_groups-lines format_double matches options gs)

module _ (format_double : ℕ → Text) (matches : Record → Bool) (options : Options)
    (no_at : options.time.at_ns ≡ none) where
  -- Without `--at`, with `--count` and a `--group-by`, where fewer than 2^64 records are admitted:
  -- the output is a line for each of some groups with its fields and its count, and no truncation
  -- is reported. The keys of the groups ascend; the count of a key, 0 where it has no group, is how
  -- many admitted records have it; and what holds of the keys and fields of all admitted records
  -- holds of those of the groups.
  pub run_query-groups :
      (visited : List (ℤ × List Record)) (P : Text → Fields → Type 0)
      → options.count ≡ true
      → is_empty options.group_by ≡ false
      → length (admitted format_double matches options no_at visited) < 2 ^ 64
      → All
          (λ r. P (group_key options.group_by r) (group_fields options.group_by r))
          (admitted format_double matches options no_at visited)
      → (gs : Groups) × (run_query format_double matches options visited
          ≡ (group_lines format_double options gs, false))
        × IsAscending gs
        × ((key : Text)
            → group_count key gs
              ≡ with_key options.group_by key
                  (admitted format_double matches options no_at visited))
        × AllGroups P gs
  run_query-groups visited P counts by small holds =
      let rs = admitted format_double matches options no_at visited in
      let gs = count_groups options.group_by rs [] in
      (
        gs,
        run_query-count_groups format_double matches options no_at visited counts by
            ∙ ap (λ t. (t, false)) (emit_groups-lines format_double matches options gs),
        count_groups-ascends options.group_by rs,
        λ key. count_by_key options.group_by key rs small,
        count_groups-AllGroups P options.group_by rs [] holds tt,
      )
