-- ===== src/Query/Run/Stream.antt =====
-- What `run_query` writes for a range of time: the records it admits, in order or counted.
use tracy_query.Prelude.{
  ℕ, ◌^◌, ◌<◌, ◌≡◌, refl, sym, ap, ap₂, ◌∙◌, Bool, true, false, ◌&&◌, not, none, some, List, [],
  ◌∷◌, ◌++◌, if◌then◌else◌, Bool-cases, Text, codes, is_empty, All, length, keep, inl, inr,
}
use tracy_query.Prelude.Int.{ℤ}
use tracy_query.Model.{Value, Options, Record}
use tracy_query.Query.Range.{temporal_range_match}
use tracy_query.Query.Sorter.{Node, ExternalSorter, new_sorter, add, add_all, finish}
use tracy_query.Output.{emit_object}
use tracy_query.Query.Sorter.Runs.{Fits}
use tracy_query.Query.Sorter.Finish.{cut, exceeds, IsMerged, finish_lem}
use tracy_query.Query.Run.{
  State, Groups, emit_groups, new_state, visit_at, write_range, write_points, point_records,
  with_sorter, visit, visit_all, visit_traces, count_record, count_groups, count_group, group_key,
  group_fields, node_lines, emit_count, run_query,
}

module _ (format_double : ℕ → Text) (matches : Record → Bool) (options : Options)
    (no_at : options.time.at_ns ≡ none) where
  -- The records that the matcher and the range of time let through.
  abbrev pub admitted : List (ℤ × List Record) → List Record
  unfolding temporal_range_match
  admitted [] = []
  admitted (t ∷ ts) =
      keep (λ r. matches r && temporal_range_match r options.time t.0) t.1 ++ admitted ts

  abbrev admits : ℤ → Record → Bool
  unfolding temporal_range_match
  admits trace_end r = matches r && temporal_range_match r options.time trace_end

  abbrev kept_with : Record → State → State
  unfolding count_record add
  kept_with r s =
      if options.count
      then count_record options.group_by r s
      else with_sorter s (add format_double options s.sorter r)

  visit-range :
      (trace_end : ℤ) (r : Record) (s : State)
      → visit format_double matches options trace_end r s
        ≡ (if admits trace_end r then kept_with r s else s)
  unfolding visit
  visit-range trace_end r s = elim (Bool-cases (matches r)) [
    | inl matching ↦
        ap
          (λ m. if not m then s else elim options.time.at_ns [
            | some at ↦ visit_at options.time at r s
            | none ↦ if temporal_range_match r options.time trace_end then kept_with r s else s
          ])
          matching
        ∙ ap
            (λ o. elim o [
              | some at ↦ visit_at options.time at r s
              | none ↦ if temporal_range_match r options.time trace_end then kept_with r s else s
            ])
            no_at
        ∙ ap (λ m. if m && temporal_range_match r options.time trace_end then kept_with r s else s)
            (sym matching)
    | inr other ↦
        ap
          (λ m. if not m then s else elim options.time.at_ns [
            | some at ↦ visit_at options.time at r s
            | none ↦ if temporal_range_match r options.time trace_end then kept_with r s else s
          ])
          other
        ∙ ap (λ m. if m && temporal_range_match r options.time trace_end then kept_with r s else s)
            (sym other)
  ]

  visit_kept :
      (trace_end : ℤ) (r : Record) (s : State)
      → admits trace_end r ≡ true
      → visit format_double matches options trace_end r s ≡ kept_with r s
  visit_kept trace_end r s kept =
      visit-range trace_end r s ∙ ap (λ c. if c then kept_with r s else s) kept

  visit_left :
      (trace_end : ℤ) (r : Record) (s : State)
      → admits trace_end r ≡ false
      → visit format_double matches options trace_end r s ≡ s
  visit_left trace_end r s left =
      visit-range trace_end r s ∙ ap (λ c. if c then kept_with r s else s) left

  visit_all-sorter :
      (trace_end : ℤ) (rs : List Record) (s : State)
      → options.count ≡ false
      → (visit_all format_double matches options trace_end rs s).sorter
        ≡ add_all format_double options s.sorter (keep (admits trace_end) rs)
  unfolding visit_all add_all
  visit_all-sorter trace_end [] s h = refl
  visit_all-sorter trace_end (r ∷ rs) s h = elim (Bool-cases (admits trace_end r)) [
    | inl kept ↦ rw kept (
        ap (λ u. (visit_all format_double matches options trace_end rs u).sorter)
          (visit_kept trace_end r s kept
            ∙ ap
                (λ c.
                  if c
                  then count_record options.group_by r s
                  else with_sorter s (add format_double options s.sorter r))
                h)
        ∙ visit_all-sorter trace_end rs (with_sorter s (add format_double options s.sorter r)) h)
    | inr left ↦ rw left (
        ap (λ u. (visit_all format_double matches options trace_end rs u).sorter)
          (visit_left trace_end r s left)
        ∙ visit_all-sorter trace_end rs s h)
  ]

  add_all-append :
      (s : ExternalSorter) (xs ys : List Record)
      → add_all format_double options s (xs ++ ys)
        ≡ add_all format_double options (add_all format_double options s xs) ys
  unfolding add_all
  add_all-append s [] ys = refl
  add_all-append s (x ∷ xs) ys = add_all-append (add format_double options s x) xs ys

  visit_traces-sorter :
      (ts : List (ℤ × List Record)) (s : State)
      → options.count ≡ false
      → (visit_traces format_double matches options ts s).sorter
        ≡ add_all format_double options s.sorter (admitted ts)
  unfolding visit_traces add_all
  visit_traces-sorter [] s h = refl
  visit_traces-sorter (t ∷ ts) s h =
      visit_traces-sorter ts (visit_all format_double matches options t.0 t.1 s) h
      ∙ ap (λ u. add_all format_double options u (admitted ts)) (visit_all-sorter t.0 t.1 s h)
      ∙ sym (add_all-append s.sorter (keep (admits t.0) t.1) (admitted ts))

  run_query-no_at :
      (visited : List (ℤ × List Record))
      → run_query format_double matches options visited
        ≡ write_range format_double matches options
            (visit_traces format_double matches options visited new_state)
  unfolding run_query
  run_query-no_at visited =
      let s = visit_traces format_double matches options visited new_state in
      ap
        (λ o. elim o [
          | some at ↦
              write_points format_double matches options
                (point_records format_double matches options s)
          | none ↦ write_range format_double matches options s
        ])
        no_at

  write_range-sorter :
      (s : State) (sorter : ExternalSorter)
      → options.count ≡ false
      → s.sorter ≡ sorter
      → write_range format_double matches options s ≡ (
        node_lines (finish format_double options sorter).0,
        (finish format_double options sorter).1 && not options.quiet,
      )
  unfolding write_range
  write_range-sorter s sorter h same =
      ap
        (λ c.
          if c
          then (
            emit_count format_double matches options s.streaming_count s.streaming_groups,
            false,
          )
          else (
            node_lines (finish format_double options s.sorter).0,
            (finish format_double options s.sorter).1 && not options.quiet,
          ))
        h
      ∙ ap
          (λ u. (
            node_lines (finish format_double options u).0,
            (finish format_double options u).1 && not options.quiet,
          ))
          same

  -- Without `--at` and `--count`, from fewer than 2^32 inputs: where fewer than 2^64 records are
  -- admitted and their sources are shorter than 2^32 bytes, the output is the lines, up to the
  -- limit, of an order of all their nodes in which none is before an earlier one, and the
  -- diagnostics report a truncation exactly when more are admitted than the limit and `--quiet` is
  -- not given.
  pub run_query-range :
      (visited : List (ℤ × List Record))
      → options.count ≡ false
      → length options.traces < 2 ^ 32
      → All Fits (admitted visited)
      → length (admitted visited) < 2 ^ 64
      → (merged : List Node) × IsMerged format_double options (admitted visited) merged
        × (run_query format_double matches options visited ≡ (
          node_lines (cut options.limit merged),
          exceeds options.limit (length (admitted visited)) && not options.quiet,
        ))
  run_query-range visited h few fit small =
      let merged = finish_lem format_double options (admitted visited) few fit small in
      (
        merged.0,
        merged.1,
        run_query-no_at visited
            ∙ write_range-sorter (visit_traces format_double matches options visited new_state)
                (add_all format_double options new_sorter (admitted visited)) h
                (visit_traces-sorter visited new_state h)
            ∙ ap₂ (λ lines more. (node_lines lines, more && not options.quiet)) merged.1.written
                merged.1.truncated,
      )

  visit_all-groups :
      (trace_end : ℤ) (rs : List Record) (s : State)
      → options.count ≡ true
      → is_empty options.group_by ≡ false
      → (visit_all format_double matches options trace_end rs s).streaming_groups
        ≡ count_groups options.group_by (keep (admits trace_end) rs) s.streaming_groups
  unfolding visit_all count_groups count_record
  visit_all-groups trace_end [] s h by = refl
  visit_all-groups trace_end (r ∷ rs) s h by = elim (Bool-cases (admits trace_end r)) [
    | inl kept ↦ rw kept (
        ap (λ u. (visit_all format_double matches options trace_end rs u).streaming_groups)
          (visit_kept trace_end r s kept
            ∙ ap
                (λ c.
                  if c
                  then count_record options.group_by r s
                  else with_sorter s (add format_double options s.sorter r))
                h)
        ∙ visit_all-groups trace_end rs (count_record options.group_by r s) h by
        ∙ ap
            (λ c. count_groups options.group_by (keep (admits trace_end) rs) (
              if c
              then s.streaming_groups
              else count_group (group_key options.group_by r) (group_fields options.group_by r)
                  s.streaming_groups))
            by)
    | inr left ↦ rw left (
        ap (λ u. (visit_all format_double matches options trace_end rs u).streaming_groups)
          (visit_left trace_end r s left)
        ∙ visit_all-groups trace_end rs s h by)
  ]

  count_groups-append :
      (by : List Text) (xs ys : List Record) (groups : Groups)
      → count_groups by (xs ++ ys) groups ≡ count_groups by ys (count_groups by xs groups)
  unfolding count_groups
  count_groups-append by [] ys groups = refl
  count_groups-append by (x ∷ xs) ys groups =
      count_groups-append by xs ys (count_group (group_key by x) (group_fields by x) groups)

  visit_traces-groups :
      (ts : List (ℤ × List Record)) (s : State)
      → options.count ≡ true
      → is_empty options.group_by ≡ false
      → (visit_traces format_double matches options ts s).streaming_groups
        ≡ count_groups options.group_by (admitted ts) s.streaming_groups
  unfolding visit_traces count_groups
  visit_traces-groups [] s h by = refl
  visit_traces-groups (t ∷ ts) s h by =
      visit_traces-groups ts (visit_all format_double matches options t.0 t.1 s) h by
      ∙ ap (λ u. count_groups options.group_by (admitted ts) u) (visit_all-groups t.0 t.1 s h by)
      ∙ sym (
          count_groups-append options.group_by (keep (admits t.0) t.1) (admitted ts)
            s.streaming_groups)

  pub run_query-count_groups :
      (visited : List (ℤ × List Record))
      → options.count ≡ true
      → is_empty options.group_by ≡ false
      → run_query format_double matches options visited ≡ (
        emit_groups format_double matches options
            (count_groups options.group_by (admitted visited) []),
        false,
      )
  unfolding write_range emit_count
  run_query-count_groups visited h by =
      let s = visit_traces format_double matches options visited new_state in
      run_query-no_at visited
      ∙ ap
          (λ c.
            if c
            then (
              emit_count format_double matches options s.streaming_count s.streaming_groups,
              false,
            )
            else (
              node_lines (finish format_double options s.sorter).0,
              (finish format_double options s.sorter).1 && not options.quiet,
            ))
          h
      ∙ ap
          (λ e. (
            if e
                then emit_object format_double options.format
                    ((codes "count", Value.uint64 s.streaming_count) ∷ [])
                else emit_groups format_double matches options s.streaming_groups,
            false,
          ))
          by
      ∙ ap (λ g. (emit_groups format_double matches options g, false))
          (visit_traces-groups visited new_state h by)
