-- ===== src/Tests/Queries.antt =====
-- Sorting, merging and `run_query` of src/query.cpp, at concrete records.
use tracy_query.Prelude.{
  ◌<◌, ◌≡◌, refl, Bool, true, false, ◌&&◌, ◌||◌, not, some, List, [], ◌∷◌, arith, leb, ◌==◌, Text,
  codes, text_eq, length, all, keep,
}
use tracy_query.Prelude.Int.{ℤ, pos}
use tracy_query.Model.{kind_name, Options, Record}
use tracy_query.Query.Range.{temporal_range_match}
use tracy_query.Query.Sorter.{Node, new_sorter, add_all}
use tracy_query.Query.Sorter.Finish.{IsMerged, finish_lem, add_all-bounded, cut, exceeds}
use tracy_query.Model.{Fields}
use tracy_query.Query.Run.{
  Groups, new_state, run_query, visit_all, node_lines, lookup, point_key, count_groups,
}
use tracy_query.Query.Run.Printed.{group_lines, AllGroups, run_query-groups}
use tracy_query.Query.Run.Groups.{IsAscending, group_count, with_key, count_by_key}
use tracy_query.Query.Run.Stream.{admitted, run_query-range}
use tracy_query.Query.Run.Points.{is_latest_of, covers_latest, holds}
use tracy_query.Query.Run.Next.{is_next_of, covers_next}
use tracy_query.Query.Run.Kept.{visit_all-latest_kept, visit_all-next_kept}
use tracy_query.Tests.Records.{zone, no_time, plain_query, three_zones, one_half}

finish_lem_example : (merged : List Node) × IsMerged one_half plain_query three_zones merged
finish_lem_example =
    finish_lem one_half plain_query three_zones (omega arith)
      (omega arith, (omega arith, (omega arith, tt))) (omega arith)

add_all-bounded_example : length (add_all one_half plain_query new_sorter three_zones).chunk < 8192
add_all-bounded_example =
    add_all-bounded one_half plain_query (omega arith) three_zones
      (omega arith, (omega arith, (omega arith, tt))) (omega arith)

-- The matcher of these tests keeps all but the records that begin at 20.
abbrev not_twenty : Record → Bool
not_twenty r = elim r.timestamp_ns [ pos n ↦ not (n == 20) | _ ↦ true ]

abbrev visited : List (ℤ × List Record)
visited = (pos 99, three_zones) ∷ []

run_query-range_example :
    (merged : List Node) × IsMerged one_half plain_query
      (admitted one_half not_twenty plain_query refl visited)
      merged
    × (run_query one_half not_twenty plain_query visited ≡ (
      node_lines (cut (some 2) merged),
      exceeds (some 2) (length (admitted one_half not_twenty plain_query refl visited))
          && not false,
    ))
unfolding temporal_range_match
run_query-range_example =
    run_query-range one_half not_twenty plain_query refl visited refl (omega arith)
      (omega arith, (omega arith, tt)) (omega arith)

count_by_key_example :
    group_count (codes "a\n") (count_groups (codes "trace" ∷ []) three_zones [])
    ≡ with_key (codes "trace" ∷ []) (codes "a\n") three_zones
count_by_key_example = count_by_key (codes "trace" ∷ []) (codes "a\n") three_zones (omega arith)

abbrev counting : Options
counting = record plain_query { count = true; group_by = codes "trace" ∷ [] }

-- The group of the trace `a`.
abbrev IsOfA : Text → Fields → Type 0
IsOfA key fields = key ≡ codes "a\n"

run_query-groups_example :
    (gs : Groups) × (run_query one_half not_twenty counting visited
      ≡ (group_lines one_half counting gs, false))
    × IsAscending gs
    × ((key : Text)
        → group_count key gs
          ≡ with_key (codes "trace" ∷ []) key (admitted one_half not_twenty counting refl visited))
    × AllGroups IsOfA gs
unfolding temporal_range_match text_eq
run_query-groups_example =
    run_query-groups one_half not_twenty counting refl visited IsOfA refl refl (omega arith)
      (refl, (refl, tt))

abbrev key : Text
unfolding kind_name
key = point_key (zone 10 20 0)

abbrev before_30 : Record → Bool
before_30 r = leb r.sequence 1

abbrev after_10 : Record → Bool
after_10 r = leb 1 r.sequence

abbrev at_25 : Options
at_25 = record plain_query {
  time = record no_time { at_ns = some (pos 25); latest = true; next = true };
}

visit_all-latest_kept_example :
    let found =
      lookup key (visit_all one_half not_twenty at_25 (pos 99) three_zones new_state).latest in
    (all
        (λ r. not (is_latest_of key (pos 25) r) || covers_latest found r)
        (keep not_twenty three_zones)
      ≡ true)
    × (holds before_30 found ≡ true)
unfolding kind_name text_eq
visit_all-latest_kept_example =
    visit_all-latest_kept one_half not_twenty at_25 (pos 25) (pos 99) three_zones new_state key
      before_30 refl refl refl ((λ e. ground arith), ((λ e. refl), tt))

visit_all-next_kept_example :
    let found =
      lookup key (visit_all one_half not_twenty at_25 (pos 99) three_zones new_state).next in
    (all (λ r. not (is_next_of key (pos 25) r) || covers_next found r) (keep not_twenty three_zones)
      ≡ true)
    × (holds after_10 found ≡ true)
unfolding kind_name text_eq
visit_all-next_kept_example =
    visit_all-next_kept one_half not_twenty at_25 (pos 25) (pos 99) three_zones new_state key
      after_10 refl refl refl ((λ e. refl), ((λ e. ground arith), tt))
