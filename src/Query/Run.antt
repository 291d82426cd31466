-- ===== src/Query/Run.antt =====
-- `run_query` of src/query.cpp: what it keeps while the records are visited, and what it writes.
-- What the visitors give, what the matcher answers and the ends of the traces are arguments.
pub mod Groups
pub mod Points
pub mod Next
pub mod Kept
pub mod Stream
pub mod Printed
use tracy_query.Prelude.{
  add_u64, ℕ, ◌+◌, Bool, false, ◌&&◌, not, Option, none, some, List, [], ◌∷◌, ◌++◌, ltb, leb, ◌==◌,
  if◌then◌else◌, Text, codes, text_eq, text_lt, is_empty, length, any,
}
use tracy_query.Prelude.Int.{ℤ, leb_ℤ, ltb_ℤ}
use tracy_query.Prelude.Sorting.{sort}
use tracy_query.Model.{kind_name, Value, Fields, TimeSelection, Options, Record}
use tracy_query.Output.{emit_record, emit_object}
use tracy_query.Query.Range.{temporal_range_match}
use tracy_query.Query.Order.{identity, record_less}
use tracy_query.Query.Sorter.{ExternalSorter, Node, new_sorter, add, finish}

-- A map with text keys.
abbrev pub lookup {ℓ} : {A : Type ℓ} → Text → List (Text × A) → Option A
lookup key [] = none
lookup key ((k, a) ∷ rest) = if text_eq k key then some a else lookup key rest

abbrev pub insert_or_assign {ℓ} : {A : Type ℓ} → Text → A → List (Text × A) → List (Text × A)
insert_or_assign key v [] = (key, v) ∷ []
insert_or_assign key v ((k, a) ∷ rest) =
    if text_eq k key then (k, v) ∷ rest else (k, a) ∷ insert_or_assign key v rest

-- The groups of `--count --by`, in the order of their keys.
abbrev pub Groups : Type 0
Groups = List (Text × (Fields × ℕ))

abbrev pub group_value : Text → Record → Text
group_value group r =
    if text_eq group (codes "trace")
    then r.trace
    else if text_eq group (codes "source")
    then r.source
    else kind_name r.kind

abbrev pub group_key : List Text → Record → Text
group_key [] r = []
group_key (g ∷ gs) r = group_value g r ++ (0x0a ∷ group_key gs r)

abbrev pub group_fields : List Text → Record → Fields
group_fields [] r = []
group_fields (g ∷ gs) r = (g, Value.string (group_value g r)) ∷ group_fields gs r

-- `auto& entry = groups[key]`, then the entry's fields if it is new, and its count.
unfoldable pub count_group : Text → Fields → Groups → Groups
unfolding text_eq text_lt
count_group key fields [] = (key, (fields, 1)) ∷ []
count_group key fields ((k, (f, n)) ∷ rest) =
    if text_lt key k
    then (key, (fields, 1)) ∷ (k, (f, n)) ∷ rest
    else if text_eq k key
    then (k, (if n == 0 then fields else f, add_u64 n 1)) ∷ rest
    else (k, (f, n)) ∷ count_group key fields rest

-- What is kept of the records visited.
pub record State : Type 0 where
  pub latest : List (Text × Record)
  pub next : List (Text × Record)
  pub point_ids : List Text
  pub records : List Record
  pub streaming_count : ℕ
  pub streaming_groups : Groups
  pub sorter : ExternalSorter

abbrev pub new_state : State
new_state = record {
  latest = [];
  next = [];
  point_ids = [];
  records = [];
  streaming_count = 0;
  streaming_groups = [];
  sorter = new_sorter;
}

unfoldable pub count_record : List Text → Record → State → State
unfolding count_group
count_record group_by r s = record {
  latest = s.latest;
  next = s.next;
  point_ids = s.point_ids;
  records = s.records;
  streaming_count = add_u64 s.streaming_count 1;
  streaming_groups =
      if is_empty group_by
      then s.streaming_groups
      else count_group (group_key group_by r) (group_fields group_by r) s.streaming_groups;
  sorter = s.sorter;
}

-- The key of `latest` and `next`: a kind of a source.
abbrev pub point_key : Record → Text
unfolding kind_name
point_key r = r.trace ++ (0x0a ∷ (r.source ++ (0x0a ∷ kind_name r.kind)))

-- `if (point_ids.insert(identity(record)).second) records.push_back(record)`
unfoldable pub push_once : Record → List Text × List Record → List Text × List Record
unfolding identity text_eq
push_once r (ids, records) =
    if any (λ id. text_eq id (identity r)) ids
    then (ids, records)
    else (identity r ∷ ids, records ++ (r ∷ []))

unfoldable pub is_active : ℤ → Record → Bool
is_active at r = elim r.end_timestamp_ns [
  | none ↦ false
  | some end ↦ leb_ℤ r.timestamp_ns at && leb_ℤ at end
]

unfoldable pub update_latest : ℤ → Record → List (Text × Record) → List (Text × Record)
unfolding text_eq kind_name
update_latest at r latest =
    if leb_ℤ r.timestamp_ns at
    then elim (lookup (point_key r) latest) [
      | none ↦ insert_or_assign (point_key r) r latest
      | some found ↦
          if ltb_ℤ found.timestamp_ns r.timestamp_ns
          then insert_or_assign (point_key r) r latest
          else latest
    ]
    else latest

unfoldable pub update_next : ℤ → Record → List (Text × Record) → List (Text × Record)
unfolding text_eq kind_name
update_next at r next =
    if leb_ℤ at r.timestamp_ns
    then elim (lookup (point_key r) next) [
      | none ↦ insert_or_assign (point_key r) r next
      | some found ↦
          if ltb_ℤ r.timestamp_ns found.timestamp_ns
          then insert_or_assign (point_key r) r next
          else next
    ]
    else next

-- What a matching record does with `--at`.
unfoldable pub visit_at : TimeSelection → ℤ → Record → State → State
unfolding push_once is_active update_latest update_next
visit_at time at r s =
    let pushed =
      if time.active && is_active at r
      then push_once r (s.point_ids, s.records)
      else (s.point_ids, s.records) in
    record {
      latest = if time.latest then update_latest at r s.latest else s.latest;
      next = if time.next then update_next at r s.next else s.next;
      point_ids = pushed.0;
      records = pushed.1;
      streaming_count = s.streaming_count;
      streaming_groups = s.streaming_groups;
      sorter = s.sorter;
    }

-- The records that `latest` and `next` hold join those found active.
unfoldable pub push_points :
    List (Text × Record) → List Text × List Record → List Text × List Record
unfolding push_once
push_points [] pushed = pushed
push_points (entry ∷ rest) pushed = push_points rest (push_once entry.1 pushed)

unfoldable pub count_groups : List Text → List Record → Groups → Groups
unfolding count_group
count_groups group_by [] groups = groups
count_groups group_by (r ∷ rs) groups =
    count_groups group_by rs (count_group (group_key group_by r) (group_fields group_by r) groups)

abbrev pub with_sorter : State → ExternalSorter → State
with_sorter s sorter = record {
  latest = s.latest;
  next = s.next;
  point_ids = s.point_ids;
  records = s.records;
  streaming_count = s.streaming_count;
  streaming_groups = s.streaming_groups;
  sorter = sorter;
}

-- `output_ << node.line` for the nodes in order.
abbrev pub node_lines : List Node → Text
node_lines [] = []
node_lines (n ∷ ns) = n.line ++ node_lines ns

module _ (format_double : ℕ → Text) (matches : Record → Bool) (options : Options) where
  -- The visitor that `run_query` gives to `visit_kind`.
  unfoldable pub visit : ℤ → Record → State → State
  unfolding visit_at count_record temporal_range_match add
  visit trace_end r s = if not (matches r) then s else elim options.time.at_ns [
    | some at ↦ visit_at options.time at r s
    | none ↦
        if temporal_range_match r options.time trace_end
        then if options.count
          then count_record options.group_by r s
          else with_sorter s (add format_double options s.sorter r)
        else s
  ]

  unfoldable pub visit_all : ℤ → List Record → State → State
  unfolding visit
  visit_all trace_end [] s = s
  visit_all trace_end (r ∷ rs) s = visit_all trace_end rs (visit trace_end r s)

  -- Each trace's end, and the records of the kinds asked for.
  unfoldable pub visit_traces : List (ℤ × List Record) → State → State
  unfolding visit_all
  visit_traces [] s = s
  visit_traces (t ∷ ts) s = visit_traces ts (visit_all t.0 t.1 s)

  unfoldable pub emit_groups : Groups → Text
  unfolding emit_object
  emit_groups [] = []
  emit_groups ((key, (fields, n)) ∷ rest) =
      emit_object format_double options.format (fields ++ ((codes "count", Value.uint64 n) ∷ []))
      ++ emit_groups rest

  unfoldable pub emit_count : ℕ → Groups → Text
  unfolding emit_groups emit_object
  emit_count n groups =
      if is_empty options.group_by
      then emit_object format_double options.format ((codes "count", Value.uint64 n) ∷ [])
      else emit_groups groups

  -- `for (const auto& record : records) { if (options.limit && emitted >= *options.limit) break; ...`
  unfoldable pub emit_records : ℕ → List Record → Text × ℕ
  unfolding emit_record
  emit_records emitted [] = ([], emitted)
  emit_records emitted (r ∷ rs) =
      let rest = emit_records (emitted + 1) rs in
      if elim options.limit [ none ↦ false | some limit ↦ leb limit emitted ]
      then ([], emitted)
      else (emit_record format_double options.format r ++ rest.0, rest.1)

  -- With `--at`: the active records, then the latest and the next ones, sorted.
  unfoldable pub point_records : State → List Record
  unfolding push_points sort record_less
  point_records s =
      let pushed = push_points s.next (push_points s.latest (s.point_ids, s.records)) in
      sort (record_less options.traces) pushed.1

  -- The output, and whether the diagnostics say that `--limit` truncated it.
  unfoldable pub write_points : List Record → Text × Bool
  unfolding emit_count count_groups emit_records
  write_points records =
      if options.count
      then (emit_count (length records) (count_groups options.group_by records []), false)
      else let emitted = emit_records 0 records in
        (emitted.0, ltb emitted.1 (length records) && not options.quiet)

  -- Without `--at`: the counts, or the sorter's lines.
  unfoldable pub write_range : State → Text × Bool
  unfolding emit_count finish
  write_range s =
      if options.count
      then (emit_count s.streaming_count s.streaming_groups, false)
      else let finished = finish format_double options s.sorter in
        (node_lines finished.0, finished.1 && not options.quiet)

  unfoldable pub run_query : List (ℤ × List Record) → Text × Bool
  unfolding visit_traces write_range point_records write_points
  run_query visited =
      let s = visit_traces visited new_state in
      elim options.time.at_ns [ some at ↦ write_points (point_records s) | none ↦ write_range s ]
