-- ===== src/Query/Sorter.antt =====
-- `ExternalSorter` of src/query.cpp: records are kept in chunks of 8192, each chunk is sorted and
-- written to a run, and `finish` merges the runs. A run's file is the list of the nodes written to
-- it; a run that cannot be created, written or read is not modelled.
pub mod Merge
pub mod Loop
pub mod Keys
pub mod Runs
pub mod Finish
use tracy_query.Prelude.{
  add_u64, ℕ, zero, suc, ◌+◌, ◌%◌, ◌^◌, ◌≤◌, Bool, true, not, Option, none, some, List, [], ◌∷◌,
  ◌++◌, map, ltb, leb, ◌==◌, if◌then◌else◌, Text, text_eq, text_lt, is_empty, length, take,
}
use tracy_query.Prelude.Int.{ℤ, ltb_ℤ, eq_ℤ}
use tracy_query.Prelude.Sorting.{sort}
use tracy_query.Model.{kind_number, Options, Record}
use tracy_query.Output.{emit_record}
use tracy_query.Query.Order.{trace_order, record_less}

-- What a run holds of a record, and what `read_node` reads back; `line` is the record's output.
pub record Node : Type 0 where
  pub timestamp : ℤ
  pub trace : ℕ
  pub kind : ℕ
  pub sequence : ℕ
  pub source : Text
  pub line : Text

-- `static_cast<uint32_t>` and `static_cast<uint8_t>`
abbrev pub to_u32 : ℕ → ℕ
to_u32 n = n % 2 ^ 32

abbrev pub to_u8 : ℕ → ℕ
to_u8 n = n % 2 ^ 8

-- The comparison of the priority queue.
unfoldable pub later : Node → Node → Bool
unfolding text_eq text_lt
later left right =
    if not (eq_ℤ left.timestamp right.timestamp)
    then ltb_ℤ right.timestamp left.timestamp
    else if not (left.trace == right.trace)
    then ltb right.trace left.trace
    else if not (left.kind == right.kind)
    then ltb right.kind left.kind
    else if not (text_eq left.source right.source)
    then text_lt right.source left.source
    else ltb right.sequence left.sequence

-- An entry of the queue: a node, and what its run still holds.
abbrev pub Cursor : Type 0
Cursor = Node × List Node

-- `heap.top(); heap.pop()`: an entry that no other one comes before, and the others.
unfoldable pub pop_top : Cursor → List Cursor → Cursor × List Cursor
unfolding later
pop_top c [] = (c, [])
pop_top c (d ∷ ds) =
    let best = pop_top (if later c.0 d.0 then d else c) ds in
    (best.0, (if later c.0 d.0 then c else d) ∷ best.1)

-- `if (read_node(...)) heap.push(...)`
unfoldable pub push_next : List Node → List Cursor → List Cursor
push_next [] heap = heap
push_next (node ∷ rest) heap = (node, rest) ∷ heap

unfoldable pub first_nodes : List (List Node) → List Cursor
unfolding push_next
first_nodes [] = []
first_nodes (run ∷ runs) = push_next run (first_nodes runs)

abbrev pub below_limit : Option ℕ → ℕ → Bool
below_limit none emitted = true
below_limit (some limit) emitted = ltb emitted limit

-- The loop of `finish`, which writes a node in each turn; `fuel` bounds the turns.
unfoldable pub merge_loop : ℕ → Option ℕ → ℕ → List Cursor → List Node
unfolding pop_top push_next
merge_loop zero limit emitted heap = []
merge_loop (suc fuel) limit emitted [] = []
merge_loop (suc fuel) limit emitted (c ∷ cs) =
    let best = pop_top c cs in
    let rest = merge_loop fuel limit (emitted + 1) (push_next best.0.1 best.1) in
    if below_limit limit emitted then best.0.0 ∷ rest else []

-- How many nodes the runs hold.
unfoldable pub run_size : List (List Node) → ℕ
run_size [] = 0
run_size (run ∷ runs) = length run + run_size runs

pub record ExternalSorter : Type 0 where
  pub chunk : List Record
  pub runs : List (List Node)
  pub record_count : ℕ

abbrev pub new_sorter : ExternalSorter
new_sorter = record { chunk = []; runs = []; record_count = 0 }

module _ (format_double : ℕ → Text) (options : Options) where
  -- What `flush_chunk` writes of a record.
  unfoldable pub node_of : Record → Node
  unfolding trace_order emit_record
  node_of r =
      let line = emit_record format_double options.format r in
      record {
        timestamp = r.timestamp_ns;
        trace = to_u32 (trace_order options.traces r.trace);
        kind = to_u8 (kind_number r.kind);
        sequence = r.sequence;
        source = take (to_u32 (length r.source)) r.source;
        line = take (to_u32 (length line)) line;
      }

  unfoldable pub flush_chunk : ExternalSorter → ExternalSorter
  unfolding sort record_less node_of
  flush_chunk s = if is_empty s.chunk then s else record {
    chunk = [];
    runs = s.runs ++ (map node_of (sort (record_less options.traces) s.chunk) ∷ []);
    record_count = s.record_count;
  }

  unfoldable pub add : ExternalSorter → Record → ExternalSorter
  unfolding flush_chunk
  add s r =
      let grown : ExternalSorter = record {
        chunk = s.chunk ++ (r ∷ []);
        runs = s.runs;
        record_count = add_u64 s.record_count 1;
      } in
      if leb 8192 (length grown.chunk) then flush_chunk grown else grown

  -- The nodes whose lines are written, and whether some of the records are left out.
  unfoldable pub finish : ExternalSorter → List Node × Bool
  unfolding flush_chunk merge_loop first_nodes run_size
  finish s =
      let runs = (flush_chunk s).runs in
      let emitted = merge_loop (run_size runs) options.limit 0 (first_nodes runs) in
      (emitted, ltb (length emitted) (flush_chunk s).record_count)

  unfoldable pub add_all : ExternalSorter → List Record → ExternalSorter
  unfolding add
  add_all s [] = s
  add_all s (r ∷ rs) = add_all (add s r) rs
