-- ===== src/Query/Sorter/Runs.antt =====
-- What `ExternalSorter` keeps while records are added, and what `finish` makes of it.
use tracy_query.Prelude.{
  ℕ, ◌^◌, ◌≤◌, ◌<◌, ◌≡◌, refl, sym, ap, ◌∙◌, subst, false, List, [], ◌∷◌, ◌++◌, map, append_assoc,
  append-nil, arith, Text, All, length, length-append, All-append, length-map, take-all,
}
use mathlib.Core.List.{Perm}
use mathlib.Core.List.Perm
use tracy_query.Prelude.Sorting.{sort, IsSorted, sort-perm, sort-All, sort-length, sort-IsSorted}
use tracy_query.Model.{Kind, kind_number, Options, Record, TraceInput}
use tracy_query.Query.Order.{key_of, trace_order, record_less}
use tracy_query.Query.Sorter.{
  Node, later, push_next, first_nodes, run_size, ExternalSorter, node_of, flush_chunk, to_u32,
  to_u8,
}
use tracy_query.Query.Sorter.Keys.{node_key, later_lem, record_less-IsOrder}
use tracy_query.Query.Sorter.Merge.{contents, IsRun, IsHeap, contents-push_next}

-- The length of the record's source fits the run's 32-bit field.
abbrev pub Fits : Record → Type 0
Fits r = length r.source < 2 ^ 32

-- The nodes in all runs.
abbrev pub run_nodes : List (List Node) → List Node
run_nodes [] = []
run_nodes (run ∷ runs) = run ++ run_nodes runs

trace_order-bound :
    (inputs : List TraceInput) (label : Text) → trace_order inputs label ≤ length inputs
unfolding trace_order
trace_order-bound [] label = ground arith
trace_order-bound (t ∷ ts) label = ground (arith, trace_order-bound ts label)

kind_number-bound : (k : Kind) → kind_number k < 2 ^ 8
kind_number-bound k = elim k [
  | Kind.message ↦ ground arith
  | Kind.plot ↦ ground arith
  | Kind.cpu_zone ↦ ground arith
  | Kind.gpu_zone ↦ ground arith
  | Kind.frame ↦ ground arith
  | Kind.frame_image ↦ ground arith
  | Kind.lock ↦ ground arith
  | Kind.memory ↦ ground arith
  | Kind.sample ↦ ground arith
  | Kind.ghost_zone ↦ ground arith
  | Kind.context_switch ↦ ground arith
  | Kind.cpu_slice ↦ ground arith
  | Kind.cpu_usage ↦ ground arith
  | Kind.hardware_sample ↦ ground arith
  | Kind.crash ↦ ground arith
]

pub first_nodes-contents : (runs : List (List Node)) → contents (first_nodes runs) ≡ run_nodes runs
unfolding first_nodes
first_nodes-contents [] = refl
first_nodes-contents (run ∷ runs) =
    contents-push_next run (first_nodes runs) ∙ ap (λ u. run ++ u) (first_nodes-contents runs)

pub first_nodes-IsHeap : (runs : List (List Node)) → All IsRun runs → IsHeap (first_nodes runs)
unfolding first_nodes push_next
first_nodes-IsHeap [] h = tt
first_nodes-IsHeap ([] ∷ runs) h = first_nodes-IsHeap runs h.1
first_nodes-IsHeap ((n ∷ rest) ∷ runs) h = (h.0, first_nodes-IsHeap runs h.1)

pub run_size_lem : (runs : List (List Node)) → run_size runs ≡ length (run_nodes runs)
unfolding run_size
run_size_lem [] = refl
run_size_lem (run ∷ runs) = omega (arith, run_size_lem runs, length-append run (run_nodes runs))

run_nodes-append :
    (runs : List (List Node)) (run : List Node)
    → run_nodes (runs ++ (run ∷ [])) ≡ run_nodes runs ++ run
run_nodes-append [] run = append-nil run
run_nodes-append (r ∷ runs) run =
    ap (λ u. r ++ u) (run_nodes-append runs run) ∙ sym (append_assoc r (run_nodes runs) run)

module _ (format_double : ℕ → Text) (options : Options) (few : length options.traces < 2 ^ 32) where
  abbrev pub node : Record → Node
  node = node_of format_double options

  node-key : (r : Record) → Fits r → node_key (node r) ≡ key_of options.traces r
  unfolding node_of key_of
  node-key r h =
      let e₁ : to_u32 (trace_order options.traces r.trace) ≡ trace_order options.traces r.trace =
        omega (arith, trace_order-bound options.traces r.trace, few) in
      let e₂ : to_u8 (kind_number r.kind) ≡ kind_number r.kind =
        omega (arith, kind_number-bound r.kind) in
      let e₃ : to_u32 (length r.source) ≡ length r.source = omega (arith, h) in
      rw e₁ (rw e₂ (rw e₃ (rw (take-all (length r.source) r.source (omega arith)) refl)))

  -- Where there are fewer than 2^32 inputs and the two sources are shorter than 2^32 bytes, the merge
  -- orders two nodes as `record_less` orders their records.
  pub later-node_of :
      (a b : Record) → Fits a → Fits b → later (node a) (node b) ≡ record_less options.traces b a
  unfolding record_less
  later-node_of a b h k = ground (arith, later_lem (node a) (node b), node-key a h, node-key b k)

  All-run :
      (a : Record) (rs : List Record)
      → Fits a
      → All Fits rs
      → All (λ r. record_less options.traces r a ≡ false) rs
      → All (λ n. later (node a) n ≡ false) (map node rs)
  unfolding record_less
  All-run a [] h k l = tt
  All-run a (r ∷ rs) h k l = (
    ground (arith, later_lem (node a) (node r), node-key a h, node-key r k.0, l.0),
    All-run a rs h k.1 l.1,
  )

  chunk-IsRun :
      (rs : List Record)
      → All Fits rs
      → IsSorted (record_less options.traces) rs
      → IsRun (map node rs)
  chunk-IsRun [] h k = tt
  chunk-IsRun (r ∷ rs) h k = (All-run r rs h.0 h.1 k.0, chunk-IsRun rs h.1 k.1)

  -- All that a sorter holds: the nodes of its runs, and of the records of its chunk.
  abbrev pub held : ExternalSorter → List Node
  held s = run_nodes s.runs ++ map node s.chunk

  -- After `added` records: each is held once, the runs are sorted, and the chunk is not full.
  pub record IsHolding (s : ExternalSorter) (added : List Record) : Type 0 where
    pub all : Perm (held s) (map node added)
    pub size : length (held s) ≡ length added
    pub sorted : All IsRun s.runs
    pub fitting : All Fits s.chunk
    pub counted : s.record_count ≡ length added
    pub bounded : length s.chunk < 8192

  module _ (runs : List (List Node)) (count : ℕ) where
    abbrev pub sorter : List Record → ExternalSorter
    sorter chunk = record { chunk = chunk; runs = runs; record_count = count }

    abbrev new_run : List Record → List Node
    new_run chunk = map node (sort (record_less options.traces) chunk)

    flush_chunk-nodes :
        (r : Record) (rs : List Record)
        → held (flush_chunk format_double options (sorter (r ∷ rs)))
          ≡ run_nodes runs ++ new_run (r ∷ rs)
    unfolding flush_chunk
    flush_chunk-nodes r rs =
        append-nil (run_nodes (runs ++ (new_run (r ∷ rs) ∷ [])))
        ∙ run_nodes-append runs (new_run (r ∷ rs))

    pub flush_chunk-held :
        (chunk : List Record)
        → Perm (held (flush_chunk format_double options (sorter chunk))) (held (sorter chunk))
    unfolding flush_chunk
    flush_chunk-held [] = Perm.refl _
    flush_chunk-held (r ∷ rs) =
        subst (λ u. Perm u (run_nodes runs ++ map node (r ∷ rs))) (sym (flush_chunk-nodes r rs))
          (Perm.append_left (run_nodes runs)
            (Perm.map node (sort-perm (record_less options.traces) (r ∷ rs))))

    pub flush_chunk-length :
        (chunk : List Record)
        → length (held (flush_chunk format_double options (sorter chunk)))
          ≡ length (held (sorter chunk))
    unfolding flush_chunk
    flush_chunk-length [] = refl
    flush_chunk-length (r ∷ rs) = rw (flush_chunk-nodes r rs) (
        omega (
          arith,
          length-append (run_nodes runs) (new_run (r ∷ rs)),
          length-append (run_nodes runs) (map node (r ∷ rs)),
          length-map node (sort (record_less options.traces) (r ∷ rs)),
          length-map node (r ∷ rs),
          sort-length (record_less options.traces) (r ∷ rs),
        ))

    pub flush_chunk-sorted :
        (chunk : List Record)
        → All IsRun runs
        → All Fits chunk
        → All IsRun (flush_chunk format_double options (sorter chunk)).runs
    unfolding flush_chunk
    flush_chunk-sorted [] h k = h
    flush_chunk-sorted (r ∷ rs) h k = All-append IsRun runs (new_run (r ∷ rs) ∷ []) h (
      chunk-IsRun (sort (record_less options.traces) (r ∷ rs))
          (sort-All (record_less options.traces) Fits (r ∷ rs) k)
          (sort-IsSorted (record_less options.traces) (record_less-IsOrder options.traces)
            (r ∷ rs)),
      tt,
    )

    pub flush_chunk-chunk :
        (chunk : List Record) → (flush_chunk format_double options (sorter chunk)).chunk ≡ []
    unfolding flush_chunk
    flush_chunk-chunk [] = refl
    flush_chunk-chunk (r ∷ rs) = refl

    pub flush_chunk-count :
        (chunk : List Record)
        → (flush_chunk format_double options (sorter chunk)).record_count ≡ count
    unfolding flush_chunk
    flush_chunk-count [] = refl
    flush_chunk-count (r ∷ rs) = refl
