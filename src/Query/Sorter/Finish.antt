-- ===== src/Query/Sorter/Finish.antt =====
-- Every record added is held once, and `finish` writes them all in order, up to the limit.
use tracy_query.Prelude.{
  add_u64, ℕ, ◌+◌, ◌-◌, ◌^◌, ◌≤◌, ◌<◌, ◌≡◌, refl, sym, ap, ◌∙◌, subst, Bool, false, Option, none,
  some, List, [], ◌∷◌, ◌++◌, map, append_assoc, append-nil, arith, ltb, leb, Bool-cases, Text, All,
  length, take, length-append, length-take, All-append, map_append, inl, inr,
}
use mathlib.Core.List.{Perm}
use mathlib.Core.List.Perm
use tracy_query.Prelude.Sorting.{IsSorted}
use tracy_query.Model.{Options, Record}
use tracy_query.Query.Sorter.{
  Node, Cursor, first_nodes, run_size, merge_loop, ExternalSorter, new_sorter, node_of, flush_chunk,
  add, add_all, finish,
}
use tracy_query.Query.Sorter.Keys.{earlier}
use tracy_query.Query.Sorter.Merge.{contents}
use tracy_query.Query.Sorter.Loop.{
  merge_loop-perm, merge_loop-length, merge_loop-IsSorted, merge_loop-limit,
}
use tracy_query.Query.Sorter.Runs.{
  Fits, run_nodes, node, held, sorter, IsHolding, flush_chunk-held, flush_chunk-length,
  flush_chunk-sorted, flush_chunk-chunk, flush_chunk-count, run_size_lem, first_nodes-contents,
  first_nodes-IsHeap,
}

module _ (format_double : ℕ → Text) (options : Options) (few : length options.traces < 2 ^ 32) where
  new_sorter-IsHolding : IsHolding format_double options few new_sorter []
  new_sorter-IsHolding = record {
    all = Perm.refl [];
    size = refl;
    sorted = tt;
    fitting = tt;
    counted = refl;
    bounded = ground arith;
  }

  append_one :
      (s : ExternalSorter) (r : Record)
      → run_nodes s.runs ++ map (node format_double options few) (s.chunk ++ (r ∷ []))
        ≡ held format_double options few s ++ (node format_double options few r ∷ [])
  append_one s r =
      ap (λ u. run_nodes s.runs ++ u) (map_append (node format_double options few) s.chunk (r ∷ []))
      ∙ sym (
          append_assoc (run_nodes s.runs) (map (node format_double options few) s.chunk)
            (node format_double options few r ∷ []))

  add-IsHolding :
      (s : ExternalSorter) (added : List Record) (r : Record)
      → IsHolding format_double options few s added
      → Fits r
      → length added + 1 < 2 ^ 64
      → IsHolding format_double options few (add format_double options s r) (added ++ (r ∷ []))
  unfolding add
  add-IsHolding s added r h fit small =
      let chunk = s.chunk ++ (r ∷ []) in
      let grown = sorter format_double options few s.runs (add_u64 s.record_count 1) chunk in
      let e : held format_double options few grown
          ≡ held format_double options few s ++ (node format_double options few r ∷ []) =
        append_one s r in
      let all : Perm (held format_double options few grown)
          (map (node format_double options few) (added ++ (r ∷ []))) =
        subst (λ u. Perm u (map (node format_double options few) (added ++ (r ∷ [])))) (sym e)
          (subst
            (λ u.
              Perm (held format_double options few s ++ (node format_double options few r ∷ [])) u)
            (sym (map_append (node format_double options few) added (r ∷ [])))
            (Perm.append_right (node format_double options few r ∷ []) h.all)) in
      let size : length (held format_double options few grown) ≡ length (added ++ (r ∷ [])) =
        omega (
          arith,
          ap length e,
          length-append (held format_double options few s) (node format_double options few r ∷ []),
          length-append added (r ∷ []),
          h.size,
        ) in
      let fitting = All-append Fits s.chunk (r ∷ []) h.fitting (fit, tt) in
      let counted : add_u64 s.record_count 1 ≡ length (added ++ (r ∷ [])) =
        rw h.counted (omega (arith, length-append added (r ∷ []), small)) in
      elim (Bool-cases (leb 8192 (length chunk))) [
        | inl full ↦ rw full (record {
          all =
              Perm.trans
                (flush_chunk-held format_double options few s.runs (add_u64 s.record_count 1) chunk)
                all;
          size =
              flush_chunk-length format_double options few s.runs (add_u64 s.record_count 1) chunk
              ∙ size;
          sorted =
              flush_chunk-sorted format_double options few s.runs (add_u64 s.record_count 1) chunk
                h.sorted fitting;
          fitting =
              rw
                (flush_chunk-chunk format_double options few s.runs (add_u64 s.record_count 1)
                  chunk)
                tt;
          counted =
              flush_chunk-count format_double options few s.runs (add_u64 s.record_count 1) chunk
              ∙ counted;
          bounded =
              rw
                (flush_chunk-chunk format_double options few s.runs (add_u64 s.record_count 1)
                  chunk)
                (ground arith);
        })
        | inr room ↦ rw room (record {
          all = all;
          size = size;
          sorted = h.sorted;
          fitting = fitting;
          counted = counted;
          bounded = ground arith;
        })
      ]

  add_all-IsHolding :
      (s : ExternalSorter) (added rs : List Record)
      → IsHolding format_double options few s added
      → All Fits rs
      → length added + length rs < 2 ^ 64
      → IsHolding format_double options few (add_all format_double options s rs) (added ++ rs)
  unfolding add_all
  add_all-IsHolding s added [] h k small = rw (append-nil added) h
  add_all-IsHolding s added (r ∷ rs) h k small =
      let one = add-IsHolding s added r h k.0 (omega (arith, small)) in
      let rest =
        add_all-IsHolding (add format_double options s r) (added ++ (r ∷ [])) rs one k.1
          (omega (arith, small, length-append added (r ∷ []))) in
      subst
        (λ u.
          IsHolding format_double options few
            (add_all format_double options (add format_double options s r) rs) u)
        (append_assoc added (r ∷ []) rs) rest

  -- After fewer than 2^64 records, from fewer than 2^32 inputs and with sources shorter than 2^32
  -- bytes, fewer than 8192 of them wait in the chunk.
  pub add_all-bounded :
      (rs : List Record)
      → All Fits rs
      → length rs < 2 ^ 64
      → length (add_all format_double options new_sorter rs).chunk < 8192
  add_all-bounded rs h small =
      (add_all-IsHolding new_sorter [] rs new_sorter-IsHolding h (omega (arith, small))).bounded

-- What `--limit` leaves of the output, and whether it leaves something out.
abbrev pub cut {ℓ} : {A : Type ℓ} → Option ℕ → List A → List A
cut none xs = xs
cut (some limit) xs = take limit xs

abbrev pub exceeds : Option ℕ → ℕ → Bool
exceeds none n = false
exceeds (some limit) n = ltb limit n

-- An order of all records' nodes, of which `finish` writes the part below the limit.
pub record IsMerged (format_double : ℕ → Text) (options : Options) (rs : List Record)
    (merged : List Node) : Type 0 where
  pub all : Perm merged (map (node_of format_double options) rs)
  pub sorted : IsSorted earlier merged
  pub written :
      (finish format_double options (add_all format_double options new_sorter rs)).0
      ≡ cut options.limit merged
  pub truncated :
      (finish format_double options (add_all format_double options new_sorter rs)).1
      ≡ exceeds options.limit (length rs)

merge_loop-cut :
    (fuel : ℕ) (limit : Option ℕ) (heap : List Cursor)
    → merge_loop fuel limit 0 heap ≡ cut limit (merge_loop fuel none 0 heap)
merge_loop-cut fuel none heap = refl
merge_loop-cut fuel (some limit) heap =
    let e : limit - 0 ≡ limit = omega arith in
    merge_loop-limit fuel limit 0 heap ∙ ap (λ n. take n (merge_loop fuel none 0 heap)) e

exceeds_lem :
    (limit : Option ℕ) (xs : List Node)
    → ltb (length (cut limit xs)) (length xs) ≡ exceeds limit (length xs)
exceeds_lem none xs = ground arith
exceeds_lem (some limit) xs = ground (arith, length-take limit xs)

-- Fewer than 2^64 records, from fewer than 2^32 inputs and with sources shorter than 2^32 bytes, that
-- are added to a new sorter: `finish` writes the first nodes, up to the limit, of an order of all
-- their nodes in which none is before an earlier one, and reports a truncation exactly when there
-- are more records than the limit.
pub finish_lem :
    (format_double : ℕ → Text) (options : Options) (rs : List Record)
    → length options.traces < 2 ^ 32
    → All Fits rs
    → length rs < 2 ^ 64
    → (merged : List Node) × IsMerged format_double options rs merged
unfolding finish
finish_lem format_double options rs few fit small =
    let s = add_all format_double options new_sorter rs in
    let holding =
      add_all-IsHolding format_double options few new_sorter [] rs
        (new_sorter-IsHolding format_double options few) fit (omega (arith, small)) in
    let runs = (flush_chunk format_double options s).runs in
    let heap = first_nodes runs in
    let flushed : held format_double options few (flush_chunk format_double options s)
        ≡ run_nodes runs =
      ap (λ u. run_nodes runs ++ map (node_of format_double options) u)
        (flush_chunk-chunk format_double options few s.runs s.record_count s.chunk)
      ∙ append-nil (run_nodes runs) in
    let enough : length (contents heap) ≤ run_size runs =
      omega (arith, run_size_lem runs, ap length (first_nodes-contents runs)) in
    let same : length (merge_loop (run_size runs) none 0 heap) ≡ length rs = omega (
      arith,
      merge_loop-length (run_size runs) 0 heap enough,
      ap length (first_nodes-contents runs),
      ap length flushed,
      flush_chunk-length format_double options few s.runs s.record_count s.chunk,
      holding.size,
    ) in
    (
      merge_loop (run_size runs) none 0 heap,
      record {
        all = Perm.trans (merge_loop-perm (run_size runs) 0 heap enough) (
            subst (λ u. Perm u (map (node_of format_double options) rs))
              (flushed ∙ sym (first_nodes-contents runs))
              (Perm.trans (flush_chunk-held format_double options few s.runs s.record_count s.chunk)
                holding.all));
        sorted = merge_loop-IsSorted (run_size runs) 0 heap (
            first_nodes-IsHeap runs (
              flush_chunk-sorted format_double options few s.runs s.record_count s.chunk
                holding.sorted holding.fitting));
        written = merge_loop-cut (run_size runs) options.limit heap;
        truncated = ground (
          arith,
          exceeds_lem options.limit (merge_loop (run_size runs) none 0 heap),
          merge_loop-cut (run_size runs) options.limit heap,
          same,
          flush_chunk-count format_double options few s.runs s.record_count s.chunk,
          holding.counted,
        );
      },
    )
