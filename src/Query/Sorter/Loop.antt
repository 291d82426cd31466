-- ===== src/Query/Sorter/Loop.antt =====
-- The loop of `finish`: with enough turns it writes every node once, in order; a limit cuts it off.
use tracy_query.Prelude.{
  ℕ, zero, suc, ◌+◌, ◌-◌, ◌≤◌, ◌≡◌, refl, sym, ap, subst, false, none, some, List, [], ◌∷◌, arith,
  ltb, Bool-cases, All, length, take, All-append, All-split, take-nil, inl, inr, ltb→lt,
}
use mathlib.Core.List.{Perm}
use mathlib.Core.List.Perm
use tracy_query.Prelude.Sorting.{All-le_trans}
use tracy_query.Query.Sorter.{Node, later, Cursor, pop_top, push_next, merge_loop}
use tracy_query.Query.Sorter.Keys.{earlier, earlier-IsOrder}
use tracy_query.Query.Sorter.Merge.{
  nodes, contents, IsRun, IsHeap, pop_top-perm, pop_top-length, pop_top-All, pop_top-IsLeast,
  contents-push_next,
}

-- The queue after a turn stands for what is left of its nodes.
left_over :
    (c : Cursor) (cs : List Cursor)
    → contents ((pop_top c cs).0 ∷ (pop_top c cs).1)
      ≡ (pop_top c cs).0.0 ∷ contents (push_next (pop_top c cs).0.1 (pop_top c cs).1)
left_over c cs = rw (contents-push_next (pop_top c cs).0.1 (pop_top c cs).1) refl

left_over-length :
    (c : Cursor) (cs : List Cursor) (fuel : ℕ)
    → length (contents (c ∷ cs)) ≤ suc fuel
    → length (contents (push_next (pop_top c cs).0.1 (pop_top c cs).1)) ≤ fuel
left_over-length c cs fuel h = omega (arith, pop_top-length c cs, ap length (left_over c cs), h)

pub merge_loop-perm :
    (fuel e : ℕ) (heap : List Cursor)
    → length (contents heap) ≤ fuel
    → Perm (merge_loop fuel none e heap) (contents heap)
unfolding merge_loop
merge_loop-perm zero e [] h = Perm.refl []
merge_loop-perm zero e (c ∷ cs) h = ground arith
merge_loop-perm (suc fuel) e [] h = Perm.refl []
merge_loop-perm (suc fuel) e (c ∷ cs) h =
    let rest = push_next (pop_top c cs).0.1 (pop_top c cs).1 in
    Perm.trans
      (Perm.cons (pop_top c cs).0.0
        (merge_loop-perm fuel (e + 1) rest (left_over-length c cs fuel h)))
      (subst (λ u. Perm u (contents (c ∷ cs))) (left_over c cs) (pop_top-perm c cs))

pub merge_loop-length :
    (fuel e : ℕ) (heap : List Cursor)
    → length (contents heap) ≤ fuel
    → length (merge_loop fuel none e heap) ≡ length (contents heap)
unfolding merge_loop
merge_loop-length zero e [] h = refl
merge_loop-length zero e (c ∷ cs) h = ground arith
merge_loop-length (suc fuel) e [] h = refl
merge_loop-length (suc fuel) e (c ∷ cs) h =
    let rest = push_next (pop_top c cs).0.1 (pop_top c cs).1 in
    let ih = merge_loop-length fuel (e + 1) rest (left_over-length c cs fuel h) in
    omega (arith, ih, pop_top-length c cs, ap length (left_over c cs))

-- A queue's nodes all satisfy a predicate when each entry's do.
All-contents {κ} :
    (P : Node → Type κ) (heap : List Cursor)
    → All (λ c. All P (nodes c)) heap
    → All P (contents heap)
All-contents P [] h = tt
All-contents P (c ∷ cs) h = All-append P (nodes c) (contents cs) h.0 (All-contents P cs h.1)

contents-All {κ} :
    (P : Node → Type κ) (heap : List Cursor)
    → All P (contents heap)
    → All (λ c. All P (nodes c)) heap
contents-All P [] h = tt
contents-All P (c ∷ cs) h =
    let r = All-split P (nodes c) (contents cs) h in (r.0, contents-All P cs r.1)

merge_loop-All {κ} :
    (P : Node → Type κ) (fuel e : ℕ) (heap : List Cursor)
    → All P (contents heap)
    → All P (merge_loop fuel none e heap)
unfolding merge_loop
merge_loop-All P zero e heap h = tt
merge_loop-All P (suc fuel) e [] h = tt
merge_loop-All P (suc fuel) e (c ∷ cs) h =
    let per = contents-All P (c ∷ cs) h in
    let taken = pop_top-All (λ d. All P (nodes d)) c cs per.0 per.1 in
    let all =
      subst (λ u. All P u) (left_over c cs)
        (All-contents P ((pop_top c cs).0 ∷ (pop_top c cs).1) taken) in
    (all.0, merge_loop-All P fuel (e + 1) (push_next (pop_top c cs).0.1 (pop_top c cs).1) all.1)

-- In a queue of sorted runs, a node that no first node is before is before none.
run_after :
    (b : Node) (cs : List Cursor)
    → IsHeap cs
    → All (λ d. later b d.0 ≡ false) cs
    → All (λ y. later b y ≡ false) (contents cs)
run_after b [] h k = tt
run_after b (c ∷ cs) h k =
    All-append (λ y. later b y ≡ false) (nodes c) (contents cs)
      (k.0, All-le_trans earlier earlier-IsOrder b c.0 c.1 k.0 h.0.0) (run_after b cs h.1 k.1)

push_next-IsHeap :
    (rest : List Node) (heap : List Cursor)
    → IsRun rest
    → IsHeap heap
    → IsHeap (push_next rest heap)
unfolding push_next
push_next-IsHeap [] heap h k = k
push_next-IsHeap (n ∷ rest) heap h k = (h, k)

pub merge_loop-IsSorted :
    (fuel e : ℕ) (heap : List Cursor) → IsHeap heap → IsRun (merge_loop fuel none e heap)
unfolding merge_loop
merge_loop-IsSorted zero e heap h = tt
merge_loop-IsSorted (suc fuel) e [] h = tt
merge_loop-IsSorted (suc fuel) e (c ∷ cs) h =
    let p = pop_top c cs in
    let runs = pop_top-All (λ d. IsRun (nodes d)) c cs h.0 h.1 in
    let least = pop_top-IsLeast c cs in
    let others = pop_top-All (λ d. later p.0.0 d.0 ≡ false) c cs least.0 least.1 in
    let after =
      All-append (λ y. later p.0.0 y ≡ false) p.0.1 (contents p.1) runs.0.0
        (run_after p.0.0 p.1 runs.1 others.1) in
    let rest =
      subst (λ u. All (λ y. later p.0.0 y ≡ false) u) (sym (contents-push_next p.0.1 p.1)) after in
    (
      merge_loop-All (λ y. later p.0.0 y ≡ false) fuel (e + 1) (push_next p.0.1 p.1) rest,
      merge_loop-IsSorted fuel (e + 1) (push_next p.0.1 p.1)
          (push_next-IsHeap p.0.1 p.1 runs.0.1 runs.1),
    )

pub merge_loop-limit :
    (fuel limit e : ℕ) (heap : List Cursor)
    → merge_loop fuel (some limit) e heap ≡ take (limit - e) (merge_loop fuel none e heap)
unfolding merge_loop
merge_loop-limit zero limit e heap = sym (take-nil (limit - e))
merge_loop-limit (suc fuel) limit e [] = sym (take-nil (limit - e))
merge_loop-limit (suc fuel) limit e (c ∷ cs) =
    let rest = push_next (pop_top c cs).0.1 (pop_top c cs).1 in
    elim (Bool-cases (ltb e limit)) [
      | inl lt ↦
          let e₁ : limit - e ≡ suc (limit - (e + 1)) = ground (arith, ltb→lt e limit) in
          rw lt (rw e₁ (ap (◌∷◌ (pop_top c cs).0.0) (merge_loop-limit fuel limit (e + 1) rest)))
      | inr ge ↦ let e₀ : limit - e ≡ 0 = ground arith in rw ge (rw e₀ refl)
    ]
