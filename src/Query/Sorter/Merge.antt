-- ===== src/Query/Sorter/Merge.antt =====
-- The merge of `finish`: what the queue gives, and what the loop writes.
use tracy_query.Prelude.{
  ◌≡◌, refl, sym, subst, false, List, [], ◌∷◌, ◌++◌, append_assoc, arith, if◌then◌else◌, Bool-cases,
  All, length, length-append, inl, inr,
}
use mathlib.Core.List.{Perm, perm_append_comm}
use mathlib.Core.List.Perm
use tracy_query.Prelude.Sorting.{IsSorted}
use tracy_query.Query.Sorter.{Node, later, Cursor, pop_top, push_next}
use tracy_query.Query.Sorter.Keys.{earlier, earlier-IsOrder}

-- All the nodes that an entry, and that the queue, still stand for.
abbrev pub nodes : Cursor → List Node
nodes c = c.0 ∷ c.1

abbrev pub contents : List Cursor → List Node
contents [] = []
contents (c ∷ cs) = nodes c ++ contents cs

abbrev pub IsRun : List Node → Type 0
IsRun = IsSorted earlier

abbrev pub IsHeap : List Cursor → Type 0
IsHeap heap = All (λ c. IsRun (nodes c)) heap

swap_front : (xs ys zs : List Node) → Perm (xs ++ (ys ++ zs)) (ys ++ (xs ++ zs))
swap_front xs ys zs =
    subst (λ u. Perm u (ys ++ (xs ++ zs))) (append_assoc xs ys zs)
      (subst (λ u. Perm ((xs ++ ys) ++ zs) u) (append_assoc ys xs zs)
        (Perm.append_right zs (perm_append_comm xs ys)))

pub pop_top-perm :
    (c : Cursor) (cs : List Cursor)
    → Perm (contents ((pop_top c cs).0 ∷ (pop_top c cs).1)) (contents (c ∷ cs))
unfolding pop_top
pop_top-perm c [] = Perm.refl _
pop_top-perm c (d ∷ ds) = elim (Bool-cases (later c.0 d.0)) [
  | inl lt ↦ rw lt (
      Perm.trans (swap_front (nodes (pop_top d ds).0) (nodes c) (contents (pop_top d ds).1))
        (Perm.append_left (nodes c) (pop_top-perm d ds)))
  | inr ge ↦ rw ge (
      Perm.trans (swap_front (nodes (pop_top c ds).0) (nodes d) (contents (pop_top c ds).1)) (
        Perm.trans (Perm.append_left (nodes d) (pop_top-perm c ds))
          (swap_front (nodes d) (nodes c) (contents ds))))
]

pub pop_top-length :
    (c : Cursor) (cs : List Cursor)
    → length (contents ((pop_top c cs).0 ∷ (pop_top c cs).1)) ≡ length (contents (c ∷ cs))
unfolding pop_top
pop_top-length c [] = refl
pop_top-length c (d ∷ ds) = elim (Bool-cases (later c.0 d.0)) [
  | inl lt ↦ rw lt (
      omega (
        arith,
        pop_top-length d ds,
        length-append (nodes (pop_top d ds).0) (contents (pop_top d ds).1),
        length-append (nodes (pop_top d ds).0) (nodes c ++ contents (pop_top d ds).1),
        length-append (nodes c) (contents (pop_top d ds).1),
        length-append (nodes c) (nodes d ++ contents ds),
        length-append (nodes d) (contents ds),
      ))
  | inr ge ↦ rw ge (
      omega (
        arith,
        pop_top-length c ds,
        length-append (nodes (pop_top c ds).0) (contents (pop_top c ds).1),
        length-append (nodes (pop_top c ds).0) (nodes d ++ contents (pop_top c ds).1),
        length-append (nodes d) (contents (pop_top c ds).1),
        length-append (nodes c) (nodes d ++ contents ds),
        length-append (nodes c) (contents ds),
        length-append (nodes d) (contents ds),
      ))
]

pub pop_top-All {κ} :
    (P : Cursor → Type κ) (c : Cursor) (cs : List Cursor)
    → P c
    → All P cs
    → P (pop_top c cs).0 × All P (pop_top c cs).1
unfolding pop_top
pop_top-All P c [] h k = (h, k)
pop_top-All P c (d ∷ ds) h k = elim (Bool-cases (later c.0 d.0)) [
  | inl lt ↦ let r = pop_top-All P d ds k.0 k.1 in rw lt (r.0, (h, r.1))
  | inr ge ↦ let r = pop_top-All P c ds h k.1 in rw ge (r.0, (k.0, r.1))
]

-- The entry is not later than any of the others.
abbrev IsLeast : Node → Cursor → List Cursor → Type 0
IsLeast b c cs = (later b c.0 ≡ false) × All (λ d. later b d.0 ≡ false) cs

pop_top-taken :
    (c d : Cursor) (ds : List Cursor)
    → (pop_top c (d ∷ ds)).0 ≡ (pop_top (if later c.0 d.0 then d else c) ds).0
unfolding pop_top
pop_top-taken c d ds = refl

later_irrefl : (a : Node) → later a a ≡ false
later_irrefl a = ground (arith, earlier-IsOrder.asymm a a)

pub pop_top-IsLeast : (c : Cursor) (cs : List Cursor) → IsLeast (pop_top c cs).0.0 c cs
unfolding pop_top
pop_top-IsLeast c [] = (later_irrefl c.0, tt)
pop_top-IsLeast c (d ∷ ds) = elim (Bool-cases (later c.0 d.0)) [
  | inl lt ↦
      let r = pop_top-IsLeast d ds in
      let e : (pop_top c (d ∷ ds)).0.0 ≡ (pop_top d ds).0.0 = rw lt refl in
      subst (λ b. IsLeast b c (d ∷ ds)) (sym e)
        (
          earlier-IsOrder.le_trans (pop_top d ds).0.0 d.0 c.0 r.0
              (earlier-IsOrder.asymm d.0 c.0 lt),
          r,
        )
  | inr ge ↦
      let r = pop_top-IsLeast c ds in
      let e : (pop_top c (d ∷ ds)).0.0 ≡ (pop_top c ds).0.0 = rw ge refl in
      subst (λ b. IsLeast b c (d ∷ ds)) (sym e)
        (r.0, (earlier-IsOrder.le_trans (pop_top c ds).0.0 c.0 d.0 r.0 ge, r.1))
]

pub contents-push_next :
    (rest : List Node) (heap : List Cursor) → contents (push_next rest heap) ≡ rest ++ contents heap
unfolding push_next
contents-push_next [] heap = refl
contents-push_next (n ∷ rest) heap = refl
