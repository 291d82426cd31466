-- ===== src/Transport/Pipe/Fits.antt =====
-- A source that fits into the ring is written without the help of a reader.
use tracy_query.Prelude.{
  length-copy_to, refl, sym, subst, ◌++◌, append-nil, All, ℕ, zero, suc, ◌+◌, ◌≤◌, ◌<◌, ◌≡◌, ap,
  ◌∙◌, false, List, [], ◌∷◌, arith, Text, length, take, drop, length-drop,
}
use tracy_query.Transport.Pipe.{
  Pipe, capacity_of, tail_of, write_count, after_write, write_round, WriteRound, blocked, refused,
  copied, Turn, run, WriteStatus, written, write_pipe,
}
use tracy_query.Transport.Pipe.Valid.{IsValid, write_in_bounds}
use tracy_query.Transport.Pipe.Writes.{
  copied-IsValid, AreOthers, Completed, Wrote, write_pipe-Wrote,
}
use tracy_query.Transport.Pipe.Fifo.{contents}

-- So many rounds before which no other thread takes a turn.
abbrev pub alone : ℕ → List (List Turn)
alone zero = []
alone (suc n) = [] ∷ alone n

open_round :
    (p : Pipe) (b : ℕ) (bs : Text)
    → p.writer_closed ≡ false
    → p.reader_closed ≡ false
    → p.size < capacity_of p
    → write_round p (b ∷ bs)
      ≡ copied
          (write_count p (length (b ∷ bs)))
          (after_write p (b ∷ bs) (write_count p (length (b ∷ bs))))
unfolding write_round
open_round p b bs w r room = ground (arith, w, r, room)

write_pipe-returns :
    (n : ℕ) (p : Pipe) (s : Text) (before : ℕ)
    → IsValid p
    → p.writer_closed ≡ false
    → p.reader_closed ≡ false
    → length s ≤ n
    → p.size + length s ≤ capacity_of p
    → (write_pipe (alone n) p s before).0 ≡ written (before + length s)
unfolding write_pipe run
write_pipe-returns n p [] before v w r enough fits = ap written (omega arith)
write_pipe-returns zero p (b ∷ bs) before v w r enough fits = ground arith
write_pipe-returns (suc n) p (b ∷ bs) before v w r enough fits =
    let c = write_count p (length (b ∷ bs)) in
    let q = after_write p (b ∷ bs) c in
    let e = open_round p b bs w r (omega (arith, fits)) in
    let bounds = write_in_bounds p (length (b ∷ bs)) v in
    let some_copied : 0 < c = omega (arith, v.head_in, v.small, v.size_in, v.positive, fits) in
    let left = length-drop c (b ∷ bs) in
    let same : capacity_of q ≡ capacity_of p =
      length-copy_to p.storage (tail_of p) (take c (b ∷ bs)) in
    rw (e, write_pipe)
      (write_pipe-returns n q (drop c (b ∷ bs)) (before + c) (copied-IsValid p q (b ∷ bs) c v e) w r
          (omega (arith, left, some_copied, enough))
          (omega (arith, left, same, bounds, fits, v.small, v.size_in))
        ∙ ap written (omega (arith, left, bounds)))

alone-AreOthers : (n : ℕ) → All AreOthers (alone n)
alone-AreOthers zero = tt
alone-AreOthers (suc n) = (tt, alone-AreOthers n)

alone_round :
    (n : ℕ) (p : Pipe) (b : ℕ) (bs : Text) (before : ℕ)
    → ((q : Pipe) (s : Text) (m : ℕ) → (write_pipe (alone n) q s m).3 ≡ [])
    → (r : WriteRound) → write_round p (b ∷ bs) ≡ r
    → (write_pipe (alone (suc n)) p (b ∷ bs) before).3 ≡ []
unfolding write_pipe run
alone_round n p b bs before later blocked e = rw (e, write_pipe) (later p (b ∷ bs) before)
alone_round n p b bs before later refused e = rw (e, write_pipe) refl
alone_round n p b bs before later (copied m q) e =
    rw (e, write_pipe) (later q (drop m (b ∷ bs)) (before + m))

-- Nobody reads meanwhile.
alone-gives : (n : ℕ) (p : Pipe) (s : Text) (before : ℕ) → (write_pipe (alone n) p s before).3 ≡ []
unfolding write_pipe run
alone-gives n p [] before = refl
alone-gives zero p (b ∷ bs) before = refl
alone-gives (suc n) p (b ∷ bs) before =
    alone_round n p b bs before (alone-gives n) (write_round p (b ∷ bs)) refl

-- What a call that returns its whole source has done.
whole :
    (p : Pipe) (s : Text) (before n : ℕ) (out : WriteStatus × Pipe × Text × Text)
    → Wrote p s before out
    → out.0 ≡ written n
    → out.3 ≡ []
    → (out.2 ≡ s) × (contents out.1 ≡ contents p ++ s)
whole p s before n out w returned alone =
    let done : (w.rest ≡ []) × (n ≡ before + length s) =
      subst (λ r. Completed r w.rest (before + length s)) returned w.complete in
    let all_taken : out.2 ≡ s =
      sym (append-nil out.2) ∙ ap (λ r. out.2 ++ r) (sym done.0) ∙ w.prefix in
    (
      all_taken,
      ap (λ g. g ++ contents out.1) (sym alone) ∙ sym w.fifo ∙ ap (λ t. contents p ++ t) all_taken,
    )

-- On a valid pipe with both ends open, a source that fits into the free space is written whole, after
-- what the pipe held, and its length returned, in at most as many rounds as it has bytes and with no
-- turn of another thread.
pub write_pipe-fits :
    (n : ℕ) (p : Pipe) (s : Text) (before : ℕ)
    → IsValid p
    → p.writer_closed ≡ false
    → p.reader_closed ≡ false
    → length s ≤ n
    → p.size + length s ≤ capacity_of p
    → let r = write_pipe (alone n) p s before in
      (r.0 ≡ written (before + length s)) × (r.2 ≡ s) × (contents r.1 ≡ contents p ++ s)
write_pipe-fits n p s before v w r enough fits =
    let returned = write_pipe-returns n p s before v w r enough fits in
    let done =
      whole p s before (before + length s) (write_pipe (alone n) p s before)
        (write_pipe-Wrote (alone n) p s before v (alone-AreOthers n)) returned
        (alone-gives n p s before) in
    (returned, done.0, done.1)
