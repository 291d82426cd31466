-- ===== src/Transport/Pipe/Writes.antt =====
-- `writePipe` as a whole: what it has written when it returns, and that it returns.
use tracy_query.Prelude.{
  subst, ℕ, ◌+◌, ◌≤◌, ◌<◌, ◌≡◌, refl, sym, ap, ◌∙◌, false, List, [], ◌∷◌, ◌++◌, append_assoc,
  append-nil, arith, ltb, Bool-cases, Text, All, length, take, drop, take-append-drop, length-take,
  length-drop, ◌⊎◌, inl, inr,
}
use tracy_query.Transport.Pipe.{
  Pipe, capacity_of, WriteRound, blocked, refused, copied, write_count, after_write, after_read,
  write_round, read_round, received, read_count, Turn, writes, reads, closes_writer, closes_reader,
  cancels, turn, run, WriteStatus, waiting, failed, written, write_pipe,
}
use tracy_query.Transport.Pipe.Valid.{IsValid, turn-IsValid, run-IsValid}
use tracy_query.Transport.Pipe.Fifo.{contents, run_fifo, write_round-contents}

-- The other threads read and close, and leave the writing to this call.
abbrev pub IsOther : Turn → Type 0
IsOther (writes s) = ⊥
IsOther _ = Unit {0}

abbrev pub AreOthers : List Turn → Type 0
AreOthers = All IsOther

others_take_nothing : (p : Pipe) (ts : List Turn) → AreOthers ts → (run p ts).1 ≡ []
unfolding run turn
others_take_nothing p [] h = refl
others_take_nothing p (writes s ∷ ts) h = absurd h.0
others_take_nothing p (reads n ∷ ts) h =
    ground (arith, others_take_nothing (turn p (reads n)).0 ts h.1)
others_take_nothing p (closes_writer ∷ ts) h = others_take_nothing (turn p closes_writer).0 ts h.1
others_take_nothing p (closes_reader ∷ ts) h = others_take_nothing (turn p closes_reader).0 ts h.1
others_take_nothing p (cancels ∷ ts) h = others_take_nothing (turn p cancels).0 ts h.1

pub copied-IsValid :
    (p q : Pipe) (s : Text) (n : ℕ) → IsValid p → write_round p s ≡ copied n q → IsValid q
unfolding turn
copied-IsValid p q s n v e = ground (arith, turn-IsValid p (writes s) v)

-- A count stands for the whole source.
abbrev pub Completed : WriteStatus → Text → ℕ → Type 0
Completed (written n) rest total = (rest ≡ []) × (n ≡ total)
Completed _ rest total = Unit

-- What a call of `writePipe` has done: `rest` is the part of the source that is not written.
pub record Wrote (p : Pipe) (source : Text) (before : ℕ) (out : WriteStatus × Pipe × Text × Text)
    : Type 0 where
  pub valid : IsValid out.1
  pub fifo : contents p ++ out.2 ≡ out.3 ++ contents out.1
  pub rest : Text
  pub prefix : out.2 ++ rest ≡ source
  pub complete : Completed out.0 rest (before + length source)

-- What holds where nothing more is written.
Wrote-none :
    (p q : Pipe) (s : Text) (before : ℕ) (r : WriteStatus) (taken given : Text)
    → IsValid q
    → taken ≡ []
    → contents p ++ taken ≡ given ++ contents q
    → Completed r s (before + length s)
    → Wrote p s before (r, q, taken, given)
Wrote-none p q s before r taken given v none_taken fifo done = record {
  valid = v;
  fifo = fifo;
  rest = s;
  prefix = rw none_taken;
  complete = done;
}

-- The others' turns before a round.
Wrote-after :
    (p p' : Pipe) (s : Text) (before : ℕ) (taken given : Text)
    (out : WriteStatus × Pipe × Text × Text)
    → taken ≡ []
    → contents p ++ taken ≡ given ++ contents p'
    → Wrote p' s before out
    → Wrote p s before (out.0, out.1, taken ++ out.2, given ++ out.3)
Wrote-after p p' s before taken given out none_taken fifo w = record {
  valid = w.valid;
  fifo =
      sym (append_assoc (contents p) taken out.2)
      ∙ ap (λ b. b ++ out.2) fifo
      ∙ append_assoc given (contents p') out.2
      ∙ ap (◌++◌ given) w.fifo
      ∙ sym (append_assoc given out.3 (contents out.1));
  rest = w.rest;
  prefix = rw none_taken w.prefix;
  complete = w.complete;
}

-- A round that copies, before the rest of the call.
Wrote-copied :
    (p q : Pipe) (s : Text) (before n : ℕ) (out : WriteStatus × Pipe × Text × Text)
    → contents q ≡ contents p ++ take n s
    → n ≤ length s
    → Wrote q (drop n s) (before + n) out
    → Wrote p s before (out.0, out.1, take n s ++ out.2, out.3)
Wrote-copied p q s before n out e le w = record {
  valid = w.valid;
  fifo = sym (append_assoc (contents p) (take n s) out.2) ∙ ap (λ b. b ++ out.2) (sym e) ∙ w.fifo;
  rest = w.rest;
  prefix =
      append_assoc (take n s) out.2 w.rest ∙ ap (◌++◌ (take n s)) w.prefix ∙ take-append-drop n s;
  complete =
      subst (λ k. Completed out.0 w.rest k)
        (let e : before + n + length (drop n s) ≡ before + length s =
            omega (arith, le, length-drop n s) in
          e)
        w.complete;
}

-- One round, with what the rest of the call does from any pipe.
write_pipe_step :
    (others : List Turn) (schedule : List (List Turn)) (p : Pipe) (b : ℕ) (bs : Text) (before : ℕ)
    → IsValid p
    → AreOthers others
    → ((q : Pipe) (s : Text) (n : ℕ) → IsValid q → Wrote q s n (write_pipe schedule q s n))
    → (r : WriteRound) → write_round (run p others).0 (b ∷ bs) ≡ r
    → Wrote p (b ∷ bs) before (write_pipe (others ∷ schedule) p (b ∷ bs) before)
unfolding write_pipe
write_pipe_step others schedule p b bs before v h later r e = go r e
  where
    p' : Pipe
    p' = (run p others).0

    v' : IsValid p'
    v' = run-IsValid p others v

    nothing : (run p others).1 ≡ []
    nothing = others_take_nothing p others h

    go :
        (r : WriteRound)
        → write_round p' (b ∷ bs) ≡ r
        → Wrote p (b ∷ bs) before (write_pipe (others ∷ schedule) p (b ∷ bs) before)
    go blocked e =
        rw (e, write_pipe)
          (Wrote-after p p' (b ∷ bs) before _ _ _ nothing (run_fifo p others v)
            (later p' (b ∷ bs) before v'))
    go refused e =
        rw (e, write_pipe)
          (Wrote-none p p' (b ∷ bs) before failed _ _ v' nothing (run_fifo p others v) tt)
    go (copied n q) e =
        let round = write_round-contents p' q (b ∷ bs) n v' e in
        rw (e, write_pipe)
          (Wrote-after p p' (b ∷ bs) before _ _ _ nothing (run_fifo p others v) (
            Wrote-copied p' q (b ∷ bs) before n _ round.0 round.1
              (later q (drop n (b ∷ bs)) (before + n) (copied-IsValid p' q (b ∷ bs) n v' e))))

-- `writePipe` on a valid pipe, from any schedule of turns of threads that do not write: where it
-- returns a count, it has written the whole source in order; in every case what it has written is a
-- prefix of the source, and what the pipe held followed by that is what the others' reads were
-- given followed by what is left.
pub write_pipe-Wrote :
    (schedule : List (List Turn)) (p : Pipe) (source : Text) (before : ℕ)
    → IsValid p
    → All AreOthers schedule
    → Wrote p source before (write_pipe schedule p source before)
unfolding write_pipe
write_pipe-Wrote schedule p [] before v h =
    Wrote-none p p [] before (written before) [] [] v refl (append-nil (contents p))
      (refl, omega arith)
write_pipe-Wrote [] p (b ∷ bs) before v h =
    Wrote-none p p (b ∷ bs) before waiting [] [] v refl (append-nil (contents p)) tt
write_pipe-Wrote (others ∷ schedule) p (b ∷ bs) before v h =
    write_pipe_step others schedule p b bs before v h.0
      (λ q s n w. write_pipe-Wrote schedule q s n w h.1) (write_round (run p others).0 (b ∷ bs))
      refl

-- A valid pipe with both ends open never has both stuck: a writer with a byte to write copies at
-- least one, or a reader that asks for at least one gets one.
pub pipe_progress :
    (p : Pipe) (b : ℕ) (bs : Text) (limit : ℕ)
    → IsValid p
    → p.writer_closed ≡ false
    → p.reader_closed ≡ false
    → 0 < limit
    → ((n : ℕ) × (q : Pipe) × (write_round p (b ∷ bs) ≡ copied n q) × (0 < n))
      ⊎ ((bytes : Text) × (q : Pipe) × (read_round p limit ≡ received bytes q) × (0 < length bytes))
unfolding write_round read_round
pipe_progress p b bs limit v w r h = elim (Bool-cases (ltb p.size (capacity_of p))) [
  | inl room ↦
      (let n = write_count p (length (b ∷ bs)) in
        inl (n, after_write p (b ∷ bs) n, ground arith, ground arith))
  | inr full ↦
      (let n = read_count p limit in
        inr (
          take n (drop p.head p.storage),
          after_read p n,
          ground arith,
          ground (arith, length-take n (drop p.head p.storage), length-drop p.head p.storage),
        ))
]
