-- ===== src/Tests/Pipes.antt =====
-- The pipe and the session of src/embedded/TracyEmbeddedTransport.cpp, at concrete states.
use tracy_query.Prelude.{copy_to, tabulate, ◌+◌, ◌≡◌, refl, List, [], ◌∷◌, ◌++◌, arith, codes}
use tracy_query.Transport.Pipe.{
  Pipe, new_pipe, write_round, read_round, Turn, writes, reads, closes_writer, turn, run, written,
  write_pipe,
}
use tracy_query.Transport.Pipe.Valid.{IsValid, run-IsValid}
use tracy_query.Transport.Pipe.Fits.{alone, write_pipe-fits}
use tracy_query.Transport.Pipe.Fifo.{contents, run_fifo}
use tracy_query.Transport.Pipe.Writes.{Wrote, write_pipe-Wrote}

-- A ring of four bytes that holds two, the second one before the first in the storage.
abbrev pub wrapped : Pipe
wrapped = record (new_pipe 4) {
  storage = 0x62 ∷ 0 ∷ 0 ∷ 0x61 ∷ [];
  head = 3;
  size = 2;
  high_water = 3;
  transferred = 5;
}

pub wrapped-IsValid : IsValid wrapped
wrapped-IsValid = record {
  positive = omega arith;
  small = omega arith;
  head_in = omega arith;
  size_in = omega arith;
  seen = omega arith;
  bounded = omega arith;
  counted = omega arith;
}

abbrev four_turns : List Turn
four_turns = writes (codes "cd") ∷ reads 3 ∷ reads 3 ∷ closes_writer ∷ []

run-four_turns : (run wrapped four_turns).2 ≡ codes "abcd"
unfolding run turn write_round read_round copy_to tabulate new_pipe
run-four_turns = refl

run_fifo_example :
    let (p', taken, given) = run wrapped four_turns in
    contents wrapped ++ taken ≡ given ++ contents p'
run_fifo_example = run_fifo wrapped four_turns wrapped-IsValid

run-IsValid_example : IsValid (run wrapped four_turns).0
run-IsValid_example = run-IsValid wrapped four_turns wrapped-IsValid

-- The first round finds room for two of four bytes; two reads make room for the rest.
abbrev one_reader : List (List Turn)
one_reader = [] ∷ (reads 3 ∷ reads 3 ∷ []) ∷ [] ∷ []

write_pipe_whole : (write_pipe one_reader wrapped (codes "cdef") 0).0 ≡ written 4
unfolding write_pipe run turn write_round read_round copy_to tabulate new_pipe
write_pipe_whole = refl

write_pipe-Wrote_example :
    Wrote wrapped (codes "cdef") 0 (write_pipe one_reader wrapped (codes "cdef") 0)
write_pipe-Wrote_example =
    write_pipe-Wrote one_reader wrapped (codes "cdef") 0 wrapped-IsValid
      (tt, ((tt, (tt, tt)), (tt, tt)))

write_pipe-fits_example :
    let r = write_pipe (alone 2) wrapped (codes "cd") 0 in
    (r.0 ≡ written (0 + 2)) × (r.2 ≡ codes "cd") × (contents r.1 ≡ contents wrapped ++ codes "cd")
unfolding new_pipe
write_pipe-fits_example =
    write_pipe-fits 2 wrapped (codes "cd") 0 wrapped-IsValid refl refl (omega arith) (omega arith)
