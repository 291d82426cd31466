-- ===== src/Capture/Turns/Sequence.antt =====
-- The turns of one thread, one directly after the other, are `complete_finish`.
use tracy_query.Prelude.{ℕ, zero, suc, ◌≡◌, refl, Option, none, some, arith, Text, add_u64}
use tracy_query.Capture.Files.{returns, throws, Outcome, partial_path}
use tracy_query.Capture.Coordinator.{Status, Disposition, save, discard, unknown, World}
use tracy_query.Capture.Finish.{
  Answers, publish_written, write_partial, open_partial, partial_chosen, choose_partial,
  save_capture, end_capture, complete_finish,
}
use tracy_query.Capture.Turns.{
  Work, begun, writer_counted, write_counted, After, returned, continues, take_turn, turn_begun,
  turn_writer_counted, turn_write_counted, start_save, count_writer,
}

-- So many turns at most; no status when they are not enough.
unfoldable pub take_turns : ℕ → Answers → Work → World → Option Status × World
unfolding take_turn
take_turns zero answers work w = (none, w)
take_turns (suc turns) answers work w =
    let (after, w') = take_turn answers work w in
    elim after [
      | returned status ↦ (some status, w')
      | continues next ↦ take_turns turns answers next w'
    ]

-- What is left after a turn.
abbrev go_on : ℕ → Answers → After × World → Option Status × World
go_on turns answers (returned status, w) = (some status, w)
go_on turns answers (continues next, w) = take_turns turns answers next w

abbrev pub done : Status × World → Option Status × World
done (status, w) = (some status, w)

-- The counts that the turns raise.
abbrev writer_raised : World → World
writer_raised w = record w {
  coordinator = record (w.coordinator) {
    writer_open_count = add_u64 w.coordinator.writer_open_count 1;
  };
}

abbrev write_raised : World → World
write_raised w = record w {
  coordinator = record (w.coordinator) {
    worker_write_count = add_u64 w.coordinator.worker_write_count 1;
  };
}

module _ (answers : Answers) (output : Text) where
  from_write_counted :
      (partial : Text) (w : World)
      → take_turns 2 answers (write_counted output partial) (write_raised w)
        ≡ done (write_partial answers output partial w)
  unfolding take_turns turn_write_counted write_partial publish_written
  from_write_counted partial w = ground arith

  from_writer_counted :
      (partial : Text) (w : World)
      → take_turns 3 answers (writer_counted output partial) (writer_raised w)
        ≡ done (open_partial answers output partial w)
  unfolding take_turns turn_writer_counted open_partial
  from_writer_counted partial w = ground (arith, from_write_counted partial (writer_raised w))

  from_chosen :
      (chosen : Outcome Text) (w : World)
      → go_on 3 answers (count_writer answers output w chosen)
        ≡ done (partial_chosen answers output w chosen)
  unfolding take_turns
  from_chosen (throws e) w = refl
  from_chosen (returns partial) w = from_writer_counted partial w

  from_save :
      (w : World)
      → go_on 3 answers (start_save answers output w) ≡ done (save_capture answers output w)
  unfolding start_save save_capture choose_partial
  from_save w = ground (arith, from_chosen (partial_path output answers.random w.files) w)

  -- A thread that takes all its turns directly after each other does what `complete_finish` does: at
  -- most four turns, it returns the same status and leaves the same world.
  pub take_turns-complete_finish :
      (disposition : Disposition) (w : World)
      → take_turns 4 answers (begun disposition output) w
        ≡ done (complete_finish answers disposition output w)
  unfolding take_turns turn_begun complete_finish end_capture
  take_turns-complete_finish save w = ground (arith, from_save w)
  take_turns-complete_finish discard w = ground arith
  take_turns-complete_finish unknown w = ground (arith, from_save w)
