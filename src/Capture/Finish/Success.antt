-- ===== src/Capture/Finish/Success.antt =====
-- The calls that end a capture well.
use tracy_query.Prelude.{
  add_u64, ℕ, zero, suc, ◌<◌, ◌≡◌, sym, ap, ◌∙◌, true, false, Option, none, some, ◌++◌, arith, ◌==◌,
  Bool-cases, Option-cases, Text, codes, text_eq, text_eq→eq, text_eq_refl, is_empty, length,
  length-append, inl, inr, ==_iff,
}
use tracy_query.Capture.Files.{
  Files, put_file, returns, partial_attempts, partial_path, atomic_publish,
}
use tracy_query.Capture.Coordinator.{finishing, finished, success, World}
use tracy_query.Capture.Finish.{
  Answers, finishable, begin_finish, publish_written, write_partial, open_partial, choose_partial,
  save_capture, end_capture, complete_finish, finish_with_disposition, finish_capture,
}
use tracy_query.Capture.Finish.Saved.{partial_attempts-fresh, after_write}
use tracy_query.Capture.Finish.Untouched.{IsIdle}
use tracy_query.Capture.Files.{candidate}
use tracy_query.Prelude.Decimal.{to_string}

-- The Worker has data of a running profiler, ends in time, and writes something; the file system
-- refuses nothing and the output's directory is there; one of the paths drawn is free; no other
-- process changes a file.
pub record GoesWell (answers : Answers) (w : World) : Type 0 where
  pub attempt : ℕ
  pub within : attempt < 32
  pub free : w.files (candidate w.coordinator.output (answers.random attempt)) ≡ none
  pub worker : w.coordinator.worker ≡ true
  pub has_data : answers.has_data ≡ true
  pub started : answers.profiler_started ≡ true
  pub shutdown : answers.shutdown_throws ≡ none
  pub ended : answers.still_connected ≡ false
  pub probe : answers.probe_throws ≡ none
  pub directory : answers.directory ≡ returns true
  pub opened : answers.opened ≡ returns true
  pub content : is_empty answers.content ≡ false
  pub written : answers.write_throws ≡ none
  pub writing : IsIdle answers.others_writing
  pub linking : IsIdle answers.others_linking
  pub link : answers.publication.link_fails ≡ none
  pub removal : answers.publication.remove_fails ≡ none

different :
    (files : Files) (output partial : Text)
    → files output ≡ none
    → text_eq output partial ≡ true
    → files partial ≡ none
different files output partial h e = ap files (sym (text_eq→eq output partial e)) ∙ h

-- The partial path's name is longer than the output's.
partial_attempts-longer :
    (attempts : ℕ) (output : Text) (random : ℕ → ℕ) (files : Files) (partial : Text)
    → partial_attempts attempts output random files ≡ some partial
    → length output < length partial
unfolding partial_attempts
partial_attempts-longer zero output random files partial h = ground arith
partial_attempts-longer (suc attempts) output random files partial h = ground (
  arith,
  partial_attempts-longer attempts output random files partial,
  length-append output (codes "." ++ (to_string (random attempts) ++ codes ".partial")),
)

-- An attempt without a file is not the last one, where there is a file.
elsewhere :
    (at : ℕ → Option Text) (i n : ℕ) (old : Text)
    → i < suc n
    → at i ≡ none
    → at n ≡ some old
    → i < n
elsewhere at i n old lt h k = elim (Bool-cases (i == n)) [
  | inl e ↦ (let same : at i ≡ at n = ap at ((==_iff i n).0 e) in ground arith)
  | inr e ↦ ground arith
]

partial_attempts-finds :
    (attempts : ℕ) (output : Text) (random : ℕ → ℕ) (files : Files) (i : ℕ)
    → i < attempts
    → files (candidate output (random i)) ≡ none
    → (partial : Text) × (partial_attempts attempts output random files ≡ some partial)
unfolding partial_attempts
partial_attempts-finds zero output random files i lt h = absurd (omega arith)
partial_attempts-finds (suc attempts) output random files i lt h =
    elim (Option-cases (files (candidate output (random attempts)))) [
      | inl e ↦ (candidate output (random attempts), ground arith)
      | inr (old, e) ↦
          let earlier : i < attempts =
            elsewhere (λ n. files (candidate output (random n))) i attempts old lt h e in
          let (partial, k) = partial_attempts-finds attempts output random files i earlier h in
          (partial, ground arith)
    ]

write_partial-succeeds :
    (answers : Answers) (output partial : Text) (w w₀ : World)
    → GoesWell answers w₀
    → w.files partial ≡ none
    → w.files output ≡ none
    → text_eq output partial ≡ false
    → ((write_partial answers output partial w).0 ≡ success)
      × ((write_partial answers output partial w).1.coordinator.state ≡ finished)
unfolding write_partial publish_written atomic_publish
write_partial-succeeds answers output partial w w₀ g fresh there ne =
    let w' = after_write answers partial w in
    ground (
      arith,
      g.writing (put_file partial answers.content w.files) partial,
      g.writing (put_file partial answers.content w.files) output,
      g.linking w'.files partial,
      g.linking w'.files output,
      text_eq_refl partial,
    )

abbrev begun : World → World
begun w = record w { coordinator = record (w.coordinator) { state = finishing } }

save_capture-succeeds :
    (answers : Answers) (w : World)
    → GoesWell answers w
    → w.files w.coordinator.output ≡ none
    → let r = save_capture answers w.coordinator.output (begun w) in
      (r.0 ≡ success) × (r.1.coordinator.state ≡ finished)
unfolding save_capture choose_partial partial_path open_partial
save_capture-succeeds answers w g there =
    let output : Text = w.coordinator.output in
    let (partial, chosen) =
      partial_attempts-finds 32 output answers.random w.files g.attempt g.within g.free in
    let opened : World = record (begun w) {
      coordinator = record ((begun w).coordinator) {
        writer_open_count = add_u64 w.coordinator.writer_open_count 1;
      };
    } in
    let fresh : w.files partial ≡ none =
      partial_attempts-fresh 32 output answers.random w.files partial chosen in
    let longer : length output < length partial =
      partial_attempts-longer 32 output answers.random w.files partial chosen in
    let ne : text_eq output partial ≡ false =
      ground
        (arith, λ (e : text_eq output partial ≡ true). ap length (text_eq→eq output partial e)) in
    ground (
      arith,
      g.probe,
      g.directory,
      g.opened,
      chosen,
      write_partial-succeeds answers output partial opened w g fresh there ne,
    )

-- A call that saves a capture that is running, where there is no file at the output, succeeds and
-- leaves the capture finished, when all it depends on goes well.
pub finish_capture-succeeds :
    (answers : Answers) (w : World)
    → GoesWell answers w
    → finishable w.coordinator.state ≡ true
    → w.files w.coordinator.output ≡ none
    → let r = finish_capture answers w in (r.0 ≡ success) × (r.1.coordinator.state ≡ finished)
unfolding finish_capture finish_with_disposition begin_finish complete_finish end_capture
finish_capture-succeeds answers w g running there =
    ground (arith, save_capture-succeeds answers w g there)
