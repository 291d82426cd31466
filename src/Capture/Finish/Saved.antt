-- ===== src/Capture/Finish/Saved.antt =====
-- A capture that is saved never replaces a file.
use tracy_query.Prelude.{
  add_u64, ℕ, zero, suc, ◌≡◌, refl, ap, ◌∙◌, subst, true, false, Option, none, some, [], arith,
  Bool-cases, Text, text_eq, text_eq→eq, text_eq_refl, ◌≢◌, inl, inr,
}
use tracy_query.Capture.Files.{
  Files, put_file, Thrown, std_exception, other_exception, Outcome, returns, throws,
  partial_attempts, partial_path, Publication, atomic_publish,
}
use tracy_query.Capture.Coordinator.{finishing, Disposition, World}
use tracy_query.Capture.Finish.{
  Answers, begin_finish, save_caught, publish_written, write_partial, open_partial, partial_chosen,
  choose_partial, save_capture, end_capture, complete_finish, finish_with_disposition,
}

-- Other processes may make files, and leave those alone that there are.
abbrev pub KeepsFiles : (Files → Files) → Type 0
KeepsFiles others =
    (files : Files) (path content : Text)
    → files path ≡ some content
    → others files path ≡ some content

some_ne_none : {A : Type 0} (o : Option A) (a : A) → o ≡ some a → o ≡ none → a ≢ a
some_ne_none o a h k = ground arith

pub text_eq_by : (s t : Text) → s ≡ t → text_eq s t ≡ true
text_eq_by s t e = subst (λ t. text_eq s t ≡ true) e (text_eq_refl s)

-- A path with a file differs from one without.
pub apart :
    (files : Files) (path partial content : Text)
    → files path ≡ some content
    → files partial ≡ none
    → text_eq path partial ≡ false
apart files path partial content h k = elim (Bool-cases (text_eq path partial)) [
  | inl e ↦
      absurd (some_ne_none (files path) content h (ap files (text_eq→eq path partial e) ∙ k) refl)
  | inr e ↦ e
]

pub partial_attempts-fresh :
    (attempts : ℕ) (output : Text) (random : ℕ → ℕ) (files : Files) (partial : Text)
    → partial_attempts attempts output random files ≡ some partial
    → files partial ≡ none
unfolding partial_attempts
partial_attempts-fresh zero output random files partial h = ground arith
partial_attempts-fresh (suc attempts) output random files partial h =
    ground (arith, partial_attempts-fresh attempts output random files partial)

pub partial_path-fresh :
    (output : Text) (random : ℕ → ℕ) (files : Files) (partial : Text)
    → partial_path output random files ≡ returns partial
    → files partial ≡ none
unfolding partial_path
partial_path-fresh output random files partial h =
    ground (arith, partial_attempts-fresh 32 output random files partial)

save_caught-keeps :
    (answers : Answers) (partial : Text) (e : Thrown) (w : World) (path content : Text)
    → text_eq path partial ≡ false
    → w.files path ≡ some content
    → (save_caught answers partial e w).1.files path ≡ some content
unfolding save_caught
save_caught-keeps answers partial e w path content ne h = ground arith

atomic_publish-keeps :
    (partial output : Text) (answers : Publication) (files : Files) (path content : Text)
    → text_eq path partial ≡ false
    → files path ≡ some content
    → (atomic_publish partial output answers files).1 path ≡ some content
unfolding atomic_publish
atomic_publish-keeps partial output answers files path content ne h =
    ground (arith, apart files path output content)

publish_written-keeps :
    (answers : Answers) (output partial : Text) (w : World)
    → KeepsFiles answers.others_linking
    → (path content : Text) → text_eq path partial ≡ false
    → w.files path ≡ some content
    → (publish_written answers output partial w).1.files path ≡ some content
unfolding publish_written
publish_written-keeps answers output partial w others path content ne h = ground (
  arith,
  others w.files path content h,
  save_caught-keeps answers partial,
  atomic_publish-keeps partial output answers.publication (answers.others_linking w.files) path
      content ne,
)

abbrev pub after_write : Answers → Text → World → World
after_write answers partial w = record w {
  coordinator = record (w.coordinator) {
    worker_write_count = add_u64 w.coordinator.worker_write_count 1;
  };
  files = answers.others_writing (put_file partial answers.content w.files);
}

kept_by_write :
    (answers : Answers) (partial : Text) (w : World)
    → KeepsFiles answers.others_writing
    → (path content : Text) → text_eq path partial ≡ false
    → w.files path ≡ some content
    → (after_write answers partial w).files path ≡ some content
kept_by_write answers partial w others path content ne h =
    others (put_file partial answers.content w.files) path content (ground arith)

write_partial-keeps :
    (answers : Answers) (output partial : Text) (w : World)
    → KeepsFiles answers.others_writing
    → KeepsFiles answers.others_linking
    → (path content : Text) → text_eq path partial ≡ false
    → w.files path ≡ some content
    → (write_partial answers output partial w).1.files path ≡ some content
unfolding write_partial
write_partial-keeps answers output partial w writing linking path content ne h = ground (
  arith,
  save_caught-keeps answers partial,
  publish_written-keeps answers output partial (after_write answers partial w) linking path content
      ne,
  kept_by_write answers partial w writing path content ne h,
)

open_partial-keeps :
    (answers : Answers) (output partial : Text) (w : World)
    → KeepsFiles answers.others_writing
    → KeepsFiles answers.others_linking
    → (path content : Text) → text_eq path partial ≡ false
    → w.files path ≡ some content
    → (open_partial answers output partial w).1.files path ≡ some content
unfolding open_partial
open_partial-keeps answers output partial w writing linking path content ne h =
    let w' : World = record w {
      coordinator = record (w.coordinator) {
        writer_open_count = add_u64 w.coordinator.writer_open_count 1;
      };
    } in
    ground (
      arith,
      write_partial-keeps answers output partial w' writing linking path content ne h,
      save_caught-keeps answers partial,
    )

pub save_caught-early :
    (answers : Answers) (e : Thrown) (w : World) (path : Text)
    → (save_caught answers [] e w).1.files path ≡ w.files path
unfolding save_caught
save_caught-early answers (std_exception message) w path = refl
save_caught-early answers other_exception w path = refl

choose_partial-keeps :
    (answers : Answers) (output : Text) (w : World)
    → KeepsFiles answers.others_writing
    → KeepsFiles answers.others_linking
    → (path content : Text) → w.files path ≡ some content
    → (choose_partial answers output w).1.files path ≡ some content
unfolding choose_partial
choose_partial-keeps answers output w writing linking path content h =
    go (partial_path output answers.random w.files) refl
  where
    go :
        (o : Outcome Text)
        → partial_path output answers.random w.files ≡ o
        → (partial_chosen answers output w o).1.files path ≡ some content
    go (throws e) fresh = save_caught-early answers e w path ∙ h
    go (returns partial) fresh =
        open_partial-keeps answers output partial w writing linking path content
          (apart w.files path partial content h
            (partial_path-fresh output answers.random w.files partial fresh))
          h

save_capture-keeps :
    (answers : Answers) (output : Text) (w : World)
    → KeepsFiles answers.others_writing
    → KeepsFiles answers.others_linking
    → (path content : Text) → w.files path ≡ some content
    → (save_capture answers output w).1.files path ≡ some content
unfolding save_capture
save_capture-keeps answers output w writing linking path content h = ground (
  arith,
  save_caught-early answers,
  choose_partial-keeps answers output w writing linking path content h,
)

-- However a call that finishes the capture ends, every file that was there when it started is there
-- with the same contents when it returns, as long as the other processes leave it alone; these may
-- make new files, also at the output, while the Worker writes and just before the publication.
pub finish-KeepsFiles :
    (answers : Answers) (disposition : Disposition) (w : World)
    → KeepsFiles answers.others_writing
    → KeepsFiles answers.others_linking
    → (path content : Text) → w.files path ≡ some content
    → (finish_with_disposition answers disposition w).1.files path ≡ some content
unfolding finish_with_disposition begin_finish complete_finish end_capture
finish-KeepsFiles answers disposition w writing linking path content h = ground (
  arith,
  save_capture-keeps answers w.coordinator.output
      (record w { coordinator = record (w.coordinator) { state = finishing } }) writing linking path
      content h,
)
