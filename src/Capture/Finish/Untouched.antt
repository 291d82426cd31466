-- ===== src/Capture/Finish/Untouched.antt =====
-- A capture is saved as a whole or not at all.
use tracy_query.Prelude.{
  add_u64, ℕ, zero, suc, ◌≡◌, refl, sym, ap, ◌∙◌, Bool, true, false, none, some, [], ◌∷◌, arith,
  if◌then◌else◌, Text, text_eq, text_eq→eq, text_eq_refl, is_empty,
}
use tracy_query.Capture.Files.{
  Files, put_file, Thrown, Outcome, returns, throws, partial_attempts, partial_path, atomic_publish,
}
use tracy_query.Capture.Coordinator.{
  finishing, Status, success, Disposition, discard, World, set_failure,
}
use tracy_query.Capture.Finish.{
  Answers, begin_finish, save_caught, publish_written, write_partial, open_partial, partial_chosen,
  choose_partial, save_capture, end_capture, complete_finish, finish_with_disposition,
}
use tracy_query.Capture.Finish.Saved.{
  partial_path-fresh, save_caught-early, after_write, text_eq_by,
}

-- The other processes change no file.
abbrev pub IsIdle : (Files → Files) → Type 0
IsIdle others = (files : Files) (path : Text) → others files path ≡ files path

abbrev pub succeeds : Status → Bool
succeeds success = true
succeeds _ = false

-- The removals of the partial file work.
abbrev pub CanRemove : Answers → Type 0
CanRemove answers = (answers.removable ≡ true) × (answers.publication.remove_fails ≡ none)

save_caught-left :
    (answers : Answers) (partial : Text) (e : Thrown) (w : World) (path : Text)
    → answers.removable ≡ true
    → is_empty partial ≡ false
    → ((save_caught answers partial e w).1.files path
        ≡ (if text_eq path partial then none else w.files path))
      × (succeeds (save_caught answers partial e w).0 ≡ false)
      × ((save_caught answers partial e w).1.coordinator.publish_count
          ≡ w.coordinator.publish_count)
unfolding save_caught set_failure
save_caught-left answers partial e w path h k = ground arith

-- A path without a file, and one equal to it.
same_files :
    (files : Files) (path partial : Text)
    → files partial ≡ none
    → text_eq path partial ≡ true
    → files path ≡ none
same_files files path partial h e = ap files (text_eq→eq path partial e) ∙ h

abbrev pub Left : Answers → Text → World → Text → Status × World → Type 0
Left answers output w path r =
    (r.1.files path
      ≡ (if succeeds r.0 then put_file output answers.content w.files path else w.files path))
    × (r.1.coordinator.publish_count ≡ (
        if succeeds r.0
        then add_u64 w.coordinator.publish_count 1
        else w.coordinator.publish_count))

-- The files with the partial one, of which there was none.
Wrote : Text → Text → Files → Files → Type 0
Wrote partial content before after =
    (before partial ≡ none) × ((path : Text) → after path ≡ put_file partial content before path)

both_equal :
    (path output partial : Text)
    → text_eq path output ≡ true
    → text_eq path partial ≡ true
    → text_eq output partial ≡ true
both_equal path output partial h k =
    text_eq_by output partial (sym (text_eq→eq path output h) ∙ text_eq→eq path partial k)

publish_written-Left :
    (answers : Answers) (output partial : Text) (w₀ w : World) (path : Text)
    → CanRemove answers
    → IsIdle answers.others_linking
    → is_empty partial ≡ false
    → Wrote partial answers.content w₀.files w.files
    → w.coordinator.publish_count ≡ w₀.coordinator.publish_count
    → Left answers output w₀ path (publish_written answers output partial w)
unfolding Wrote publish_written atomic_publish save_caught set_failure
publish_written-Left answers output partial w₀ w path (removable, removes) idle ne (fresh, wrote)
      c =
    ground (
      arith,
      wrote path,
      wrote output,
      wrote partial,
      idle w.files path,
      idle w.files output,
      idle w.files partial,
      text_eq_refl partial,
      same_files w₀.files path partial fresh,
      both_equal path output partial,
    )

partial_attempts-named :
    (attempts : ℕ) (output : Text) (random : ℕ → ℕ) (files : Files) (partial : Text)
    → partial_attempts attempts output random files ≡ some partial
    → is_empty partial ≡ false
unfolding partial_attempts
partial_attempts-named zero output random files partial h = ground arith
partial_attempts-named (suc attempts) [] random files partial h =
    ground (arith, partial_attempts-named attempts [] random files partial)
partial_attempts-named (suc attempts) (c ∷ cs) random files partial h =
    ground (arith, partial_attempts-named attempts (c ∷ cs) random files partial)

partial_path-named :
    (output : Text) (random : ℕ → ℕ) (files : Files) (partial : Text)
    → partial_path output random files ≡ returns partial
    → is_empty partial ≡ false
unfolding partial_path
partial_path-named output random files partial h =
    ground (arith, partial_attempts-named 32 output random files partial)

write_partial-Left :
    (answers : Answers) (output partial : Text) (w : World) (path : Text)
    → CanRemove answers
    → IsIdle answers.others_writing
    → IsIdle answers.others_linking
    → is_empty partial ≡ false
    → w.files partial ≡ none
    → Left answers output w path (write_partial answers output partial w)
unfolding write_partial Wrote
write_partial-Left answers output partial w path removes writing linking ne fresh =
    let w' : World = after_write answers partial w in
    let wrote : Wrote partial answers.content w.files w'.files =
      (fresh, λ p. writing (put_file partial answers.content w.files) p) in
    ground (
      arith,
      publish_written-Left answers output partial w w' path removes linking ne wrote refl,
      λ (e : Thrown). save_caught-left answers partial e w' path removes.0 ne,
      writing (put_file partial answers.content w.files) path,
      same_files w.files path partial fresh,
    )

open_partial-Left :
    (answers : Answers) (output partial : Text) (w : World) (path : Text)
    → CanRemove answers
    → IsIdle answers.others_writing
    → IsIdle answers.others_linking
    → is_empty partial ≡ false
    → w.files partial ≡ none
    → Left answers output w path (open_partial answers output partial w)
unfolding open_partial
open_partial-Left answers output partial w path removes writing linking ne fresh =
    let w' : World = record w {
      coordinator = record (w.coordinator) {
        writer_open_count = add_u64 w.coordinator.writer_open_count 1;
      };
    } in
    ground (
      arith,
      write_partial-Left answers output partial w' path removes writing linking ne fresh,
      λ (e : Thrown). save_caught-left answers partial e w' path removes.0 ne,
      same_files w.files path partial fresh,
    )

early-Left :
    (answers : Answers) (output : Text) (e : Thrown) (w : World) (path : Text)
    → Left answers output w path (save_caught answers [] e w)
unfolding save_caught set_failure
early-Left answers output e w path = ground (arith, save_caught-early answers e w path)

choose_partial-Left :
    (answers : Answers) (output : Text) (w : World) (path : Text)
    → CanRemove answers
    → IsIdle answers.others_writing
    → IsIdle answers.others_linking
    → Left answers output w path (choose_partial answers output w)
unfolding choose_partial
choose_partial-Left answers output w path removes writing linking =
    go (partial_path output answers.random w.files) refl
  where
    go :
        (o : Outcome Text)
        → partial_path output answers.random w.files ≡ o
        → Left answers output w path (partial_chosen answers output w o)
    go (throws e) fresh = early-Left answers output e w path
    go (returns partial) fresh =
        open_partial-Left answers output partial w path removes writing linking
          (partial_path-named output answers.random w.files partial fresh)
          (partial_path-fresh output answers.random w.files partial fresh)

save_capture-Left :
    (answers : Answers) (output : Text) (w : World) (path : Text)
    → CanRemove answers
    → IsIdle answers.others_writing
    → IsIdle answers.others_linking
    → Left answers output w path (save_capture answers output w)
unfolding save_capture set_failure
save_capture-Left answers output w path removes writing linking = ground (
  arith,
  early-Left answers output,
  choose_partial-Left answers output w path removes writing linking,
)

abbrev pub publishes : Disposition → Status → Bool
publishes discard status = false
publishes _ status = succeeds status

-- When the partial file can be removed and no other process changes a file meanwhile, a call that
-- finishes the capture leaves at every path what was there, but for the output when the call saves
-- and succeeds: there it leaves what the Worker wrote. The publications are counted alike.
pub finish-all_or_nothing :
    (answers : Answers) (disposition : Disposition) (w : World) (path : Text)
    → CanRemove answers
    → IsIdle answers.others_writing
    → IsIdle answers.others_linking
    → let r = finish_with_disposition answers disposition w in
      (r.1.files path ≡ (
        if publishes disposition r.0
        then put_file w.coordinator.output answers.content w.files path
        else w.files path))
      × (r.1.coordinator.publish_count ≡ (
          if publishes disposition r.0
          then add_u64 w.coordinator.publish_count 1
          else w.coordinator.publish_count))
unfolding finish_with_disposition begin_finish complete_finish end_capture set_failure
finish-all_or_nothing answers disposition w path removes writing linking = ground (
  arith,
  save_capture-Left answers w.coordinator.output
      (record w { coordinator = record (w.coordinator) { state = finishing } }) path removes writing
      linking,
)
