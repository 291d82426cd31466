-- ===== src/Capture/Finish.antt =====
-- `finishImpl` of src/embedded/embedded_capture.cpp, with its wrappers. The parts that the code does
-- under the mutex are `begin_finish`, and the rest after it.
pub mod Saved
pub mod Untouched
pub mod Success
use tracy_query.Prelude.{
  ℕ, suc, zero, ◌+◌, Bool, true, false, ◌&&◌, ◌||◌, not, Option, none, some, [], if◌then◌else◌,
  Text, codes, is_empty, add_u64,
}
use tracy_query.Transport.Session.{cancel}
use tracy_query.Capture.Files.{
  Files, exists, put_file, remove_file, Thrown, std_exception, other_exception, Outcome, returns,
  throws, partial_path, Publication, atomic_publish,
}
use tracy_query.Capture.Coordinator.{
  State, unconfigured, configured, capturing, finishing, finished, failed, discarded, Status,
  success, invalid_argument, invalid_state, output_exists, io_error, transport_error, no_data,
  internal_error, Disposition, save, discard, unknown, Coordinator, World, set_failure, with_error,
  message_of,
}

-- What the Worker, the profiler, the random device and the file system answer a call.
pub record Answers : Type 0 where
  -- `HasData` of the Worker, and whether the profiler is started.
  pub has_data : Bool
  pub profiler_started : Bool
  -- What the profiler's shutdown or the wait throws.
  pub shutdown_throws : Option Thrown
  -- The Worker is still connected when the wait is over.
  pub still_connected : Bool
  pub probe_throws : Option Thrown
  -- The parent of the output exists and is a directory.
  pub directory : Outcome Bool
  pub random : ℕ → ℕ
  -- `FileWrite::Open` gives a writer or null, or throws.
  pub opened : Outcome Bool
  -- What the Worker's writing leaves in the partial file, and what it throws.
  pub content : Text
  pub write_throws : Option Thrown
  -- What other processes do to the files while the Worker writes, and just before the publication.
  pub others_writing : Files → Files
  pub others_linking : Files → Files
  pub publication : Publication
  -- The removal of the partial file in a handler succeeds.
  pub removable : Bool

abbrev pub finishable : State → Bool
finishable configured = true
finishable capturing = true
finishable _ = false

-- The first locked part: a status to return at once, or none.
unfoldable pub begin_finish : Disposition → Coordinator → Option Status × Coordinator
begin_finish unknown c =
    (some invalid_argument, with_error (codes "embedded capture disposition is invalid") c)
begin_finish save c = if finishable c.state then (none, record c { state = finishing }) else (
  some invalid_state,
  with_error (codes "embedded capture finish called in an invalid state") c,
)
begin_finish discard c = if finishable c.state then (none, record c { state = finishing }) else (
  some invalid_state,
  with_error (codes "embedded capture finish called in an invalid state") c,
)

abbrev pub fails_with : Text → Status → World → Status × World
fails_with message status w = (status, record w { coordinator = set_failure message w.coordinator })

-- The handlers of the block that saves. `partial` is the path so far, empty before it is chosen.
unfoldable pub save_caught : Answers → Text → Thrown → World → Status × World
unfolding set_failure
save_caught answers partial e w =
    let files =
      if not (is_empty partial) && answers.removable
      then remove_file partial w.files
      else w.files in
    let w' = record w { files = files } in
    elim e [
      | std_exception message ↦ fails_with message io_error w'
      | other_exception ↦ fails_with (codes "unknown capture writer failure") internal_error w'
    ]

abbrev pub completed : State → Coordinator → Coordinator
completed s c = record c { state = s; error = []; worker = false }

-- From the check of what was written on.
unfoldable pub publish_written : Answers → Text → Text → World → Status × World
unfolding save_caught
publish_written answers output partial w =
    if elim (w.files partial) [ none ↦ true | some content ↦ is_empty content ]
    then save_caught answers partial
        (std_exception (codes "TracyFileWrite produced an empty capture")) w
    else (let (e, files) =
          atomic_publish partial output answers.publication (answers.others_linking w.files) in
        let w' = record w { files = files } in
        elim e [
          | some thrown ↦ save_caught answers partial thrown w'
          | none ↦ (
            success,
            record w' {
              coordinator = completed finished (record (w.coordinator) {
                publish_count = add_u64 w.coordinator.publish_count 1;
              });
            },
          )
        ])

-- The writer is open: the partial file is there, and the Worker writes it.
unfoldable pub write_partial : Answers → Text → Text → World → Status × World
unfolding publish_written save_caught
write_partial answers output partial w =
    let w' = record w {
      coordinator = record (w.coordinator) {
        worker_write_count = add_u64 w.coordinator.worker_write_count 1;
      };
      files = answers.others_writing (put_file partial answers.content w.files);
    } in
    elim answers.write_throws [
      | some e ↦ save_caught answers partial e w'
      | none ↦ publish_written answers output partial w'
    ]

-- The partial path is chosen.
unfoldable pub open_partial : Answers → Text → Text → World → Status × World
unfolding write_partial save_caught
open_partial answers output partial w =
    let w' = record w {
      coordinator = record (w.coordinator) {
        writer_open_count = add_u64 w.coordinator.writer_open_count 1;
      };
    } in
    elim answers.opened [
      | throws e ↦ save_caught answers partial e w'
      | returns opened ↦
          if opened
          then write_partial answers output partial w'
          else save_caught answers partial
              (std_exception (codes "TracyFileWrite cannot open partial capture")) w'
    ]

abbrev pub partial_chosen : Answers → Text → World → Outcome Text → Status × World
partial_chosen answers output w (throws e) = save_caught answers [] e w
partial_chosen answers output w (returns partial) = open_partial answers output partial w

unfoldable pub choose_partial : Answers → Text → World → Status × World
unfolding save_caught open_partial
choose_partial answers output w =
    partial_chosen answers output w (partial_path output answers.random w.files)

-- The block that saves, with its handlers.
unfoldable pub save_capture : Answers → Text → World → Status × World
unfolding save_caught choose_partial
save_capture answers output w = elim answers.probe_throws [
  | some e ↦ save_caught answers [] e w
  | none ↦
      if exists output w.files
      then fails_with (codes "capture output already exists") output_exists w
      else elim answers.directory [
        | throws e ↦ save_caught answers [] e w
        | returns there ↦
            if not there
            then fails_with (codes "capture output directory does not exist") io_error w
            else choose_partial answers output w
      ]
]

-- After the wait for the Worker.
unfoldable pub end_capture : Answers → Disposition → Text → World → Status × World
unfolding save_capture
end_capture answers discard output w =
    (success, record w { coordinator = completed discarded w.coordinator })
end_capture answers save output w = save_capture answers output w
end_capture answers unknown output w = save_capture answers output w

abbrev pub cancelled : World → World
cancelled w = record w { transport = cancel w.transport }

-- What follows the first locked part, with the handlers of the wrapper; it takes the output that
-- the locked part copied.
unfoldable pub complete_finish : Answers → Disposition → Text → World → Status × World
unfolding end_capture set_failure cancel
complete_finish answers disposition output w =
    if not w.coordinator.worker || (not answers.has_data || not answers.profiler_started)
    then fails_with (codes "embedded capture has no completed Tracy handshake/data") no_data
        (cancelled w)
    else elim answers.shutdown_throws [
      | some e ↦
          fails_with (message_of (codes "unknown embedded capture finalization failure") e)
            internal_error (cancelled w)
      | none ↦
          if answers.still_connected
          then fails_with (codes "embedded Worker did not terminate within 30 seconds")
              transport_error (cancelled w)
          else end_capture answers disposition output w
    ]

unfoldable pub finish_with_disposition : Answers → Disposition → World → Status × World
unfolding begin_finish complete_finish
finish_with_disposition answers disposition w =
    let (refusal, c) = begin_finish disposition w.coordinator in
    let w' = record w { coordinator = c } in
    elim refusal [
      | some status ↦ (status, w')
      | none ↦ complete_finish answers disposition c.output w'
    ]

unfoldable pub finish_capture : Answers → World → Status × World
unfolding finish_with_disposition
finish_capture answers w = finish_with_disposition answers save w
