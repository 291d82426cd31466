-- ===== src/Capture/Turns.antt =====
-- `finishImpl` of src/embedded/embedded_capture.cpp from one locked part to the next, as other
-- threads see it.

pub mod Sequence
use tracy_query.Prelude.{
  ℕ, Bool, true, false, ◌||◌, not, Option, none, some, List, [], ◌∷◌, if◌then◌else◌, Text, codes,
  is_empty, add_u64,
}
use tracy_query.Capture.Files.{
  Files, exists, put_file, Thrown, std_exception, Outcome, returns, throws, partial_path,
  atomic_publish,
}
use tracy_query.Capture.Coordinator.{
  finished, discarded, Status, success, output_exists, io_error, transport_error, no_data,
  internal_error, Disposition, save, discard, unknown, Coordinator, World, message_of,
}
use tracy_query.Capture.Finish.{Answers, fails_with, save_caught, completed, cancelled}

-- Where a thread is that finishes the capture: after the first locked part, after the counts of the
-- writers opened, of the writes and of the publications. It keeps the output and the path of the
-- partial file.
pub data Work : Type 0 where
  begun : Disposition → Text → Work
  writer_counted write_counted : Text → Text → Work
  publish_counted : Work

-- A turn ends with the return of the call, or in the next locked part.
pub data After : Type 0 where
  returned : Status → After
  continues : Work → After

abbrev ends : Status × World → After × World
ends (status, w) = (returned status, w)

-- The path of the partial file is chosen, or not.
abbrev count_writer : Answers → Text → World → Outcome Text → After × World
count_writer answers output w (throws e) = ends (save_caught answers [] e w)
count_writer answers output w (returns partial) = (
  continues (writer_counted output partial),
  record w {
    coordinator = record (w.coordinator) {
      writer_open_count = add_u64 w.coordinator.writer_open_count 1;
    };
  },
)

unfoldable pub start_save : Answers → Text → World → After × World
unfolding save_caught
start_save answers output w = elim answers.probe_throws [
  | some e ↦ ends (save_caught answers [] e w)
  | none ↦
      if exists output w.files
      then ends (fails_with (codes "capture output already exists") output_exists w)
      else elim answers.directory [
        | throws e ↦ ends (save_caught answers [] e w)
        | returns there ↦
            if not there
            then ends (fails_with (codes "capture output directory does not exist") io_error w)
            else count_writer answers output w (partial_path output answers.random w.files)
      ]
]

abbrev start_end : Answers → Disposition → Text → World → After × World
start_end answers discard output w =
    ends (success, record w { coordinator = completed discarded w.coordinator })
start_end answers save output w = start_save answers output w
start_end answers unknown output w = start_save answers output w

-- What follows the first locked part.
unfoldable pub turn_begun : Answers → Disposition → Text → World → After × World
unfolding start_save
turn_begun answers disposition output w =
    if not w.coordinator.worker || (not answers.has_data || not answers.profiler_started)
    then ends (
        fails_with (codes "embedded capture has no completed Tracy handshake/data") no_data
          (cancelled w))
    else elim answers.shutdown_throws [
      | some e ↦ ends (
          fails_with (message_of (codes "unknown embedded capture finalization failure") e)
            internal_error (cancelled w))
      | none ↦
          if answers.still_connected
          then ends (
              fails_with (codes "embedded Worker did not terminate within 30 seconds")
                transport_error (cancelled w))
          else start_end answers disposition output w
    ]

-- The writer is opened, and the write counted.
unfoldable pub turn_writer_counted : Answers → Text → Text → World → After × World
unfolding save_caught
turn_writer_counted answers output partial w = elim answers.opened [
  | throws e ↦ ends (save_caught answers partial e w)
  | returns opened ↦
      if opened
      then (
        continues (write_counted output partial),
        record w {
          coordinator = record (w.coordinator) {
            worker_write_count = add_u64 w.coordinator.worker_write_count 1;
          };
        },
      )
      else ends (
          save_caught answers partial
            (std_exception (codes "TracyFileWrite cannot open partial capture")) w)
]

abbrev publish : Answers → Text → Text → World → After × World
publish answers output partial w =
    if elim (w.files partial) [ none ↦ true | some content ↦ is_empty content ]
    then ends (
        save_caught answers partial
          (std_exception (codes "TracyFileWrite produced an empty capture")) w)
    else (let (e, files) =
          atomic_publish partial output answers.publication (answers.others_linking w.files) in
        let w' = record w { files = files } in
        elim e [
          | some thrown ↦ ends (save_caught answers partial thrown w')
          | none ↦ (
            continues publish_counted,
            record w' {
              coordinator = record (w.coordinator) {
                publish_count = add_u64 w.coordinator.publish_count 1;
              };
            },
          )
        ])

-- The Worker writes the partial file, which is published and counted.
unfoldable pub turn_write_counted : Answers → Text → Text → World → After × World
unfolding save_caught atomic_publish
turn_write_counted answers output partial w =
    let w' = record w {
      files = answers.others_writing (put_file partial answers.content w.files);
    } in
    elim answers.write_throws [
      | some e ↦ ends (save_caught answers partial e w')
      | none ↦ publish answers output partial w'
    ]

unfoldable pub take_turn : Answers → Work → World → After × World
unfolding turn_begun turn_writer_counted turn_write_counted
take_turn answers (begun disposition output) w = turn_begun answers disposition output w
take_turn answers (writer_counted output partial) w = turn_writer_counted answers output partial w
take_turn answers (write_counted output partial) w = turn_write_counted answers output partial w
take_turn answers publish_counted w =
    ends (success, record w { coordinator = completed finished w.coordinator })
