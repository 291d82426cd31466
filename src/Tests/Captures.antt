-- ===== src/Tests/Captures.antt =====
-- The coordinator of src/embedded/embedded_capture.cpp, at concrete states and answers.
use tracy_query.Prelude.{
  ◌⊎◌, u64_mod, add_u64, sub_u64, set, replicate, copy_to, tabulate, length-set, length-replicate,
  length-copy_to, get_or-copy_to_outside, get_or-copy_to_inside, tabulate-ext, length-tabulate,
  tabulate-append, tabulate-get_or, take-drop, ℕ, zero, suc, ◌+◌, ◌-◌, ◌*◌, ◌/◌, ◌%◌, ◌^◌, ◌≤◌, ◌<◌,
  min, max, ◌≡◌, refl, sym, ap, ap₂, ◌∙◌, subst, Bool, true, false, ◌&&◌, not, Option, none, some,
  List, [], ◌∷◌, ◌++◌, map, append_assoc, append-nil, arith, ltb, leb, ◌==◌, if◌then◌else◌,
  Bool-cases, Option-cases, Result, ok, err, ◌>>=◌, ◌>>◌, or_fail, guard, Text, codes, text_eq,
  text_lt, text_eq→eq, text_eq_refl, is_empty, All, length, get_or, take, drop, any, find?,
  find?_sound, keep, length-append, take-append-drop, length-take, length-drop, All-append,
  All-split, length-map, map_append, take-nil, take-all, ◌≢◌, ◌↔◌, ◌⊎◌, inl, inr, &&-split, ltb→lt,
  lt→ltb, leb→le, le→leb, ==_iff,
}
use tracy_query.Transport.Session.{Transport, cancel}
use tracy_query.Capture.Files.{
  Files, put_file, other_exception, returns, partial_path, atomic_publish,
}
use tracy_query.Capture.Coordinator.{
  capturing, finished, success, invalid_state, save, discard, World, new_coordinator,
}
use tracy_query.Capture.Finish.{Answers, finish_with_disposition, finish_capture}
use tracy_query.Capture.Utf8.{valid_utf8}
use tracy_query.Capture.Utf8.Scalars.{EncodesScalars, valid_utf8_iff}
use tracy_query.Capture.Coordinator.{get_capture_error}
use tracy_query.Capture.Coordinator.Errors.{c_string, get_capture_error_reads}
use tracy_query.Capture.Finish.Saved.{finish-KeepsFiles}
use tracy_query.Capture.Finish.Untouched.{publishes, finish-all_or_nothing}
use tracy_query.Capture.Finish.Success.{GoesWell, finish_capture-succeeds}
use tracy_query.Capture.Machine.{
  Call, configures, asks_state, begins_finish, takes_turn, Machine, run_calls, new_machine,
}

-- A two-byte and a one-byte character.
valid_utf8_iff_example :
    (valid_utf8 (0xc3 ∷ 0xa9 ∷ 0x2e ∷ []) ≡ true) ↔ EncodesScalars (0xc3 ∷ 0xa9 ∷ 0x2e ∷ [])
valid_utf8_iff_example =
    valid_utf8_iff (0xc3 ∷ 0xa9 ∷ 0x2e ∷ []) (omega arith, (omega arith, (omega arith, tt)))

abbrev no_transport : Transport
no_transport = record { session = none; error = [] }

-- There is one file, beside the output.
abbrev one_file : Files
one_file = λ p. if text_eq p (codes "old") then some (codes "x") else none

abbrev running : World
running = record {
  coordinator = record new_coordinator {
    state = capturing;
    worker = true;
    output = codes "out";
    error = codes "busy";
  };
  transport = no_transport;
  files = one_file;
}

abbrev good : Answers
good = record {
  has_data = true;
  profiler_started = true;
  shutdown_throws = none;
  still_connected = false;
  probe_throws = none;
  directory = returns true;
  random = λ attempt. 7;
  opened = returns true;
  content = codes "trace";
  write_throws = none;
  others_writing = λ files. files;
  others_linking = λ files. files;
  publication = record {
    link_fails = none;
    existing = other_exception;
    missing = other_exception;
    remove_fails = none;
  };
  removable = true;
}

finish-KeepsFiles_example :
    (finish_with_disposition good save running).1.files (codes "old") ≡ some (codes "x")
unfolding text_eq
finish-KeepsFiles_example =
    finish-KeepsFiles good save running (λ files path content h. h) (λ files path content h. h)
      (codes "old") (codes "x") refl

finish-all_or_nothing_example :
    let r = finish_with_disposition good save running in
    (r.1.files (codes "out") ≡ (
      if publishes save r.0
      then put_file (codes "out") (codes "trace") one_file (codes "out")
      else one_file (codes "out")))
    × (r.1.coordinator.publish_count ≡ (if publishes save r.0 then add_u64 0 1 else 0))
unfolding new_coordinator
finish-all_or_nothing_example =
    finish-all_or_nothing good save running (codes "out") (refl, refl) (λ files path. refl)
      (λ files path. refl)

good-GoesWell : GoesWell good running
unfolding text_eq
good-GoesWell = record {
  attempt = 0;
  within = omega arith;
  free = refl;
  worker = refl;
  has_data = refl;
  started = refl;
  shutdown = refl;
  ended = refl;
  probe = refl;
  directory = refl;
  opened = refl;
  content = refl;
  written = refl;
  writing = λ files path. refl;
  linking = λ files path. refl;
  link = refl;
  removal = refl;
}

finish_capture-succeeds_example :
    let r = finish_capture good running in (r.0 ≡ success) × (r.1.coordinator.state ≡ finished)
unfolding text_eq
finish_capture-succeeds_example = finish_capture-succeeds good running good-GoesWell refl refl

abbrev setup : Call
setup =
    configures
      (record { path = some (codes "out"); channel_capacity = 64; memory_limit_zero = false })
      (record { probe_throws = none; allocated = true; worker_throws = none })

-- Another thread configures again, asks for the state and finishes too, while the first saves.
abbrev calls : List Call
calls =
    setup
    ∷ asks_state true
    ∷ begins_finish save
    ∷ setup
    ∷ begins_finish discard
    ∷ asks_state true
    ∷ takes_turn 0 good
    ∷ takes_turn 0 good
    ∷ takes_turn 1 good
    ∷ takes_turn 0 good
    ∷ takes_turn 0 good
    ∷ setup
    ∷ []

run_calls-statuses :
    (run_calls calls (new_machine no_transport one_file)).0
    ≡ some success
      ∷ none
      ∷ none
      ∷ some invalid_state
      ∷ some invalid_state
      ∷ none
      ∷ none
      ∷ none
      ∷ none
      ∷ none
      ∷ some success
      ∷ some invalid_state
      ∷ []
unfolding run_calls new_machine valid_utf8 text_eq tracy_query.Transport.Session.configure
    partial_path tracy_query.Prelude.Decimal.to_string atomic_publish
run_calls-statuses = refl

-- The machine after the capture has been saved.
abbrev saved : Machine
saved = (run_calls calls (new_machine no_transport one_file)).1

get_capture_error_reads_example :
    let r = get_capture_error 3 running.coordinator in
    (r.0 ≡ 4)
    × (length r.1 ≡ 3)
    × ((◌≡◌ {A = ℕ} 3 0) ⊎ (r.1 ≡ codes "bu" ++ (0 ∷ [])))
    × (c_string r.1 ≡ codes "bu")
get_capture_error_reads_example = get_capture_error_reads 3 running.coordinator
