-- ===== src/Capture/Machine/States.antt =====
-- The states that the coordinator goes through.
use tracy_query.Prelude.{
  ℕ, zero, suc, ◌≡◌, refl, Bool, true, ◌&&◌, List, [], ◌∷◌, arith, leb, ◌==◌, Text, text_eq_refl,
}
use tracy_query.Transport.Session.{Transport}
use tracy_query.Capture.Files.{Files, Thrown}
use tracy_query.Capture.Coordinator.{
  Disposition, save, discard, unknown, Coordinator, World, set_failure, Configuration, Setup,
  start_worker, configure_path, configure_capture, get_state,
}
use tracy_query.Capture.Finish.{Answers, begin_finish, save_caught}
use tracy_query.Capture.Turns.{
  Work, begun, writer_counted, write_counted, publish_counted, After, returned, continues,
  take_turn, turn_begun, turn_writer_counted, turn_write_counted, start_save,
}
use tracy_query.Capture.Machine.{
  Call, configures, asks_state, begins_finish, takes_turn, Machine, step, consistent, IsConsistent,
}

configure_capture-consistent :
    (config : Configuration) (setup : Setup) (w : World) (threads : List Work)
    → consistent threads w.coordinator ≡ true
    → consistent threads (configure_capture config setup w).1.coordinator ≡ true
unfolding configure_capture configure_path start_worker set_failure
configure_capture-consistent config setup w [] h = ground arith
configure_capture-consistent config setup w (work ∷ threads) h = ground arith

-- The counts of a save that goes wrong.
abbrev counts_fit : Coordinator → Bool
counts_fit c =
    c.publish_count == 0
    && (leb c.worker_write_count c.writer_open_count && leb c.writer_open_count 1)

save_caught-consistent :
    (answers : Answers) (partial : Text) (e : Thrown) (w : World)
    → counts_fit w.coordinator ≡ true
    → consistent [] (save_caught answers partial e w).1.coordinator ≡ true
unfolding save_caught set_failure
save_caught-consistent answers partial e w h = ground arith

-- What a turn leaves of the thread.
abbrev left : After → List Work
left (returned status) = []
left (continues next) = next ∷ []

take_turn-consistent :
    (answers : Answers) (work : Work) (w : World)
    → consistent (work ∷ []) w.coordinator ≡ true
    → let r = take_turn answers work w in consistent (left r.0) r.1.coordinator ≡ true
unfolding take_turn turn_begun turn_writer_counted turn_write_counted start_save set_failure
take_turn-consistent answers (begun save output) w h =
    ground (arith, save_caught-consistent answers)
take_turn-consistent answers (begun discard output) w h = ground arith
take_turn-consistent answers (begun unknown output) w h =
    ground (arith, save_caught-consistent answers)
take_turn-consistent answers (writer_counted output partial) w h =
    ground (arith, save_caught-consistent answers)
take_turn-consistent answers (write_counted output partial) w h =
    ground (arith, save_caught-consistent answers)
take_turn-consistent answers publish_counted w h = ground arith

begins_finish-consistent :
    (d : Disposition) (w : World) (threads : List Work)
    → consistent threads w.coordinator ≡ true
    → let m = (step (begins_finish d) (record { world = w; threads = threads })).1 in
      consistent m.threads m.world.coordinator ≡ true
unfolding step begin_finish
begins_finish-consistent d w [] h = ground (arith, text_eq_refl w.coordinator.output)
begins_finish-consistent d w (work ∷ threads) h = ground arith

takes_turn-consistent :
    (n : ℕ) (answers : Answers) (w : World) (threads : List Work)
    → consistent threads w.coordinator ≡ true
    → let m = (step (takes_turn n answers) (record { world = w; threads = threads })).1 in
      consistent m.threads m.world.coordinator ≡ true
unfolding step
takes_turn-consistent n answers w [] h = h
takes_turn-consistent zero answers w (work ∷ []) h = go (take_turn answers work w).0 refl
  where
    go :
        (after : After)
        → (take_turn answers work w).0 ≡ after
        → let m = (step (takes_turn zero answers) (record { world = w; threads = work ∷ [] })).1 in
          consistent m.threads m.world.coordinator ≡ true
    go (returned status) e = ground (arith, e, take_turn-consistent answers work w h)
    go (continues next) e = ground (arith, e, take_turn-consistent answers work w h)
takes_turn-consistent (suc n) answers w (work ∷ []) h = h
takes_turn-consistent n answers w (work ∷ other ∷ threads) h = ground arith

get_state-consistent :
    (has_data : Bool) (c : Coordinator) (threads : List Work)
    → consistent threads c ≡ true
    → consistent threads (get_state has_data c).1 ≡ true
unfolding get_state
get_state-consistent has_data c [] h = ground arith
get_state-consistent has_data c (work ∷ threads) h = ground arith

pub step-IsConsistent : (call : Call) (m : Machine) → IsConsistent m → IsConsistent (step call m).1
unfolding step
step-IsConsistent (configures config setup) m v = record {
  coordinator = configure_capture-consistent config setup m.world m.threads v.coordinator;
}
step-IsConsistent (asks_state has_data) m v = record {
  coordinator = get_state-consistent has_data m.world.coordinator m.threads v.coordinator;
}
step-IsConsistent (begins_finish d) m v = record {
  coordinator = begins_finish-consistent d m.world m.threads v.coordinator;
}
step-IsConsistent (takes_turn n answers) m v = record {
  coordinator = takes_turn-consistent n answers m.world m.threads v.coordinator;
}
