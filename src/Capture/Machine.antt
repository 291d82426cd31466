-- ===== src/Capture/Machine.antt =====
-- The calls of all threads on the coordinator of src/embedded/embedded_capture.cpp, in any order.
pub mod States
pub mod Ended
use tracy_query.Prelude.{
  ℕ, zero, suc, ◌≤◌, ◌≡◌, Bool, true, false, ◌&&◌, ◌||◌, not, Option, none, some, List, [], ◌∷◌,
  ◌++◌, ◌==◌, leb, if◌then◌else◌, Text, text_eq, is_empty,
}
use tracy_query.Transport.Session.{Transport}
use tracy_query.Capture.Files.{Files}
use tracy_query.Capture.Coordinator.{
  State, unconfigured, configured, capturing, finishing, finished, failed, discarded, Status,
  Disposition, Coordinator, World, new_coordinator, Configuration, Setup, configure_capture,
  get_state,
}
use tracy_query.Capture.Finish.{Answers, begin_finish}
use tracy_query.Capture.Turns.{
  Work, begun, writer_counted, write_counted, publish_counted, returned, continues, take_turn,
}

-- A thread that finishes the capture begins with the first locked part, and then takes a turn for
-- each of the others.
pub data Call : Type 0 where
  configures : Configuration → Setup → Call
  asks_state : Bool → Call
  begins_finish : Disposition → Call
  takes_turn : ℕ → Answers → Call

-- The threads that are finishing the capture, any number of them.
pub record Machine : Type 0 where
  pub world : World
  pub threads : List Work

abbrev pub thread_at : ℕ → List Work → Option Work
thread_at n [] = none
thread_at zero (work ∷ threads) = some work
thread_at (suc n) (work ∷ threads) = thread_at n threads

-- The thread at a position goes on to other work, or leaves.
abbrev pub with_thread : ℕ → Option Work → List Work → List Work
with_thread n next [] = []
with_thread zero none (work ∷ threads) = threads
with_thread zero (some next) (work ∷ threads) = next ∷ threads
with_thread (suc n) next (work ∷ threads) = work ∷ with_thread n next threads

-- What the call returns, when it returns a status.
unfoldable pub step : Call → Machine → Option Status × Machine
unfolding configure_capture get_state begin_finish take_turn
step (configures config setup) m =
    let (status, w) = configure_capture config setup m.world in
    (some status, record m { world = w })
step (asks_state has_data) m = (
  none,
  record m {
    world = record (m.world) { coordinator = (get_state has_data m.world.coordinator).1 };
  },
)
step (begins_finish disposition) m =
    let (refusal, c) = begin_finish disposition m.world.coordinator in
    elim refusal [
      | some status ↦ (some status, record m { world = record (m.world) { coordinator = c } })
      | none ↦ (
        none,
        record {
          world = record (m.world) { coordinator = c };
          threads = m.threads ++ (begun disposition c.output ∷ []);
        },
      )
    ]
step (takes_turn n answers) m = elim (thread_at n m.threads) [
  | none ↦ (none, m)
  | some work ↦
      let (after, w) = take_turn answers work m.world in
      elim after [
        | returned status ↦
            (some status, record { world = w; threads = with_thread n none m.threads })
        | continues next ↦
            (none, record { world = w; threads = with_thread n (some next) m.threads })
      ]
]

unfoldable pub run_calls : List Call → Machine → List (Option Status) × Machine
unfolding step
run_calls [] m = ([], m)
run_calls (call ∷ calls) m =
    let (status, m₁) = step call m in
    let (statuses, m₂) = run_calls calls m₁ in (status ∷ statuses, m₂)

unfoldable pub new_machine : Transport → Files → Machine
unfolding new_coordinator
new_machine t files = record {
  world = record { coordinator = new_coordinator; transport = t; files = files };
  threads = [];
}

abbrev pub has_counts : Coordinator → ℕ → ℕ → ℕ → Bool
has_counts c opens writes publications =
    c.writer_open_count == opens
    && (c.worker_write_count == writes && c.publish_count == publications)

-- The counts and the output that a thread has left behind it.
abbrev pub has_worked : Work → Coordinator → Bool
has_worked (begun disposition output) c = has_counts c 0 0 0 && text_eq output c.output
has_worked (writer_counted output partial) c = has_counts c 1 0 0 && text_eq output c.output
has_worked (write_counted output partial) c = has_counts c 1 1 0 && text_eq output c.output
has_worked publish_counted c = has_counts c 1 1 1

-- One thread finishes the capture, and the counts are those of its work.
abbrev pub one_finishes : List Work → Coordinator → Bool
one_finishes [] c = false
one_finishes (work ∷ []) c = has_worked work c
one_finishes (work ∷ other ∷ threads) c = false

-- What the counts and the threads are and whether there is a Worker, by the state.
abbrev pub consistent : List Work → Coordinator → Bool
consistent threads c = elim c.state [
  | unconfigured ↦ is_empty threads && (not c.worker && has_counts c 0 0 0)
  | configured ↦ is_empty threads && (c.worker && has_counts c 0 0 0)
  | capturing ↦ is_empty threads && (c.worker && has_counts c 0 0 0)
  | finishing ↦ c.worker && one_finishes threads c
  | finished ↦ is_empty threads && (not c.worker && has_counts c 1 1 1)
  | discarded ↦ is_empty threads && (not c.worker && has_counts c 0 0 0)
  | failed ↦
      is_empty threads
      && (c.publish_count == 0
          && (leb c.worker_write_count c.writer_open_count && leb c.writer_open_count 1))
]

-- In the state finishing there is one thread that finishes the capture, in the others none.
pub record IsConsistent (m : Machine) : Type 0 where
  pub coordinator : consistent m.threads m.world.coordinator ≡ true
