-- ===== src/Capture/Coordinator.antt =====
-- The coordinator of src/embedded/embedded_capture.cpp and the calls that configure it and look at
-- it. A function here is what the code does while it holds the mutex. A path is its text; what the
-- Worker and the file system answer is a parameter.
pub mod Errors
use tracy_query.Prelude.{
  ℕ, ◌-◌, ◌^◌, min, ◌<◌, Bool, true, false, ◌&&◌, ◌||◌, not, Option, none, some, [], ◌∷◌, ◌++◌, ltb,
  ◌==◌, if◌then◌else◌, Text, codes, length, take,
}
use tracy_query.Transport.Session.{Transport, configure, get_error, get_statistics, Statistics}
use tracy_query.Capture.Utf8.{valid_utf8}
use tracy_query.Capture.Files.{Files, exists, Thrown, std_exception, other_exception}

pub data State : Type 0 where
  unconfigured configured capturing finishing finished failed discarded : State

pub data Status : Type 0 where
  success invalid_argument invalid_state output_exists io_error transport_error no_data
        internal_error :
      Status

pub data Disposition : Type 0 where
  save discard : Disposition
  -- Any other number.
  unknown : Disposition

-- `worker` tells whether there is one.
pub record Coordinator : Type 0 where
  pub state : State
  pub output : Text
  pub worker : Bool
  pub error : Text
  pub writer_open_count : ℕ
  pub worker_write_count : ℕ
  pub publish_count : ℕ

unfoldable pub new_coordinator : Coordinator
new_coordinator = record {
  state = unconfigured;
  output = [];
  worker = false;
  error = [];
  writer_open_count = 0;
  worker_write_count = 0;
  publish_count = 0;
}

-- The coordinator, the transport of the process and the files.
pub record World : Type 0 where
  pub coordinator : Coordinator
  pub transport : Transport
  pub files : Files

unfoldable pub set_failure : Text → Coordinator → Coordinator
set_failure message c = record c { error = message; state = failed }

-- The message that a handler gives for what it caught.
abbrev pub message_of : Text → Thrown → Text
message_of unknown_message (std_exception message) = message
message_of unknown_message other_exception = unknown_message

-- The arguments of `configure`; no path is a null pointer.
pub record Configuration : Type 0 where
  pub path : Option Text
  pub channel_capacity : ℕ
  pub memory_limit_zero : Bool

-- What `configure` is answered: whether the look at the output or the making of the Worker throws,
-- and whether the transport's storage can be had.
pub record Setup : Type 0 where
  pub probe_throws : Option Thrown
  pub allocated : Bool
  pub worker_throws : Option Thrown

abbrev pub with_error : Text → Coordinator → Coordinator
with_error message c = record c { error = message }

-- The handlers of `configure`.
abbrev configure_caught : Thrown → Coordinator → Coordinator
configure_caught e =
    set_failure (message_of (codes "unknown embedded capture configuration failure") e)

-- From the transport's configuration on.
unfoldable pub start_worker :
    Configuration → Setup → Coordinator → Transport → Status × Coordinator × Transport
unfolding set_failure
start_worker config setup c t =
    let (configured_ok, t') = configure config.channel_capacity setup.allocated t in
    if not configured_ok
    then (transport_error, record c { error = get_error t'; state = failed }, t')
    else elim setup.worker_throws [
      | some e ↦ (internal_error, configure_caught e c, t')
      | none ↦ (success, record c { worker = true; error = []; state = configured }, t')
    ]

-- From the state's test on, at the path.
unfoldable pub configure_path : Text → Configuration → Setup → World → Status × World
unfolding start_worker set_failure
configure_path path config setup w =
    let c = record (w.coordinator) { output = path } in
    elim setup.probe_throws [
      | some e ↦ (internal_error, record w { coordinator = configure_caught e c })
      | none ↦
          if exists path w.files
          then (
            output_exists,
            record w { coordinator = with_error (codes "capture output already exists") c },
          )
          else (let (status, c', t) = start_worker config setup c w.transport in
              (status, record w { coordinator = c'; transport = t }))
    ]

abbrev pub is_unconfigured : State → Bool
is_unconfigured unconfigured = true
is_unconfigured _ = false

unfoldable pub configure_capture : Configuration → Setup → World → Status × World
unfolding configure_path
configure_capture config setup w = elim config.path [
  | none ↦ (
    invalid_argument,
    record w {
      coordinator = with_error (codes "invalid embedded capture configuration") w.coordinator;
    },
  )
  | some path ↦
      if length path == 0
        || (ltb 32767 (length path)
            || (not (valid_utf8 path)
                || (config.channel_capacity == 0 || config.memory_limit_zero)))
      then (
        invalid_argument,
        record w {
          coordinator = with_error (codes "invalid embedded capture configuration") w.coordinator;
        },
      )
      else if not (is_unconfigured w.coordinator.state)
      then (
        invalid_state,
        record w {
          coordinator = with_error (codes "embedded capture is already configured") w.coordinator;
        },
      )
      else configure_path path config setup w
]

-- `has_data` is what the Worker answers.
unfoldable pub get_state : Bool → Coordinator → State × Coordinator
get_state has_data c = elim c.state [
  | configured ↦
      if c.worker && has_data then (capturing, record c { state = capturing }) else (configured, c)
  | unconfigured ↦ (unconfigured, c)
  | capturing ↦ (capturing, c)
  | finishing ↦ (finishing, c)
  | finished ↦ (finished, c)
  | failed ↦ (failed, c)
  | discarded ↦ (discarded, c)
]

pub record CaptureStatistics : Type 0 where
  pub transport : Statistics
  pub writer_open_count : ℕ
  pub worker_write_count : ℕ
  pub publish_count : ℕ

unfoldable pub get_capture_statistics : World → CaptureStatistics
get_capture_statistics w = record {
  transport = get_statistics w.transport;
  writer_open_count = w.coordinator.writer_open_count;
  worker_write_count = w.coordinator.worker_write_count;
  publish_count = w.coordinator.publish_count;
}

-- The length of the message, and the bytes written to a destination of that capacity; no capacity
-- stands for a null pointer too.
unfoldable pub get_capture_error : ℕ → Coordinator → ℕ × Text
get_capture_error capacity c = (
  length c.error,
  if capacity == 0 then [] else take (min (length c.error) (capacity - 1)) c.error ++ (0 ∷ []),
)
