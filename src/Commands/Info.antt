-- ===== src/Commands/Info.antt =====
-- `run_range` and `run_info` of src/commands.cpp. A count whose type is Tracy's is a value.
use tracy_query.Prelude.{
  ℕ, ◌/◌, ◌%◌, ◌^◌, add_u64, List, [], ◌∷◌, ◌++◌, if◌then◌else◌, Text, codes, is_empty, length,
}
use tracy_query.Prelude.Int.{pos}
use tracy_query.Prelude.Decimal.{to_string}
use tracy_query.Model.{Detail, Value, Fields}
use tracy_query.Visit.Worker.{FrameSet, MemoryPool, Trace}
use tracy_query.Visit.Fields.{normalize, append_item, text_field, number_field}

unfoldable pub trace_version : ℕ → Text
unfolding to_string
trace_version version =
    to_string (version / 2 ^ 16)
    ++ (codes "."
        ++ (to_string (version / 2 ^ 8 % 256) ++ (codes "." ++ to_string (version % 256))))

pub data CpuArchitecture : Type 0 where
  x86 x64 arm32 arm64 unknown_architecture : CpuArchitecture

unfoldable pub cpu_architecture : CpuArchitecture → Text
cpu_architecture x86 = codes "x86"
cpu_architecture x64 = codes "x86_64"
cpu_architecture arm32 = codes "arm32"
cpu_architecture arm64 = codes "arm64"
cpu_architecture unknown_architecture = codes "unknown"

-- A parameter of the capture: its name, and its value as text.
pub record Parameter : Type 0 where
  pub name : Text
  pub value : Text

-- What the Worker answers about the capture as a whole. `counts` are in the order of the code, those
-- from the lock events on and those of the full detail; the topology is by package and die, with the
-- threads of each core.
pub record Capture : Type 0 where
  pub version : ℕ
  pub name : Text
  pub program : Text
  pub capture_time : Value
  pub executable_time : Value
  pub host_info : Text
  pub pid : Value
  pub resolution : Value
  pub architecture : CpuArchitecture
  pub cpu_id : ℕ
  pub cpu_manufacturer : Text
  pub sampling_period : Value
  pub zone_count : Value
  pub gpu_zone_count : Value
  pub plot_point_count : Value
  pub lock_count : Value
  pub frame_image_count : ℕ
  pub sample_count : Value
  pub ghost_zone_count : Value
  pub context_switch_count : Value
  pub hardware_sample_count : Value
  pub full_counts : Fields
  pub app_info : List Text
  pub parameters : List Parameter
  pub topology : List (List (List (List ℕ)))

unfoldable pub range_fields : Trace → Fields
unfolding normalize
range_fields trace =
    text_field (codes "trace") trace.label
    ∷ (codes "first_timestamp_ns", Value.int64 (pos 0))
    ∷ (codes "last_timestamp_ns", Value.int64 (normalize trace trace.last_time))
    ∷ (codes "duration_ns", Value.int64 (normalize trace trace.last_time))
    ∷ (codes "tracy_first_timestamp_ns", Value.int64 trace.first_time)
    ∷ (codes "tracy_last_timestamp_ns", Value.int64 trace.last_time)
    ∷ []

abbrev sum_frames : List FrameSet → ℕ
sum_frames [] = 0
sum_frames (set ∷ sets) = add_u64 (sum_frames sets) (length set.frames)

abbrev sum_events : List MemoryPool → ℕ
sum_events [] = 0
sum_events (pool ∷ pools) = add_u64 (sum_events pools) (length pool.events)

abbrev sum_cores : List (List ℕ) → ℕ
sum_cores [] = 0
sum_cores (threads ∷ cores) = add_u64 (sum_cores cores) (length threads)

abbrev sum_dies : List (List (List ℕ)) → ℕ
sum_dies [] = 0
sum_dies (cores ∷ dies) = add_u64 (sum_dies dies) (sum_cores cores)

abbrev sum_topology : List (List (List (List ℕ))) → ℕ
sum_topology [] = 0
sum_topology (dies ∷ packages) = add_u64 (sum_topology packages) (sum_dies dies)

abbrev join_info : Text → List Text → Text
join_info result [] = result
join_info result (item ∷ items) = join_info (append_item (0x0a ∷ []) result item) items

abbrev join_parameters : Text → List Parameter → Text
join_parameters result [] = result
join_parameters result (p ∷ ps) =
    join_parameters (append_item (codes ",") result (p.name ++ (codes "=" ++ p.value))) ps

abbrev text_if_any : Text → Text → Fields
text_if_any name value = if is_empty value then [] else text_field name value ∷ []

-- The fields of `--detail full`.
unfoldable pub full_fields : Capture → Fields
full_fields capture =
    capture.full_counts
    ++ (number_field (codes "app_info_count") (length capture.app_info)
          ∷ text_if_any (codes "app_info") (join_info [] capture.app_info)
        ++ (number_field (codes "parameter_count") (length capture.parameters)
              ∷ text_if_any (codes "parameters") (join_parameters [] capture.parameters)
            ++ (number_field (codes "cpu_topology_package_count") (length capture.topology)
                ∷ number_field (codes "cpu_topology_thread_count") (sum_topology capture.topology)
                ∷ [])))

unfoldable pub info_fields : Detail → Capture → Trace → Fields
unfolding trace_version cpu_architecture full_fields normalize
info_fields detail capture trace =
    text_field (codes "trace") trace.label
    ∷ text_field (codes "trace_version") (trace_version capture.version)
    ∷ text_field (codes "capture_name") capture.name
    ∷ text_field (codes "capture_program") capture.program
    ∷ (codes "capture_time", capture.capture_time)
    ∷ (codes "executable_time", capture.executable_time)
    ∷ text_field (codes "host_info") capture.host_info
    ∷ (codes "pid", capture.pid)
    ∷ (codes "timer_resolution_ns", capture.resolution)
    ∷ text_field (codes "cpu_architecture") (cpu_architecture capture.architecture)
    ∷ number_field (codes "cpu_id") capture.cpu_id
    ∷ text_field (codes "cpu_manufacturer") capture.cpu_manufacturer
    ∷ (codes "sampling_period_ns", capture.sampling_period)
    ∷ (codes "first_timestamp_ns", Value.int64 (pos 0))
    ∷ (codes "last_timestamp_ns", Value.int64 (normalize trace trace.last_time))
    ∷ (codes "duration_ns", Value.int64 (normalize trace trace.last_time))
    ∷ (codes "cpu_zone_count", capture.zone_count)
    ∷ (codes "gpu_zone_count", capture.gpu_zone_count)
    ∷ number_field (codes "message_count") (length trace.worker.messages)
    ∷ (codes "plot_point_count", capture.plot_point_count)
    ∷ (codes "lock_event_count", capture.lock_count)
    ∷ number_field (codes "memory_allocation_count") (sum_events trace.worker.memory)
    ∷ number_field (codes "frame_count") (sum_frames trace.worker.frames)
    ∷ number_field (codes "frame_image_count") capture.frame_image_count
    ∷ (codes "sample_count", capture.sample_count)
    ∷ (codes "ghost_zone_count", capture.ghost_zone_count)
    ∷ (codes "context_switch_count", capture.context_switch_count)
    ∷ (codes "hardware_sample_count", capture.hardware_sample_count)
    ∷ elim detail [ Detail.basic ↦ [] | Detail.full ↦ full_fields capture ]
