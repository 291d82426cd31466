-- ===== src/Visit/Kinds.antt =====
-- `visit_kind` of src/query.cpp.
use tracy_query.Prelude.{Bool, true, false, List}
use tracy_query.Model.{Kind, Record}
use tracy_query.Visit.Worker.{Trace}
use tracy_query.Visit.Points.{
  visit_messages, visit_plots, visit_locks, visit_memory, visit_samples, visit_cpu_usage,
  visit_hardware_samples, visit_crash,
}
use tracy_query.Visit.Zones.{visit_cpu_zones, visit_gpu_zones, visit_ghost_zones}
use tracy_query.Visit.Intervals.{visit_frames, visit_context_switches, visit_cpu_slices}

-- The first two arguments are `expand_callstacks` and `expand_symbols`.
unfoldable pub visit_kind : Bool → Bool → Trace → Kind → List Record
visit_kind callstacks symbols trace Kind.message = visit_messages callstacks symbols trace
visit_kind callstacks symbols trace Kind.plot = visit_plots callstacks symbols trace
visit_kind callstacks symbols trace Kind.cpu_zone = visit_cpu_zones callstacks trace
visit_kind callstacks symbols trace Kind.gpu_zone = visit_gpu_zones callstacks trace
visit_kind callstacks symbols trace Kind.frame = visit_frames trace false
visit_kind callstacks symbols trace Kind.frame_image = visit_frames trace true
visit_kind callstacks symbols trace Kind.lock = visit_locks callstacks symbols trace
visit_kind callstacks symbols trace Kind.memory = visit_memory callstacks symbols trace
visit_kind callstacks symbols trace Kind.sample = visit_samples callstacks symbols trace
visit_kind callstacks symbols trace Kind.ghost_zone = visit_ghost_zones callstacks trace
visit_kind callstacks symbols trace Kind.context_switch = visit_context_switches trace
visit_kind callstacks symbols trace Kind.cpu_slice = visit_cpu_slices trace
visit_kind callstacks symbols trace Kind.cpu_usage = visit_cpu_usage callstacks symbols trace
visit_kind callstacks symbols trace Kind.hardware_sample =
    visit_hardware_samples callstacks symbols trace
visit_kind callstacks symbols trace Kind.crash = visit_crash callstacks symbols trace
