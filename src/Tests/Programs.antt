-- ===== src/Tests/Programs.antt =====
-- src/trace.cpp and src/main.cpp, on a small trace and a missing one.
use tracy_query.Prelude.{◌≡◌, refl, List, [], ◌∷◌, if◌then◌else◌, err, Text, codes, text_eq}
use tracy_query.Prelude.Int.{pos}
use tracy_query.Model.{Value, TraceInput}
use tracy_query.Visit.Worker.{Trace}
use tracy_query.Commands.Info.{Capture, x64}
use tracy_query.Program.Load.{Loading, no_file, loaded, load_traces}
use tracy_query.Program.Load.Errors.{LoadedAs, load_traces-LoadedAs}
use tracy_query.Tests.Traces.{small_trace}

-- There is one capture file.
abbrev files : Text → Loading
files path =
    if text_eq path (codes "a") then loaded small_trace.worker (pos 0) (pos 99) else no_file

abbrev inputs : List TraceInput
inputs =
    record { path = codes "a"; label = codes "a" }
    ∷ record { path = codes "b"; label = codes "b" }
    ∷ []

load_traces-LoadedAs_example : LoadedAs inputs (load_traces files inputs)
load_traces-LoadedAs_example = load_traces-LoadedAs files inputs

load_traces-missing : load_traces files inputs ≡ err (codes "trace 'b': cannot open file")
unfolding load_traces text_eq
load_traces-missing = refl

abbrev capture : Trace → Capture
capture trace = record {
  version = 0;
  name = [];
  program = [];
  capture_time = Value.null;
  executable_time = Value.null;
  host_info = [];
  pid = Value.null;
  resolution = Value.null;
  architecture = x64;
  cpu_id = 0;
  cpu_manufacturer = [];
  sampling_period = Value.null;
  zone_count = Value.null;
  gpu_zone_count = Value.null;
  plot_point_count = Value.null;
  lock_count = Value.null;
  frame_image_count = 0;
  sample_count = Value.null;
  ghost_zone_count = Value.null;
  context_switch_count = Value.null;
  hardware_sample_count = Value.null;
  full_counts = [];
  app_info = [];
  parameters = [];
  topology = [];
}
