-- ===== src/Tests/Traces.antt =====
-- The visitors of src/query.cpp and the sources of src/commands.cpp, for a small trace.
use tracy_query.Prelude.{
  ℕ, ◌≡◌, refl, Bool, true, false, none, some, [], ◌∷◌, map, arith, Result, ok, Text, codes,
  text_eq, All, all, ◌↔◌,
}
use tracy_query.Prelude.Int.{pos}
use tracy_query.Model.{Kind, RegexFilter, Source}
use tracy_query.Query.Matcher.{Search}
use tracy_query.Query.Order.{identity}
use tracy_query.Visit.Worker.{
  Forest, nil, node, ZoneData, GpuZoneData, HardwareSamples, ThreadData, Trace,
}
use tracy_query.Visit.Zones.{visit_cpu_zones, visit_gpu_zones, gpu_threads}
use tracy_query.Visit.Points.{visit_hardware_samples}
use tracy_query.Visit.Kinds.{visit_kind}
use tracy_query.Visit.Numbers.{from, sequences, visit_zones-numbered}
use tracy_query.Visit.Nesting.{Sits, visit_zones-nested}
use tracy_query.Visit.Adapters.{fits, visit_kind-fits}
use tracy_query.Commands.Discover.{discover_sources}
use tracy_query.Commands.Discover.Registered.{registered, discover_sources-registered}
use tracy_query.Commands.Ranges.{no_range, count_gpu_zones}
use tracy_query.Commands.Extremes.{AllZones, InRange, count_gpu_zones_lem}
use tracy_query.Commands.Select.{source_selected}
use tracy_query.Commands.Select.Narrow.{Meets, source_selected-filters}
use tracy_query.Tests.Records.{plain_query}

abbrev zone_at : ℕ → ℕ → ZoneData
zone_at start end = record {
  start = pos start;
  end = pos end;
  name = some (codes "f");
  location = record { function = some (codes "f"); file = none; line = 3; color = 0 };
  extra = none;
}

-- A zone with one inside it, and one after it.
abbrev zones : Forest ZoneData
zones = node (zone_at 10 90) (node (zone_at 20 30) nil nil) (node (zone_at 95 99) nil nil)

abbrev main_thread : ThreadData
main_thread = record {
  id = 7;
  zone_count = 3;
  timeline = zones;
  messages = [];
  samples = [];
  switch_samples = [];
  ghost_zones = nil;
}

abbrev cycles_at : ℕ → HardwareSamples
cycles_at t = record {
  cycles = pos t ∷ [];
  retired = [];
  cache_ref = [];
  cache_miss = [];
  branch_retired = [];
  branch_miss = [];
}

-- Two addresses have a sample each of the same counter.
abbrev pub small_trace : Trace
small_trace = record {
  path = codes "a";
  label = codes "a";
  first_time = pos 0;
  last_time = pos 99;
  worker = record {
    string = λ reference. none;
    thread_name = λ thread. some (codes "main");
    callstack = λ index. none;
    symbol_name = λ address. none;
    process_of = λ thread. 1;
    messages = [];
    plots = [];
    threads = main_thread ∷ [];
    gpu = [];
    frames = [];
    locks = [];
    memory = [];
    cpu_threads = [];
    switches = λ thread. none;
    cpus = [];
    usage = [];
    hardware = (1, cycles_at 40) ∷ (2, cycles_at 60) ∷ [];
    crash = record { thread = 0; time = pos 0; message = none; callstack = 0 };
  };
}

visit_zones-numbered_example :
    (sequences (visit_cpu_zones false small_trace) ≡ from 0 3)
    × (sequences (visit_gpu_zones false small_trace) ≡ from 0 0)
unfolding gpu_threads
visit_zones-numbered_example = visit_zones-numbered false small_trace (omega arith) (omega arith)

visit_zones-nested_example :
    All (Sits none [] (visit_cpu_zones false small_trace)) (visit_cpu_zones false small_trace)
    × All (Sits none [] (visit_gpu_zones false small_trace)) (visit_gpu_zones false small_trace)
visit_zones-nested_example = visit_zones-nested false small_trace

visit_kind-fits_example :
    all (fits Kind.cpu_zone (codes "a")) (visit_kind false false small_trace Kind.cpu_zone) ≡ true
visit_kind-fits_example = visit_kind-fits false false small_trace Kind.cpu_zone

-- The two samples, of different addresses and times, have the same identity.
visit_hardware_samples-identity :
    map identity (visit_hardware_samples false false small_trace)
    ≡ codes "a\nhardware-counter:cycles\nhardware-sample\n0"
      ∷ codes "a\nhardware-counter:cycles\nhardware-sample\n0"
      ∷ []
unfolding identity visit_hardware_samples
visit_hardware_samples-identity = refl

discover_sources-registered_example : all registered (discover_sources small_trace) ≡ true
discover_sources-registered_example = discover_sources-registered small_trace

abbrev gpu_zone_at : ℕ → ℕ → GpuZoneData
gpu_zone_at start end = record {
  start = pos start;
  end = pos end;
  cpu_start = pos start;
  cpu_end = pos end;
  name = none;
  location = record { function = none; file = none; line = 0; color = 0 };
  callstack = 0;
  query_id = 0;
}

-- The zone inside ends after the one around it.
abbrev gpu_zones : Forest GpuZoneData
gpu_zones = node (gpu_zone_at 10 30) (node (gpu_zone_at 20 40) nil nil) nil

count_gpu_zones_lem_example :
    ((count_gpu_zones gpu_zones no_range).0 ≡ 2)
    × AllZones (InRange (count_gpu_zones gpu_zones no_range).1) gpu_zones
count_gpu_zones_lem_example = count_gpu_zones_lem gpu_zones no_range (omega arith)

-- A pattern that is the whole text.
abbrev whole : Bool → Text → Result Search
whole ignore_case pattern = ok (λ t. text_eq t pattern)

abbrev by_name : RegexFilter
by_name = record { kind = none; field = codes "name"; pattern = codes "main" }

abbrev thread_source_at : Source
thread_source_at = record {
  trace = codes "a";
  id = codes "thread:7";
  source_type = codes "thread";
  name = codes "main";
  kinds = Kind.cpu_zone ∷ [];
  counts = [];
  first_timestamp_ns = none;
  last_timestamp_ns = none;
}

source_selected-filters_example :
    (source_selected whole (record plain_query { filters = by_name ∷ [] }) thread_source_at
      ≡ ok true)
    ↔ ((source_selected whole (record plain_query { filters = [] }) thread_source_at ≡ ok true)
        × All (Meets whole false thread_source_at) (by_name ∷ []))
source_selected-filters_example =
    source_selected-filters whole (record plain_query { filters = by_name ∷ [] }) thread_source_at
