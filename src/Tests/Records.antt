-- ===== src/Tests/Records.antt =====
-- Kinds, ranges, sorting, merging and `run_query` at concrete records: src/model.cpp, src/adapter.cpp
-- and src/query.cpp.
use tracy_query.Prelude.{
  ℕ, ◌≡◌, refl, true, false, none, some, List, [], ◌∷◌, arith, Text, codes, ◌↔◌,
}
use tracy_query.Prelude.Int.{ℤ, pos}
use tracy_query.Model.{
  Kind, all_kinds, Value, OutputFormat, Command, Detail, RangeMatch, TimeSelection, Options, Record,
}
use tracy_query.Model.Kinds.{occurrences, occurrences-all_kinds}
use tracy_query.Query.Range.{temporal_range_match, Common, overlap_iff}

occurrences-all_kinds_example : occurrences Kind.crash all_kinds ≡ 1
occurrences-all_kinds_example = occurrences-all_kinds Kind.crash

abbrev pub zone : ℕ → ℕ → ℕ → Record
zone begin end sequence = record {
  timestamp_ns = pos begin;
  end_timestamp_ns = some (pos end);
  trace = codes "a";
  source = codes "thread:1";
  kind = Kind.cpu_zone;
  sequence = sequence;
  fields = (codes "depth", Value.uint64 sequence) ∷ [];
  ancestor_names = [];
}

abbrev pub no_time : TimeSelection
no_time = record {
  from_ns = none;
  to_ns = none;
  at_ns = none;
  from_start = false;
  to_end = false;
  latest = false;
  next = false;
  active = false;
  range_match = RangeMatch.overlap;
}

abbrev from_ten : TimeSelection
from_ten = record no_time { from_ns = some (pos 10); to_ns = some (pos 20) }

overlap_iff_example :
    (temporal_range_match (zone 5 12 0) from_ten (pos 99) ≡ true)
    ↔ ((x : ℤ) × Common (zone 5 12 0) (pos 10) (pos 20) x)
overlap_iff_example =
    overlap_iff (zone 5 12 0) from_ten (pos 99) refl refl (omega arith) (omega arith)

abbrev pub plain_query : Options
plain_query = record {
  command = Command.query;
  format = OutputFormat.json_lines;
  detail = Detail.basic;
  quiet = false;
  ignore_case = false;
  count = false;
  all_kinds = false;
  root_zones = false;
  limit = some 2;
  zone_depth = none;
  zone_parent = none;
  zone_ancestor = none;
  stack_frame = none;
  kinds = Kind.cpu_zone ∷ [];
  traces = record { path = codes "a"; label = codes "a" } ∷ [];
  group_by = [];
  source_ids = [];
  source_regexes = [];
  source_types = [];
  threads = [];
  gpu_contexts = [];
  plots = [];
  frame_sets = [];
  locks = [];
  memory_pools = [];
  cpus = [];
  filters = [];
  time = no_time;
}

abbrev pub three_zones : List Record
three_zones = zone 30 40 2 ∷ zone 10 20 0 ∷ zone 20 25 1 ∷ []

abbrev pub one_half : ℕ → Text
one_half bits = codes "0.5"
