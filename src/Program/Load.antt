-- ===== src/Program/Load.antt =====
-- The constructor of `Trace` of src/trace.cpp. What Tracy's reader and its Worker do with a file is
-- a parameter.
pub mod Errors
use tracy_query.Prelude.{ℕ, List, [], ◌∷◌, ◌++◌, Result, ok, err, ◌>>=◌, Text, codes}
use tracy_query.Prelude.Int.{ℤ}
use tracy_query.Prelude.Decimal.{to_string}
use tracy_query.Model.{TraceInput}
use tracy_query.Visit.Worker.{Worker, Trace}

-- No file, a Worker with its first and last times, or an exception of one of Tracy's kinds or
-- another.
pub data Loading : Type 0 where
  no_file not_tracy_dump file_read_error : Loading
  unsupported_version legacy_version : ℕ → Loading
  load_failure other_failure : Text → Loading
  loaded : Worker → ℤ → ℤ → Loading

unfoldable pub prefix : TraceInput → Text
prefix input = codes "trace '" ++ (input.path ++ codes "': ")

-- The diagnostic of a `TraceLoadError`, or the trace.
unfoldable pub trace_of : TraceInput → Loading → Result Trace
unfolding prefix to_string
trace_of input no_file = err (prefix input ++ codes "cannot open file")
trace_of input not_tracy_dump = err (prefix input ++ codes "not a Tracy trace file")
trace_of input file_read_error = err (prefix input ++ codes "failed to read file")
trace_of input (unsupported_version version) =
    err (prefix input ++ (codes "unsupported trace version " ++ to_string version))
trace_of input (legacy_version version) = err (
    prefix input
    ++ (codes "legacy trace version " ++ (to_string version ++ codes " is not supported")))
trace_of input (load_failure message) = err (prefix input ++ (codes "failed to load: " ++ message))
trace_of input (other_failure message) = err (prefix input ++ (codes "failed to load: " ++ message))
trace_of input (loaded worker first last) = ok (record {
  path = input.path;
  label = input.label;
  worker = worker;
  first_time = first;
  last_time = last;
})

unfoldable pub load_trace : (Text → Loading) → TraceInput → Result Trace
unfolding trace_of
load_trace load input = trace_of input (load input.path)

-- In the order of the inputs; the first that fails ends it.
unfoldable pub load_traces : (Text → Loading) → List TraceInput → Result (List Trace)
unfolding load_trace
load_traces load [] = ok []
load_traces load (input ∷ inputs) =
    load_trace load input >>= λ trace. load_traces load inputs >>= λ traces. ok (trace ∷ traces)
