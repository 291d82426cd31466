-- ===== src/Program/Load/Errors.antt =====
-- The diagnostics of traces that cannot be loaded.
use tracy_query.Prelude.{
  ◌≡◌, refl, ap₂, List, [], ◌∷◌, ◌++◌, map, arith, Result, ok, err, ◌>>=◌, Text, codes, inl, inr,
}
use tracy_query.Model.{TraceInput}
use tracy_query.Visit.Worker.{Trace}
use tracy_query.Program.Load.{
  no_file, not_tracy_dump, file_read_error, unsupported_version, legacy_version, load_failure,
  other_failure, loaded, trace_of, Loading, prefix, load_trace, load_traces,
}
use tracy_query.Prelude.Decimal.{to_string}
use tracy_query.Visit.Nesting.{Has}

-- The text starts with the prefix.
abbrev pub StartsWith : Text → Text → Type 0
StartsWith front t = (rest : Text) × (t ≡ front ++ rest)

-- `trace`, the path in quotes, and a colon.
abbrev pub named : TraceInput → Text
named input = codes "trace '" ++ (input.path ++ codes "': ")

-- What loading some traces comes to.
abbrev pub LoadedAs : List TraceInput → Result (List Trace) → Type 0
LoadedAs inputs (ok traces) =
    (map (λ t. t.path) traces ≡ map (λ i. i.path) inputs)
    × (map (λ t. t.label) traces ≡ map (λ i. i.label) inputs)
LoadedAs inputs (err message) = Has (λ input. StartsWith (named input) message) inputs

abbrev failed : Text → Result Trace
failed = err

err-injective : (a b : Text) → failed a ≡ failed b → b ≡ a
err-injective a b h = ground arith

trace_of-err :
    (input : TraceInput) (l : Loading) (message : Text)
    → trace_of input l ≡ err message
    → StartsWith (named input) message
unfolding trace_of prefix
trace_of-err input no_file message h = (codes "cannot open file", err-injective _ message h)
trace_of-err input not_tracy_dump message h =
    (codes "not a Tracy trace file", err-injective _ message h)
trace_of-err input file_read_error message h =
    (codes "failed to read file", err-injective _ message h)
trace_of-err input (unsupported_version version) message h =
    (codes "unsupported trace version " ++ to_string version, err-injective _ message h)
trace_of-err input (legacy_version version) message h = (
  codes "legacy trace version " ++ (to_string version ++ codes " is not supported"),
  err-injective _ message h,
)
trace_of-err input (load_failure what) message h =
    (codes "failed to load: " ++ what, err-injective _ message h)
trace_of-err input (other_failure what) message h =
    (codes "failed to load: " ++ what, err-injective _ message h)
trace_of-err input (loaded worker first last) message h = absurd (ground arith)

load_trace-err :
    (load : Text → Loading) (input : TraceInput) (message : Text)
    → load_trace load input ≡ err message
    → StartsWith (named input) message
unfolding load_trace
load_trace-err load input message h = trace_of-err input (load input.path) message h

load_trace-ok :
    (load : Text → Loading) (input : TraceInput) (trace : Trace)
    → load_trace load input ≡ ok trace
    → (trace.path ≡ input.path) × (trace.label ≡ input.label)
unfolding load_trace
load_trace-ok load input trace h = ground arith

more-LoadedAs :
    (input : TraceInput) (inputs : List TraceInput) (trace : Trace) (r : Result (List Trace))
    → trace.path ≡ input.path
    → trace.label ≡ input.label
    → LoadedAs inputs r
    → LoadedAs (input ∷ inputs) (r >>= λ traces. ok (trace ∷ traces))
more-LoadedAs input inputs trace (ok traces) p l h =
    (ap₂ (λ x xs. x ∷ xs) p h.0, ap₂ (λ x xs. x ∷ xs) l h.1)
more-LoadedAs input inputs trace (err message) p l h = inr h

-- The traces that are loaded have the paths and the labels of the inputs, in order; where one
-- cannot be loaded, the diagnostic starts with `trace`, the path of one of the inputs in quotes,
-- and a colon.
pub load_traces-LoadedAs :
    (load : Text → Loading) (inputs : List TraceInput) → LoadedAs inputs (load_traces load inputs)
unfolding load_traces
load_traces-LoadedAs load [] = (refl, refl)
load_traces-LoadedAs load (input ∷ inputs) =
    go (load_trace load input) refl (load_traces-LoadedAs load inputs)
  where
    go :
        (r : Result Trace)
        → load_trace load input ≡ r
        → LoadedAs inputs (load_traces load inputs)
        → LoadedAs
            (input ∷ inputs)
            (r >>= λ trace. load_traces load inputs >>= λ traces. ok (trace ∷ traces))
    go (err message) e next = inl (load_trace-err load input message e)
    go (ok trace) e next =
        let same = load_trace-ok load input trace e in
        more-LoadedAs input inputs trace (load_traces load inputs) same.0 same.1 next
