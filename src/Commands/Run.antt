-- ===== src/Commands/Run.antt =====
-- `run_command` of src/commands.cpp, and the part of `run_query` of src/query.cpp that makes the
-- matcher and visits the traces. `compile` and the formats are the standard library's; `capture_of`
-- is what the Worker answers about a capture as a whole.
pub mod Returns
use tracy_query.Prelude.{
  ℕ, add_u64, Bool, true, false, ◌&&◌, ◌||◌, not, Option, none, some, List, [], ◌∷◌, ◌++◌, map,
  if◌then◌else◌, Result, ok, err, ◌>>=◌, Text, codes, text_eq, is_empty, any, all,
}
use tracy_query.Prelude.Int.{ℤ}
use tracy_query.Model.{Kind, Command, Detail, Value, RegexFilter, Options, Record, Source}
use tracy_query.Output.{emit_object, emit_source}
use tracy_query.Query.Matcher.{Search, Matcher, new_matcher, matches}
use tracy_query.Query.Run.{run_query}
use tracy_query.Visit.Worker.{Trace}
use tracy_query.Visit.Fields.{normalize}
use tracy_query.Visit.Kinds.{visit_kind}
use tracy_query.Commands.Discover.{discover_sources}
use tracy_query.Commands.Select.{source_selected}
use tracy_query.Commands.Info.{Capture, range_fields, info_fields}

abbrev is_full : Detail → Bool
is_full Detail.basic = false
is_full Detail.full = true

abbrev needs_symbols : RegexFilter → Bool
needs_symbols filter =
    text_eq filter.field (codes "symbol")
    || (text_eq filter.field (codes "function") || text_eq filter.field (codes "file"))

unfoldable pub expand_callstacks : Options → Bool
unfolding text_eq
expand_callstacks options =
    is_full options.detail
    || (elim options.stack_frame [ none ↦ false | some pattern ↦ true ]
        || any (λ filter. text_eq filter.field (codes "callstack") || needs_symbols filter)
            options.filters)

unfoldable pub expand_symbols : Options → Bool
unfolding text_eq
expand_symbols options = is_full options.detail || any needs_symbols options.filters

abbrev pub visit_kinds : Options → Trace → List Kind → List Record
visit_kinds options trace [] = []
visit_kinds options trace (kind ∷ kinds) =
    visit_kind (expand_callstacks options) (expand_symbols options) trace kind
    ++ visit_kinds options trace kinds

-- A trace's end, and the records of the kinds asked for.
unfoldable pub visit_trace : Options → Trace → ℤ × List Record
unfolding expand_callstacks expand_symbols visit_kind normalize
visit_trace options trace =
    (normalize trace trace.last_time, visit_kinds options trace options.kinds)

-- What a command writes, and the message of the exception that ends it, if one does.
pub record Ran : Type 0 where
  pub output : Text
  pub diagnostics : Text
  pub failure : Option Text

abbrev pub wrote : Text → Ran
wrote output = record { output = output; diagnostics = []; failure = none }

module _ (format_double format_float : ℕ → Text) (compile : Bool → Text → Result Search)
    (capture_of : Trace → Capture) where
  -- The answer of `matches`, and whether there is one.
  abbrev pub keeps : Matcher → Options → Record → Bool
  keeps m options r = elim (matches format_float m options r) [
    | none ↦ false
    | some answer ↦ answer
  ]

  abbrev pub answers : Matcher → Options → Record → Bool
  answers m options r = elim (matches format_float m options r) [
    | none ↦ false
    | some answer ↦ true
  ]

  abbrev truncation : Bool → Text
  truncation truncated =
      if truncated then codes "tracy-query: output truncated by --limit" ++ (0x0a ∷ []) else []

  -- A record that the matcher throws on ends the command before it writes.
  abbrev pub query_with : Options → List (ℤ × List Record) → Matcher → Ran
  query_with options visited m =
      if all (λ visit. all (answers m options) visit.1) visited
      then (let (output, truncated) = run_query format_double (keeps m options) options visited in
          record { output = output; diagnostics = truncation truncated; failure = none })
      else record { output = []; diagnostics = []; failure = some (codes "bad variant access") }

  unfoldable pub query_traces : Options → List Trace → Ran
  unfolding visit_trace new_matcher matches run_query
  query_traces options traces = elim (new_matcher compile options) [
    | err message ↦ record { output = []; diagnostics = []; failure = some message }
    | ok m ↦ query_with options (map (visit_trace options) traces) m
  ]

  -- The sources that are selected: what is written of them, their number, and the exception's
  -- message.
  abbrev pub list_sources : Options → List Source → Text × ℕ × Option Text
  list_sources options [] = ([], 0, none)
  list_sources options (source ∷ sources) =
      let (output, count, failure) = list_sources options sources in
      elim (source_selected compile options source) [
        | err message ↦ ([], 0, some message)
        | ok selected ↦
            if selected
            then (
              (if options.count then [] else emit_source format_double options.format source)
                  ++ output,
              add_u64 count 1,
              failure,
            )
            else (output, count, failure)
      ]

  abbrev pub all_sources : List Trace → List Source
  all_sources [] = []
  all_sources (trace ∷ traces) = discover_sources trace ++ all_sources traces

  unfoldable pub run_sources : Options → List Trace → Ran
  unfolding discover_sources source_selected emit_source emit_object
  run_sources options traces =
      let (output, count, failure) = list_sources options (all_sources traces) in
      elim failure [
        | some message ↦ record { output = output; diagnostics = []; failure = some message }
        | none ↦ wrote (
            output
            ++ (if options.count
                then emit_object format_double options.format
                    ((codes "count", Value.uint64 count) ∷ [])
                else []))
      ]

  abbrev emit_each : Options → (Trace → List (Text × Value)) → List Trace → Text
  emit_each options fields_of [] = []
  emit_each options fields_of (trace ∷ traces) =
      emit_object format_double options.format (fields_of trace)
      ++ emit_each options fields_of traces

  unfoldable pub run_range : Options → List Trace → Ran
  unfolding range_fields emit_object
  run_range options traces = wrote (emit_each options range_fields traces)

  unfoldable pub run_info : Options → List Trace → Ran
  unfolding info_fields emit_object
  run_info options traces =
      wrote
        (emit_each options (λ trace. info_fields options.detail (capture_of trace) trace) traces)

  -- It returns 0 where it does not throw.
  unfoldable pub run_command : Options → List Trace → Ran
  unfolding run_range run_info run_sources query_traces
  run_command options traces = elim options.command [
    | Command.check ↦ wrote []
    | Command.range ↦ run_range options traces
    | Command.info ↦ run_info options traces
    | Command.sources ↦ run_sources options traces
    | Command.query ↦ query_traces options traces
  ]
