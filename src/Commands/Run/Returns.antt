-- ===== src/Commands/Run/Returns.antt =====
-- The commands that `parse_cli` accepts end without an exception.
use tracy_query.Prelude.{
  ℕ, ◌≡◌, refl, Bool, true, false, Option, none, some, List, [], ◌∷◌, map, arith, Result, ok, Text,
  codes, all, ◌≢◌, &&-split,
}
use tracy_query.Model.{Kind, Command, Value, Options, Record}
use tracy_query.Query.Matcher.{Search, Matcher, find_field, new_matcher}
use tracy_query.Query.Matcher.Total.{IsDepth, matches-total}
use tracy_query.Cli.{Arguments, validate}
use tracy_query.Cli.Accept.{validate-new_matcher}
use tracy_query.Visit.Worker.{Trace}
use tracy_query.Visit.Kinds.{visit_kind}
use tracy_query.Visit.Lists.{all_append}
use tracy_query.Visit.Depths.{has_number_depth, visit_kind-has_number_depth}
use tracy_query.Commands.Info.{Capture}
use tracy_query.Commands.Run.{
  run_range, run_info, answers, expand_callstacks, expand_symbols, visit_kinds, visit_trace,
  query_traces, run_command,
}

has_number_depth-IsDepth :
    (r : Record) → has_number_depth r ≡ true → IsDepth (find_field (codes "depth") r.fields)
has_number_depth-IsDepth r h = go (find_field (codes "depth") r.fields) h
  where
    go :
        (o : Option Value)
        → (elim o as (λ _. Bool) [
          | none ↦ true
          | some value ↦ elim value [
            | Value.null ↦ false
            | Value.boolean b ↦ false
            | Value.int64 i ↦ false
            | Value.uint64 n ↦ true
            | Value.double x ↦ false
            | Value.string t ↦ false
          ]
        ])
          ≡ true
        → IsDepth o
    go none k = tt
    go (some Value.null) k = absurd (ground arith)
    go (some (Value.boolean b)) k = absurd (ground arith)
    go (some (Value.int64 i)) k = absurd (ground arith)
    go (some (Value.uint64 n)) k = (n, refl)
    go (some (Value.double x)) k = absurd (ground arith)
    go (some (Value.string t)) k = absurd (ground arith)

visit_kinds-deep :
    (options : Options) (trace : Trace) (kinds : List Kind)
    → all has_number_depth (visit_kinds options trace kinds) ≡ true
visit_kinds-deep options trace [] = refl
visit_kinds-deep options trace (kind ∷ kinds) =
    all_append has_number_depth
      (visit_kind (expand_callstacks options) (expand_symbols options) trace kind)
      (visit_kinds options trace kinds)
      (visit_kind-has_number_depth (expand_callstacks options) (expand_symbols options) trace kind)
      (visit_kinds-deep options trace kinds)

module _ (format_double format_float : ℕ → Text) (compile : Bool → Text → Result Search)
    (capture_of : Trace → Capture) where
  all-answers :
      (m : Matcher) (options : Options) (rs : List Record)
      → all has_number_depth rs ≡ true
      → all (answers format_double format_float compile capture_of m options) rs ≡ true
  all-answers m options [] h = refl
  all-answers m options (r ∷ rs) h =
      let both = &&-split (has_number_depth r) (all has_number_depth rs) h in
      let (b, e) = matches-total format_float m options r (has_number_depth-IsDepth r both.0) in
      ground (arith, e, all-answers m options rs both.1)

  visits-answered :
      (m : Matcher) (options : Options) (traces : List Trace)
      → all
          (λ visit. all (answers format_double format_float compile capture_of m options) visit.1)
          (map (visit_trace options) traces)
        ≡ true
  unfolding visit_trace
  visits-answered m options [] = refl
  visits-answered m options (trace ∷ traces) = ground (
    arith,
    all-answers m options (visit_kinds options trace options.kinds)
        (visit_kinds-deep options trace options.kinds),
    visits-answered m options traces,
  )

  query_traces-returns :
      (options : Options) (traces : List Trace) (m : Matcher)
      → new_matcher compile options ≡ ok m
      → (query_traces format_double format_float compile capture_of options traces).failure ≡ none
  unfolding query_traces
  query_traces-returns options traces m e = ground (arith, visits-answered m options traces)

  -- A command other than `sources` whose options come from arguments that `parse_cli` accepts
  -- throws no exception, whatever the traces hold.
  pub run_command-returns :
      (arguments : Arguments) (options : Options) (traces : List Trace)
      → validate compile arguments ≡ ok options
      → options.command ≢ Command.sources
      → (run_command format_double format_float compile capture_of options traces).failure ≡ none
  unfolding run_command run_range run_info
  run_command-returns arguments options traces h ne = go options.command refl
    where
      go :
          (c : Command)
          → options.command ≡ c
          → (run_command format_double format_float compile capture_of options traces).failure
            ≡ none
      go Command.check e = ground (arith, e)
      go Command.range e = ground (arith, e)
      go Command.info e = ground (arith, e)
      go Command.sources e = absurd (ne e)
      go Command.query e =
          let (m, k) = validate-new_matcher compile arguments options h e in
          ground (arith, e, query_traces-returns options traces m k)
