-- ===== src/Cli.antt =====
-- src/cli.cpp: the functions for the texts of arguments, and `parse_cli` after its loop.
pub mod Split
pub mod Accept
pub mod Values
pub mod Reading
use tracy_query.Prelude.{
  ℕ, ◌+◌, ◌-◌, ◌^◌, Bool, true, false, ◌&&◌, ◌||◌, not, Option, none, some, List, [], ◌∷◌, ◌++◌,
  leb, ◌==◌, if◌then◌else◌, Result, ok, err, ◌>>=◌, ◌>>◌, Text, codes, text_eq, is_empty, any,
}
use tracy_query.Prelude.Int.{ℤ, ltb_ℤ}
use tracy_query.Prelude.Decimal.{from_chars}
use tracy_query.Model.{Kind, Command, kind_eq, all_kinds, RegexFilter, Options, TraceInput}
use tracy_query.Query.Matcher.{
  Search, ◌or_else◌, one_of, given, compile_pattern, fields_error, zone_error, active_error,
}

unfoldable pub parse_command : Text → Option Command
unfolding text_eq
parse_command t =
    if text_eq t (codes "check")
    then some Command.check
    else if text_eq t (codes "range")
    then some Command.range
    else if text_eq t (codes "info")
    then some Command.info
    else if text_eq t (codes "sources")
    then some Command.sources
    else if text_eq t (codes "query")
    then some Command.query
    else none

abbrev pub command_name : Command → Text
command_name Command.check = codes "check"
command_name Command.range = codes "range"
command_name Command.info = codes "info"
command_name Command.sources = codes "sources"
command_name Command.query = codes "query"

-- The whole text is a decimal number that fits.
unfoldable pub parse_u64 : Text → Option ℕ
unfolding from_chars
parse_u64 t = elim (from_chars t) [
  | none ↦ none
  | some read ↦ if is_empty read.1 then some read.0 else none
]

unfoldable pub parse_u32 : Text → Option ℕ
unfolding parse_u64
parse_u32 t = elim (parse_u64 t) [
  | none ↦ none
  | some n ↦ if leb n (2 ^ 32 - 1) then some n else none
]

abbrev pub before_first : ℕ → List Text → List Text
before_first c [] = (c ∷ []) ∷ []
before_first c (part ∷ parts) = (c ∷ part) ∷ parts

-- The parts of the text between the delimiters.
unfoldable pub split : ℕ → Text → List Text
split delimiter [] = [] ∷ []
split delimiter (c ∷ cs) =
    let parts = split delimiter cs in if c == delimiter then [] ∷ parts else before_first c parts

unfoldable pub has_kind : List Kind → Kind → Bool
has_kind kinds kind = any (λ k. kind_eq k kind) kinds

-- The value of `--zone-depth`: N, or MIN:MAX.
unfoldable pub parse_zone_depth : Text → Result (ℕ × ℕ)
unfolding split parse_u32
parse_zone_depth value = elim (split b':' value) [
  | a ∷ [] ↦ elim (parse_u32 a) [
    | none ↦ err (codes "invalid --zone-depth value")
    | some minimum ↦ ok (minimum, minimum)
  ]
  | a ∷ b ∷ [] ↦ elim (parse_u32 a) [
    | none ↦ err (codes "--zone-depth expects N or MIN:MAX")
    | some minimum ↦ elim (parse_u32 b) [
      | none ↦ err (codes "--zone-depth expects N or MIN:MAX")
      | some maximum ↦
          if leb minimum maximum
          then ok (minimum, maximum)
          else err (codes "--zone-depth expects N or MIN:MAX")
    ]
  ]
  | _ ↦ err (codes "--zone-depth expects N or MIN:MAX")
]

-- A label for each input trace with the path; not found if there is none.
unfoldable pub apply_label : Text → Text → List TraceInput → List TraceInput × Bool
unfolding text_eq
apply_label path label [] = ([], false)
apply_label path label (t ∷ ts) =
    let rest = apply_label path label ts in
    if text_eq t.path path
    then (record { path = t.path; label = label } ∷ rest.0, true)
    else (t ∷ rest.0, rest.1)

unfoldable pub apply_labels : List (Text × Text) → List TraceInput → Result (List TraceInput)
unfolding apply_label
apply_labels [] traces = ok traces
apply_labels ((path, label) ∷ labels) traces =
    let applied = apply_label path label traces in
    let rest = apply_labels labels applied.0 in
    if applied.1 then rest else err (codes "--trace-label path is not an input trace: " ++ path)

abbrev pub first_error : List (Option Text) → Option Text
first_error [] = none
first_error (e ∷ es) = e or_else first_error es

abbrev pub error_if : Bool → Text → Option Text
error_if true message = some message
error_if false message = none

abbrev pub not_later : Option ℤ → Option ℤ → Bool
not_later (some from) (some to) = not (ltb_ℤ to from)
not_later _ _ = true

-- The checks of the command query.
unfoldable pub query_checks : Options → List (Option Text)
unfolding active_error zone_error fields_error
query_checks options =
    let time = options.time in
    let range = given time.from_ns || (given time.to_ns || (time.from_start || time.to_end)) in
    let point = time.latest || (time.next || time.active) in
    error_if (is_empty options.kinds) (codes "query requires at least one --kind")
    ∷ error_if (given time.at_ns && range) (codes "--at cannot be combined with --from or --to")
    ∷ error_if (given time.at_ns && not point) (codes "--at requires --latest, --next, or --active")
    ∷ error_if (not (given time.at_ns) && point)
        (codes "--latest, --next, and --active require --at")
    ∷ error_if (not (not_later time.from_ns time.to_ns))
        (codes "--from must not be later than --to")
    ∷ active_error options
    ∷ zone_error options
    ∷ fields_error options.filters options.kinds
    ∷ []

unfoldable pub query_error : Options → Option Text
unfolding query_checks
query_error options = first_error (query_checks options)

unfoldable pub sources_error : List RegexFilter → Option Text
unfolding text_eq
sources_error [] = none
sources_error (f ∷ fs) =
    if one_of f.field (codes "name" ∷ codes "source" ∷ codes "source_type" ∷ [])
    then sources_error fs
    else some (codes "sources filters support only name, source, and source_type fields")

unfoldable pub command_error : Bool → Options → Option Text
unfolding query_error sources_error
command_error query_option_seen options = elim options.command [
  | Command.query ↦ query_error options
  | Command.sources ↦ sources_error options.filters
  | command ↦
      error_if query_option_seen
        (codes "query options are not valid for command '" ++ (command_name command ++ codes "'"))
]

abbrev pub optional_pattern : Option Text → List Text
optional_pattern none = []
optional_pattern (some p) = p ∷ []

abbrev pub filter_patterns : List RegexFilter → List Text
filter_patterns [] = []
filter_patterns (f ∷ fs) = f.pattern ∷ filter_patterns fs

unfoldable pub regexes : Options → List Text
regexes options =
    options.source_regexes
    ++ (options.threads
        ++ (options.gpu_contexts
            ++ (options.plots
                ++ (options.frame_sets
                    ++ (options.locks
                        ++ (options.memory_pools
                            ++ (filter_patterns options.filters
                                ++ (optional_pattern options.zone_parent
                                    ++ (optional_pattern options.zone_ancestor
                                        ++ optional_pattern options.stack_frame)))))))))

-- What the reading of the arguments leaves.
pub record Arguments : Type 0 where
  pub options : Options
  pub command_set : Bool
  pub query_option_seen : Bool
  pub labels : List (Text × Text)

abbrev pub with_traces : Options → List TraceInput → List Kind → Options
with_traces options traces kinds = record options { traces = traces; kinds = kinds }

module _ (compile : Bool → Text → Result Search) where
  -- The message of the first pattern that is refused.
  unfoldable pub regex_error : Bool → List Text → Option Text
  unfolding compile_pattern
  regex_error ignore_case [] = none
  regex_error ignore_case (p ∷ ps) = elim (compile_pattern compile ignore_case p) [
    | ok search ↦ regex_error ignore_case ps
    | err message ↦ some message
  ]

  unfoldable pub check_options : Arguments → List TraceInput → Result Options
  unfolding command_error regexes regex_error
  check_options arguments traces =
      let kinds = if arguments.options.all_kinds then all_kinds else arguments.options.kinds in
      let options = with_traces arguments.options traces kinds in
      elim (command_error arguments.query_option_seen options
        or_else regex_error options.ignore_case (regexes options)) [
          | some message ↦ err message
          | none ↦ ok options
        ]

  -- From the end of the loop on.
  unfoldable pub validate : Arguments → Result Options
  unfolding apply_labels check_options
  validate arguments =
      if not arguments.command_set
      then err (codes "missing command or trace file")
      else if is_empty arguments.options.traces
      then err (
          codes "command '"
          ++ (command_name arguments.options.command ++ codes "' requires at least one trace file"))
      else (apply_labels arguments.labels arguments.options.traces >>= λ traces.
          check_options arguments traces)
