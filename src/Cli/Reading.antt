-- ===== src/Cli/Reading.antt =====
-- The loop of `parse_cli` of src/cli.cpp over the arguments, and what it does with each of them.
use tracy_query.Prelude.{
  append_assoc, append-nil, map, ◌≡◌, refl, ap, ◌∙◌, Bool, true, false, ◌&&◌, ◌||◌, not, Option,
  none, some, List, [], ◌∷◌, ◌++◌, ◌==◌, if◌then◌else◌, Result, ok, err, ◌>>=◌, or_fail, Text,
  codes, text_eq,
}
use tracy_query.Model.{Command, TraceInput}
use tracy_query.Query.Matcher.{one_of}
use tracy_query.Cli.{Arguments, parse_command, parse_u64, parse_u32, split, parse_zone_depth}
use tracy_query.Cli.Values.{
  no_arguments, split_first, query_option, set_flag, add_kinds, set_time, parse_filter, parse_label,
  set_text, parse_format, parse_detail, parse_range_match, value_names,
}

-- What an option does with its value; the name is one of those that take one.
unfoldable pub set_value : Text → Text → Arguments → Result Arguments
unfolding text_eq split add_kinds set_time parse_u64 parse_u32 parse_filter parse_label
    parse_zone_depth set_text parse_format parse_detail parse_range_match
set_value name value a =
    let o = a.options in
    if text_eq name (codes "--format")
    then (parse_format value >>= λ format. ok (record a { options = record o { format = format } }))
    else if text_eq name (codes "--detail")
    then (parse_detail value >>= λ detail. ok (record a { options = record o { detail = detail } }))
    else if text_eq name (codes "--trace-label")
    then (parse_label value >>= λ label. ok (record a { labels = a.labels ++ (label ∷ []) }))
    else if text_eq name (codes "--kind")
    then (add_kinds (split b',' value) o >>= λ options. ok (query_option options a))
    else if one_of name (codes "--from" ∷ codes "--to" ∷ codes "--at" ∷ [])
    then (set_time name value o.time >>= λ time. ok (query_option (record o { time = time }) a))
    else if text_eq name (codes "--range-match")
    then (parse_range_match value >>= λ mode.
        ok (query_option (record o { time = record o.time { range_match = mode } }) a))
    else if text_eq name (codes "--limit")
    then (or_fail (parse_u64 value) (codes "invalid --limit value") >>= λ limit.
        ok (query_option (record o { limit = some limit }) a))
    else if text_eq name (codes "--group-by")
    then (if one_of value (codes "trace" ∷ codes "kind" ∷ codes "source" ∷ [])
        then ok (query_option (record o { group_by = o.group_by ++ (value ∷ []) }) a)
        else err (codes "--group-by expects trace, kind, or source"))
    else if text_eq name (codes "--filter")
    then (parse_filter value >>= λ filter.
        ok (query_option (record o { filters = o.filters ++ (filter ∷ []) }) a))
    else if text_eq name (codes "--zone-depth")
    then (parse_zone_depth value >>= λ depth.
        ok (query_option (record o { zone_depth = some depth }) a))
    else if text_eq name (codes "--cpu")
    then (or_fail (parse_u32 value) (codes "invalid --cpu value") >>= λ cpu.
        ok (query_option (record o { cpus = o.cpus ++ (cpu ∷ []) }) a))
    else elim (set_text name value o) [
      | some options ↦ ok (query_option options a)
      | none ↦ err (codes "unknown option '" ++ (name ++ codes "'"))
    ]

-- The arguments read so far, whether `--` was one of them, and the option that waits for its value.
pub record Reading : Type 0 where
  pub arguments : Arguments
  pub positional_only : Bool
  pub waiting : Option Text

-- One argument: the loop goes on, or `parse_cli` returns.
pub data Step : Type 0 where
  goes_on : Reading → Step
  prints_help : Option Command → Step
  prints_version : Step
  fails : Text → Step

abbrev pub go_on : Bool → Arguments → Step
go_on positional_only a =
    goes_on (record { arguments = a; positional_only = positional_only; waiting = none })

abbrev pub go_on_or_fail : Bool → Result Arguments → Step
go_on_or_fail positional_only (ok a) = go_on positional_only a
go_on_or_fail positional_only (err message) = fails message

abbrev pub add_trace : Text → Arguments → Arguments
add_trace path a =
    let trace : TraceInput = record { path = path; label = path } in
    record a { options = record (a.options) { traces = a.options.traces ++ (trace ∷ []) } }

-- An argument that begins with two dashes.
unfoldable pub read_option : Text → Arguments → Step
unfolding split_first text_eq set_flag set_value
read_option argument a =
    let parts = split_first b'=' argument in
    let name : Text = elim parts [ none ↦ argument | some p ↦ p.0 ] in
    elim (set_flag name a) [
      | some b ↦ go_on false b
      | none ↦
          if not (one_of name value_names)
          then fails (codes "unknown option '" ++ (name ++ codes "'"))
          else elim parts [
            | some p ↦ go_on_or_fail false (set_value name p.1 a)
            | none ↦
                goes_on (record { arguments = a; positional_only = false; waiting = some name })
          ]
    ]

abbrev pub starts_with : Text → Text → Bool
starts_with [] t = true
starts_with (c ∷ cs) [] = false
starts_with (c ∷ cs) (x ∷ xs) = c == x && starts_with cs xs

abbrev pub is_path : Bool → Text → Bool
is_path positional_only argument = positional_only || not (starts_with (codes "-") argument)

-- An argument that is neither `--`, nor asks for help or the version.
unfoldable pub read_plain : Bool → Text → Arguments → Step
unfolding parse_command read_option
read_plain positional_only argument a =
    let command : Option Command =
      if not a.command_set && not positional_only then parse_command argument else none in
    elim command [
      | some c ↦
          go_on positional_only
            (record a { options = record (a.options) { command = c }; command_set = true })
      | none ↦
          if not a.command_set && is_path positional_only argument
          then go_on positional_only (
              add_trace argument (record a {
                options = record (a.options) { command = Command.check };
                command_set = true;
              }))
          else if not positional_only && starts_with (codes "--") argument
          then read_option argument a
          else if not a.command_set
          then fails (codes "unknown command '" ++ (argument ++ codes "'"))
          else go_on positional_only (add_trace argument a)
    ]

unfoldable pub read_argument : Text → Reading → Step
unfolding text_eq set_value read_plain
read_argument argument r =
    let a = r.arguments in
    elim r.waiting [
      | some name ↦ go_on_or_fail r.positional_only (set_value name argument a)
      | none ↦
          if not r.positional_only && text_eq argument (codes "--")
          then go_on true a
          else if not r.positional_only && one_of argument (codes "-h" ∷ codes "--help" ∷ [])
          then prints_help (if a.command_set then some a.options.command else none)
          else if not r.positional_only && text_eq argument (codes "--version")
          then prints_version
          else read_plain r.positional_only argument a
    ]

-- The loop, up to the first argument that makes `parse_cli` return. An option that still waits at
-- the end has no value.
unfoldable pub read_arguments : List Text → Reading → Step
unfolding read_argument
read_arguments [] r = elim r.waiting [
  | none ↦ goes_on r
  | some name ↦ fails (codes "option '" ++ (name ++ codes "' requires a value"))
]
read_arguments (argument ∷ rest) r = elim (read_argument argument r) [
  | goes_on next ↦ read_arguments rest next
  | prints_help command ↦ prints_help command
  | prints_version ↦ prints_version
  | fails message ↦ fails message
]

abbrev pub new_reading : Reading
new_reading = record { arguments = no_arguments; positional_only = false; waiting = none }

abbrev pub after_dashes : Arguments → Reading
after_dashes a = record { arguments = a; positional_only = true; waiting = none }

read_argument-after_dashes :
    (path : Text) (a : Arguments)
    → a.command_set ≡ true
    → read_argument path (after_dashes a) ≡ go_on true (add_trace path a)
unfolding read_argument read_plain
read_argument-after_dashes path a h =
    ap
      (λ s. elim (if not s && false then parse_command path else none) [
        | some c ↦
            go_on true
              (record a { options = record (a.options) { command = c }; command_set = true })
        | none ↦
            if not s && true
            then go_on true (
                add_trace path (record a {
                  options = record (a.options) { command = Command.check };
                  command_set = true;
                }))
            else if not s
            then fails (codes "unknown command '" ++ (path ++ codes "'"))
            else go_on true (add_trace path a)
      ])
      h

-- The arguments read, with more input traces.
abbrev with_traces : List TraceInput → Arguments → Arguments
with_traces traces a = record a { options = record (a.options) { traces = traces } }

-- The trace of a path, which is its label until `--label` gives another.
abbrev pub trace_at : Text → TraceInput
trace_at path = record { path = path; label = path }

after_dashes-paths :
    (paths : List Text) (a : Arguments)
    → a.command_set ≡ true
    → read_arguments paths (after_dashes a)
      ≡ goes_on (after_dashes (with_traces (a.options.traces ++ map trace_at paths) a))
unfolding read_arguments
after_dashes-paths [] a h = rw append-nil refl
after_dashes-paths (path ∷ paths) a h =
    ap
      (λ step. elim step [
        | goes_on next ↦ read_arguments paths next
        | prints_help command ↦ prints_help command
        | prints_version ↦ prints_version
        | fails message ↦ fails message
      ])
      (read_argument-after_dashes path a h)
    ∙ after_dashes-paths paths (add_trace path a) h
    ∙ ap (λ traces. goes_on (after_dashes (with_traces traces a)))
        (append_assoc a.options.traces (trace_at path ∷ []) (map trace_at paths))

-- Once the command is known and no option waits for its value, `--` itself gives no trace, and
-- every argument after it is the path of an input trace, also one that looks like an option: these
-- are added in order, and nothing else changes.
pub read_arguments-after_dashes :
    (paths : List Text) (a : Arguments)
    → a.command_set ≡ true
    → read_arguments
        (codes "--" ∷ paths)
        (record { arguments = a; positional_only = false; waiting = none })
      ≡ goes_on (after_dashes (with_traces (a.options.traces ++ map trace_at paths) a))
unfolding read_arguments read_argument text_eq
read_arguments-after_dashes paths a h = after_dashes-paths paths a h
