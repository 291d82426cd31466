-- ===== src/Cli/Values.antt =====
-- The loop of `parse_cli` of src/cli.cpp over the arguments. An option that is waiting for its value
-- is kept until the next argument.
use tracy_query.Prelude.{
  ℕ, true, false, ◌||◌, Option, none, some, List, [], ◌∷◌, ◌++◌, ◌==◌, if◌then◌else◌, Result, ok,
  err, ◌>>=◌, Text, codes, text_eq, is_empty,
}
use tracy_query.Prelude.Int.{pos}
use tracy_query.Model.{
  Command, Kind, OutputFormat, Detail, RangeMatch, TimeSelection, Options, RegexFilter, parse_kind,
}
use tracy_query.Time.{Special, ParsedTime, parse_time, int64_max}
use tracy_query.Cli.{Arguments, has_kind}

-- The text before the first such byte, and after it.
unfoldable pub split_first : ℕ → Text → Option (Text × Text)
split_first c [] = none
split_first c (x ∷ xs) =
    let rest = split_first c xs in
    if x == c
    then some ([], xs)
    else elim rest [ none ↦ none | some parts ↦ some (x ∷ parts.0, parts.1) ]

abbrev pub default_time : TimeSelection
default_time = record {
  from_ns = none;
  to_ns = none;
  at_ns = none;
  from_start = false;
  to_end = false;
  latest = false;
  next = false;
  active = false;
  range_match = RangeMatch.overlap;
}

abbrev pub default_options : Options
default_options = record {
  command = Command.check;
  format = OutputFormat.json_lines;
  detail = Detail.basic;
  quiet = false;
  ignore_case = false;
  count = false;
  all_kinds = false;
  root_zones = false;
  limit = none;
  zone_depth = none;
  zone_parent = none;
  zone_ancestor = none;
  stack_frame = none;
  kinds = [];
  traces = [];
  group_by = [];
  source_ids = [];
  source_regexes = [];
  source_types = [];
  threads = [];
  gpu_contexts = [];
  plots = [];
  frame_sets = [];
  locks = [];
  memory_pools = [];
  cpus = [];
  filters = [];
  time = default_time;
}

abbrev pub no_arguments : Arguments
no_arguments = record {
  options = default_options;
  command_set = false;
  query_option_seen = false;
  labels = [];
}

-- `options... = ...; query_option_seen = true;`
abbrev pub query_option : Options → Arguments → Arguments
query_option options a = record a { options = options; query_option_seen = true }

-- The options without a value.
unfoldable pub set_flag : Text → Arguments → Option Arguments
unfolding text_eq
set_flag name a =
    let o = a.options in
    if text_eq name (codes "--quiet")
    then some (record a { options = record o { quiet = true } })
    else if text_eq name (codes "--ignore-case")
    then some (query_option (record o { ignore_case = true }) a)
    else if text_eq name (codes "--count")
    then some (query_option (record o { count = true }) a)
    else if text_eq name (codes "--latest")
    then some (query_option (record o { time = record o.time { latest = true } }) a)
    else if text_eq name (codes "--next")
    then some (query_option (record o { time = record o.time { next = true } }) a)
    else if text_eq name (codes "--active")
    then some (query_option (record o { time = record o.time { active = true } }) a)
    else if text_eq name (codes "--root-zones")
    then some (query_option (record o { root_zones = true }) a)
    else none

-- The kinds of `--kind`, each once.
unfoldable pub add_kinds : List Text → Options → Result Options
unfolding text_eq parse_kind has_kind
add_kinds [] o = ok o
add_kinds (item ∷ items) o =
    if text_eq item (codes "all")
    then add_kinds items (record o { all_kinds = true })
    else elim (parse_kind item) [
      | none ↦ err (codes "unknown data kind '" ++ (item ++ codes "'"))
      | some kind ↦
          add_kinds items
            (if has_kind o.kinds kind then o else record o { kinds = o.kinds ++ (kind ∷ []) })
    ]

unfoldable pub set_from : ParsedTime → TimeSelection → TimeSelection
set_from parsed time = elim parsed.special [
  | Special.end ↦ record time { from_ns = some (pos int64_max) }
  | Special.start ↦ record time { from_start = true }
  | Special.number ↦ record time { from_ns = some (pos parsed.nanoseconds) }
]

unfoldable pub set_to : ParsedTime → TimeSelection → TimeSelection
set_to parsed time = elim parsed.special [
  | Special.end ↦ record time { to_end = true }
  | Special.start ↦ record time { to_ns = some (pos 0) }
  | Special.number ↦ record time { to_ns = some (pos parsed.nanoseconds) }
]

unfoldable pub set_at : ParsedTime → TimeSelection → Result TimeSelection
set_at parsed time = elim parsed.special [
  | Special.number ↦ ok (record time { at_ns = some (pos parsed.nanoseconds) })
  | _ ↦ err (codes "--at requires a numeric relative time")
]

unfoldable pub parse_filter : Text → Result RegexFilter
unfolding split_first parse_kind
parse_filter value =
    let expected = codes "filter must have FIELD=REGEX form" in
    let filter_of : Option Kind → Text → Text → Result RegexFilter = λ kind field pattern.
      if is_empty field
      then err (codes "filter field is empty")
      else ok (record { kind = kind; field = field; pattern = pattern }) in
    elim (split_first b'=' value) [
      | none ↦ err expected
      | some parts ↦ if is_empty parts.0 then err expected else elim (split_first b'.' parts.0) [
        | none ↦ filter_of none parts.0 parts.1
        | some scoped ↦ elim (parse_kind scoped.0) [
          | none ↦ err (codes "unknown filter kind '" ++ (scoped.0 ++ codes "'"))
          | some kind ↦ filter_of (some kind) scoped.1 parts.1
        ]
      ]
    ]

unfoldable pub parse_label : Text → Result (Text × Text)
unfolding split_first
parse_label value =
    let expected = codes "trace label must have PATH=LABEL form" in
    elim (split_first b'=' value) [
      | none ↦ err expected
      | some parts ↦ if is_empty parts.0 || is_empty parts.1 then err expected else ok parts
    ]

-- The options whose value is one more text of a list, and those whose value is a pattern.
unfoldable pub set_text : Text → Text → Options → Option Options
unfolding text_eq
set_text name value o =
    let one = value ∷ [] in
    if text_eq name (codes "--source")
    then some (record o { source_ids = o.source_ids ++ one })
    else if text_eq name (codes "--source-regex")
    then some (record o { source_regexes = o.source_regexes ++ one })
    else if text_eq name (codes "--source-type")
    then some (record o { source_types = o.source_types ++ one })
    else if text_eq name (codes "--thread")
    then some (record o { threads = o.threads ++ one })
    else if text_eq name (codes "--gpu-context")
    then some (record o { gpu_contexts = o.gpu_contexts ++ one })
    else if text_eq name (codes "--plot")
    then some (record o { plots = o.plots ++ one })
    else if text_eq name (codes "--frame-set")
    then some (record o { frame_sets = o.frame_sets ++ one })
    else if text_eq name (codes "--lock")
    then some (record o { locks = o.locks ++ one })
    else if text_eq name (codes "--memory-pool")
    then some (record o { memory_pools = o.memory_pools ++ one })
    else if text_eq name (codes "--zone-parent")
    then some (record o { zone_parent = some value })
    else if text_eq name (codes "--zone-ancestor")
    then some (record o { zone_ancestor = some value })
    else if text_eq name (codes "--stack-frame")
    then some (record o { stack_frame = some value })
    else none

unfoldable pub parse_format : Text → Result OutputFormat
unfolding text_eq
parse_format value =
    if text_eq value (codes "jsonl")
    then ok OutputFormat.json_lines
    else if text_eq value (codes "text")
    then ok OutputFormat.text
    else err (codes "unknown format '" ++ (value ++ codes "'"))

unfoldable pub parse_detail : Text → Result Detail
unfolding text_eq
parse_detail value =
    if text_eq value (codes "basic")
    then ok Detail.basic
    else if text_eq value (codes "full")
    then ok Detail.full
    else err (codes "unknown detail level '" ++ (value ++ codes "'"))

unfoldable pub parse_range_match : Text → Result RangeMatch
unfolding text_eq
parse_range_match value =
    if text_eq value (codes "overlap")
    then ok RangeMatch.overlap
    else if text_eq value (codes "start")
    then ok RangeMatch.start
    else if text_eq value (codes "contained")
    then ok RangeMatch.contained
    else err (codes "unknown range match mode '" ++ (value ++ codes "'"))

unfoldable pub parse_time_of : Text → Text → Result ParsedTime
unfolding parse_time
parse_time_of name value = elim (parse_time value) [
  | ok parsed ↦ ok parsed
  | err message ↦ err (codes "invalid value for " ++ (name ++ (codes ": " ++ message)))
]

-- The options whose value is a time.
unfoldable pub set_time : Text → Text → TimeSelection → Result TimeSelection
unfolding text_eq parse_time_of set_from set_to set_at
set_time name value time = parse_time_of name value >>= λ parsed.
    if text_eq name (codes "--from")
    then ok (set_from parsed time)
    else if text_eq name (codes "--to")
    then ok (set_to parsed time)
    else set_at parsed time

abbrev pub value_names : List Text
value_names =
    codes "--format"
    ∷ codes "--detail"
    ∷ codes "--trace-label"
    ∷ codes "--kind"
    ∷ codes "--from"
    ∷ codes "--to"
    ∷ codes "--at"
    ∷ codes "--range-match"
    ∷ codes "--limit"
    ∷ codes "--group-by"
    ∷ codes "--filter"
    ∷ codes "--zone-depth"
    ∷ codes "--source"
    ∷ codes "--source-regex"
    ∷ codes "--source-type"
    ∷ codes "--thread"
    ∷ codes "--gpu-context"
    ∷ codes "--plot"
    ∷ codes "--frame-set"
    ∷ codes "--lock"
    ∷ codes "--memory-pool"
    ∷ codes "--zone-parent"
    ∷ codes "--zone-ancestor"
    ∷ codes "--stack-frame"
    ∷ codes "--cpu"
    ∷ []
