-- ===== src/Tests/Arguments.antt =====
-- Arguments and the matcher: src/cli.cpp and `Matcher` of src/query.cpp, at concrete options.
use tracy_query.Prelude.{
  false, none, ◌≡◌, refl, Bool, true, none, some, [], ◌∷◌, if◌then◌else◌, Result, ok, err, Text,
  codes, text_eq,
}
use tracy_query.Model.{Options}
use tracy_query.Query.Matcher.{Search, Matcher, new_matcher}
use tracy_query.Cli.{Arguments, validate, split}
use tracy_query.Cli.Values.{no_arguments}
use tracy_query.Cli.Reading.{
  read_arguments, after_dashes, goes_on, trace_at, read_arguments-after_dashes,
}
use tracy_query.Cli.Accept.{validate-new_matcher}
use tracy_query.Tests.Records.{plain_query}

split_kinds : split b',' (codes "lock,,plot") ≡ codes "lock" ∷ [] ∷ codes "plot" ∷ []
unfolding split
split_kinds = refl

-- These tests search for the pattern as the whole text, and refuse the pattern of one bracket.
abbrev pub whole_text : Bool → Text → Result Search
unfolding text_eq
whole_text ignore_case pattern =
    if text_eq pattern (codes "(") then err (codes "unmatched") else ok (λ t. text_eq pattern t)

abbrev pub depth_query : Options
depth_query = record plain_query {
  zone_depth = some (0, 1);
  threads = codes "main" ∷ [];
  filters = record { kind = none; field = codes "source"; pattern = codes "thread:1" } ∷ [];
}

abbrev pub depth_arguments : Arguments
depth_arguments = record {
  options = depth_query;
  command_set = true;
  query_option_seen = true;
  labels = [];
}

validate-new_matcher_example : (m : Matcher) × (new_matcher whole_text depth_query ≡ ok m)
unfolding validate
validate-new_matcher_example = validate-new_matcher whole_text depth_arguments depth_query refl refl

abbrev no_patterns : Matcher
no_patterns = record {
  source_regexes = [];
  threads = [];
  gpu_contexts = [];
  plots = [];
  frame_sets = [];
  locks = [];
  memory_pools = [];
  zone_parent = none;
  zone_ancestor = none;
  stack_frame = none;
  filters = [];
}

abbrev with_command : Arguments
with_command = record no_arguments { command_set = true }

read_arguments-after_dashes_example :
    read_arguments
      (codes "--" ∷ codes "--count" ∷ codes "a" ∷ [])
      (record { arguments = with_command; positional_only = false; waiting = none })
    ≡ goes_on (
        after_dashes (record with_command {
          options = record (with_command.options) {
            traces = trace_at (codes "--count") ∷ trace_at (codes "a") ∷ [];
          };
        }))
read_arguments-after_dashes_example =
    read_arguments-after_dashes (codes "--count" ∷ codes "a" ∷ []) with_command refl
