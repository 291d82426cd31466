-- ===== src/Commands/Select.antt =====
-- `source_selected` of src/commands.cpp: the sources that the options keep. The regular expressions
-- of the standard library are an argument: `compile` answers with a search, or with the message of
-- its exception.
pub mod Narrow
use tracy_query.Prelude.{
  ℕ, Bool, true, false, ◌&&◌, ◌||◌, not, Option, none, some, List, [], ◌∷◌, ◌++◌, if◌then◌else◌,
  Result, ok, err, ◌>>=◌, Text, codes, text_eq, is_empty, any,
}
use tracy_query.Prelude.Decimal.{to_string}
use tracy_query.Model.{Kind, kind_eq, RegexFilter, Options, Source}
use tracy_query.Query.Matcher.{Search}

abbrev has_kind_of : List Kind → Kind → Bool
has_kind_of kinds kind = any (λ k. kind_eq k kind) kinds

abbrev has_text : List Text → Text → Bool
has_text texts t = any (λ u. text_eq u t) texts

unfoldable pub selected_kind : Options → Source → Bool
selected_kind options source =
    is_empty options.kinds || any (has_kind_of options.kinds) source.kinds

-- One test after the other; the first that fails or throws ends them.
infixr 4 ◌andalso◌
abbrev pub ◌andalso◌ : Result Bool → Result Bool → Result Bool
err message andalso next = err message
ok passes andalso next = if passes then next else ok false

infixr 4 ◌orelse◌
abbrev pub ◌orelse◌ : Result Bool → Result Bool → Result Bool
err message orelse next = err message
ok passes orelse next = if passes then ok true else next

module _ (compile : Bool → Text → Result Search) where
  abbrev search_pattern : Bool → Text → Text → Result Bool
  search_pattern ignore_case value pattern = elim (compile ignore_case pattern) [
    | ok search ↦ ok (search value)
    | err what ↦ err (codes "invalid regular expression '" ++ (pattern ++ (codes "': " ++ what)))
  ]

  abbrev pub search_patterns : Bool → Text → List Text → Result Bool
  search_patterns ignore_case value [] = ok false
  search_patterns ignore_case value (pattern ∷ patterns) =
      search_pattern ignore_case value pattern orelse search_patterns ignore_case value patterns

  unfoldable pub matches_any : Text → List Text → Bool → Result Bool
  matches_any value patterns ignore_case =
      if is_empty patterns then ok true else search_patterns ignore_case value patterns

  unfoldable pub matches_either : Text → Text → List Text → Bool → Result Bool
  unfolding matches_any
  matches_either first second patterns ignore_case =
      if is_empty patterns
      then ok true
      else matches_any first patterns ignore_case orelse matches_any second patterns ignore_case

  -- A selector that is given asks for a type of source and for a match.
  abbrev pub selector : List Text → Bool → Result Bool → Result Bool
  selector patterns of_type matched =
      if is_empty patterns then ok true else if of_type then matched else ok false

  abbrev pub is_type : Source → Text → Bool
  is_type source name = text_eq source.source_type name

  abbrev pub cpu_selected : List ℕ → Source → Bool
  cpu_selected cpus source =
      is_empty cpus
      || (is_type source (codes "cpu")
          && any (λ cpu. text_eq source.id (codes "cpu:" ++ to_string cpu)) cpus)

  -- What a filter tests of a source; none for a filter that does not apply to it.
  abbrev pub filtered_value : RegexFilter → Source → Option Text
  filtered_value filter source =
      if elim filter.kind [ none ↦ false | some kind ↦ not (has_kind_of source.kinds kind) ]
      then none
      else if text_eq filter.field (codes "name")
      then some source.name
      else if text_eq filter.field (codes "source")
      then some source.id
      else if text_eq filter.field (codes "source_type")
      then some source.source_type
      else none

  abbrev pub passes_filter : Bool → Source → RegexFilter → Result Bool
  passes_filter ignore_case source filter = elim (filtered_value filter source) [
    | none ↦ ok true
    | some value ↦ matches_any value (filter.pattern ∷ []) ignore_case
  ]

  abbrev pub passes_filters : Bool → Source → List RegexFilter → Result Bool
  passes_filters ignore_case source [] = ok true
  passes_filters ignore_case source (filter ∷ filters) =
      passes_filter ignore_case source filter andalso passes_filters ignore_case source filters

  abbrev pub in_scope : Options → Source → Result Bool
  in_scope options source =
      let i = options.ignore_case in
      selector options.threads
        (is_type source (codes "thread") || is_type source (codes "gpu-thread"))
        (matches_either source.id source.name options.threads i)
      andalso selector options.gpu_contexts (is_type source (codes "gpu-thread"))
          (matches_either source.id source.name options.gpu_contexts i)
      andalso selector options.plots (is_type source (codes "plot"))
          (matches_any source.name options.plots i)
      andalso selector options.frame_sets (is_type source (codes "frame-set"))
          (matches_any source.name options.frame_sets i)
      andalso selector options.locks (is_type source (codes "lock"))
          (matches_either source.id source.name options.locks i)
      andalso selector options.memory_pools (is_type source (codes "memory-pool"))
          (matches_either source.id source.name options.memory_pools i)
      andalso ok (cpu_selected options.cpus source)

  unfoldable pub source_selected : Options → Source → Result Bool
  unfolding selected_kind matches_any matches_either text_eq to_string
  source_selected options source =
      ok (selected_kind options source)
      andalso ok (is_empty options.source_ids || has_text options.source_ids source.id)
      andalso matches_any source.id options.source_regexes options.ignore_case
      andalso ok (is_empty options.source_types || has_text options.source_types source.source_type)
      andalso in_scope options source
      andalso passes_filters options.ignore_case source options.filters
