-- ===== src/Query/Matcher.antt =====
-- `Matcher` and `field_string` of src/query.cpp: which records a query keeps. The regular
-- expressions of the standard library are an argument: `compile` answers with the search of a
-- pattern, or with the message of its exception; `format_float` is its text of a `double`.
pub mod Total
use tracy_query.Prelude.{
  ℕ, ◌+◌, ◌-◌, Bool, true, false, ◌&&◌, ◌||◌, not, Option, none, some, List, [], ◌∷◌, ◌++◌, leb,
  if◌then◌else◌, Result, ok, err, ◌>>=◌, ◌>>◌, Text, codes, text_eq, is_empty, any, all,
}
use tracy_query.Prelude.Decimal.{to_string, to_string_ℤ}
use tracy_query.Model.{Kind, kind_name, kind_eq, Value, Fields, RegexFilter, Options, Record}
use tracy_query.Adapter.{is_interval, source_type_of, filter_fields_of}

abbrev pub one_of : Text → List Text → Bool
unfolding text_eq
one_of t ts = any (λ u. text_eq u t) ts

unfoldable pub find_field : Text → Fields → Option Value
unfolding text_eq
find_field name [] = none
find_field name ((field, value) ∷ rest) =
    if text_eq field name then some value else find_field name rest

module _ (format_float : ℕ → Text) where
  -- The visitor of `field_string`.
  unfoldable pub value_string : Value → Text
  unfolding to_string to_string_ℤ
  value_string Value.null = []
  value_string (Value.boolean b) = if b then codes "true" else codes "false"
  value_string (Value.int64 i) = to_string_ℤ i
  value_string (Value.uint64 n) = to_string n
  value_string (Value.double d) = format_float d
  value_string (Value.string s) = s

  -- The first string among the fields named callstack.
  unfoldable pub callstack_string : Fields → Text
  unfolding text_eq
  callstack_string [] = []
  callstack_string ((field, Value.string s) ∷ rest) =
      if text_eq field (codes "callstack") then s else callstack_string rest
  callstack_string ((field, value) ∷ rest) = callstack_string rest

  unfoldable pub field_string : Record → Text → Text
  unfolding kind_name text_eq value_string callstack_string find_field
  field_string r name =
      if text_eq name (codes "trace")
      then r.trace
      else if text_eq name (codes "source")
      then r.source
      else if text_eq name (codes "kind")
      then kind_name r.kind
      else elim (find_field name r.fields) [
        | some value ↦ value_string value
        | none ↦
            if one_of name (codes "symbol" ∷ codes "function" ∷ codes "file" ∷ [])
            then callstack_string r.fields
            else []
      ]

-- The message of the first check that fails.
infix 40 ◌or_else◌
abbrev pub ◌or_else◌ : Option Text → Option Text → Option Text
none or_else second = second
some message or_else second = some message

unfoldable pub field_valid : RegexFilter → Kind → Bool
unfolding text_eq filter_fields_of
field_valid filter kind = one_of filter.field (filter_fields_of kind)

abbrev pub is_not_valid_for : Text → RegexFilter → Kind → Text
unfolding kind_name
is_not_valid_for prefix filter kind =
    prefix ++ (codes "field '" ++ (filter.field ++ (codes "' is not valid for " ++ kind_name kind)))

unfoldable pub unscoped_error : RegexFilter → List Kind → Option Text
unfolding field_valid
unscoped_error filter [] = none
unscoped_error filter (kind ∷ kinds) =
    if field_valid filter kind
    then unscoped_error filter kinds
    else some (is_not_valid_for (codes "unscoped ") filter kind)

unfoldable pub filter_error : RegexFilter → List Kind → Option Text
unfolding field_valid unscoped_error
filter_error filter kinds = elim filter.kind [
  | some kind ↦ if field_valid filter kind then none else some (is_not_valid_for [] filter kind)
  | none ↦ unscoped_error filter kinds
]

-- `validate_fields`, which throws the message.
unfoldable pub fields_error : List RegexFilter → List Kind → Option Text
unfolding filter_error
fields_error [] kinds = none
fields_error (filter ∷ filters) kinds = filter_error filter kinds or_else fields_error filters kinds

abbrev pub given {ℓ} : {A : Type ℓ} → Option A → Bool
given none = false
given (some a) = true

-- The kinds that the zone structure options admit.
unfoldable pub zone_kinds_error : Bool → List Kind → Option Text
zone_kinds_error names [] = none
zone_kinds_error names (kind ∷ kinds) =
    if not (kind_eq kind Kind.cpu_zone)
      && (not (kind_eq kind Kind.gpu_zone) && not (kind_eq kind Kind.ghost_zone))
    then some (codes "zone structure options require zone kinds")
    else if names && kind_eq kind Kind.ghost_zone
    then some (codes "parent-name and ancestor-name filters are not available for ghost zones")
    else zone_kinds_error names kinds

unfoldable pub zone_error : Options → Option Text
unfolding zone_kinds_error
zone_error options =
    if options.root_zones
      || (given options.zone_depth || (given options.zone_parent || given options.zone_ancestor))
    then zone_kinds_error (given options.zone_parent || given options.zone_ancestor) options.kinds
    else none

unfoldable pub active_kinds_error : List Kind → Option Text
unfolding is_interval kind_name
active_kinds_error [] = none
active_kinds_error (kind ∷ kinds) =
    if is_interval kind
    then active_kinds_error kinds
    else some (codes "--active is not valid for point kind " ++ kind_name kind)

unfoldable pub active_error : Options → Option Text
unfolding active_kinds_error
active_error options = if options.time.active then active_kinds_error options.kinds else none

abbrev pub Search : Type 0
Search = Text → Bool

pub record Matcher : Type 0 where
  pub source_regexes : List Search
  pub threads : List Search
  pub gpu_contexts : List Search
  pub plots : List Search
  pub frame_sets : List Search
  pub locks : List Search
  pub memory_pools : List Search
  pub zone_parent : Option Search
  pub zone_ancestor : Option Search
  pub stack_frame : Option Search
  pub filters : List (Option Kind × Text × Search)

-- A failed check throws its message.
abbrev pub throw_if : Option Text → Result (List ℕ)
throw_if none = ok []
throw_if (some message) = err message

module _ (compile : Bool → Text → Result Search) where
  -- Compiled as the constructor and `parse_cli` do, with a message of their own.
  unfoldable pub compile_pattern : Bool → Text → Result Search
  compile_pattern ignore_case pattern = elim (compile ignore_case pattern) [
    | ok search ↦ ok search
    | err what ↦ err (codes "invalid regular expression '" ++ (pattern ++ (codes "': " ++ what)))
  ]

  unfoldable pub compile_all : Bool → List Text → Result (List Search)
  unfolding compile_pattern
  compile_all ignore_case [] = ok []
  compile_all ignore_case (p ∷ ps) = compile_pattern ignore_case p >>= λ search.
      compile_all ignore_case ps >>= λ rest. ok (search ∷ rest)

  -- The exception of these is not caught.
  unfoldable pub compile_optional : Bool → Option Text → Result (Option Search)
  compile_optional ignore_case none = ok none
  compile_optional ignore_case (some p) = compile ignore_case p >>= λ search. ok (some search)

  unfoldable pub compile_filters :
      Bool → List RegexFilter → Result (List (Option Kind × Text × Search))
  unfolding compile_pattern
  compile_filters ignore_case [] = ok []
  compile_filters ignore_case (f ∷ fs) = compile_pattern ignore_case f.pattern >>= λ search.
      compile_filters ignore_case fs >>= λ rest. ok ((f.kind, f.field, search) ∷ rest)

  -- The constructor.
  unfoldable pub new_matcher : Options → Result Matcher
  unfolding compile_all compile_optional compile_filters fields_error zone_error active_error
  new_matcher options =
      let ignore_case = options.ignore_case in
      compile_all ignore_case options.source_regexes >>= λ source_regexes.
      compile_all ignore_case options.threads >>= λ threads.
      compile_all ignore_case options.gpu_contexts >>= λ gpu_contexts.
      compile_all ignore_case options.plots >>= λ plots.
      compile_all ignore_case options.frame_sets >>= λ frame_sets.
      compile_all ignore_case options.locks >>= λ locks.
      compile_all ignore_case options.memory_pools >>= λ memory_pools.
      compile_optional ignore_case options.zone_parent >>= λ zone_parent.
      compile_optional ignore_case options.zone_ancestor >>= λ zone_ancestor.
      compile_optional ignore_case options.stack_frame >>= λ stack_frame.
      compile_filters ignore_case options.filters >>= λ filters.
      throw_if (fields_error options.filters options.kinds) >>= λ _.
      throw_if (zone_error options) >>= λ _. throw_if (active_error options) >>= λ _. ok (record {
        source_regexes = source_regexes;
        threads = threads;
        gpu_contexts = gpu_contexts;
        plots = plots;
        frame_sets = frame_sets;
        locks = locks;
        memory_pools = memory_pools;
        zone_parent = zone_parent;
        zone_ancestor = zone_ancestor;
        stack_frame = stack_frame;
        filters = filters;
      })

unfoldable pub matches_any : Text → List Search → Bool
matches_any value [] = true
matches_any value (p ∷ ps) = any (λ search. search value) (p ∷ ps)

unfoldable pub matches_either : Text → Text → List Search → Bool
unfolding matches_any
matches_either first second patterns =
    is_empty patterns || (matches_any first patterns || matches_any second patterns)

abbrev pub search_if_given : Option Search → (Search → Bool) → Bool
search_if_given none test = true
search_if_given (some search) test = test search

module _ (format_float : ℕ → Text) (m : Matcher) (options : Options) (r : Record) where
  abbrev pub text_of : Text → Text
  unfolding field_string
  text_of name = field_string format_float r name

  abbrev pub a_kind_with : Kind → List Search → Bool → Bool
  a_kind_with kind patterns found = is_empty patterns || (kind_eq r.kind kind && found)

  -- The tests before that of `--zone-depth`.
  unfoldable pub matches_scope : Bool
  unfolding text_eq source_type_of matches_any matches_either find_field to_string
  matches_scope =
      all (λ test. test)
        ((is_empty options.source_ids || one_of r.source options.source_ids)
          ∷ matches_any r.source m.source_regexes
          ∷ (is_empty options.source_types || one_of (source_type_of r.kind) options.source_types)
          ∷ matches_either (text_of (codes "thread")) (text_of (codes "thread_name")) m.threads
          ∷ matches_either (text_of (codes "context")) (text_of (codes "context_name"))
              m.gpu_contexts
          ∷ a_kind_with Kind.plot m.plots (matches_any (text_of (codes "name")) m.plots)
          ∷ matches_any (text_of (codes "frame_set")) m.frame_sets
          ∷ a_kind_with Kind.lock m.locks (matches_either r.source (text_of (codes "name")) m.locks)
          ∷ a_kind_with Kind.memory m.memory_pools
              (matches_either r.source (text_of (codes "pool")) m.memory_pools)
          ∷ (is_empty options.cpus
              || any (λ cpu. text_eq (text_of (codes "cpu")) (to_string cpu)) options.cpus)
          ∷ not (
              options.root_zones
              && (given (find_field (codes "depth") r.fields)
                  && not (text_eq (text_of (codes "depth")) (codes "0"))))
          ∷ [])

  -- The test of `--zone-depth`; `std::get` throws where the depth is not a `uint64_t`.
  unfoldable pub matches_depth : Option Bool
  unfolding find_field
  matches_depth = elim options.zone_depth [
    | none ↦ some true
    | some bounds ↦ elim (find_field (codes "depth") r.fields) [
      | some (Value.uint64 depth) ↦ some (leb bounds.0 depth && leb depth bounds.1)
      | some _ ↦ none
      | none ↦ some false
    ]
  ]

  unfoldable pub matches_filters : List (Option Kind × Text × Search) → Bool
  unfolding field_string
  matches_filters [] = true
  matches_filters ((kind, field, search) ∷ rest) =
      (elim kind [ none ↦ false | some k ↦ not (kind_eq k r.kind) ] || search (text_of field))
      && matches_filters rest

  -- The tests after it.
  unfoldable pub matches_names : Bool
  unfolding matches_filters
  matches_names =
      search_if_given m.zone_parent (λ search. search (text_of (codes "parent_name")))
      && (search_if_given m.zone_ancestor (λ search. any search r.ancestor_names)
          && (search_if_given m.stack_frame (λ search. search (text_of (codes "callstack")))
              && matches_filters m.filters))

  -- No answer where `matches` throws.
  unfoldable pub matches : Option Bool
  unfolding matches_scope matches_depth matches_names
  matches =
      if not matches_scope
      then some false
      else elim matches_depth [ none ↦ none | some inside ↦ some (inside && matches_names) ]
