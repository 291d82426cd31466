-- ===== src/Cli/Accept.antt =====
-- What `parse_cli` accepts for a query, `Matcher` accepts.
use tracy_query.Prelude.{
  ℕ, ◌≡◌, refl, sym, ap, ◌∙◌, subst, Bool, Option, none, some, List, [], ◌∷◌, ◌++◌, arith,
  if◌then◌else◌, Bool-cases, Result, ok, err, ◌>>=◌, Text, is_empty, All, ◌⊎◌, inl, inr,
}
use tracy_query.Model.{Kind, Command, all_kinds, RegexFilter, Options, TraceInput}
use tracy_query.Query.Matcher.{
  Search, Matcher, ◌or_else◌, compile_pattern, compile_all, compile_optional, compile_filters,
  fields_error, zone_error, active_error, new_matcher, throw_if,
}
use tracy_query.Cli.{
  Arguments, first_error, query_checks, check_options, with_traces, query_error, command_error,
  apply_labels, regex_error, regexes, filter_patterns, optional_pattern, validate,
}

Result-cases {ℓ} :
    {A : Type ℓ} (r : Result A) → ((a : A) × (r ≡ ok a)) ⊎ ((e : List ℕ) × (r ≡ err e))
Result-cases (ok a) = inl (a, refl)
Result-cases (err e) = inr (e, refl)

module _ (compile : Bool → Text → Result Search) where
  regex_error-split :
      (ic : Bool) (xs ys : List Text)
      → regex_error compile ic (xs ++ ys) ≡ none
      → (regex_error compile ic xs ≡ none) × (regex_error compile ic ys ≡ none)
  unfolding regex_error
  regex_error-split ic [] ys h = (refl, h)
  regex_error-split ic (x ∷ xs) ys h = elim (Result-cases (compile_pattern compile ic x)) [
    | inl good ↦ ground (arith, good.1, regex_error-split ic xs ys)
    | inr bad ↦ ground (arith, bad.1)
  ]

  compile_all-ok :
      (ic : Bool) (ps : List Text)
      → regex_error compile ic ps ≡ none
      → (ss : List Search) × (compile_all compile ic ps ≡ ok ss)
  unfolding regex_error compile_all
  compile_all-ok ic [] h = ([], refl)
  compile_all-ok ic (p ∷ ps) h = elim (Result-cases (compile_pattern compile ic p)) [
    | inl good ↦
        let rest = compile_all-ok ic ps (ground (arith, h, good.1)) in
        (good.0 ∷ rest.0, rw good.1 (rw rest.1 refl))
    | inr bad ↦ absurd (ground (arith, h, bad.1))
  ]

  compile_optional-ok :
      (ic : Bool) (p : Option Text)
      → regex_error compile ic (optional_pattern p) ≡ none
      → (s : Option Search) × (compile_optional compile ic p ≡ ok s)
  unfolding regex_error compile_optional compile_pattern
  compile_optional-ok ic none h = (none, refl)
  compile_optional-ok ic (some p) h = elim (Result-cases (compile ic p)) [
    | inl good ↦ (some good.0, rw good.1 refl)
    | inr bad ↦ absurd (ground (arith, h, bad.1))
  ]

  compile_filters-ok :
      (ic : Bool) (fs : List RegexFilter)
      → regex_error compile ic (filter_patterns fs) ≡ none
      → (ss : List (Option Kind × Text × Search)) × (compile_filters compile ic fs ≡ ok ss)
  unfolding regex_error compile_filters
  compile_filters-ok ic [] h = ([], refl)
  compile_filters-ok ic (f ∷ fs) h = elim (Result-cases (compile_pattern compile ic f.pattern)) [
    | inl good ↦
        let rest = compile_filters-ok ic fs (ground (arith, h, good.1)) in
        ((f.kind, f.field, good.0) ∷ rest.0, rw good.1 (rw rest.1 refl))
    | inr bad ↦ absurd (ground (arith, h, bad.1))
  ]

  or_else-split : (a b : Option Text) → a or_else b ≡ none → (a ≡ none) × (b ≡ none)
  or_else-split none b h = (refl, h)
  or_else-split (some e) b h = ground arith

  bind-ok {ℓ κ} :
      {A : Type ℓ} {B : Type κ} (m : Result A) (f : A → Result B) (a : A) → m ≡ ok a → m >>= f ≡ f a
  bind-ok m f a e = ap (λ r. r >>= f) e

  -- Options whose patterns compile and which pass the three checks make a matcher.
  new_matcher-ok :
      (options : Options)
      → regex_error compile options.ignore_case (regexes options) ≡ none
      → fields_error options.filters options.kinds ≡ none
      → zone_error options ≡ none
      → active_error options ≡ none
      → (m : Matcher) × (new_matcher compile options ≡ ok m)
  unfolding new_matcher regexes
  new_matcher-ok options h fields zone active =
      let ic = options.ignore_case in
      let s₁ = regex_error-split ic options.source_regexes _ h in
      let s₂ = regex_error-split ic options.threads _ s₁.1 in
      let s₃ = regex_error-split ic options.gpu_contexts _ s₂.1 in
      let s₄ = regex_error-split ic options.plots _ s₃.1 in
      let s₅ = regex_error-split ic options.frame_sets _ s₄.1 in
      let s₆ = regex_error-split ic options.locks _ s₅.1 in
      let s₇ = regex_error-split ic options.memory_pools _ s₆.1 in
      let s₈ = regex_error-split ic (filter_patterns options.filters) _ s₇.1 in
      let s₉ = regex_error-split ic (optional_pattern options.zone_parent) _ s₈.1 in
      let s₁₀ = regex_error-split ic (optional_pattern options.zone_ancestor) _ s₉.1 in
      let a = compile_all-ok ic options.source_regexes s₁.0 in
      let b = compile_all-ok ic options.threads s₂.0 in
      let c = compile_all-ok ic options.gpu_contexts s₃.0 in
      let d = compile_all-ok ic options.plots s₄.0 in
      let e = compile_all-ok ic options.frame_sets s₅.0 in
      let f = compile_all-ok ic options.locks s₆.0 in
      let g = compile_all-ok ic options.memory_pools s₇.0 in
      let i = compile_filters-ok ic options.filters s₈.0 in
      let j = compile_optional-ok ic options.zone_parent s₉.0 in
      let k = compile_optional-ok ic options.zone_ancestor s₁₀.0 in
      let l = compile_optional-ok ic options.stack_frame s₁₀.1 in
      (
        record {
          source_regexes = a.0;
          threads = b.0;
          gpu_contexts = c.0;
          plots = d.0;
          frame_sets = e.0;
          locks = f.0;
          memory_pools = g.0;
          zone_parent = j.0;
          zone_ancestor = k.0;
          stack_frame = l.0;
          filters = i.0;
        },
        bind-ok _ _ a.0 a.1
            ∙ bind-ok _ _ b.0 b.1
            ∙ bind-ok _ _ c.0 c.1
            ∙ bind-ok _ _ d.0 d.1
            ∙ bind-ok _ _ e.0 e.1
            ∙ bind-ok _ _ f.0 f.1
            ∙ bind-ok _ _ g.0 g.1
            ∙ bind-ok _ _ j.0 j.1
            ∙ bind-ok _ _ k.0 k.1
            ∙ bind-ok _ _ l.0 l.1
            ∙ bind-ok _ _ i.0 i.1
            ∙ bind-ok _ _ [] (ap throw_if fields)
            ∙ bind-ok _ _ [] (ap throw_if zone)
            ∙ bind-ok _ _ [] (ap throw_if active),
      )

  first_error-none : (es : List (Option Text)) → first_error es ≡ none → All (λ e. e ≡ none) es
  first_error-none [] h = tt
  first_error-none (e ∷ es) h =
      let s = or_else-split e (first_error es) h in (s.0, first_error-none es s.1)

  query_error-checks :
      (options : Options)
      → query_error options ≡ none
      → (active_error options ≡ none)
        × (zone_error options ≡ none)
        × (fields_error options.filters options.kinds ≡ none)
  unfolding query_error query_checks
  query_error-checks options h =
      let s = first_error-none (query_checks options) h in
      (s.1.1.1.1.1.0, s.1.1.1.1.1.1.0, s.1.1.1.1.1.1.1.0)

  -- What the last step of `validate` returns passed both checks.
  checked_lem :
      (error : Option Text) (checked options : Options)
      → elim error [ some message ↦ err message | none ↦ ok checked ] ≡ ok options
      → (error ≡ none) × (checked ≡ options)
  checked_lem none checked options h = (refl, ap (λ r. elim r [ ok o ↦ o | err e ↦ checked ]) h)
  checked_lem (some e) checked options h = absurd (ground (arith, h))

  command_error-query :
      (seen : Bool) (options : Options)
      → options.command ≡ Command.query
      → command_error seen options ≡ query_error options
  unfolding command_error
  command_error-query seen options h = rw h refl

  check_options-checks :
      (arguments : Arguments) (traces : List TraceInput) (options : Options)
      → check_options compile arguments traces ≡ ok options
      → (command_error arguments.query_option_seen options ≡ none)
        × (regex_error compile options.ignore_case (regexes options) ≡ none)
  unfolding check_options
  check_options-checks arguments traces options h =
      let kinds = if arguments.options.all_kinds then all_kinds else arguments.options.kinds in
      let checked = with_traces arguments.options traces kinds in
      let r =
        checked_lem
          (command_error arguments.query_option_seen checked
            or_else regex_error compile checked.ignore_case (regexes checked))
          checked options h in
      subst
        (λ o.
          (command_error arguments.query_option_seen o ≡ none)
          × (regex_error compile o.ignore_case (regexes o) ≡ none))
        r.1
        (or_else-split (command_error arguments.query_option_seen checked)
          (regex_error compile checked.ignore_case (regexes checked)) r.0)

  validate-checks :
      (arguments : Arguments) (options : Options)
      → validate compile arguments ≡ ok options
      → (command_error arguments.query_option_seen options ≡ none)
        × (regex_error compile options.ignore_case (regexes options) ≡ none)
  unfolding validate
  validate-checks arguments options h = elim (Bool-cases arguments.command_set) [
    | inr unset ↦ absurd (ground (arith, h, unset))
    | inl set_ ↦ elim (Bool-cases (is_empty arguments.options.traces)) [
      | inl empty ↦ absurd (ground (arith, h, set_, empty))
      | inr some_traces ↦
          elim (Result-cases (apply_labels arguments.labels arguments.options.traces)) [
            | inr missing ↦ absurd (ground (arith, h, set_, some_traces, missing.1))
            | inl labelled ↦
                check_options-checks arguments labelled.0 options
                  (ground (arith, h, set_, some_traces, labelled.1))
          ]
    ]
  ]

  -- The constructor of `Matcher` does not throw for options of a query that `parse_cli` accepts.
  pub validate-new_matcher :
      (arguments : Arguments) (options : Options)
      → validate compile arguments ≡ ok options
      → options.command ≡ Command.query
      → (m : Matcher) × (new_matcher compile options ≡ ok m)
  validate-new_matcher arguments options h query =
      let checks = validate-checks arguments options h in
      let q =
        query_error-checks options
          (sym (command_error-query arguments.query_option_seen options query) ∙ checks.0) in
      new_matcher-ok options checks.1 q.2 q.1 q.0
