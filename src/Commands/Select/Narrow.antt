-- ===== src/Commands/Select/Narrow.antt =====
-- What the filters keep of a selection of sources.
use tracy_query.Prelude.{
  ◌≡◌, refl, ◌∙◌, sym, Bool, true, false, ◌||◌, Option, none, some, List, [], ◌∷◌, arith, Result,
  ok, err, Text, codes, text_eq, is_empty, any, All, ap, subst, Bool-cases, ◌↔◌, ◌⊎◌, inl, inr,
  if◌then◌else◌,
}
use tracy_query.Model.{Kind, kind_eq, RegexFilter, Options, Source}
use tracy_query.Query.Matcher.{Search}
use tracy_query.Commands.Select.{
  selected_kind, ◌andalso◌, matches_any, in_scope, filtered_value, passes_filter, passes_filters,
  source_selected,
}

-- Tests that come before the filters.
abbrev Chain : List (Result Bool) → Result Bool → Result Bool
Chain [] last = last
Chain (test ∷ tests) last = test andalso Chain tests last

Chain-split :
    (tests : List (Result Bool)) (last : Result Bool)
    → (Chain tests last ≡ ok true) ↔ ((Chain tests (ok true) ≡ ok true) × (last ≡ ok true))
Chain-split [] last = ground arith
Chain-split (err message ∷ tests) last = ground arith
Chain-split (ok false ∷ tests) last = ground arith
Chain-split (ok true ∷ tests) last = Chain-split tests last

-- The filter is for a kind that the source does not have.
abbrev pub IsForOthers : RegexFilter → Source → Type 0
IsForOthers f source =
    (kind : Kind) × (f.kind ≡ some kind) × (any (λ k. kind_eq k kind) source.kinds ≡ false)

-- The texts of a source that a filter can name.
abbrev pub source_texts : Source → List (Text × Text)
source_texts source =
    (codes "name", source.name)
    ∷ (codes "source", source.id)
    ∷ (codes "source_type", source.source_type)
    ∷ []

-- The text under a name.
abbrev pub text_at : Text → List (Text × Text) → Option Text
text_at name [] = none
text_at name ((key, value) ∷ rest) = if text_eq name key then some value else text_at name rest

abbrev search_of : Search → Result Search → Search
search_of other (ok search) = search
search_of other (err what) = other

module _ (compile : Bool → Text → Result Search) where
  -- The pattern is a regular expression, which is found in the value.
  abbrev pub IsFound : Bool → Text → Text → Type 0
  IsFound ignore_case pattern value =
      (search : Search) × (compile ignore_case pattern ≡ ok search) × (search value ≡ true)

  abbrev IsMet : Bool → Text → Option Text → Type 0
  IsMet i pattern none = Unit
  IsMet i pattern (some value) = IsFound i pattern value

  -- The filter is for a kind that the source does not have, or it is for a field that sources do
  -- not have, or its pattern is found in that field of the source.
  abbrev pub Meets : Bool → Source → RegexFilter → Type 0
  Meets i source f =
      IsForOthers f source ⊎ IsMet i f.pattern (text_at f.field (source_texts source))

  matches_any_iff :
      (i : Bool) (value pattern : Text)
      → (matches_any compile value (pattern ∷ []) i ≡ ok true) ↔ IsFound i pattern value
  unfolding matches_any
  matches_any_iff i value pattern = go (compile i pattern) refl
    where
      go :
          (r : Result Search)
          → compile i pattern ≡ r
          → (matches_any compile value (pattern ∷ []) i ≡ ok true) ↔ IsFound i pattern value
      go (err what) e =
          (λ h. absurd (ground (arith, e, h)), λ (search, k, found). absurd (ground (arith, e, k)))
      go (ok search) e = (
        λ h. (search, e, ground (arith, e, h)),
        λ (search', k, found).
            let same : search ≡ search' = ap (search_of search) (sym e ∙ k) in
            let here : search value ≡ true = ap (λ s. s value) same ∙ found in
            ground (arith, e, here),
      )

  abbrev Passed : Bool → Text → Option Text → Type 0
  Passed i pattern o =
      elim o [ none ↦ ok true | some value ↦ matches_any compile value (pattern ∷ []) i ] ≡ ok true

  tested_iff :
      (i : Bool) (pattern : Text) (o : Option Text)
      → (elim o [ none ↦ ok true | some value ↦ matches_any compile value (pattern ∷ []) i ]
          ≡ ok true)
        ↔ IsMet i pattern o
  tested_iff i pattern none = (λ h. tt, λ h. refl)
  tested_iff i pattern (some value) = matches_any_iff i value pattern

  passes_filter_iff :
      (i : Bool) (source : Source) (f : RegexFilter)
      → (passes_filter compile i source f ≡ ok true) ↔ Meets i source f
  passes_filter_iff i source f = go f.kind refl
    where
      -- A filter that applies to the source.
      applies :
          filtered_value compile f source ≡ text_at f.field (source_texts source)
          → ((o : IsForOthers f source) → ⊥)
          → (passes_filter compile i source f ≡ ok true) ↔ Meets i source f
      applies e never =
          let met = tested_iff i f.pattern (text_at f.field (source_texts source)) in
          (
            λ h. inr (met.0 (subst (Passed i f.pattern) e h)),
            λ m. elim m [
              | inl others ↦ absurd (never others)
              | inr is_met ↦ subst (Passed i f.pattern) (sym e) (met.1 is_met)
            ],
          )

      go :
          (k : Option Kind)
          → f.kind ≡ k
          → (passes_filter compile i source f ≡ ok true) ↔ Meets i source f
      go none k = applies (ground (arith, k)) (λ (kind, k', never). ground (arith, k, k'))
      go (some kind) k = elim (Bool-cases (any (λ u. kind_eq u kind) source.kinds)) [
        | inl has ↦ applies (ground (arith, k, has)) (λ (kind', k', never).
            let same : any (λ u. kind_eq u kind) source.kinds
                ≡ any (λ u. kind_eq u kind') source.kinds =
              ap (λ o. elim o [ none ↦ true | some c ↦ any (λ u. kind_eq u c) source.kinds ])
                (sym k ∙ k') in
            ground (arith, same, has, never))
        | inr lacks ↦ (λ h. inl (kind, k, lacks), λ m. ground (arith, k, lacks))
      ]

  passes_filters_iff :
      (i : Bool) (source : Source) (fs : List RegexFilter)
      → (passes_filters compile i source fs ≡ ok true) ↔ All (Meets i source) fs
  passes_filters_iff i source [] = (λ h. tt, λ h. refl)
  passes_filters_iff i source (f ∷ fs) =
      ground (arith, passes_filter_iff i source f, passes_filters_iff i source fs)

  -- A source is selected exactly when it is selected without the filters, and every filter is for a
  -- kind or a field that it does not have, or finds its pattern in that field.
  pub source_selected-filters :
      (options : Options) (source : Source)
      → (source_selected compile options source ≡ ok true) ↔ (
          (source_selected compile (record options { filters = [] }) source ≡ ok true)
          × All (Meets options.ignore_case source) options.filters)
  unfolding source_selected
  source_selected-filters options source =
      let split =
        Chain-split
          (ok (selected_kind options source)
            ∷ ok (is_empty options.source_ids || any (λ u. text_eq u source.id) options.source_ids)
            ∷ matches_any compile source.id options.source_regexes options.ignore_case
            ∷ ok (
                is_empty options.source_types
                || any (λ u. text_eq u source.source_type) options.source_types)
            ∷ in_scope compile options source
            ∷ [])
          (passes_filters compile options.ignore_case source options.filters) in
      let each = passes_filters_iff options.ignore_case source options.filters in
      (λ h. ((split.0 h).0, each.0 (split.0 h).1), λ h. split.1 (h.0, each.1 h.1))
