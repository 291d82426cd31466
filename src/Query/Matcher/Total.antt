-- ===== src/Query/Matcher/Total.antt =====
-- `Matcher::matches` throws only where a depth is not an unsigned number, and what it lets through.
use tracy_query.Prelude.{
  ℕ, ◌≡◌, refl, ap, ◌∙◌, Bool, true, false, ◌&&◌, not, Option, none, some, leb, if◌then◌else◌,
  Bool-cases, Text, codes, inl, inr,
}
use tracy_query.Model.{Value, Options, Record}
use tracy_query.Query.Matcher.{
  Matcher, find_field, matches, matches_scope, matches_depth, matches_names,
}

-- A depth among the fields is an unsigned number.
abbrev pub IsDepth : Option Value → Type 0
IsDepth none = Unit
IsDepth (some value) = (n : ℕ) × (value ≡ Value.uint64 n)

module _ (format_float : ℕ → Text) (m : Matcher) (options : Options) (r : Record) where
  depth-total :
      (bounds : Option (ℕ × ℕ)) (found : Option Value)
      → IsDepth found
      → (b : Bool) × (elim bounds [
        | none ↦ some true
        | some bounds ↦ elim found [
          | some (Value.uint64 depth) ↦ some (leb bounds.0 depth && leb depth bounds.1)
          | some _ ↦ none
          | none ↦ some false
        ]
      ]
          ≡ some b)
  depth-total none found h = (true, refl)
  depth-total (some bounds) none h = (false, refl)
  depth-total (some bounds) (some value) h = rw h.1 (leb bounds.0 h.0 && leb h.0 bounds.1, refl)

  -- `matches` returns, and does not throw, for a record whose depth, if it has one, is an unsigned
  -- number.
  pub matches-total :
      IsDepth (find_field (codes "depth") r.fields)
      → (b : Bool) × (matches format_float m options r ≡ some b)
  unfolding matches matches_depth
  matches-total h =
      let d = depth-total options.zone_depth (find_field (codes "depth") r.fields) h in
      elim (Bool-cases (matches_scope format_float m options r)) [
        | inl inside ↦ (
          d.0 && matches_names format_float m options r,
          ap
                (λ b. if not b then some false else elim (matches_depth format_float m options r) [
                  | none ↦ none
                  | some found ↦ some (found && matches_names format_float m options r)
                ])
                inside
              ∙ ap
                  (λ o. elim o [
                    | none ↦ none
                    | some found ↦ some (found && matches_names format_float m options r)
                  ])
                  d.1,
        )
        | inr outside ↦ (
          false,
          ap
              (λ b. if not b then some false else elim (matches_depth format_float m options r) [
                | none ↦ none
                | some found ↦ some (found && matches_names format_float m options r)
              ])
              outside,
        )
      ]
