-- ===== src/Cli/Split.antt =====
-- The parts of a text: joined again they are the text, and none holds the delimiter.
use tracy_query.Prelude.{
  ℕ, ◌≡◌, refl, sym, ap, ap₂, ◌∙◌, subst, Bool, true, not, List, [], ◌∷◌, ◌++◌, ◌==◌, if◌then◌else◌,
  Bool-cases, Text, All, all, inl, inr, ==_iff,
}
use tracy_query.Cli.{split, before_first}

-- The parts with the delimiter between them.
abbrev pub join : ℕ → List Text → Text
join delimiter [] = []
join delimiter (part ∷ []) = part
join delimiter (part ∷ parts) = part ++ (delimiter ∷ join delimiter parts)

abbrev pub lacks : ℕ → Text → Bool
lacks delimiter t = all (λ c. not (c == delimiter)) t

-- There is a first part.
split-first :
    (delimiter : ℕ) (t : Text) → (p : Text) × (ps : List Text) × (split delimiter t ≡ p ∷ ps)
unfolding split
split-first delimiter [] = ([], [], refl)
split-first delimiter (c ∷ cs) =
    let rest = split-first delimiter cs in
    elim (Bool-cases (c == delimiter)) [
      | inl same ↦ ([], split delimiter cs, rw same refl)
      | inr other ↦ (c ∷ rest.0, rest.1, rw other (rw rest.2 refl))
    ]

join-before_first :
    (delimiter c : ℕ) (p : Text) (ps : List Text)
    → join delimiter (before_first c (p ∷ ps)) ≡ c ∷ join delimiter (p ∷ ps)
join-before_first delimiter c p [] = refl
join-before_first delimiter c p (q ∷ qs) = refl

-- The parts are right when they join to the text and none holds the delimiter.
abbrev pub AreParts : ℕ → List Text → Text → Type 0
AreParts delimiter parts t =
    (join delimiter parts ≡ t) × All (λ part. lacks delimiter part ≡ true) parts

next-AreParts :
    (delimiter c : ℕ) (p : Text) (ps : List Text) (cs : Text)
    → AreParts delimiter (p ∷ ps) cs
    → AreParts delimiter (if c == delimiter then [] ∷ p ∷ ps else before_first c (p ∷ ps)) (c ∷ cs)
next-AreParts delimiter c p ps cs h = elim (Bool-cases (c == delimiter)) [
  | inl same ↦
      let e : delimiter ≡ c = sym ((==_iff c delimiter).0 same) in
      rw same (ap₂ (λ x y. x ∷ y) e h.0, (refl, h.1))
  | inr other ↦
      rw other (join-before_first delimiter c p ps ∙ ap (◌∷◌ c) h.0, (rw other h.1.0, h.1.1))
]

-- The parts joined by the delimiter are the text, and no part holds the delimiter.
pub split-AreParts : (delimiter : ℕ) (t : Text) → AreParts delimiter (split delimiter t) t
unfolding split
split-AreParts delimiter [] = (refl, (refl, tt))
split-AreParts delimiter (c ∷ cs) =
    let first = split-first delimiter cs in
    let whole =
      next-AreParts delimiter c first.0 first.1 cs
        (subst (λ u. AreParts delimiter u cs) first.2 (split-AreParts delimiter cs)) in
    subst (λ u. AreParts delimiter (if c == delimiter then [] ∷ u else before_first c u) (c ∷ cs))
      (sym first.2) whole
