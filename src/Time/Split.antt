-- ===== src/Time/Split.antt =====
-- How `parse_time` cuts its text into digits, fraction and unit (src/time.cpp).
use tracy_query.Prelude.{
  ℕ, ◌≡◌, refl, ◌∙◌, false, Option, none, some, [], ◌∷◌, ◌++◌, arith, ok, Text, ◌≢◌,
}
use tracy_query.Prelude.Decimal.{is_digit, span_digits, AreDigits, NoDigitFirst, span_digits-append}
use tracy_query.Time.{Pieces, split_time, split_fraction, multiplier_of}
use tracy_query.Time.Parts.{span_digits-append_self}

-- The text of a time in pieces.
abbrev pub render : Pieces → Text
render p = p.whole ++ elim p.fraction [ none ↦ p.unit | some fs ↦ b'.' ∷ (fs ++ p.unit) ]

-- What the cut promises of a fraction.
abbrev pub WellFraction : Option Text → Type 0
WellFraction none = Unit {0}
WellFraction (some fs) = AreDigits fs × (fs ≢ [])

-- A unit begins with neither a digit nor the point.
abbrev pub UnitFirst : Text → Type 0
UnitFirst [] = Unit {0}
UnitFirst (c ∷ cs) = (is_digit c ≡ false) × (c ≢ b'.')

pub multiplier_of-UnitFirst : (u : Text) (m : ℕ) → multiplier_of u ≡ some m → UnitFirst u
unfolding multiplier_of
multiplier_of-UnitFirst [] m h = tt
multiplier_of-UnitFirst (c ∷ cs) m h = (ground arith, ground arith)

split_fraction_sound :
    (ds rest : Text) (p : Pieces)
    → split_fraction ds rest ≡ ok p
    → (p.whole ≡ ds) × (render p ≡ ds ++ rest)
unfolding split_fraction
split_fraction_sound ds [] p h = ground arith
split_fraction_sound ds (c ∷ cs) p h = ground (arith, span_digits-append_self cs)

-- The pieces make up the text again.
pub split_time_sound : (t : Text) (p : Pieces) → split_time t ≡ ok p → render p ≡ t
unfolding split_time
split_time_sound t p h =
    (split_fraction_sound (span_digits t).0 (span_digits t).1 p h).1 ∙ span_digits-append_self t

UnitFirst-NoDigitFirst : (u : Text) → UnitFirst u → NoDigitFirst u
UnitFirst-NoDigitFirst [] h = tt
UnitFirst-NoDigitFirst (c ∷ cs) h = h.0

split_pieces :
    (ds : Text) (o : Option Text) (u : Text)
    → AreDigits ds
    → WellFraction o
    → UnitFirst u
    → let p : Pieces = record { whole = ds; fraction = o; unit = u } in split_time (render p) ≡ ok p
unfolding split_time
split_pieces ds none [] h k u = ground (arith, span_digits-append ds [] h tt)
split_pieces ds none (c ∷ cs) h k u = ground (arith, span_digits-append ds (c ∷ cs) h u.0)
split_pieces ds (some fs) u h k first = ground (
  arith,
  span_digits-append ds (b'.' ∷ (fs ++ u)) h refl,
  span_digits-append fs u k.0 (UnitFirst-NoDigitFirst u first),
)

-- A text made of well-formed pieces is cut into them.
pub split_time-render :
    (p : Pieces)
    → AreDigits p.whole
    → WellFraction p.fraction
    → UnitFirst p.unit
    → split_time (render p) ≡ ok p
split_time-render p h k u = split_pieces p.whole p.fraction p.unit h k u
