-- ===== src/Time/Complete.antt =====
-- Which times `parse_time` accepts (src/time.cpp).
use tracy_query.Prelude.{
  u64_mod, ℕ, ◌+◌, ◌*◌, ◌^◌, ◌≤◌, ◌<◌, ◌≡◌, refl, sym, ap, ◌∙◌, true, Option, none, some, [], ◌∷◌,
  ◌++◌, arith, ok, err, ◌>>=◌, Text, codes, length, ◌≢◌,
}
use native.Mathlib.Nat.{one-le-pow}
use tracy_query.Prelude.Decimal.{
  digits_value, AreDigits, is_digit, to_string, to_string-AreDigits, to_string_value,
  to_string-ne-nil,
}
use tracy_query.Time.{
  Special, Pieces, int64_max, too_large, parse_time, parse_pieces, split_time, multiplier_of,
  with_fraction,
}
use tracy_query.Time.Parts.{read_all-digits, checked_multiply_lem}
use tracy_query.Time.Fraction.{
  multiplier_bounds, add_fraction_complete, add_fraction_lem, factor_le,
}
use tracy_query.Time.Split.{WellFraction, multiplier_of-UnitFirst, split_time-render}
use tracy_query.Time.Value.{fraction_digits, IsTime}

with_fraction_complete :
    (w m n : ℕ) (o : Option Text)
    → WellFraction o
    → length (fraction_digits o) ≤ 18
    → digits_value 0 (fraction_digits o) * m < u64_mod
    → n ≤ int64_max
    → 0 < m
    → m ≤ 3_600_000_000_000
    → (let fs = fraction_digits o in
        n * 10 ^ length fs ≡ w * 10 ^ length fs + digits_value 0 fs * m)
    → with_fraction w m o ≡ ok n
unfolding with_fraction digits_value
with_fraction_complete w m n none f short prod big pos_m small e = ground arith
with_fraction_complete w m n (some fs) f short prod big pos_m small e =
    add_fraction_complete w m n fs f.0 f.1 short prod big pos_m small e

value_le : (v m n : ℕ) → 0 < m → v * m ≤ n → v ≤ n
value_le v m n h k = grind arith

parse_pieces_complete :
    (p : Pieces) (m n : ℕ)
    → AreDigits p.whole
    → p.whole ≢ []
    → multiplier_of p.unit ≡ some m
    → digits_value 0 p.whole * m ≤ n
    → n ≤ int64_max
    → 0 < m
    → with_fraction (digits_value 0 p.whole * m) m p.fraction ≡ ok n
    → parse_pieces p ≡ ok (record { special = Special.number; nanoseconds = n })
unfolding parse_pieces
parse_pieces_complete p m n h ne u le big pos_m added = ground (
  arith,
  read_all-digits p.whole h ne,
  checked_multiply_lem (digits_value 0 p.whole) m,
  value_le (digits_value 0 p.whole) m n pos_m le,
)

parse_time_numeric :
    (d : ℕ) (ds : Text)
    → is_digit d ≡ true
    → parse_time (d ∷ ds) ≡ (split_time (d ∷ ds) >>= parse_pieces)
unfolding parse_time
parse_time_numeric d ds h = ground arith

split_numeric :
    (ds rest : Text)
    → AreDigits ds
    → ds ≢ []
    → parse_time (ds ++ rest) ≡ (split_time (ds ++ rest) >>= parse_pieces)
split_numeric [] rest h ne = absurd (ne refl)
split_numeric (d ∷ ds) rest h ne = parse_time_numeric d (ds ++ rest) h.0

parse_pieces_refused :
    (p : Pieces) (m n : ℕ)
    → AreDigits p.whole
    → p.whole ≢ []
    → multiplier_of p.unit ≡ some m
    → digits_value 0 p.whole * m ≤ n
    → n ≤ int64_max
    → 0 < m
    → with_fraction (digits_value 0 p.whole * m) m p.fraction ≡ err too_large
    → parse_pieces p ≡ err too_large
unfolding parse_pieces
parse_pieces_refused p m n h ne u le big pos_m added = ground (
  arith,
  read_all-digits p.whole h ne,
  checked_multiply_lem (digits_value 0 p.whole) m,
  value_le (digits_value 0 p.whole) m n pos_m le,
)

with_fraction_overflow :
    (w m : ℕ) (o : Option Text)
    → WellFraction o
    → length (fraction_digits o) ≤ 18
    → u64_mod ≤ digits_value 0 (fraction_digits o) * m
    → with_fraction w m o ≡ err too_large
unfolding with_fraction digits_value
with_fraction_overflow w m none f short prod = absurd (omega arith)
with_fraction_overflow w m (some fs) f short prod =
    ground (arith, add_fraction_lem w m fs f.0 f.1 short)

-- The cut and the whole part succeed; what is left is the fraction's block.
module _ (t : Text) (n : ℕ) (d : IsTime t n) (f : WellFraction d.pieces.fraction)
    (big : n ≤ int64_max) where
  open d use {pieces as p, multiplier as m}

  bounds : (0 < m) × (m ≤ 3_600_000_000_000)
  bounds = multiplier_bounds p.unit m d.unit

  ordered : digits_value 0 p.whole * m ≤ n
  ordered =
      factor_le (digits_value 0 (fraction_digits p.fraction) * m) (digits_value 0 p.whole * m) n
        (10 ^ length (fraction_digits p.fraction))
        (one-le-pow (length (fraction_digits p.fraction)) 10 (omega arith)) d.value

  parse_time-pieces : parse_time t ≡ parse_pieces p
  parse_time-pieces =
      ap parse_time (sym d.text)
      ∙ (split_numeric p.whole _ d.whole.0 d.whole.1
          ∙ ap (λ s. s >>= parse_pieces)
              (split_time-render p d.whole.0 f (multiplier_of-UnitFirst p.unit m d.unit)))

  -- Every time that is exact, fits in an `int64_t`, has digits after its point and at most 18 of
  -- them, is read as such, if the product of those digits with the unit fits in a `uint64_t`.
  pub parse_time_complete :
      length (fraction_digits p.fraction) ≤ 18
      → digits_value 0 (fraction_digits p.fraction) * m < u64_mod
      → parse_time t ≡ ok (record { special = Special.number; nanoseconds = n })
  parse_time_complete short prod =
      parse_time-pieces
      ∙ parse_pieces_complete p m n d.whole.0 d.whole.1 d.unit ordered big bounds.0 (
          with_fraction_complete (digits_value 0 p.whole * m) m n p.fraction f short prod big
            bounds.0 bounds.1 d.value)

  -- Where the product of at most 18 digits after the point with the unit does not fit in a
  -- `uint64_t`, an exact time is refused as too large although it fits in an `int64_t`.
  pub parse_time_overflow :
      length (fraction_digits p.fraction) ≤ 18
      → u64_mod ≤ digits_value 0 (fraction_digits p.fraction) * m
      → parse_time t ≡ err too_large
  parse_time_overflow short prod =
      parse_time-pieces
      ∙ parse_pieces_refused p m n d.whole.0 d.whole.1 d.unit ordered big bounds.0
          (with_fraction_overflow (digits_value 0 p.whole * m) m p.fraction f short prod)

abbrev pub nanos : ℕ → Text
nanos n = to_string n ++ codes "ns"

-- A time printed in nanoseconds is read back, over the whole range of an `int64_t`.
pub parse_time-nanos :
    (n : ℕ)
    → n ≤ int64_max
    → parse_time (nanos n) ≡ ok (record { special = Special.number; nanoseconds = n })
unfolding digits_value multiplier_of
parse_time-nanos n h = parse_time_complete (nanos n) n time tt h (omega arith) (omega arith)
  where
    time : IsTime (nanos n) n
    time = record {
      pieces = record { whole = to_string n; fraction = none; unit = codes "ns" };
      multiplier = 1;
      text = refl;
      whole = (to_string-AreDigits n, to_string-ne-nil n);
      unit = refl;
      fraction = tt;
      value = omega (arith, to_string_value n);
    }
