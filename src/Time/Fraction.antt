-- ===== src/Time/Fraction.antt =====
-- The fraction of a time: `add_fraction` of the model, which is the block of `parse_time` that reads
-- the digits after the point (src/time.cpp).
use tracy_query.Prelude.{
  sub_u64, u64_mod, ℕ, ◌+◌, ◌-◌, ◌*◌, ◌/◌, ◌%◌, ◌^◌, ◌≤◌, ◌<◌, ◌≡◌, sym, ap, ◌∙◌, some, [], arith,
  ltb, leb, ◌==◌, if◌then◌else◌, Result, ok, err, Text, codes, length, ◌≢◌,
}
use native.Mathlib.Nat.{pow-le-pow_right, div-lt_iff_lt-mul, div-add-mod', div-eq_of_eq-mul_left}
use tracy_query.Prelude.Decimal.{digits_value, AreDigits}
use tracy_query.Time.{add_fraction, int64_max, too_large, read_all, scale_loop, multiplier_of}
use tracy_query.Time.Parts.{
  read_all-digits, read_all_sound, checked_multiply_lem, scale_loop_lem, digits_value-lt,
}

-- Every unit is at most an hour long, and at least a nanosecond.
pub multiplier_bounds :
    (u : Text) (m : ℕ) → multiplier_of u ≡ some m → (0 < m) × (m ≤ 3_600_000_000_000)
unfolding multiplier_of
multiplier_bounds u m h = ground arith

pub scale-eq-pow : (n : ℕ) → n ≤ 18 → scale_loop n 1 ≡ 10 ^ n
scale-eq-pow n h =
    scale_loop_lem n 1 (omega (arith, pow-le-pow_right {n = 10} (omega arith) h)) ∙ omega arith

fits : (v p : ℕ) → v < p → p ≤ 10 ^ 18 → v < u64_mod
fits v p h k = omega arith

-- What is left of the block once the digits are read: `v` of `p` parts of a unit, added to `ns`.
abbrev pub outcome : ℕ → ℕ → ℕ → ℕ → Result ℕ
outcome v m p ns =
    if ltb (v * m) u64_mod
    then (if v * m % p == 0
        then (if leb ns (sub_u64 int64_max (v * m / p))
            then ok ((ns + v * m / p) % u64_mod)
            else err too_large)
        else err (codes "time value has sub-nanosecond precision"))
    else err too_large

-- The block with its calls read off: it fails on the three tests, and otherwise adds the fraction.
pub add_fraction_lem :
    (ns m : ℕ) (ds : Text)
    → AreDigits ds
    → ds ≢ []
    → length ds ≤ 18
    → add_fraction ns m ds ≡ outcome (digits_value 0 ds) m (10 ^ length ds) ns
unfolding add_fraction
add_fraction_lem ns m ds h ne short = ground (
  arith,
  read_all-digits ds h ne,
  checked_multiply_lem (digits_value 0 ds) m,
  scale-eq-pow (length ds) short,
  fits (digits_value 0 ds) (10 ^ length ds) (digits_value-lt ds h)
      (pow-le-pow_right {n = 10} (omega arith) short),
)

-- A fraction of a unit is less than the unit.
fraction-lt : (v m p : ℕ) → v < p → 0 < m → v * m / p < m
fraction-lt v m p h k = (div-lt_iff_lt-mul {k = p} (omega arith)).1 (grind arith)

-- So the subtraction from the largest time does not wrap, and neither does the sum.
pub sum_fits :
    (ns f m : ℕ)
    → f < m
    → m ≤ 3_600_000_000_000
    → ns ≤ sub_u64 int64_max f
    → ((ns + f) % u64_mod ≡ ns + f) × (ns + f ≤ int64_max)
sum_fits ns f m h k l = (omega arith, omega arith)

product_out : (a b p : ℕ) → (a + b) * p ≡ a * p + b * p
product_out a b p = omega arith

outcome_sound :
    (v m p ns n : ℕ)
    → v < p
    → 0 < m
    → m ≤ 3_600_000_000_000
    → outcome v m p ns ≡ ok n
    → (n * p ≡ ns * p + v * m) × (n ≤ int64_max)
outcome_sound v m p ns n h k small e = ground (
  arith,
  fraction-lt v m p h k,
  sum_fits ns (v * m / p) m,
  div-add-mod' (v * m) p,
  product_out ns (v * m / p) p,
)

pub factor_le : (w a b p : ℕ) → 0 < p → b * p ≡ a * p + w → a ≤ b
factor_le w a b p pos_p e = grind arith

-- The exact total gives back the quotient, with no remainder.
quotient :
    (v m p ns n : ℕ)
    → 0 < p
    → n * p ≡ ns * p + v * m
    → (v * m / p ≡ n - ns) × (v * m % p ≡ 0) × (ns ≤ n)
quotient v m p ns n pos_p e = (by_div, remainder, ordered)
  where
    ordered : ns ≤ n
    ordered = factor_le (v * m) ns n p pos_p e

    regroup : (n - ns + ns) * p ≡ n * p
    regroup = ap (λ (q : ℕ). q * p) (omega (arith, ordered))

    whole : v * m ≡ (n - ns) * p
    whole = omega (arith, regroup, product_out (n - ns) ns p)

    by_div : v * m / p ≡ n - ns
    by_div = div-eq_of_eq-mul_left pos_p whole

    remainder : v * m % p ≡ 0
    remainder = omega (arith, div-add-mod' (v * m) p, whole, ap (λ (q : ℕ). q * p) by_div)

outcome_complete :
    (v m p ns n : ℕ)
    → v < p
    → 0 < m
    → m ≤ 3_600_000_000_000
    → v * m < u64_mod
    → n ≤ int64_max
    → n * p ≡ ns * p + v * m
    → outcome v m p ns ≡ ok n
outcome_complete v m p ns n h k small prod big e =
    ground (arith, quotient v m p ns n, fraction-lt v m p h k)

fraction_digits :
    (ns m n : ℕ) (ds : Text)
    → add_fraction ns m ds ≡ ok n
    → (v : ℕ) × (read_all ds ≡ some v) × (length ds ≤ 18)
unfolding add_fraction
fraction_digits ns m n ds h = ground arith

-- Where the block succeeds, the result is exact: times the scale, it is the sum of both parts.
pub add_fraction_sound :
    (ns m n : ℕ) (ds : Text)
    → 0 < m
    → m ≤ 3_600_000_000_000
    → add_fraction ns m ds ≡ ok n
    → AreDigits ds
      × (n * 10 ^ length ds ≡ ns * 10 ^ length ds + digits_value 0 ds * m)
      × (n ≤ int64_max)
add_fraction_sound ns m n ds pos_m small h = (are_digits, facts.0, facts.1)
  where
    found : (v : ℕ) × (read_all ds ≡ some v) × (length ds ≤ 18)
    found = fraction_digits ns m n ds h

    are_digits : AreDigits ds
    are_digits = (read_all_sound ds found.0 found.1).0

    facts : (n * 10 ^ length ds ≡ ns * 10 ^ length ds + digits_value 0 ds * m) × (n ≤ int64_max)
    facts =
        outcome_sound (digits_value 0 ds) m (10 ^ length ds) ns n (digits_value-lt ds are_digits)
          pos_m small
          (sym (add_fraction_lem ns m ds are_digits (read_all_sound ds found.0 found.1).1 found.2)
            ∙ h)

-- What it must accept: an exact fraction whose product fits, under a total that fits.
pub add_fraction_complete :
    (ns m n : ℕ) (ds : Text)
    → AreDigits ds
    → ds ≢ []
    → length ds ≤ 18
    → digits_value 0 ds * m < u64_mod
    → n ≤ int64_max
    → 0 < m
    → m ≤ 3_600_000_000_000
    → n * 10 ^ length ds ≡ ns * 10 ^ length ds + digits_value 0 ds * m
    → add_fraction ns m ds ≡ ok n
add_fraction_complete ns m n ds h ne short prod big pos_m small e =
    add_fraction_lem ns m ds h ne short
    ∙ outcome_complete (digits_value 0 ds) m (10 ^ length ds) ns n (digits_value-lt ds h) pos_m
        small prod big e
