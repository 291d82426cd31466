-- ===== src/Time/Value.antt =====
-- The time that `parse_time` reads (src/time.cpp).
use tracy_query.Prelude.{
  u64_mod, ℕ, ◌+◌, ◌*◌, ◌^◌, ◌≤◌, ◌<◌, ◌≡◌, ap, ◌∙◌, Option, none, some, [], arith, ok, Text,
  length, ◌≢◌,
}
use tracy_query.Prelude.Decimal.{digits_value, AreDigits}
use tracy_query.Prelude.Int.{ℤ, ◌-ℤ◌}
use tracy_query.Time.{
  Special, ParsedTime, Pieces, int64_max, parse_time, parse_pieces, split_time, multiplier_of,
  with_fraction, add_fraction, read_all, checked_multiply, normalize_timestamp,
}
use tracy_query.Time.Parts.{read_all_sound, checked_multiply_lem}
use tracy_query.Time.Fraction.{multiplier_bounds, add_fraction_sound}
use tracy_query.Time.Split.{WellFraction, render, split_time_sound}

abbrev pub fraction_digits : Option Text → Text
fraction_digits none = []
fraction_digits (some fs) = fs

-- The pieces denote `n` nanoseconds in a unit of `m`: the decimal number, exactly. With `k` digits
-- after the point, `n * 10 ^ k` is the number without its point times `m`.
abbrev pub Denotes : Pieces → ℕ → ℕ → Type 0
Denotes p m n =
    let fs = fraction_digits p.fraction in
    n * 10 ^ length fs ≡ digits_value 0 p.whole * m * 10 ^ length fs + digits_value 0 fs * m

-- Some reading of the text as digits, then perhaps a point and digits, then a unit denotes `n`.
pub record IsTime (t : Text) (n : ℕ) : Type 0 where
  pub pieces : Pieces
  pub multiplier : ℕ
  pub text : render pieces ≡ t
  pub whole : AreDigits pieces.whole × (pieces.whole ≢ [])
  pub fraction : WellFraction pieces.fraction
  pub unit : multiplier_of pieces.unit ≡ some multiplier
  pub value : Denotes pieces multiplier n

with_fraction_sound :
    (w m n : ℕ) (o : Option Text)
    → 0 < m
    → m ≤ 3_600_000_000_000
    → with_fraction w m o ≡ ok n
    → let fs = fraction_digits o in n * 10 ^ length fs ≡ w * 10 ^ length fs + digits_value 0 fs * m
unfolding with_fraction digits_value
with_fraction_sound w m n none h k e = ground arith
with_fraction_sound w m n (some fs) h k e = (add_fraction_sound w m n fs h k e).1

with_fraction_digits : (w m n : ℕ) (o : Option Text) → with_fraction w m o ≡ ok n → WellFraction o
unfolding with_fraction add_fraction
with_fraction_digits w m n none e = tt
with_fraction_digits w m n (some fs) e =
    let (v, read) : (v : ℕ) × (read_all fs ≡ some v) = ground arith in
    let parts = read_all_sound fs v read in (parts.0, parts.1)

-- What `parse_pieces` has established when it returns.
Parsed : Pieces → ParsedTime → Type 0
Parsed p r =
    (m : ℕ) × (w : ℕ) × (x : ℕ) × (multiplier_of p.unit ≡ some m)
    × (read_all p.whole ≡ some w)
    × (checked_multiply w m ≡ some x)
    × (with_fraction x m p.fraction ≡ ok r.nanoseconds)
    × (r.nanoseconds ≤ int64_max)
    × (r.special ≡ Special.number)

parse_pieces-Parsed : (p : Pieces) (r : ParsedTime) → parse_pieces p ≡ ok r → Parsed p r
unfolding parse_pieces Parsed
parse_pieces-Parsed p r h = ground arith

parse_time_pieces :
    (t : Text) (r : ParsedTime)
    → parse_time t ≡ ok r
    → r.special ≡ Special.number
    → (p : Pieces) × (split_time t ≡ ok p) × (parse_pieces p ≡ ok r)
unfolding parse_time
parse_time_pieces t r h n = ground arith

product_of : (w m x : ℕ) → checked_multiply w m ≡ some x → x ≡ w * m
product_of w m x h = ground (arith, checked_multiply_lem w m)

Parsed-IsTime :
    (t : Text) (p : Pieces) (r : ParsedTime) → render p ≡ t → Parsed p r → IsTime t r.nanoseconds
unfolding Parsed
Parsed-IsTime t p r e (m, w, x, u, rd, cm, wf, fits, num) = record {
  pieces = p;
  multiplier = m;
  text = e;
  whole = (digits.0, digits.1);
  unit = u;
  fraction = with_fraction_digits x m r.nanoseconds p.fraction wf;
  value =
      with_fraction_sound x m r.nanoseconds p.fraction (multiplier_bounds p.unit m u).0
        (multiplier_bounds p.unit m u).1 wf
      ∙ ap (λ (y : ℕ). y * 10 ^ length fs + digits_value 0 fs * m)
          (product_of w m x cm ∙ ap (λ (v : ℕ). v * m) digits.2);
}
  where
    digits : AreDigits p.whole × (p.whole ≢ []) × (w ≡ digits_value 0 p.whole) × (w < u64_mod)
    digits = read_all_sound p.whole w rd

    fs : Text
    fs = fraction_digits p.fraction

-- A text that is accepted as a number is digits, perhaps with a point and digits, and a unit; it
-- denotes the result exactly, and the result is an `int64_t`.
pub parse_time_sound :
    (t : Text) (r : ParsedTime)
    → parse_time t ≡ ok r
    → r.special ≡ Special.number
    → IsTime t r.nanoseconds × (r.nanoseconds ≤ int64_max)
unfolding Parsed
parse_time_sound t r h n = (Parsed-IsTime t p r (split_time_sound t p found.1) parsed, parsed.7)
  where
    found : (p : Pieces) × (split_time t ≡ ok p) × (parse_pieces p ≡ ok r)
    found = parse_time_pieces t r h n

    p : Pieces
    p = found.0

    parsed : Parsed p r
    parsed = parse_pieces-Parsed p r found.2

-- A normalized timestamp is the distance from the first one, before it as well as after.
pub normalize_timestamp_lem : (a b : ℤ) → normalize_timestamp a b ≡ a -ℤ b
unfolding normalize_timestamp
normalize_timestamp_lem a b = ground arith
