-- ===== src/Tests/Times.antt =====
-- Times: src/time.cpp, at concrete texts.
use tracy_query.Prelude.{ℕ, ◌≤◌, ◌≡◌, refl, some, arith, ok, err, codes}
use tracy_query.Prelude.Decimal.{AreDigits, digits_value}
use tracy_query.Time.{
  Special, split_time, parse_pieces, read_all, with_fraction, add_fraction, scale_loop, ParsedTime,
  parse_time, int64_max, too_large, checked_multiply, multiplier_of,
}
use tracy_query.Time.Value.{IsTime, parse_time_sound}
use tracy_query.Time.Complete.{parse_time_complete, parse_time_overflow}

abbrev number : ℕ → ParsedTime
number n = record { special = Special.number; nanoseconds = n }

parse_time_bare : parse_time (codes "7") ≡ ok (number 7)
unfolding parse_time split_time parse_pieces multiplier_of read_all checked_multiply with_fraction
    add_fraction scale_loop
parse_time_bare = refl

parse_time_start :
    parse_time (codes "start") ≡ ok (record { special = Special.start; nanoseconds = 0 })
unfolding parse_time split_time parse_pieces multiplier_of read_all checked_multiply with_fraction
    add_fraction scale_loop
parse_time_start = refl

parse_time_sound_example : IsTime (codes "1.5s") 1_500_000_000 × (1_500_000_000 ≤ int64_max)
unfolding parse_time split_time parse_pieces multiplier_of read_all checked_multiply with_fraction
    add_fraction scale_loop
parse_time_sound_example = parse_time_sound (codes "1.5s") (number 1_500_000_000) refl refl

abbrev seconds : IsTime (codes "1.5s") 1_500_000_000
unfolding multiplier_of digits_value
seconds = record {
  pieces = record { whole = codes "1"; fraction = some (codes "5"); unit = codes "s" };
  multiplier = 1_000_000_000;
  text = refl;
  whole = ((refl, tt), λ e. ground arith);
  fraction = (ground arith, λ e. ground arith);
  unit = refl;
  value = refl;
}

parse_time_complete_example : parse_time (codes "1.5s") ≡ ok (number 1_500_000_000)
unfolding digits_value seconds
parse_time_complete_example =
    parse_time_complete (codes "1.5s") 1_500_000_000 seconds ((refl, tt), λ e. ground arith)
      (omega arith) (omega arith) (omega arith)

abbrev half_hour : IsTime (codes "0.500000000000000000h") 1_800_000_000_000
unfolding multiplier_of digits_value
half_hour = record {
  pieces = record {
    whole = codes "0";
    fraction = some (codes "500000000000000000");
    unit = codes "h";
  };
  multiplier = 3_600_000_000_000;
  text = refl;
  whole = ((refl, tt), λ e. ground arith);
  fraction = (ground arith, λ e. ground arith);
  unit = refl;
  value = refl;
}

eighteen_digits : AreDigits (codes "500000000000000000")
eighteen_digits = ground arith

parse_time_overflow_example : parse_time (codes "0.500000000000000000h") ≡ err too_large
unfolding digits_value half_hour
parse_time_overflow_example =
    parse_time_overflow (codes "0.500000000000000000h") 1_800_000_000_000 half_hour
      (eighteen_digits, λ e. ground arith) (omega arith) (omega arith) (omega arith)
