-- ===== src/Time.antt =====
-- src/time.cpp: relative times on the command line, and timestamps relative to a trace's first.
pub mod Parts
pub mod Fraction
pub mod Split
pub mod Value
pub mod Complete
use tracy_query.Prelude.{
  sub_u64, u64_mod, ℕ, zero, suc, ◌+◌, ◌-◌, ◌*◌, ◌/◌, ◌%◌, ◌^◌, ◌&&◌, ◌||◌, not, Option, none, some,
  [], ◌∷◌, ◌++◌, ltb, leb, ◌==◌, if◌then◌else◌, Result, ok, err, ◌>>=◌, ◌>>◌, or_fail, guard, Text,
  codes, text_eq, is_empty, length,
}
use tracy_query.Prelude.Decimal.{span_digits, from_chars}
use tracy_query.Prelude.Int.{ℤ, leb_ℤ, ◌-ℤ◌, neg}

pub data Special : Type 0 where
  number start end : Special

pub record ParsedTime : Type 0 where
  pub special : Special
  pub nanoseconds : ℕ

abbrev pub int64_max : ℕ
int64_max = 2 ^ 63 - 1

-- `none` for a product that a `uint64_t` cannot hold.
unfoldable pub checked_multiply : ℕ → ℕ → Option ℕ
checked_multiply left right =
    if not (left == 0) && ltb ((u64_mod - 1) / left) right
    then none
    else some (left * right % u64_mod)

unfoldable pub multiplier_of : Text → Option ℕ
unfolding text_eq
multiplier_of unit =
    if is_empty unit || text_eq unit (codes "ns")
    then some 1
    else if text_eq unit (codes "us")
    then some 1_000
    else if text_eq unit (codes "ms")
    then some 1_000_000
    else if text_eq unit (codes "s")
    then some 1_000_000_000
    else if text_eq unit (codes "m")
    then some 60_000_000_000
    else if text_eq unit (codes "h")
    then some 3_600_000_000_000
    else none

abbrev pub too_large : Text
too_large = codes "time value is too large"

-- The text cut at `integer_end` and `number_end`: digits, the fraction's digits if there is a
-- point, and the unit.
pub record Pieces : Type 0 where
  pub whole : Text
  pub fraction : Option Text
  pub unit : Text

-- After the integer digits: the point and its digits, if there is one.
unfoldable pub split_fraction : Text → Text → Result Pieces
unfolding span_digits
split_fraction ds [] = ok (record { whole = ds; fraction = none; unit = [] })
split_fraction ds (c ∷ cs) =
    if c == b'.'
    then (let (fs, unit) = span_digits cs in
        if is_empty fs
        then err (codes "fractional time requires digits after the decimal point")
        else ok (record { whole = ds; fraction = some fs; unit = unit }))
    else ok (record { whole = ds; fraction = none; unit = c ∷ cs })

unfoldable pub split_time : Text → Result Pieces
unfolding split_fraction
split_time t = let (ds, rest) = span_digits t in split_fraction ds rest

-- `for (i < fraction_length) scale *= 10`
unfoldable pub scale_loop : ℕ → ℕ → ℕ
scale_loop zero scale = scale
scale_loop (suc n) scale = scale_loop n (scale * 10 % u64_mod)

-- The whole text is digits and their value fits: the call of `from_chars` and the tests after it.
unfoldable pub read_all : Text → Option ℕ
unfolding from_chars
read_all ds = elim (from_chars ds) [
  | none ↦ none
  | some (n, rest) ↦ if is_empty rest then some n else none
]

-- `nanoseconds` with the fraction's digits added.
unfoldable pub add_fraction : ℕ → ℕ → Text → Result ℕ
add_fraction nanoseconds multiplier digits = do
  guard (leb (length digits) 18) (codes "fractional time has too many digits")
  fraction ← or_fail (read_all digits) (codes "invalid fractional time")
  scaled_fraction ← or_fail (checked_multiply fraction multiplier) too_large
  let scale = scale_loop (length digits) 1
  guard (scaled_fraction % scale == 0) (codes "time value has sub-nanosecond precision")
  let fractional_ns = scaled_fraction / scale
  guard (leb nanoseconds (sub_u64 int64_max fractional_ns)) too_large
  ok ((nanoseconds + fractional_ns) % u64_mod)

unfoldable pub with_fraction : ℕ → ℕ → Option Text → Result ℕ
with_fraction nanoseconds multiplier none = ok nanoseconds
with_fraction nanoseconds multiplier (some digits) = add_fraction nanoseconds multiplier digits

unfoldable pub parse_pieces : Pieces → Result ParsedTime
parse_pieces p = do
  guard (not (is_empty p.whole)) (codes "time must be a non-negative number or 'start'/'end'")
  multiplier ← or_fail (multiplier_of p.unit) (codes "unknown time unit '" ++ (p.unit ++ codes "'"))
  whole ← or_fail (read_all p.whole) too_large
  nanoseconds ← or_fail (checked_multiply whole multiplier) too_large
  total ← with_fraction nanoseconds multiplier p.fraction
  guard (leb total int64_max) too_large
  ok (record { special = Special.number; nanoseconds = total })

unfoldable pub parse_time : Text → Result ParsedTime
unfolding text_eq
parse_time text =
    if text_eq text (codes "start")
    then ok (record { special = Special.start; nanoseconds = 0 })
    else if text_eq text (codes "end")
    then ok (record { special = Special.end; nanoseconds = 0 })
    else if is_empty text
    then err (codes "time value is empty")
    else split_time text >>= parse_pieces

unfoldable pub normalize_timestamp : ℤ → ℤ → ℤ
unfolding ◌-ℤ◌ neg
normalize_timestamp tracy_timestamp first_timestamp =
    if leb_ℤ first_timestamp tracy_timestamp
    then tracy_timestamp -ℤ first_timestamp
    else neg (first_timestamp -ℤ tracy_timestamp)
