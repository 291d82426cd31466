-- ===== src/Prelude/Decimal.antt =====
-- Decimal digits: `std::to_string` of an unsigned number, and `std::from_chars` of a `uint64_t`.
use tracy_query.Prelude.{
  u64_mod, ℕ, zero, suc, ◌+◌, ◌-◌, ◌*◌, ◌/◌, ◌%◌, ◌^◌, ◌<◌, ◌≡◌, ◌≢◌, refl, Bool, true, false, ◌&&◌,
  [], ◌∷◌, ◌++◌, Option, none, some, arith, ltb, leb, if◌then◌else◌, Text, is_empty, All, length,
  append_assoc,
}
use native.Mathlib.Nat.{pow-suc}
use tracy_query.Prelude.Int.{ℤ, pos, negsuc}

abbrev pub is_digit : ℕ → Bool
is_digit c = leb b'0' c && leb c b'9'

-- The leading digits, and what follows them.
unfoldable pub span_digits : Text → Text × Text
span_digits [] = ([], [])
span_digits (c ∷ cs) =
    let (ds, rest) = span_digits cs in if is_digit c then (c ∷ ds, rest) else ([], c ∷ cs)

unfoldable pub digits_value : ℕ → Text → ℕ
digits_value acc [] = acc
digits_value acc (c ∷ cs) = digits_value (acc * 10 + (c - b'0')) cs

-- The value read and the text after it; `none` for no digits, and for a value out of range.
unfoldable pub from_chars : Text → Option (ℕ × Text)
unfolding span_digits digits_value
from_chars s =
    let (ds, rest) = span_digits s in
    if is_empty ds
    then none
    else if ltb (digits_value 0 ds) u64_mod
    then some (digits_value 0 ds, rest)
    else none

to_digits : ℕ → ℕ → Text → Text
to_digits zero n acc = acc
to_digits (suc f) n acc =
    let rest = to_digits f (n / 10) ((b'0' + n % 10) ∷ acc) in
    if ltb n 10 then (b'0' + n) ∷ acc else rest

-- A number has fewer digits than one more than its value.
unfoldable pub to_string : ℕ → Text
unfolding to_digits
to_string n = to_digits (suc n) n []

-- All bytes are digits.
abbrev pub AreDigits : Text → Type 0
AreDigits = All (λ c. is_digit c ≡ true)

-- A text that does not begin with a digit.
abbrev pub NoDigitFirst : Text → Type 0
NoDigitFirst [] = Unit {0}
NoDigitFirst (c ∷ cs) = is_digit c ≡ false

pub span_digits-append :
    (ds rest : Text) → AreDigits ds → NoDigitFirst rest → span_digits (ds ++ rest) ≡ (ds, rest)
unfolding span_digits
span_digits-append [] [] h k = refl
span_digits-append [] (c ∷ cs) h k = ground arith
span_digits-append (d ∷ ds) rest h k = ground (arith, span_digits-append ds rest h.1 k)

pub digits_value-append :
    (acc : ℕ) (xs ys : Text) → digits_value acc (xs ++ ys) ≡ digits_value (digits_value acc xs) ys
unfolding digits_value
digits_value-append acc [] ys = refl
digits_value-append acc (x ∷ xs) ys = digits_value-append (acc * 10 + (x - b'0')) xs ys

-- The accumulator counts with a power of ten for each digit.
pub digits_value-shift :
    (acc : ℕ) (ds : Text) → digits_value acc ds ≡ acc * 10 ^ length ds + digits_value 0 ds
unfolding digits_value
digits_value-shift acc [] = omega arith
digits_value-shift acc (d ∷ ds) = rw pow-suc (
    omega (
      arith,
      digits_value-shift (acc * 10 + (d - b'0')) ds,
      digits_value-shift (0 + (d - b'0')) ds,
    ))

to_digits-AreDigits : (f n : ℕ) (acc : Text) → AreDigits acc → AreDigits (to_digits f n acc)
unfolding to_digits
to_digits-AreDigits zero n acc h = h
to_digits-AreDigits (suc f) n acc h =
    ground (arith, to_digits-AreDigits f (n / 10) ((b'0' + n % 10) ∷ acc))

pub to_string-AreDigits : (n : ℕ) → AreDigits (to_string n)
unfolding to_string
to_string-AreDigits n = to_digits-AreDigits (suc n) n [] tt

to_digits-append : (f n : ℕ) (acc : Text) → to_digits f n acc ≡ to_digits f n [] ++ acc
unfolding to_digits
to_digits-append zero n acc = refl
to_digits-append (suc f) n acc = ground (
  arith,
  to_digits-append f (n / 10) ((b'0' + n % 10) ∷ acc),
  to_digits-append f (n / 10) ((b'0' + n % 10) ∷ []),
  append_assoc (to_digits f (n / 10) []) ((b'0' + n % 10) ∷ []) acc,
)

to_digits_value : (f n : ℕ) → n < f → digits_value 0 (to_digits f n []) ≡ n
unfolding to_digits digits_value
to_digits_value zero n h = absurd (omega arith)
to_digits_value (suc f) n h = ground (
  arith,
  to_digits_value f (n / 10),
  to_digits-append f (n / 10) ((b'0' + n % 10) ∷ []),
  digits_value-append 0 (to_digits f (n / 10) []) ((b'0' + n % 10) ∷ []),
)

pub to_string_value : (n : ℕ) → digits_value 0 (to_string n) ≡ n
unfolding to_string
to_string_value n = to_digits_value (suc n) n (omega arith)

to_digits-ne-nil : (f n : ℕ) (acc : Text) → n < f → to_digits f n acc ≢ []
unfolding to_digits
to_digits-ne-nil zero n acc h = absurd (omega arith)
to_digits-ne-nil (suc f) n acc h =
    ground (arith, to_digits-ne-nil f (n / 10) ((b'0' + n % 10) ∷ acc))

pub to_string-ne-nil : (n : ℕ) → to_string n ≢ []
unfolding to_string
to_string-ne-nil n = to_digits-ne-nil (suc n) n [] (omega arith)

-- `std::to_string` and `<<` of a signed number.
unfoldable pub to_string_ℤ : ℤ → Text
unfolding to_string
to_string_ℤ (pos n) = to_string n
to_string_ℤ (negsuc n) = b'-' ∷ to_string (suc n)
