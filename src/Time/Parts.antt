-- ===== src/Time/Parts.antt =====
-- The parts of `parse_time`: what each accepts and computes (src/time.cpp).
use tracy_query.Prelude.{
  u64_mod, ℕ, zero, suc, ◌+◌, ◌-◌, ◌*◌, ◌/◌, ◌^◌, ◌≤◌, ◌<◌, ◌≡◌, refl, sym, ap, ◌∙◌, subst, true,
  false, not, none, some, [], ◌∷◌, ◌++◌, append-nil, arith, ltb, ◌==◌, if◌then◌else◌, Text, length,
  ◌≢◌,
}
use native.Mathlib.Nat.{pow-suc, mod-eq_of_lt, one-le-pow}
use tracy_query.Prelude.Decimal.{
  span_digits, digits_value, AreDigits, span_digits-append, digits_value-shift,
}
use tracy_query.Time.{checked_multiply, scale_loop, read_all}

checked_lt : (a b : ℕ) → not (a == 0) ≡ true → ltb ((u64_mod - 1) / a) b ≡ true → u64_mod ≤ a * b
checked_lt a b h k = grind arith

checked_ge : (a b : ℕ) → ltb ((u64_mod - 1) / a) b ≡ false → not (a == 0) ≡ true → a * b < u64_mod
checked_ge a b h k = grind arith

-- `checked_multiply` refuses exactly the products that do not fit, and never wraps.
pub checked_multiply_lem :
    (a b : ℕ) → checked_multiply a b ≡ (if ltb (a * b) u64_mod then some (a * b) else none)
unfolding checked_multiply
checked_multiply_lem a b = ground (arith, checked_lt a b, checked_ge a b)

scaled_fits :
    (s p : ℕ) → 1 ≤ p → s * (p * 10) < u64_mod → (s * 10 < u64_mod) × (s * 10 * p < u64_mod)
scaled_fits s p h k = (grind arith, omega arith)

pub scale_loop_lem : (n s : ℕ) → s * 10 ^ n < u64_mod → scale_loop n s ≡ s * 10 ^ n
unfolding scale_loop
scale_loop_lem zero s h = omega arith
scale_loop_lem (suc n) s h =
    rw (mod-eq_of_lt fits.0) (scale_loop_lem n (s * 10) fits.1 ∙ rw pow-suc (omega arith))
  where
    fits : (s * 10 < u64_mod) × (s * 10 * 10 ^ n < u64_mod)
    fits = scaled_fits s (10 ^ n) (one-le-pow n 10 (omega arith)) (rw pow-suc at h)

digit_step : (d p v : ℕ) → d ≤ 9 → v < p → d * p + v < p * 10
digit_step d p v h k = grind arith

pub digits_value-lt : (ds : Text) → AreDigits ds → digits_value 0 ds < 10 ^ length ds
unfolding digits_value
digits_value-lt [] h = omega arith
digits_value-lt (d ∷ ds) h =
    rw (pow-suc, digits_value-shift (0 + (d - b'0')) ds)
      (digit_step (0 + (d - b'0')) (10 ^ length ds) (digits_value 0 ds) (ground arith)
        (digits_value-lt ds h.1))

-- The leading digits are digits, what follows begins with none, and together they are the text.
pub span_digits-append_self : (t : Text) → (span_digits t).0 ++ (span_digits t).1 ≡ t
unfolding span_digits
span_digits-append_self [] = refl
span_digits-append_self (c ∷ cs) = ground (arith, span_digits-append_self cs)

pub span_digits-AreDigits : (t : Text) → AreDigits (span_digits t).0
unfolding span_digits
span_digits-AreDigits [] = tt
span_digits-AreDigits (c ∷ cs) = ground (arith, span_digits-AreDigits cs)

pub read_all-digits :
    (ds : Text)
    → AreDigits ds
    → ds ≢ []
    → read_all ds ≡ (if ltb (digits_value 0 ds) u64_mod then some (digits_value 0 ds) else none)
unfolding read_all
read_all-digits ds h ne = ground (arith, rw (append-nil) at (span_digits-append ds [] h tt))

read_all_whole : (ds : Text) (n : ℕ) → read_all ds ≡ some n → (span_digits ds).1 ≡ []
unfolding read_all
read_all_whole ds n h = ground arith

read_all_nonempty : (ds : Text) (n : ℕ) → read_all ds ≡ some n → ds ≢ []
unfolding read_all
read_all_nonempty [] n h = cc
read_all_nonempty (d ∷ ds) n h = λ e. cc

read_all_value :
    (ds : Text) (n : ℕ)
    → read_all ds ≡ some n
    → (n ≡ digits_value 0 (span_digits ds).0) × (n < u64_mod)
unfolding read_all
read_all_value ds n h = ground arith

span_whole : (ds : Text) → (span_digits ds).1 ≡ [] → (span_digits ds).0 ≡ ds
span_whole ds e =
    sym (append-nil _) ∙ ap (◌++◌ (span_digits ds).0) (sym e) ∙ span_digits-append_self ds

-- What `read_all` accepts is a number written in digits.
pub read_all_sound :
    (ds : Text) (n : ℕ)
    → read_all ds ≡ some n
    → AreDigits ds × (ds ≢ []) × (n ≡ digits_value 0 ds) × (n < u64_mod)
read_all_sound ds n h =
    (subst AreDigits whole (span_digits-AreDigits ds), read_all_nonempty ds n h, facts.0, facts.1)
  where
    whole : (span_digits ds).0 ≡ ds
    whole = span_whole ds (read_all_whole ds n h)

    facts : (n ≡ digits_value 0 ds) × (n < u64_mod)
    facts = rw whole at (read_all_value ds n h)
