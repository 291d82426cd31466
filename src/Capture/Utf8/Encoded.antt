-- ===== src/Capture/Utf8/Encoded.antt =====
-- `validUtf8` accepts the encodings of scalar values.
use tracy_query.Prelude.{
  ℕ, zero, suc, ◌+◌, ◌/◌, ◌%◌, ◌≤◌, ◌<◌, ◌≡◌, refl, sym, subst, true, some, List, [], ◌∷◌, ◌++◌,
  arith, ltb, Bool-cases, Text, length, drop, all, length-append, inl, inr,
}
use tracy_query.Capture.Utf8.{
  continuation_of, is_continuation, second_refused, sequence_valid, valid_loop,
}
use tracy_query.Capture.Utf8.Tables.{is_continuation_lem}
use tracy_query.Capture.Utf8.Decode.{is_scalar, encode, encode_all}

-- The encoding of a scalar value passes one turn of the loop.
PassesLoop : Text → Text → Type 0
PassesLoop [] rest = Unit
PassesLoop (c ∷ front) rest =
    (continuation_of c ≡ some (length front))
    × (sequence_valid (length front) c (front ++ rest) ≡ true)

tail_byte : (x : ℕ) → is_continuation (0x80 + x % 64) ≡ true
tail_byte x = ground (arith, is_continuation_lem (0x80 + x % 64) (omega arith))

passes_two :
    (a b : ℕ) (rest : Text) → 2 ≤ a → a < 32 → PassesLoop ((0xc0 + a) ∷ (0x80 + b % 64) ∷ []) rest
unfolding PassesLoop continuation_of sequence_valid second_refused
passes_two a b rest h₁ h₂ = ground (arith, tail_byte b)

passes_three :
    (a b c : ℕ) (rest : Text)
    → a < 16
    → (a ≡ 0 → 32 ≤ b % 64)
    → (a ≡ 13 → b % 64 < 32)
    → PassesLoop ((0xe0 + a) ∷ (0x80 + b % 64) ∷ (0x80 + c % 64) ∷ []) rest
unfolding PassesLoop continuation_of sequence_valid second_refused
passes_three a b c rest h₁ h₂ h₃ = ground (arith, tail_byte b, tail_byte c)

passes_four :
    (a b c d : ℕ) (rest : Text)
    → a < 5
    → (a ≡ 0 → 16 ≤ b % 64)
    → (a ≡ 4 → b % 64 < 16)
    → PassesLoop ((0xf0 + a) ∷ (0x80 + b % 64) ∷ (0x80 + c % 64) ∷ (0x80 + d % 64) ∷ []) rest
unfolding PassesLoop continuation_of sequence_valid second_refused
passes_four a b c d rest h₁ h₂ h₃ = ground (arith, tail_byte b, tail_byte c, tail_byte d)

passes_by :
    (n : ℕ) (front rest : Text)
    → encode n ≡ front
    → PassesLoop front rest
    → PassesLoop (encode n) rest
passes_by n front rest e h = subst (λ s. PassesLoop s rest) (sym e) h

passes_one : (n : ℕ) (rest : Text) → n < 0x80 → PassesLoop (n ∷ []) rest
unfolding PassesLoop continuation_of sequence_valid second_refused
passes_one n rest h = ground arith

encode-PassesLoop : (n : ℕ) (rest : Text) → is_scalar n ≡ true → PassesLoop (encode n) rest
encode-PassesLoop n rest h = elim (Bool-cases (ltb n 0x80)) [
  | inl e ↦ passes_by n (n ∷ []) rest (ground arith) (passes_one n rest (ground arith))
  | inr e ↦ elim (Bool-cases (ltb n 0x800)) [
    | inl f ↦
        passes_by n ((0xc0 + n / 64) ∷ (0x80 + n % 64) ∷ []) rest (ground arith)
          (passes_two (n / 64) n rest (ground arith) (ground arith))
    | inr f ↦ elim (Bool-cases (ltb n 0x10000)) [
      | inl g ↦
          passes_by n ((0xe0 + n / 4096) ∷ (0x80 + n / 64 % 64) ∷ (0x80 + n % 64) ∷ []) rest
            (ground arith)
            (passes_three (n / 4096) (n / 64) n rest (ground arith) (ground arith) (ground arith))
      | inr g ↦
          passes_by n
            ((0xf0 + n / 262144)
              ∷ (0x80 + n / 4096 % 64)
              ∷ (0x80 + n / 64 % 64)
              ∷ (0x80 + n % 64)
              ∷ [])
            rest (ground arith)
            (passes_four (n / 262144) (n / 4096) (n / 64) n rest (ground arith) (ground arith)
              (ground arith))
    ]
  ]
]

drop-append : (xs ys : Text) → drop (length xs) (xs ++ ys) ≡ ys
drop-append [] ys = refl
drop-append (x ∷ xs) ys = drop-append xs ys

passed_loop :
    (fuel : ℕ) (front rest : Text)
    → PassesLoop front rest
    → length (front ++ rest) ≤ suc fuel
    → ((fuel : ℕ) → length rest ≤ fuel → valid_loop fuel rest ≡ true)
    → valid_loop (suc fuel) (front ++ rest) ≡ true
unfolding PassesLoop valid_loop
passed_loop fuel [] rest h le next = next (suc fuel) le
passed_loop fuel (c ∷ front) rest h le next =
    ground (arith, drop-append front rest, length-append front rest, next fuel)

pub complete_loop :
    (ns : List ℕ)
    → all is_scalar ns ≡ true
    → (fuel : ℕ) → length (encode_all ns) ≤ fuel
    → valid_loop fuel (encode_all ns) ≡ true
unfolding valid_loop
complete_loop [] h fuel le = refl
complete_loop (n ∷ ns) h zero le = ground arith
complete_loop (n ∷ ns) h (suc fuel) le =
    passed_loop fuel (encode n) (encode_all ns) (encode-PassesLoop n (encode_all ns) (ground arith))
      le (complete_loop ns (ground arith))
