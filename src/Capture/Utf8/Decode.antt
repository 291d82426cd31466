-- ===== src/Capture/Utf8/Decode.antt =====
-- `validUtf8` accepts exactly the encodings of sequences of Unicode scalar values.
use tracy_query.Prelude.{
  ℕ, ◌+◌, ◌-◌, ◌*◌, ◌/◌, ◌%◌, ◌≤◌, ◌<◌, ◌≡◌, Bool, true, false, ◌&&◌, ◌||◌, List, [], ◌∷◌, ◌++◌,
  arith, ltb, leb, if◌then◌else◌, Text, All,
}
use tracy_query.Capture.Utf8.{second_refused}

-- Code points that are no surrogates.
abbrev pub is_scalar : ℕ → Bool
is_scalar n = ltb n 0xd800 || (leb 0xe000 n && ltb n 0x110000)

-- The encoding that the Unicode standard defines.
abbrev pub encode : ℕ → Text
encode n =
    if ltb n 0x80
    then n ∷ []
    else if ltb n 0x800
    then (0xc0 + n / 64) ∷ (0x80 + n % 64) ∷ []
    else if ltb n 0x10000
    then (0xe0 + n / 4096) ∷ (0x80 + n / 64 % 64) ∷ (0x80 + n % 64) ∷ []
    else (0xf0 + n / 262144) ∷ (0x80 + n / 4096 % 64) ∷ (0x80 + n / 64 % 64) ∷ (0x80 + n % 64) ∷ []

abbrev pub encode_all : List ℕ → Text
encode_all [] = []
encode_all (n ∷ ns) = encode n ++ encode_all ns

abbrev pub AreBytes : Text → Type 0
AreBytes = All (λ c. c < 256)

pub one : (c : ℕ) → leb c 0x7f ≡ true → (encode c ≡ c ∷ []) × (is_scalar c ≡ true)
one c h = ground arith

abbrev pub two_value : ℕ → ℕ → ℕ
two_value c d = (c - 0xc0) * 64 + (d - 0x80)

pub two :
    (c d : ℕ)
    → 0xc2 ≤ c
    → c ≤ 0xdf
    → 0x80 ≤ d
    → d ≤ 0xbf
    → (encode (two_value c d) ≡ c ∷ d ∷ []) × (is_scalar (two_value c d) ≡ true)
two c d h₁ h₂ h₃ h₄ = ground arith

abbrev pub three_value : ℕ → ℕ → ℕ → ℕ
three_value c d e = (c - 0xe0) * 4096 + (d - 0x80) * 64 + (e - 0x80)

pub three :
    (c d e : ℕ)
    → 0xe0 ≤ c
    → c ≤ 0xef
    → 0x80 ≤ d
    → d ≤ 0xbf
    → 0x80 ≤ e
    → e ≤ 0xbf
    → second_refused 2 c d ≡ false
    → (encode (three_value c d e) ≡ c ∷ d ∷ e ∷ []) × (is_scalar (three_value c d e) ≡ true)
unfolding second_refused
three c d e h₁ h₂ h₃ h₄ h₅ h₆ h = ground arith

abbrev pub four_value : ℕ → ℕ → ℕ → ℕ → ℕ
four_value c d e f = (c - 0xf0) * 262144 + (d - 0x80) * 4096 + (e - 0x80) * 64 + (f - 0x80)

pub four :
    (c d e f : ℕ)
    → 0xf0 ≤ c
    → c ≤ 0xf4
    → 0x80 ≤ d
    → d ≤ 0xbf
    → 0x80 ≤ e
    → e ≤ 0xbf
    → 0x80 ≤ f
    → f ≤ 0xbf
    → second_refused 3 c d ≡ false
    → (encode (four_value c d e f) ≡ c ∷ d ∷ e ∷ f ∷ []) × (is_scalar (four_value c d e f) ≡ true)
unfolding second_refused
four c d e f h₁ h₂ h₃ h₄ h₅ h₆ h₇ h₈ h = ground arith
