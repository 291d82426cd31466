-- ===== src/Capture/Utf8/Scalars.antt =====
-- The texts that `validUtf8` accepts are the encodings of scalar values.
use tracy_query.Prelude.{
  ℕ, zero, suc, ◌≤◌, ◌<◌, ◌≡◌, refl, sym, ap, ap₂, ◌∙◌, subst, true, some, List, [], ◌∷◌, ◌++◌,
  arith, leb, Option-cases, Text, length, take, drop, all, take-append-drop, All-split, take-nil,
  ◌↔◌, inl, inr,
}
use tracy_query.Capture.Utf8.{
  continuation_of, second_refused, sequence_valid, valid_loop, valid_utf8,
}
use tracy_query.Capture.Utf8.Tables.{is_continuation_lem}
use tracy_query.Capture.Utf8.Decode.{
  is_scalar, encode, encode_all, AreBytes, one, two, three, four, two_value, three_value,
  four_value,
}
use tracy_query.Capture.Utf8.Encoded.{complete_loop}

-- The text is the encoding of some scalar values.
abbrev pub EncodesScalars : Text → Type 0
EncodesScalars s = (ns : List ℕ) × (all is_scalar ns ≡ true) × (encode_all ns ≡ s)

with_head :
    (n : ℕ) (front rest : Text)
    → encode n ≡ front
    → is_scalar n ≡ true
    → EncodesScalars rest
    → EncodesScalars (front ++ rest)
with_head n front rest e h (ns, hs, es) = (n ∷ ns, ground arith, ap₂ (λ a b. a ++ b) e es)

-- The scalar value that a sequence encodes.
abbrev EncodedBy : Text → Type 0
EncodedBy front = (n : ℕ) × (encode n ≡ front) × (is_scalar n ≡ true)

encoded_by : (n : ℕ) (front : Text) → (encode n ≡ front) × (is_scalar n ≡ true) → EncodedBy front
encoded_by n front h = (n, h.0, h.1)

sequence_zero : (c : ℕ) (rest : Text) → leb c 0x7f ≡ true → EncodedBy (c ∷ take 0 rest)
sequence_zero c rest h = (c, (one c h).0 ∙ ap (λ r. c ∷ r) (sym (take-nil 0)), (one c h).1)

sequence_one :
    (c : ℕ) (rest : Text)
    → AreBytes rest
    → leb 0xc2 c ≡ true
    → leb c 0xdf ≡ true
    → sequence_valid 1 c rest ≡ true
    → EncodedBy (c ∷ take 1 rest)
unfolding sequence_valid second_refused
sequence_one c [] bytes h₁ h₂ h = ground arith
sequence_one c (d ∷ rest) bytes h₁ h₂ h =
    let k : (0x80 ≤ d) × (d ≤ 0xbf) = ground (arith, is_continuation_lem d bytes.0) in
    encoded_by (two_value c d) (c ∷ d ∷ []) (two c d (ground arith) (ground arith) k.0 k.1)

sequence_two :
    (c : ℕ) (rest : Text)
    → AreBytes rest
    → leb 0xe0 c ≡ true
    → leb c 0xef ≡ true
    → sequence_valid 2 c rest ≡ true
    → EncodedBy (c ∷ take 2 rest)
unfolding sequence_valid
sequence_two c [] bytes h₁ h₂ h = ground arith
sequence_two c (d ∷ []) bytes h₁ h₂ h = ground arith
sequence_two c (d ∷ e ∷ rest) bytes h₁ h₂ h =
    let k : (0x80 ≤ d) × (d ≤ 0xbf) = ground (arith, is_continuation_lem d bytes.0) in
    let l : (0x80 ≤ e) × (e ≤ 0xbf) = ground (arith, is_continuation_lem e bytes.1.0) in
    encoded_by (three_value c d e) (c ∷ d ∷ e ∷ [])
      (three c d e (ground arith) (ground arith) k.0 k.1 l.0 l.1 (ground arith))

sequence_three :
    (c : ℕ) (rest : Text)
    → AreBytes rest
    → leb 0xf0 c ≡ true
    → leb c 0xf4 ≡ true
    → sequence_valid 3 c rest ≡ true
    → EncodedBy (c ∷ take 3 rest)
unfolding sequence_valid
sequence_three c [] bytes h₁ h₂ h = ground arith
sequence_three c (d ∷ []) bytes h₁ h₂ h = ground arith
sequence_three c (d ∷ e ∷ []) bytes h₁ h₂ h = ground arith
sequence_three c (d ∷ e ∷ f ∷ rest) bytes h₁ h₂ h =
    let k : (0x80 ≤ d) × (d ≤ 0xbf) = ground (arith, is_continuation_lem d bytes.0) in
    let l : (0x80 ≤ e) × (e ≤ 0xbf) = ground (arith, is_continuation_lem e bytes.1.0) in
    let m : (0x80 ≤ f) × (f ≤ 0xbf) = ground (arith, is_continuation_lem f bytes.1.1.0) in
    encoded_by (four_value c d e f) (c ∷ d ∷ e ∷ f ∷ [])
      (four c d e f (ground arith) (ground arith) k.0 k.1 l.0 l.1 m.0 m.1 (ground arith))

sequence_encodes :
    (continuation c : ℕ) (rest : Text)
    → AreBytes rest
    → continuation_of c ≡ some continuation
    → sequence_valid continuation c rest ≡ true
    → EncodedBy (c ∷ take continuation rest)
unfolding continuation_of
sequence_encodes zero c rest bytes k h = sequence_zero c rest (ground arith)
sequence_encodes (suc zero) c rest bytes k h =
    sequence_one c rest bytes (ground arith) (ground arith) h
sequence_encodes (suc (suc zero)) c rest bytes k h =
    sequence_two c rest bytes (ground arith) (ground arith) h
sequence_encodes (suc (suc (suc zero))) c rest bytes k h =
    sequence_three c rest bytes (ground arith) (ground arith) h
sequence_encodes (suc (suc (suc (suc n)))) c rest bytes k h = ground arith

sound_loop : (fuel : ℕ) (s : Text) → AreBytes s → valid_loop fuel s ≡ true → EncodesScalars s
unfolding valid_loop
sound_loop fuel [] bytes h = ([], refl, refl)
sound_loop zero (c ∷ rest) bytes h = ground arith
sound_loop (suc fuel) (c ∷ rest) bytes h = elim (Option-cases (continuation_of c)) [
  | inl e ↦ ground arith
  | inr (k, e) ↦
      let parts : AreBytes (take k rest) × AreBytes (drop k rest) =
        All-split (λ c. c < 256) (take k rest) (drop k rest)
          (subst AreBytes (sym (take-append-drop k rest)) bytes.1) in
      let this : EncodedBy (c ∷ take k rest) = sequence_encodes k c rest bytes.1 e (ground arith) in
      let next : EncodesScalars (drop k rest) =
        sound_loop fuel (drop k rest) parts.1 (ground arith) in
      subst EncodesScalars (ap (λ r. c ∷ r) (take-append-drop k rest))
        (with_head this.0 (c ∷ take k rest) (drop k rest) this.1 this.2 next)
]

-- On bytes, `validUtf8` accepts a text exactly when it is the encoding, as the Unicode standard
-- defines it, of a list of scalar values (code points up to 0x10ffff that are no surrogates).
pub valid_utf8_iff : (s : Text) → AreBytes s → (valid_utf8 s ≡ true) ↔ EncodesScalars s
unfolding valid_utf8
valid_utf8_iff s bytes = (
  λ h. sound_loop (length s) s bytes h,
  λ (ns, h, e).
      subst (λ t. valid_loop (length t) t ≡ true) e
        (complete_loop ns h (length (encode_all ns)) (omega arith)),
)
