-- ===== src/Output/RoundTrip.antt =====
-- What is written as a JSON object is read back with its names and values (src/output.cpp).
use tracy_query.Prelude.{
  ℕ, zero, suc, ◌≤◌, ◌<◌, ◌≡◌, refl, ap, ◌∙◌, Bool, true, false, some, List, [], ◌∷◌, ◌++◌,
  append_assoc, arith, if◌then◌else◌, Bool-cases, Text, codes, All, length, drop, all,
  length-append, length-drop, ◌≢◌, ◌⊎◌, inl, inr,
}
use tracy_query.Prelude.Decimal.{
  AreDigits, to_string, to_string-AreDigits, to_string-ne-nil, to_string_ℤ, digits_value,
  to_string_value,
}
use tracy_query.Prelude.Int.{ℤ, pos, negsuc}
use tracy_query.Model.{OutputFormat, Value, Fields}
use tracy_query.Output.{quoted, is_finite, emit_value, emit_json_fields, emit_object}
use tracy_query.Output.Escape.{read_string-json_escape}
use tracy_query.Output.Read.{
  Token, str, bare, is_bare, span_bare, read_token, read_pair, read_pairs, read_object, token_of,
}

-- A bare value: not empty, and of bytes that end no value and begin no string.
abbrev pub IsBare : Text → Type 0
IsBare w = All (λ c. is_bare c ≡ true) w × (w ≢ [])

-- A byte that may follow a value.
abbrev IsEnd : ℕ → Type 0
IsEnd c = (c ≡ b',') ⊎ (c ≡ b'}')

span_bare-append :
    (w : Text) (c : ℕ) (rest : Text)
    → All (λ b. is_bare b ≡ true) w
    → IsEnd c
    → span_bare (w ++ c ∷ rest) ≡ (w, c ∷ rest)
unfolding span_bare
span_bare-append [] c rest h e = ground arith
span_bare-append (b ∷ w) c rest h e = ground (arith, span_bare-append w c rest h.1 e)

read_token-bare :
    (w : Text) (c : ℕ) (rest : Text)
    → IsBare w
    → IsEnd c
    → read_token (w ++ c ∷ rest) ≡ some (bare w, c ∷ rest)
unfolding read_token
read_token-bare [] c rest h e = absurd (h.1 refl)
read_token-bare (b ∷ w) c rest h e = ground (arith, span_bare-append (b ∷ w) c rest h.0 e)

read_token-quoted : (s rest : Text) → read_token (quoted s ++ rest) ≡ some (str s, rest)
unfolding read_token quoted
read_token-quoted s rest = rw append_assoc (ground (arith, read_string-json_escape s rest))

literal_bare : (w : Text) → all is_bare w ≡ true → All (λ c. is_bare c ≡ true) w
literal_bare [] h = tt
literal_bare (c ∷ cs) h = (ground arith, literal_bare cs (ground arith))

digits-bare : (ds : Text) → AreDigits ds → All (λ c. is_bare c ≡ true) ds
digits-bare [] h = tt
digits-bare (d ∷ ds) h = (ground arith, digits-bare ds h.1)

to_string-IsBare : (n : ℕ) → IsBare (to_string n)
to_string-IsBare n = (digits-bare _ (to_string-AreDigits n), to_string-ne-nil n)

to_string_ℤ-IsBare : (n : ℤ) → IsBare (to_string_ℤ n)
unfolding to_string_ℤ
to_string_ℤ-IsBare (pos n) = to_string-IsBare n
to_string_ℤ-IsBare (negsuc n) = ((refl, (to_string-IsBare (suc n)).0), λ e. cc)

-- The digits of the number, after a sign.
abbrev pub Decimal : ℕ → Text → Token → Type 0
Decimal n sign t =
    (digits : Text) × (t ≡ bare (sign ++ digits))
    × AreDigits digits
    × (digits ≢ [])
    × (digits_value 0 digits ≡ n)

to_string-Decimal : (n : ℕ) (sign : Text) → Decimal n sign (bare (sign ++ to_string n))
to_string-Decimal n sign =
    (to_string n, refl, to_string-AreDigits n, to_string-ne-nil n, to_string_value n)

module _ (format_double : ℕ → Text) (formatted : (bits : ℕ) → IsBare (format_double bits)) where
  read_token-emit_value :
      (v : Value) (c : ℕ) (rest : Text)
      → IsEnd c
      → read_token (emit_value format_double v ++ c ∷ rest)
        ≡ some (token_of format_double v, c ∷ rest)
  unfolding emit_value token_of
  read_token-emit_value Value.null c rest e =
      read_token-bare (codes "null") c rest (literal_bare (codes "null") refl, λ e. cc) e
  read_token-emit_value (Value.boolean true) c rest e =
      read_token-bare (codes "true") c rest (literal_bare (codes "true") refl, λ e. cc) e
  read_token-emit_value (Value.boolean false) c rest e =
      read_token-bare (codes "false") c rest (literal_bare (codes "false") refl, λ e. cc) e
  read_token-emit_value (Value.int64 n) c rest e = read_token-bare _ c rest (to_string_ℤ-IsBare n) e
  read_token-emit_value (Value.uint64 n) c rest e = read_token-bare _ c rest (to_string-IsBare n) e
  read_token-emit_value (Value.double bits) c rest e = elim (Bool-cases (is_finite bits)) [
    | inl finite ↦ rw finite (read_token-bare (format_double bits) c rest (formatted bits) e)
    | inr infinite ↦
        rw infinite
          (read_token-bare (codes "null") c rest (literal_bare (codes "null") refl, λ e. cc) e)
  ]
  read_token-emit_value (Value.string s) c rest e = read_token-quoted s (c ∷ rest)

  read_pair-emit :
      (name : Text) (v : Value) (c : ℕ) (rest : Text)
      → IsEnd c
      → read_pair (quoted name ++ (b':' ∷ (emit_value format_double v ++ c ∷ rest)))
        ≡ some ((name, token_of format_double v), c ∷ rest)
  unfolding read_pair quoted
  read_pair-emit name v c rest e = rw append_assoc (
      ground (
        arith,
        read_string-json_escape name (b':' ∷ (emit_value format_double v ++ c ∷ rest)),
        read_token-emit_value v c rest e,
      ))

  -- The names and tokens of a list of fields.
  tokens : Fields → List (Text × Token)
  tokens [] = []
  tokens ((name, value) ∷ fields) = (name, token_of format_double value) ∷ tokens fields

  emit-append :
      (name : Text) (v : Value) (fields : Fields) (rest : Text)
      → emit_json_fields format_double true ((name, v) ∷ fields) ++ rest
        ≡ quoted name
          ++ (b':'
              ∷ (emit_value format_double v
                  ++ (emit_json_fields format_double false fields ++ rest)))
  unfolding emit_json_fields
  emit-append name v fields rest =
      append_assoc (quoted name) _ rest
      ∙ ap (λ t. quoted name ++ b':' ∷ t)
          (append_assoc (emit_value format_double v) (emit_json_fields format_double false fields)
            rest)

  emit-false :
      (f : Text × Value) (fields : Fields) (rest : Text)
      → emit_json_fields format_double false (f ∷ fields) ++ rest
        ≡ b',' ∷ (emit_json_fields format_double true (f ∷ fields) ++ rest)
  unfolding emit_json_fields
  emit-false f fields rest = refl

  emit-nil : (rest : Text) → emit_json_fields format_double false [] ++ rest ≡ rest
  unfolding emit_json_fields
  emit-nil rest = refl

  read_pairs-emit :
      (fuel : ℕ) (name : Text) (v : Value) (fields : Fields) (rest : Text)
      → length fields < fuel
      → read_pairs fuel (emit_json_fields format_double true ((name, v) ∷ fields) ++ b'}' ∷ rest)
        ≡ some (tokens ((name, v) ∷ fields), rest)
  unfolding read_pairs tokens
  read_pairs-emit zero name v fields rest h = absurd (omega arith)
  read_pairs-emit (suc fuel) name v [] rest h =
      rw (emit-append name v [] (b'}' ∷ rest), emit-nil (b'}' ∷ rest))
        (ground (arith, read_pair-emit name v b'}' rest (inr refl)))
  read_pairs-emit (suc fuel) name v ((name', v') ∷ fields) rest h =
      let after = emit_json_fields format_double true ((name', v') ∷ fields) ++ b'}' ∷ rest in
      rw
        (
          emit-append name v ((name', v') ∷ fields) (b'}' ∷ rest),
          emit-false (name', v') fields (b'}' ∷ rest),
        )
        (ground (
          arith,
          read_pair-emit name v b',' after (inl refl),
          read_pairs-emit fuel name' v' fields rest (omega arith),
        ))

  -- There are at least as many bytes as fields.
  length-emit :
      (first : Bool) (fields : Fields)
      → length fields ≤ length (emit_json_fields format_double first fields)
  unfolding emit_json_fields
  length-emit first [] = omega arith
  length-emit first ((name, v) ∷ fields) =
      let rest = emit_json_fields format_double false fields in
      let pair = b':' ∷ (emit_value format_double v ++ rest) in
      omega (
        arith,
        length-emit false fields,
        length-append (emit_value format_double v) rest,
        length-append (quoted name) pair,
        length-append (if first then [] else b',' ∷ []) (quoted name ++ pair),
      )

  read_object-tokens :
      (fields : Fields)
      → read_object (emit_object format_double OutputFormat.json_lines fields)
        ≡ some (tokens fields, 0x0a ∷ [])
  unfolding emit_object read_object tokens
  read_object-tokens [] = refl
  read_object-tokens ((name, v) ∷ fields) =
      read_pairs-emit (length (drop 1 line)) name v fields (0x0a ∷ []) enough
    where
      body : Text
      body = emit_json_fields format_double true ((name, v) ∷ fields)

      line : Text
      line = body ++ b'}' ∷ 0x0a ∷ []

      enough : length fields < length (drop 1 line)
      enough = omega (
        arith,
        length-drop 1 line,
        length-append body (b'}' ∷ 0x0a ∷ []),
        length-emit true ((name, v) ∷ fields),
      )

  -- The token stands for the value: numbers in decimal, an infinite or undefined double as null.
  abbrev pub Means : Value → Token → Type 0
  Means Value.null t = t ≡ bare (codes "null")
  Means (Value.boolean true) t = t ≡ bare (codes "true")
  Means (Value.boolean false) t = t ≡ bare (codes "false")
  Means (Value.int64 (pos n)) t = Decimal n [] t
  Means (Value.int64 (negsuc n)) t = Decimal (suc n) (b'-' ∷ []) t
  Means (Value.uint64 n) t = Decimal n [] t
  Means (Value.double bits) t =
      t ≡ bare (if is_finite bits then format_double bits else codes "null")
  Means (Value.string s) t = t ≡ str s

  -- The same names in the same order, each with a token that stands for its value.
  abbrev pub AllMean : Fields → List (Text × Token) → Type 0
  AllMean [] [] = Unit
  AllMean ((name, v) ∷ fields) ((name', t) ∷ ts) = (name' ≡ name) × Means v t × AllMean fields ts
  AllMean [] (t ∷ ts) = ⊥
  AllMean (f ∷ fields) [] = ⊥

  token_of-Means : (v : Value) → Means v (token_of format_double v)
  unfolding token_of emit_value to_string_ℤ
  token_of-Means Value.null = refl
  token_of-Means (Value.boolean true) = refl
  token_of-Means (Value.boolean false) = refl
  token_of-Means (Value.int64 (pos n)) = to_string-Decimal n []
  token_of-Means (Value.int64 (negsuc n)) = to_string-Decimal (suc n) (b'-' ∷ [])
  token_of-Means (Value.uint64 n) = to_string-Decimal n []
  token_of-Means (Value.double bits) = refl
  token_of-Means (Value.string s) = refl

  tokens-AllMean : (fields : Fields) → AllMean fields (tokens fields)
  unfolding tokens
  tokens-AllMean [] = tt
  tokens-AllMean ((name, v) ∷ fields) = (refl, token_of-Means v, tokens-AllMean fields)

  -- An object line is read back as its names, in order, each with a token that stands for its
  -- value, and then the line's end, where the text of a double is not empty and has no byte that
  -- ends a value.
  pub read_object-emit_object :
      (fields : Fields)
      → (ts : List (Text × Token)) × (read_object
            (emit_object format_double OutputFormat.json_lines fields)
          ≡ some (ts, 0x0a ∷ []))
        × AllMean fields ts
  read_object-emit_object fields = (tokens fields, read_object-tokens fields, tokens-AllMean fields)
