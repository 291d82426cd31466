-- ===== src/Output/Lines.antt =====
-- One object, one line (src/output.cpp): no byte of a name or a value can break a line.
use tracy_query.Prelude.{
  ℕ, suc, ◌≤◌, ◌≡◌, refl, sym, ap, Bool, true, false, [], ◌∷◌, ◌++◌, append_assoc, arith,
  if◌then◌else◌, Text, All, All-append,
}
use tracy_query.Prelude.Decimal.{AreDigits, to_string-AreDigits, to_string_ℤ}
use tracy_query.Prelude.Int.{ℤ, pos, negsuc}
use tracy_query.Model.{OutputFormat, Value, Fields}
use tracy_query.Output.{
  escape_byte, json_escape, quoted, emit_value, emit_json_fields, emit_text_fields, emit_object,
}

-- No control character.
abbrev pub IsPrintable : Text → Type 0
IsPrintable = All (λ c. 0x20 ≤ c)

digits-IsPrintable : (ds : Text) → AreDigits ds → IsPrintable ds
digits-IsPrintable [] h = tt
digits-IsPrintable (d ∷ ds) h = (ground arith, digits-IsPrintable ds h.1)

escape_byte-IsPrintable : (c : ℕ) → IsPrintable (escape_byte c)
unfolding escape_byte
escape_byte-IsPrintable c = ground arith

json_escape-IsPrintable : (s : Text) → IsPrintable (json_escape s)
unfolding json_escape
json_escape-IsPrintable [] = tt
json_escape-IsPrintable (c ∷ cs) =
    All-append _ (escape_byte c) (json_escape cs) (escape_byte-IsPrintable c)
      (json_escape-IsPrintable cs)

quoted-IsPrintable : (s : Text) → IsPrintable (quoted s)
unfolding quoted
quoted-IsPrintable s =
    (omega arith, All-append _ (json_escape s) _ (json_escape-IsPrintable s) (omega arith, tt))

to_string_ℤ-IsPrintable : (n : ℤ) → IsPrintable (to_string_ℤ n)
unfolding to_string_ℤ
to_string_ℤ-IsPrintable (pos n) = digits-IsPrintable _ (to_string-AreDigits n)
to_string_ℤ-IsPrintable (negsuc n) =
    (omega arith, digits-IsPrintable _ (to_string-AreDigits (suc n)))

-- A text line has its names unescaped.
abbrev pub NamesPrintable : Fields → Type 0
NamesPrintable = All (λ f. IsPrintable f.0)

-- The names that a format leaves as they are.
abbrev pub NamesSafe : OutputFormat → Fields → Type 0
NamesSafe OutputFormat.json_lines fields = Unit {0}
NamesSafe OutputFormat.text fields = NamesPrintable fields

module _ (format_double : ℕ → Text)
    (printable : (bits : ℕ) → IsPrintable (format_double bits)) where
  emit_value-IsPrintable : (v : Value) → IsPrintable (emit_value format_double v)
  unfolding emit_value
  emit_value-IsPrintable Value.null = omega arith
  emit_value-IsPrintable (Value.boolean true) = omega arith
  emit_value-IsPrintable (Value.boolean false) = omega arith
  emit_value-IsPrintable (Value.int64 n) = to_string_ℤ-IsPrintable n
  emit_value-IsPrintable (Value.uint64 n) = digits-IsPrintable _ (to_string-AreDigits n)
  emit_value-IsPrintable (Value.double bits) = ground (arith, printable bits)
  emit_value-IsPrintable (Value.string s) = quoted-IsPrintable s

  emit_json_fields-IsPrintable :
      (first : Bool) (fields : Fields) → IsPrintable (emit_json_fields format_double first fields)
  unfolding emit_json_fields
  emit_json_fields-IsPrintable first [] = tt
  emit_json_fields-IsPrintable first ((name, value) ∷ fields) =
      All-append _ (if first then [] else b',' ∷ []) _ (ground arith) (
        All-append _ (quoted name) _ (quoted-IsPrintable name) (
          omega arith,
          All-append _ (emit_value format_double value) _ (emit_value-IsPrintable value)
              (emit_json_fields-IsPrintable false fields),
        ))

  emit_text_fields-IsPrintable :
      (first : Bool) (fields : Fields)
      → NamesPrintable fields
      → IsPrintable (emit_text_fields format_double first fields)
  unfolding emit_text_fields
  emit_text_fields-IsPrintable first [] h = tt
  emit_text_fields-IsPrintable first ((name, value) ∷ fields) h =
      All-append _ (if first then [] else b' ' ∷ []) _ (ground arith) (
        All-append _ name _ h.0 (
          omega arith,
          All-append _ (emit_value format_double value) _ (emit_value-IsPrintable value)
              (emit_text_fields-IsPrintable false fields h.1),
        ))

  -- An object is one line, a text without control characters and the line's end, where the texts of
  -- doubles have none and, in the text format, the names have none.
  pub emit_object_line :
      (format : OutputFormat) (fields : Fields)
      → NamesSafe format fields
      → (body : Text) × (emit_object format_double format fields ≡ body ++ 0x0a ∷ [])
        × IsPrintable body
  unfolding emit_object
  emit_object_line OutputFormat.json_lines fields h = (
    b'{' ∷ (emit_json_fields format_double true fields ++ b'}' ∷ []),
    ap (◌∷◌ b'{')
        (sym (append_assoc (emit_json_fields format_double true fields) (b'}' ∷ []) (0x0a ∷ []))),
    (
      omega arith,
      All-append _ (emit_json_fields format_double true fields) _
          (emit_json_fields-IsPrintable true fields) (omega arith, tt),
    ),
  )
  emit_object_line OutputFormat.text fields h =
      (emit_text_fields format_double true fields, refl, emit_text_fields-IsPrintable true fields h)
