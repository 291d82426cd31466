-- ===== src/Output.antt =====
-- src/output.cpp: JSON lines and text lines. What is written to the stream is the text that a
-- function returns. `format_double` is the standard library's `<< std::setprecision(17)` of a finite
-- double, given by its bit pattern.
pub mod Escape
pub mod Lines
pub mod Read
pub mod RoundTrip
use tracy_query.Prelude.{
  ℕ, ◌+◌, ◌-◌, ◌/◌, ◌%◌, ◌^◌, Bool, true, false, not, Option, none, some, List, [], ◌∷◌, ◌++◌, ltb,
  ◌==◌, if◌then◌else◌, Text, codes, is_empty,
}
use tracy_query.Prelude.Decimal.{to_string, to_string_ℤ}
use tracy_query.Prelude.Int.{ℤ, ◌-ℤ◌}
use tracy_query.Model.{OutputFormat, Value, Fields, Record, Source, Kind, kind_name}

-- `std::hex` digits.
unfoldable pub hex_digit : ℕ → ℕ
hex_digit n = if ltb n 10 then b'0' + n else b'a' + (n - 10)

-- `std::setw(2)` with fill `0`, for a number below 0x20.
unfoldable pub hex_byte : ℕ → Text
unfolding hex_digit
hex_byte c = hex_digit (c / 16) ∷ hex_digit (c % 16) ∷ []

abbrev pub backslash : ℕ
backslash = 0x5c

abbrev pub quote : ℕ
quote = 0x22

unfoldable pub escape_byte : ℕ → Text
unfolding hex_byte
escape_byte c =
    if c == quote
    then backslash ∷ quote ∷ []
    else if c == backslash
    then backslash ∷ backslash ∷ []
    else if c == 0x08
    then backslash ∷ b'b' ∷ []
    else if c == 0x0c
    then backslash ∷ b'f' ∷ []
    else if c == 0x0a
    then backslash ∷ b'n' ∷ []
    else if c == 0x0d
    then backslash ∷ b'r' ∷ []
    else if c == 0x09
    then backslash ∷ b't' ∷ []
    else if ltb c 0x20
    then backslash ∷ b'u' ∷ b'0' ∷ b'0' ∷ hex_byte c
    else c ∷ []

unfoldable pub json_escape : Text → Text
unfolding escape_byte
json_escape [] = []
json_escape (c ∷ cs) = escape_byte c ++ json_escape cs

unfoldable pub quoted : Text → Text
unfolding json_escape
quoted s = quote ∷ (json_escape s ++ quote ∷ [])

-- `std::isfinite` of a bit pattern: the exponent is not all ones.
unfoldable pub is_finite : ℕ → Bool
is_finite bits = not (bits / 2 ^ 52 % 2 ^ 11 == 2 ^ 11 - 1)

module _ (format_double : ℕ → Text) where
  -- `emit_json_value` and `emit_text_value`, which are the same.
  unfoldable pub emit_value : Value → Text
  unfolding quoted is_finite to_string to_string_ℤ
  emit_value Value.null = codes "null"
  emit_value (Value.boolean b) = if b then codes "true" else codes "false"
  emit_value (Value.int64 n) = to_string_ℤ n
  emit_value (Value.uint64 n) = to_string n
  emit_value (Value.double bits) = if is_finite bits then format_double bits else codes "null"
  emit_value (Value.string s) = quoted s

  -- The loop over the fields, with its flag `first`.
  unfoldable pub emit_json_fields : Bool → Fields → Text
  unfolding emit_value quoted
  emit_json_fields first [] = []
  emit_json_fields first ((name, value) ∷ fields) =
      (if first then [] else b',' ∷ [])
      ++ (quoted name ++ (b':' ∷ (emit_value value ++ emit_json_fields false fields)))

  unfoldable pub emit_text_fields : Bool → Fields → Text
  unfolding emit_value
  emit_text_fields first [] = []
  emit_text_fields first ((name, value) ∷ fields) =
      (if first then [] else b' ' ∷ [])
      ++ (name ++ (b'=' ∷ (emit_value value ++ emit_text_fields false fields)))

  unfoldable pub emit_object : OutputFormat → Fields → Text
  unfolding emit_json_fields emit_text_fields
  emit_object OutputFormat.json_lines fields =
      b'{' ∷ (emit_json_fields true fields ++ b'}' ∷ 0x0a ∷ [])
  emit_object OutputFormat.text fields = emit_text_fields true fields ++ 0x0a ∷ []

-- The fields of an interval's end; a point has none.
unfoldable pub end_fields : Record → Fields
unfolding ◌-ℤ◌
end_fields r = elim r.end_timestamp_ns [
  | none ↦ []
  | some end ↦
      (codes "end_timestamp_ns", Value.int64 end)
      ∷ (codes "duration_ns", Value.int64 (end -ℤ r.timestamp_ns))
      ∷ []
]

unfoldable pub record_fields : Record → Fields
unfolding end_fields kind_name
record_fields r =
    (codes "timestamp_ns", Value.int64 r.timestamp_ns)
    ∷ (end_fields r
        ++ ((codes "trace", Value.string r.trace)
            ∷ (codes "source", Value.string r.source)
            ∷ (codes "kind", Value.string (kind_name r.kind))
            ∷ r.fields))

-- The names of the kinds, joined by commas.
unfoldable pub join_kinds : Text → List Kind → Text
unfolding kind_name
join_kinds kinds [] = kinds
join_kinds kinds (k ∷ ks) =
    join_kinds ((if is_empty kinds then kinds else kinds ++ b',' ∷ []) ++ kind_name k) ks

abbrev optional_time : Text → Option ℤ → Fields
optional_time name none = []
optional_time name (some t) = (name, Value.int64 t) ∷ []

unfoldable pub source_fields : Source → Fields
unfolding join_kinds
source_fields s =
    (codes "trace", Value.string s.trace)
    ∷ (codes "source", Value.string s.id)
    ∷ (codes "source_type", Value.string s.source_type)
    ∷ ((if is_empty s.name then [] else (codes "name", Value.string s.name) ∷ [])
        ++ ((codes "kinds", Value.string (join_kinds [] s.kinds))
            ∷ (s.counts
                ++ (optional_time (codes "first_timestamp_ns") s.first_timestamp_ns
                    ++ optional_time (codes "last_timestamp_ns") s.last_timestamp_ns))))

module _ (format_double : ℕ → Text) where
  unfoldable pub emit_record : OutputFormat → Record → Text
  unfolding emit_object record_fields
  emit_record format r = emit_object format_double format (record_fields r)

  unfoldable pub emit_source : OutputFormat → Source → Text
  unfolding emit_object source_fields
  emit_source format source = emit_object format_double format (source_fields source)
