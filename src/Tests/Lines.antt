-- ===== src/Tests/Lines.antt =====
-- Output lines: src/output.cpp, at concrete fields.
use tracy_query.Prelude.{List, ℕ, ◌≡◌, refl, some, [], ◌∷◌, ◌++◌, arith, Text, codes}
use tracy_query.Model.{Value, Fields, OutputFormat}
use tracy_query.Output.{emit_object}
use tracy_query.Output.Lines.{IsPrintable, emit_object_line}
use tracy_query.Output.Read.{Token, read_object}
use tracy_query.Output.RoundTrip.{IsBare, AllMean, read_object-emit_object}

-- The text that this test prints every `double` as.
abbrev one_half : ℕ → Text
one_half bits = codes "0.5"

abbrev two_fields : Fields
two_fields = (codes "name", Value.string (codes "a\"b")) ∷ (codes "depth", Value.uint64 2) ∷ []

emit_two_fields :
    emit_object one_half OutputFormat.json_lines two_fields
    ≡ codes "{\"name\":\"a\\\"b\",\"depth\":2}\n"
unfolding emit_object
emit_two_fields = refl

emit_object_line_example :
    (body : Text) × (emit_object one_half OutputFormat.text two_fields ≡ body ++ 0x0a ∷ [])
    × IsPrintable body
emit_object_line_example =
    emit_object_line one_half (λ bits. omega arith) OutputFormat.text two_fields (omega arith)

one_half_bare : (bits : ℕ) → IsBare (one_half bits)
one_half_bare bits = ((refl, (refl, (refl, tt))), λ e. cc)

read_object-emit_object_example :
    (ts : List (Text × Token)) × (read_object
        (emit_object one_half OutputFormat.json_lines two_fields)
      ≡ some (ts, 0x0a ∷ []))
    × AllMean one_half one_half_bare two_fields ts
read_object-emit_object_example = read_object-emit_object one_half one_half_bare two_fields
