-- ===== src/Output/Read.antt =====
-- A JSON line read back (src/output.cpp).
use tracy_query.Prelude.{
  ℕ, zero, suc, Bool, true, false, ◌&&◌, not, Option, none, some, List, [], ◌∷◌, ◌==◌,
  if◌then◌else◌, Text, length,
}
use tracy_query.Model.{Value}
use tracy_query.Output.{quote, emit_value}
use tracy_query.Output.Escape.{Mode, read_string}

-- A value as a reader sees it: a string, or the bytes of anything else.
pub data Token : Type 0 where
  str bare : Text → Token

-- A byte that ends no bare value and begins no string.
abbrev pub is_bare : ℕ → Bool
is_bare c = not (c == b',') && (not (c == b'}') && not (c == quote))

unfoldable pub span_bare : Text → Text × Text
span_bare [] = ([], [])
span_bare (c ∷ cs) =
    let (w, rest) = span_bare cs in if is_bare c then (c ∷ w, rest) else ([], c ∷ cs)

unfoldable pub read_token : Text → Option (Token × Text)
unfolding span_bare
read_token [] = none
read_token (c ∷ cs) =
    if c == quote
    then elim (read_string Mode.plain cs) [ none ↦ none | some (s, rest) ↦ some (str s, rest) ]
    else (let (w, rest) = span_bare (c ∷ cs) in some (bare w, rest))

unfoldable pub expect : ℕ → Text → Option Text
expect b [] = none
expect b (c ∷ cs) = if c == b then some cs else none

-- `"name":value`
unfoldable pub read_pair : Text → Option ((Text × Token) × Text)
unfolding expect read_token
read_pair t = elim (expect quote t) [
  | none ↦ none
  | some t₁ ↦ elim (read_string Mode.plain t₁) [
    | none ↦ none
    | some (name, t₂) ↦ elim (expect b':' t₂) [
      | none ↦ none
      | some t₃ ↦ elim (read_token t₃) [ none ↦ none | some (v, rest) ↦ some ((name, v), rest) ]
    ]
  ]
]

-- Pairs up to the closing brace; the fuel bounds their number.
unfoldable pub read_pairs : ℕ → Text → Option (List (Text × Token) × Text)
read_pairs zero t = none
read_pairs (suc f) t = elim (read_pair t) [
  | none ↦ none
  | some (p, []) ↦ none
  | some (p, c ∷ rest) ↦ elim (c == b'}') [
    | true ↦ some (p ∷ [], rest)
    | false ↦ elim (c == b',') [
      | false ↦ none
      | true ↦ elim (read_pairs f rest) [ none ↦ none | some (ps, end) ↦ some (p ∷ ps, end) ]
    ]
  ]
]

unfoldable pub read_object : Text → Option (List (Text × Token) × Text)
unfolding expect read_pairs
read_object t = elim (expect b'{' t) [
  | none ↦ none
  | some [] ↦ none
  | some (c ∷ cs) ↦ if c == b'}' then some ([], cs) else read_pairs (length cs) (c ∷ cs)
]

module _ (format_double : ℕ → Text) where
  -- The token of a value that the code writes.
  unfoldable pub token_of : Value → Token
  unfolding emit_value
  token_of (Value.string s) = str s
  token_of v = bare (emit_value format_double v)
