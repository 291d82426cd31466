-- ===== src/Output/Escape.antt =====
-- `json_escape` against a reader of JSON strings (src/output.cpp).
use tracy_query.Prelude.{
  ℕ, ◌+◌, ◌-◌, ◌*◌, ◌≡◌, refl, ◌&&◌, ◌||◌, Option, none, some, [], ◌∷◌, ◌++◌, append_assoc, arith,
  ltb, leb, ◌==◌, if◌then◌else◌, Text,
}
use tracy_query.Output.{escape_byte, json_escape, backslash, quote}

-- A reader of the text after an opening quote, as the JSON grammar has it: plain bytes, escapes of
-- one letter, and `\u` with four digits.
pub data Mode : Type 0 where
  plain escaped : Mode
  hex : ℕ → ℕ → Mode

pub data Action : Type 0 where
  stop fail : Action
  emit : ℕ → Action
  go : Mode → Action

pub hex_value : ℕ → Option ℕ
hex_value c =
    if leb b'0' c && leb c b'9'
    then some (c - b'0')
    else if leb b'a' c && leb c b'f'
    then some (c - b'a' + 10)
    else if leb b'A' c && leb c b'F'
    then some (c - b'A' + 10)
    else none

pub escape_value : ℕ → Action
escape_value c =
    if c == quote || (c == backslash || c == b'/')
    then emit c
    else if c == b'b'
    then emit 0x08
    else if c == b'f'
    then emit 0x0c
    else if c == b'n'
    then emit 0x0a
    else if c == b'r'
    then emit 0x0d
    else if c == b't'
    then emit 0x09
    else if c == b'u'
    then go (hex 4 0)
    else fail

pub transition : Mode → ℕ → Action
unfolding escape_value hex_value
transition plain c =
    if c == quote
    then stop
    else if c == backslash
    then go escaped
    else if ltb c 0x20
    then fail
    else emit c
transition escaped c = escape_value c
transition (hex n acc) c = elim (hex_value c) [
  | none ↦ fail
  | some d ↦ if n == 1 then emit (acc * 16 + d) else go (hex (n - 1) (acc * 16 + d))
]

-- The string read and what follows its closing quote.
pub read_string : Mode → Text → Option (Text × Text)
read_string m [] = none
read_string m (c ∷ cs) = elim (transition m c) [
  | stop ↦ some ([], cs)
  | fail ↦ none
  | emit b ↦ elim (read_string plain cs) [ none ↦ none | some (s, rest) ↦ some (b ∷ s, rest) ]
  | go m' ↦ read_string m' cs
]

read_string-escape_byte :
    (c : ℕ) (rest s tail : Text)
    → read_string plain rest ≡ some (s, tail)
    → read_string plain (escape_byte c ++ rest) ≡ some (c ∷ s, tail)
unfolding read_string transition escape_byte
read_string-escape_byte c rest s tail h = ground arith

-- Whatever the bytes, the escaped text is one JSON string, and it stands for those bytes.
pub read_string-json_escape :
    (s rest : Text) → read_string plain (json_escape s ++ quote ∷ rest) ≡ some (s, rest)
unfolding json_escape read_string transition
read_string-json_escape [] rest = refl
read_string-json_escape (c ∷ cs) rest = rw append_assoc (
    read_string-escape_byte c (json_escape cs ++ quote ∷ rest) cs rest
      (read_string-json_escape cs rest))
