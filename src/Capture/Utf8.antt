-- ===== src/Capture/Utf8.antt =====
-- `validUtf8` of src/embedded/embedded_capture.cpp, which the path of a capture must pass.
pub mod Tables
pub mod Decode
pub mod Encoded
pub mod Scalars
use tracy_query.Prelude.{
  u64_mod, add_u64, sub_u64, set, replicate, copy_to, tabulate, length-set, length-replicate,
  length-copy_to, get_or-copy_to_outside, get_or-copy_to_inside, tabulate-ext, length-tabulate,
  tabulate-append, tabulate-get_or, take-drop, ℕ, zero, suc, ◌+◌, ◌-◌, ◌*◌, ◌/◌, ◌%◌, ◌^◌, ◌≤◌, ◌<◌,
  min, max, ◌≡◌, refl, sym, ap, ap₂, ◌∙◌, subst, Bool, true, false, ◌&&◌, ◌||◌, not, Option, none,
  some, List, [], ◌∷◌, ◌++◌, map, append_assoc, append-nil, arith, ltb, leb, ◌==◌, if◌then◌else◌,
  Bool-cases, Option-cases, Result, ok, err, ◌>>=◌, ◌>>◌, or_fail, guard, Text, codes, text_eq,
  text_lt, text_eq→eq, text_eq_refl, is_empty, All, length, get_or, take, drop, any, all, find?,
  find?_sound, keep, length-append, take-append-drop, length-take, length-drop, All-append,
  All-split, length-map, map_append, take-nil, take-all, ◌≢◌, ◌↔◌, ◌⊎◌, inl, inr, &&-split, ltb→lt,
  lt→ltb, leb→le, le→leb, ==_iff,
}
use Prim.Native.Nat.{bit_and}

-- How many bytes follow a first byte; none for a byte that is no first byte.
unfoldable pub continuation_of : ℕ → Option ℕ
continuation_of c =
    if leb c 0x7f
    then some 0
    else if leb 0xc2 c && leb c 0xdf
    then some 1
    else if leb 0xe0 c && leb c 0xef
    then some 2
    else if leb 0xf0 c && leb c 0xf4
    then some 3
    else none

unfoldable pub is_continuation : ℕ → Bool
is_continuation c = bit_and c 0xc0 == 0x80

-- The second byte makes the sequence too long, a surrogate or too large.
unfoldable pub second_refused : ℕ → ℕ → ℕ → Bool
second_refused continuation c second =
    if continuation == 2
    then (c == 0xe0 && ltb second 0xa0) || (c == 0xed && leb 0xa0 second)
    else if continuation == 3
    then (c == 0xf0 && ltb second 0x90) || (c == 0xf4 && leb 0x90 second)
    else false

-- A turn of the loop, at a first byte and what follows it.
unfoldable pub sequence_valid : ℕ → ℕ → Text → Bool
unfolding is_continuation second_refused
sequence_valid continuation c rest =
    if ltb (length rest) continuation
    then false
    else all is_continuation (take continuation rest)
      && not (second_refused continuation c (get_or rest 0 0))

-- The loop; each turn takes at least one byte, so that their number is enough fuel.
unfoldable pub valid_loop : ℕ → Text → Bool
unfolding continuation_of sequence_valid
valid_loop fuel [] = true
valid_loop zero (c ∷ rest) = false
valid_loop (suc fuel) (c ∷ rest) = elim (continuation_of c) [
  | none ↦ false
  | some continuation ↦
      let next = valid_loop fuel (drop continuation rest) in
      sequence_valid continuation c rest && next
]

unfoldable pub valid_utf8 : Text → Bool
unfolding valid_loop
valid_utf8 s = valid_loop (length s) s
