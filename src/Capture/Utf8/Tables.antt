-- ===== src/Capture/Utf8/Tables.antt =====
-- The bit test of `validUtf8` on bytes.
use tracy_query.Prelude.{
  ℕ, zero, suc, ◌<◌, ◌≡◌, refl, Bool, true, ◌&&◌, ◌||◌, not, arith, leb, ◌==◌,
}
use Prim.Native.Nat.{bit_and}
use tracy_query.Capture.Utf8.{is_continuation}

-- A test over a small range, decided by evaluation.
all_below : ℕ → (ℕ → Bool) → Bool
all_below zero test = true
all_below (suc n) test = test n && all_below n test

all_below_sound :
    (n : ℕ) (test : ℕ → Bool) (x : ℕ) → all_below n test ≡ true → x < n → test x ≡ true
unfolding all_below
all_below_sound zero test x h lt = ground arith
all_below_sound (suc n) test x h lt = ground (arith, all_below_sound n test x)

same : Bool → Bool → Bool
same a b = (a && b) || (not a && not b)

same_eq : (a b : Bool) → same a b ≡ true → a ≡ b
unfolding same
same_eq a b h = ground arith

table : all_below 256 (λ c. same (bit_and c 0xc0 == 0x80) (leb 0x80 c && leb c 0xbf)) ≡ true
unfolding all_below same
table = refl

pub is_continuation_lem : (c : ℕ) → c < 256 → is_continuation c ≡ (leb 0x80 c && leb c 0xbf)
unfolding is_continuation
is_continuation_lem c h =
    same_eq (bit_and c 0xc0 == 0x80) (leb 0x80 c && leb c 0xbf) (
      all_below_sound 256 (λ c. same (bit_and c 0xc0 == 0x80) (leb 0x80 c && leb c 0xbf)) c table h)
