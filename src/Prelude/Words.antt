-- ===== src/Prelude/Words.antt =====
-- Machine words: `uint64_t` and `size_t` arithmetic wraps.
use Prim.Native.Nat.{ℕ, ◌+◌, ◌-◌, ◌%◌, ◌^◌}

abbrev pub u64_mod : ℕ
u64_mod = 2 ^ 64

abbrev pub add_u64 : ℕ → ℕ → ℕ
add_u64 a b = (a + b) % u64_mod

abbrev pub sub_u64 : ℕ → ℕ → ℕ
sub_u64 a b = (a + u64_mod - b) % u64_mod
