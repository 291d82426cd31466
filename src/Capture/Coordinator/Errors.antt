-- ===== src/Capture/Coordinator/Errors.antt =====
-- The message that `get_error` of src/embedded/embedded_capture.cpp copies out.
use tracy_query.Prelude.{
  ℕ, zero, suc, ◌-◌, min, ◌≡◌, refl, ap, [], ◌∷◌, ◌++◌, arith, Text, length, take, length-append,
  length-take, take-nil, ◌+◌, ◌⊎◌,
}
use tracy_query.Capture.Coordinator.{Coordinator}
use tracy_query.Capture.Coordinator.{get_capture_error}

-- What a reader of a C string sees.
abbrev pub c_string : Text → Text
c_string [] = []
c_string (c ∷ cs) = elim c [ zero ↦ [] | suc n ↦ suc n ∷ c_string cs ]

c_string-append : (s : Text) → c_string (s ++ (0 ∷ [])) ≡ c_string s
c_string-append [] = refl
c_string-append (zero ∷ s) = refl
c_string-append (suc c ∷ s) = ap (λ r. suc c ∷ r) (c_string-append s)

take-min : (n : ℕ) (s : Text) → take (min (length s) n) s ≡ take n s
take-min zero s = ground arith
take-min (suc n) [] = take-nil (min 0 (suc n))
take-min (suc n) (c ∷ s) = ground (arith, take-min n s)

-- `get_error` returns the message's length, and writes the message cut to one byte less than the
-- capacity and a NUL, as many bytes as fit: none into no capacity. A reader of the C string that it
-- wrote sees the message up to its first NUL, cut so.
pub get_capture_error_reads :
    (capacity : ℕ) (c : Coordinator)
    → let r = get_capture_error capacity c in
      (r.0 ≡ length c.error)
      × (length r.1 ≡ min capacity (length c.error + 1))
      × ((capacity ≡ 0) ⊎ (r.1 ≡ take (capacity - 1) c.error ++ (0 ∷ [])))
      × (c_string r.1 ≡ c_string (take (capacity - 1) c.error))
unfolding get_capture_error
get_capture_error_reads capacity c = ground (
  arith,
  take-min (capacity - 1) c.error,
  c_string-append (take (capacity - 1) c.error),
  length-append (take (capacity - 1) c.error) (0 ∷ []),
  length-take (capacity - 1) c.error,
)
