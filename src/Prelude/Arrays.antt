-- ===== src/Prelude/Arrays.antt =====
-- What byte copies do to an array, and tables of its entries.
use Prim.Native.Nat.{ℕ, zero, suc, ◌+◌, ◌≤◌, ◌<◌}
use mathlib.Core.Path.{◌≡◌, refl, ap, ap₂, ◌∙◌}
use mathlib.Core.Logic.{◌≢◌, ◌⊎◌, inl}
use mathlib.Core.List.{List, [], ◌∷◌, ◌++◌}
use native.Mathlib.Omega.{arith}
use tracy_query.Prelude.Lists.{length, get_or, set, take, drop, replicate, copy_to, tabulate}

module _ {ℓ} {A : Type ℓ} where
  pub length-set : (xs : List A) (i : ℕ) (v : A) → length (set xs i v) ≡ length xs
  length-set [] i v = refl
  length-set (x ∷ xs) zero v = refl
  length-set (x ∷ xs) (suc i) v = ap suc (length-set xs i v)

  pub length-replicate : (n : ℕ) (a : A) → length (replicate n a) ≡ n
  length-replicate zero a = refl
  length-replicate (suc n) a = ap suc (length-replicate n a)

  get_or-set_self : (xs : List A) (i : ℕ) (v d : A) → i < length xs → get_or (set xs i v) i d ≡ v
  get_or-set_self [] i v d h = absurd (omega arith)
  get_or-set_self (x ∷ xs) zero v d h = refl
  get_or-set_self (x ∷ xs) (suc i) v d h = get_or-set_self xs i v d (omega arith)

  get_or-set_ne :
      (xs : List A) (i j : ℕ) (v d : A) → i ≢ j → get_or (set xs i v) j d ≡ get_or xs j d
  get_or-set_ne [] i j v d h = refl
  get_or-set_ne (x ∷ xs) zero zero v d h = absurd (h refl)
  get_or-set_ne (x ∷ xs) zero (suc j) v d h = refl
  get_or-set_ne (x ∷ xs) (suc i) zero v d h = refl
  get_or-set_ne (x ∷ xs) (suc i) (suc j) v d h = get_or-set_ne xs i j v d (λ e. h (ap suc e))

  pub length-copy_to : (s : List A) (i : ℕ) (xs : List A) → length (copy_to s i xs) ≡ length s
  unfolding copy_to
  length-copy_to s i [] = refl
  length-copy_to s i (x ∷ xs) = length-copy_to (set s i x) (i + 1) xs ∙ length-set s i x

  -- A copy leaves the entries before and after it.
  pub get_or-copy_to_outside :
      (s : List A) (i : ℕ) (xs : List A) (j : ℕ) (d : A)
      → (j < i) ⊎ (i + length xs ≤ j)
      → get_or (copy_to s i xs) j d ≡ get_or s j d
  unfolding copy_to
  get_or-copy_to_outside s i [] j d h = refl
  get_or-copy_to_outside s i (x ∷ xs) j d h =
      get_or-copy_to_outside (set s i x) (i + 1) xs j d (omega arith)
      ∙ get_or-set_ne s i j x d (omega arith)

  -- A copy within bounds puts its entries in order.
  pub get_or-copy_to_inside :
      (s : List A) (i : ℕ) (xs : List A) (k : ℕ) (d : A)
      → k < length xs
      → i + length xs ≤ length s
      → get_or (copy_to s i xs) (i + k) d ≡ get_or xs k d
  unfolding copy_to
  get_or-copy_to_inside s i [] k d h fits = absurd (omega arith)
  get_or-copy_to_inside s i (x ∷ xs) zero d h fits =
      get_or-copy_to_outside (set s i x) (i + 1) xs (i + zero) d (inl (omega arith))
      ∙ (ap (λ j. get_or (set s i x) j d) (omega arith) ∙ get_or-set_self s i x d (omega arith))
  get_or-copy_to_inside s i (x ∷ xs) (suc k) d h fits =
      ap (λ j. get_or (copy_to (set s i x) (i + 1) xs) j d) (omega arith)
      ∙ get_or-copy_to_inside (set s i x) (i + 1) xs k d (omega arith)
          (omega (arith, length-set s i x))

  pub tabulate-ext :
      (n : ℕ) (f g : ℕ → A) → ((k : ℕ) → k < n → f k ≡ g k) → tabulate n f ≡ tabulate n g
  unfolding tabulate
  tabulate-ext zero f g h = refl
  tabulate-ext (suc n) f g h =
      ap₂ ◌∷◌ (h 0 (omega arith)) (tabulate-ext n _ _ (λ k lt. h (suc k) (omega arith)))

  pub length-tabulate : (n : ℕ) (f : ℕ → A) → length (tabulate n f) ≡ n
  unfolding tabulate
  length-tabulate zero f = refl
  length-tabulate (suc n) f = ap suc (length-tabulate n _)

  pub tabulate-append :
      (m n : ℕ) (f : ℕ → A) → tabulate m f ++ tabulate n (λ k. f (m + k)) ≡ tabulate (m + n) f
  unfolding tabulate
  tabulate-append zero n f =
      tabulate-ext n _ f (λ k lt. ap f (omega arith)) ∙ ap (λ j. tabulate j f) (omega arith)
  tabulate-append (suc m) n f =
      ap (◌∷◌ (f 0))
        (ap (◌++◌ (tabulate m (λ k. f (suc k)))) shifted ∙ tabulate-append m n (λ k. f (suc k)))
      ∙ grown
    where
      shifted : tabulate n (λ k. f (suc m + k)) ≡ tabulate n (λ k. f (suc (m + k)))
      shifted =
          tabulate-ext n _ _ (λ k lt. ap f (let e : suc m + k ≡ suc (m + k) = omega arith in e))

      grown : tabulate (suc (m + n)) f ≡ tabulate (suc m + n) f
      grown = ap (λ j. tabulate j f) (let e : suc (m + n) ≡ suc m + n = omega arith in e)

  pub tabulate-get_or : (xs : List A) (d : A) → tabulate (length xs) (λ k. get_or xs k d) ≡ xs
  unfolding tabulate
  tabulate-get_or [] d = refl
  tabulate-get_or (x ∷ xs) d = ap (◌∷◌ x) (tabulate-get_or xs d)

  -- A stretch of an array.
  pub take-drop :
      (s : List A) (i n : ℕ) (d : A)
      → i + n ≤ length s
      → take n (drop i s) ≡ tabulate n (λ k. get_or s (i + k) d)
  unfolding tabulate
  take-drop s i zero d h = refl
  take-drop [] i (suc n) d h = absurd (omega arith)
  take-drop (x ∷ s) zero (suc n) d h = ap (◌∷◌ x) (
      take-drop s 0 n d (omega arith)
      ∙ tabulate-ext n _ _ (λ k lt.
        ap (λ j. get_or (x ∷ s) j d) (let e : suc (0 + k) ≡ 0 + suc k = omega arith in e)))
  take-drop (x ∷ s) (suc i) (suc n) d h =
      take-drop s i (suc n) d (omega arith)
      ∙ tabulate-ext (suc n) _ _ (λ k lt.
        ap (λ j. get_or (x ∷ s) j d) (let e : suc (i + k) ≡ suc i + k = omega arith in e))
