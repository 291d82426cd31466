-- ===== src/Prelude/Sorting.antt =====
-- The standard library's `std::sort`, as an insertion sort, and what a priority queue gives: the
-- least entry, and the others.
use tracy_query.Prelude.{
  ◌≡◌, Bool, true, false, List, [], ◌∷◌, if◌then◌else◌, Bool-cases, All, length, suc, arith, refl,
  inl, inr,
}
use mathlib.Core.List.{Perm}
use mathlib.Core.List.Perm

module _ {ℓ} {A : Type ℓ} (less : A → A → Bool) where
  insert : A → List A → List A
  insert x [] = x ∷ []
  insert x (y ∷ ys) = if less y x then y ∷ insert x ys else x ∷ y ∷ ys

  unfoldable pub sort : List A → List A
  unfolding insert
  sort [] = []
  sort (x ∷ xs) = insert x (sort xs)

  -- No entry is before an earlier one.
  abbrev pub IsSorted : List A → Type 0
  IsSorted [] = Unit {0}
  IsSorted (x ∷ xs) = All (λ y. less y x ≡ false) xs × IsSorted xs

  insert-perm : (x : A) (xs : List A) → Perm (insert x xs) (x ∷ xs)
  unfolding insert
  insert-perm x [] = Perm.refl _
  insert-perm x (y ∷ ys) = elim (Bool-cases (less y x)) [
    | inl lt ↦ rw lt (Perm.trans (Perm.cons y (insert-perm x ys)) (Perm.swap x y ys))
    | inr ge ↦ rw ge (Perm.refl _)
  ]

  pub sort-perm : (xs : List A) → Perm (sort xs) xs
  unfolding sort
  sort-perm [] = Perm.refl []
  sort-perm (x ∷ xs) = Perm.trans (insert-perm x (sort xs)) (Perm.cons x (sort-perm xs))

  insert-length : (x : A) (xs : List A) → length (insert x xs) ≡ suc (length xs)
  unfolding insert
  insert-length x [] = refl
  insert-length x (y ∷ ys) = ground (arith, insert-length x ys)

  pub sort-length : (xs : List A) → length (sort xs) ≡ length xs
  unfolding sort
  sort-length [] = refl
  sort-length (x ∷ xs) = omega (arith, insert-length x (sort xs), sort-length xs)

  insert-All {κ} : (P : A → Type κ) (x : A) (xs : List A) → P x → All P xs → All P (insert x xs)
  unfolding insert
  insert-All P x [] h k = (h, k)
  insert-All P x (y ∷ ys) h k = elim (Bool-cases (less y x)) [
    | inl lt ↦ rw lt (k.0, insert-All P x ys h k.1)
    | inr ge ↦ rw ge (h, k)
  ]

  pub sort-All {κ} : (P : A → Type κ) (xs : List A) → All P xs → All P (sort xs)
  unfolding sort
  sort-All P [] h = h
  sort-All P (x ∷ xs) h = insert-All P x (sort xs) h.0 (sort-All P xs h.1)

-- The order is asymmetric, and what is not before is transitive.
pub record IsOrder {ℓ} {A : Type ℓ} (less : A → A → Bool) : Type ℓ where
  pub asymm : (a b : A) → less a b ≡ true → less b a ≡ false
  pub le_trans : (a b c : A) → less b a ≡ false → less c b ≡ false → less c a ≡ false

module _ {ℓ} {A : Type ℓ} (less : A → A → Bool) (o : IsOrder less) where
  pub All-le_trans :
      (a b : A) (xs : List A)
      → less b a ≡ false
      → All (λ y. less y b ≡ false) xs
      → All (λ y. less y a ≡ false) xs
  All-le_trans a b [] h k = tt
  All-le_trans a b (x ∷ xs) h k = (o.le_trans a b x h k.0, All-le_trans a b xs h k.1)

  insert-IsSorted : (x : A) (xs : List A) → IsSorted less xs → IsSorted less (insert less x xs)
  unfolding insert
  insert-IsSorted x [] h = (tt, tt)
  insert-IsSorted x (y ∷ ys) h = elim (Bool-cases (less y x)) [
    | inl lt ↦ rw lt (
      insert-All less (λ z. less z y ≡ false) x ys (o.asymm y x lt) h.0,
      insert-IsSorted x ys h.1,
    )
    | inr ge ↦ rw ge ((ge, All-le_trans x y ys ge h.0), h)
  ]

  pub sort-IsSorted : (xs : List A) → IsSorted less (sort less xs)
  unfolding sort
  sort-IsSorted [] = tt
  sort-IsSorted (x ∷ xs) = insert-IsSorted x (sort less xs) (sort-IsSorted xs)
