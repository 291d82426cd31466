-- ===== src/Visit/Lists.antt =====
-- Tests of all the records that a visitor's loops give.
use tracy_query.Prelude.{
  add_u64, ℕ, ◌+◌, ◌%◌, ◌^◌, ◌≡◌, refl, Bool, true, Option, none, some, List, [], ◌∷◌, ◌++◌, arith,
  Text, all,
}
use tracy_query.Model.{Record}
use tracy_query.Visit.Worker.{Forest, nil, node}
use tracy_query.Visit.Zones.{Place, walk, walk_all}
use tracy_query.Visit.Points.{numbered, gather}

pub all_append :
    (test : Record → Bool) (xs ys : List Record)
    → all test xs ≡ true
    → all test ys ≡ true
    → all test (xs ++ ys) ≡ true
all_append test [] ys h k = k
all_append test (x ∷ xs) ys h k = ground (arith, all_append test xs ys)

module _ {ℓ} {A : Type ℓ} (test : Record → Bool) where
  pub all-numbered :
      (record_of : ℕ → A → Record)
      → ((n : ℕ) (a : A) → test (record_of n a) ≡ true)
      → (n : ℕ) (items : List A) → all test (numbered record_of n items) ≡ true
  all-numbered record_of h n [] = refl
  all-numbered record_of h n (a ∷ items) =
      ground (arith, h n a, all-numbered record_of h (add_u64 n 1) items)

  pub all-gather :
      (records_of : ℕ → A → List Record)
      → ((n : ℕ) (a : A) → all test (records_of n a) ≡ true)
      → (n : ℕ) (groups : List A) → all test (gather records_of n groups) ≡ true
  all-gather records_of h n [] = refl
  all-gather records_of h n (a ∷ groups) =
      all_append test (records_of n a) (gather records_of (add_u64 n 1) groups) (h n a)
        (all-gather records_of h (add_u64 n 1) groups)

  pub all-walk :
      (record_of : Place → A → Record) (name_of : A → Text)
      → ((p : Place) (a : A) → test (record_of p a) ≡ true)
      → (f : Forest A) (depth : ℕ) (parent : Option ℕ) (ancestors : List Text) (n : ℕ)
      → all test (walk record_of name_of f depth parent ancestors n).0 ≡ true
  all-walk record_of name_of h nil depth parent ancestors n = refl
  all-walk record_of name_of h (node a children rest) depth parent ancestors n =
      let inner =
        walk record_of name_of children ((depth + 1) % 2 ^ 32) (some n)
          (ancestors ++ (name_of a ∷ [])) (add_u64 n 1) in
      let tail : all test
            (inner.0 ++ (walk record_of name_of rest depth parent ancestors inner.1).0)
          ≡ true =
        all_append test inner.0 (walk record_of name_of rest depth parent ancestors inner.1).0
          (all-walk record_of name_of h children ((depth + 1) % 2 ^ 32) (some n)
            (ancestors ++ (name_of a ∷ [])) (add_u64 n 1))
          (all-walk record_of name_of h rest depth parent ancestors inner.1) in
      ground (
        arith,
        tail,
        h (record { id = n; depth = depth; parent_id = parent; ancestors = ancestors }) a,
      )

  pub all-walk_all {κ} :
      {G : Type κ} (record_of : G → Place → A → Record) (name_of : A → Text)
      (zones_of : G → Forest A)
      → ((g : G) (p : Place) (a : A) → test (record_of g p a) ≡ true)
      → (gs : List G) (n : ℕ) → all test (walk_all record_of name_of zones_of gs n).0 ≡ true
  all-walk_all record_of name_of zones_of h [] n = refl
  all-walk_all record_of name_of zones_of h (g ∷ gs) n =
      let these = walk (record_of g) name_of (zones_of g) 0 none [] n in
      all_append test these.0 (walk_all record_of name_of zones_of gs these.1).0
        (all-walk (record_of g) name_of (h g) (zones_of g) 0 none [] n)
        (all-walk_all record_of name_of zones_of h gs these.1)
