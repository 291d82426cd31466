-- ===== src/Query/Run/Kept.antt =====
-- What a visit of `run_query` of src/query.cpp keeps for `--at` with `--latest` or `--next`.
use tracy_query.Prelude.{
  ℕ, ◌≡◌, sym, subst, Bool, true, ◌||◌, not, some, List, Text, All, all, keep,
}
use tracy_query.Prelude.Int.{ℤ}
use tracy_query.Model.{Options, Record}
use tracy_query.Query.Run.{State, lookup, visit_all}
use tracy_query.Query.Run.Points.{
  is_latest_of, covers_latest, holds, latest_of-covers, latest_of-from, visit_all-latest,
}
use tracy_query.Query.Run.Next.{
  is_next_of, covers_next, next_of-covers, next_of-from, visit_all-next,
}

module _ (format_double : ℕ → Text) (matches : Record → Bool) (options : Options) (at : ℤ) where
  -- With `--at` and `--latest`, after a visit of any records, the map holds for a key a record at
  -- or before the time such that no matching record with the key is later and still at or before
  -- the time, if there is any such record; and whatever holds of the map's record before and of
  -- those matching records holds of it.
  pub visit_all-latest_kept :
      (trace_end : ℤ) (rs : List Record) (s : State) (key : Text) (p : Record → Bool)
      → options.time.at_ns ≡ some at
      → options.time.latest ≡ true
      → holds p (lookup key s.latest) ≡ true
      → All (λ r. is_latest_of key at r ≡ true → p r ≡ true) (keep matches rs)
      → let found = lookup key (visit_all format_double matches options trace_end rs s).latest in
        (all (λ r. not (is_latest_of key at r) || covers_latest found r) (keep matches rs) ≡ true)
        × (holds p found ≡ true)
  visit_all-latest_kept trace_end rs s key p at_point asked h k =
      subst
        (λ m.
          (all (λ r. not (is_latest_of key at r) || covers_latest (lookup key m) r)
              (keep matches rs)
            ≡ true)
          × (holds p (lookup key m) ≡ true))
        (sym (visit_all-latest format_double matches options at trace_end rs s at_point asked))
        (
          latest_of-covers key at (keep matches rs) s.latest,
          latest_of-from key at p (keep matches rs) s.latest h k,
        )

  -- With `--at` and `--next`, after a visit of any records, the map holds for a key a record at or
  -- after the time such that no matching record with the key is earlier and still at or after the
  -- time, if there is any such record; and whatever holds of the map's record before and of those
  -- matching records holds of it.
  pub visit_all-next_kept :
      (trace_end : ℤ) (rs : List Record) (s : State) (key : Text) (p : Record → Bool)
      → options.time.at_ns ≡ some at
      → options.time.next ≡ true
      → holds p (lookup key s.next) ≡ true
      → All (λ r. is_next_of key at r ≡ true → p r ≡ true) (keep matches rs)
      → let found = lookup key (visit_all format_double matches options trace_end rs s).next in
        (all (λ r. not (is_next_of key at r) || covers_next found r) (keep matches rs) ≡ true)
        × (holds p found ≡ true)
  visit_all-next_kept trace_end rs s key p at_point asked h k =
      subst
        (λ m.
          (all (λ r. not (is_next_of key at r) || covers_next (lookup key m) r) (keep matches rs)
            ≡ true)
          × (holds p (lookup key m) ≡ true))
        (sym (visit_all-next format_double matches options at trace_end rs s at_point asked))
        (
          next_of-covers key at (keep matches rs) s.next,
          next_of-from key at p (keep matches rs) s.next h k,
        )
