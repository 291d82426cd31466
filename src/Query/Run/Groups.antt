-- ===== src/Query/Run/Groups.antt =====
-- The groups of `--count --by`: each holds the number of records with its key.
use tracy_query.Prelude.{
  add_u64, ℕ, suc, ◌+◌, ◌^◌, ◌<◌, ◌≡◌, refl, sym, subst, true, List, [], ◌∷◌, arith, if◌then◌else◌,
  Bool-cases, Text, text_eq, text_lt, text_eq→eq, text_eq_refl, All, length, inl, inr,
}
use tracy_query.Model.{kind_name, Fields, Record}
use tracy_query.Query.Order.{text_lt_irrefl, text_lt_trans, text_lt_total}
use tracy_query.Query.Run.{Groups, group_key, group_fields, count_group, count_groups}

-- The count of the first group with the key; 0 if there is none.
abbrev pub group_count : Text → Groups → ℕ
group_count key [] = 0
group_count key ((k, e) ∷ rest) = if text_eq k key then e.1 else group_count key rest

-- How many of the records have the key.
abbrev pub with_key : List Text → Text → List Record → ℕ
unfolding kind_name text_eq
with_key group_by key [] = 0
with_key group_by key (r ∷ rs) =
    if text_eq (group_key group_by r) key
    then suc (with_key group_by key rs)
    else with_key group_by key rs

-- The groups' keys ascend strictly.
abbrev IsAfter : Text → Groups → Type 0
IsAfter key = All (λ g. text_lt key g.0 ≡ true)

abbrev pub IsAscending : Groups → Type 0
IsAscending [] = Unit
IsAscending (g ∷ gs) = IsAfter g.0 gs × IsAscending gs

IsAfter-trans : (a b : Text) (gs : Groups) → text_lt a b ≡ true → IsAfter b gs → IsAfter a gs
IsAfter-trans a b [] h k = tt
IsAfter-trans a b (g ∷ gs) h k = (text_lt_trans a b g.0 h k.0, IsAfter-trans a b gs h k.1)

count_group-IsAfter :
    (a key : Text) (fields : Fields) (gs : Groups)
    → text_lt a key ≡ true
    → IsAfter a gs
    → IsAfter a (count_group key fields gs)
unfolding count_group
count_group-IsAfter a key fields [] h k = (h, tt)
count_group-IsAfter a key fields ((b, e) ∷ gs) h k =
    ground (arith, count_group-IsAfter a key fields gs h k.1)

count_group-IsAscending :
    (key : Text) (fields : Fields) (gs : Groups)
    → IsAscending gs
    → IsAscending (count_group key fields gs)
unfolding count_group
count_group-IsAscending key fields [] h = (tt, tt)
count_group-IsAscending key fields ((k, (f, n)) ∷ gs) h = elim (Bool-cases (text_lt key k)) [
  | inl lt ↦ rw lt ((lt, IsAfter-trans key k gs lt h.0), h)
  | inr ge ↦ rw ge (elim (Bool-cases (text_eq k key)) [
    | inl same ↦ rw same h
    | inr other ↦ rw other (
      count_group-IsAfter k key fields gs (ground (arith, text_lt_total key k, text_eq_refl k)) h.0,
      count_group-IsAscending key fields gs h.1,
    )
  ])
]

absent : (key : Text) (gs : Groups) → IsAfter key gs → group_count key gs ≡ 0
absent key [] h = refl
absent key (g ∷ gs) h =
    ground (arith, text_eq→eq g.0 key, text_lt_irrefl key, h.0, absent key gs h.1)

count_group_lem :
    (key other : Text) (fields : Fields) (gs : Groups)
    → IsAscending gs
    → group_count key (count_group other fields gs)
      ≡ (if text_eq other key then add_u64 (group_count key gs) 1 else group_count key gs)
unfolding count_group
count_group_lem key other fields [] h = ground arith
count_group_lem key other fields ((k, (f, n)) ∷ gs) h = elim (Bool-cases (text_lt other k)) [
  | inl lt ↦
      let none_there = absent other ((k, (f, n)) ∷ gs) (lt, IsAfter-trans other k gs lt h.0) in
      rw lt (elim (Bool-cases (text_eq other key)) [
        | inl same ↦ rw same (
            subst (λ u. 1 ≡ add_u64 (group_count u ((k, (f, n)) ∷ gs)) 1)
              (text_eq→eq other key same) (rw none_there refl))
        | inr different ↦ rw different refl
      ])
  | inr ge ↦ rw ge (elim (Bool-cases (text_eq k other)) [
    | inl same ↦ rw same (rw (sym (text_eq→eq k other same)) (ground arith))
    | inr different ↦ rw different (
        ground (
          arith,
          count_group_lem key other fields gs h.1,
          text_eq→eq k key,
          text_eq→eq other key,
          text_eq_refl k,
          text_eq_refl other,
        ))
  ])
]

count_groups_lem :
    (group_by : List Text) (key : Text) (rs : List Record) (gs : Groups)
    → IsAscending gs
    → group_count key gs + length rs < 2 ^ 64
    → group_count key (count_groups group_by rs gs) ≡ group_count key gs + with_key group_by key rs
unfolding count_groups kind_name text_eq
count_groups_lem group_by key [] gs h small = omega arith
count_groups_lem group_by key (r ∷ rs) gs h small =
    let k = group_key group_by r in
    let fields = group_fields group_by r in
    let one = count_group_lem key k fields gs h in
    let next = count_group k fields gs in
    let ascending = count_group-IsAscending k fields gs h in
    elim (Bool-cases (text_eq k key)) [
      | inl same ↦
          let counted : group_count key next ≡ group_count key gs + 1 =
            ground (arith, one, same, small) in
          rw same (
            omega (
              arith,
              counted,
              count_groups_lem group_by key rs next ascending (omega (arith, counted, small)),
            ))
      | inr different ↦
          let counted : group_count key next ≡ group_count key gs =
            ground (arith, one, different) in
          rw different (
            omega (
              arith,
              counted,
              count_groups_lem group_by key rs next ascending (omega (arith, counted, small)),
            ))
    ]

count_groups-IsAscending :
    (group_by : List Text) (rs : List Record) (gs : Groups)
    → IsAscending gs
    → IsAscending (count_groups group_by rs gs)
unfolding count_groups
count_groups-IsAscending group_by [] gs h = h
count_groups-IsAscending group_by (r ∷ rs) gs h =
    count_groups-IsAscending group_by rs
      (count_group (group_key group_by r) (group_fields group_by r) gs)
      (count_group-IsAscending (group_key group_by r) (group_fields group_by r) gs h)

-- The keys ascend from the first group on.
pub count_groups-ascends :
    (group_by : List Text) (rs : List Record) → IsAscending (count_groups group_by rs [])
count_groups-ascends group_by rs = count_groups-IsAscending group_by rs [] tt

-- Of fewer than 2^64 records, the group of a key counts those with the key, and a key of none has no
-- count.
pub count_by_key :
    (group_by : List Text) (key : Text) (rs : List Record)
    → length rs < 2 ^ 64
    → group_count key (count_groups group_by rs []) ≡ with_key group_by key rs
count_by_key group_by key rs small =
    omega (arith, count_groups_lem group_by key rs [] tt (omega (arith, small)))
