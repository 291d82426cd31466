-- ===== src/Visit/Nesting.antt =====
-- What the zones' records say of the zones around them.
use tracy_query.Prelude.{
  add_u64, ℕ, ◌+◌, ◌%◌, ◌^◌, ◌≡◌, refl, sym, ap, ◌∙◌, Bool, Option, none, some, List, [], ◌∷◌, ◌++◌,
  arith, Text, codes, All, All-append, ◌⊎◌, inl, inr,
}
use tracy_query.Model.{Value, Record}
use tracy_query.Visit.Worker.{Forest, nil, node, ZoneData, GpuZoneData, ThreadData, Trace}
use tracy_query.Visit.Zones.{
  Place, walk, walk_all, cpu_fields, gpu_fields, cpu_zone_record, gpu_zone_record, visit_cpu_zones,
  visit_gpu_zones, gpu_threads, GpuThread, cpu_name, gpu_name,
}
use tracy_query.Query.Matcher.{find_field}

-- The list has an item with the property.
abbrev pub Has {ℓ} : {A : Type ℓ} → (A → Type 0) → List A → Type 0
Has P [] = ⊥
Has P (x ∷ xs) = P x ⊎ Has P xs

Has-left {ℓ} : {A : Type ℓ} (P : A → Type 0) (xs ys : List A) → Has P xs → Has P (xs ++ ys)
Has-left P [] ys h = absurd h
Has-left P (x ∷ xs) ys (inl h) = inl h
Has-left P (x ∷ xs) ys (inr h) = inr (Has-left P xs ys h)

Has-right {ℓ} : {A : Type ℓ} (P : A → Type 0) (xs ys : List A) → Has P ys → Has P (xs ++ ys)
Has-right P [] ys h = h
Has-right P (x ∷ xs) ys h = inr (Has-right P xs ys h)

All-map {ℓ κ μ} :
    {A : Type ℓ} {P : A → Type κ} {Q : A → Type μ} (f : (x : A) → P x → Q x) (xs : List A)
    → All P xs
    → All Q xs
All-map f [] h = tt
All-map f (x ∷ xs) h = (f x h.0, All-map f xs h.1)

-- The number that the field holds.
abbrev number_of : Option Value → Option ℕ
number_of none = none
number_of (some value) = elim value [
  | Value.null ↦ none
  | Value.boolean b ↦ none
  | Value.int64 i ↦ none
  | Value.uint64 n ↦ some n
  | Value.double d ↦ none
  | Value.string t ↦ none
]

abbrev pub parent_of : Record → Option ℕ
parent_of r = number_of (find_field (codes "parent_id") r.fields)

-- The record of the zone that the zone is in: its number is the parent's, and the zone has one
-- ancestor more.
abbrev pub IsParentOf : Record → Record → Type 0
IsParentOf r q =
    (parent_of r ≡ some q.sequence)
    × ((name : Text) × (r.ancestor_names ≡ q.ancestor_names ++ (name ∷ [])))

abbrev pub Sits : Option ℕ → List Text → List Record → Record → Type 0
Sits parent ancestors records r =
    ((parent_of r ≡ parent) × (r.ancestor_names ≡ ancestors)) ⊎ Has (IsParentOf r) records

Sits-left :
    (parent : Option ℕ) (ancestors : List Text) (xs ys : List Record) (r : Record)
    → Sits parent ancestors xs r
    → Sits parent ancestors (xs ++ ys) r
Sits-left parent ancestors xs ys r (inl h) = inl h
Sits-left parent ancestors xs ys r (inr h) = inr (Has-left (IsParentOf r) xs ys h)

Sits-right :
    (parent : Option ℕ) (ancestors : List Text) (xs ys : List Record) (r : Record)
    → Sits parent ancestors ys r
    → Sits parent ancestors (xs ++ ys) r
Sits-right parent ancestors xs ys r (inl h) = inl h
Sits-right parent ancestors xs ys r (inr h) = inr (Has-right (IsParentOf r) xs ys h)

All-Sits-append :
    (parent : Option ℕ) (ancestors : List Text) (xs ys : List Record)
    → All (Sits parent ancestors xs) xs
    → All (Sits parent ancestors ys) ys
    → All (Sits parent ancestors (xs ++ ys)) (xs ++ ys)
All-Sits-append parent ancestors xs ys h k =
    All-append (Sits parent ancestors (xs ++ ys)) xs ys
      (All-map (Sits-left parent ancestors xs ys) xs h)
      (All-map (Sits-right parent ancestors xs ys) ys k)

module _ {ℓ} {A : Type ℓ} (record_of : Place → A → Record) (name_of : A → Text)
    (numbers : (p : Place) (a : A) → (record_of p a).sequence ≡ p.id)
    (parents : (p : Place) (a : A) → parent_of (record_of p a) ≡ p.parent_id)
    (ancestries : (p : Place) (a : A) → (record_of p a).ancestor_names ≡ p.ancestors) where
  -- The zones inside a zone have it as their parent.
  inside :
      (p : Place) (a : A) (name : Text) (xs ys : List Record) (r : Record)
      → Sits (some p.id) (p.ancestors ++ (name ∷ [])) xs r
      → Sits p.parent_id p.ancestors (record_of p a ∷ xs ++ ys) r
  inside p a name xs ys r (inl h) = inr (
      inl (
        h.0 ∙ ap some (sym (numbers p a)),
        (name, h.1 ∙ ap (λ t. t ++ (name ∷ [])) (sym (ancestries p a))),
      ))
  inside p a name xs ys r (inr h) = inr (inr (Has-left (IsParentOf r) xs ys h))

  after :
      (p : Place) (a : A) (xs ys : List Record) (r : Record)
      → Sits p.parent_id p.ancestors ys r
      → Sits p.parent_id p.ancestors (record_of p a ∷ xs ++ ys) r
  after p a xs ys r (inl h) = inl h
  after p a xs ys r (inr h) = inr (inr (Has-right (IsParentOf r) xs ys h))

  walk-Sits :
      (f : Forest A) (depth : ℕ) (parent : Option ℕ) (ancestors : List Text) (next_id : ℕ)
      → let out = (walk record_of name_of f depth parent ancestors next_id).0 in
        All (Sits parent ancestors out) out
  walk-Sits nil depth parent ancestors next_id = tt
  walk-Sits (node zone children rest) depth parent ancestors next_id =
      let p : Place = record {
        id = next_id;
        depth = depth;
        parent_id = parent;
        ancestors = ancestors;
      } in
      let inner =
        walk record_of name_of children ((depth + 1) % 2 ^ 32) (some next_id)
          (ancestors ++ (name_of zone ∷ [])) (add_u64 next_id 1) in
      let later = walk record_of name_of rest depth parent ancestors inner.1 in
      (
        inl (parents p zone, ancestries p zone),
        All-append (Sits parent ancestors (record_of p zone ∷ inner.0 ++ later.0)) inner.0 later.0
            (All-map (inside p zone (name_of zone) inner.0 later.0) inner.0 (
              walk-Sits children ((depth + 1) % 2 ^ 32) (some next_id)
                (ancestors ++ (name_of zone ∷ [])) (add_u64 next_id 1)))
            (All-map (after p zone inner.0 later.0) later.0
              (walk-Sits rest depth parent ancestors inner.1)),
      )

module _ {ℓ κ} {A : Type ℓ} {G : Type κ} (record_of : G → Place → A → Record) (name_of : A → Text)
    (zones_of : G → Forest A)
    (numbers : (g : G) (p : Place) (a : A) → (record_of g p a).sequence ≡ p.id)
    (parents : (g : G) (p : Place) (a : A) → parent_of (record_of g p a) ≡ p.parent_id)
    (ancestries : (g : G) (p : Place) (a : A)
      → (record_of g p a).ancestor_names ≡ p.ancestors) where
  walk_all-Sits :
      (gs : List G) (next_id : ℕ)
      → let out = (walk_all record_of name_of zones_of gs next_id).0 in All (Sits none [] out) out
  walk_all-Sits [] next_id = tt
  walk_all-Sits (g ∷ gs) next_id =
      let these = walk (record_of g) name_of (zones_of g) 0 none [] next_id in
      All-Sits-append none [] these.0 (walk_all record_of name_of zones_of gs these.1).0
        (walk-Sits (record_of g) name_of (numbers g) (parents g) (ancestries g) (zones_of g) 0 none
          [] next_id)
        (walk_all-Sits gs these.1)

cpu_fields-parent :
    (callstacks : Bool) (trace : Trace) (g : ThreadData) (p : Place) (a : ZoneData)
    → parent_of (cpu_zone_record callstacks trace g p a) ≡ p.parent_id
unfolding cpu_fields find_field
cpu_fields-parent callstacks trace g p a = ground arith

gpu_fields-parent :
    (callstacks : Bool) (trace : Trace) (g : GpuThread) (p : Place) (a : GpuZoneData)
    → parent_of (gpu_zone_record callstacks trace g p a) ≡ p.parent_id
unfolding gpu_fields find_field
gpu_fields-parent callstacks trace g p a = ground arith

-- The record of a CPU or GPU zone either names no parent and no ancestors, or the same visit has
-- the record whose number it names as its parent, and its ancestors are those of that record
-- followed by one name.
pub visit_zones-nested :
    (callstacks : Bool) (trace : Trace)
    → All (Sits none [] (visit_cpu_zones callstacks trace)) (visit_cpu_zones callstacks trace)
      × All (Sits none [] (visit_gpu_zones callstacks trace)) (visit_gpu_zones callstacks trace)
unfolding visit_cpu_zones visit_gpu_zones
visit_zones-nested callstacks trace = (
  walk_all-Sits (cpu_zone_record callstacks trace) cpu_name (λ t. t.timeline) (λ g p a. refl)
      (cpu_fields-parent callstacks trace) (λ g p a. refl) trace.worker.threads 0,
  walk_all-Sits (gpu_zone_record callstacks trace) gpu_name (λ g. g.timeline) (λ g p a. refl)
      (gpu_fields-parent callstacks trace) (λ g p a. refl) (gpu_threads 0 trace.worker.gpu) 0,
)
