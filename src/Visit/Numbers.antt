-- ===== src/Visit/Numbers.antt =====
-- The numbers of the zones' records.
use tracy_query.Prelude.{
  u64_mod, add_u64, ℕ, zero, suc, ◌+◌, ◌%◌, ◌^◌, ◌<◌, ◌≡◌, refl, ap, ap₂, ◌∙◌, Bool, Option, none,
  some, List, [], ◌∷◌, ◌++◌, map, arith, Text, map_append,
}
use tracy_query.Model.{Record}
use tracy_query.Visit.Worker.{Forest, nil, node, Trace}
use tracy_query.Visit.Zones.{
  Place, walk, walk_all, cpu_zone_record, gpu_zone_record, visit_cpu_zones, visit_gpu_zones,
  gpu_threads, cpu_name, gpu_name,
}

-- `n` numbers from `start` on.
abbrev pub from : ℕ → ℕ → List ℕ
from start zero = []
from start (suc n) = start ∷ from (suc start) n

from-append :
    (a b start mid : ℕ) → mid ≡ start + a → from start a ++ from mid b ≡ from start (a + b)
from-append zero b start mid e = ap₂ from (omega (arith, e)) (let z : b ≡ 0 + b = omega arith in z)
from-append (suc a) b start mid e =
    ap (λ r. start ∷ r) (from-append a b (suc start) mid (omega (arith, e)))
    ∙ ap (from start) (let z : suc (a + b) ≡ suc a + b = omega arith in z)

abbrev pub sequences : List Record → List ℕ
sequences = map (λ r. r.sequence)

-- Lists one after the other.
sequences-append :
    (xs ys : List Record) (start mid a b : ℕ)
    → sequences xs ≡ from start a
    → sequences ys ≡ from mid b
    → mid ≡ start + a
    → sequences (xs ++ ys) ≡ from start (a + b)
sequences-append xs ys start mid a b h k e =
    map_append (λ r. r.sequence) xs ys ∙ ap₂ ◌++◌ h k ∙ from-append a b start mid e

-- How many zones there are.
abbrev pub size {ℓ} : {A : Type ℓ} → Forest A → ℕ
size nil = 0
size (node zone children rest) = suc (size children + size rest)

abbrev IsNumbered : List Record × ℕ → ℕ → ℕ → Type 0
IsNumbered out start n = (sequences out.0 ≡ from start n) × (out.1 ≡ start + n)

module _ {ℓ} {A : Type ℓ} (record_of : Place → A → Record) (name_of : A → Text)
    (numbers : (p : Place) (a : A) → (record_of p a).sequence ≡ p.id) where
  walk-IsNumbered :
      (f : Forest A) (depth : ℕ) (parent : Option ℕ) (ancestors : List Text) (next_id : ℕ)
      → next_id + size f < u64_mod
      → IsNumbered (walk record_of name_of f depth parent ancestors next_id) next_id (size f)
  walk-IsNumbered nil depth parent ancestors next_id small = (refl, omega arith)
  walk-IsNumbered (node zone children rest) depth parent ancestors next_id small =
      let first : ℕ = add_u64 next_id 1 in
      let one : first ≡ suc next_id = omega (arith, small) in
      let inner =
        walk-IsNumbered children ((depth + 1) % 2 ^ 32) (some next_id)
          (ancestors ++ (name_of zone ∷ [])) first (omega (arith, one, small)) in
      let mid : ℕ =
        (walk record_of name_of children ((depth + 1) % 2 ^ 32) (some next_id)
          (ancestors ++ (name_of zone ∷ [])) first).1 in
      let later =
        walk-IsNumbered rest depth parent ancestors mid (omega (arith, inner.1, one, small)) in
      (
        ap₂ (λ n ns. n ∷ ns) (numbers _ zone)
            (sequences-append _ _ first mid (size children) (size rest) inner.0 later.0 inner.1
              ∙ ap (λ s. from s (size children + size rest)) one),
        omega (arith, later.1, inner.1, one),
      )

-- The zones of all groups.
abbrev pub total {ℓ κ} : {A : Type ℓ} {G : Type κ} → (G → Forest A) → List G → ℕ
total zones_of [] = 0
total zones_of (g ∷ gs) = size (zones_of g) + total zones_of gs

module _ {ℓ κ} {A : Type ℓ} {G : Type κ} (record_of : G → Place → A → Record) (name_of : A → Text)
    (zones_of : G → Forest A)
    (numbers : (g : G) (p : Place) (a : A) → (record_of g p a).sequence ≡ p.id) where
  walk_all-IsNumbered :
      (gs : List G) (next_id : ℕ)
      → next_id + total zones_of gs < u64_mod
      → IsNumbered (walk_all record_of name_of zones_of gs next_id) next_id (total zones_of gs)
  walk_all-IsNumbered [] next_id small = (refl, omega arith)
  walk_all-IsNumbered (g ∷ gs) next_id small =
      let these =
        walk-IsNumbered (record_of g) name_of (numbers g) (zones_of g) 0 none [] next_id
          (omega (arith, small)) in
      let mid : ℕ = (walk (record_of g) name_of (zones_of g) 0 none [] next_id).1 in
      let later = walk_all-IsNumbered gs mid (omega (arith, these.1, small)) in
      (
        sequences-append _ _ next_id mid (size (zones_of g)) (total zones_of gs) these.0 later.0
            these.1,
        omega (arith, later.1, these.1),
      )

-- Where a trace has fewer than 2 ^ 64 CPU zones and as few GPU zones: the records of its CPU zones
-- are numbered from 0 in the order in which they are visited, without gaps, over all threads, and so
-- are those of its GPU zones, over all contexts and their threads.
pub visit_zones-numbered :
    (callstacks : Bool) (trace : Trace)
    → total (λ t. t.timeline) trace.worker.threads < u64_mod
    → total (λ g. g.timeline) (gpu_threads 0 trace.worker.gpu) < u64_mod
    → (sequences (visit_cpu_zones callstacks trace)
        ≡ from 0 (total (λ t. t.timeline) trace.worker.threads))
      × (sequences (visit_gpu_zones callstacks trace)
          ≡ from 0 (total (λ g. g.timeline) (gpu_threads 0 trace.worker.gpu)))
unfolding visit_cpu_zones visit_gpu_zones
visit_zones-numbered callstacks trace small_cpu small_gpu = (
  (walk_all-IsNumbered (cpu_zone_record callstacks trace) cpu_name (λ t. t.timeline) (λ g p a. refl)
      trace.worker.threads 0 (omega (arith, small_cpu))).0,
  (walk_all-IsNumbered (gpu_zone_record callstacks trace) gpu_name (λ g. g.timeline) (λ g p a. refl)
      (gpu_threads 0 trace.worker.gpu) 0 (omega (arith, small_gpu))).0,
)
