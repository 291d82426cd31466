-- ===== src/Commands/Discover/Registered.antt =====
-- The types of the sources that `discover_sources` of src/commands.cpp gives.
use tracy_query.Prelude.{
  add_u64, set, ℕ, ◌≡◌, refl, Bool, true, ◌&&◌, not, List, [], ◌∷◌, ◌++◌, arith, Text, codes,
  text_eq, is_empty, all,
}
use tracy_query.Prelude.Int.{ℤ}
use tracy_query.Adapter.{source_type_of}
use tracy_query.Model.{Kind, Source}
use tracy_query.Visit.Worker.{
  Forest, GpuZoneData, GpuContext, PlotData, FrameSet, LockData, MemoryPool, ThreadData, SliceEvent,
  HardwareSamples, Worker, Trace,
}
use tracy_query.Commands.Ranges.{Range}
use tracy_query.Commands.Discover.{
  Found, counted, nothing_found, add_zones, add_messages, add_samples, add_ghost_zones,
  add_switches, thread_found, indexed, gpu_sources_of, thread_sources, gpu_sources, plot_sources,
  frame_sources, lock_sources, memory_sources, cpu_sources, counter_sources, crash_sources,
  counters, discover_sources,
}

-- A source has a kind, and its type is the one that the registry has for each of its kinds.
abbrev pub registered : Source → Bool
registered s =
    not (is_empty s.kinds) && all (λ kind. text_eq (source_type_of kind) s.source_type) s.kinds

all_append :
    (test : Source → Bool) (xs ys : List Source)
    → all test xs ≡ true
    → all test ys ≡ true
    → all test (xs ++ ys) ≡ true
all_append test [] ys h k = k
all_append test (x ∷ xs) ys h k = ground (arith, all_append test xs ys)

all-indexed {ℓ} :
    {A : Type ℓ} (test : Source → Bool) (sources_of : ℕ → A → List Source)
    → ((n : ℕ) (a : A) → all test (sources_of n a) ≡ true)
    → (n : ℕ) (groups : List A) → all test (indexed sources_of n groups) ≡ true
all-indexed test sources_of h n [] = refl
all-indexed test sources_of h n (a ∷ groups) =
    all_append test (sources_of n a) (indexed sources_of (add_u64 n 1) groups) (h n a)
      (all-indexed test sources_of h (add_u64 n 1) groups)

module _ (trace : Trace) where
  -- The kinds so far are those of threads.
  abbrev of_thread : Found → Bool
  of_thread found = all (λ kind. text_eq (source_type_of kind) (codes "thread")) found.kinds

  all_kinds_append :
      (test : Kind → Bool) (xs : List Kind) (kind : Kind)
      → all test xs ≡ true
      → test kind ≡ true
      → all test (xs ++ (kind ∷ [])) ≡ true
  all_kinds_append test [] kind h k = ground arith
  all_kinds_append test (x ∷ xs) kind h k = ground (arith, all_kinds_append test xs kind)

  of_thread-counted :
      (kind : Kind) (name : Text) (n : ℕ) (range : Range) (found : Found)
      → of_thread found ≡ true
      → text_eq (source_type_of kind) (codes "thread") ≡ true
      → of_thread (counted kind name n range found) ≡ true
  of_thread-counted kind name n range found h k =
      all_kinds_append (λ kind. text_eq (source_type_of kind) (codes "thread")) found.kinds kind h k

  add_zones-of_thread :
      (thread : ThreadData) (found : Found)
      → of_thread found ≡ true
      → of_thread (add_zones trace thread found) ≡ true
  unfolding source_type_of text_eq
  add_zones-of_thread thread found h = ground (
    arith,
    all_kinds_append (λ kind. text_eq (source_type_of kind) (codes "thread")) found.kinds
        Kind.cpu_zone h refl,
  )

  add_messages-of_thread :
      (thread : ThreadData) (found : Found)
      → of_thread found ≡ true
      → of_thread (add_messages trace thread found) ≡ true
  unfolding source_type_of text_eq
  add_messages-of_thread thread found h = ground (
    arith,
    all_kinds_append (λ kind. text_eq (source_type_of kind) (codes "thread")) found.kinds
        Kind.message h refl,
  )

  add_samples-of_thread :
      (thread : ThreadData) (found : Found)
      → of_thread found ≡ true
      → of_thread (add_samples trace thread found) ≡ true
  unfolding source_type_of text_eq
  add_samples-of_thread thread found h = ground (
    arith,
    all_kinds_append (λ kind. text_eq (source_type_of kind) (codes "thread")) found.kinds
        Kind.sample h refl,
  )

  add_ghost_zones-of_thread :
      (thread : ThreadData) (found : Found)
      → of_thread found ≡ true
      → of_thread (add_ghost_zones trace thread found) ≡ true
  unfolding source_type_of text_eq
  add_ghost_zones-of_thread thread found h = ground (
    arith,
    all_kinds_append (λ kind. text_eq (source_type_of kind) (codes "thread")) found.kinds
        Kind.ghost_zone h refl,
  )

  add_switches-of_thread :
      (thread : ThreadData) (found : Found)
      → of_thread found ≡ true
      → of_thread (add_switches trace thread found) ≡ true
  unfolding source_type_of text_eq
  add_switches-of_thread thread found h = ground (
    arith,
    all_kinds_append (λ kind. text_eq (source_type_of kind) (codes "thread")) found.kinds
        Kind.context_switch h refl,
  )

  thread_found-of_thread : (thread : ThreadData) → of_thread (thread_found trace thread) ≡ true
  unfolding thread_found
  thread_found-of_thread thread =
      let f₁ = add_zones trace thread nothing_found in
      let f₂ = add_messages trace thread f₁ in
      let f₃ = add_samples trace thread f₂ in
      let f₄ = add_ghost_zones trace thread f₃ in
      add_switches-of_thread thread f₄ (
        add_ghost_zones-of_thread thread f₃ (
          add_samples-of_thread thread f₂
            (add_messages-of_thread thread f₁ (add_zones-of_thread thread nothing_found refl))))

  threads_registered :
      (n : ℕ) (thread : ThreadData) → all registered (thread_sources trace n thread) ≡ true
  unfolding thread_sources
  threads_registered n thread = ground (arith, thread_found-of_thread thread)

  gpu_registered :
      (n : ℕ) (context : GpuContext) (threads : List (ℕ × Forest GpuZoneData))
      → all registered (gpu_sources_of trace n context threads) ≡ true
  unfolding source_type_of text_eq
  gpu_registered n context [] = refl
  gpu_registered n context (thread ∷ threads) = gpu_registered n context threads

  plots_registered : (n : ℕ) (plot : PlotData) → all registered (plot_sources trace n plot) ≡ true
  unfolding plot_sources source_type_of text_eq
  plots_registered n plot = refl

  frames_registered : (n : ℕ) (set : FrameSet) → all registered (frame_sources trace n set) ≡ true
  unfolding frame_sources source_type_of text_eq
  frames_registered n set = ground arith

  locks_registered :
      (n : ℕ) (lock : ℕ × LockData) → all registered (lock_sources trace n lock) ≡ true
  unfolding lock_sources source_type_of text_eq
  locks_registered n lock = refl

  memory_registered :
      (n : ℕ) (pool : MemoryPool) → all registered (memory_sources trace n pool) ≡ true
  unfolding memory_sources source_type_of text_eq
  memory_registered n pool = refl

  cpus_registered :
      (n : ℕ) (slices : List SliceEvent) → all registered (cpu_sources trace n slices) ≡ true
  unfolding cpu_sources source_type_of text_eq
  cpus_registered n slices = ground arith

  counters_registered :
      (n : ℕ) (counter : Text × (HardwareSamples → List ℤ))
      → all registered (counter_sources trace n counter) ≡ true
  unfolding counter_sources source_type_of text_eq
  counters_registered n counter = ground arith

  crash_registered : all registered (crash_sources trace) ≡ true
  unfolding crash_sources source_type_of text_eq
  crash_registered = ground arith

-- Every source that is discovered has a kind, and its type is the one that the registry gives each
-- of its kinds, which is what the selectors of a query test.
pub discover_sources-registered : (trace : Trace) → all registered (discover_sources trace) ≡ true
unfolding discover_sources gpu_sources
discover_sources-registered trace =
    let w : Worker = trace.worker in
    all_append registered (indexed (thread_sources trace) 0 w.threads) _
      (all-indexed registered (thread_sources trace) (threads_registered trace) 0 w.threads)
      (all_append registered (indexed (gpu_sources trace) 0 w.gpu) _
        (all-indexed registered (gpu_sources trace) (λ n c. gpu_registered trace n c c.threads) 0
          w.gpu)
        (all_append registered (indexed (plot_sources trace) 0 w.plots) _
          (all-indexed registered (plot_sources trace) (plots_registered trace) 0 w.plots)
          (all_append registered (indexed (frame_sources trace) 0 w.frames) _
            (all-indexed registered (frame_sources trace) (frames_registered trace) 0 w.frames)
            (all_append registered (indexed (lock_sources trace) 0 w.locks) _
              (all-indexed registered (lock_sources trace) (locks_registered trace) 0 w.locks)
              (all_append registered (indexed (memory_sources trace) 0 w.memory) _
                (all-indexed registered (memory_sources trace) (memory_registered trace) 0 w.memory)
                (all_append registered (indexed (cpu_sources trace) 0 w.cpus) _
                  (all-indexed registered (cpu_sources trace) (cpus_registered trace) 0 w.cpus)
                  (all_append registered (indexed (counter_sources trace) 0 (counters trace)) _
                    (all-indexed registered (counter_sources trace) (counters_registered trace) 0
                      (counters trace))
                    (crash_registered trace))))))))
