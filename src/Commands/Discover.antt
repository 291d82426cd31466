-- ===== src/Commands/Discover.antt =====
-- `discover_sources` of src/commands.cpp: the sources of a trace, with their kinds, counts and times.
pub mod Registered
use tracy_query.Prelude.{
  ℕ, ◌+◌, add_u64, Bool, true, false, not, ◌&&◌, Option, none, some, List, [], ◌∷◌, ◌++◌, ◌==◌,
  if◌then◌else◌, Text, codes, is_empty, length, u64_mod,
}
use tracy_query.Prelude.Int.{ℤ}
use tracy_query.Prelude.Decimal.{to_string}
use tracy_query.Model.{Kind, Value, Fields, Source}
use tracy_query.Visit.Worker.{
  Forest, nil, node, ZoneData, GpuZoneData, GpuContext, PlotData, FrameData, FrameSet, LockEvent,
  LockData, MemoryEvent, MemoryPool, SampleData, ThreadData, SwitchEvent, SliceEvent,
  HardwareSamples, Worker, Trace,
}
use tracy_query.Visit.Fields.{safe, normalize, frame_set_name, number_field}
use tracy_query.Commands.Ranges.{
  Range, no_range, update_range, update_interval, count_gpu_zones, count_ghost_zones,
}

-- `front` and `back` of a list.
abbrev pub front_of {ℓ} : {A : Type ℓ} → List A → Option A
front_of [] = none
front_of (x ∷ xs) = some x

abbrev pub back_of {ℓ} : {A : Type ℓ} → List A → Option A
back_of [] = none
back_of (x ∷ xs) = elim (back_of xs) [ none ↦ some x | some y ↦ some y ]

-- The zones of a vector without those inside them.
abbrev pub top_zones {ℓ} : {A : Type ℓ} → Forest A → List A
top_zones nil = []
top_zones (node zone children rest) = zone ∷ top_zones rest

-- A source under construction: its kinds, counts and times.
pub record Found : Type 0 where
  pub kinds : List Kind
  pub counts : Fields
  pub range : Range

abbrev pub nothing_found : Found
nothing_found = record { kinds = []; counts = []; range = no_range }

abbrev pub counted : Kind → Text → ℕ → Range → Found → Found
counted kind name count range found = record {
  kinds = found.kinds ++ (kind ∷ []);
  counts = found.counts ++ (number_field name count ∷ []);
  range = range;
}

abbrev pub source_of : Text → Text → Text → Text → Found → Source
source_of label id source_type name found = record {
  trace = label;
  id = id;
  source_type = source_type;
  name = name;
  kinds = found.kinds;
  counts = found.counts;
  first_timestamp_ns = found.range.first;
  last_timestamp_ns = found.range.last;
}

-- A loop over groups, with the index of each.
abbrev pub indexed {ℓ} : {A : Type ℓ} → (ℕ → A → List Source) → ℕ → List A → List Source
indexed sources_of index [] = []
indexed sources_of index (group ∷ groups) =
    sources_of index group ++ indexed sources_of (add_u64 index 1) groups

module _ (trace : Trace) where
  abbrev worker : Worker
  worker = trace.worker

  -- The first and the last of some items, at the times that two functions read.
  abbrev pub ends_range {ℓ} : {A : Type ℓ} → (A → ℤ) → (A → ℤ) → List A → Range → Range
  ends_range begin_of end_of items range = elim (front_of items) [
    | none ↦ range
    | some first ↦ elim (back_of items) [
      | none ↦ range
      | some last ↦
          update_interval (normalize trace (begin_of first)) (normalize trace (end_of last)) range
    ]
  ]

  -- The first at its begin and the last at its end, as they are.
  abbrev pub front_and_back {ℓ} : {A : Type ℓ} → (A → ℤ) → (A → ℤ) → List A → Range
  front_and_back begin_of end_of items = elim (front_of items) [
    | none ↦ no_range
    | some first ↦ elim (back_of items) [
      | none ↦ no_range
      | some last ↦ record {
        first = some (normalize trace (begin_of first));
        last = some (normalize trace (end_of last));
      }
    ]
  ]

  abbrev optional_range : Option ℤ → Range → Range
  optional_range none range = range
  optional_range (some t) range = update_range (normalize trace t) range

  abbrev pub add_zones : ThreadData → Found → Found
  add_zones thread found =
      if thread.zone_count == 0
      then found
      else counted Kind.cpu_zone (codes "cpu_zone_count") thread.zone_count
          (ends_range (λ (z : ZoneData). z.start) (λ (z : ZoneData). z.end)
            (top_zones thread.timeline) found.range)
          found

  abbrev pub add_messages : ThreadData → Found → Found
  add_messages thread found =
      if is_empty thread.messages
      then found
      else counted Kind.message (codes "message_count") (length thread.messages)
          (ends_range (λ t. t) (λ t. t) thread.messages found.range) found

  abbrev pub sample_count : ThreadData → ℕ
  sample_count thread = add_u64 (length thread.samples) (length thread.switch_samples)

  abbrev pub add_samples : ThreadData → Found → Found
  add_samples thread found =
      if sample_count thread == 0
      then found
      else counted Kind.sample (codes "sample_count") (sample_count thread)
          (ends_range (λ (s : SampleData). s.time) (λ (s : SampleData). s.time)
            thread.switch_samples
            (ends_range (λ (s : SampleData). s.time) (λ (s : SampleData). s.time) thread.samples
              found.range))
          found

  abbrev pub add_ghost_zones : ThreadData → Found → Found
  add_ghost_zones thread found =
      if is_empty (top_zones thread.ghost_zones)
      then found
      else (let (count, range) = count_ghost_zones thread.ghost_zones no_range in
          counted Kind.ghost_zone (codes "ghost_zone_count") count
            (optional_range range.last (optional_range range.first found.range)) found)

  abbrev pub add_switches : ThreadData → Found → Found
  add_switches thread found = elim (worker.switches thread.id) [
    | none ↦ found
    | some events ↦
        if is_empty events
        then found
        else counted Kind.context_switch (codes "context_switch_count") (length events)
            (ends_range (λ (e : SwitchEvent). e.start) (λ (e : SwitchEvent). e.end) events
              found.range)
            found
  ]

  unfoldable pub thread_found : ThreadData → Found
  unfolding normalize update_interval update_range count_ghost_zones
  thread_found thread = add_switches thread (
      add_ghost_zones thread
        (add_samples thread (add_messages thread (add_zones thread nothing_found))))

  unfoldable pub thread_sources : ℕ → ThreadData → List Source
  unfolding thread_found safe to_string
  thread_sources index thread =
      let found = thread_found thread in
      if is_empty found.kinds
      then []
      else source_of trace.label (codes "thread:" ++ to_string thread.id) (codes "thread")
          (safe (worker.thread_name thread.id)) found
        ∷ []

  abbrev normal : Option ℤ → Option ℤ
  normal none = none
  normal (some t) = some (normalize trace t)

  abbrev context_thread_name : Text → Text → Text
  context_thread_name context thread =
      if is_empty context then thread else context ++ (codes " / " ++ thread)

  abbrev pub gpu_source_of : ℕ → GpuContext → ℕ × Forest GpuZoneData → Source
  gpu_source_of index context (thread, timeline) =
      let (count, range) = count_gpu_zones timeline no_range in
      source_of trace.label
        (codes "gpu-context:" ++ (to_string index ++ (codes "/thread:" ++ to_string thread)))
        (codes "gpu-thread")
        (context_thread_name (elim context.name [ none ↦ [] | some name ↦ safe name ])
          (safe (worker.thread_name thread)))
        (record {
          kinds = Kind.gpu_zone ∷ [];
          counts = number_field (codes "gpu_zone_count") count ∷ [];
          range = record { first = normal range.first; last = normal range.last };
        })

  abbrev pub gpu_sources_of : ℕ → GpuContext → List (ℕ × Forest GpuZoneData) → List Source
  gpu_sources_of index context [] = []
  gpu_sources_of index context (thread ∷ threads) =
      gpu_source_of index context thread ∷ gpu_sources_of index context threads

  unfoldable pub gpu_sources : ℕ → GpuContext → List Source
  unfolding count_gpu_zones normalize safe to_string
  gpu_sources index context = gpu_sources_of index context context.threads

  -- A source with one kind, a count, and the times of the first and the last of its items.
  abbrev pub simple_source : Text → Text → Text → Kind → Fields → Range → Source
  simple_source id source_type name kind counts range =
      source_of trace.label id source_type name
        (record { kinds = kind ∷ []; counts = counts; range = range })

  unfoldable pub plot_sources : ℕ → PlotData → List Source
  unfolding normalize safe to_string
  plot_sources index plot =
      simple_source (codes "plot:" ++ to_string index) (codes "plot")
        (if plot.name == 0 then [] else safe (worker.string plot.name)) Kind.plot
        (number_field (codes "plot_count") (length plot.items) ∷ [])
        (front_and_back (λ (item : ℤ × ℕ). item.0) (λ (item : ℤ × ℕ). item.0) plot.items)
      ∷ []

  abbrev pub count_images : List FrameData → ℕ
  count_images [] = 0
  count_images (frame ∷ frames) = elim frame.image [
    | none ↦ count_images frames
    | some image ↦ add_u64 (count_images frames) 1
  ]

  unfoldable pub frame_sources : ℕ → FrameSet → List Source
  unfolding normalize frame_set_name to_string
  frame_sources index set =
      let images = count_images set.frames in
      source_of trace.label (codes "frame-set:" ++ to_string index) (codes "frame-set")
        (frame_set_name worker set.name)
        (record {
          kinds = Kind.frame ∷ (if images == 0 then [] else Kind.frame_image ∷ []);
          counts =
              number_field (codes "frame_count") (length set.frames)
              ∷ (if images == 0 then [] else number_field (codes "frame_image_count") images ∷ []);
          range = front_and_back (λ (f : FrameData). f.begin) (λ (f : FrameData). f.end) set.frames;
        })
      ∷ []

  unfoldable pub lock_sources : ℕ → ℕ × LockData → List Source
  unfolding normalize safe to_string
  lock_sources index (id, lock) =
      simple_source (codes "lock:" ++ to_string id) (codes "lock")
        (elim lock.custom_name [ none ↦ safe lock.name | some custom ↦ safe custom ]) Kind.lock
        (number_field (codes "lock_count") (length lock.timeline) ∷ [])
        (front_and_back (λ (e : LockEvent). e.time) (λ (e : LockEvent). e.time) lock.timeline)
      ∷ []

  abbrev pub memory_range : List MemoryEvent → Range → Range
  memory_range [] range = range
  memory_range (event ∷ events) range =
      let range₁ = update_range (normalize trace event.time) range in
      memory_range events (elim event.free [
        | none ↦ range₁
        | some free ↦ update_range (normalize trace free.time) range₁
      ])

  unfoldable pub memory_sources : ℕ → MemoryPool → List Source
  unfolding normalize safe to_string update_range
  memory_sources index pool =
      simple_source (codes "memory-pool:" ++ to_string index) (codes "memory-pool")
        (if pool.name == 0 then codes "default" else safe (worker.string pool.name)) Kind.memory
        (number_field (codes "allocation_count") (length pool.events)
          ∷ number_field (codes "free_count") pool.free_count
          ∷ [])
        (memory_range pool.events no_range)
      ∷ []

  unfoldable pub cpu_sources : ℕ → List SliceEvent → List Source
  unfolding normalize to_string
  cpu_sources cpu slices =
      if is_empty slices
      then []
      else simple_source (codes "cpu:" ++ to_string cpu) (codes "cpu") (to_string cpu)
          Kind.cpu_slice (number_field (codes "cpu_slice_count") (length slices) ∷ [])
          (front_and_back (λ (e : SliceEvent). e.start) (λ (e : SliceEvent). e.end) slices)
        ∷ []

  -- A counter over all addresses: the number of its samples, and the times of the first and last at
  -- each address.
  abbrev pub counter_total :
      (HardwareSamples → List ℤ) → List (ℕ × HardwareSamples) → ℕ × Range → ℕ × Range
  counter_total samples_of [] found = found
  counter_total samples_of ((address, samples) ∷ rest) (count, range) =
      counter_total samples_of rest (
        add_u64 count (length (samples_of samples)),
        ends_range (λ t. t) (λ t. t) (samples_of samples) range,
      )

  abbrev pub counters : List (Text × (HardwareSamples → List ℤ))
  counters =
      (codes "cycles", λ s. s.cycles)
      ∷ (codes "retired", λ s. s.retired)
      ∷ (codes "cache-ref", λ s. s.cache_ref)
      ∷ (codes "cache-miss", λ s. s.cache_miss)
      ∷ (codes "branch-retired", λ s. s.branch_retired)
      ∷ (codes "branch-miss", λ s. s.branch_miss)
      ∷ []

  unfoldable pub counter_sources : ℕ → Text × (HardwareSamples → List ℤ) → List Source
  unfolding normalize update_interval update_range
  counter_sources index (name, samples_of) =
      let (count, range) = counter_total samples_of worker.hardware (0, no_range) in
      if count == 0
      then []
      else simple_source (codes "hardware-counter:" ++ name) (codes "hardware-counter") name
          Kind.hardware_sample (number_field (codes "hardware_sample_count") count ∷ []) range
        ∷ []

  unfoldable pub crash_sources : List Source
  unfolding normalize
  crash_sources =
      let crash = worker.crash in
      let time : Option ℤ = some (normalize trace crash.time) in
      if crash.thread == 0
      then []
      else simple_source (codes "capture") (codes "capture") [] Kind.crash
          (number_field (codes "crash_count") 1 ∷ []) (record { first = time; last = time })
        ∷ []

  unfoldable pub discover_sources : List Source
  unfolding thread_sources gpu_sources plot_sources frame_sources lock_sources memory_sources
      cpu_sources counter_sources crash_sources
  discover_sources =
      indexed thread_sources 0 worker.threads
      ++ (indexed gpu_sources 0 worker.gpu
          ++ (indexed plot_sources 0 worker.plots
              ++ (indexed frame_sources 0 worker.frames
                  ++ (indexed lock_sources 0 worker.locks
                      ++ (indexed memory_sources 0 worker.memory
                          ++ (indexed cpu_sources 0 worker.cpus
                              ++ (indexed counter_sources 0 counters ++ crash_sources)))))))
