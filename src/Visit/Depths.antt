-- ===== src/Visit/Depths.antt =====
-- The depths that the records carry, which the matcher of src/query.cpp reads.
use tracy_query.Prelude.{
  add_u64, ℕ, ◌≡◌, refl, Bool, true, false, Option, none, some, List, [], ◌∷◌, ◌++◌, arith, Text,
  codes, all,
}
use tracy_query.Model.{Kind, Value, Record}
use tracy_query.Visit.Worker.{ThreadData, Worker, Trace}
use tracy_query.Visit.Zones.{
  walk, ghost_fields, cpu_zone_record, gpu_zone_record, ghost_zone_record, visit_cpu_zones,
  visit_gpu_zones, visit_ghost_zones, gpu_threads, cpu_name, gpu_name,
}
use tracy_query.Prelude.Decimal.{to_string}
use tracy_query.Query.Matcher.{find_field}
use tracy_query.Visit.Worker.{MemoryEvent, FrameData, SwitchEvent}
use tracy_query.Visit.Fields.{frame_set_name}
use tracy_query.Visit.Fields.{callstack_fields}
use tracy_query.Visit.Points.{alloc_record, free_record, marked}
use tracy_query.Visit.Worker.{FreeData}
use tracy_query.Visit.Points.{
  numbered, memory_records, counters_of, counter_records, plot_record, lock_record, pool_name,
  sample_record, message_record, usage_record, visit_messages, visit_plots, visit_locks,
  visit_memory, visit_samples, visit_cpu_usage, visit_hardware_samples, visit_crash,
}
use tracy_query.Visit.Intervals.{
  image_records, switch_records, switch_record, slice_record, frame_record, frame_source,
  visit_frames, visit_context_switches, visit_cpu_slices,
}
use tracy_query.Visit.Zones.{ghost_threads, no_name}
use tracy_query.Visit.Kinds.{visit_kind}
use tracy_query.Visit.Lists.{all_append, all-numbered, all-gather, all-walk, all-walk_all}

-- The depth, if there is one, is an unsigned number.
abbrev pub has_number_depth : Record → Bool
has_number_depth r = elim (find_field (codes "depth") r.fields) [
  | none ↦ true
  | some value ↦ elim value [
    | Value.null ↦ false
    | Value.boolean b ↦ false
    | Value.int64 i ↦ false
    | Value.uint64 n ↦ true
    | Value.double x ↦ false
    | Value.string t ↦ false
  ]
]

module _ (callstacks symbols : Bool) (trace : Trace) where
  abbrev worker : Worker
  worker = trace.worker

  messages_deep : all has_number_depth (visit_messages callstacks symbols trace) ≡ true
  unfolding visit_messages find_field
  messages_deep =
      all-numbered has_number_depth (message_record callstacks symbols trace) (λ n a. ground arith)
        0 worker.messages

  plots_deep : all has_number_depth (visit_plots callstacks symbols trace) ≡ true
  unfolding visit_plots find_field
  plots_deep =
      all-gather has_number_depth
        (λ index plot. numbered (plot_record callstacks symbols trace index plot) 0 plot.items)
        (λ index plot.
          all-numbered has_number_depth (plot_record callstacks symbols trace index plot)
            (λ n a. ground arith) 0 plot.items)
        0 worker.plots

  cpu_zones_deep : all has_number_depth (visit_cpu_zones callstacks trace) ≡ true
  unfolding visit_cpu_zones find_field
  cpu_zones_deep =
      all-walk_all has_number_depth (cpu_zone_record callstacks trace) cpu_name (λ t. t.timeline)
        (λ g p a. ground arith) worker.threads 0

  gpu_zones_deep : all has_number_depth (visit_gpu_zones callstacks trace) ≡ true
  unfolding visit_gpu_zones find_field
  gpu_zones_deep =
      all-walk_all has_number_depth (gpu_zone_record callstacks trace) gpu_name (λ g. g.timeline)
        (λ g p a. ground arith) (gpu_threads 0 worker.gpu) 0

  locks_deep : all has_number_depth (visit_locks callstacks symbols trace) ≡ true
  unfolding visit_locks find_field
  locks_deep =
      all-gather has_number_depth
        (λ index (id, lock).
          numbered (lock_record callstacks symbols trace id lock) 0 lock.timeline)
        (λ index (id, lock).
          all-numbered has_number_depth (lock_record callstacks symbols trace id lock)
            (λ n a. ground arith) 0 lock.timeline)
        0 worker.locks

  memory_record_deep :
      (source pool : Text) (n : ℕ) (event : MemoryEvent)
      → has_number_depth (alloc_record callstacks symbols trace source pool n event) ≡ true
  unfolding find_field callstack_fields
  memory_record_deep source pool n event = ground arith

  free_record_deep :
      (source pool : Text) (n : ℕ) (event : MemoryEvent) (free : FreeData)
      → has_number_depth (free_record callstacks symbols trace source pool n event free) ≡ true
  unfolding find_field callstack_fields
  free_record_deep source pool n event free = ground arith

  memory_records_deep :
      (source pool : Text) (n : ℕ) (events : List MemoryEvent)
      → all has_number_depth (memory_records callstacks symbols trace source pool n events) ≡ true
  memory_records_deep source pool n [] = refl
  memory_records_deep source pool n (event ∷ events) =
      event_deep event.free (memory_records_deep source pool (add_u64 n 1) events)
        (memory_records_deep source pool (add_u64 (add_u64 n 1) 1) events)
    where
      event_deep :
          (o : Option FreeData)
          → all has_number_depth
              (memory_records callstacks symbols trace source pool (add_u64 n 1) events)
            ≡ true
          → all has_number_depth
              (memory_records callstacks symbols trace source pool (add_u64 (add_u64 n 1) 1) events)
            ≡ true
          → all has_number_depth (elim o [
            | none ↦
                alloc_record callstacks symbols trace source pool n event
                ∷ memory_records callstacks symbols trace source pool (add_u64 n 1) events
            | some free ↦
                alloc_record callstacks symbols trace source pool n event
                ∷ free_record callstacks symbols trace source pool (add_u64 n 1) event free
                ∷ memory_records callstacks symbols trace source pool
                    (add_u64 (add_u64 n 1) 1)
                    events
          ])
            ≡ true
      event_deep none h k = ground (arith, memory_record_deep source pool n event)
      event_deep (some free) h k = ground (
        arith,
        memory_record_deep source pool n event,
        free_record_deep source pool (add_u64 n 1) event free,
      )

  memory_deep : all has_number_depth (visit_memory callstacks symbols trace) ≡ true
  unfolding visit_memory
  memory_deep =
      all-gather has_number_depth
        (λ index pool.
          memory_records callstacks symbols trace (codes "memory-pool:" ++ to_string index)
            (pool_name callstacks symbols trace pool) 0 pool.events)
        (λ index pool.
          memory_records_deep (codes "memory-pool:" ++ to_string index)
            (pool_name callstacks symbols trace pool) 0 pool.events)
        0 worker.memory

  samples_deep : all has_number_depth (visit_samples callstacks symbols trace) ≡ true
  unfolding visit_samples find_field
  samples_deep =
      all-gather has_number_depth _
        (λ index thread.
          all-numbered has_number_depth (sample_record callstacks symbols trace thread)
            (λ n a. ground arith) 0
            (marked callstacks symbols trace false thread.samples
              ++ marked callstacks symbols trace true thread.switch_samples))
        0 worker.threads

  ghost_threads_deep :
      (threads : List ThreadData)
      → all has_number_depth (ghost_threads callstacks trace threads) ≡ true
  unfolding find_field ghost_fields
  ghost_threads_deep [] = refl
  ghost_threads_deep (thread ∷ threads) =
      all_append has_number_depth
        (walk (ghost_zone_record callstacks trace thread) (no_name callstacks trace)
          thread.ghost_zones 0 none [] 0).0
        (ghost_threads callstacks trace threads)
        (all-walk has_number_depth (ghost_zone_record callstacks trace thread)
          (no_name callstacks trace) (λ p a. ground arith) thread.ghost_zones 0 none [] 0)
        (ghost_threads_deep threads)

  ghost_zones_deep : all has_number_depth (visit_ghost_zones callstacks trace) ≡ true
  unfolding visit_ghost_zones
  ghost_zones_deep = ghost_threads_deep worker.threads

  usage_deep : all has_number_depth (visit_cpu_usage callstacks symbols trace) ≡ true
  unfolding visit_cpu_usage find_field
  usage_deep =
      all-numbered has_number_depth (usage_record callstacks symbols trace) (λ n a. ground arith) 0
        worker.usage

  hardware_deep : all has_number_depth (visit_hardware_samples callstacks symbols trace) ≡ true
  unfolding visit_hardware_samples find_field
  hardware_deep =
      all-gather has_number_depth _
        (λ index (address, samples).
          all-gather has_number_depth (counter_records callstacks symbols trace address)
            (λ n (counter, times). all-numbered has_number_depth _ (λ n a. ground arith) 0 times) 0
            (counters_of callstacks symbols trace samples))
        0 worker.hardware

  crash_deep : all has_number_depth (visit_crash callstacks symbols trace) ≡ true
  unfolding visit_crash find_field
  crash_deep = ground arith

  image_records_deep :
      (source name : Text) (n : ℕ) (frames : List FrameData)
      → all has_number_depth (image_records trace source name n frames) ≡ true
  unfolding find_field
  image_records_deep source name n [] = refl
  image_records_deep source name n (frame ∷ frames) =
      ground (arith, image_records_deep source name (add_u64 n 1) frames)

  images_deep : all has_number_depth (visit_frames trace true) ≡ true
  unfolding visit_frames
  images_deep =
      all-gather has_number_depth _
        (λ index set.
          image_records_deep (frame_source trace index) (frame_set_name worker set.name) 0
            set.frames)
        0 worker.frames

  frames_deep : all has_number_depth (visit_frames trace false) ≡ true
  unfolding visit_frames find_field
  frames_deep =
      all-gather has_number_depth _
        (λ index set.
          all-numbered has_number_depth
            (frame_record trace (frame_source trace index) (frame_set_name worker set.name)
              set.continuous)
            (λ n a. ground arith) 0 set.frames)
        0 worker.frames

  switch_records_deep :
      (thread : ℕ) (events : Option (List SwitchEvent))
      → all has_number_depth (switch_records trace thread events) ≡ true
  unfolding find_field
  switch_records_deep thread none = refl
  switch_records_deep thread (some events) =
      all-numbered has_number_depth (switch_record trace thread) (λ n a. ground arith) 0 events

  switches_deep : all has_number_depth (visit_context_switches trace) ≡ true
  unfolding visit_context_switches
  switches_deep =
      all-gather has_number_depth _
        (λ index thread. switch_records_deep thread (worker.switches thread)) 0 worker.cpu_threads

  slices_deep : all has_number_depth (visit_cpu_slices trace) ≡ true
  unfolding visit_cpu_slices find_field
  slices_deep =
      all-gather has_number_depth _
        (λ cpu events.
          all-numbered has_number_depth (slice_record trace cpu) (λ n a. ground arith) 0 events)
        0 worker.cpus

-- The depth of every record that a visit gives is an unsigned number, where it has one.
pub visit_kind-has_number_depth :
    (callstacks symbols : Bool) (trace : Trace) (kind : Kind)
    → all has_number_depth (visit_kind callstacks symbols trace kind) ≡ true
unfolding visit_kind
visit_kind-has_number_depth c s t Kind.message = messages_deep c s t
visit_kind-has_number_depth c s t Kind.plot = plots_deep c s t
visit_kind-has_number_depth c s t Kind.cpu_zone = cpu_zones_deep c s t
visit_kind-has_number_depth c s t Kind.gpu_zone = gpu_zones_deep c s t
visit_kind-has_number_depth c s t Kind.frame = frames_deep c s t
visit_kind-has_number_depth c s t Kind.frame_image = images_deep c s t
visit_kind-has_number_depth c s t Kind.lock = locks_deep c s t
visit_kind-has_number_depth c s t Kind.memory = memory_deep c s t
visit_kind-has_number_depth c s t Kind.sample = samples_deep c s t
visit_kind-has_number_depth c s t Kind.ghost_zone = ghost_zones_deep c s t
visit_kind-has_number_depth c s t Kind.context_switch = switches_deep c s t
visit_kind-has_number_depth c s t Kind.cpu_slice = slices_deep c s t
visit_kind-has_number_depth c s t Kind.cpu_usage = usage_deep c s t
visit_kind-has_number_depth c s t Kind.hardware_sample = hardware_deep c s t
visit_kind-has_number_depth c s t Kind.crash = crash_deep c s t
