-- ===== src/Visit/Adapters.antt =====
-- The records of each kind against the registry of src/adapter.cpp.
use tracy_query.Prelude.{
  add_u64, ℕ, ◌≡◌, refl, Bool, true, false, ◌&&◌, not, Option, none, some, List, [], ◌∷◌, ◌++◌,
  arith, if◌then◌else◌, Text, codes, text_eq, text_eq_refl, all,
}
use tracy_query.Model.{Kind, Record}
use tracy_query.Visit.Worker.{ThreadData, Worker, Trace}
use tracy_query.Visit.Zones.{
  walk, cpu_zone_record, gpu_zone_record, ghost_zone_record, visit_cpu_zones, visit_gpu_zones,
  visit_ghost_zones, gpu_threads, cpu_name, gpu_name,
}
use tracy_query.Prelude.Decimal.{to_string}
use tracy_query.Adapter.{is_interval}
use tracy_query.Model.{kind_eq}
use tracy_query.Visit.Worker.{MemoryEvent, FrameData, SwitchEvent}
use tracy_query.Visit.Fields.{frame_set_name}
use tracy_query.Visit.Points.{
  numbered, memory_records, counters_of, counter_records, plot_record, lock_record, pool_name,
  sample_record, message_record, usage_record, visit_messages, visit_plots, visit_locks,
  visit_memory, visit_samples, visit_cpu_usage, visit_hardware_samples, visit_crash,
}
use tracy_query.Visit.Intervals.{
  image_records, switch_records, switch_record, slice_record, frame_record, frame_source,
  visit_frames, visit_context_switches, visit_cpu_slices,
}
use tracy_query.Visit.Zones.{ghost_threads, no_name}
use tracy_query.Visit.Kinds.{visit_kind}
use tracy_query.Visit.Lists.{all_append, all-numbered, all-gather, all-walk, all-walk_all}

abbrev has_end : Record → Bool
has_end r = elim r.end_timestamp_ns [ none ↦ false | some end ↦ true ]

-- A record of that kind and trace, with an end exactly where the registry calls the kind an interval.
abbrev pub fits : Kind → Text → Record → Bool
fits kind label r =
    kind_eq r.kind kind
    && (text_eq r.trace label && (if is_interval kind then has_end r else not (has_end r)))

-- What `fits` comes to for a record of the kind.
fit : (label : Text) → (text_eq label label && true) ≡ true
fit label = ground (arith, text_eq_refl label)

module _ (callstacks symbols : Bool) (trace : Trace) where
  abbrev worker : Worker
  worker = trace.worker

  messages_fit :
      all (fits Kind.message trace.label) (visit_messages callstacks symbols trace) ≡ true
  unfolding visit_messages is_interval
  messages_fit =
      all-numbered (fits Kind.message trace.label) (message_record callstacks symbols trace)
        (λ n a. fit trace.label) 0 worker.messages

  plots_fit : all (fits Kind.plot trace.label) (visit_plots callstacks symbols trace) ≡ true
  unfolding visit_plots is_interval
  plots_fit =
      all-gather (fits Kind.plot trace.label)
        (λ index plot. numbered (plot_record callstacks symbols trace index plot) 0 plot.items)
        (λ index plot.
          all-numbered (fits Kind.plot trace.label)
            (plot_record callstacks symbols trace index plot) (λ n a. fit trace.label) 0 plot.items)
        0 worker.plots

  cpu_zones_fit : all (fits Kind.cpu_zone trace.label) (visit_cpu_zones callstacks trace) ≡ true
  unfolding visit_cpu_zones is_interval
  cpu_zones_fit =
      all-walk_all (fits Kind.cpu_zone trace.label) (cpu_zone_record callstacks trace) cpu_name
        (λ t. t.timeline) (λ g p a. fit trace.label) worker.threads 0

  gpu_zones_fit : all (fits Kind.gpu_zone trace.label) (visit_gpu_zones callstacks trace) ≡ true
  unfolding visit_gpu_zones is_interval
  gpu_zones_fit =
      all-walk_all (fits Kind.gpu_zone trace.label) (gpu_zone_record callstacks trace) gpu_name
        (λ g. g.timeline) (λ g p a. fit trace.label) (gpu_threads 0 worker.gpu) 0

  locks_fit : all (fits Kind.lock trace.label) (visit_locks callstacks symbols trace) ≡ true
  unfolding visit_locks is_interval
  locks_fit =
      all-gather (fits Kind.lock trace.label)
        (λ index (id, lock).
          numbered (lock_record callstacks symbols trace id lock) 0 lock.timeline)
        (λ index (id, lock).
          all-numbered (fits Kind.lock trace.label) (lock_record callstacks symbols trace id lock)
            (λ n a. fit trace.label) 0 lock.timeline)
        0 worker.locks

  memory_records_fit :
      (source pool : Text) (n : ℕ) (events : List MemoryEvent)
      → all
          (fits Kind.memory trace.label)
          (memory_records callstacks symbols trace source pool n events)
        ≡ true
  unfolding is_interval
  memory_records_fit source pool n [] = refl
  memory_records_fit source pool n (event ∷ events) = ground (
    arith,
    fit trace.label,
    memory_records_fit source pool (add_u64 n 1) events,
    memory_records_fit source pool (add_u64 (add_u64 n 1) 1) events,
  )

  memory_fits : all (fits Kind.memory trace.label) (visit_memory callstacks symbols trace) ≡ true
  unfolding visit_memory
  memory_fits =
      all-gather (fits Kind.memory trace.label)
        (λ index pool.
          memory_records callstacks symbols trace (codes "memory-pool:" ++ to_string index)
            (pool_name callstacks symbols trace pool) 0 pool.events)
        (λ index pool.
          memory_records_fit (codes "memory-pool:" ++ to_string index)
            (pool_name callstacks symbols trace pool) 0 pool.events)
        0 worker.memory

  samples_fit : all (fits Kind.sample trace.label) (visit_samples callstacks symbols trace) ≡ true
  unfolding visit_samples is_interval
  samples_fit =
      all-gather (fits Kind.sample trace.label) _
        (λ index thread.
          all-numbered (fits Kind.sample trace.label)
            (sample_record callstacks symbols trace thread) (λ n a. fit trace.label) 0 _)
        0 worker.threads

  ghost_threads_fit :
      (threads : List ThreadData)
      → all (fits Kind.ghost_zone trace.label) (ghost_threads callstacks trace threads) ≡ true
  unfolding is_interval
  ghost_threads_fit [] = refl
  ghost_threads_fit (thread ∷ threads) =
      all_append (fits Kind.ghost_zone trace.label)
        (walk (ghost_zone_record callstacks trace thread) (no_name callstacks trace)
          thread.ghost_zones 0 none [] 0).0
        (ghost_threads callstacks trace threads)
        (all-walk (fits Kind.ghost_zone trace.label) (ghost_zone_record callstacks trace thread)
          (no_name callstacks trace) (λ p a. fit trace.label) thread.ghost_zones 0 none [] 0)
        (ghost_threads_fit threads)

  ghost_zones_fit :
      all (fits Kind.ghost_zone trace.label) (visit_ghost_zones callstacks trace) ≡ true
  unfolding visit_ghost_zones
  ghost_zones_fit = ghost_threads_fit worker.threads

  usage_fits :
      all (fits Kind.cpu_usage trace.label) (visit_cpu_usage callstacks symbols trace) ≡ true
  unfolding visit_cpu_usage is_interval
  usage_fits =
      all-numbered (fits Kind.cpu_usage trace.label) (usage_record callstacks symbols trace)
        (λ n a. fit trace.label) 0 worker.usage

  hardware_fits :
      all (fits Kind.hardware_sample trace.label) (visit_hardware_samples callstacks symbols trace)
      ≡ true
  unfolding visit_hardware_samples is_interval
  hardware_fits =
      all-gather (fits Kind.hardware_sample trace.label) _
        (λ index (address, samples).
          all-gather (fits Kind.hardware_sample trace.label)
            (counter_records callstacks symbols trace address)
            (λ n (counter, times).
              all-numbered (fits Kind.hardware_sample trace.label) _ (λ n a. fit trace.label) 0
                times)
            0 (counters_of callstacks symbols trace samples))
        0 worker.hardware

  crash_fits : all (fits Kind.crash trace.label) (visit_crash callstacks symbols trace) ≡ true
  unfolding visit_crash is_interval
  crash_fits = ground (arith, fit trace.label)

  image_records_fit :
      (source name : Text) (n : ℕ) (frames : List FrameData)
      → all (fits Kind.frame_image trace.label) (image_records trace source name n frames) ≡ true
  unfolding is_interval
  image_records_fit source name n [] = refl
  image_records_fit source name n (frame ∷ frames) =
      ground (arith, fit trace.label, image_records_fit source name (add_u64 n 1) frames)

  images_fit : all (fits Kind.frame_image trace.label) (visit_frames trace true) ≡ true
  unfolding visit_frames
  images_fit =
      all-gather (fits Kind.frame_image trace.label) _
        (λ index set.
          image_records_fit (frame_source trace index) (frame_set_name worker set.name) 0
            set.frames)
        0 worker.frames

  frames_fit : all (fits Kind.frame trace.label) (visit_frames trace false) ≡ true
  unfolding visit_frames is_interval
  frames_fit =
      all-gather (fits Kind.frame trace.label) _
        (λ index set.
          all-numbered (fits Kind.frame trace.label)
            (frame_record trace (frame_source trace index) (frame_set_name worker set.name)
              set.continuous)
            (λ n a. fit trace.label) 0 set.frames)
        0 worker.frames

  switch_records_fit :
      (thread : ℕ) (events : Option (List SwitchEvent))
      → all (fits Kind.context_switch trace.label) (switch_records trace thread events) ≡ true
  unfolding is_interval
  switch_records_fit thread none = refl
  switch_records_fit thread (some events) =
      all-numbered (fits Kind.context_switch trace.label) (switch_record trace thread)
        (λ n a. fit trace.label) 0 events

  switches_fit : all (fits Kind.context_switch trace.label) (visit_context_switches trace) ≡ true
  unfolding visit_context_switches
  switches_fit =
      all-gather (fits Kind.context_switch trace.label) _
        (λ index thread. switch_records_fit thread (worker.switches thread)) 0 worker.cpu_threads

  slices_fit : all (fits Kind.cpu_slice trace.label) (visit_cpu_slices trace) ≡ true
  unfolding visit_cpu_slices is_interval
  slices_fit =
      all-gather (fits Kind.cpu_slice trace.label) _
        (λ cpu events.
          all-numbered (fits Kind.cpu_slice trace.label) (slice_record trace cpu)
            (λ n a. fit trace.label) 0 events)
        0 worker.cpus

-- Every record that a visit of a kind gives is of that kind and carries the trace's label, and it
-- has an end exactly where the registry says that the kind is an interval.
pub visit_kind-fits :
    (callstacks symbols : Bool) (trace : Trace) (kind : Kind)
    → all (fits kind trace.label) (visit_kind callstacks symbols trace kind) ≡ true
unfolding visit_kind
visit_kind-fits c s t Kind.message = messages_fit c s t
visit_kind-fits c s t Kind.plot = plots_fit c s t
visit_kind-fits c s t Kind.cpu_zone = cpu_zones_fit c s t
visit_kind-fits c s t Kind.gpu_zone = gpu_zones_fit c s t
visit_kind-fits c s t Kind.frame = frames_fit c s t
visit_kind-fits c s t Kind.frame_image = images_fit c s t
visit_kind-fits c s t Kind.lock = locks_fit c s t
visit_kind-fits c s t Kind.memory = memory_fits c s t
visit_kind-fits c s t Kind.sample = samples_fit c s t
visit_kind-fits c s t Kind.ghost_zone = ghost_zones_fit c s t
visit_kind-fits c s t Kind.context_switch = switches_fit c s t
visit_kind-fits c s t Kind.cpu_slice = slices_fit c s t
visit_kind-fits c s t Kind.cpu_usage = usage_fits c s t
visit_kind-fits c s t Kind.hardware_sample = hardware_fits c s t
visit_kind-fits c s t Kind.crash = crash_fits c s t
