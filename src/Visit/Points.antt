-- ===== src/Visit/Points.antt =====
-- The visitors of src/query.cpp whose records are points in time.
use tracy_query.Prelude.{
  ℕ, suc, ◌/◌, ◌%◌, ◌^◌, add_u64, Bool, true, false, not, ◌&&◌, none, some, List, [], ◌∷◌, ◌++◌,
  ltb, ◌==◌, if◌then◌else◌, Text, codes, get_or,
}
use tracy_query.Prelude.Int.{ℤ}
use tracy_query.Prelude.Decimal.{to_string}
use tracy_query.Model.{Kind, Value, Fields, Record}
use tracy_query.Visit.Worker.{
  MessageData, PlotData, LockEvent, LockData, FreeData, MemoryEvent, MemoryPool, SampleData,
  ThreadData, UsageData, HardwareSamples, Worker, Trace,
}
use tracy_query.Visit.Fields.{
  safe, normalize, plot_type, plot_format, lock_operation, callstack_fields, source_location_fields,
  append_item, text_field, number_field,
}

-- `sequence++` along a loop.
abbrev pub numbered {ℓ} : {A : Type ℓ} → (ℕ → A → Record) → ℕ → List A → List Record
numbered record_of sequence [] = []
numbered record_of sequence (item ∷ items) =
    record_of sequence item ∷ numbered record_of (add_u64 sequence 1) items

-- A loop over groups, with the index of each.
abbrev pub gather {ℓ} : {A : Type ℓ} → (ℕ → A → List Record) → ℕ → List A → List Record
gather records_of index [] = []
gather records_of index (group ∷ groups) =
    records_of index group ++ gather records_of (add_u64 index 1) groups

-- A record at one time.
abbrev pub point : Trace → Kind → Text → ℤ → ℕ → Fields → Record
point trace kind source time sequence fields = record {
  timestamp_ns = normalize trace time;
  end_timestamp_ns = none;
  trace = trace.label;
  source = source;
  kind = kind;
  sequence = sequence;
  fields = fields;
  ancestor_names = [];
}

abbrev pub thread_source : ℕ → Text
thread_source thread = codes "thread:" ++ to_string thread

abbrev pub thread_fields : Worker → ℕ → Fields
thread_fields worker thread =
    number_field (codes "thread") thread
    ∷ text_field (codes "thread_name") (safe (worker.thread_name thread))
    ∷ []

module _ (expand_callstacks expand_symbols : Bool) (trace : Trace) where
  abbrev worker : Worker
  worker = trace.worker

  abbrev with_callstack : ℕ → Fields
  with_callstack = callstack_fields expand_callstacks worker

  abbrev pub message_record : ℕ → MessageData → Record
  message_record sequence m = point trace Kind.message (thread_source m.thread) m.time sequence (
      text_field (codes "text") (safe m.text) ∷ thread_fields worker m.thread
      ++ (number_field (codes "color") m.color ∷ with_callstack m.callstack))

  unfoldable pub visit_messages : List Record
  unfolding safe normalize callstack_fields to_string
  visit_messages = numbered message_record 0 worker.messages

  abbrev pub plot_record : ℕ → PlotData → ℕ → ℤ × ℕ → Record
  plot_record index plot sequence (time, value) =
      point trace Kind.plot (codes "plot:" ++ to_string index) time sequence (
        text_field (codes "name") (safe (worker.string plot.name))
        ∷ text_field (codes "plot_type") (plot_type plot.plot_type)
        ∷ text_field (codes "format") (plot_format plot.format)
        ∷ (codes "value", Value.double value)
        ∷ [])

  unfoldable pub visit_plots : List Record
  unfolding safe normalize plot_type plot_format to_string
  visit_plots = gather (λ index plot. numbered (plot_record index plot) 0 plot.items) 0 worker.plots

  -- The threads whose bits are set, from `bit` on; there are at most 64 bits.
  abbrev pub waiters_from : ℕ → ℕ → Text → List ℕ → Text
  waiters_from bit wait_list result [] = result
  waiters_from bit wait_list result (thread ∷ threads) =
      if ltb bit 64 && not (wait_list / 2 ^ bit % 2 == 0)
      then waiters_from (suc bit) wait_list (append_item (codes ",") result (to_string thread))
          threads
      else waiters_from (suc bit) wait_list result threads

  abbrev pub lock_record : ℕ → LockData → ℕ → LockEvent → Record
  lock_record id lock sequence event =
      let name : Text = elim lock.custom_name [
        | none ↦ safe lock.name
        | some custom ↦ safe custom
      ] in
      let thread = get_or lock.threads event.thread 0 in
      point trace Kind.lock (codes "lock:" ++ to_string id) event.time sequence (
        text_field (codes "name") name
          ∷ text_field (codes "operation") (lock_operation event.operation)
          ∷ thread_fields worker thread
        ++ (number_field (codes "owner_thread") (get_or lock.threads event.locking_thread 0)
            ∷ number_field (codes "lock_count") event.lock_count
            ∷ text_field (codes "waiters") (waiters_from 0 event.wait_list [] lock.threads)
            ∷ (codes "contended", Value.boolean lock.contended)
            ∷ elim event.location [ none ↦ [] | some location ↦ source_location_fields location ]))

  unfoldable pub visit_locks : List Record
  unfolding safe normalize lock_operation source_location_fields to_string
  visit_locks =
      gather (λ index (id, lock). numbered (lock_record id lock) 0 lock.timeline) 0 worker.locks

  abbrev pub memory_fields : Text → Text → MemoryEvent → Fields
  memory_fields pool operation event =
      text_field (codes "pool") pool
      ∷ text_field (codes "operation") operation
      ∷ number_field (codes "address") event.address
      ∷ number_field (codes "size") event.size
      ∷ []

  abbrev pub alloc_record : Text → Text → ℕ → MemoryEvent → Record
  alloc_record source pool sequence event = point trace Kind.memory source event.time sequence (
      memory_fields pool (codes "alloc") event
      ++ ((codes "live", Value.boolean (elim event.free [ none ↦ true | some free ↦ false ]))
            ∷ thread_fields worker event.thread
          ++ with_callstack event.callstack))

  abbrev pub free_record : Text → Text → ℕ → MemoryEvent → FreeData → Record
  free_record source pool sequence event free = point trace Kind.memory source free.time sequence (
      memory_fields pool (codes "free") event
      ++ (thread_fields worker free.thread ++ with_callstack free.callstack))

  -- The events of a pool, each with its release; both take a number of the sequence.
  abbrev pub memory_records : Text → Text → ℕ → List MemoryEvent → List Record
  memory_records source pool sequence [] = []
  memory_records source pool sequence (event ∷ events) = elim event.free [
    | none ↦
        alloc_record source pool sequence event
        ∷ memory_records source pool (add_u64 sequence 1) events
    | some free ↦
        alloc_record source pool sequence event
        ∷ free_record source pool (add_u64 sequence 1) event free
        ∷ memory_records source pool (add_u64 (add_u64 sequence 1) 1) events
  ]

  abbrev pub pool_name : MemoryPool → Text
  pool_name pool = if pool.name == 0 then codes "default" else safe (worker.string pool.name)

  unfoldable pub visit_memory : List Record
  unfolding safe normalize callstack_fields to_string
  visit_memory =
      gather
        (λ index pool.
          memory_records (codes "memory-pool:" ++ to_string index) (pool_name pool) 0 pool.events)
        0 worker.memory

  abbrev pub sample_record : ThreadData → ℕ → Bool × SampleData → Record
  sample_record thread sequence (context_switch, sample) =
      point trace Kind.sample (thread_source thread.id) sample.time sequence (
        thread_fields worker thread.id
        ++ ((codes "context_switch", Value.boolean context_switch)
            ∷ with_callstack sample.callstack))

  abbrev pub marked : Bool → List SampleData → List (Bool × SampleData)
  marked context_switch [] = []
  marked context_switch (sample ∷ samples) =
      (context_switch, sample) ∷ marked context_switch samples

  unfoldable pub visit_samples : List Record
  unfolding safe normalize callstack_fields to_string
  visit_samples =
      gather
        (λ index thread.
          numbered (sample_record thread) 0
            (marked false thread.samples ++ marked true thread.switch_samples))
        0 worker.threads

  abbrev pub usage_record : ℕ → UsageData → Record
  usage_record sequence usage = point trace Kind.cpu_usage (codes "capture") usage.time sequence (
      number_field (codes "own") usage.own
      ∷ number_field (codes "other") usage.other
      ∷ (codes "derived", Value.boolean true)
      ∷ [])

  unfoldable pub visit_cpu_usage : List Record
  unfolding normalize
  visit_cpu_usage = numbered usage_record 0 worker.usage

  -- The counters, with the name of each.
  abbrev pub counters_of : HardwareSamples → List (Text × List ℤ)
  counters_of samples =
      (codes "cycles", samples.cycles)
      ∷ (codes "retired", samples.retired)
      ∷ (codes "cache-ref", samples.cache_ref)
      ∷ (codes "cache-miss", samples.cache_miss)
      ∷ (codes "branch-retired", samples.branch_retired)
      ∷ (codes "branch-miss", samples.branch_miss)
      ∷ []

  abbrev pub symbol_for : ℕ → Text
  symbol_for address = elim (worker.symbol_name address) [ none ↦ [] | some name ↦ safe name ]

  abbrev pub hardware_record : ℕ → Text → ℕ → ℤ → Record
  hardware_record address counter sequence time =
      point trace Kind.hardware_sample (codes "hardware-counter:" ++ counter) time sequence (
        text_field (codes "counter") counter
        ∷ number_field (codes "address") address
        ∷ (if expand_symbols then text_field (codes "symbol") (symbol_for address) ∷ [] else []))

  abbrev pub counter_records : ℕ → ℕ → Text × List ℤ → List Record
  counter_records address index (counter, times) =
      numbered (hardware_record address counter) 0 times

  unfoldable pub visit_hardware_samples : List Record
  unfolding safe normalize
  visit_hardware_samples =
      gather (λ index (address, samples). gather (counter_records address) 0 (counters_of samples))
        0 worker.hardware

  unfoldable pub visit_crash : List Record
  unfolding safe normalize callstack_fields
  visit_crash =
      let crash = worker.crash in
      if crash.thread == 0
      then []
      else (point trace Kind.crash (codes "capture") crash.time 0 (
            thread_fields worker crash.thread
            ++ (text_field (codes "message") (safe crash.message) ∷ with_callstack crash.callstack))
          ∷ [])
