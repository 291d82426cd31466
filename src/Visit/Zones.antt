-- ===== src/Visit/Zones.antt =====
-- The visitors of src/query.cpp that walk nested zones.
use tracy_query.Prelude.{
  ℕ, ◌+◌, ◌%◌, ◌^◌, add_u64, Bool, true, Option, none, some, List, [], ◌∷◌, ◌++◌, Text, codes,
}
use tracy_query.Prelude.Int.{ℤ}
use tracy_query.Prelude.Decimal.{to_string}
use tracy_query.Model.{Kind, Value, Fields, Record}
use tracy_query.Visit.Worker.{
  Forest, nil, node, ZoneExtra, ZoneData, GpuZoneData, GpuContext, GhostZoneData, FrameSymbol,
  ThreadData, Worker, Trace,
}
use tracy_query.Visit.Fields.{
  safe, normalize, callstack_fields, source_location_fields, set_field, append_item, join_onto,
  text_field, number_field,
}
use tracy_query.Visit.Points.{thread_source, thread_fields}

-- Where a zone is: its number, its depth, the number of the zone it is in, and the names of the
-- zones around it.
pub record Place : Type 0 where
  pub id : ℕ
  pub depth : ℕ
  pub parent_id : Option ℕ
  pub ancestors : List Text

-- The recursion over a vector of zones, with the next number: a zone, then its children, then the
-- rest.
abbrev pub walk {ℓ} :
    {A : Type ℓ}
    → (Place → A → Record)
    → (A → Text)
    → Forest A
    → ℕ
    → Option ℕ
    → List Text
    → ℕ
    → List Record × ℕ
walk record_of name_of nil depth parent_id ancestors next_id = ([], next_id)
walk record_of name_of (node zone children rest) depth parent_id ancestors next_id =
    let (inner, after_children) =
      walk record_of name_of children ((depth + 1) % 2 ^ 32) (some next_id)
        (ancestors ++ (name_of zone ∷ [])) (add_u64 next_id 1) in
    let (later, after_rest) =
      walk record_of name_of rest depth parent_id ancestors after_children in
    (
      record_of
              (record { id = next_id; depth = depth; parent_id = parent_id; ancestors = ancestors })
              zone
            ∷ inner
          ++ later,
      after_rest,
    )

-- Vectors one after the other, with the number that goes on.
abbrev pub walk_all {ℓ κ} :
    {A : Type ℓ} {G : Type κ}
    → (G → Place → A → Record)
    → (A → Text)
    → (G → Forest A)
    → List G
    → ℕ
    → List Record × ℕ
walk_all record_of name_of zones_of [] next_id = ([], next_id)
walk_all record_of name_of zones_of (group ∷ groups) next_id =
    let (these, after_these) = walk (record_of group) name_of (zones_of group) 0 none [] next_id in
    let (later, after_rest) = walk_all record_of name_of zones_of groups after_these in
    (these ++ later, after_rest)

abbrev pub parent_fields : Option ℕ → Fields
parent_fields none = []
parent_fields (some parent) = number_field (codes "parent_id") parent ∷ []

-- `ancestors.back()`.
abbrev pub last_name : Text → List Text → Text
last_name name [] = name
last_name name (next ∷ names) = last_name next names

unfoldable pub ancestor_fields : List Text → Fields
ancestor_fields [] = []
ancestor_fields (name ∷ names) =
    text_field (codes "ancestors") (join_onto (codes " / ") [] (name ∷ names))
    ∷ text_field (codes "parent_name") (last_name name names)
    ∷ []

-- A record of an interval, with the names of the zones around it.
abbrev pub zone_record : Trace → Kind → Text → ℤ → ℤ → Place → Fields → List Text → Record
zone_record trace kind source start end place fields ancestor_names = record {
  timestamp_ns = normalize trace start;
  end_timestamp_ns = some (normalize trace end);
  trace = trace.label;
  source = source;
  kind = kind;
  sequence = place.id;
  fields = fields;
  ancestor_names = ancestor_names;
}

-- A thread of a context.
pub record GpuThread : Type 0 where
  pub index : ℕ
  pub context : GpuContext
  pub thread : ℕ
  pub timeline : Forest GpuZoneData

abbrev threads_of : ℕ → GpuContext → List (ℕ × Forest GpuZoneData) → List GpuThread → List GpuThread
threads_of index context [] others = others
threads_of index context ((thread, timeline) ∷ threads) others =
    record { index = index; context = context; thread = thread; timeline = timeline }
    ∷ threads_of index context threads others

unfoldable pub gpu_threads : ℕ → List GpuContext → List GpuThread
gpu_threads index [] = []
gpu_threads index (context ∷ contexts) =
    threads_of index context context.threads (gpu_threads (add_u64 index 1) contexts)

abbrev pub cpu_name : ZoneData → Text
cpu_name zone = safe zone.name

abbrev pub gpu_name : GpuZoneData → Text
gpu_name zone = safe zone.name

module _ (expand_callstacks : Bool) (trace : Trace) where
  abbrev worker : Worker
  worker = trace.worker

  abbrev with_callstack : ℕ → Fields
  with_callstack = callstack_fields expand_callstacks worker

  abbrev optional_text : Option (Option Text) → Fields
  optional_text none = []
  optional_text (some text) = text_field (codes "text") (safe text) ∷ []

  abbrev with_name : Option (Option Text) → Fields → Fields
  with_name none fields = fields
  with_name (some name) fields = set_field (codes "name") (Value.string (safe name)) fields

  abbrev with_extra : Option ZoneExtra → Fields → Fields
  with_extra none fields = fields
  with_extra (some extra) fields =
      with_name extra.name fields ++ (optional_text extra.text ++ with_callstack extra.callstack)

  unfoldable pub cpu_fields : ℕ → Place → ZoneData → Fields
  unfolding safe callstack_fields source_location_fields set_field ancestor_fields
  cpu_fields thread place zone = with_extra zone.extra (
      number_field (codes "zone_id") place.id
        ∷ number_field (codes "depth") place.depth
        ∷ text_field (codes "name") (cpu_name zone)
        ∷ thread_fields worker thread
      ++ (parent_fields place.parent_id
          ++ (ancestor_fields place.ancestors ++ source_location_fields zone.location)))

  abbrev pub cpu_zone_record : ThreadData → Place → ZoneData → Record
  cpu_zone_record thread place zone =
      zone_record trace Kind.cpu_zone (thread_source thread.id) zone.start zone.end place
        (cpu_fields thread.id place zone) place.ancestors

  unfoldable pub visit_cpu_zones : List Record
  unfolding cpu_fields normalize to_string
  visit_cpu_zones =
      (walk_all cpu_zone_record cpu_name (λ thread. thread.timeline) worker.threads 0).0

  abbrev note_item : GpuContext → ℕ × Text → Text
  note_item context (id, value) =
      elim (context.note_names id) [ none ↦ to_string id | some name ↦ safe name ]
      ++ (codes "=" ++ value)

  abbrev join_notes : GpuContext → Text → List (ℕ × Text) → Text
  join_notes context result [] = result
  join_notes context result (note ∷ notes) =
      join_notes context (append_item (codes ",") result (note_item context note)) notes

  abbrev note_fields : GpuContext → ℕ → Fields
  note_fields context query_id = elim (context.notes query_id) [
    | none ↦ []
    | some notes ↦ text_field (codes "note") (join_notes context [] notes) ∷ []
  ]

  unfoldable pub gpu_fields : GpuThread → Place → GpuZoneData → Fields
  unfolding safe callstack_fields source_location_fields ancestor_fields normalize to_string
  gpu_fields g place zone =
      number_field (codes "zone_id") place.id
        ∷ number_field (codes "depth") place.depth
        ∷ text_field (codes "name") (gpu_name zone)
        ∷ thread_fields worker g.thread
      ++ (number_field (codes "context") g.index
            ∷ text_field (codes "context_name")
                (elim g.context.name [ none ↦ [] | some name ↦ safe name ])
            ∷ (codes "has_calibration", Value.boolean g.context.has_calibration)
            ∷ (codes "gpu_period", Value.double g.context.period)
            ∷ (codes "cpu_start_ns", Value.int64 (normalize trace zone.cpu_start))
            ∷ (codes "cpu_end_ns", Value.int64 (normalize trace zone.cpu_end))
            ∷ parent_fields place.parent_id
          ++ (ancestor_fields place.ancestors
              ++ (source_location_fields zone.location
                  ++ (with_callstack zone.callstack ++ note_fields g.context zone.query_id))))

  abbrev pub gpu_source : ℕ → ℕ → Text
  gpu_source index thread =
      codes "gpu-context:" ++ (to_string index ++ (codes "/thread:" ++ to_string thread))

  abbrev pub gpu_zone_record : GpuThread → Place → GpuZoneData → Record
  gpu_zone_record g place zone =
      zone_record trace Kind.gpu_zone (gpu_source g.index g.thread) zone.start zone.end place
        (gpu_fields g place zone) place.ancestors

  unfoldable pub visit_gpu_zones : List Record
  unfolding gpu_fields gpu_threads normalize to_string
  visit_gpu_zones =
      (walk_all gpu_zone_record gpu_name (λ g. g.timeline) (gpu_threads 0 worker.gpu) 0).0

  abbrev symbol_fields : Option FrameSymbol → Fields
  symbol_fields none = []
  symbol_fields (some symbol) =
      text_field (codes "symbol") (safe symbol.name)
      ∷ text_field (codes "file") (safe symbol.file)
      ∷ number_field (codes "line") symbol.line
      ∷ []

  unfoldable pub ghost_fields : ℕ → Place → GhostZoneData → Fields
  unfolding safe
  ghost_fields thread place zone =
      number_field (codes "zone_id") place.id
        ∷ number_field (codes "depth") place.depth
        ∷ thread_fields worker thread
      ++ (number_field (codes "frame_id") zone.frame
            ∷ (codes "derived", Value.boolean true)
            ∷ symbol_fields zone.symbol
          ++ parent_fields place.parent_id)

  -- A ghost zone's record has no names of the zones around it.
  abbrev pub ghost_zone_record : ThreadData → Place → GhostZoneData → Record
  ghost_zone_record thread place zone =
      zone_record trace Kind.ghost_zone (thread_source thread.id) zone.start zone.end place
        (ghost_fields thread.id place zone) []

  abbrev pub no_name : GhostZoneData → Text
  no_name zone = []

  -- Each thread counts its zones from 0.
  abbrev pub ghost_threads : List ThreadData → List Record
  ghost_threads [] = []
  ghost_threads (thread ∷ threads) =
      (walk (ghost_zone_record thread) no_name thread.ghost_zones 0 none [] 0).0
      ++ ghost_threads threads

  unfoldable pub visit_ghost_zones : List Record
  unfolding ghost_fields normalize to_string
  visit_ghost_zones = ghost_threads worker.threads
