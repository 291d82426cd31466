-- ===== src/Visit/Intervals.antt =====
-- The visitors of src/query.cpp whose records are intervals without nesting, and the frames' images.
use tracy_query.Prelude.{
  ℕ, add_u64, Bool, ◌||◌, Option, none, some, List, [], ◌∷◌, ◌++◌, if◌then◌else◌, Text, codes,
}
use tracy_query.Prelude.Int.{ℤ}
use tracy_query.Prelude.Decimal.{to_string}
use tracy_query.Model.{Kind, Value, Fields, Record}
use tracy_query.Visit.Worker.{ImageData, FrameData, SwitchEvent, SliceEvent, Worker, Trace}
use tracy_query.Visit.Fields.{safe, normalize, frame_set_name, text_field, number_field}
use tracy_query.Visit.Points.{numbered, gather, point, thread_source, thread_fields}

module _ (trace : Trace) where
  abbrev worker : Worker
  worker = trace.worker

  -- A record with an end.
  abbrev interval : Kind → Text → ℤ → ℤ → ℕ → Fields → Record
  interval kind source start end sequence fields =
      record (point trace kind source start sequence fields) {
        end_timestamp_ns = some (normalize trace end);
      }

  abbrev pub frame_record : Text → Text → Bool → ℕ → FrameData → Record
  frame_record source name continuous index frame =
      interval Kind.frame source frame.begin frame.end index (
        text_field (codes "frame_set") name
        ∷ number_field (codes "frame_index") index
        ∷ (codes "continuous", Value.boolean continuous)
        ∷ (codes "complete", Value.boolean (continuous || frame.ended))
        ∷ [])

  abbrev pub image_record : Text → Text → ℕ → ℤ → ImageData → Record
  image_record source name index begin image = point trace Kind.frame_image source begin index (
      text_field (codes "frame_set") name
      ∷ number_field (codes "frame_index") index
      ∷ number_field (codes "width") image.width
      ∷ number_field (codes "height") image.height
      ∷ (codes "flip", Value.boolean image.flip)
      ∷ number_field (codes "compressed_size") image.compressed_size
      ∷ [])

  -- The frames that have an image; the others take a number all the same.
  abbrev pub image_records : Text → Text → ℕ → List FrameData → List Record
  image_records source name index [] = []
  image_records source name index (frame ∷ frames) = elim frame.image [
    | none ↦ image_records source name (add_u64 index 1) frames
    | some found ↦ elim found [
      | none ↦ image_records source name (add_u64 index 1) frames
      | some image ↦
          image_record source name index frame.begin image
          ∷ image_records source name (add_u64 index 1) frames
    ]
  ]

  abbrev pub frame_source : ℕ → Text
  frame_source index = codes "frame-set:" ++ to_string index

  unfoldable pub visit_frames : Bool → List Record
  unfolding frame_set_name normalize to_string
  visit_frames images_only =
      gather
        (λ index set.
          if images_only
          then image_records (frame_source index) (frame_set_name worker set.name) 0 set.frames
          else numbered
              (frame_record (frame_source index) (frame_set_name worker set.name) set.continuous) 0
              set.frames)
        0 worker.frames

  abbrev wakeup_fields : Option ℤ → Fields
  wakeup_fields none = []
  wakeup_fields (some wakeup) =
      (codes "wakeup_timestamp_ns", Value.int64 (normalize trace wakeup)) ∷ []

  abbrev pub switch_record : ℕ → ℕ → SwitchEvent → Record
  switch_record thread sequence event =
      interval Kind.context_switch (thread_source thread) event.start
        (if event.end_valid then event.end else event.start) sequence
        (thread_fields worker thread
          ++ (number_field (codes "process") (worker.process_of thread)
              ∷ number_field (codes "cpu") event.cpu
              ∷ number_field (codes "wakeup_cpu") event.wakeup_cpu
              ∷ (codes "reason", Value.int64 event.reason)
              ∷ (codes "state", Value.int64 event.state)
              ∷ (codes "complete", Value.boolean event.end_valid)
              ∷ wakeup_fields event.wakeup))

  abbrev pub switch_records : ℕ → Option (List SwitchEvent) → List Record
  switch_records thread none = []
  switch_records thread (some events) = numbered (switch_record thread) 0 events

  unfoldable pub visit_context_switches : List Record
  unfolding safe normalize to_string
  visit_context_switches =
      gather (λ index thread. switch_records thread (worker.switches thread)) 0 worker.cpu_threads

  abbrev pub slice_record : ℕ → ℕ → SliceEvent → Record
  slice_record cpu sequence event =
      interval Kind.cpu_slice (codes "cpu:" ++ to_string cpu) event.start
        (if event.end_valid then event.end else event.start) sequence
        (number_field (codes "cpu") cpu ∷ thread_fields worker event.thread
          ++ (number_field (codes "process") (worker.process_of event.thread)
              ∷ (codes "complete", Value.boolean event.end_valid)
              ∷ []))

  unfoldable pub visit_cpu_slices : List Record
  unfolding safe normalize to_string
  visit_cpu_slices = gather (λ cpu events. numbered (slice_record cpu) 0 events) 0 worker.cpus
