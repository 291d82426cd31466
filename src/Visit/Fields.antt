-- ===== src/Visit/Fields.antt =====
-- The helpers of the visitors of src/query.cpp that make names and fields.
use tracy_query.Prelude.{
  ℕ, ◌%◌, ◌/◌, ◌^◌, Bool, not, Option, none, some, List, [], ◌∷◌, ◌++◌, ◌==◌, if◌then◌else◌, Text,
  codes, text_eq, is_empty,
}
use tracy_query.Prelude.Int.{ℤ}
use tracy_query.Prelude.Decimal.{to_string}
use tracy_query.Model.{Value, Fields}
use tracy_query.Time.{normalize_timestamp}
use tracy_query.Visit.Worker.{Location, PlotType, PlotFormat, LockOperation, Worker, Trace}

unfoldable pub safe : Option Text → Text
safe none = []
safe (some value) = value

-- `Trace::normalize`.
unfoldable pub normalize : Trace → ℤ → ℤ
unfolding normalize_timestamp
normalize trace timestamp = normalize_timestamp timestamp trace.first_time

-- The highest bit of a reference marks a vertical synchronisation.
unfoldable pub frame_set_name : Worker → ℕ → Text
unfolding safe to_string
frame_set_name worker reference =
    if reference == 0
    then codes "default"
    else if not (reference / 2 ^ 63 % 2 == 0)
    then codes "vsync:" ++ to_string (reference % 2 ^ 63)
    else safe (worker.string reference)

unfoldable pub plot_type : PlotType → Text
plot_type PlotType.user = codes "user"
plot_type PlotType.memory = codes "memory"
plot_type PlotType.system_time = codes "system-time"
plot_type PlotType.power = codes "power"
plot_type PlotType.unknown_type = codes "unknown"

unfoldable pub plot_format : PlotFormat → Text
plot_format PlotFormat.number = codes "number"
plot_format PlotFormat.memory = codes "memory"
plot_format PlotFormat.percentage = codes "percentage"
plot_format PlotFormat.watt = codes "watt"
plot_format PlotFormat.unknown_format = codes "unknown"

unfoldable pub lock_operation : LockOperation → Text
lock_operation LockOperation.wait = codes "wait"
lock_operation LockOperation.obtain = codes "obtain"
lock_operation LockOperation.release = codes "release"
lock_operation LockOperation.wait_shared = codes "wait-shared"
lock_operation LockOperation.obtain_shared = codes "obtain-shared"
lock_operation LockOperation.release_shared = codes "release-shared"
lock_operation LockOperation.unknown_operation = codes "unknown"

-- `if (!result.empty()) result += separator`, then the item.
abbrev pub append_item : Text → Text → Text → Text
append_item separator result item = if is_empty result then item else result ++ (separator ++ item)

abbrev pub join_onto : Text → Text → List Text → Text
join_onto separator result [] = result
join_onto separator result (item ∷ items) =
    join_onto separator (append_item separator result item) items

abbrev join_frames : Text → List (Option (List Text)) → Text
join_frames result [] = result
join_frames result (none ∷ frames) = join_frames result frames
join_frames result (some names ∷ frames) =
    join_frames (join_onto (codes " <- ") result names) frames

unfoldable pub callstack_text : Worker → ℕ → Text
callstack_text worker index =
    if index == 0
    then []
    else elim (worker.callstack index) [ none ↦ [] | some frames ↦ join_frames [] frames ]

-- The fields that `add_callstack` appends.
unfoldable pub callstack_fields : Bool → Worker → ℕ → Fields
unfolding callstack_text
callstack_fields expand_callstacks worker index =
    if index == 0
    then []
    else if expand_callstacks
    then (codes "callstack_id", Value.uint64 index)
      ∷ (codes "callstack", Value.string (callstack_text worker index))
      ∷ []
    else (codes "callstack_id", Value.uint64 index) ∷ []

unfoldable pub source_location_fields : Location → Fields
unfolding safe
source_location_fields location =
    (codes "function", Value.string (safe location.function))
    ∷ (codes "file", Value.string (safe location.file))
    ∷ (codes "line", Value.uint64 location.line)
    ∷ (codes "color", Value.uint64 location.color)
    ∷ []

unfoldable pub set_field : Text → Value → Fields → Fields
unfolding text_eq
set_field name value [] = (name, value) ∷ []
set_field name value ((field, current) ∷ rest) =
    if text_eq field name
    then (field, value) ∷ rest
    else (field, current) ∷ set_field name value rest

abbrev pub text_field : Text → Text → Text × Value
text_field name value = (name, Value.string value)

abbrev pub number_field : Text → ℕ → Text × Value
number_field name value = (name, Value.uint64 value)
