-- ===== src/Visit/Worker.antt =====
-- What Tracy's `Worker` answers about a trace that it has read, as far as src/query.cpp and
-- src/commands.cpp ask. A string that may be a null pointer is an option; a double is its pattern.
use tracy_query.Prelude.{ℕ, Bool, Option, List, Text}
use tracy_query.Prelude.Int.{ℤ}

-- The zones of a vector, each with the zones of its children.
pub data Forest {ℓ} (A : Type ℓ) : Type ℓ where
  nil : Forest A
  node : A → Forest A → Forest A → Forest A

pub record Location : Type 0 where
  pub function : Option Text
  pub file : Option Text
  pub line : ℕ
  pub color : ℕ

pub record MessageData : Type 0 where
  pub time : ℤ
  pub thread : ℕ
  pub text : Option Text
  pub color : ℕ
  pub callstack : ℕ

pub data PlotType : Type 0 where
  user memory system_time power unknown_type : PlotType

pub data PlotFormat : Type 0 where
  number memory percentage watt unknown_format : PlotFormat

pub record PlotData : Type 0 where
  pub name : ℕ
  pub plot_type : PlotType
  pub format : PlotFormat
  pub items : List (ℤ × ℕ)

-- `HasZoneExtra`, with the strings that are active.
pub record ZoneExtra : Type 0 where
  pub name : Option (Option Text)
  pub text : Option (Option Text)
  pub callstack : ℕ

pub record ZoneData : Type 0 where
  pub start : ℤ
  pub end : ℤ
  pub name : Option Text
  pub location : Location
  pub extra : Option ZoneExtra

pub record GpuZoneData : Type 0 where
  pub start : ℤ
  pub end : ℤ
  pub cpu_start : ℤ
  pub cpu_end : ℤ
  pub name : Option Text
  pub location : Location
  pub callstack : ℕ
  pub query_id : ℕ

-- A note: its number and the text of its value.
pub record GpuContext : Type 0 where
  pub name : Option (Option Text)
  pub has_calibration : Bool
  pub period : ℕ
  pub threads : List (ℕ × Forest GpuZoneData)
  pub notes : ℕ → Option (List (ℕ × Text))
  pub note_names : ℕ → Option (Option Text)

pub record ImageData : Type 0 where
  pub width : ℕ
  pub height : ℕ
  pub flip : Bool
  pub compressed_size : ℕ

-- `image` is none for no image, and holds none for a null pointer.
pub record FrameData : Type 0 where
  pub begin : ℤ
  pub end : ℤ
  pub ended : Bool
  pub image : Option (Option ImageData)

pub record FrameSet : Type 0 where
  pub name : ℕ
  pub continuous : Bool
  pub frames : List FrameData

pub data LockOperation : Type 0 where
  wait obtain release wait_shared obtain_shared release_shared unknown_operation : LockOperation

pub record LockEvent : Type 0 where
  pub time : ℤ
  pub operation : LockOperation
  pub thread : ℕ
  pub locking_thread : ℕ
  pub lock_count : ℕ
  pub wait_list : ℕ
  pub location : Option Location

-- `name` is that of the source location; the custom name is there when it is active.
pub record LockData : Type 0 where
  pub custom_name : Option (Option Text)
  pub name : Option Text
  pub threads : List ℕ
  pub contended : Bool
  pub timeline : List LockEvent

pub record FreeData : Type 0 where
  pub time : ℤ
  pub thread : ℕ
  pub callstack : ℕ

-- `free` is there when the time of the release is not negative.
pub record MemoryEvent : Type 0 where
  pub time : ℤ
  pub thread : ℕ
  pub callstack : ℕ
  pub address : ℕ
  pub size : ℕ
  pub free : Option FreeData

pub record MemoryPool : Type 0 where
  pub name : ℕ
  pub events : List MemoryEvent
  pub free_count : ℕ

pub record SampleData : Type 0 where
  pub time : ℤ
  pub callstack : ℕ

pub record FrameSymbol : Type 0 where
  pub name : Option Text
  pub file : Option Text
  pub line : ℕ

-- `symbol` is the callstack frame, when there is one and its inline frame is in range.
pub record GhostZoneData : Type 0 where
  pub start : ℤ
  pub end : ℤ
  pub frame : ℕ
  pub symbol : Option FrameSymbol

-- `messages` are the times of the thread's messages, `zone_count` its number of zones.
pub record ThreadData : Type 0 where
  pub id : ℕ
  pub zone_count : ℕ
  pub timeline : Forest ZoneData
  pub messages : List ℤ
  pub samples : List SampleData
  pub switch_samples : List SampleData
  pub ghost_zones : Forest GhostZoneData

-- `end` is what `End` returns, valid or not; `wakeup` is there when it is not negative.
pub record SwitchEvent : Type 0 where
  pub start : ℤ
  pub end : ℤ
  pub end_valid : Bool
  pub cpu : ℕ
  pub wakeup_cpu : ℕ
  pub reason : ℤ
  pub state : ℤ
  pub wakeup : Option ℤ

pub record SliceEvent : Type 0 where
  pub start : ℤ
  pub end : ℤ
  pub end_valid : Bool
  pub thread : ℕ

pub record UsageData : Type 0 where
  pub time : ℤ
  pub own : ℕ
  pub other : ℕ

pub record HardwareSamples : Type 0 where
  pub cycles : List ℤ
  pub retired : List ℤ
  pub cache_ref : List ℤ
  pub cache_miss : List ℤ
  pub branch_retired : List ℤ
  pub branch_miss : List ℤ

pub record CrashEvent : Type 0 where
  pub thread : ℕ
  pub time : ℤ
  pub message : Option Text
  pub callstack : ℕ

-- A callstack is none where a call for it throws; a frame of it is none for a null pointer, and the
-- names of its inline frames otherwise.
pub record Worker : Type 0 where
  pub string : ℕ → Option Text
  pub thread_name : ℕ → Option Text
  pub callstack : ℕ → Option (List (Option (List Text)))
  pub symbol_name : ℕ → Option (Option Text)
  pub process_of : ℕ → ℕ
  pub messages : List MessageData
  pub plots : List PlotData
  pub threads : List ThreadData
  pub gpu : List GpuContext
  pub frames : List FrameSet
  pub locks : List (ℕ × LockData)
  pub memory : List MemoryPool
  pub cpu_threads : List ℕ
  pub switches : ℕ → Option (List SwitchEvent)
  pub cpus : List (List SliceEvent)
  pub usage : List UsageData
  pub hardware : List (ℕ × HardwareSamples)
  pub crash : CrashEvent

-- `Trace` of src/trace.cpp, once it is loaded.
pub record Trace : Type 0 where
  pub path : Text
  pub label : Text
  pub worker : Worker
  pub first_time : ℤ
  pub last_time : ℤ
