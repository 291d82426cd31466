-- ===== src/Model.antt =====
-- src/model.cpp and include/tracy_query/model.hpp: the data that the program's parts exchange.
-- A `double` is its 64-bit pattern; `int64_t` is an integer, `uint64_t` and `uint32_t` are numbers.
pub mod Kinds
use tracy_query.Prelude.{ℕ, ◌-◌, Bool, Option, List, [], ◌∷◌, ◌==◌, Text, codes, text_eq, find?}
use tracy_query.Prelude.Int.{ℤ}

pub data Command : Type 0 where
  check range info sources query : Command

pub data OutputFormat : Type 0 where
  json_lines text : OutputFormat

pub data Detail : Type 0 where
  basic full : Detail

pub data RangeMatch : Type 0 where
  overlap start contained : RangeMatch

pub data Kind : Type 0 where
  message plot cpu_zone gpu_zone frame frame_image lock memory sample ghost_zone : Kind
  context_switch cpu_slice cpu_usage hardware_sample crash : Kind

pub data Value : Type 0 where
  null : Value
  boolean : Bool → Value
  int64 : ℤ → Value
  uint64 : ℕ → Value
  double : ℕ → Value
  string : Text → Value

abbrev pub Fields : Type 0
Fields = List (Text × Value)

pub record TraceInput : Type 0 where
  pub path : Text
  pub label : Text

pub record Record : Type 0 where
  pub timestamp_ns : ℤ
  pub end_timestamp_ns : Option ℤ
  pub trace : Text
  pub source : Text
  pub kind : Kind
  pub sequence : ℕ
  pub fields : Fields
  pub ancestor_names : List Text

pub record Source : Type 0 where
  pub trace : Text
  pub id : Text
  pub source_type : Text
  pub name : Text
  pub kinds : List Kind
  pub counts : Fields
  pub first_timestamp_ns : Option ℤ
  pub last_timestamp_ns : Option ℤ

pub record RegexFilter : Type 0 where
  pub kind : Option Kind
  pub field : Text
  pub pattern : Text

pub record TimeSelection : Type 0 where
  pub from_ns : Option ℤ
  pub to_ns : Option ℤ
  pub at_ns : Option ℤ
  pub from_start : Bool
  pub to_end : Bool
  pub latest : Bool
  pub next : Bool
  pub active : Bool
  pub range_match : RangeMatch

pub record Options : Type 0 where
  pub command : Command
  pub format : OutputFormat
  pub detail : Detail
  pub quiet : Bool
  pub ignore_case : Bool
  pub count : Bool
  pub all_kinds : Bool
  pub root_zones : Bool
  pub limit : Option ℕ
  pub zone_depth : Option (ℕ × ℕ)
  pub zone_parent : Option Text
  pub zone_ancestor : Option Text
  pub stack_frame : Option Text
  pub kinds : List Kind
  pub traces : List TraceInput
  pub group_by : List Text
  pub source_ids : List Text
  pub source_regexes : List Text
  pub source_types : List Text
  pub threads : List Text
  pub gpu_contexts : List Text
  pub plots : List Text
  pub frame_sets : List Text
  pub locks : List Text
  pub memory_pools : List Text
  pub cpus : List ℕ
  pub filters : List RegexFilter
  pub time : TimeSelection

unfoldable pub kind_name : Kind → Text
kind_name Kind.message = codes "message"
kind_name Kind.plot = codes "plot"
kind_name Kind.cpu_zone = codes "cpu-zone"
kind_name Kind.gpu_zone = codes "gpu-zone"
kind_name Kind.frame = codes "frame"
kind_name Kind.frame_image = codes "frame-image"
kind_name Kind.lock = codes "lock"
kind_name Kind.memory = codes "memory"
kind_name Kind.sample = codes "sample"
kind_name Kind.ghost_zone = codes "ghost-zone"
kind_name Kind.context_switch = codes "context-switch"
kind_name Kind.cpu_slice = codes "cpu-slice"
kind_name Kind.cpu_usage = codes "cpu-usage"
kind_name Kind.hardware_sample = codes "hardware-sample"
kind_name Kind.crash = codes "crash"

-- `kKinds`, which `all_kinds()` copies.
abbrev pub all_kinds : List Kind
all_kinds =
    Kind.message ∷ Kind.plot ∷ Kind.cpu_zone ∷ Kind.gpu_zone ∷ Kind.frame ∷ Kind.frame_image
    ∷ Kind.lock ∷ Kind.memory ∷ Kind.sample ∷ Kind.ghost_zone ∷ Kind.context_switch ∷ Kind.cpu_slice
    ∷ Kind.cpu_usage ∷ Kind.hardware_sample ∷ Kind.crash ∷ []

unfoldable pub parse_kind : Text → Option Kind
unfolding kind_name text_eq
parse_kind t = find? (λ k. text_eq (kind_name k) t) all_kinds

-- The enumerator's number, which `==` and `<` of kinds compare.
abbrev pub kind_number : Kind → ℕ
kind_number Kind.message = 0
kind_number Kind.plot = 1
kind_number Kind.cpu_zone = 2
kind_number Kind.gpu_zone = 3
kind_number Kind.frame = 4
kind_number Kind.frame_image = 5
kind_number Kind.lock = 6
kind_number Kind.memory = 7
kind_number Kind.sample = 8
kind_number Kind.ghost_zone = 9
kind_number Kind.context_switch = 10
kind_number Kind.cpu_slice = 11
kind_number Kind.cpu_usage = 12
kind_number Kind.hardware_sample = 13
kind_number Kind.crash = 14

abbrev pub kind_eq : Kind → Kind → Bool
kind_eq a b = kind_number a == kind_number b
