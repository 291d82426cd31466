-- ===== src/Adapter.antt =====
-- src/adapter.cpp: the registry of what each kind offers to filters and selectors.
pub mod Registry
use tracy_query.Prelude.{
  ◌-◌, Bool, true, false, Option, none, some, List, [], ◌∷◌, Text, codes, find?,
}
use tracy_query.Model.{Kind, kind_eq}

pub record AdapterDescriptor : Type 0 where
  pub kind : Kind
  pub source_type : Text
  pub interval : Bool
  pub nested : Bool
  pub filter_fields : List Text

abbrev message_fields : List Text
message_fields =
    codes "trace"
    ∷ codes "source"
    ∷ codes "kind"
    ∷ codes "text"
    ∷ codes "thread"
    ∷ codes "color"
    ∷ []

abbrev plot_fields : List Text
plot_fields =
    codes "trace"
    ∷ codes "source"
    ∷ codes "kind"
    ∷ codes "name"
    ∷ codes "plot_type"
    ∷ codes "format"
    ∷ []

abbrev cpu_zone_fields : List Text
cpu_zone_fields =
    codes "trace"
    ∷ codes "source"
    ∷ codes "kind"
    ∷ codes "name"
    ∷ codes "text"
    ∷ codes "function"
    ∷ codes "file"
    ∷ codes "thread"
    ∷ codes "color"
    ∷ []

abbrev gpu_zone_fields : List Text
gpu_zone_fields =
    codes "trace"
    ∷ codes "source"
    ∷ codes "kind"
    ∷ codes "name"
    ∷ codes "function"
    ∷ codes "file"
    ∷ codes "thread"
    ∷ codes "context"
    ∷ codes "note"
    ∷ []

abbrev frame_fields : List Text
frame_fields = codes "trace" ∷ codes "source" ∷ codes "kind" ∷ codes "frame_set" ∷ []

abbrev lock_fields : List Text
lock_fields =
    codes "trace"
    ∷ codes "source"
    ∷ codes "kind"
    ∷ codes "name"
    ∷ codes "operation"
    ∷ codes "thread"
    ∷ codes "function"
    ∷ codes "file"
    ∷ []

abbrev memory_fields : List Text
memory_fields =
    codes "trace"
    ∷ codes "source"
    ∷ codes "kind"
    ∷ codes "pool"
    ∷ codes "operation"
    ∷ codes "thread"
    ∷ codes "symbol"
    ∷ []

abbrev sample_fields : List Text
sample_fields =
    codes "trace"
    ∷ codes "source"
    ∷ codes "kind"
    ∷ codes "thread"
    ∷ codes "symbol"
    ∷ codes "function"
    ∷ codes "file"
    ∷ codes "counter"
    ∷ []

abbrev scheduler_fields : List Text
scheduler_fields =
    codes "trace"
    ∷ codes "source"
    ∷ codes "kind"
    ∷ codes "thread"
    ∷ codes "process"
    ∷ codes "cpu"
    ∷ codes "reason"
    ∷ codes "state"
    ∷ codes "derived"
    ∷ []

abbrev crash_fields : List Text
crash_fields =
    codes "trace"
    ∷ codes "source"
    ∷ codes "kind"
    ∷ codes "message"
    ∷ codes "thread"
    ∷ codes "symbol"
    ∷ []

abbrev adapter : Kind → Text → Bool → Bool → List Text → AdapterDescriptor
adapter k t i n fs = record {
  kind = k;
  source_type = t;
  interval = i;
  nested = n;
  filter_fields = fs;
}

-- The table `adapters`, which `adapter_registry()` returns.
unfoldable pub adapter_registry : List AdapterDescriptor
adapter_registry =
    adapter Kind.message (codes "thread") false false message_fields
    ∷ adapter Kind.plot (codes "plot") false false plot_fields
    ∷ adapter Kind.cpu_zone (codes "thread") true true cpu_zone_fields
    ∷ adapter Kind.gpu_zone (codes "gpu-thread") true true gpu_zone_fields
    ∷ adapter Kind.frame (codes "frame-set") true false frame_fields
    ∷ adapter Kind.frame_image (codes "frame-set") false false frame_fields
    ∷ adapter Kind.lock (codes "lock") false false lock_fields
    ∷ adapter Kind.memory (codes "memory-pool") false false memory_fields
    ∷ adapter Kind.sample (codes "thread") false false sample_fields
    ∷ adapter Kind.ghost_zone (codes "thread") true true sample_fields
    ∷ adapter Kind.context_switch (codes "thread") true false scheduler_fields
    ∷ adapter Kind.cpu_slice (codes "cpu") true false scheduler_fields
    ∷ adapter Kind.cpu_usage (codes "capture") false false scheduler_fields
    ∷ adapter Kind.hardware_sample (codes "hardware-counter") false false sample_fields
    ∷ adapter Kind.crash (codes "capture") false false crash_fields
    ∷ []

-- `none` is the `std::logic_error`.
unfoldable pub adapter_for : Kind → Option AdapterDescriptor
unfolding adapter_registry
adapter_for k = find? (λ a. kind_eq a.kind k) adapter_registry

-- What callers read of the descriptor; `adapter_for-total` shows that the fallbacks are not reached.
unfoldable pub is_interval : Kind → Bool
unfolding adapter_for
is_interval k = elim (adapter_for k) [ none ↦ false | some a ↦ a.interval ]

unfoldable pub source_type_of : Kind → Text
unfolding adapter_for
source_type_of k = elim (adapter_for k) [ none ↦ [] | some a ↦ a.source_type ]

unfoldable pub filter_fields_of : Kind → List Text
unfolding adapter_for
filter_fields_of k = elim (adapter_for k) [ none ↦ [] | some a ↦ a.filter_fields ]
