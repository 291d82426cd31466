-- ===== src/Visit.antt =====
-- The visitors of src/query.cpp (`visit_messages` to `visit_kind`): the records that a trace gives. A
-- visitor calls its callback in order, so it is here the list of its records.
pub mod Worker
pub mod Fields
pub mod Points
pub mod Zones
pub mod Intervals
pub mod Kinds
pub mod Numbers
pub mod Lists
pub mod Adapters
pub mod Depths
pub mod Nesting
