-- ===== src/Commands.antt =====
-- src/commands.cpp: the commands on the traces, and what each writes.
pub mod Ranges
pub mod Discover
pub mod Select
pub mod Info
pub mod Run
pub mod Extremes
