-- ===== src/Tests.antt =====
-- Runs of the model at concrete inputs, and uses of its theorems there.
mod Times
mod Lines
mod Pipes
mod Sessions
mod Records
mod Queries
mod Arguments
mod Captures
mod Sockets
mod Traces
mod Programs
