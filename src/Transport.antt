-- ===== src/Transport.antt =====
-- src/embedded/TracyEmbeddedTransport.cpp: the in-process byte streams between Tracy's client and
-- server, and the session that joins their two ends.
pub mod Pipe
pub mod Session
pub mod Socket
