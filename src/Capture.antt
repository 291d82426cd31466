-- ===== src/Capture.antt =====
-- src/embedded/embedded_capture.cpp: the capture that the process makes of itself.
pub mod Utf8
pub mod Coordinator
pub mod Files
pub mod Finish
pub mod Turns
pub mod Machine
