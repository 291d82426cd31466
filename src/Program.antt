-- ===== src/Program.antt =====
-- src/trace.cpp and src/main.cpp: the loading of the traces, and the program as a whole.
pub mod Load
pub mod Main
