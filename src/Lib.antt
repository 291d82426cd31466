-- ===== src/Lib.antt =====
-- A verification library for tracy-query: the C++ command that queries Tracy capture files, and the
-- in-process transport of its embedded capture.
--
-- The program (src/main.cpp) reads its arguments (src/cli.cpp), opens the captures with Tracy's library
-- (src/trace.cpp), walks their data as records (the visitors of src/query.cpp), keeps those that a
-- matcher and a time selection admit, sorts them in bounded memory, and prints them (src/output.cpp). Three
-- other commands list the sources, the range and the properties of the captures (src/commands.cpp).
-- The embedded capture runs a Tracy client and server in one process; their bytes go through two
-- bounded pipes (src/embedded/TracyEmbeddedTransport.cpp) under Tracy's sockets
-- (src/embedded/TracyEmbeddedSocket.cpp), and its calls configure it, finish it and publish the file
-- (src/embedded/embedded_capture.cpp).
--
-- Prelude: lists, texts as lists of bytes, integers, decimal numbers, 64-bit words, and sorting. It
-- stands for what the source uses of the standard library: std::sort, std::to_string, std::from_chars
-- of a uint64_t, comparison of strings, std::memcpy.
--
-- Model: include/tracy_query/model.hpp and src/model.cpp. Structures are records, enumerations are
-- data types with the source's enumerators, Value is the variant. A double is its 64 bits; int64_t is
-- an integer, and the unsigned types are natural numbers.
--
-- Adapter: src/adapter.cpp. The table is a list, and adapter_for searches it as the source does; the
-- exception for a kind that is missing is no answer.
--
-- Time: src/time.cpp. parse_time is cut into its blocks: split_time (the scan to the unit),
-- parse_pieces (the unit, the whole part), with_fraction and add_fraction (the block of the fraction).
-- Products and sums of a uint64_t keep their wrap-around. The scale is a loop over the digits, at most
-- 18 of them.
--
-- Output: src/output.cpp. A stream is the text written to it. How a double is printed is an argument,
-- format_double. Output/Read is a small reader of the lines, independent of the code.
--
-- Transport: src/embedded/TracyEmbeddedTransport.cpp. Transport/Pipe has the ring of Pipe with
-- writePipe and readPipe; a turn of a thread is one hold of the mutex, run is any interleaving of
-- turns, and write_pipe takes a schedule of the turns that other threads take before each of its
-- rounds. A schedule that ends early leaves the call waiting. Transport/Session has Configure, Listen,
-- Connect, Accept, CloseEndpoint, DestroyEndpoint, Send, Read, HasData, IsValid, Capacity, Cancel,
-- GetStatistics and GetError on the state of the two global variables; whether memory is allocated is
-- an argument.
--
-- Transport/Socket: src/embedded/TracyEmbeddedSocket.cpp. The three loops that read, ReadUpTo, Read and
-- ReadRaw, take a schedule: for each of their rounds the turns that other threads take before it. A
-- schedule that ends early leaves the call waiting; read_raw-enough says which schedules are enough.
--
-- Capture: src/embedded/embedded_capture.cpp with its header. Capture/Utf8 is validUtf8, a loop on
-- fuel, the length of the text. Capture/Files has the paths of the partial file, tried 32 times as in
-- the source, and its publication; the files are a list of paths and contents. Capture/Coordinator and
-- Capture/Finish are the calls of the interface. What Tracy's worker and profiler and the operating
-- system do is an argument, Answers or Setup: whether each of them throws, what the worker has, what
-- random gives. Capture/Turns is
-- finishImpl once more, from one locked part to the next: after the first, after each of the three
-- counts, and the end; Capture/Turns/Sequence says that these turns make up the whole call.
-- Capture/Machine is any sequence of calls by any number of threads, where each thread that finishes
-- the capture takes its turns one by one, between which others may come.
--
-- Visit: the visitors of src/query.cpp and src/trace.cpp's normalize. Visit/Worker is what they read of
-- Tracy's Worker, a library outside this repository: the zones of a thread are trees. Visit/Fields has
-- the texts and fields, Visit/Zones the walk over trees, which numbers the zones and gives them their
-- parents, Visit/Points the records of one time, Visit/Intervals the others, and Visit/Kinds the choice
-- of the visitor.
--
-- Commands: src/commands.cpp. Commands/Ranges, Commands/Discover, Commands/Select, Commands/Info and
-- Commands/Run are the ranges, the discovery of sources, their selection, the answer of info and the
-- commands; Commands/Run also gives run_query the records of the visitors and the matcher.
--
-- Program: src/trace.cpp and src/main.cpp. Program/Load maps what Tracy's library answers to a file to
-- the trace or its error; Program/Main is main, with the status, the output and the diagnostics that it
-- leaves.
--
-- Query/Range, Query/Order, Query/Sorter, Query/Matcher, Query/Run: src/query.cpp.
-- temporal_range_match; identity, trace_order and record_less; ExternalSorter, whose runs are lists of
-- nodes with the widths of the file's fields; Matcher with field_string, where the regular expressions
-- are an argument (compile) that answers with a search or with the message of its exception; run_query,
-- where the records of each trace, the end of each trace and the matcher's answers are arguments. The
-- loop of the merge runs on fuel, the number of nodes in the runs: each turn takes one node out.
--
-- Cli, Cli/Values, Cli/Reading: src/cli.cpp. read_arguments is the loop of parse_cli over the
-- arguments, where an option without an inline value waits for the next argument; set_value and
-- set_flag are its branches. validate is the rest: labels, checks of the options of each command, and
-- the compilation of all patterns. Its checks of zones, active
-- records and fields, which the constructor of Matcher repeats in src/query.cpp, are one definition for
-- both copies, in Query/Matcher. The texts of the help and of the version are not modelled.
--
-- Tests: runs of the model at concrete inputs, and uses of its theorems there.
--
-- Not modelled: Tracy's own library; in the embedded capture, the flags for testing, the branch for
-- Windows and the check for a null pointer of the statistics; regular expressions whose search throws; failures of streams, except a closed
-- output, and of temporary files; overflow of int64_t in differences of timestamps; allocation that
-- fails elsewhere than in the transport; the Rust crates, the build, the tests and the recorded traces.
pub mod Prelude
pub mod Model
pub mod Adapter
pub mod Time
pub mod Output
pub mod Transport
pub mod Visit
pub mod Commands
pub mod Program
pub mod Query
pub mod Cli
pub mod Capture
mod Tests
