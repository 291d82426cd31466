-- ===== src/Query.antt =====
-- src/query.cpp: which records a query selects, and in which order it prints them.
pub mod Range
pub mod Order
pub mod Sorter
pub mod Run
pub mod Matcher
