-- ===== src/Solver.antt =====
-- klee/lib/Solver/Solver.cpp: what class Solver makes of the answers of a solver implementation.
pub mod Query
pub mod Range
pub mod Truth
pub mod Halving
pub mod RangeLaws
pub mod Partial
pub mod Caching
pub mod Meaning
pub mod CacheEntries
pub mod CachingLaws
pub mod Unrefined
pub mod StagedLaws
pub mod Tests
pub mod ChainTests
