-- ===== src/Search.antt =====
-- klee/lib/Core/Searcher.cpp: the searchers beside CGSSearcher, behind one interface. Searchers that
-- hold another one take it as a parameter with its laws.
pub mod Interface
pub mod Simple
pub mod Merging
pub mod Deepening
pub mod Interleaved
pub mod Batching
pub mod SimpleLaws
pub mod CgsLaws
pub mod MergingLaws
pub mod DeepeningLaws
pub mod Runs
pub mod MergingRuns
pub mod BatchingLaws
pub mod InterleavedLaws
pub mod Tests
pub mod RunTests
