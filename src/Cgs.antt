-- ===== src/Cgs.antt =====
-- klee/lib/Core/Searcher.h, Searcher.cpp (class CGSSearcher) and the parts of Executor.h and
-- ExecutionState.h that it reads and writes. A pointer to an execution state is a number, and the
-- shared states are an explicit heap. Values of C++ type `signed` are 32-bit patterns.
pub mod State
pub mod StoreValue
pub mod Handlers
pub mod Update
pub mod Recording
pub mod Tracking
pub mod Handed
pub mod Conservation
pub mod Defined
pub mod Caches
pub mod History
pub mod Settled
pub mod Recorded
pub mod Tracked
pub mod Erased
pub mod Ready
pub mod Tests
