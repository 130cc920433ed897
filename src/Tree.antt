-- ===== src/Tree.antt =====
-- klee/include/klee/ADT/ImmutableTree.h: the balanced search tree of the persistent maps and sets.
pub mod Node
pub mod Ops
pub mod Order
pub mod Changes
pub mod Balance
pub mod Edits
pub mod Pops
pub mod Removal
pub mod Lookup
pub mod Ends
pub mod Tests
