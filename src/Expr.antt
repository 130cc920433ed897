-- ===== src/Expr.antt =====
-- klee/lib/Expr: expressions over bit vectors, and the builders that simplify them.
pub mod Node
pub mod Slices
pub mod ApInt
pub mod Constant
pub mod Value
pub mod PartValues
pub mod Words
pub mod Fitting
pub mod Builder
pub mod Specialized
pub mod Sound
pub mod SpecializedLaws
pub mod Folding
pub mod Regrouping
pub mod FoldingSteps
pub mod AddLaws
pub mod SubLaws
pub mod OperatorLaws
pub mod EqLaws
pub mod FoldingLaws
pub mod Simplifying
pub mod SimplifyingSteps
pub mod SimplifyingLaws
pub mod Machine
pub mod MachineLaws
pub mod Kleaver
pub mod Tests
pub mod Create
