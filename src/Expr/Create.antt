-- ===== src/Expr/Create.antt =====
-- klee/lib/Expr/Expr.cpp: the functions create, by which the interpreter makes expressions.
pub mod Bitwise
pub mod Eq
pub mod Sum
pub mod BitwiseLaws
pub mod SumSteps
pub mod PartialSumSteps
pub mod PartialSumLaws
pub mod OtherSumLaws
pub mod SumLaws
pub mod ProductLaws
pub mod NeLaws
pub mod Order
pub mod OrderSteps
pub mod OrderLaws
pub mod Select
pub mod SelectLaws
pub mod Parts
pub mod PartSteps
pub mod Cuts
pub mod PartLaws
pub mod CastLaws
pub mod Kinds
pub mod KindLaws
pub mod Tests
pub mod EqSteps
pub mod EqParts
pub mod EqLaws
