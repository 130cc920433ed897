-- ===== src/Lib.antt =====
-- CGS: concrete-constraint guided symbolic execution, a KLEE with a search strategy that prefers
-- states which can cover the other side of a concrete branch.
--
-- Cgs models the strategy: klee/lib/Core/Searcher.cpp (class CGSSearcher) and what
-- klee/lib/Core/Executor.cpp keeps for it. Cgs/State has the data, Cgs/StoreValue has
-- isNewStoreValue, Cgs/Handlers has handlePartlyCoveredBranch and handleFullyCoveredBranch,
-- Cgs/Update has selectState, update and empty. Cgs/Recording and Cgs/Tracking have what
-- executeInstruction does at br, switch and store instructions, and run after an instruction.
-- Loops of update erase at an iterator and go on with it, which the C++ standard leaves undefined:
-- the model lets such an iterator stand at the next element, as where iterators are pointers, and
-- the field stale, which the code does not have, says that it happened; Cgs/Erased is about when.
-- The executor's steps change the searcher's record, which holds the executor's fields that the
-- class has by reference.
--
-- Search models the other searchers of klee/lib/Core/Searcher.cpp behind one interface,
-- Search/Interface: what class Searcher offers, and the laws that its clients rely on.
-- Search/Simple has DFSSearcher, BFSSearcher and RandomSearcher. Search/Merging, Search/Deepening,
-- Search/Batching and Search/Interleaved have MergingSearcher (with what it calls of
-- klee/lib/Core/MergeHandler.cpp), IterativeDeepeningTimeSearcher, BatchingSearcher and
-- InterleavedSearcher, which take the searchers below them as a parameter; what they need to run
-- through is in Search/Runs and Search/MergingRuns. Search/CgsLaws connects Cgs to the interface.
-- What a clock, a random generator or floating-point arithmetic gives is an argument.
-- WeightedRandomSearcher and RandomPathSearcher are not modelled.
--
-- Solver models klee/lib/Solver/Solver.cpp: Solver/Query has the questions and the truth queries,
-- with the default of klee/lib/Solver/SolverImpl.cpp, and Solver/Range has getRange. The
-- implementation is an argument, and what klee/include/klee/Solver/SolverImpl.h documents of it
-- the hypothesis IsSound of Solver/Truth. A question stands for the expression that the code
-- builds for it. The searches of getRange have fuel for 64 halvings, as their bounds are 64-bit
-- numbers. Solver/Partial has klee/lib/Solver/IncompleteSolver.cpp and Solver/Caching
-- klee/lib/Solver/CachingSolver.cpp, over queries whose expressions are behind the interface
-- ExprOps, with its laws in Solver/Meaning; the solver below is an argument with the laws
-- SolverLaws, which the staged solver keeps in turn.
--
-- Tree models klee/include/klee/ADT/ImmutableTree.h, on which the persistent maps and sets stand:
-- Tree/Node has the nodes and balance, Tree/Ops the operations. Tree/Order says what they do to
-- the values in order. Keys are numbers, as the addresses by which memory objects are ordered, and
-- a node keeps its height as the code does. The iterator is not modelled, and neither are the
-- counts of references, since nodes never change.
--
-- Expr models the expressions of klee/include/klee/Expr/Expr.h and the code that makes them.
-- Expr/Node has their classes as one data type, with arrays and update lists, widths and equality.
-- Expr/ApInt has llvm::APInt, on which ConstantExpr stands: it is an argument, and what LLVM
-- documents of it the laws ApIntLaws. Expr/Constant has the operations of ConstantExpr, and
-- Expr/Value what an expression means, its value under contents of the arrays, and when its widths
-- are right. Expr/Builder, Expr/Specialized, Expr/Folding and Expr/Simplifying have the default,
-- constant-specialized, constant-folding and simplifying builders of
-- klee/lib/Expr/ExprBuilder.cpp, each over its base, and Expr/Kleaver the choice of one by
-- klee/tools/kleaver/main.cpp. The methods of a builder call one another through the builder,
-- which is modelled with fuel for the nodes of the expression to build: every such call builds
-- fewer of them. Expr/Sound says what a builder promises. Expr/Create has create of
-- klee/lib/Expr/Expr.cpp: Create/Bitwise of And, Or and Not, Create/Eq of Eq and Ne, Create/Sum of
-- Add, Sub, Mul and Xor, Create/Order of the divisions, the shifts and the orders, Create/Select
-- of Select, Create/Parts of Extract, Concat, ZExt and SExt, and Create/Kinds has createFromKind.
-- Expr/PartValues and Expr/Slices say what the parts of a constant are as numbers. Views of an
-- expression stand for the casts of the code. create of Add and Sub call one another with fewer
-- nodes, for which they have fuel; create of Extract has fuel for the nodes of its operand, and
-- what create of Concat looks at again is smaller than that, too. Widths are taken to be far below
-- 2 to the power of 32, so that their sums do not wrap around. A failed assertion on widths gives
-- none, and so does a division of a constant by the constant 0, at which APInt fails one. The
-- meaning of a division by 0 is what the solver takes it to be, the argument division_by_zero.
-- Expr/Machine is an APInt that computes, in two's complement, for the tests, and Expr/MachineLaws
-- shows that it has the laws. create of ReadExpr, hashing, printing, the order of Expr::compare,
-- the option const-array-opt and the contents of constant arrays are not modelled.
--
-- Execution states are behind numbers on an explicit heap, since the searcher changes states that
-- several vectors point to. A C++ signed or unsigned value is a 32-bit pattern. Unordered sets are
-- lists in their order of iteration, and each theorem holds for every order. A function returns
-- none where the code would do something undefined or fail an assertion: the end iterator of a
-- search that found nothing, the back of an empty vector, a null pointer; erased iterators of
-- CGSSearcher are left to stale instead. Every identifier of a branch in the vectors is taken to
-- have its BDDep, as the executor only puts such identifiers there.
mod Prelude
pub mod Cgs
pub mod Search
pub mod Expr
pub mod Solver
pub mod Tree
