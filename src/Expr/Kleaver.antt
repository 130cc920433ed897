-- ===== src/Expr/Kleaver.antt =====
-- klee/tools/kleaver/main.cpp: the builder that the option builder chooses.
use cgs.Prelude.{false, true}
use cgs.Expr.ApInt.{ApInt, ApIntLaws}
use cgs.Expr.Builder.{ExprBuilder, default_builder}
use cgs.Expr.Sound.{IsSound, IsSound-any, default_builder_lem}
use cgs.Expr.Folding.{constant_folding_builder}
use cgs.Expr.FoldingLaws.{constant_folding_builder_lem}
use cgs.Expr.Simplifying.{simplifying_builder}
use cgs.Expr.SimplifyingLaws.{simplifying_builder_lem}

pub data BuilderKind : Type 0 where
  default_kind : BuilderKind
  constant_folding_kind : BuilderKind
  simplifying_kind : BuilderKind

abbrev pub chosen_builder : ApInt → BuilderKind → ExprBuilder
chosen_builder ops default_kind = default_builder
chosen_builder ops constant_folding_kind = constant_folding_builder ops default_builder
chosen_builder ops simplifying_kind =
    simplifying_builder ops (constant_folding_builder ops default_builder)

-- Whichever builder kleaver is told to use, alone or over others, each of its methods returns for
-- typed operands, but for divisions of a constant by the constant 0, which fail an assertion of
-- APInt, and gives a typed expression with the width and the value of the one to build, where
-- APInt computes as documented.
pub chosen_builder_lem :
    (ops : ApInt) → ApIntLaws ops → (k : BuilderKind) → IsSound ops false (chosen_builder ops k)
chosen_builder_lem ops laws default_kind = default_builder_lem ops false
chosen_builder_lem ops laws constant_folding_kind =
    IsSound-any ops (constant_folding_builder ops default_builder)
      (constant_folding_builder_lem ops laws default_builder (default_builder_lem ops true))
chosen_builder_lem ops laws simplifying_kind =
    simplifying_builder_lem ops laws (constant_folding_builder ops default_builder)
      (constant_folding_builder_lem ops laws default_builder (default_builder_lem ops true))
