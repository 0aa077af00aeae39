-- ===== src/Core/Filter/Syntax.antt =====
-- The expressions of a row filter, and what is asked of `f64`.
use Prim.Native.Nat.{Ordering}
use pg2osync.Base.{Bool, Option, List, [], ◌∷◌, ◌++◌}
use pg2osync.Base.Int.{ℤ}
use pg2osync.Base.Text.{Text}
use pg2osync.Core.Json.{Float}

pub record Floats : Type 0 where
  -- `str::parse::<f64>`, `to_string`, `is_finite`, `partial_cmp` and `as f64`
  pub parse_float : Text → Option Float
  pub show_float : Float → Text
  pub is_finite : Float → Bool
  pub compare_float : Float → Float → Option Ordering
  pub to_float : ℤ → Float

pub data Literal : Type 0 where
  str : Text → Literal
  int : ℤ → Literal
  float : Float → Literal
  bool : Bool → Literal

pub data CmpOp : Type 0 where
  eq ne lt le gt ge : CmpOp

pub data Expr : Type 0 where
  cmp : Text → CmpOp → Literal → Expr
  -- whether it is negated
  is_null : Text → Bool → Expr
  in_list : Text → List Literal → Bool → Expr
  and or : Expr → Expr → Expr
  not : Expr → Expr

pub record Filter : Type 0 where
  pub expr : Expr
  pub columns : List Text

-- The columns that an expression names, from left to right.
unfoldable pub named : Expr → List Text
named (cmp column op literal) = column ∷ []
named (is_null column negated) = column ∷ []
named (in_list column list negated) = column ∷ []
named (and a b) = named a ++ named b
named (or a b) = named a ++ named b
named (Expr.not a) = named a
