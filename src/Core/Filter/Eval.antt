-- ===== src/Core/Filter/Eval.antt =====
-- `eval`, `compare` and `matches`: SQL truth, where none is UNKNOWN.
pub mod Truth
pub mod Columns
use Prim.Native.Nat.{compare, Ordering}
use pg2osync.Base.{Bool, true, false, not, ◌||◌, Option, none, some, List, [], ◌∷◌, if◌then◌else◌}
use pg2osync.Base.Int.{ℤ, compare_int, parse_int}
use pg2osync.Base.Text.{Text}
use pg2osync.Core.Json.{
  Float, Number, Value, Fields, null, bool, number, string, array, object, get_field,
}
use pg2osync.Core.Filter.Syntax.{
  Floats, Literal, CmpOp, Expr, Filter, str, eq, ne, lt, le, gt, ge, cmp, is_null, in_list, and, or,
}

-- `CmpOp::holds`
unfoldable pub holds : CmpOp → Ordering → Bool
holds eq Ordering.eq = true
holds eq _ = false
holds ne Ordering.eq = false
holds ne _ = true
holds lt Ordering.lt = true
holds lt _ = false
holds le Ordering.gt = false
holds le _ = true
holds gt Ordering.gt = true
holds gt _ = false
holds ge Ordering.lt = false
holds ge _ = true

pub data Num : Type 0 where
  int : ℤ → Num
  float : Float → Num

-- `Num::from_json`, which an `i64`, a `u64` and an `f64` all pass
unfoldable pub from_json : Number → Num
from_json (Number.pos n) = Num.int (ℤ.pos n)
from_json (Number.negsuc n) = Num.int (ℤ.negsuc n)
from_json (Number.float f) = Num.float f

unfoldable pub from_literal : Literal → Option Num
from_literal (Literal.int i) = some (Num.int i)
from_literal (Literal.float f) = some (Num.float f)
from_literal (str s) = none
from_literal (Literal.bool b) = none

-- `as_bytes().cmp`
unfoldable pub compare_bytes : Text → Text → Ordering
compare_bytes [] [] = Ordering.eq
compare_bytes [] (d ∷ t) = Ordering.lt
compare_bytes (c ∷ s) [] = Ordering.gt
compare_bytes (c ∷ s) (d ∷ t) = elim (compare c d) [
  | Ordering.lt ↦ Ordering.lt
  | Ordering.eq ↦ compare_bytes s t
  | Ordering.gt ↦ Ordering.gt
]

unfoldable pub compare_bool : Bool → Bool → Ordering
compare_bool false true = Ordering.lt
compare_bool true false = Ordering.gt
compare_bool _ _ = Ordering.eq

unfoldable pub held_by : CmpOp → Option Ordering → Option Bool
held_by op none = none
held_by op (some ordering) = some (holds op ordering)

unfoldable pub missing : Option Value → Bool
missing none = true
missing (some null) = true
missing (some _) = false

unfoldable pub is_known : Bool → Option Bool → Bool
is_known b none = false
is_known true (some c) = c
is_known false (some c) = not c

unfoldable pub is_unknown : Option Bool → Bool
is_unknown none = true
is_unknown (some b) = false

-- The arms of And and Or, in the order in which they are tried.
unfoldable pub both : Option Bool → Option Bool → Option Bool
both a b =
    if is_known false a || is_known false b
    then some false
    else (if is_unknown a || is_unknown b then none else some true)

unfoldable pub either : Option Bool → Option Bool → Option Bool
either a b =
    if is_known true a || is_known true b
    then some true
    else (if is_unknown a || is_unknown b then none else some false)

unfoldable pub negation : Option Bool → Option Bool
negation none = none
negation (some b) = some (not b)

unfoldable pub is_true : Option Bool → Bool
is_true (some b) = b
is_true none = false

-- An element of an IN list, before what its rest comes to with and without an unknown element.
unfoldable pub in_step : Bool → Option Ordering → Option Bool → Option Bool → Option Bool
in_step negated none known blurred = blurred
in_step negated (some Ordering.eq) known blurred = some (not negated)
in_step negated (some Ordering.lt) known blurred = known
in_step negated (some Ordering.gt) known blurred = known

module _ (floats : Floats) where
  open floats use {parse_float, compare_float, to_float}

  unfoldable pub as_f64 : Num → Float
  as_f64 (Num.int i) = to_float i
  as_f64 (Num.float f) = f

  -- `Num::cmp`
  unfoldable pub compare_num : Num → Num → Option Ordering
  compare_num (Num.int a) (Num.int b) = some (compare_int a b)
  compare_num a b = compare_float (as_f64 a) (as_f64 b)

  unfoldable pub float_or_none : Option ℤ → Text → Option Num
  float_or_none (some i) s = some (Num.int i)
  float_or_none none s = elim (parse_float s) [ none ↦ none | some f ↦ some (Num.float f) ]

  -- `Num::from_str`
  unfoldable pub from_str : Text → Option Num
  from_str s = float_or_none (parse_int 127 s) s

  unfoldable pub compare_nums : Option Num → Option Num → Option Ordering
  compare_nums none b = none
  compare_nums (some a) none = none
  compare_nums (some a) (some b) = compare_num a b

  unfoldable pub compare_present : Value → Literal → Option Ordering
  compare_present (string s) (str l) = some (compare_bytes s l)
  compare_present (string s) (Literal.int i) =
      compare_nums (from_str s) (from_literal (Literal.int i))
  compare_present (string s) (Literal.float f) =
      compare_nums (from_str s) (from_literal (Literal.float f))
  compare_present (number n) (Literal.int i) =
      compare_nums (some (from_json n)) (from_literal (Literal.int i))
  compare_present (number n) (Literal.float f) =
      compare_nums (some (from_json n)) (from_literal (Literal.float f))
  compare_present (bool b) (Literal.bool l) = some (compare_bool b l)
  compare_present _ _ = none

  -- `compare`, of a column's value, if it has one, and a literal
  unfoldable pub compare_value : Option Value → Literal → Option Ordering
  compare_value none literal = none
  compare_value (some v) literal = compare_present v literal

  -- The loop over an IN list, and whether an element was unknown.
  unfoldable pub in_loop : Option Value → Bool → Bool → List Literal → Option Bool
  in_loop value negated unknown [] = if unknown then none else some negated
  in_loop value negated unknown (literal ∷ list) =
      let known = in_loop value negated unknown list in
      let blurred = in_loop value negated true list in
      in_step negated (compare_value value literal) known blurred

  unfoldable pub eval : Expr → Fields → Option Bool
  eval (cmp column op literal) doc = held_by op (compare_value (get_field column doc) literal)
  eval (is_null column negated) doc =
      let absent = missing (get_field column doc) in some (if negated then not absent else absent)
  eval (in_list column list negated) doc = in_loop (get_field column doc) negated false list
  eval (and a b) doc = both (eval a doc) (eval b doc)
  eval (or a b) doc = either (eval a doc) (eval b doc)
  eval (Expr.not a) doc = negation (eval a doc)

  -- `Filter::matches`
  unfoldable pub matches : Filter → Value → Bool
  matches filter (object fields) = is_true (eval filter.expr fields)
  matches filter _ = false
