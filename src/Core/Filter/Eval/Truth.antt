-- ===== src/Core/Filter/Eval/Truth.antt =====
-- The meaning of a filter in SQL: truth values in their order false, unknown, true, of which AND
-- is the least, OR the greatest and NOT the reflection, and IN is an OR of equations.
use pg2osync.Base.{ℕ, ◌-◌, min, max, Bool, true, false, Option, none, some, List, [], ◌∷◌}
use pg2osync.Base.Text.{Text}
use pg2osync.Core.Json.{Fields, get_field}
use pg2osync.Core.Filter.Syntax.{Floats, Literal, Expr, eq, cmp, is_null, in_list, and, or}
use pg2osync.Core.Filter.Eval.{compare_value, held_by, missing}

-- 0 is false, 1 unknown, 2 true.
abbrev pub level : Option Bool → ℕ
level none = 1
level (some true) = 2
level (some false) = 0

abbrev pub reflected : Bool → ℕ → ℕ
reflected true n = 2 - n
reflected false n = n

abbrev blur : Bool → ℕ
blur true = 1
blur false = 0

-- What standard SQL says of an expression over these fields.
module _ (floats : Floats) (doc : Fields) where
  abbrev pub equals_any : Text → List Literal → ℕ
  equals_any column [] = 0
  equals_any column (literal ∷ list) =
      max (level (held_by eq (compare_value floats (get_field column doc) literal)))
        (equals_any column list)

  abbrev pub sql_level : Expr → ℕ
  sql_level (cmp column op literal) =
      level (held_by op (compare_value floats (get_field column doc) literal))
  sql_level (is_null column negated) =
      reflected negated (level (some (missing (get_field column doc))))
  sql_level (in_list column list negated) = reflected negated (equals_any column list)
  sql_level (and a b) = min (sql_level a) (sql_level b)
  sql_level (or a b) = max (sql_level a) (sql_level b)
  sql_level (Expr.not a) = 2 - sql_level a
