-- ===== src/Core/Filter/Render.antt =====
-- `to_sql`: a filter as SQL, every connective in parentheses.
use pg2osync.Base.{Bool, true, false, List, [], ◌∷◌, ◌++◌, map, if◌then◌else◌}
use pg2osync.Base.Int.{show_int}
use pg2osync.Base.Text.{Text, text}
use pg2osync.Core.Filter.Syntax.{
  Floats, Literal, CmpOp, Expr, Filter, str, int, float, bool, eq, ne, lt, le, gt, ge, cmp, is_null,
  in_list, and, or,
}

pub record SqlDialect : Type 0 where
  pub quote_ident : Text → Text
  pub quote_str : Text → Text

-- `CmpOp::sql`
unfoldable pub sql : CmpOp → Text
sql eq = text "="
sql ne = text "<>"
sql lt = text "<"
sql le = text "<="
sql gt = text ">"
sql ge = text ">="

-- `join(", ")`
unfoldable pub join_comma : List Text → Text
join_comma [] = []
join_comma (s ∷ []) = s
join_comma (s ∷ t ∷ ts) = s ++ text ", " ++ join_comma (t ∷ ts)

unfoldable pub not_word : Bool → Text
not_word negated = if negated then text "NOT " else []

module _ (floats : Floats) (dialect : SqlDialect) where
  open floats use {show_float}
  open dialect use {quote_ident, quote_str}

  unfoldable pub render_literal : Literal → Text
  render_literal (str s) = quote_str s
  render_literal (int i) = show_int i
  render_literal (float f) = show_float f
  render_literal (bool true) = text "TRUE"
  render_literal (bool false) = text "FALSE"

  unfoldable pub render : Expr → Text
  render (cmp column op literal) =
      quote_ident column ++ text " " ++ sql op ++ text " " ++ render_literal literal
  render (is_null column negated) =
      quote_ident column ++ text " IS " ++ not_word negated ++ text "NULL"
  render (in_list column list negated) =
      quote_ident column
      ++ text " "
      ++ not_word negated
      ++ text "IN ("
      ++ join_comma (map render_literal list)
      ++ text ")"
  render (and a b) = text "(" ++ render a ++ text " AND " ++ render b ++ text ")"
  render (or a b) = text "(" ++ render a ++ text " OR " ++ render b ++ text ")"
  render (Expr.not a) = text "(NOT " ++ render a ++ text ")"

  unfoldable pub to_sql : Filter → Text
  to_sql filter = render filter.expr
