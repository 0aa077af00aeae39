-- ===== src/Core/Filter/Tests.antt =====
-- The theorems on row filters at concrete filters and rows.
use pg2osync.Base.{◌≡◌, ◌≢◌, refl, true, false, none, [], ◌∷◌, arith}
use pg2osync.Base.Int.{
  pos, negsuc, show_int, decimal, is_digit, parse_int, in_range, add_decimal, compare_int,
  decimals_from, natural, negative,
}
use pg2osync.Base.Text.{Text, text, text_eq}
use pg2osync.Core.Json.{Fields, end, field, null, number, string, object, Number, get_field}
use pg2osync.Core.Filter.Syntax.{Floats, Expr, Filter, str, int, gt, cmp, in_list, and, named}
use pg2osync.Core.Filter.Eval.{
  is_true, compare_value, compare_present, compare_bytes, compare_nums, compare_num, from_str,
  float_or_none, from_json, from_literal, eval, matches, both, is_known, is_unknown, negation,
  held_by, holds, in_loop, in_step,
}
use pg2osync.Core.Filter.Render.{sql, join_comma, not_word, render_literal, render}
use pg2osync.Core.Filter.Parse.{filtered, no_fuel, parse, not_after, insert_sorted, sort, dedup}
use pg2osync.Core.Filter.Parse.Sorted.{has, Ascending}
use pg2osync.Core.Filter.Parse.Columns.{parse-ne-no_fuel, parse-Ascending, matches-Agree}
use pg2osync.Core.Filter.Pieces.{plain_dialect, doubled, IsSpellable}
use pg2osync.Core.Filter.Eval.Columns.{Agree}
use pg2osync.Core.Filter.Tokens.{upper, is_word, is_any}
use pg2osync.Core.Filter.Scan.{starts_word, in_word, is_letter}
use pg2osync.Core.Filter.RoundTrip.{parse-render}

abbrev floats : Floats
floats = record {
  parse_float = λ s. none;
  show_float = λ f. [];
  is_finite = λ f. true;
  compare_float = λ a b. none;
  to_float = λ i. record { bits = 0 };
}

-- NOT (tenant IN ('o''b', -2)) AND age > 17
abbrev adults : Expr
adults =
    and (Expr.not (in_list (text "tenant") (str (text "o'b") ∷ int (negsuc 1) ∷ []) false))
      (cmp (text "age") gt (int (pos 17)))

abbrev adults_filter : Filter
adults_filter = record { expr = adults; columns = dedup (sort (named adults)) }

abbrev row : Fields
row = field (text "age") (number (Number.pos 30)) (field (text "tenant") (string (text "eu")) end)

abbrev longer_row : Fields
longer_row = field (text "extra") null row

render-adults :
    render floats plain_dialect adults ≡ text "((NOT tenant IN ('o''b', -2)) AND age > 17)"
unfolding render not_word join_comma render_literal doubled show_int decimal sql
render-adults = refl

adults-IsSpellable : IsSpellable adults
unfolding starts_word in_word is_letter is_digit is_any is_word upper
adults-IsSpellable = (
  ((refl, (refl, (refl, (refl, (refl, (refl, tt))))), refl), (tt, (omega arith, tt))),
  ((refl, (refl, (refl, tt)), refl), omega arith),
)

rows-Agree : Agree row longer_row adults_filter.columns
unfolding dedup sort insert_sorted not_after compare_bytes named text_eq get_field
rows-Agree = (refl, (refl, tt))

parse-render_example : parse floats (render floats plain_dialect adults) ≡ filtered adults_filter
parse-render_example = parse-render floats adults adults-IsSpellable

parse-ne-no_fuel_example : parse floats (text "a = 1 OR (b") ≢ no_fuel
parse-ne-no_fuel_example = parse-ne-no_fuel floats (text "a = 1 OR (b")

parse-Ascending_example :
    Ascending adults_filter.columns
    × ((k : Text) → has k adults_filter.columns ≡ has k (named adults))
parse-Ascending_example =
    parse-Ascending floats (render floats plain_dialect adults) adults_filter parse-render_example

matches-Agree_example :
    matches floats adults_filter (object row) ≡ matches floats adults_filter (object longer_row)
matches-Agree_example =
    matches-Agree floats row longer_row (render floats plain_dialect adults) adults_filter
      parse-render_example rows-Agree

-- The text does not compare with -2, which leaves IN unknown, and NOT with it.
matches-row : matches floats adults_filter (object row) ≡ false
unfolding matches is_true eval both is_known negation in_loop in_step compare_value get_field
    text_eq compare_present compare_bytes compare_nums compare_num from_str float_or_none parse_int
    in_range add_decimal compare_int decimals_from is_digit natural negative from_json from_literal
    held_by holds is_unknown
matches-row = refl
