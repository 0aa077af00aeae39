-- ===== src/Engine/Mapping/Tests.antt =====
-- Templates, index targets and keys at concrete inputs.
use pg2osync.Engine.Mapping.{
  is_alphabetic, all_in_name, is_column_name, flushed, close_name, scan_parts, in_texts, with_name,
  names_after, column_names, all_in, checked_parts, parse_template, is_null_value, scalar_display,
  shown_column, rendered_part, render_parts, render_template, render_scalar,
  render_template_from_pk, all_in_index, is_index_name, usable, ends_in_star, pattern_after,
  target_pattern, target_is_pk_only, render_target, render_target_from_pk, done, refused,
  unbalanced_close, literal, column, IdTemplate, template,
}
use pg2osync.Base.Text.{text_eq, pair_eq, Text, text, text_eq_iff}
use pg2osync.Core.Json.{get_field, insert_field, Value, Fields, string, object, end, field}
use pg2osync.Core.Patterns.{
  literals, strip_prefix, ends_with, after_first, match_literals, match_split,
  index_matches_pattern,
}
use pg2osync.Engine.Mapping.Spelled.{written, IsNamed, parse_template-written}
use pg2osync.Engine.Mapping.Cleared.{render_target-matches}
use pg2osync.Engine.Mapping.Keyed.{composite, parse_template-KeyOf}
use pg2osync.Base.{◌≡◌, ◌≢◌, refl, true, inl, List, [], ◌∷◌, All, arith}

program : Unit {0}
unfolding is_alphabetic all_in_name is_column_name flushed close_name scan_parts in_texts with_name
    names_after column_names all_in checked_parts parse_template is_null_value scalar_display
    shown_column rendered_part render_parts render_template render_scalar render_template_from_pk
    all_in_index is_index_name usable ends_in_star pattern_after target_pattern target_is_pk_only
    render_target render_target_from_pk text_eq pair_eq get_field insert_field literals strip_prefix
    ends_with after_first match_literals match_split index_matches_pattern
program = tt

abbrev to_json : Value → Text
to_json v = text "1"

abbrev tenant : List Text
tenant = text "tenant_id" ∷ []

abbrev spec : Text
spec = text "docs-{tenant_id}-v2"

abbrev docs : IdTemplate
docs = record {
  parts = literal (text "docs-") ∷ column (text "tenant_id") ∷ literal (text "-v2") ∷ [];
  pk_only = true;
}

abbrev row : Fields
row = field (text "name") (string (text "x")) (field (text "tenant_id") (string (text "eu")) end)

abbrev key : Fields
key = field (text "tenant_id") (string (text "eu")) end

spec-docs : parse_template spec tenant ≡ done docs
unfolding program
spec-docs = refl

parse_template-written_example :
    (written docs.parts ≡ spec)
    × All IsNamed docs.parts
    × (docs.pk_only ≡ all_in tenant (column_names docs.parts))
parse_template-written_example = parse_template-written spec tenant docs spec-docs

row-index : render_target to_json (template spec docs) (object row) ≡ done (text "docs-eu-v2")
unfolding program
row-index = refl

render_target-matches_example :
    index_matches_pattern (target_pattern (template spec docs)) (text "docs-eu-v2") ≡ true
render_target-matches_example =
    render_target-matches to_json (template spec docs) (object row) (text "docs-eu-v2")
      (inl row-index)

some_name : column_names docs.parts ≢ []
unfolding program
some_name e = cc

key-alike : (k : Text) → in_texts k tenant ≡ true → get_field k key ≡ get_field k row
unfolding program
key-alike k h = let same = (text_eq_iff (text "tenant_id") k).0 (ground arith) in rw (← same) refl

parse_template-KeyOf_example :
    render_template_from_pk to_json docs (object key) ≡ render_template to_json docs (object row)
parse_template-KeyOf_example =
    parse_template-KeyOf to_json spec tenant docs row (object key) spec-docs refl some_name
      (composite key-alike)

unbalanced : parse_template (text "a}b") tenant ≡ refused unbalanced_close
unfolding program
unbalanced = refl
