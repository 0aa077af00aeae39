-- ===== src/Engine/Rows/Tests.antt =====
-- Rows that move, that fan out and that are completed, at concrete rules and rows.
use pg2osync.Engine.Mapping.{
  is_alphabetic, all_in_name, is_column_name, flushed, close_name, scan_parts, in_texts, with_name,
  names_after, column_names, all_in, checked_parts, parse_template, is_null_value, scalar_display,
  shown_column, rendered_part, render_parts, render_template, render_scalar,
  render_template_from_pk, all_in_index, is_index_name, usable, ends_in_star, pattern_after,
  target_pattern, target_is_pk_only, render_target, render_target_from_pk, done, literal, column,
  IdTemplate, IndexTarget, template, static,
}
use pg2osync.Engine.Placing.{
  remove_field, extended, retained, projected, taken, landed, rename_keys, renamed_rows,
  renamed_child, renamed_children, renamed, target_name, lifted, flattened, is_empty, joined_pairs,
  key_pairs, pk_to_id, usable_routing, routing_of, render_routing, routing_in_key, routing_from_pk,
  routing_from_key, parent_id, parent_of, child_of, routing_for_doc, some_id, parent_in_key,
  parent_from_pk, parent_for_key, routing_for_key, Outside, FanOut,
}
use pg2osync.Engine.Placing.FanOuts.{
  strings, fanned, element_doc, element_docs, fanned_docs, fan_out_docs,
}
use pg2osync.Engine.Rows.{
  is_object, on_fields, with_constants, with_filed, completed_from, complete_toast, completion,
  value_or, or_else, filter_out, render_for_row, ok, routing_eq, is_held, first_routing, Rules,
}
use pg2osync.Engine.Rows.Materialize.{
  refuses, content_or_key, map_option, and_then, id_from, derived_id, rendered_index, shaped,
  filed_by, routing_by, placed_one, placed_all, place, key_routing_by, key_routing, finished_doc,
  finish, removals, leavings, old_id_by, old_index_by, moved, inserted, removed_by, updated,
  orphans_of, orphans, deleted_by, deleted, written_kind, materialize, Written,
}
use pg2osync.Engine.Rows.Completion.{
  or_option, stored_index, column_routing, stored_routing, previous_or, stored_id, key_at,
  completion_key, completion_key-delete,
}
use pg2osync.Base.Text.{text_eq, pair_eq, Text, text, text_eq_iff}
use pg2osync.Core.Json.{
  get_field, insert_field, Value, Fields, string, array, object, end, field, nil, cons,
}
use pg2osync.Engine.Mapping.Keyed.{composite}
use pg2osync.Base.{
  ◌≡◌, ◌≢◌, refl, true, false, inl, List, [], ◌∷◌, All, Option, none, some, arith, ◌++◌,
}
use pg2osync.Core.Event.{RowKind, update}
use pg2osync.Core.Sink.{upsert, delete}
use pg2osync.Core.Filter.Syntax.{Floats}
use pg2osync.Engine.Rows.Stored.{Store}
use pg2osync.Engine.Rows.Named.{NamedBy, by_template}
use pg2osync.Engine.Rows.Covered.{Filed}
use pg2osync.Engine.Rows.Filed.{materialize-Filed}

program : Unit {0}
unfolding is_alphabetic all_in_name is_column_name flushed close_name scan_parts in_texts with_name
    names_after column_names all_in checked_parts parse_template is_null_value scalar_display
    shown_column rendered_part render_parts render_template render_scalar render_template_from_pk
    all_in_index is_index_name usable ends_in_star pattern_after target_pattern target_is_pk_only
    render_target render_target_from_pk remove_field extended retained projected taken landed
    rename_keys renamed_rows renamed_child renamed_children renamed target_name lifted flattened
    is_empty joined_pairs key_pairs pk_to_id usable_routing routing_of render_routing routing_in_key
    routing_from_pk routing_from_key parent_id parent_of child_of routing_for_doc some_id
    parent_in_key parent_from_pk parent_for_key routing_for_key strings fanned element_doc
    element_docs fanned_docs fan_out_docs is_object on_fields with_constants with_filed
    completed_from complete_toast completion value_or or_else filter_out render_for_row ok
    routing_eq is_held first_routing refuses content_or_key map_option and_then id_from derived_id
    rendered_index shaped filed_by routing_by placed_one placed_all place key_routing_by key_routing
    finished_doc finish removals leavings old_id_by old_index_by moved inserted removed_by updated
    orphans_of orphans deleted_by deleted written_kind materialize or_option stored_index
    column_routing stored_routing previous_or stored_id key_at completion_key text_eq pair_eq
    get_field insert_field
program = tt

abbrev outside : Outside
outside = record {
  to_json = λ v. text "1";
  content_id = λ v. text "hash";
  transform = λ completed doc. (doc, []);
  cut = λ separator s. s ∷ [];
}

abbrev floats : Floats
floats = record {
  parse_float = λ s. none;
  show_float = λ f. [];
  is_finite = λ f. true;
  compare_float = λ a b. none;
  to_float = λ i. record { bits = 0 };
}

abbrev sweep : Text → Text → Text → Text → Store → Store
sweep index name parent_name parent_id s = s

abbrev keys : List Text
keys = text "id" ∷ []

abbrev ids : IdTemplate
ids = record { parts = literal (text "r-") ∷ column (text "id") ∷ []; pk_only = true }

abbrev docs : IdTemplate
docs = record { parts = literal (text "docs-") ∷ column (text "tenant") ∷ []; pk_only = false }

abbrev target : IndexTarget
target = template (text "docs-{tenant}") docs

-- A table whose documents are filed under their tenant.
abbrev rules : Rules
rules = record {
  projection = none;
  rename = none;
  flattens = [];
  constants = [];
  id_template = some ids;
  fan = none;
  join = none;
  filter = none;
  pipeline = none;
  routed = some (record { column = text "tenant"; key_column = false });
  append_only = false;
}

abbrev key : Fields
key = field (text "id") (string (text "7")) end

abbrev of_tenant : Text → Fields
of_tenant tenant = field (text "id") (string (text "7")) (field (text "tenant") (string tenant) end)

abbrev gone : Written
gone = (delete (text "docs-eu") (text "r-7") (some (text "eu")) (some 9) ∷ [], [])

abbrev put : Written
put = (
  upsert (text "docs-us") (text "r-7") (some (text "us")) (object (of_tenant (text "us"))) (some 9)
        none
      ∷ [],
  [],
)

spec-ids : parse_template (text "r-{id}") keys ≡ done ids
unfolding program
spec-ids = refl

some_name : column_names ids.parts ≢ []
unfolding program
some_name e = cc

key-alike :
    (tenant k : Text) → in_texts k keys ≡ true → get_field k key ≡ get_field k (of_tenant tenant)
unfolding program
key-alike tenant k h = let same = (text_eq_iff (text "id") k).0 (ground arith) in rw (← same) refl

named_by : (tenant : Text) → NamedBy keys (of_tenant tenant) (object key) (some ids)
named_by tenant =
    by_template (text "r-{id}") spec-ids (λ only. some_name) (composite (key-alike tenant))

named_old : NamedBy keys (of_tenant (text "eu")) (value_or none (object key)) (some ids)
unfolding program
named_old = named_by (text "eu")

abbrev moves : RowKind
moves =
    update (object key) none (object (of_tenant (text "us"))) []
      (some (object (of_tenant (text "eu"))))

deleted_row :
    materialize outside rules target
      (some 9)
      floats
      (RowKind.delete (value_or none (object key)) (some (object (of_tenant (text "eu")))))
      none
    ≡ done gone
unfolding program
deleted_row = refl

moved_ops : materialize outside rules target (some 9) floats moves none ≡ done (put.0 ++ gone.0, [])
unfolding program
moved_ops = refl

materialize-Filed_example : All (Filed target (some 9)) (put.0 ++ gone.0)
materialize-Filed_example =
    materialize-Filed outside floats rules target (some 9) moves none (put.0 ++ gone.0) [] moved_ops

completion_key-delete_example :
    (index : Text) × (id : Text) × (routing : Option Text) × (completion_key outside rules target (
        update
          (object key)
          none
          (object key)
          (text "body" ∷ [])
          (some (object (of_tenant (text "eu")))))
      ≡ some ((index, id), routing))
    × (gone.0 ≡ delete index id routing (some 9) ∷ [])
completion_key-delete_example =
    completion_key-delete outside floats rules target (some 9) keys (object key) none
      (of_tenant (text "eu")) (object key) (text "body") [] gone refl tt (inl refl) named_old
      deleted_row

-- A table whose rows are one document for each of their lines.
abbrev by_line : FanOut
by_line = record {
  column = text "lines";
  by = none;
  id = record { parts = column (text "line") ∷ []; pk_only = false };
}

abbrev fanned_rules : Rules
fanned_rules = record {
  projection = none;
  rename = none;
  flattens = [];
  constants = [];
  id_template = none;
  fan = some by_line;
  join = none;
  filter = none;
  pipeline = none;
  routed = none;
  append_only = false;
}

abbrev line : Text → Value
line l = object (field (text "line") (string l) end)

abbrev two_lines : Value
two_lines =
    object (field (text "lines") (array (cons (line (text "a")) (cons (line (text "b")) nil))) end)

abbrev one_line : Value
one_line = object (field (text "lines") (array (cons (line (text "b")) nil)) end)

abbrev lines_gone : Written
lines_gone =
    (delete (text "docs") (text "a") none none ∷ delete (text "docs") (text "b") none none ∷ [], [])

abbrev lines_put : Written
lines_put = (upsert (text "docs") (text "b") none (line (text "b")) none none ∷ [], [])

-- Only the line that the row no longer has is deleted.
line_gone :
    materialize outside fanned_rules
      (static (text "docs"))
      none
      floats
      (update (string (text "7")) none one_line [] (some two_lines))
      none
    ≡ done (lines_put.0 ++ delete (text "docs") (text "a") none none ∷ [], [])
unfolding program
line_gone = refl
