-- ===== src/Engine/Rows.antt =====
-- crates/engine/src/lib.rs, `materialize`: the document operations that one changed row becomes. A
-- table's rules are those that its lookups find; the transforms, the hash of a row and `f64`
-- arithmetic are parameters. Log positions are stamped by the batch builder.
pub mod Materialize
pub mod Completion
pub mod Covered
pub mod Filed
pub mod Stored
pub mod Fanned
pub mod Named
pub mod Parts
pub mod Moved
pub mod Spread
mod Tests
use pg2osync.Base.{
  ℕ, Bool, true, false, not, ◌&&◌, ◌||◌, Option, none, some, List, [], ◌∷◌, ◌++◌, if◌then◌else◌,
}
use pg2osync.Base.Text.{Text, text_eq}
use pg2osync.Core.Json.{
  Value, Fields, null, bool, number, string, array, object, get_field, insert_field,
}
use pg2osync.Core.Event.{RowKind, insert, update}
use pg2osync.Core.Sink.{DocumentOp, upsert, delete_children}
use pg2osync.Core.Filter.Syntax.{Floats, Filter}
use pg2osync.Core.Filter.Eval.{matches}
use pg2osync.Engine.Mapping.{
  Attempt, done, refused, ◌>>=◌, no_before_image, append_only_change, IdTemplate, IndexTarget,
  render_template, render_template_from_pk, render_target, render_target_from_pk, target_is_pk_only,
}
use pg2osync.Engine.Placing.{
  Outside, Projection, Rename, RoutingColumn, JoinRule, FanOut, projected, renamed, target_name,
  flattened, pk_to_id, render_routing, routing_from_key, routing_for_doc, routing_for_key,
}

-- `Rules`, as its lookups answer for the row's table
pub record Rules : Type 0 where
  pub projection : Option Projection
  pub rename : Option Rename
  pub flattens : List Text
  pub constants : List (Text × Value)
  pub id_template : Option IdTemplate
  pub fan : Option FanOut
  pub join : Option JoinRule
  pub filter : Option Filter
  pub pipeline : Option Text
  pub routed : Option RoutingColumn
  pub append_only : Bool

pub record RowTemplate : Type 0 where
  pub render : Value → Attempt Text
  pub render_from_pk : Value → Attempt Text
  pub is_pk_only : Bool

pub record Placed : Type 0 where
  pub id : Text
  pub doc : Value
  pub filed : Option (Value × Option Text)
  pub routing : Option Text

unfoldable pub is_object : Value → Bool
is_object (object fields) = true
is_object _ = false

unfoldable pub on_fields : (Fields → Fields) → Value → Value
on_fields change (object fields) = object (change fields)
on_fields change null = null
on_fields change (bool b) = bool b
on_fields change (number n) = number n
on_fields change (string s) = string s
on_fields change (array items) = array items

-- `Constants::apply`
unfoldable pub with_constants : List (Text × Value) → Fields → Fields
with_constants [] fs = fs
with_constants ((name, v) ∷ more) fs = with_constants more (insert_field name v fs)

unfoldable pub with_filed : Option (Value × Option Text) → Option JoinRule → Fields → Fields
with_filed (some (v, routing)) (some rule) fs = insert_field rule.field_name v fs
with_filed (some filed) none fs = fs
with_filed none rule fs = fs

-- Each column that the stored document has, under the name that it has there.
unfoldable pub completed_from : Option Rename → List Text → Fields → Fields → Fields × List Text
completed_from rename [] stored doc = (doc, [])
completed_from rename (col ∷ cols) stored doc = elim (get_field (target_name rename col) stored) [
  | none ↦ completed_from rename cols stored doc
  | some v ↦
      let (doc', completed) = completed_from rename cols stored (insert_field col v doc) in
      (doc', col ∷ completed)
]

-- `complete_toast`
unfoldable pub complete_toast : Option Rename → List Text → Option Value → Value → Value × List Text
complete_toast rename cols (some (object stored)) (object doc) =
    let (doc', completed) = completed_from rename cols stored doc in (object doc', completed)
complete_toast rename cols previous doc = (doc, [])

unfoldable pub completion : Option Rename → RowKind → Option Value → Option (Value × List Text)
completion rename (update pk previous_pk doc [] before) previous = none
completion rename (update pk previous_pk doc (col ∷ cols) before) previous =
    some (complete_toast rename (col ∷ cols) previous doc)
completion rename (insert pk doc) previous = none
completion rename (RowKind.delete pk before) previous = none

unfoldable pub value_or : {A : Type 0} → Option A → A → A
value_or none a = a
value_or (some b) a = b

unfoldable pub or_else : {A : Type 0} → Option A → A → Option A
or_else none a = some a
or_else (some b) a = some b

-- `filter_out`
unfoldable pub filter_out : Floats → RowKind → Option Value → Option Filter → RowKind
filter_out floats kind completed none = kind
filter_out floats (insert pk doc) completed (some filter) =
    if matches floats filter doc then insert pk doc else RowKind.delete pk (some doc)
filter_out floats (update pk previous_pk doc unchanged before) completed (some filter) =
    if matches floats filter (value_or completed doc)
    then update pk previous_pk doc unchanged before
    else RowKind.delete (value_or previous_pk pk) (or_else before doc)
filter_out floats (RowKind.delete pk before) completed (some filter) = RowKind.delete pk before

-- `render_for_row`
unfoldable pub render_for_row : RowTemplate → Value → Option Value → Option Value → Attempt Text
render_for_row template pk (some doc) before = template.render doc
render_for_row template pk none (some before) = template.render before
render_for_row template pk none none =
    if template.is_pk_only || is_object pk
    then template.render_from_pk pk
    else refused no_before_image

-- `Result::ok`
unfoldable pub ok : {A : Type 0} → Attempt A → Option A
ok (done a) = some a
ok (refused why) = none

-- Where a document is: its index, its id and its routing.
unfoldable pub routing_eq : Option Text → Option Text → Bool
routing_eq none none = true
routing_eq none (some r) = false
routing_eq (some q) none = false
routing_eq (some q) (some r) = text_eq q r

unfoldable pub is_held : Text → Option Text → List Placed → Bool
is_held id routing [] = false
is_held id routing (p ∷ placed) =
    (text_eq p.id id && routing_eq p.routing routing) || is_held id routing placed

unfoldable pub first_routing : List Placed → Option Text
first_routing [] = none
first_routing (p ∷ placed) = p.routing

abbrev pub id_rows : Outside → IdTemplate → RowTemplate
id_rows outside t = record {
  render = render_template outside.to_json t;
  render_from_pk = render_template_from_pk outside.to_json t;
  is_pk_only = t.pk_only;
}

abbrev pub index_rows : Outside → IndexTarget → RowTemplate
index_rows outside target = record {
  render = render_target outside.to_json target;
  render_from_pk = render_target_from_pk outside.to_json target;
  is_pk_only = target_is_pk_only target;
}
