-- ===== src/Engine/Placing.antt =====
-- crates/engine/src/mapping.rs: what a row's document becomes before it is written, the documents
-- that it fans out to, and the shard that each is filed under. Transforms, the cutting of a delimited
-- text and the hash of a row are parameters.
pub mod FanOuts
use pg2osync.Base.{Bool, true, false, not, Option, none, some, List, [], ◌∷◌, ◌++◌, if◌then◌else◌}
use pg2osync.Base.Map.{get}
use pg2osync.Base.Text.{Text, text, text_eq, text_key}
use pg2osync.Core.Json.{
  Value, Items, Fields, null, bool, number, string, array, object, nil, cons, end, field, get_field,
  insert_field,
}
use pg2osync.Core.Filter.Parse.{sort}
use pg2osync.Engine.Mapping.{
  no_elements, missing, is_null, no_row, no_before_image, Attempt, done, refused, ◌>>=◌, IdTemplate,
  is_null_value, scalar_display, render_template, render_template_from_pk, in_texts,
}

pub record Outside : Type 0 where
  -- serde_json's `to_string`, and the hash of a row
  pub to_json : Value → Text
  pub content_id : Value → Text
  -- the transforms of a table but for these columns, and the columns that they left as they were
  pub transform : List Text → Value → Value × List Text
  -- a delimited text, cut, trimmed and without empty pieces
  pub cut : Text → Text → List Text

-- `Map::remove`
unfoldable pub remove_field : Text → Fields → Fields
remove_field k end = end
remove_field k (field j v fs) = if text_eq j k then fs else field j v (remove_field k fs)

-- `Map::extend`
unfoldable pub extended : Fields → Fields → Fields
extended fs end = fs
extended fs (field k v more) = extended (insert_field k v fs) more

pub data Projection : Type 0 where
  include exclude : List Text → Projection

unfoldable pub retained : (Text → Bool) → Fields → Fields
retained keep end = end
retained keep (field k v fs) =
    let rest = retained keep fs in if keep k then field k v rest else rest

unfoldable pub projected : Option Projection → Fields → Fields
projected none fs = fs
projected (some (include columns)) fs = retained (λ k. in_texts k columns) fs
projected (some (exclude columns)) fs = retained (λ k. not (in_texts k columns)) fs

pub record Rename : Type 0 where
  pub columns : List (Text × Text)
  pub nested : List (Text × List (Text × Text))

-- Every renamed field leaves before any lands.
unfoldable pub taken : List (Text × Text) → Fields → List (Text × Value) × Fields
taken [] fs = ([], fs)
taken ((from, to) ∷ renames) fs =
    let (moved, rest) = taken renames (remove_field from fs) in
    elim (get_field from fs) [ none ↦ (moved, rest) | some v ↦ ((to, v) ∷ moved, rest) ]

unfoldable pub landed : List (Text × Value) → Fields → Fields
landed [] fs = fs
landed ((to, v) ∷ moved) fs = landed moved (insert_field to v fs)

-- `rename_keys`
unfoldable pub rename_keys : List (Text × Text) → Fields → Fields
rename_keys renames fs = let (moved, rest) = taken renames fs in landed moved rest

unfoldable pub renamed_rows : List (Text × Text) → Items → Items
renamed_rows renames nil = nil
renamed_rows renames (cons (object fs) items) =
    cons (object (rename_keys renames fs)) (renamed_rows renames items)
renamed_rows renames (cons v items) = cons v (renamed_rows renames items)

unfoldable pub renamed_child : List (Text × Text) → Text → Option Value → Fields → Fields
renamed_child renames child (some (array items)) fs =
    insert_field child (array (renamed_rows renames items)) fs
renamed_child renames child (some (object row)) fs =
    insert_field child (object (rename_keys renames row)) fs
renamed_child renames child _ fs = fs

unfoldable pub renamed_children : List (Text × List (Text × Text)) → Fields → Fields
renamed_children [] fs = fs
renamed_children ((child, renames) ∷ nested) fs =
    renamed_children nested (renamed_child renames child (get_field child fs) fs)

unfoldable pub renamed : Option Rename → Fields → Fields
renamed none fs = fs
renamed (some rule) fs = renamed_children rule.nested (rename_keys rule.columns fs)

-- `target_name`
unfoldable pub target_name : Option Rename → Text → Text
target_name none column = column
target_name (some rule) column = elim (get column rule.columns) [ none ↦ column | some to ↦ to ]

unfoldable pub lifted : Option Value → Fields → Fields
lifted (some (object element)) fs = extended fs element
lifted _ fs = fs

-- `Flattens::apply`
unfoldable pub flattened : List Text → Fields → Fields
flattened [] fs = fs
flattened (child ∷ children) fs =
    flattened children (lifted (get_field child fs) (remove_field child fs))

-- Two columns may decide where a document lives, and what each needs of the key.
pub record RoutingColumn : Type 0 where
  pub column : Text
  pub key_column : Bool

pub data ParentId : Type 0 where
  key : ParentId
  template : IdTemplate → ParentId

pub record JoinParent : Type 0 where
  pub column : Text
  -- the parent's relation name
  pub name : Text
  pub id : ParentId
  pub key_column : Bool
  pub element : Bool

pub record JoinRule : Type 0 where
  pub field_name : Text
  pub name : Text
  pub parent : Option JoinParent

pub record FanOut : Type 0 where
  pub column : Text
  pub by : Option Text
  pub id : IdTemplate

unfoldable pub is_empty : Text → Bool
is_empty [] = true
is_empty (c ∷ s) = false

unfoldable pub joined_pairs : List Text → Text
joined_pairs [] = []
joined_pairs (s ∷ []) = s
joined_pairs (s ∷ t ∷ ts) = s ++ 44 ∷ joined_pairs (t ∷ ts)

module _ (outside : Outside) where
  open outside use {to_json, cut}

  unfoldable pub key_pairs : Fields → List Text
  key_pairs end = []
  key_pairs (field k v fs) = (k ++ 61 ∷ scalar_display to_json v) ∷ key_pairs fs

  -- `pk_to_id`
  unfoldable pub pk_to_id : Value → Text
  pk_to_id null = text "__null__"
  pk_to_id (string s) = s
  pk_to_id (object fs) = joined_pairs (sort (key_pairs fs))
  pk_to_id (number n) = to_json (number n)
  pk_to_id (bool b) = to_json (bool b)
  pk_to_id (array items) = to_json (array items)

  -- `RoutingColumn::usable`, of a column's value
  unfoldable pub usable_routing : RoutingColumn → Value → Attempt Text
  usable_routing rule v =
      let routing = scalar_display to_json v in
      if is_empty routing then refused (is_null rule.column) else done routing

  unfoldable pub routing_of : RoutingColumn → Option Value → Attempt Text
  routing_of rule none = refused (missing rule.column)
  routing_of rule (some v) =
      if is_null_value v then refused (is_null rule.column) else usable_routing rule v

  -- `RoutingColumn::render`
  unfoldable pub render_routing : RoutingColumn → Value → Attempt Text
  render_routing rule (object fs) = routing_of rule (get_field rule.column fs)
  render_routing rule _ = refused no_row

  unfoldable pub routing_in_key : RoutingColumn → Option Value → Attempt Text
  routing_in_key rule none = refused no_before_image
  routing_in_key rule (some v) =
      if is_null_value v then refused (is_null rule.column) else usable_routing rule v

  unfoldable pub routing_from_pk : RoutingColumn → Value → Attempt Text
  routing_from_pk rule (object fs) = routing_in_key rule (get_field rule.column fs)
  routing_from_pk rule pk =
      if rule.key_column then usable_routing rule pk else refused no_before_image

  -- `RoutingColumn::render_from_key`
  unfoldable pub routing_from_key : RoutingColumn → Option Value → Value → Attempt Text
  routing_from_key rule (some before) pk = render_routing rule before
  routing_from_key rule none pk = routing_from_pk rule pk

  -- `ParentId::render`
  unfoldable pub parent_id : ParentId → Value → Attempt Text
  parent_id key v = done (pk_to_id v)
  parent_id (template t) v = render_template_from_pk to_json t v

  unfoldable pub parent_of : JoinParent → Option Value → Attempt Text
  parent_of parent none = refused (missing parent.column)
  parent_of parent (some v) =
      if is_null_value v then refused (is_null parent.column) else parent_id parent.id v

  unfoldable pub child_of : JoinRule → JoinParent → Value → Attempt (Value × Option Text)
  child_of rule parent (object fs) = parent_of parent (get_field parent.column fs) >>= λ id. done (
    object (field (text "name") (string rule.name) (field (text "parent") (string id) end)),
    some id,
  )
  child_of rule parent _ = refused no_row

  -- `routing_for_doc`
  unfoldable pub routing_for_doc : JoinRule → Value → Attempt (Value × Option Text)
  routing_for_doc rule raw = elim rule.parent [
    | none ↦ done (string rule.name, none)
    | some parent ↦ child_of rule parent raw
  ]

  unfoldable pub some_id : Attempt Text → Attempt (Option Text)
  some_id r = r >>= λ id. done (some id)

  unfoldable pub parent_in_key : JoinParent → Option Value → Attempt (Option Text)
  parent_in_key parent none = refused no_before_image
  parent_in_key parent (some v) = some_id (parent_id parent.id v)

  unfoldable pub parent_from_pk : JoinParent → Value → Attempt (Option Text)
  parent_from_pk parent (object fs) = parent_in_key parent (get_field parent.column fs)
  parent_from_pk parent pk =
      if parent.key_column then some_id (parent_id parent.id pk) else refused no_before_image

  unfoldable pub parent_for_key :
      JoinRule → JoinParent → Option Value → Value → Attempt (Option Text)
  parent_for_key rule parent before pk =
      if parent.element then refused no_before_image else elim before [
        | some row ↦ routing_for_doc rule row >>= λ filed. done filed.1
        | none ↦ parent_from_pk parent pk
      ]

  -- `routing_for_key`
  unfoldable pub routing_for_key : JoinRule → Option Value → Value → Attempt (Option Text)
  routing_for_key rule before pk = elim rule.parent [
    | none ↦ done none
    | some parent ↦ parent_for_key rule parent before pk
  ]
