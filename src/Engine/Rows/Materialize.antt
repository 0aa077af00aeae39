-- ===== src/Engine/Rows/Materialize.antt =====
-- crates/engine/src/lib.rs, `materialize` itself: where a row's documents go, what is written and what
-- is removed, for each kind of change.
use pg2osync.Base.{
  ℕ, Bool, true, false, not, ◌&&◌, ◌||◌, Option, none, some, List, [], ◌∷◌, ◌++◌, if◌then◌else◌,
}
use pg2osync.Base.Text.{Text, text_eq}
use pg2osync.Core.Json.{Value}
use pg2osync.Core.Event.{RowKind, insert, update}
use pg2osync.Core.Sink.{DocumentOp, upsert, delete_children}
use pg2osync.Core.Filter.Syntax.{Floats}
use pg2osync.Engine.Mapping.{
  Attempt, done, refused, ◌>>=◌, no_before_image, append_only_change, IdTemplate, IndexTarget,
}
use pg2osync.Engine.Placing.{
  Outside, FanOut, RoutingColumn, JoinParent, JoinRule, projected, renamed, flattened, pk_to_id,
  render_routing, routing_from_key, routing_for_doc, routing_for_key,
}
use pg2osync.Engine.Placing.FanOuts.{fan_out_docs}
use pg2osync.Engine.Rows.{
  Rules, Placed, on_fields, with_constants, with_filed, completion, value_or, filter_out,
  render_for_row, ok, routing_eq, is_held, first_routing, id_rows, index_rows,
}

-- The operations that a row becomes, and the columns that the transforms left as they were.
abbrev pub Written : Type 0
Written = List DocumentOp × List Text

unfoldable pub refuses : Bool → RowKind → Bool
refuses append_only (insert pk doc) = false
refuses append_only (update pk previous_pk doc unchanged before) = append_only
refuses append_only (RowKind.delete pk before) = append_only

unfoldable pub content_or_key : Outside → Bool → Value → Option Value → Option Value → Text
content_or_key outside false pk doc before = pk_to_id outside pk
content_or_key outside true pk (some row) before = outside.content_id row
content_or_key outside true pk none (some row) = outside.content_id row
content_or_key outside true pk none none = pk_to_id outside pk

unfoldable pub map_option : {A B : Type 0} → (A → B) → Option A → Option B
map_option f none = none
map_option f (some a) = some (f a)

unfoldable pub and_then : {A B : Type 0} → Option A → (A → Option B) → Option B
and_then none f = none
and_then (some a) f = f a

module _ (outside : Outside) (rules : Rules) where
  open outside use {transform}

  unfoldable pub id_from : Option IdTemplate → Value → Option Value → Option Value → Attempt Text
  id_from none pk doc before = done (content_or_key outside rules.append_only pk doc before)
  id_from (some t) pk doc before = render_for_row (id_rows outside t) pk doc before

  -- `derived_id`
  unfoldable pub derived_id : Value → Option Value → Option Value → Attempt Text
  derived_id pk doc before = id_from rules.id_template pk doc before

  -- `rendered_index`
  unfoldable pub rendered_index : IndexTarget → Value → Option Value → Option Value → Attempt Text
  rendered_index target pk doc before = render_for_row (index_rows outside target) pk doc before

  unfoldable pub shaped : Option FanOut → Text → Value → Attempt (List (Text × Value))
  shaped none base doc = done ((base, doc) ∷ [])
  shaped (some rule) base doc = fan_out_docs outside rule base doc

  unfoldable pub filed_by : Option JoinRule → Value → Attempt (Option (Value × Option Text))
  filed_by none doc = done none
  filed_by (some rule) doc = routing_for_doc outside rule doc >>= λ filed. done (some filed)

  unfoldable pub routing_by :
      Option (Value × Option Text) → Option RoutingColumn → Value → Attempt (Option Text)
  routing_by (some (v, routing)) routed raw = done routing
  routing_by none (some rule) raw = render_routing outside rule raw >>= λ r. done (some r)
  routing_by none none raw = done none

  unfoldable pub placed_one : Value → Text × Value → Attempt Placed
  placed_one raw (id, doc) = filed_by rules.join doc >>= λ filed.
      routing_by filed rules.routed raw >>= λ routing.
      done (record { id = id; doc = doc; filed = filed; routing = routing })

  unfoldable pub placed_all : Value → List (Text × Value) → Attempt (List Placed)
  placed_all raw [] = done []
  placed_all raw (d ∷ docs) =
      placed_one raw d >>= λ p. placed_all raw docs >>= λ others. done (p ∷ others)

  unfoldable pub place : Text → Value → Attempt (List Placed)
  place base raw = shaped rules.fan base raw >>= placed_all raw

  unfoldable pub key_routing_by :
      Option JoinRule → Option RoutingColumn → Option Value → Value → Attempt (Option Text)
  key_routing_by (some rule) routed before pk = routing_for_key outside rule before pk
  key_routing_by none (some rule) before pk =
      routing_from_key outside rule before pk >>= λ r. done (some r)
  key_routing_by none none before pk = done none

  unfoldable pub key_routing : Option Value → Value → Attempt (Option Text)
  key_routing before pk = key_routing_by rules.join rules.routed before pk

  -- The document that is written, and the columns that were left as they were.
  unfoldable pub finished_doc : List Text → Placed → Value × List Text
  finished_doc completed p =
      let (transformed, left) =
        transform completed (on_fields (projected rules.projection) p.doc) in
      let named = on_fields (renamed rules.rename) transformed in
      let flat = on_fields (flattened rules.flattens) named in
      let full = on_fields (with_constants rules.constants) flat in
      (on_fields (with_filed p.filed rules.join) full, left)

  unfoldable pub finish : Option ℕ → Text → List Text → List Placed → Written
  finish version index completed [] = ([], [])
  finish version index completed (p ∷ placed) =
      let (doc, left) = finished_doc completed p in
      let (ops, others) = finish version index completed placed in
      (upsert index p.id p.routing doc version rules.pipeline ∷ ops, left ++ others)

  unfoldable pub removals : Option ℕ → Text → List Placed → List DocumentOp
  removals version index [] = []
  removals version index (p ∷ placed) =
      DocumentOp.delete index p.id p.routing version ∷ removals version index placed

  -- The documents of the before-image that the row's new state does not hold.
  unfoldable pub leavings : Option ℕ → Text → Text → List Placed → List Placed → List DocumentOp
  leavings version index old_index held [] = []
  leavings version index old_index held (p ∷ placed) =
      let rest = leavings version index old_index held placed in
      if not (text_eq old_index index) || not (is_held p.id p.routing held)
      then DocumentOp.delete old_index p.id p.routing version ∷ rest
      else rest

  unfoldable pub old_id_by : Option IdTemplate → Option Value → Option Value → Option Text
  old_id_by none previous_pk before = map_option (pk_to_id outside) previous_pk
  old_id_by (some t) previous_pk before =
      if t.pk_only
      then and_then previous_pk (λ pk. ok ((id_rows outside t).render_from_pk pk))
      else and_then before (λ row. ok ((id_rows outside t).render row))

  unfoldable pub old_index_by : IndexTarget → Option Value → Value → Option Text
  old_index_by target (some row) old_pk = ok ((index_rows outside target).render row)
  old_index_by target none old_pk =
      if (index_rows outside target).is_pk_only
      then ok ((index_rows outside target).render_from_pk old_pk)
      else none

  unfoldable pub moved :
      Option ℕ → Text → Text → Option Text → Text → Text → Option Text → List DocumentOp
  moved version index base routing old_index old_id old_routing =
      if text_eq old_index index && text_eq old_id base && routing_eq old_routing routing
      then []
      else DocumentOp.delete old_index old_id old_routing version ∷ []

  module _ (target : IndexTarget) (version : Option ℕ) where
    unfoldable pub inserted : Value → Value → Attempt Written
    inserted pk doc = derived_id pk (some doc) none >>= λ base.
        rendered_index target pk (some doc) none >>= λ index.
        place base doc >>= λ placed. done (finish version index [] placed)

    -- What an update removes, after what it wrote.
    unfoldable pub removed_by :
        Option FanOut
        → Option Value
        → Value
        → Option Value
        → Text
        → Text
        → List Placed
        → Attempt (List DocumentOp)
    removed_by (some rule) previous_pk pk none index base placed = done []
    removed_by (some rule) previous_pk pk (some row) index base placed =
        derived_id (value_or previous_pk pk) none (some row) >>= λ old_base.
        rendered_index target (value_or previous_pk pk) none (some row) >>= λ old_index.
        place old_base row >>= λ old. done (leavings version index old_index placed old)
    removed_by none previous_pk pk before index base placed =
        key_routing before (value_or previous_pk pk) >>= λ old_routing. done (
          moved version index base (first_routing placed)
            (value_or (old_index_by target before (value_or previous_pk pk)) index)
            (value_or (old_id_by rules.id_template previous_pk before) base) old_routing)

    unfoldable pub updated :
        Value → Option Value → Value → List Text → Option Value → Attempt Written
    updated pk previous_pk doc completed before = derived_id pk (some doc) before >>= λ base.
        rendered_index target pk (some doc) before >>= λ index. place base doc >>= λ placed.
        let (ops, left) = finish version index completed placed in
        removed_by rules.fan previous_pk pk before index base placed >>= λ gone.
        done (ops ++ gone, left)

    unfoldable pub orphans_of : JoinRule → Option JoinParent → Text → Text → List DocumentOp
    orphans_of rule none index base =
        delete_children index rule.field_name rule.name base version ∷ []
    orphans_of rule (some parent) index base = []

    unfoldable pub orphans : Option JoinRule → Text → Text → List DocumentOp
    orphans none index base = []
    orphans (some rule) index base = orphans_of rule rule.parent index base

    unfoldable pub deleted_by :
        Option FanOut → Value → Option Value → Text → Text → Attempt (List DocumentOp)
    deleted_by none pk before index base = key_routing before pk >>= λ routing.
        done (DocumentOp.delete index base routing version ∷ orphans rules.join index base)
    deleted_by (some rule) pk none index base = refused no_before_image
    deleted_by (some rule) pk (some row) index base =
        place base row >>= λ placed. done (removals version index placed)

    unfoldable pub deleted : Value → Option Value → Attempt Written
    deleted pk before = derived_id pk none before >>= λ base.
        rendered_index target pk none before >>= λ index.
        deleted_by rules.fan pk before index base >>= λ ops. done (ops, [])

    unfoldable pub written_kind : RowKind → Option (Value × List Text) → Attempt Written
    written_kind (insert pk doc) completion' = inserted pk doc
    written_kind (update pk previous_pk doc unchanged before) none =
        updated pk previous_pk doc [] before
    written_kind (update pk previous_pk doc unchanged before) (some (doc', completed)) =
        updated pk previous_pk doc' completed before
    written_kind (RowKind.delete pk before) completion' = deleted pk before

    -- `materialize`
    unfoldable pub materialize : Floats → RowKind → Option Value → Attempt Written
    materialize floats kind previous =
        let full = completion rules.rename kind previous in
        let judged = filter_out floats kind (map_option (λ pair. pair.0) full) rules.filter in
        let done_kind = written_kind judged full in
        if refuses rules.append_only kind then refused append_only_change else done_kind
