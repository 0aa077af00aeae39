-- ===== src/Engine/Rows/Completion.antt =====
-- crates/engine/src/lib.rs, `completion_key`: which stored document completes an update whose TOASTed
-- columns were not resent.
use pg2osync.Base.{
  ◌≡◌, ◌⊎◌, inl, inr, refl, sym, ap, ◌∙◌, false, Option, none, some, List, [], ◌∷◌, Bool-cases,
  if◌then◌else◌, ℕ,
}
use pg2osync.Base.Text.{Text, text_eq, text_eq_iff}
use pg2osync.Core.Json.{Value, Fields, object}
use pg2osync.Core.Event.{RowKind, insert, update}
use pg2osync.Core.Sink.{delete}
use pg2osync.Core.Filter.Syntax.{Floats}
use pg2osync.Engine.Mapping.{Attempt, done, refused, ◌>>=◌, IdTemplate, IndexTarget}
use pg2osync.Engine.Placing.{
  Outside, JoinRule, RoutingColumn, pk_to_id, routing_from_key, routing_for_key,
}
use pg2osync.Engine.Rows.{Rules, RowTemplate, ok, value_or, render_for_row, id_rows, index_rows}
use pg2osync.Engine.Rows.Materialize.{
  Written, map_option, and_then, derived_id, id_from, rendered_index, key_routing, key_routing_by,
  materialize,
}
use pg2osync.Engine.Rows.Named.{NamedBy, by_template-id, by_key-id}
use pg2osync.Engine.Rows.Parts.{HasParent, DeletedAs, deleted-DeletedAs}
use pg2osync.Engine.Rows.Moved.{materialize-delete}

unfoldable pub or_option : {A : Type 0} → Option A → Option A → Option A
or_option (some a) other = some a
or_option none other = other

unfoldable pub stored_index : RowTemplate → Value → Value → Option Value → Option Text
stored_index target old_pk doc (some row) = ok (target.render row)
stored_index target old_pk doc none =
    if target.is_pk_only then ok (target.render_from_pk old_pk) else ok (target.render doc)

module _ (outside : Outside) where
  -- The routing of the join, where that has one, then that of the column.
  unfoldable pub column_routing : Option RoutingColumn → Option Value → Value → Option Text
  column_routing none before old_pk = none
  column_routing (some rule) before old_pk = ok (routing_from_key outside rule before old_pk)

  unfoldable pub stored_routing :
      Option JoinRule → Option RoutingColumn → Option Value → Value → Option (Option Text)
  stored_routing none routed before old_pk = some (column_routing routed before old_pk)
  stored_routing (some rule) routed before old_pk =
      map_option (λ found. or_option found (column_routing routed before old_pk))
        (ok (routing_for_key outside rule before old_pk))

  unfoldable pub previous_or : Text → Option Text → Text
  previous_or id none = id
  previous_or id (some previous) = if text_eq previous id then id else previous

  unfoldable pub stored_id : Option IdTemplate → Value → Option Value → Option Value → Option Text
  stored_id none pk previous_pk before =
      some (previous_or (pk_to_id outside pk) (map_option (pk_to_id outside) previous_pk))
  stored_id (some t) pk previous_pk before =
      if t.pk_only
      then ok ((id_rows outside t).render_from_pk (value_or previous_pk pk))
      else or_option (and_then before (λ row. ok ((id_rows outside t).render row)))
          (ok ((id_rows outside t).render_from_pk pk))

  unfoldable pub key_at :
      Rules
      → IndexTarget
      → Value
      → Option Value
      → Value
      → Option Value
      → Option ((Text × Text) × Option Text)
  key_at rules target pk previous_pk doc before =
      and_then (stored_index (index_rows outside target) (value_or previous_pk pk) doc before)
        λ index.
          and_then (stored_routing rules.join rules.routed before (value_or previous_pk pk))
            λ routing.
              map_option (λ id. ((index, id), routing))
                (stored_id rules.id_template pk previous_pk before)

  -- `completion_key`, of a table that has a target
  unfoldable pub completion_key :
      Rules → IndexTarget → RowKind → Option ((Text × Text) × Option Text)
  completion_key rules target (insert pk doc) = none
  completion_key rules target (update pk previous_pk doc [] before) = none
  completion_key rules target (update pk previous_pk doc (col ∷ cols) before) =
      if rules.append_only then none else key_at rules target pk previous_pk doc before
  completion_key rules target (RowKind.delete pk before) = none

  previous_or-same :
      (pk : Value) (previous_pk : Option Value)
      → previous_or (pk_to_id outside pk) (map_option (pk_to_id outside) previous_pk)
        ≡ pk_to_id outside (value_or previous_pk pk)
  unfolding previous_or map_option value_or
  previous_or-same pk none = refl
  previous_or-same pk (some p) =
      elim (Bool-cases (text_eq (pk_to_id outside p) (pk_to_id outside pk))) [
        | inl same ↦
            simp same (sym ((text_eq_iff (pk_to_id outside p) (pk_to_id outside pk)).0 same))
        | inr other ↦ simp other
      ]

  or_option-none : {A : Type 0} (a : Option A) → or_option a none ≡ a
  unfolding or_option
  or_option-none none = refl
  or_option-none (some a) = refl

  ok-some :
      (r : Attempt Text) (routing : Option Text)
      → (r >>= λ a. done (some a)) ≡ done routing
      → ok r ≡ routing
  unfolding ok
  ok-some (done a) routing e = cc e
  ok-some (refused why) routing e = cc

  module _ (rules : Rules) where
    stored_routing-same :
        (join : Option JoinRule) (routed : Option RoutingColumn) (row old_pk : Value)
        (routing : Option Text)
        → (join ≡ none) ⊎ (routed ≡ none)
        → key_routing_by outside rules join routed (some row) old_pk ≡ done routing
        → stored_routing join routed (some row) old_pk ≡ some routing
    unfolding stored_routing key_routing_by column_routing map_option ok
    stored_routing-same none none row old_pk routing one e = cc e
    stored_routing-same none (some rule) row old_pk routing one e =
        ap some (ok-some (routing_from_key outside rule (some row) old_pk) routing e)
    stored_routing-same (some join) none row old_pk routing one e =
        simp e (ap some (or_option-none routing))
    stored_routing-same (some join) (some rule) row old_pk routing (inl never) e = cc
    stored_routing-same (some join) (some rule) row old_pk routing (inr never) e = cc

    stored_id-same :
        (template : Option IdTemplate) (keys : List Text) (pk : Value) (previous_pk : Option Value)
        (row : Fields) (id : Text)
        → rules.append_only ≡ false
        → NamedBy keys row (value_or previous_pk pk) template
        → id_from outside rules template (value_or previous_pk pk) none (some (object row))
          ≡ done id
        → stored_id template pk previous_pk (some (object row)) ≡ some id
    unfolding stored_id id_from render_for_row and_then or_option ok
    stored_id-same none keys pk previous_pk row id keyed named e = ap some (
        previous_or-same pk previous_pk
        ∙ by_key-id outside rules (value_or previous_pk pk) none (some (object row)) keyed e)
    stored_id-same (some t) keys pk previous_pk row id keyed named e = elim (Bool-cases t.pk_only) [
      | inr wide ↦ simp (wide, e)
      | inl only ↦
          simp (only, by_template-id outside rules keys row (value_or previous_pk pk) named only, e)
    ]

    key_at-same :
        (target : IndexTarget) (version : Option ℕ) (keys : List Text) (pk : Value)
        (previous_pk : Option Value) (row : Fields) (doc : Value) {gone : Written}
        → rules.append_only ≡ false
        → (rules.join ≡ none) ⊎ (rules.routed ≡ none)
        → NamedBy keys row (value_or previous_pk pk) rules.id_template
        → (d : DeletedAs outside rules target version (value_or previous_pk pk) (object row) gone)
        → key_at rules target pk previous_pk doc (some (object row))
          ≡ some ((d.index, d.id), d.routing)
    unfolding key_at stored_index derived_id rendered_index key_routing render_for_row ok and_then
        map_option
    key_at-same target version keys pk previous_pk row doc keyed one named d =
        let routed =
          stored_routing-same rules.join rules.routed (object row) (value_or previous_pk pk)
            d.routing one d.routing_of in
        let named_id =
          stored_id-same rules.id_template keys pk previous_pk row d.id keyed named d.id_of in
        simp (d.index_of, routed, named_id)

-- An update that was not resent all its columns is completed from the document that the row's old state
-- is filed under: the index, id and routing that are read are those that deleting the old state would
-- remove. The row is one document of a table that is no join's parent and routes by a join or by a
-- column, not by both, and its before-image came along.
pub completion_key-delete :
    (outside : Outside) (floats : Floats) (rules : Rules) (target : IndexTarget)
    (version : Option ℕ) (keys : List Text) (pk : Value) (previous_pk : Option Value) (row : Fields)
    (doc : Value) (col : Text) (cols : List Text) (gone : Written)
    → rules.fan ≡ none
    → HasParent rules.join
    → (rules.join ≡ none) ⊎ (rules.routed ≡ none)
    → NamedBy keys row (value_or previous_pk pk) rules.id_template
    → materialize outside rules target version floats
        (RowKind.delete (value_or previous_pk pk) (some (object row)))
        none
      ≡ done gone
    → (index : Text) × (id : Text) × (routing : Option Text) × (completion_key outside rules target
          (update pk previous_pk doc (col ∷ cols) (some (object row)))
        ≡ some ((index, id), routing))
      × (gone.0 ≡ delete index id routing version ∷ [])
unfolding completion_key
completion_key-delete outside floats rules target version keys pk previous_pk row doc col cols gone
      single childless one named e =
    let (keyed, deleted_old) =
      materialize-delete outside floats rules target version (value_or previous_pk pk)
        (some (object row)) gone e in
    let d =
      (deleted-DeletedAs outside rules target version (value_or previous_pk pk) (object row) single
          childless).yielded
        gone deleted_old in
    (
      d.index,
      d.id,
      d.routing,
      simp keyed
          (key_at-same outside rules target version keys pk previous_pk row doc keyed one named d),
      ap (λ w. w.0) d.writes,
    )
