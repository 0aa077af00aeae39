-- ===== src/Engine/Rows/Filed.antt =====
-- Where the operations of a row go: to indexes of its table, with the version of the change.
use pg2osync.Base.{
  ℕ, ◌≡◌, refl, Option, none, some, List, [], All, All-append, Bool-cases, inl, inr,
}
use pg2osync.Base.Text.{Text}
use pg2osync.Core.Json.{Value}
use pg2osync.Core.Event.{RowKind, insert, update}
use pg2osync.Core.Sink.{DocumentOp}
use pg2osync.Core.Filter.Syntax.{Floats}
use pg2osync.Engine.Mapping.{done, IndexTarget}
use pg2osync.Engine.Mapping.Yields.{Yields, Yields-bind, Yields-done, Yields-refused}
use pg2osync.Engine.Placing.{Outside, FanOut}
use pg2osync.Engine.Rows.{Rules, Placed, value_or, completion, filter_out, first_routing}
use pg2osync.Engine.Rows.Materialize.{
  Written, refuses, map_option, derived_id, rendered_index, place, key_routing, inserted,
  removed_by, updated, deleted_by, deleted, written_kind, materialize,
}
use pg2osync.Engine.Rows.Covered.{
  Filed, rendered_index-Covered, old_index_by-Covered, finish-Filed, removals-Filed, leavings-Filed,
  moved-Filed, orphans-Filed, Covered,
}

module _ (outside : Outside) (rules : Rules) (target : IndexTarget) (version : Option ℕ) where
  abbrev FiledAll : Written → Type 0
  FiledAll w = All (Filed target version) w.0

  inserted-Filed : (pk doc : Value) → Yields FiledAll (inserted outside rules target version pk doc)
  unfolding inserted
  inserted-Filed pk doc = Yields-bind (derived_id outside rules pk (some doc) none) λ base e1.
      Yields-bind (rendered_index outside rules target pk (some doc) none) λ index e2.
        Yields-bind (place outside rules base doc) λ placed e3. Yields-done (
          finish-Filed outside rules target version index [] placed
            (rendered_index-Covered outside rules target version pk (some doc) none index e2))

  removed_by-Filed :
      (fan : Option FanOut) (previous_pk : Option Value) (pk : Value) (before : Option Value)
      (index base : Text) (placed : List Placed)
      → Covered target index
      → Yields
          (All (Filed target version))
          (removed_by outside rules target version fan previous_pk pk before index base placed)
  unfolding removed_by
  removed_by-Filed (some rule) previous_pk pk none index base placed h = Yields-done tt
  removed_by-Filed (some rule) previous_pk pk (some row) index base placed h =
      Yields-bind (derived_id outside rules (value_or previous_pk pk) none (some row))
        λ old_base e1.
          Yields-bind
            (rendered_index outside rules target (value_or previous_pk pk) none (some row))
            λ old_index e2. Yields-bind (place outside rules old_base row) λ old e3. Yields-done (
              leavings-Filed outside rules target version index old_index placed old (
                rendered_index-Covered outside rules target version (value_or previous_pk pk) none
                  (some row) old_index e2))
  removed_by-Filed none previous_pk pk before index base placed h =
      Yields-bind (key_routing outside rules before (value_or previous_pk pk)) λ old_routing e1.
        Yields-done (
          moved-Filed outside rules target version index base (first_routing placed) _ _ old_routing
            (old_index_by-Covered outside rules target version before (value_or previous_pk pk)
              index h))

  updated-Filed :
      (pk : Value) (previous_pk : Option Value) (doc : Value) (completed : List Text)
      (before : Option Value)
      → Yields FiledAll (updated outside rules target version pk previous_pk doc completed before)
  unfolding updated
  updated-Filed pk previous_pk doc completed before =
      Yields-bind (derived_id outside rules pk (some doc) before) λ base e1.
        Yields-bind (rendered_index outside rules target pk (some doc) before) λ index e2.
          Yields-bind (place outside rules base doc) λ placed e3.
            Yields-bind
              (removed_by outside rules target version rules.fan previous_pk pk before index base
                placed)
              λ gone e4.
                let h =
                  rendered_index-Covered outside rules target version pk (some doc) before index
                    e2 in
                Yields-done (
                  All-append (Filed target version) _ gone
                    (finish-Filed outside rules target version index completed placed h)
                    ((removed_by-Filed rules.fan previous_pk pk before index base placed h).yielded
                      gone e4))

  deleted_by-Filed :
      (fan : Option FanOut) (pk : Value) (before : Option Value) (index base : Text)
      → Covered target index
      → Yields
          (All (Filed target version))
          (deleted_by outside rules target version fan pk before index base)
  unfolding deleted_by
  deleted_by-Filed none pk before index base h =
      Yields-bind (key_routing outside rules before pk) λ routing e.
        Yields-done ((h, refl), orphans-Filed outside rules target version rules.join index base h)
  deleted_by-Filed (some rule) pk none index base h = Yields-refused
  deleted_by-Filed (some rule) pk (some row) index base h =
      Yields-bind (place outside rules base row)
        λ placed e. Yields-done (removals-Filed outside rules target version index placed h)

  deleted-Filed :
      (pk : Value) (before : Option Value)
      → Yields FiledAll (deleted outside rules target version pk before)
  unfolding deleted
  deleted-Filed pk before = Yields-bind (derived_id outside rules pk none before) λ base e1.
      Yields-bind (rendered_index outside rules target pk none before) λ index e2.
        Yields-bind (deleted_by outside rules target version rules.fan pk before index base)
          λ ops e3.
            let h = rendered_index-Covered outside rules target version pk none before index e2 in
            Yields-done ((deleted_by-Filed rules.fan pk before index base h).yielded ops e3)

  written_kind-Filed :
      (kind : RowKind) (full : Option (Value × List Text))
      → Yields FiledAll (written_kind outside rules target version kind full)
  unfolding written_kind
  written_kind-Filed (insert pk doc) full = inserted-Filed pk doc
  written_kind-Filed (update pk previous_pk doc unchanged before) none =
      updated-Filed pk previous_pk doc [] before
  written_kind-Filed (update pk previous_pk doc unchanged before) (some (doc', completed)) =
      updated-Filed pk previous_pk doc' completed before
  written_kind-Filed (RowKind.delete pk before) full = deleted-Filed pk before

-- Whatever a changed row becomes, inserted, updated, moved, fanned out, filtered away or deleted, each
-- of its operations names an index that the pattern of the table's TRUNCATE matches, and carries the
-- version of the change.
pub materialize-Filed :
    (outside : Outside) (floats : Floats) (rules : Rules) (target : IndexTarget)
    (version : Option ℕ) (kind : RowKind) (previous : Option Value) (ops : List DocumentOp)
    (left : List Text)
    → materialize outside rules target version floats kind previous ≡ done (ops, left)
    → All (Filed target version) ops
unfolding materialize
materialize-Filed outside floats rules target version kind previous ops left e =
    elim (Bool-cases (refuses rules.append_only kind)) [
      | inl stop ↦ cc (rw stop at e)
      | inr go ↦
          let full = completion rules.rename kind previous in
          let judged = filter_out floats kind (map_option (λ pair. pair.0) full) rules.filter in
          (written_kind-Filed outside rules target version judged full).yielded (ops, left)
            (rw go at e)
    ]
