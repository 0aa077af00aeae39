-- ===== src/Engine/Rows/Named.antt =====
-- The id that an update takes for the old document's is the one that it was written under.
use pg2osync.Base.{
  ◌≡◌, ◌≢◌, refl, sym, ap, ◌∙◌, Bool, true, false, Option, none, some, List, [], Bool-cases, inl,
  inr,
}
use pg2osync.Base.Text.{Text}
use pg2osync.Core.Json.{Value, Fields, object}
use pg2osync.Engine.Mapping.{
  done, IdTemplate, column_names, parse_template, render_template, render_template_from_pk,
}
use pg2osync.Engine.Mapping.Keyed.{KeyOf, parse_template-KeyOf}
use pg2osync.Engine.Placing.{Outside, pk_to_id}
use pg2osync.Engine.Rows.{Rules, value_or, ok, render_for_row}
use pg2osync.Engine.Rows.Materialize.{map_option, and_then, content_or_key, id_from, old_id_by}

-- The columns of a row's key name its document wherever the template says that the key is enough.
pub data NamedBy (keys : List Text) (doc : Fields) (pk : Value) : Option IdTemplate → Type 0 where
  by_key : NamedBy keys doc pk none
  by_template :
      (spec : Text) {t : IdTemplate}
      → parse_template spec keys ≡ done t
      → (t.pk_only ≡ true → column_names t.parts ≢ [])
      → KeyOf keys doc pk
      → NamedBy keys doc pk (some t)

module _ (outside : Outside) (rules : Rules) where
  content_or_key-before :
      (append_only : Bool) (pk doc row : Value)
      → content_or_key outside append_only pk (some doc) (some row)
        ≡ content_or_key outside append_only pk (some doc) none
  unfolding content_or_key
  content_or_key-before false pk doc row = refl
  content_or_key-before true pk doc row = refl

  pub id_from-before :
      (template : Option IdTemplate) (pk doc row : Value)
      → id_from outside rules template pk (some doc) (some row)
        ≡ id_from outside rules template pk (some doc) none
  unfolding id_from render_for_row
  id_from-before none pk doc row = ap done (content_or_key-before rules.append_only pk doc row)
  id_from-before (some t) pk doc row = refl

  pub by_key-id :
      (pk : Value) (doc before : Option Value) {id : Text}
      → rules.append_only ≡ false
      → id_from outside rules none pk doc before ≡ done id
      → pk_to_id outside pk ≡ id
  unfolding id_from content_or_key
  by_key-id pk doc before keyed e = cc (rw keyed at e)

  pub by_template-id :
      (keys : List Text) (doc : Fields) (pk : Value) {t : IdTemplate}
      → NamedBy keys doc pk (some t)
      → t.pk_only ≡ true
      → render_template_from_pk outside.to_json t pk
        ≡ render_template outside.to_json t (object doc)
  by_template-id keys doc pk (by_template spec {t} parsed some_name key) only =
      parse_template-KeyOf outside.to_json spec keys t doc pk parsed only (some_name only) key

  -- The old document's id, as the update tells it, is the one that it was written under.
  pub old_id_by-same :
      (template : Option IdTemplate) (keys : List Text) (pk : Value) (previous_pk : Option Value)
      (row doc : Fields) (old base : Text)
      → rules.append_only ≡ false
      → NamedBy keys row (value_or previous_pk pk) template
      → NamedBy keys doc pk template
      → id_from outside rules template (value_or previous_pk pk) none (some (object row)) ≡ done old
      → id_from outside rules template pk (some (object doc)) none ≡ done base
      → value_or (old_id_by outside rules template previous_pk (some (object row))) base ≡ old
  unfolding old_id_by value_or map_option id_from render_for_row ok and_then
  old_id_by-same none keys pk none row doc old base keyed by_key by_key e e' =
      sym (by_key-id pk (some (object doc)) none keyed e')
      ∙ by_key-id pk none (some (object row)) keyed e
  old_id_by-same none keys pk (some p) row doc old base keyed by_key by_key e e' =
      by_key-id p none (some (object row)) keyed e
  old_id_by-same (some t) keys pk previous_pk row doc old base keyed named named' e e' =
      elim (Bool-cases t.pk_only) [
        | inr wide ↦ simp (wide, e)
        | inl only ↦ by_previous previous_pk named e only
      ]
    where
      by_previous :
          (p : Option Value)
          → NamedBy keys row (value_or p pk) (some t)
          → render_template outside.to_json t (object row) ≡ done old
          → t.pk_only ≡ true
          → value_or (old_id_by outside rules (some t) p (some (object row))) base ≡ old
      by_previous none n e1 only =
          let here = by_template-id keys doc pk named' only in
          let there = by_template-id keys row pk n only in
          let same : done base ≡ done old = sym e' ∙ (sym here ∙ (there ∙ e1)) in
          let same' : base ≡ old = cc same in simp (only, same')
      by_previous (some p) n e1 only = simp (only, by_template-id keys row p n only, e1)
