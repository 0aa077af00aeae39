-- ===== src/Engine/Placing/FanOuts.antt =====
-- crates/engine/src/mapping.rs, `fan_out_docs`: the documents that one row becomes, an element of a
-- column each.
use pg2osync.Base.{Option, none, some, List, [], ◌∷◌}
use pg2osync.Base.Text.{Text, text_key}
use pg2osync.Core.Json.{
  Value, Items, Fields, null, string, array, object, nil, cons, get_field, insert_field,
}
use pg2osync.Engine.Mapping.{no_elements, no_row, Attempt, done, refused, ◌>>=◌, render_template}
use pg2osync.Engine.Placing.{Outside, FanOut, remove_field, extended}

module _ (outside : Outside) where
  open outside use {to_json, cut}

  unfoldable pub strings : List Text → Items
  strings [] = nil
  strings (s ∷ ss) = cons (string s) (strings ss)

  -- The elements of a fanned column: none where the column is null or not there.
  pub data Fanned : Type 0 where
    nothing the_row : Fanned
    elements : Items → Fanned
    bad_column : Fanned

  unfoldable pub fanned : Option Value → Option Text → Fanned
  fanned none by = nothing
  fanned (some null) by = the_row
  fanned (some (array items)) none = elements items
  fanned (some (string s)) (some by) = elements (strings (cut by s))
  fanned (some _) by = bad_column

  unfoldable pub element_doc : Text → Fields → Value → Fields
  element_doc column parent (object fs) = extended (remove_field column parent) fs
  element_doc column parent v = insert_field column v (remove_field column parent)

  unfoldable pub element_docs : FanOut → Fields → Items → Attempt (List (Text × Value))
  element_docs rule parent nil = done []
  element_docs rule parent (cons v items) =
      let child = object (element_doc rule.column parent v) in
      render_template to_json rule.id child >>= λ id.
      element_docs rule parent items >>= λ others. done ((id, child) ∷ others)

  unfoldable pub fanned_docs : FanOut → Text → Fields → Fanned → Attempt (List (Text × Value))
  fanned_docs rule base doc nothing = done []
  fanned_docs rule base doc the_row = done ((base, object doc) ∷ [])
  fanned_docs rule base doc (elements items) = element_docs rule doc items
  fanned_docs rule base doc bad_column = refused (no_elements rule.column)

  -- `fan_out_docs`
  unfoldable pub fan_out_docs : FanOut → Text → Value → Attempt (List (Text × Value))
  fan_out_docs rule base (object doc) =
      fanned_docs rule base doc (fanned (get_field rule.column doc) rule.by)
  fan_out_docs rule base _ = refused no_row
