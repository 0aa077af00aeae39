-- ===== src/Engine/Rows/Spread.antt =====
-- What an update of a fanned row leaves in the target: the documents of its new state, and of its old
-- state no others.
use pg2osync.Base.{ℕ, ◌≡◌, Option, none, some, List, []}
use pg2osync.Base.Text.{Text}
use pg2osync.Core.Json.{Value}
use pg2osync.Engine.Mapping.{done, IndexTarget}
use pg2osync.Engine.Mapping.Yields.{Yields}
use pg2osync.Engine.Placing.{Outside}
use pg2osync.Engine.Rows.{Rules, Placed}
use pg2osync.Engine.Rows.Materialize.{Written, derived_id, rendered_index, place, finish}
use pg2osync.Engine.Rows.Materialize.{removals}

module _ (outside : Outside) (rules : Rules) (target : IndexTarget) (version : Option ℕ) where
  record GoneAs (pk row : Value) (w : Written) : Type 0 where
    id : Text
    index : Text
    placed : List Placed
    id_of : derived_id outside rules pk none (some row) ≡ done id
    index_of : rendered_index outside rules target pk none (some row) ≡ done index
    place_of : place outside rules id row ≡ done placed
    writes : w ≡ (removals outside rules version index placed, [])

  record PutAs (pk doc : Value) (w : Written) : Type 0 where
    id : Text
    index : Text
    placed : List Placed
    id_of : derived_id outside rules pk (some doc) none ≡ done id
    index_of : rendered_index outside rules target pk (some doc) none ≡ done index
    place_of : place outside rules id doc ≡ done placed
    writes : w ≡ finish outside rules version index [] placed
