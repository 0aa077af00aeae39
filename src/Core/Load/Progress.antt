-- ===== src/Core/Load/Progress.antt =====
-- A load's progress read back from the target, and what a restart concludes from it.
use pg2osync.Base.{◌≡◌, refl, Bool, false, Option, some, List, [], ◌∷◌}
use pg2osync.Base.Text.{Text, text_eq}
use pg2osync.Core.Error.{Result, ok}
use pg2osync.Core.Json.{Value, get_field, insert_field}
use pg2osync.Core.Load.{
  LoadCursor, LoadProgress, ranges, after, items_of, cursor_doc, to_doc, strings_of, strings,
  from_doc, cursor_from, ranges_from, after_from, progress_from, lookup, or_null, as_bool, as_count,
  is_unfinished, stored_progress,
}

strings_of-items_of : (ts : List Text) → strings_of (items_of ts) ≡ some ts
unfolding strings_of items_of
strings_of-items_of [] = refl
strings_of-items_of (t ∷ ts) = rw (strings_of-items_of ts)

from_doc-cursor :
    (cursor : LoadCursor) (finished : Bool)
    → from_doc (to_doc (record { cursor = cursor; finished = finished }))
      ≡ some (record { cursor = cursor; finished = finished })
unfolding from_doc to_doc cursor_doc cursor_from strings as_count as_bool lookup or_null get_field
    insert_field text_eq progress_from ranges_from after_from
from_doc-cursor (ranges boundaries count) finished = rw (strings_of-items_of boundaries)
from_doc-cursor (after key) finished = rw (strings_of-items_of key)

-- The progress of a load is read back from its stored document as it was written.
pub from_doc-to_doc : (p : LoadProgress) → from_doc (to_doc p) ≡ some p
from_doc-to_doc p = from_doc-cursor p.cursor p.finished

-- What a restart may conclude of one table.
pub record IsDone (read_state : Text → Result (Option Value)) (table : Text) : Type 0 where
  pub stored : Option Value
  pub answered : read_state table ≡ ok stored
  pub finished : is_unfinished (stored_progress stored) ≡ false
