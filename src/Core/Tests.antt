-- ===== src/Core/Tests.antt =====
-- The theorems on positions, admitted tables, load progress and index patterns at concrete inputs.
use pg2osync.Base.{
  ◌↔◌, ℕ, Bool, Option, refl, ◌++◌, leb, arith, ◌≡◌, true, false, ◌&&◌, ◌||◌, not, none, some, [],
  ◌∷◌, if◌then◌else◌,
}
use pg2osync.Base.Map.{get}
use pg2osync.Base.Text.{Text, text, pair_eq, pair_key}
use pg2osync.Core.Error.{Result, ok}
use pg2osync.Core.Json.{Value}
use pg2osync.Core.Lsn.{Lsn, hex_digit, hex, fmt, from_str}
use pg2osync.Core.Lsn.RoundTrip.{from_str-fmt}
use pg2osync.Core.Load.{LoadProgress, ranges, to_doc, from_doc, marks_from, load_progress_key}
use pg2osync.Core.Load.Progress.{from_doc-to_doc}
use pg2osync.Core.Load.Marks.{Ascends, marks_from-Ascends}
use pg2osync.Core.Load.Keys.{load_progress_key-collides}
use pg2osync.Core.Patterns.{index_matches_pattern}
use pg2osync.Core.Patterns.Meaning.{Fits, index_matches_pattern-Fits}
use pg2osync.Core.Tables.{
  TableKey, TableSet, contains, add, drop_table, is_append_only, add-lookups, drop_table-lookups,
}

abbrev early : Lsn
early = record { value = 28635816 }

fmt-early : fmt early ≡ text "0/1B4F2A8"
unfolding fmt hex hex_digit
fmt-early = refl

from_str-fmt_example : from_str (fmt early) ≡ ok early
from_str-fmt_example = from_str-fmt early (omega arith)

abbrev users : TableKey
users = (text "public", text "users")

abbrev visits : TableKey
visits = (text "public", text "events")

abbrev admitted : TableSet
admitted = record {
  tables = users ∷ [];
  key_columns = (users, text "id" ∷ []) ∷ [];
  append_only = [];
}

add-lookups_example :
    (contains (add visits [] true admitted) users
      ≡ (contains admitted users || pair_eq visits users))
    × (get users (add visits [] true admitted).key_columns
        ≡ (if pair_eq visits users then some [] else get users admitted.key_columns))
    × (is_append_only (add visits [] true admitted) users
        ≡ (if pair_eq visits users then true else is_append_only admitted users))
add-lookups_example = add-lookups visits users [] true admitted

drop_table-lookups_example :
    (contains (drop_table users admitted) users
      ≡ (contains admitted users && not (pair_eq users users)))
    × (get users (drop_table users admitted).key_columns
        ≡ (if pair_eq users users then none else get users admitted.key_columns))
    × (is_append_only (drop_table users admitted) users
        ≡ (if pair_eq users users then false else is_append_only admitted users))
drop_table-lookups_example = drop_table-lookups users users admitted

abbrev half_way : LoadProgress
half_way = record { cursor = ranges (text "1" ∷ text "500" ∷ []) 1; finished = false }

from_doc-to_doc_example : from_doc (to_doc half_way) ≡ some half_way
from_doc-to_doc_example = from_doc-to_doc half_way

-- A target that holds the finished progress of every table.
abbrev all_done : Text → Result (Option Value)
all_done table = ok (some (to_doc (record half_way { finished = true })))

marks_from-Ascends_example : Ascends 0 (marks_from 3 0)
marks_from-Ascends_example = marks_from-Ascends 3 0 (omega arith)

abbrev is_letter : ℕ → Bool
is_letter c = leb 97 c && leb c 122

load_progress_key-collides_example :
    load_progress_key is_letter
      (text "pg")
      (text "slot")
      (text "a" ++ 46 ∷ (text "b" ++ 95 ∷ text "c"))
    ≡ load_progress_key is_letter
        (text "pg")
        (text "slot")
        ((text "a" ++ 95 ∷ text "b") ++ 46 ∷ text "c")
load_progress_key-collides_example =
    load_progress_key-collides is_letter refl (text "pg") (text "slot") (text "a") (text "b")
      (text "c")

index_matches_pattern-Fits_example :
    (index_matches_pattern (text "events-*-archive") (text "events-2024-archive") ≡ true)
    ↔ Fits (text "events-*-archive") (text "events-2024-archive")
index_matches_pattern-Fits_example =
    index_matches_pattern-Fits (text "events-*-archive") (text "events-2024-archive")
