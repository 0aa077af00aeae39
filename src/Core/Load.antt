-- ===== src/Core/Load.antt =====
-- crates/core/src/load.rs: how far an initial load got, what a restart makes of it, the marks that
-- loaders hand out, and what one run covers.
pub mod Progress
pub mod Marks
pub mod Keys
use pg2osync.Base.{
  ℕ, zero, suc, ◌+◌, ◌-◌, ◌%◌, min, Bool, true, false, not, Option, none, some, List, [], ◌∷◌,
  if◌then◌else◌, ◌==◌, ◌||◌, ◌++◌, map,
}
use pg2osync.Base.Text.{Text, text, text_eq}
use pg2osync.Core.Error.{Result, ok, err, ◌>>=◌}
use pg2osync.Core.Json.{
  Value, Items, Fields, null, bool, number, string, array, object, nil, cons, end, field, Number,
  pos, get_field, insert_field,
}

pub data LoadCursor : Type 0 where
  -- the boundaries, and how many leading ranges are written
  ranges : List Text → ℕ → LoadCursor
  -- the last key that is written
  after : List Text → LoadCursor

pub record LoadProgress : Type 0 where
  pub cursor : LoadCursor
  pub finished : Bool

-- `json!` of a `Vec<String>`
unfoldable pub items_of : List Text → Items
items_of [] = nil
items_of (t ∷ ts) = cons (string t) (items_of ts)

unfoldable pub cursor_doc : LoadCursor → Fields
unfolding items_of
cursor_doc (ranges boundaries count) =
    field (text "boundaries") (array (items_of boundaries))
      (field (text "done") (number (pos count)) end)
cursor_doc (after key) = field (text "after") (array (items_of key)) end

-- `LoadProgress::to_doc`
unfoldable pub to_doc : LoadProgress → Value
unfolding cursor_doc insert_field text_eq
to_doc p = object (insert_field (text "finished") (bool p.finished) (cursor_doc p.cursor))

-- `Value::get` with a key, and `Value`'s index, which is null where the key is not there
lookup : Text → Value → Option Value
lookup k (object fields) = get_field k fields
lookup k _ = none

or_null : Option Value → Value
or_null none = null
or_null (some v) = v

as_bool : Value → Option Bool
as_bool (bool b) = some b
as_bool _ = none

-- `as_u64`
as_count : Value → Option ℕ
as_count (number (pos n)) = some n
as_count _ = none

strings_of : Items → Option (List Text)
strings_of nil = some []
strings_of (cons (string t) items) = elim (strings_of items) [
  | none ↦ none
  | some ts ↦ some (t ∷ ts)
]
strings_of (cons _ items) = none

-- `strings`
unfoldable pub strings : Value → Option (List Text)
unfolding strings_of
strings (array items) = strings_of items
strings _ = none

ranges_from : Option (List Text) → Option ℕ → Option LoadCursor
ranges_from none count = none
ranges_from (some boundaries) none = none
ranges_from (some boundaries) (some count) = some (ranges boundaries count)

after_from : Option (List Text) → Option LoadCursor
after_from none = none
after_from (some key) = some (after key)

cursor_from : Option Value → Value → Option LoadCursor
unfolding ranges_from after_from lookup or_null as_count strings
cursor_from (some key) src = after_from (strings key)
cursor_from none src =
    ranges_from (strings (or_null (lookup (text "boundaries") src)))
      (as_count (or_null (lookup (text "done") src)))

progress_from : Option Bool → Option LoadCursor → Option LoadProgress
progress_from none cursor = none
progress_from (some finished) none = none
progress_from (some finished) (some cursor) = some (record { cursor = cursor; finished = finished })

-- `LoadProgress::from_doc`
unfoldable pub from_doc : Value → Option LoadProgress
unfolding progress_from cursor_from lookup or_null as_bool get_field text_eq
from_doc src =
    progress_from (as_bool (or_null (lookup (text "finished") src)))
      (cursor_from (lookup (text "after") src) src)

-- Whether what is stored of a table says that its load is not finished.
unfoldable pub is_unfinished : Option LoadProgress → Bool
is_unfinished none = false
is_unfinished (some p) = not p.finished

unfoldable pub stored_progress : Option Value → Option LoadProgress
stored_progress none = none
stored_progress (some doc) = from_doc doc

-- `unfinished`, with the target's answers to `read_state` for each table
module _ (read_state : Text → Result (Option Value)) where
  unfoldable pub unfinished : List Text → Result Bool
  unfolding is_unfinished stored_progress
  unfinished [] = ok false
  unfinished (table ∷ tables) = do
    stored ← read_state table
    let rest = unfinished tables
    if is_unfinished (stored_progress stored) then ok true else rest

-- What one run covers; the filters, and the sequence of marks, are the loader's.
pub record LoadScope : Type 0 where
  pub only : Option Text
  pub filter : Option Text
  pub resumable : Bool

-- `LoadScope::initial_load`
unfoldable pub initial_load : LoadScope
initial_load = record { only = none; filter = none; resumable = true }

-- `LoadScope::added_table`
unfoldable pub added_table : Text → LoadScope
added_table table = record { only = some table; filter = none; resumable = true }

-- `LoadScope::resnapshot`
unfoldable pub resnapshot : Text → Option Text → LoadScope
resnapshot table filter = record { only = some table; filter = filter; resumable = false }

-- `LoadScope::covers`
unfoldable pub covers : LoadScope → Text → Bool
covers scope table = elim scope.only [ none ↦ true | some only ↦ text_eq only table ]

-- `MarkSequence::next` at this counter: the mark, and the counter after it
abbrev pub word : ℕ
word = 18_446_744_073_709_551_616

unfoldable pub next_mark : ℕ → ℕ × ℕ
next_mark c = (min (c + 1) (word - 1), (c + 1) % word)

-- The marks of so many calls, in their order.
unfoldable pub marks_from : ℕ → ℕ → List ℕ
unfolding next_mark
marks_from zero c = []
marks_from (suc n) c = let (mark, c') = next_mark c in mark ∷ marks_from n c'

-- `load_progress_key`, on texts as lists of characters; the parameter is `char::is_alphanumeric`.
module _ (is_alphanumeric : ℕ → Bool) where
  unfoldable pub tame_char : ℕ → ℕ
  tame_char c = if is_alphanumeric c || (c == 45 || c == 95) then c else 95

  unfoldable pub tame : Text → Text
  unfolding tame_char
  tame t = map tame_char t

  unfoldable pub load_progress_key : Text → Text → Text → Text
  load_progress_key source stream table =
      text "load-" ++ (tame source ++ (45 ∷ (tame stream ++ (45 ∷ tame table))))
