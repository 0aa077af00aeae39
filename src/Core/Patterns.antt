-- ===== src/Core/Patterns.antt =====
-- crates/core/src/sink.rs, `index_matches_pattern`: whether an index name fits a pattern with stars.
pub mod Globs
pub mod Meaning
use pg2osync.Base.{
  ℕ, Bool, true, false, ◌||◌, Option, none, some, List, [], ◌∷◌, ◌==◌, if◌then◌else◌,
}
use pg2osync.Base.Text.{Text, text_eq}

-- The literals between the stars, of which there is always a first: `split_once('*')` for the
-- first, and `split('*')` of what follows it for the others.
unfoldable pub literals : Text → Text × List Text
literals [] = ([], [])
literals (c ∷ cs) =
    let (first, others) = literals cs in
    if c == 42 then ([], first ∷ others) else (c ∷ first, others)

-- `str::strip_prefix`
unfoldable pub strip_prefix : Text → Text → Option Text
strip_prefix [] s = some s
strip_prefix (c ∷ cs) [] = none
strip_prefix (c ∷ cs) (d ∷ ds) = let rest = strip_prefix cs ds in if c == d then rest else none

-- `str::ends_with`
unfoldable pub ends_with : Text → Text → Bool
ends_with literal [] = text_eq [] literal
ends_with literal (d ∷ ds) = text_eq (d ∷ ds) literal || ends_with literal ds

or_later : Option Text → Option Text → Option Text
or_later none later = later
or_later (some rest) later = some rest

-- What follows the leftmost occurrence, by `str::find`
unfoldable pub after_first : Text → Text → Option Text
unfolding or_later
after_first literal [] = strip_prefix literal []
after_first literal (d ∷ ds) = or_later (strip_prefix literal (d ∷ ds)) (after_first literal ds)

on_rest : (Text → Bool) → Option Text → Bool
on_rest next none = false
on_rest next (some rest) = next rest

-- The loop over the literals: the last one ends the name.
unfoldable pub match_literals : Text → List Text → Text → Bool
unfolding on_rest
match_literals literal [] rest = ends_with literal rest
match_literals literal (next ∷ others) rest =
    on_rest (match_literals next others) (after_first literal rest)

unfoldable pub match_split : Text → List Text → Text → Bool
unfolding on_rest
match_split pattern' [] name = text_eq pattern' name
match_split head (literal ∷ others) name =
    on_rest (match_literals literal others) (strip_prefix head name)

-- `index_matches_pattern`
unfoldable pub index_matches_pattern : Text → Text → Bool
index_matches_pattern pattern' name =
    let (first, others) = literals pattern' in match_split first others name
