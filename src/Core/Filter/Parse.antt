-- ===== src/Core/Filter/Parse.antt =====
-- `Filter::parse`.
pub mod Sorted
pub mod Columns
use Prim.Native.Nat.{Ordering}
use pg2osync.Base.{
  ℕ, ◌+◌, ◌*◌, Bool, true, false, ◌&&◌, ◌||◌, List, [], ◌∷◌, length, leb, ◌==◌, if◌then◌else◌,
}
use pg2osync.Base.Text.{Text, text_eq}
use pg2osync.Core.Filter.Syntax.{Floats, Expr, Filter}
use pg2osync.Core.Filter.Eval.{compare_bytes}
use pg2osync.Core.Filter.Tokens.{Token, Refusal, empty_predicate, extra, describe}
use pg2osync.Core.Filter.Scan.{Tokenized, tokens, refused, tokenize}
use pg2osync.Core.Filter.Parser.{Parsed, ok, failed, out_of_fuel, or_expr}

-- `trim().is_empty()`, of Unicode's White_Space in UTF-8
unfoldable pub is_white : ℕ → Bool
is_white c = (leb 9 c && leb c 13) || c == 32

unfoldable pub is_white2 : ℕ → ℕ → Bool
is_white2 c d = (c == 194) && (d == 133 || d == 160)

unfoldable pub is_white3 : ℕ → ℕ → ℕ → Bool
is_white3 c d e =
    (c == 225 && d == 154 && e == 128)
    || (c == 226 && d == 128 && (leb 128 e && leb e 138 || e == 168 || e == 169 || e == 175))
    || (c == 226 && d == 129 && e == 159)
    || (c == 227 && d == 128 && e == 128)

unfoldable pub is_white_text : Text → Bool
is_white_text [] = true
is_white_text (c ∷ []) = is_white c
is_white_text (c ∷ d ∷ []) =
    let one = is_white_text (d ∷ []) in if is_white c then one else is_white2 c d
is_white_text (c ∷ d ∷ e ∷ s) =
    let one = is_white_text (d ∷ e ∷ s) in
    let two = is_white_text (e ∷ s) in
    let three = is_white_text s in
    if is_white c
    then one
    else (if is_white2 c d then two else (if is_white3 c d e then three else false))

-- `sort` of strings
unfoldable pub not_after : Text → Text → Bool
not_after s t = elim (compare_bytes s t) [ Ordering.gt ↦ false | _ ↦ true ]

unfoldable pub insert_sorted : Text → List Text → List Text
insert_sorted s [] = s ∷ []
insert_sorted s (t ∷ ts) = if not_after s t then s ∷ t ∷ ts else t ∷ insert_sorted s ts

unfoldable pub sort : List Text → List Text
sort [] = []
sort (s ∷ ts) = insert_sorted s (sort ts)

unfoldable pub dedup : List Text → List Text
dedup [] = []
dedup (s ∷ []) = s ∷ []
dedup (s ∷ t ∷ ts) = let others = dedup (t ∷ ts) in if text_eq s t then others else s ∷ others

pub data Outcome : Type 0 where
  filtered : Filter → Outcome
  refusal : Refusal → Outcome
  no_fuel : Outcome

unfoldable pub finish : Parsed Expr → Outcome
finish (ok e [] columns) = filtered (record { expr = e; columns = dedup (sort columns) })
finish (ok e (t ∷ ts) columns) = refusal (extra (describe t) t.offset)
finish (failed why) = refusal why
finish out_of_fuel = no_fuel

-- Fuel above four times the number of tokens.
unfoldable pub parse_tokens : ℕ → Tokenized → Outcome
parse_tokens end (refused why) = refusal why
parse_tokens end (tokens ts) = finish (or_expr end (4 * length ts + 4) ts [])

unfoldable pub parse : Floats → Text → Outcome
parse floats src =
    if is_white_text src
    then refusal empty_predicate
    else parse_tokens (length src) (tokenize floats src)
