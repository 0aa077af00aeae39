-- ===== src/Core/Filter/Parse/Columns.antt =====
-- That `Filter::parse` ends, and what its list of columns is good for.
use pg2osync.Base.{
  ℕ, ◌+◌, ◌*◌, ◌≡◌, ◌≢◌, ap, ◌∙◌, true, List, [], ◌∷◌, length, Bool-cases, inl, inr, arith,
}
use mathlib.Core.Path.{subst}
use pg2osync.Base.Text.{Text, text_eq, text_eq_iff, text_eq_refl}
use pg2osync.Core.Json.{Fields, object, get_field}
use pg2osync.Core.Filter.Syntax.{Floats, Expr, Filter, named}
use pg2osync.Core.Filter.Eval.{matches, is_true}
use pg2osync.Core.Filter.Eval.Columns.{Agree, eval-Agree}
use pg2osync.Core.Filter.Tokens.{Token, Refusal}
use pg2osync.Core.Filter.Scan.{Tokenized, tokens, refused, tokenize}
use pg2osync.Core.Filter.Parser.{Parsed, ok}
use pg2osync.Core.Filter.Parser.Ends.{Ends, returned, rejected, Reads}
use pg2osync.Core.Filter.Parser.Total.{or_expr-Ends}
use pg2osync.Core.Filter.Parse.{
  Outcome, filtered, refusal, no_fuel, finish, parse_tokens, parse, is_white_text,
}
use pg2osync.Core.Filter.Parse.Sorted.{has, Ascending, dedup-sort-Ascending, has-dedup-sort}

-- A filter whose columns are those that it names.
record IsListed (filter : Filter) : Type 0 where
  ascending : Ascending filter.columns
  same : (k : Text) → has k filter.columns ≡ has k (named filter.expr)

data IsFinished : Outcome → Type 0 where
  with_filter : {filter : Filter} → IsListed filter → IsFinished (filtered filter)
  without : {why : Refusal} → IsFinished (refusal why)

finish-ok :
    (e : Expr) (ts : List Token) (columns : List Text)
    → columns ≡ named e
    → IsFinished (finish (ok e ts columns))
unfolding finish
finish-ok e [] columns h = with_filter (record {
  ascending = dedup-sort-Ascending columns;
  same = λ k. has-dedup-sort k columns ∙ ap (has k) h;
})
finish-ok e (t ∷ ts) columns h = without

finish-IsFinished : {r : Parsed Expr} (most : ℕ) → Ends (Reads 1 most []) r → IsFinished (finish r)
finish-IsFinished most (returned {a} {ts} {columns} h) = finish-ok a ts columns h.1
finish-IsFinished most rejected = unfold finish in without

parse-IsFinished : (floats : Floats) (src : Text) → IsFinished (parse floats src)
unfolding parse parse_tokens
parse-IsFinished floats src = elim (Bool-cases (is_white_text src)) [
  | inl blank ↦ rw blank without
  | inr some_text ↦ rw some_text (after (tokenize floats src))
]
  where
    after : (t : Tokenized) → IsFinished (parse_tokens (length src) t)
    after (refused why) = without
    after (tokens ts) =
        finish-IsFinished (length ts)
          (or_expr-Ends (length src) (4 * length ts + 4) ts [] (omega arith))

IsFinished-ne-no_fuel : {o : Outcome} → IsFinished o → o ≢ no_fuel
IsFinished-ne-no_fuel (with_filter h) = cc
IsFinished-ne-no_fuel without = cc

IsFinished-IsListed :
    {o : Outcome} {filter : Filter} → IsFinished o → o ≡ filtered filter → IsListed filter
IsFinished-IsListed (with_filter h) e = subst IsListed (cc) h
IsFinished-IsListed without e = cc

-- Parsing any text ends in a filter or a refusal: it never runs out of fuel.
pub parse-ne-no_fuel : (floats : Floats) (src : Text) → parse floats src ≢ no_fuel
parse-ne-no_fuel floats src = IsFinished-ne-no_fuel (parse-IsFinished floats src)

-- The columns of a parsed filter ascend strictly, each listed once, and are exactly those that its
-- expression names.
pub parse-Ascending :
    (floats : Floats) (src : Text) (filter : Filter)
    → parse floats src ≡ filtered filter
    → Ascending filter.columns × ((k : Text) → has k filter.columns ≡ has k (named filter.expr))
parse-Ascending floats src filter e =
    let listed = IsFinished-IsListed (parse-IsFinished floats src) e in
    (listed.ascending, listed.same)

module _ (doc other : Fields) where
  Agree-has :
      (ks : List Text) (k : Text)
      → Agree doc other ks
      → has k ks ≡ true
      → get_field k doc ≡ get_field k other
  Agree-has [] k h e = cc
  Agree-has (j ∷ ks) k h e = elim (Bool-cases (text_eq j k)) [
    | inl same ↦ rw (← (text_eq_iff j k).0 same) h.0
    | inr differs ↦ Agree-has ks k h.1 (rw differs at e)
  ]

  Agree-of_has :
      (ks js : List Text)
      → ((k : Text) → has k js ≡ true → has k ks ≡ true)
      → Agree doc other ks
      → Agree doc other js
  Agree-of_has ks [] sub h = tt
  Agree-of_has ks (j ∷ js) sub h = (
    Agree-has ks j h (sub j (rw (text_eq_refl j))),
    Agree-of_has ks js (λ k e. sub k (ground (arith, e))) h,
  )

module _ (floats : Floats) (doc other : Fields) where
  -- A parsed filter decides two rows alike if they agree on its columns, present or not.
  pub matches-Agree :
      (src : Text) (filter : Filter)
      → parse floats src ≡ filtered filter
      → Agree doc other filter.columns
      → matches floats filter (object doc) ≡ matches floats filter (object other)
  unfolding matches
  matches-Agree src filter e h =
      let (ascending, same) = parse-Ascending floats src filter e in
      let agree =
        Agree-of_has doc other filter.columns (named filter.expr) (λ k at. same k ∙ at) h in
      ap is_true (eval-Agree floats doc other filter.expr agree)
