-- ===== src/Core/Filter/Reparsed/Whole.antt =====
-- What the parser makes of a rendering's tokens: the expression.
use pg2osync.Base.{ℕ, zero, suc, ◌+◌, ◌-◌, ◌≤◌, ◌≡◌, [], ◌∷◌, arith}
use pg2osync.Base.Text.{text}
use pg2osync.Core.Filter.Syntax.{Expr, cmp, is_null, in_list, and, or}
use pg2osync.Core.Filter.Pieces.{place, pieces, IsSpellable}
use pg2osync.Core.Filter.Reparsed.{
  place-connective, place-not, need, ReadsAs, not_expr-and, not_expr-or, not_expr-not,
}
use pg2osync.Core.Filter.Reparsed.Comparisons.{ReadsAs-cmp, ReadsAs-is_null, ReadsAs-in_list}

module _ (end : ℕ) where
  -- With fuel for it, an expression is read from its tokens, and they are all that is taken.
  pub ReadsAs-pieces :
      (e : Expr) (n f : ℕ) → IsSpellable e → need e ≤ f → ReadsAs end (place n (pieces e)) e f
  unfolding need pieces
  ReadsAs-pieces (cmp column o l) n zero h enough = absurd (omega (arith, enough))
  ReadsAs-pieces (cmp column o l) n (suc zero) h enough = absurd (omega (arith, enough))
  ReadsAs-pieces (cmp column o l) n (suc (suc g)) h enough = ReadsAs-cmp end column o l n g h.0 h.1
  ReadsAs-pieces (is_null column negated) n zero h enough = absurd (omega (arith, enough))
  ReadsAs-pieces (is_null column negated) n (suc zero) h enough = absurd (omega (arith, enough))
  ReadsAs-pieces (is_null column negated) n (suc (suc g)) h enough =
      ReadsAs-is_null end column negated n g h
  ReadsAs-pieces (in_list column list negated) n zero h enough = absurd (omega (arith, enough))
  ReadsAs-pieces (in_list column list negated) n (suc zero) h enough =
      absurd (omega (arith, enough))
  ReadsAs-pieces (in_list column [] negated) n (suc (suc g)) h enough = absurd h.1
  ReadsAs-pieces (in_list column (l ∷ ls) negated) n (suc (suc g)) h enough =
      ReadsAs-in_list end column negated l ls n g h.0 h.1
  ReadsAs-pieces (and a b) n f h enough = λ rest columns.
      let six : f ≡ suc (suc (suc (suc (suc (suc (f - 6)))))) = omega (arith, enough) in
      rw (place-connective n (text "AND") (pieces a) (pieces b) rest, six)
        (not_expr-and end a b _ _ (f - 6) _ _ _ rest columns
          (ReadsAs-pieces a (n + 1) (suc (suc (f - 6))) h.0 (omega (arith, enough)))
          (ReadsAs-pieces b _ (suc (f - 6)) h.1 (omega (arith, enough))))
  ReadsAs-pieces (or a b) n f h enough = λ rest columns.
      let six : f ≡ suc (suc (suc (suc (suc (suc (f - 6)))))) = omega (arith, enough) in
      rw (place-connective n (text "OR") (pieces a) (pieces b) rest, six)
        (not_expr-or end a b _ _ (f - 6) _ _ _ rest columns
          (ReadsAs-pieces a (n + 1) (suc (suc (f - 6))) h.0 (omega (arith, enough)))
          (ReadsAs-pieces b _ (suc (f - 6)) h.1 (omega (arith, enough))))
  ReadsAs-pieces (Expr.not a) n f h enough = λ rest columns.
      let six : f ≡ suc (suc (suc (suc (suc (suc (f - 6)))))) = omega (arith, enough) in
      rw (place-not n (pieces a) rest, six)
        (not_expr-not end a _ (f - 6) _ _ _ rest columns
          (ReadsAs-pieces a _ (suc (f - 6)) h (omega (arith, enough))))
