-- ===== src/Core/Filter/Parser/Total.antt =====
-- With enough fuel the parser takes tokens and notes the columns of what it returns, or refuses.
use pg2osync.Base.{
  ℕ, zero, suc, ◌+◌, ◌*◌, ◌<◌, ◌≡◌, ◌∙◌, true, List, [], ◌∷◌, ◌++◌, append_assoc, length, arith,
}
use pg2osync.Base.Text.{Text, text}
use pg2osync.Core.Filter.Syntax.{Expr, and, or, named}
use pg2osync.Core.Filter.Tokens.{Token}
use pg2osync.Core.Filter.Parser.{
  at_lparen, at_keyword, tail, or_expr, or_more, and_expr, and_more, not_expr, primary,
}
use pg2osync.Core.Filter.Parser.Ends.{
  Ends, returned, Reads, Ends-then, Ends-if, Ends-weaken, Ends-expect_rparen, Ends-comparison,
}

at_keyword-length :
    (k : Text) (ts : List Token) → at_keyword k ts ≡ true → length (tail ts) < length ts
unfolding at_keyword tail
at_keyword-length k [] h = cc
at_keyword-length k (t ∷ ts) h = omega arith

at_lparen-length : (ts : List Token) → at_lparen ts ≡ true → length (tail ts) < length ts
unfolding at_lparen tail
at_lparen-length [] h = cc
at_lparen-length (t ∷ ts) h = omega arith

noted :
    (base : List Text) (left right : Expr) {columns columns' : List Text}
    → columns ≡ base ++ named left
    → columns' ≡ columns ++ named right
    → columns' ≡ base ++ (named left ++ named right)
noted base left right e f = rw (f, e) (append_assoc base (named left) (named right))

module _ (end : ℕ) where
  mutual
    unfolding or_expr named

    pub or_expr-Ends :
        (f : ℕ) (ts : List Token) (columns : List Text)
        → 4 * length ts + 3 < f
        → Ends (Reads 1 (length ts) columns) (or_expr end f ts columns)
    or_expr-Ends zero ts columns h = absurd (omega arith)
    or_expr-Ends (suc f) ts columns h =
        Ends-then _ (and_expr-Ends f ts columns (omega (arith, h))) (λ left ts₁ columns₁ k.
          Ends-weaken (or_more-Ends f columns left ts₁ columns₁ (omega (arith, h, k.0)) k.1)
            (λ e rest columns' m. (omega (arith, k.0, m.0), m.1)))

    or_more-Ends :
        (f : ℕ) (base : List Text) (left : Expr) (ts : List Token) (columns : List Text)
        → 4 * length ts + 3 < f
        → columns ≡ base ++ named left
        → Ends (Reads 0 (length ts) base) (or_more end f left ts columns)
    or_more-Ends zero base left ts columns h e = absurd (omega arith)
    or_more-Ends (suc f) base left ts columns h e =
        Ends-if (at_keyword (text "OR") ts)
          (λ at.
            let fewer = at_keyword-length (text "OR") ts at in
            Ends-then _ (and_expr-Ends f (tail ts) columns (omega (arith, h, fewer)))
              (λ right ts₁ columns₁ k.
                Ends-weaken
                  (or_more-Ends f base (or left right) ts₁ columns₁ (omega (arith, h, fewer, k.0))
                    (noted base left right e k.1))
                  (λ e' rest columns' m. (omega (arith, fewer, k.0, m.0), m.1))))
          (returned (omega arith, e))

    and_expr-Ends :
        (f : ℕ) (ts : List Token) (columns : List Text)
        → 4 * length ts + 2 < f
        → Ends (Reads 1 (length ts) columns) (and_expr end f ts columns)
    and_expr-Ends zero ts columns h = absurd (omega arith)
    and_expr-Ends (suc f) ts columns h =
        Ends-then _ (not_expr-Ends f ts columns (omega (arith, h))) (λ left ts₁ columns₁ k.
          Ends-weaken (and_more-Ends f columns left ts₁ columns₁ (omega (arith, h, k.0)) k.1)
            (λ e rest columns' m. (omega (arith, k.0, m.0), m.1)))

    and_more-Ends :
        (f : ℕ) (base : List Text) (left : Expr) (ts : List Token) (columns : List Text)
        → 4 * length ts + 2 < f
        → columns ≡ base ++ named left
        → Ends (Reads 0 (length ts) base) (and_more end f left ts columns)
    and_more-Ends zero base left ts columns h e = absurd (omega arith)
    and_more-Ends (suc f) base left ts columns h e =
        Ends-if (at_keyword (text "AND") ts)
          (λ at.
            let fewer = at_keyword-length (text "AND") ts at in
            Ends-then _ (not_expr-Ends f (tail ts) columns (omega (arith, h, fewer)))
              (λ right ts₁ columns₁ k.
                Ends-weaken
                  (and_more-Ends f base (and left right) ts₁ columns₁ (omega (arith, h, fewer, k.0))
                    (noted base left right e k.1))
                  (λ e' rest columns' m. (omega (arith, fewer, k.0, m.0), m.1))))
          (returned (omega arith, e))

    not_expr-Ends :
        (f : ℕ) (ts : List Token) (columns : List Text)
        → 4 * length ts + 1 < f
        → Ends (Reads 1 (length ts) columns) (not_expr end f ts columns)
    not_expr-Ends zero ts columns h = absurd (omega arith)
    not_expr-Ends (suc f) ts columns h =
        Ends-if (at_keyword (text "NOT") ts)
          (λ at.
            let fewer = at_keyword-length (text "NOT") ts at in
            Ends-then _ (not_expr-Ends f (tail ts) columns (omega (arith, h, fewer)))
              (λ e ts₁ columns₁ k. returned (omega (arith, fewer, k.0), k.1)))
          (primary-Ends f ts columns (omega (arith, h)))

    primary-Ends :
        (f : ℕ) (ts : List Token) (columns : List Text)
        → 4 * length ts < f
        → Ends (Reads 1 (length ts) columns) (primary end f ts columns)
    primary-Ends zero ts columns h = absurd (omega arith)
    primary-Ends (suc f) ts columns h =
        Ends-if (at_lparen ts)
          (λ at.
            let fewer = at_lparen-length ts at in
            Ends-then _ (or_expr-Ends f (tail ts) columns (omega (arith, h, fewer)))
              (λ e ts₁ columns₁ k.
                Ends-weaken (Ends-expect_rparen e ts₁ columns₁)
                  (λ e' rest columns' m. (omega (arith, fewer, k.0, m.1), rw m.0 (m.2 ∙ k.1)))))
          (Ends-comparison end ts columns)
