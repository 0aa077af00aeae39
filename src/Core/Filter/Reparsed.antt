-- ===== src/Core/Filter/Reparsed.antt =====
-- What the parser makes of connectives among tokens.
pub mod Comparisons
pub mod Whole
use pg2osync.Base.{
  ℕ, zero, suc, ◌+◌, ◌-◌, ◌*◌, ◌<◌, ◌≤◌, ◌≡◌, refl, sym, ap, ◌∙◌, Bool, true, false, ◌||◌, Option,
  none, some, List, [], ◌∷◌, ◌++◌, append_assoc, append-nil, length, length-append, All, arith,
  Bool-cases, inl, inr, if◌then◌else◌, ◌==◌, ◌&&◌,
}
use pg2osync.Base.Int.{show_int}
use pg2osync.Base.Text.{Text, text}
use pg2osync.Core.Filter.Syntax.{
  Literal, CmpOp, Expr, str, int, float, bool, eq, ne, cmp, is_null, in_list, and, or, named,
}
use pg2osync.Core.Filter.Render.{sql}
use pg2osync.Core.Filter.Tokens.{
  Tok, Token, ident, op, lparen, rparen, comma, upper, is_word, is_any, keywords,
}
use pg2osync.Core.Filter.Pieces.{
  Piece, gap, piece, spelling, text_of, token_at, place, word, open_piece, close_piece,
  literal_piece, not_pieces, list_pieces, pieces, IsName, IsSpellable, IsSpellableLiteral,
  IsSpellableList, text_of-append, place-append, doubled,
}
use pg2osync.Core.Filter.Parser.{
  Parsed, ok, and_then, when_some, keyword, at_lparen, at_rparen, at_keyword, literal_of, tail,
  accept_keyword, expect_rparen, column_of, is_word_operator, is_equality, is_comma, with_literal,
  push_literal, in_items, comparison_rhs, in_list_of, after_is, after_not, word_after, after_tok,
  after_column, comparison, or_expr, or_more, and_expr, and_more, not_expr, primary,
}

abbrev pub token_of : ℕ → Tok → Text → Token
token_of n t s = record { tok = t; offset = n; spelled = s }

abbrev pub keyword_at : ℕ → Text → Token
keyword_at n w = token_of n (ident w) w

-- An operand, a word, an operand, in parentheses.
pub place-connective :
    (start : ℕ) (w : Text) (ps qs : List Piece) (rest : List Token)
    → place start (open_piece ∷ (ps ++ gap ∷ word w ∷ gap ∷ (qs ++ close_piece ∷ []))) ++ rest
      ≡ token_of start lparen (40 ∷ [])
        ∷ (place (start + 1) ps
            ++ keyword_at (start + 1 + length (text_of ps) + 1) w
              ∷ (place (start + 1 + length (text_of ps) + 1 + length w + 1) qs
                  ++ token_of
                      (start + 1 + length (text_of ps) + 1 + length w + 1 + length (text_of qs))
                      rparen
                      (41 ∷ [])
                    ∷ rest))
place-connective start w ps qs rest = simp (place-append, append_assoc)

pub place-not :
    (start : ℕ) (ps : List Piece) (rest : List Token)
    → place start (open_piece ∷ word (text "NOT") ∷ gap ∷ (ps ++ close_piece ∷ [])) ++ rest
      ≡ token_of start lparen (40 ∷ [])
        ∷ keyword_at (start + 1) (text "NOT")
        ∷ (place (start + 1 + 3 + 1) ps
            ++ token_of (start + 1 + 3 + 1 + length (text_of ps)) rparen (41 ∷ []) ∷ rest)
place-not start ps rest = simp (place-append, append_assoc)

-- How much fuel an expression takes.
unfoldable pub need : Expr → ℕ
need (and a b) = 6 + (need a + need b)
need (or a b) = 6 + (need a + need b)
need (Expr.not a) = 6 + need a
need (cmp column o l) = 2
need (is_null column negated) = 2
need (in_list column list negated) = 2

module _ (end : ℕ) where
  -- These tokens are read as this expression, with that much fuel.
  abbrev pub ReadsAs : List Token → Expr → ℕ → Type 0
  ReadsAs ts e f =
      (rest : List Token) (columns : List Text)
      → not_expr end f (ts ++ rest) columns ≡ ok e rest (columns ++ named e)

  pub not_expr-and :
      (a b : Expr) (ts us : List Token) (g m n k : ℕ) (rest : List Token) (columns : List Text)
      → ReadsAs ts a (suc (suc g))
      → ReadsAs us b (suc g)
      → not_expr end
          (suc (suc (suc (suc (suc (suc g))))))
          (token_of m lparen (40 ∷ [])
            ∷ (ts ++ keyword_at n (text "AND") ∷ (us ++ token_of k rparen (41 ∷ []) ∷ rest)))
          columns
        ≡ ok (and a b) rest (columns ++ named (and a b))
  unfolding not_expr at_keyword at_lparen at_rparen keyword tail expect_rparen is_word upper named
  not_expr-and a b ts us g m n k rest columns h i =
      rw (h _ columns, i _ (columns ++ named a), append_assoc columns (named a) (named b)) refl

  pub not_expr-or :
      (a b : Expr) (ts us : List Token) (g m n k : ℕ) (rest : List Token) (columns : List Text)
      → ReadsAs ts a (suc (suc g))
      → ReadsAs us b (suc g)
      → not_expr end
          (suc (suc (suc (suc (suc (suc g))))))
          (token_of m lparen (40 ∷ [])
            ∷ (ts ++ keyword_at n (text "OR") ∷ (us ++ token_of k rparen (41 ∷ []) ∷ rest)))
          columns
        ≡ ok (or a b) rest (columns ++ named (or a b))
  unfolding not_expr at_keyword at_lparen at_rparen keyword tail expect_rparen is_word upper named
  not_expr-or a b ts us g m n k rest columns h i =
      rw (h _ columns, i _ (columns ++ named a), append_assoc columns (named a) (named b)) refl

  pub not_expr-not :
      (a : Expr) (ts : List Token) (g m n k : ℕ) (rest : List Token) (columns : List Text)
      → ReadsAs ts a (suc g)
      → not_expr end
          (suc (suc (suc (suc (suc (suc g))))))
          (token_of m lparen (40 ∷ [])
            ∷ keyword_at n (text "NOT")
            ∷ (ts ++ token_of k rparen (41 ∷ []) ∷ rest))
          columns
        ≡ ok (Expr.not a) rest (columns ++ named (Expr.not a))
  unfolding not_expr at_keyword at_lparen at_rparen keyword tail expect_rparen is_word upper named
  not_expr-not a ts g m n k rest columns h = rw (h _ columns) refl
