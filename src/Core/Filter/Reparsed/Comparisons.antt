-- ===== src/Core/Filter/Reparsed/Comparisons.antt =====
-- What the parser makes of a comparison's tokens.
use pg2osync.Base.{
  ℕ, suc, ◌+◌, ◌≡◌, refl, ◌∙◌, Bool, true, false, some, List, [], ◌∷◌, ◌++◌, append_assoc, length,
  All, arith, ◌&&◌,
}
use pg2osync.Base.Text.{Text, text}
use pg2osync.Core.Filter.Syntax.{
  Literal, CmpOp, str, int, float, bool, cmp, is_null, in_list, named,
}
use pg2osync.Core.Filter.Tokens.{Tok, Token, lparen, rparen, upper, is_word, is_any, keywords}
use pg2osync.Core.Filter.Pieces.{
  piece, text_of, place, close_piece, literal_piece, list_pieces, pieces, IsName,
  IsSpellableLiteral, place-append,
}
use pg2osync.Core.Filter.Parser.{
  ok, when_some, keyword, at_lparen, at_rparen, at_keyword, literal_of, tail, accept_keyword,
  expect_rparen, column_of, is_equality, is_comma, with_literal, push_literal, in_items,
  comparison_rhs, in_list_of, after_is, after_not, word_after, after_tok, after_column, comparison,
  not_expr,
}
use pg2osync.Core.Filter.Reparsed.{token_of, keyword_at, ReadsAs}

-- How a literal stands among the tokens.
literal_piece-lexeme :
    (l : Literal)
    → IsSpellableLiteral l
    → (t : Tok) × (s : Text) × (literal_piece l ≡ piece t s)
      × ((n : ℕ) → literal_of (token_of n t s) ≡ some l)
      × ((n : ℕ) → keyword (text "NULL") (token_of n t s) ≡ false)
unfolding literal_of keyword is_word upper
literal_piece-lexeme (str s) h = (_, _, refl, λ n. refl, λ n. refl)
literal_piece-lexeme (int i) h = (_, _, refl, λ n. refl, λ n. refl)
literal_piece-lexeme (float f) h = absurd h
literal_piece-lexeme (bool true) h = (_, _, refl, λ n. refl, λ n. refl)
literal_piece-lexeme (bool false) h = (_, _, refl, λ n. refl, λ n. refl)

in_items-list :
    (l : Literal) (ls : List Literal) (n m : ℕ) (rest : List Token) (columns : List Text)
    → All IsSpellableLiteral (l ∷ ls)
    → in_items (place n (list_pieces (l ∷ ls)) ++ token_of m rparen (41 ∷ []) ∷ rest) columns
      ≡ ok (l ∷ ls) rest columns
unfolding in_items with_literal when_some is_comma expect_rparen at_rparen push_literal
in_items-list l [] n m rest columns h =
    let (t, s, e, is_literal, no_null) = literal_piece-lexeme l h.0 in rw (e, is_literal n) refl
in_items-list l (k ∷ ls) n m rest columns h =
    let (t, s, e, is_literal, no_null) = literal_piece-lexeme l h.0 in
    rw (e, is_literal n, in_items-list k ls (n + length s + 1 + 1) m rest columns h.1) refl

-- A list of literals does not begin with a parenthesis.
at_rparen-list :
    (l : Literal) (ls : List Literal) (n : ℕ) (rest : List Token)
    → All IsSpellableLiteral (l ∷ ls)
    → at_rparen (place n (list_pieces (l ∷ ls)) ++ rest) ≡ false
unfolding at_rparen
at_rparen-list (str s) [] n rest h = refl
at_rparen-list (str s) (k ∷ ls) n rest h = refl
at_rparen-list (int i) [] n rest h = refl
at_rparen-list (int i) (k ∷ ls) n rest h = refl
at_rparen-list (float f) ls n rest h = absurd h.0
at_rparen-list (bool true) [] n rest h = refl
at_rparen-list (bool true) (k ∷ ls) n rest h = refl
at_rparen-list (bool false) [] n rest h = refl
at_rparen-list (bool false) (k ∷ ls) n rest h = refl

and-false : (b : Bool) → (b && false) ≡ false
and-false true = refl
and-false false = refl

no_not : (w : Text) → is_any w keywords ≡ false → is_word w (text "NOT") ≡ false
unfolding is_any
no_not w h = ground arith

IsName-keywords : (w : Text) → IsName w → is_any w keywords ≡ false
IsName-keywords [] h = absurd h
IsName-keywords (c ∷ s) h = h.2

module _ (end : ℕ) where
  -- A comparison is read whole, by two units of fuel.
  pub not_expr-comparison :
      (column : Text) (n g : ℕ) (ts : List Token) (columns : List Text)
      → IsName column
      → at_lparen ts ≡ false
      → not_expr end (suc (suc g)) (keyword_at n column ∷ ts) columns
        ≡ after_column end column ts (columns ++ column ∷ [])
  unfolding not_expr at_keyword keyword at_lparen comparison column_of when_some
  not_expr-comparison column n g ts columns h no_call =
      let names = IsName-keywords column h in rw (no_not column names, names, no_call) refl

  pub ReadsAs-cmp :
      (column : Text) (o : CmpOp) (l : Literal) (n g : ℕ)
      → IsName column
      → IsSpellableLiteral l
      → ReadsAs end (place n (pieces (cmp column o l))) (cmp column o l) (suc (suc g))
  unfolding pieces after_column after_tok comparison_rhs when_some at_lparen named
  ReadsAs-cmp column o l n g h k rest columns =
      let (t, s, e, is_literal, no_null) = literal_piece-lexeme l k in
      rw e (
        not_expr-comparison column n g _ columns h refl
        ∙ rw (no_null _, and-false (is_equality o), is_literal _) refl)

  pub ReadsAs-is_null :
      (column : Text) (negated : Bool) (n g : ℕ)
      → IsName column
      → ReadsAs end
          (place n (pieces (is_null column negated)))
          (is_null column negated)
          (suc (suc g))
  unfolding pieces after_column after_tok word_after after_is accept_keyword at_keyword keyword tail
      is_word upper at_lparen named
  ReadsAs-is_null column true n g h rest columns = not_expr-comparison column n g _ columns h refl
  ReadsAs-is_null column false n g h rest columns = not_expr-comparison column n g _ columns h refl

  pub in_list_of-list :
      (column : Text) (negated : Bool) (l : Literal) (ls : List Literal) (i n m : ℕ)
      (rest : List Token) (columns : List Text)
      → All IsSpellableLiteral (l ∷ ls)
      → in_list_of end column negated
          (token_of i lparen (40 ∷ [])
            ∷ (place n (list_pieces (l ∷ ls)) ++ token_of m rparen (41 ∷ []) ∷ rest))
          columns
        ≡ ok (in_list column (l ∷ ls) negated) rest columns
  unfolding in_list_of at_lparen tail
  in_list_of-list column negated l ls i n m rest columns h =
      rw
        (
          at_rparen-list l ls n (token_of m rparen (41 ∷ []) ∷ rest) h,
          in_items-list l ls n m rest columns h,
        )
        refl

  place-list :
      (ls : List Literal) (n : ℕ) (rest : List Token)
      → place n (list_pieces ls ++ close_piece ∷ []) ++ rest
        ≡ place n (list_pieces ls)
          ++ token_of (n + length (text_of (list_pieces ls))) rparen (41 ∷ []) ∷ rest
  place-list ls n rest = simp (place-append, append_assoc)

  pub ReadsAs-in_list :
      (column : Text) (negated : Bool) (l : Literal) (ls : List Literal) (n g : ℕ)
      → IsName column
      → All IsSpellableLiteral (l ∷ ls)
      → ReadsAs end
          (place n (pieces (in_list column (l ∷ ls) negated)))
          (in_list column (l ∷ ls) negated)
          (suc (suc g))
  unfolding pieces after_column after_tok word_after after_not accept_keyword at_keyword keyword
      tail is_word upper at_lparen named
  ReadsAs-in_list column true l ls n g h k rest columns =
      not_expr-comparison column n g _ columns h refl
      ∙ rw (place-list (l ∷ ls)) (in_list_of-list column true l ls _ _ _ rest _ k)
  ReadsAs-in_list column false l ls n g h k rest columns =
      not_expr-comparison column n g _ columns h refl
      ∙ rw (place-list (l ∷ ls)) (in_list_of-list column false l ls _ _ _ rest _ k)
