-- ===== src/Core/Filter/Lexed/Rendered.antt =====
-- What the tokenizer makes of a rendering: its lexemes, each where it stands.
use pg2osync.Base.{refl, Bool, true, false, List, [], ◌∷◌, ◌++◌, All}
use pg2osync.Base.Int.{show_int}
use pg2osync.Base.Text.{Text, text}
use pg2osync.Core.Filter.Syntax.{
  Floats, Literal, Expr, str, int, float, bool, cmp, is_null, in_list, and, or,
}
use pg2osync.Core.Filter.Render.{sql}
use pg2osync.Core.Filter.Tokens.{Tok, op, comma}
use pg2osync.Core.Filter.Pieces.{
  Piece, gap, piece, word, open_piece, close_piece, literal_piece, not_pieces, list_pieces, pieces,
  IsName, IsSpellable, IsSpellableLiteral, doubled,
}
use pg2osync.Core.Filter.Lexed.{Stops, scan-str, scan-int}
use pg2osync.Core.Filter.Lexed.Sequences.{
  Lexes, LexesOne, IsWord, true_keyword, false_keyword, not_keyword, null_keyword, is_keyword,
  in_keyword, and_keyword, or_keyword, IsWord-IsName, Lexes-append, Lexes-cons, Lexes-none,
  Lexes-one, one_piece, LexesOne-piece, LexesOne-gap, LexesOne-open, LexesOne-close, LexesOne-comma,
  LexesOne-word, LexesOne-op,
}

module _ (floats : Floats) where
  LexesOne-literal :
      (l : Literal) (rest : Text)
      → IsSpellableLiteral l
      → Stops rest
      → LexesOne floats (literal_piece l) rest
  LexesOne-literal (str s) rest h stops =
      LexesOne-piece floats (Tok.str s) 39 (doubled s ++ 39 ∷ []) rest
        (λ start. scan-str floats s rest start stops)
  LexesOne-literal (int i) rest h stops = record {
    first = λ start.
        let (c, s, e, k) = scan-int floats i rest start h stops in
        one_piece floats (Tok.int i) (show_int i) c s rest start e k;
  }
  LexesOne-literal (float f) rest h stops = absurd h
  LexesOne-literal (bool true) rest h stops =
      LexesOne-word floats (text "TRUE") rest true_keyword stops
  LexesOne-literal (bool false) rest h stops =
      LexesOne-word floats (text "FALSE") rest false_keyword stops

  Lexes-word : (w rest : Text) → IsWord w → Stops rest → Lexes floats (word w ∷ []) rest
  Lexes-word w rest h stops = Lexes-one floats (word w) rest (LexesOne-word floats w rest h stops)

  Lexes-not_pieces : (negated : Bool) (rest : Text) → Lexes floats (not_pieces negated) rest
  Lexes-not_pieces true rest =
      Lexes-cons floats (word (text "NOT")) (gap ∷ []) rest
        (LexesOne-word floats (text "NOT") (32 ∷ rest) not_keyword refl)
        (Lexes-one floats gap rest (LexesOne-gap floats rest))
  Lexes-not_pieces false rest = Lexes-none floats rest

  Lexes-list :
      (list : List Literal) (rest : Text)
      → All IsSpellableLiteral list
      → Stops rest
      → Lexes floats (list_pieces list) rest
  Lexes-list [] rest h stops = Lexes-none floats rest
  Lexes-list (l ∷ []) rest h stops =
      Lexes-one floats (literal_piece l) rest (LexesOne-literal l rest h.0 stops)
  Lexes-list (l ∷ m ∷ ms) rest h stops =
      Lexes-cons floats (literal_piece l) _ rest (LexesOne-literal l _ h.0 refl) (
        Lexes-cons floats (piece comma (44 ∷ [])) _ rest (LexesOne-comma floats _) (
          Lexes-cons floats gap _ rest (LexesOne-gap floats _)
            (Lexes-list (m ∷ ms) rest h.1 stops)))

  -- A name, a blank, and pieces that begin after it.
  Lexes-column :
      (column : Text) (ps : List Piece) (rest : Text)
      → IsName column
      → Lexes floats ps rest
      → Lexes floats (word column ∷ gap ∷ ps) rest
  Lexes-column column ps rest h k =
      Lexes-cons floats (word column) (gap ∷ ps) rest
        (LexesOne-word floats column _ (IsWord-IsName column h) refl)
        (Lexes-cons floats gap ps rest (LexesOne-gap floats _) k)

  -- Two operands and the word between them, in parentheses.
  Lexes-connective :
      (w : Text) (ps qs : List Piece) (rest : Text)
      → IsWord w
      → ((more : Text) → Stops more → Lexes floats ps more)
      → ((more : Text) → Stops more → Lexes floats qs more)
      → Lexes floats (open_piece ∷ (ps ++ gap ∷ word w ∷ gap ∷ (qs ++ close_piece ∷ []))) rest
  Lexes-connective w ps qs rest h left right =
      Lexes-cons floats open_piece _ rest (LexesOne-open floats _) (
        Lexes-append floats ps _ rest (left _ refl) (
          Lexes-cons floats gap _ rest (LexesOne-gap floats _) (
            Lexes-cons floats (word w) _ rest (LexesOne-word floats w _ h refl) (
              Lexes-cons floats gap _ rest (LexesOne-gap floats _) (
                Lexes-append floats qs (close_piece ∷ []) rest (right _ refl)
                  (Lexes-one floats close_piece rest (LexesOne-close floats rest)))))))

  pub Lexes-pieces :
      (e : Expr) (rest : Text) → IsSpellable e → Stops rest → Lexes floats (pieces e) rest
  unfolding pieces
  Lexes-pieces (cmp column o l) rest h stops = Lexes-column column _ rest h.0 (
      Lexes-cons floats (piece (op o) (sql o)) (gap ∷ literal_piece l ∷ []) rest
        (LexesOne-op floats o _)
        (Lexes-cons floats gap (literal_piece l ∷ []) rest (LexesOne-gap floats _)
          (Lexes-one floats (literal_piece l) rest (LexesOne-literal l rest h.1 stops))))
  Lexes-pieces (is_null column negated) rest h stops = Lexes-column column _ rest h (
      Lexes-cons floats (word (text "IS")) _ rest
        (LexesOne-word floats (text "IS") _ is_keyword refl)
        (Lexes-cons floats gap _ rest (LexesOne-gap floats _) (
          Lexes-append floats (not_pieces negated) _ rest (Lexes-not_pieces negated _)
            (Lexes-word (text "NULL") rest null_keyword stops))))
  Lexes-pieces (in_list column [] negated) rest h stops = absurd h.1
  Lexes-pieces (in_list column (l ∷ ls) negated) rest h stops = Lexes-column column _ rest h.0 (
      Lexes-append floats (not_pieces negated) _ rest (Lexes-not_pieces negated _) (
        Lexes-cons floats (word (text "IN")) _ rest
          (LexesOne-word floats (text "IN") _ in_keyword refl)
          (Lexes-cons floats gap _ rest (LexesOne-gap floats _) (
            Lexes-cons floats open_piece _ rest (LexesOne-open floats _) (
              Lexes-append floats (list_pieces (l ∷ ls)) (close_piece ∷ []) rest
                (Lexes-list (l ∷ ls) _ h.1 refl)
                (Lexes-one floats close_piece rest (LexesOne-close floats rest)))))))
  Lexes-pieces (and a b) rest h stops =
      Lexes-connective (text "AND") (pieces a) (pieces b) rest and_keyword
        (λ more. Lexes-pieces a more h.0) (λ more. Lexes-pieces b more h.1)
  Lexes-pieces (or a b) rest h stops =
      Lexes-connective (text "OR") (pieces a) (pieces b) rest or_keyword
        (λ more. Lexes-pieces a more h.0) (λ more. Lexes-pieces b more h.1)
  Lexes-pieces (Expr.not a) rest h stops =
      Lexes-cons floats open_piece _ rest (LexesOne-open floats _) (
        Lexes-cons floats (word (text "NOT")) _ rest
          (LexesOne-word floats (text "NOT") _ not_keyword refl)
          (Lexes-cons floats gap _ rest (LexesOne-gap floats _) (
            Lexes-append floats (pieces a) (close_piece ∷ []) rest (Lexes-pieces a _ h refl)
              (Lexes-one floats close_piece rest (LexesOne-close floats rest)))))
