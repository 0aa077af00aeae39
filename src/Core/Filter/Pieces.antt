-- ===== src/Core/Filter/Pieces.antt =====
-- A rendering as a sequence of pieces, its lexemes and the blanks between them, in the dialect
-- that leaves names as they are and doubles the quotes of strings.
use pg2osync.Base.{
  ℕ, ◌+◌, ◌≡◌, refl, sym, ap, ◌∙◌, Bool, true, false, List, [], ◌∷◌, ◌++◌, map, append_assoc,
  append-nil, length, length-append, All, arith, ◌==◌, if◌then◌else◌,
}
use pg2osync.Base.Int.{show_int, Fits}
use pg2osync.Base.Text.{Text, text}
use pg2osync.Core.Filter.Syntax.{
  Floats, Literal, Expr, str, int, float, bool, cmp, is_null, in_list, and, or,
}
use pg2osync.Core.Filter.Render.{SqlDialect, sql, join_comma, not_word, render_literal, render}
use pg2osync.Core.Filter.Tokens.{Tok, Token, ident, op, lparen, rparen, comma, is_any, keywords}
use pg2osync.Core.Filter.Scan.{starts_word, in_word}

unfoldable pub doubled : Text → Text
doubled [] = []
doubled (c ∷ s) = let rest = doubled s in if c == 39 then 39 ∷ 39 ∷ rest else c ∷ rest

abbrev pub plain_dialect : SqlDialect
plain_dialect = record { quote_ident = λ name. name; quote_str = λ s. 39 ∷ (doubled s ++ 39 ∷ []) }

pub data Piece : Type 0 where
  gap : Piece
  -- a lexeme and how it is spelled
  piece : Tok → Text → Piece

abbrev pub spelling : Piece → Text
spelling gap = 32 ∷ []
spelling (piece t s) = s

abbrev pub text_of : List Piece → Text
text_of [] = []
text_of (p ∷ ps) = spelling p ++ text_of ps

abbrev pub token_at : ℕ → Piece → List Token
token_at start gap = []
token_at start (piece t s) = record { tok = t; offset = start; spelled = s } ∷ []

-- The tokens of pieces that begin at this offset.
abbrev pub place : ℕ → List Piece → List Token
place start [] = []
place start (p ∷ ps) = token_at start p ++ place (start + length (spelling p)) ps

abbrev pub word : Text → Piece
word s = piece (ident s) s

abbrev pub open_piece : Piece
open_piece = piece lparen (40 ∷ [])

abbrev pub close_piece : Piece
close_piece = piece rparen (41 ∷ [])

abbrev pub literal_piece : Literal → Piece
literal_piece (str s) = piece (Tok.str s) (39 ∷ (doubled s ++ 39 ∷ []))
literal_piece (int i) = piece (Tok.int i) (show_int i)
literal_piece (float f) = gap
literal_piece (bool true) = word (text "TRUE")
literal_piece (bool false) = word (text "FALSE")

abbrev pub not_pieces : Bool → List Piece
not_pieces true = word (text "NOT") ∷ gap ∷ []
not_pieces false = []

abbrev pub list_pieces : List Literal → List Piece
list_pieces [] = []
list_pieces (l ∷ []) = literal_piece l ∷ []
list_pieces (l ∷ m ∷ ms) = literal_piece l ∷ piece comma (44 ∷ []) ∷ gap ∷ list_pieces (m ∷ ms)

unfoldable pub pieces : Expr → List Piece
pieces (cmp column o l) = word column ∷ gap ∷ piece (op o) (sql o) ∷ gap ∷ literal_piece l ∷ []
pieces (is_null column negated) =
    word column ∷ gap ∷ word (text "IS") ∷ gap ∷ (not_pieces negated ++ word (text "NULL") ∷ [])
pieces (in_list column list negated) =
    word column
    ∷ gap
    ∷ (not_pieces negated
        ++ word (text "IN") ∷ gap ∷ open_piece ∷ (list_pieces list ++ close_piece ∷ []))
pieces (and a b) =
    open_piece ∷ (pieces a ++ gap ∷ word (text "AND") ∷ gap ∷ (pieces b ++ close_piece ∷ []))
pieces (or a b) =
    open_piece ∷ (pieces a ++ gap ∷ word (text "OR") ∷ gap ∷ (pieces b ++ close_piece ∷ []))
pieces (Expr.not a) = open_piece ∷ word (text "NOT") ∷ gap ∷ (pieces a ++ close_piece ∷ [])

-- What the grammar can spell: names that are words and no keywords, integers of 64 bits, and lists
-- that are not empty. A fraction may be shown as an integer, so that it is left out.
abbrev pub IsName : Text → Type 0
IsName [] = ⊥
IsName (c ∷ s) =
    (starts_word c ≡ true) × All (λ d. in_word d ≡ true) s × (is_any (c ∷ s) keywords ≡ false)

abbrev pub IsSpellableLiteral : Literal → Type 0
IsSpellableLiteral (str s) = Unit
IsSpellableLiteral (int i) = Fits 63 i
IsSpellableLiteral (float f) = ⊥
IsSpellableLiteral (bool b) = Unit

abbrev pub IsSpellableList : List Literal → Type 0
IsSpellableList [] = ⊥
IsSpellableList (l ∷ ls) = IsSpellableLiteral l × All IsSpellableLiteral ls

abbrev pub IsSpellable : Expr → Type 0
IsSpellable (cmp column o l) = IsName column × IsSpellableLiteral l
IsSpellable (is_null column negated) = IsName column
IsSpellable (in_list column list negated) = IsName column × IsSpellableList list
IsSpellable (and a b) = IsSpellable a × IsSpellable b
IsSpellable (or a b) = IsSpellable a × IsSpellable b
IsSpellable (Expr.not a) = IsSpellable a

pub text_of-append : (ps qs : List Piece) → text_of (ps ++ qs) ≡ text_of ps ++ text_of qs
text_of-append [] qs = refl
text_of-append (p ∷ ps) qs =
    ap (λ t. spelling p ++ t) (text_of-append ps qs)
    ∙ sym (append_assoc (spelling p) (text_of ps) (text_of qs))

pub place-append :
    (start : ℕ) (ps qs : List Piece)
    → place start (ps ++ qs) ≡ place start ps ++ place (start + length (text_of ps)) qs
place-append start [] qs = ap (λ n. place n qs) (omega arith)
place-append start (p ∷ ps) qs =
    ap (λ ts. token_at start p ++ ts)
      (place-append (start + length (spelling p)) ps qs
        ∙ ap (λ n. place (start + length (spelling p)) ps ++ place n qs)
            (omega (arith, length-append (spelling p) (text_of ps))))
    ∙ sym (append_assoc (token_at start p) (place (start + length (spelling p)) ps) _)

module _ (floats : Floats) where
  spelling-literal :
      (l : Literal)
      → IsSpellableLiteral l
      → render_literal floats plain_dialect l ≡ spelling (literal_piece l)
  unfolding render_literal
  spelling-literal (str s) h = refl
  spelling-literal (int i) h = refl
  spelling-literal (float f) h = absurd h
  spelling-literal (bool true) h = refl
  spelling-literal (bool false) h = refl

  text_of-list :
      (list : List Literal)
      → All IsSpellableLiteral list
      → join_comma (map (render_literal floats plain_dialect) list) ≡ text_of (list_pieces list)
  unfolding join_comma
  text_of-list [] h = refl
  text_of-list (l ∷ []) h = spelling-literal l h.0 ∙ sym (append-nil (spelling (literal_piece l)))
  text_of-list (l ∷ m ∷ ms) h =
      append_assoc (render_literal floats plain_dialect l) (text ", ") _
      ∙ rw (spelling-literal l h.0)
          (ap (λ t. spelling (literal_piece l) ++ 44 ∷ 32 ∷ t) (text_of-list (m ∷ ms) h.1))

  text_of-in_list :
      (column : Text) (list : List Literal) (negated : Bool)
      → All IsSpellableLiteral list
      → render floats plain_dialect (in_list column list negated)
        ≡ text_of (pieces (in_list column list negated))
  unfolding render pieces not_word
  text_of-in_list column list true h =
      simp (text_of-list list h, text_of-append, append_assoc, append-nil)
  text_of-in_list column list false h =
      simp (text_of-list list h, text_of-append, append_assoc, append-nil)

  pub render-text_of :
      (e : Expr) → IsSpellable e → render floats plain_dialect e ≡ text_of (pieces e)
  unfolding render pieces not_word
  render-text_of (cmp column o l) h = simp (spelling-literal l h.1, append_assoc, append-nil)
  render-text_of (is_null column true) h = simp (append_assoc, append-nil)
  render-text_of (is_null column false) h = simp (append_assoc, append-nil)
  render-text_of (in_list column [] negated) h = absurd h.1
  render-text_of (in_list column (l ∷ ls) negated) h = text_of-in_list column (l ∷ ls) negated h.1
  render-text_of (and a b) h =
      simp (render-text_of a h.0, render-text_of b h.1, text_of-append, append_assoc)
  render-text_of (or a b) h =
      simp (render-text_of a h.0, render-text_of b h.1, text_of-append, append_assoc)
  render-text_of (Expr.not a) h = simp (render-text_of a h, text_of-append)
