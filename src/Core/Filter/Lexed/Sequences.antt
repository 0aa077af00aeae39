-- ===== src/Core/Filter/Lexed/Sequences.antt =====
-- What the tokenizer makes of a sequence of pieces, from what it makes of each.
use pg2osync.Base.{
  ℕ, ◌+◌, ◌≡◌, refl, ap, true, List, [], ◌∷◌, ◌++◌, append_assoc, length, length-append, All, arith,
}
use pg2osync.Base.Text.{Text, text}
use pg2osync.Core.Filter.Syntax.{Floats, CmpOp}
use pg2osync.Core.Filter.Render.{sql}
use pg2osync.Core.Filter.Tokens.{Tok, Token, ident, op, lparen, rparen, comma}
use pg2osync.Core.Filter.Pieces.{
  Piece, gap, piece, spelling, text_of, token_at, place, word, open_piece, close_piece, IsName,
  text_of-append, place-append,
}
use pg2osync.Core.Filter.Scan.{
  starts_word, in_word, is_blank, scan, token, after_scan, tokenize_at, push, is_letter, Tokenized,
}
use pg2osync.Core.Filter.Lexed.{Stops, pushes, one_lexeme, scan-word, scan-op}

pushes-append :
    (ts us : List Token) (later : Tokenized) → pushes (ts ++ us) later ≡ pushes ts (pushes us later)
pushes-append [] us later = refl
pushes-append (t ∷ ts) us later = ap (push t) (pushes-append ts us later)

abbrev pub IsWord : Text → Type 0
IsWord [] = ⊥
IsWord (c ∷ s) = (starts_word c ≡ true) × All (λ d. in_word d ≡ true) s

pub IsWord-IsName : (w : Text) → IsName w → IsWord w
IsWord-IsName [] h = h
IsWord-IsName (c ∷ s) h = (h.0, h.1)

pub true_keyword : IsWord (text "TRUE")
unfolding starts_word in_word is_letter
true_keyword = (refl, (refl, (refl, (refl, tt))))

pub false_keyword : IsWord (text "FALSE")
unfolding starts_word in_word is_letter
false_keyword = (refl, (refl, (refl, (refl, (refl, tt)))))

pub not_keyword : IsWord (text "NOT")
unfolding starts_word in_word is_letter
not_keyword = (refl, (refl, (refl, tt)))

pub null_keyword : IsWord (text "NULL")
unfolding starts_word in_word is_letter
null_keyword = (refl, (refl, (refl, (refl, tt))))

pub is_keyword : IsWord (text "IS")
unfolding starts_word in_word is_letter
is_keyword = (refl, (refl, tt))

pub in_keyword : IsWord (text "IN")
unfolding starts_word in_word is_letter
in_keyword = (refl, (refl, tt))

pub and_keyword : IsWord (text "AND")
unfolding starts_word in_word is_letter
and_keyword = (refl, (refl, (refl, tt)))

pub or_keyword : IsWord (text "OR")
unfolding starts_word in_word is_letter
or_keyword = (refl, (refl, tt))

module _ (floats : Floats) where
  -- These pieces are read as their tokens before this text.
  pub record Lexes (ps : List Piece) (rest : Text) : Type 0 where
    pub lexed :
        (start : ℕ)
        → tokenize_at floats (text_of ps ++ rest) 0 start
          ≡ pushes (place start ps) (tokenize_at floats rest 0 (start + length (text_of ps)))

  pub Lexes-append :
      (ps qs : List Piece) (rest : Text)
      → Lexes ps (text_of qs ++ rest)
      → Lexes qs rest
      → Lexes (ps ++ qs) rest
  Lexes-append ps qs rest h k = record {
    lexed = λ start.
        rw
          (
            text_of-append ps qs,
            append_assoc (text_of ps) (text_of qs) rest,
            h.lexed start,
            k.lexed (start + length (text_of ps)),
            place-append start ps qs,
            pushes-append (place start ps) (place (start + length (text_of ps)) qs) _,
          )
          (ap
            (λ n.
              pushes (place start ps)
                (pushes (place (start + length (text_of ps)) qs) (tokenize_at floats rest 0 n)))
            (omega (arith, length-append (text_of ps) (text_of qs))));
  }

  pub record LexesOne (p : Piece) (rest : Text) : Type 0 where
    pub first :
        (start : ℕ)
        → tokenize_at floats (spelling p ++ rest) 0 start
          ≡ pushes (token_at start p) (tokenize_at floats rest 0 (start + length (spelling p)))

  pub Lexes-cons :
      (p : Piece) (qs : List Piece) (rest : Text)
      → LexesOne p (text_of qs ++ rest)
      → Lexes qs rest
      → Lexes (p ∷ qs) rest
  Lexes-cons p qs rest h k = record {
    lexed = λ start.
        rw
          (
            append_assoc (spelling p) (text_of qs) rest,
            h.first start,
            k.lexed (start + length (spelling p)),
            pushes-append (token_at start p) (place (start + length (spelling p)) qs) _,
          )
          (ap
            (λ n.
              pushes (token_at start p)
                (pushes (place (start + length (spelling p)) qs) (tokenize_at floats rest 0 n)))
            (omega (arith, length-append (spelling p) (text_of qs))));
  }

  pub Lexes-none : (rest : Text) → Lexes [] rest
  Lexes-none rest = record { lexed = λ start. ap (tokenize_at floats rest 0) (omega arith) }

  pub Lexes-one : (p : Piece) (rest : Text) → LexesOne p rest → Lexes (p ∷ []) rest
  Lexes-one p rest h = Lexes-cons p [] rest h (Lexes-none rest)

  pub one_piece :
      (t : Tok) (whole : Text) (c : ℕ) (s rest : Text) (start : ℕ)
      → whole ≡ c ∷ s
      → scan floats start c (s ++ rest) ≡ token t start (c ∷ s)
      → tokenize_at floats (whole ++ rest) 0 start
        ≡ pushes (token_at start (piece t whole)) (tokenize_at floats rest 0 (start + length whole))
  one_piece t whole c s rest start e h = rw e (one_lexeme floats t c s rest start h)

  pub LexesOne-piece :
      (t : Tok) (c : ℕ) (s rest : Text)
      → ((start : ℕ) → scan floats start c (s ++ rest) ≡ token t start (c ∷ s))
      → LexesOne (piece t (c ∷ s)) rest
  LexesOne-piece t c s rest h = record {
    first = λ start. one_lexeme floats t c s rest start (h start);
  }

  pub LexesOne-gap : (rest : Text) → LexesOne gap rest
  unfolding tokenize_at after_scan scan is_blank
  LexesOne-gap rest = record { first = λ start. refl }

  pub LexesOne-open : (rest : Text) → LexesOne open_piece rest
  unfolding scan is_blank
  LexesOne-open rest = LexesOne-piece lparen 40 [] rest (λ start. refl)

  pub LexesOne-close : (rest : Text) → LexesOne close_piece rest
  unfolding scan is_blank
  LexesOne-close rest = LexesOne-piece rparen 41 [] rest (λ start. refl)

  pub LexesOne-comma : (rest : Text) → LexesOne (piece comma (44 ∷ [])) rest
  unfolding scan is_blank
  LexesOne-comma rest = LexesOne-piece comma 44 [] rest (λ start. refl)

  pub LexesOne-word : (w rest : Text) → IsWord w → Stops rest → LexesOne (word w) rest
  LexesOne-word [] rest h stops = absurd h
  LexesOne-word (c ∷ s) rest h stops =
      LexesOne-piece (ident (c ∷ s)) c s rest
        (λ start. scan-word floats c s rest start h.0 h.1 stops)

  pub LexesOne-op : (o : CmpOp) (rest : Text) → LexesOne (piece (op o) (sql o)) (32 ∷ rest)
  LexesOne-op o rest = record {
    first = λ start.
        let (c, s, e, h) = scan-op floats o rest start in
        one_piece (op o) (sql o) c s (32 ∷ rest) start e h;
  }
