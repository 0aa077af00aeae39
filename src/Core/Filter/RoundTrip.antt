-- ===== src/Core/Filter/RoundTrip.antt =====
-- A filter's SQL against what is parsed of it.
use pg2osync.Base.{
  ℕ, suc, ◌+◌, ◌*◌, ◌<◌, ◌≤◌, ◌≡◌, refl, sym, ap, ◌∙◌, false, List, [], ◌∷◌, ◌++◌, append-nil,
  length, length-append, arith,
}
use pg2osync.Base.Text.{Text, text}
use pg2osync.Core.Filter.Syntax.{Floats, Expr, cmp, is_null, in_list, and, or, named}
use pg2osync.Core.Filter.Render.{render}
use pg2osync.Core.Filter.Tokens.{Token}
use pg2osync.Core.Filter.Scan.{tokens, tokenize, tokenize_at, push, starts_word, is_letter}
use pg2osync.Core.Filter.Parser.{ok, or_expr, at_keyword}
use pg2osync.Core.Filter.Parse.{
  filtered, finish, parse_tokens, parse, is_white, is_white2, is_white3, is_white_text, sort, dedup,
}
use pg2osync.Core.Filter.Pieces.{
  Piece, gap, word, open_piece, close_piece, plain_dialect, pieces, text_of, place, IsSpellable,
  IsName, render-text_of, place-append,
}
use pg2osync.Core.Filter.Lexed.{pushes}
use pg2osync.Core.Filter.Lexed.Rendered.{Lexes-pieces}
use pg2osync.Core.Filter.Reparsed.{need}
use pg2osync.Core.Filter.Reparsed.Whole.{ReadsAs-pieces}

pushes-tokens : (ts : List Token) → pushes ts (tokens []) ≡ tokens ts
unfolding push
pushes-tokens [] = refl
pushes-tokens (t ∷ ts) = ap (push t) (pushes-tokens ts)

tokenize-pieces :
    (floats : Floats) (e : Expr)
    → IsSpellable e
    → tokenize floats (text_of (pieces e)) ≡ tokens (place 0 (pieces e))
unfolding tokenize tokenize_at
tokenize-pieces floats e h =
    let read = (Lexes-pieces floats e [] h tt).lexed 0 in
    ap (λ s. tokenize_at floats s 0 0) (sym (append-nil (text_of (pieces e))))
    ∙ read
    ∙ pushes-tokens (place 0 (pieces e))

length-place :
    (n : ℕ) (ps qs : List Piece)
    → length (place n (ps ++ qs))
      ≡ length (place n ps) + length (place (n + length (text_of ps)) qs)
length-place n ps qs =
    ap length (place-append n ps qs)
    ∙ length-append (place n ps) (place (n + length (text_of ps)) qs)

length-connective :
    (w : Text) (n : ℕ) (ps qs : List Piece)
    → length (place n (open_piece ∷ (ps ++ gap ∷ word w ∷ gap ∷ (qs ++ close_piece ∷ []))))
      ≡ 3
        + (length (place (n + 1) ps)
            + length (place (n + 1 + length (text_of ps) + 1 + length w + 1) qs))
length-connective w n ps qs = omega (
  arith,
  length-place (n + 1) ps (gap ∷ word w ∷ gap ∷ (qs ++ close_piece ∷ [])),
  length-place (n + 1 + length (text_of ps) + 1 + length w + 1) qs (close_piece ∷ []),
)

need-le : (e : Expr) (n : ℕ) → need e ≤ 4 * length (place n (pieces e))
unfolding need pieces
need-le (cmp column o l) n = omega arith
need-le (is_null column negated) n = omega arith
need-le (in_list column list negated) n = omega arith
need-le (and a b) n = omega (
  arith,
  length-connective (text "AND") n (pieces a) (pieces b),
  need-le a (n + 1),
  need-le b (n + 1 + length (text_of (pieces a)) + 1 + 3 + 1),
)
need-le (or a b) n = omega (
  arith,
  length-connective (text "OR") n (pieces a) (pieces b),
  need-le a (n + 1),
  need-le b (n + 1 + length (text_of (pieces a)) + 1 + 2 + 1),
)
need-le (Expr.not a) n =
    omega
      (arith, length-place (n + 1 + 3 + 1) (pieces a) (close_piece ∷ []), need-le a (n + 1 + 3 + 1))

not_white : (c : ℕ) (s : Text) → c < 128 → is_white c ≡ false → is_white_text (c ∷ s) ≡ false
unfolding is_white_text is_white2 is_white3
not_white c [] low h = h
not_white c (d ∷ []) low h = rw h (ground arith)
not_white c (d ∷ e ∷ s) low h = rw h (ground arith)

name-not_white : (w s : Text) → IsName w → is_white_text (w ++ s) ≡ false
unfolding starts_word is_letter is_white
name-not_white [] s h = absurd h
name-not_white (c ∷ w) s h = not_white c (w ++ s) (ground (arith, h.0)) (ground (arith, h.0))

-- A rendering begins with a parenthesis or a letter.
is_white_text-pieces : (e : Expr) → IsSpellable e → is_white_text (text_of (pieces e)) ≡ false
unfolding pieces is_white
is_white_text-pieces (cmp column o l) h = name-not_white column _ h.0
is_white_text-pieces (is_null column negated) h = name-not_white column _ h
is_white_text-pieces (in_list column list negated) h = name-not_white column _ h.0
is_white_text-pieces (and a b) h = not_white 40 _ (omega arith) refl
is_white_text-pieces (or a b) h = not_white 40 _ (omega arith) refl
is_white_text-pieces (Expr.not a) h = not_white 40 _ (omega arith) refl

or_expr-pieces :
    (end f : ℕ) (e : Expr)
    → IsSpellable e
    → need e ≤ suc f
    → or_expr end (suc (suc (suc f))) (place 0 (pieces e)) [] ≡ ok e [] (named e)
unfolding or_expr at_keyword
or_expr-pieces end f e h enough =
    let read = ReadsAs-pieces end e 0 (suc f) h enough [] [] in
    let whole = rw append-nil at read in rw whole refl

-- An expression without fractions, whose names are words and no keywords, whose integers fit 64 bits
-- and whose lists are not empty, is parsed back from its SQL, in the dialect that leaves names as
-- they are and doubles the quotes of strings.
pub parse-render :
    (floats : Floats) (e : Expr)
    → IsSpellable e
    → parse floats (render floats plain_dialect e)
      ≡ filtered (record { expr = e; columns = dedup (sort (named e)) })
unfolding parse parse_tokens finish
parse-render floats e h =
    let ts = place 0 (pieces e) in
    let fuel : 4 * length ts + 4 ≡ suc (suc (suc (4 * length ts + 1))) = omega arith in
    rw
      (
        render-text_of floats e h,
        is_white_text-pieces e h,
        tokenize-pieces floats e h,
        fuel,
        or_expr-pieces (length (text_of (pieces e))) (4 * length ts + 1) e h
            (omega (arith, need-le e 0)),
      )
      refl
