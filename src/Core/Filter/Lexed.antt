-- ===== src/Core/Filter/Lexed.antt =====
-- What the tokenizer makes of words, strings, operators and integers before what ends them.
pub mod Sequences
pub mod Rendered
use pg2osync.Base.{
  ℕ, zero, suc, ◌+◌, ◌-◌, ◌<◌, ◌≡◌, refl, sym, ap, ◌∙◌, Bool, true, false, ◌&&◌, ◌||◌, Option, none,
  some, List, [], ◌∷◌, ◌++◌, append_assoc, append-nil, length, length-append, All, arith, ◌==◌, leb,
  Bool-cases, inl, inr, if◌then◌else◌,
}
use pg2osync.Base.Int.{ℤ, pos, negsuc, Fits, is_digit, decimal, show_int, parse_int}
use pg2osync.Base.Int.Decimal.{IsDigit, decimal-IsDigit, decimal-cons, parse_int-show_int}
use pg2osync.Base.Text.{Text, text}
use pg2osync.Core.Filter.Syntax.{Floats, CmpOp, eq, ne, lt, le, gt, ge}
use pg2osync.Core.Filter.Render.{sql}
use pg2osync.Core.Filter.Tokens.{Tok, Token, ident, op, lparen, rparen, comma}
use pg2osync.Core.Filter.Pieces.{doubled}
use pg2osync.Core.Filter.Scan.{
  Scanned, blank, lexeme, Tokenized, tokens, refused, push, after_scan, is_blank, is_letter,
  starts_word, in_word, span, raw_before, scan_str, undouble, token, str_token, int_token,
  short_operator, operator, op_token, next_is_digit, fraction, number_token, scan_number,
  scan_symbol, scan_word, scan, tokenize_at,
}

-- What may follow a word or a literal: nothing, a blank, a closing parenthesis or a comma.
abbrev pub Stops : Text → Type 0
Stops [] = Unit
Stops (c ∷ s) = (c == 32 || c == 41 || c == 44) ≡ true

abbrev pub pushes : List Token → Tokenized → Tokenized
pushes [] later = later
pushes (t ∷ ts) later = push t (pushes ts later)

span-front :
    (test : ℕ → Bool) (s rest : Text)
    → All (λ c. test c ≡ true) s
    → ((c : ℕ) → (c == 32 || c == 41 || c == 44) ≡ true → test c ≡ false)
    → Stops rest
    → span test (s ++ rest) ≡ (s, rest)
unfolding span
span-front test [] [] h no_stop stops = refl
span-front test [] (c ∷ rest) h no_stop stops = rw (no_stop c stops)
span-front test (c ∷ s) rest h no_stop stops = rw (span-front test s rest h.1 no_stop stops, h.0)

-- A letter or an underscore takes none of the scanner's other branches.
word-tests :
    (c : ℕ)
    → starts_word c ≡ true
    → (is_blank c ≡ false)
      × ((c == 40) ≡ false)
      × ((c == 41) ≡ false)
      × ((c == 44) ≡ false)
      × ((c == 39) ≡ false)
      × ((c == 45) ≡ false)
      × (is_digit c ≡ false)
unfolding is_blank starts_word is_letter is_digit
word-tests c h = (
  ground arith,
  ground arith,
  ground arith,
  ground arith,
  ground arith,
  ground arith,
  ground arith,
)

digit-tests :
    (c : ℕ)
    → IsDigit c
    → (is_blank c ≡ false)
      × ((c == 40) ≡ false)
      × ((c == 41) ≡ false)
      × ((c == 44) ≡ false)
      × ((c == 39) ≡ false)
      × ((c == 45) ≡ false)
unfolding is_blank is_digit
digit-tests c h =
    (ground arith, ground arith, ground arith, ground arith, ground arith, ground arith)

no_word : (c : ℕ) → (c == 32 || c == 41 || c == 44) ≡ true → in_word c ≡ false
unfolding in_word is_letter is_digit
no_word c h = ground arith

no_digit : (c : ℕ) → (c == 32 || c == 41 || c == 44) ≡ true → is_digit c ≡ false
unfolding is_digit
no_digit c h = ground arith

fraction-Stops : (rest : Text) → Stops rest → fraction rest ≡ none
unfolding fraction
fraction-Stops [] h = refl
fraction-Stops (c ∷ rest) h = ground arith

scan_str-other :
    (c : ℕ) (s : Text) → (c == 39) ≡ false → scan_str (c ∷ s) ≡ raw_before c (scan_str s)
unfolding scan_str raw_before
scan_str-other c [] h = rw h
scan_str-other c (d ∷ s) h = rw h

scan_str-doubled :
    (s rest : Text) → Stops rest → scan_str ((doubled s ++ 39 ∷ []) ++ rest) ≡ some (doubled s)
unfolding scan_str raw_before doubled
scan_str-doubled [] [] h = refl
scan_str-doubled [] (c ∷ rest) h = ground arith
scan_str-doubled (c ∷ s) rest h = elim (Bool-cases (c == 39)) [
  | inl quote ↦ rw (quote, scan_str-doubled s rest h)
  | inr other ↦
      rw other
        (scan_str-other c ((doubled s ++ 39 ∷ []) ++ rest) other ∙ rw (scan_str-doubled s rest h))
]

undouble-other : (c : ℕ) (s : Text) → (c == 39) ≡ false → undouble (c ∷ s) ≡ c ∷ undouble s
unfolding undouble
undouble-other c [] h = refl
undouble-other c (d ∷ s) h = rw h

undouble-doubled : (s : Text) → undouble (doubled s) ≡ s
unfolding undouble doubled
undouble-doubled [] = refl
undouble-doubled (c ∷ s) = elim (Bool-cases (c == 39)) [
  | inl quote ↦ rw (quote, undouble-doubled s) (ap (λ b. b ∷ s) (ground arith))
  | inr other ↦ rw other (undouble-other c (doubled s) other ∙ rw (undouble-doubled s))
]

module _ (floats : Floats) where
  skip :
      (s rest : Text) (start : ℕ)
      → tokenize_at floats (s ++ rest) (length s) start
        ≡ tokenize_at floats rest 0 (start + length s)
  unfolding tokenize_at
  skip [] rest start = ap (tokenize_at floats rest 0) (omega arith)
  skip (c ∷ s) rest start = skip s rest (start + 1) ∙ ap (tokenize_at floats rest 0) (omega arith)

  -- A lexeme is pushed, and its bytes are skipped.
  pub one_lexeme :
      (t : Tok) (c : ℕ) (s rest : Text) (start : ℕ)
      → scan floats start c (s ++ rest) ≡ token t start (c ∷ s)
      → tokenize_at floats (c ∷ (s ++ rest)) 0 start
        ≡ push
            (record { tok = t; offset = start; spelled = c ∷ s })
            (tokenize_at floats rest 0 (start + length (c ∷ s)))
  unfolding tokenize_at after_scan token
  one_lexeme t c s rest start e =
      let width : length (c ∷ s) - 1 ≡ length s = omega arith in
      rw (e, width)
        (ap (push (record { tok = t; offset = start; spelled = c ∷ s }))
          (skip s rest (start + 1) ∙ ap (tokenize_at floats rest 0) (omega arith)))

  pub scan-word :
      (c : ℕ) (s rest : Text) (start : ℕ)
      → starts_word c ≡ true
      → All (λ d. in_word d ≡ true) s
      → Stops rest
      → scan floats start c (s ++ rest) ≡ token (ident (c ∷ s)) start (c ∷ s)
  unfolding scan scan_word
  scan-word c s rest start first others stops =
      let (blank_test, left, right, sep, quote, minus, digit) = word-tests c first in
      rw
        (
          blank_test,
          left,
          right,
          sep,
          quote,
          minus,
          digit,
          first,
          span-front in_word s rest others no_word stops,
        )
        refl

  pub scan-str :
      (s rest : Text) (start : ℕ)
      → Stops rest
      → scan floats start 39 ((doubled s ++ 39 ∷ []) ++ rest)
        ≡ token (Tok.str s) start (39 ∷ (doubled s ++ 39 ∷ []))
  unfolding scan str_token is_blank token
  scan-str s rest start stops = rw (scan_str-doubled s rest stops, undouble-doubled s)

  pub scan-op :
      (o : CmpOp) (rest : Text) (start : ℕ)
      → (c : ℕ) × (s : Text) × (sql o ≡ c ∷ s)
        × (scan floats start c (s ++ 32 ∷ rest) ≡ token (op o) start (c ∷ s))
  unfolding sql scan scan_word scan_symbol op_token operator short_operator is_blank starts_word
      is_letter is_digit
  scan-op eq rest start = (61, [], refl, refl)
  scan-op ne rest start = (60, 62 ∷ [], refl, refl)
  scan-op lt rest start = (60, [], refl, refl)
  scan-op le rest start = (60, 61 ∷ [], refl, refl)
  scan-op gt rest start = (62, [], refl, refl)
  scan-op ge rest start = (62, 61 ∷ [], refl, refl)

  scan_number-digits :
      (start : ℕ) (sign digits rest : Text) (i : ℤ)
      → All IsDigit digits
      → Stops rest
      → parse_int 63 (sign ++ digits) ≡ some i
      → scan_number floats start sign (digits ++ rest) ≡ token (Tok.int i) start (sign ++ digits)
  unfolding scan_number number_token int_token
  scan_number-digits start sign digits rest i h stops e =
      rw (span-front is_digit digits rest h no_digit stops, fraction-Stops rest stops, e) refl

  scan-digit :
      (c : ℕ) (s : Text) (start : ℕ)
      → IsDigit c
      → scan floats start c s ≡ scan_number floats start [] (c ∷ s)
  unfolding scan scan_word
  scan-digit c s start h =
      let (blank_test, left, right, sep, quote, minus) = digit-tests c h in
      rw (blank_test, left, right, sep, quote, minus, h) refl

  scan-minus :
      (s : Text) (start : ℕ)
      → next_is_digit s ≡ true
      → scan floats start 45 s ≡ scan_number floats start (45 ∷ []) s
  unfolding scan scan_word is_blank
  scan-minus s start h = rw h

  pub scan-int :
      (i : ℤ) (rest : Text) (start : ℕ)
      → Fits 63 i
      → Stops rest
      → (c : ℕ) × (s : Text) × (show_int i ≡ c ∷ s)
        × (scan floats start c (s ++ rest) ≡ token (Tok.int i) start (c ∷ s))
  unfolding show_int next_is_digit
  scan-int (pos n) rest start h stops =
      let (c, s, e) = decimal-cons 19 n in
      let digits : All IsDigit (c ∷ s) = rw e at (decimal-IsDigit 20 n) in
      let value : parse_int 63 (c ∷ s) ≡ some (pos n) = rw e at (parse_int-show_int (pos n) h) in
      (
        c,
        s,
        e,
        scan-digit c (s ++ rest) start digits.0
            ∙ scan_number-digits start [] (c ∷ s) rest (pos n) digits stops value,
      )
  scan-int (negsuc n) rest start h stops =
      let (c, s, e) = decimal-cons 19 (n + 1) in
      let digits : All IsDigit (c ∷ s) = rw e at (decimal-IsDigit 20 (n + 1)) in
      let value = parse_int-show_int (negsuc n) h in
      (
        45,
        decimal 20 (n + 1),
        refl,
        scan-minus (decimal 20 (n + 1) ++ rest) start (rw e digits.0)
            ∙ scan_number-digits start (45 ∷ []) (decimal 20 (n + 1)) rest (negsuc n)
                (decimal-IsDigit 20 (n + 1)) stops value,
      )
