-- ===== src/Core/Filter/Scan.antt =====
-- The tokenizer. Its index `i` is the offset, with the bytes still to be skipped of the last lexeme.
use pg2osync.Base.{
  ℕ, zero, suc, ◌+◌, ◌-◌, Bool, false, ◌&&◌, ◌||◌, Option, none, some, List, [], ◌∷◌, ◌++◌, length,
  leb, ◌==◌, if◌then◌else◌,
}
use pg2osync.Base.Int.{ℤ, is_digit, parse_int}
use pg2osync.Base.Text.{Text}
use pg2osync.Core.Json.{Float}
use pg2osync.Core.Filter.Syntax.{Floats, CmpOp, eq, ne, lt, le, gt, ge}
use pg2osync.Core.Filter.Tokens.{
  Tok, Token, Refusal, ident, str, int, float, op, lparen, rparen, comma, unterminated,
  unexpected_character, unsupported_symbol, out_of_range,
}

-- What a position in the source begins with.
pub data Scanned : Type 0 where
  blank : Scanned
  lexeme : Token → Scanned
  stopped : Refusal → Scanned

unfoldable pub is_blank : ℕ → Bool
is_blank c = c == 32 || c == 9 || c == 13 || c == 10

unfoldable pub is_letter : ℕ → Bool
is_letter c = (leb 65 c && leb c 90) || (leb 97 c && leb c 122)

unfoldable pub starts_word : ℕ → Bool
starts_word c = is_letter c || c == 95

unfoldable pub in_word : ℕ → Bool
in_word c = is_letter c || is_digit c || c == 95 || c == 36

-- The bytes in front that pass a test, and the others.
unfoldable pub span : (ℕ → Bool) → Text → Text × Text
span test [] = ([], [])
span test (c ∷ s) =
    let (front, others) = span test s in if test c then (c ∷ front, others) else ([], c ∷ s)

unfoldable pub raw_before : ℕ → Option Text → Option Text
raw_before c none = none
raw_before c (some raw) = some (c ∷ raw)

-- The raw text of a string literal up to its closing quote, if it has one.
unfoldable pub scan_str : Text → Option Text
scan_str [] = none
scan_str (c ∷ []) = if c == 39 then some [] else none
scan_str (c ∷ d ∷ s) =
    let doubled = raw_before 39 (raw_before 39 (scan_str s)) in
    let others = raw_before c (scan_str (d ∷ s)) in
    if c == 39 then (if d == 39 then doubled else some []) else others

-- `replace("''", "'")`
unfoldable pub undouble : Text → Text
undouble [] = []
undouble (c ∷ []) = c ∷ []
undouble (c ∷ d ∷ s) =
    let one = undouble s in
    let others = undouble (d ∷ s) in if (c == 39) && (d == 39) then 39 ∷ one else c ∷ others

unfoldable pub token : Tok → ℕ → Text → Scanned
token t start s = lexeme (record { tok = t; offset = start; spelled = s })

unfoldable pub str_token : ℕ → Option Text → Scanned
str_token start none = stopped (unterminated start)
str_token start (some raw) = token (str (undouble raw)) start (39 ∷ (raw ++ 39 ∷ []))

unfoldable pub int_token : ℕ → Text → Option ℤ → Scanned
int_token start s none = stopped (out_of_range s start)
int_token start s (some i) = token (int i) start s

unfoldable pub short_operator : ℕ → Option (CmpOp × Text)
short_operator c =
    if c == 60
    then some (lt, c ∷ [])
    else (if c == 62 then some (gt, c ∷ []) else (if c == 61 then some (eq, c ∷ []) else none))

-- The operator in front, and how it is spelled.
unfoldable pub operator : ℕ → Text → Option (CmpOp × Text)
operator c [] = short_operator c
operator c (d ∷ s) =
    let two = c ∷ d ∷ [] in
    if (c == 60 && d == 62) || (c == 33 && d == 61)
    then some (ne, two)
    else (if c == 60 && d == 61
        then some (le, two)
        else (if c == 62 && d == 61 then some (ge, two) else short_operator c))

unfoldable pub op_token : ℕ → Option (CmpOp × Text) → Scanned
op_token start none = stopped (unexpected_character start)
op_token start (some (o, s)) = token (op o) start s

unfoldable pub is_symbol : ℕ → Bool
is_symbol c = c == 126 || c == 124 || c == 38 || c == 37 || c == 42 || c == 43 || c == 47

unfoldable pub next_is_digit : Text → Bool
next_is_digit [] = false
next_is_digit (c ∷ s) = is_digit c

-- The fraction of a number, with its point: none where no digit follows a point.
unfoldable pub fraction : Text → Option Text
fraction [] = none
fraction (c ∷ s) = if (c == 46) && next_is_digit s then some (46 ∷ (span is_digit s).0) else none

pub data Tokenized : Type 0 where
  tokens : List Token → Tokenized
  refused : Refusal → Tokenized

unfoldable pub push : Token → Tokenized → Tokenized
push t (tokens ts) = tokens (t ∷ ts)
push t (refused why) = refused why

unfoldable pub after_scan : Scanned → (ℕ → Tokenized) → Tokenized
after_scan blank later = later 0
after_scan (stopped why) later = refused why
after_scan (lexeme t) later = push t (later (length t.spelled - 1))

module _ (floats : Floats) where
  open floats use {parse_float, is_finite}

  unfoldable pub float_token : ℕ → Text → Option Float → Scanned
  float_token start s none = stopped (out_of_range s start)
  float_token start s (some f) =
      if is_finite f then token (float f) start s else stopped (out_of_range s start)

  unfoldable pub number_token : ℕ → Text → Option Text → Scanned
  number_token start whole none = int_token start whole (parse_int 63 whole)
  number_token start whole (some part) =
      float_token start (whole ++ part) (parse_float (whole ++ part))

  -- `scan_number`, of the text before the digits, which may be a sign
  unfoldable pub scan_number : ℕ → Text → Text → Scanned
  scan_number start sign s =
      let (digits, others) = span is_digit s in
      number_token start (sign ++ digits) (fraction others)

  unfoldable pub scan_symbol : ℕ → ℕ → Text → Scanned
  scan_symbol start c s =
      if c == 60 || c == 62 || c == 61 || c == 33
      then op_token start (operator c s)
      else (if is_symbol c
          then stopped (unsupported_symbol c start)
          else stopped (unexpected_character start))

  unfoldable pub scan_word : ℕ → ℕ → Text → Scanned
  scan_word start c s =
      if (c == 45) && next_is_digit s
      then scan_number start (c ∷ []) s
      else (if is_digit c
          then scan_number start [] (c ∷ s)
          else (if starts_word c
              then (let word = c ∷ (span in_word s).0 in token (ident word) start word)
              else scan_symbol start c s))

  -- An iteration of `tokenize` at this offset.
  unfoldable pub scan : ℕ → ℕ → Text → Scanned
  scan start c s =
      if is_blank c
      then blank
      else (if c == 40
          then token lparen start (c ∷ [])
          else (if c == 41
              then token rparen start (c ∷ [])
              else (if c == 44
                  then token comma start (c ∷ [])
                  else (if c == 39 then str_token start (scan_str s) else scan_word start c s))))

  -- The loop, and where it ends.
  unfoldable pub tokenize_at : Text → ℕ → ℕ → Tokenized
  tokenize_at [] skipped start = tokens []
  tokenize_at (c ∷ s) (suc skipped) start = tokenize_at s skipped (start + 1)
  tokenize_at (c ∷ s) zero start =
      after_scan (scan start c s) (λ skipped. tokenize_at s skipped (start + 1))

  unfoldable pub tokenize : Text → Tokenized
  tokenize src = tokenize_at src 0 0
