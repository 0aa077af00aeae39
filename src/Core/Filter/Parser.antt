-- ===== src/Core/Filter/Parser.antt =====
-- The parser. Its position is the list of tokens ahead; `or_expr` and the methods below it run on
-- fuel, of which `parse` gives enough.
pub mod Ends
pub mod Total
use pg2osync.Base.{
  ℕ, zero, suc, ◌+◌, ◌*◌, Bool, true, false, ◌&&◌, ◌||◌, Option, none, some, List, [], ◌∷◌, ◌++◌,
  length, leb, ◌==◌, if◌then◌else◌,
}
use pg2osync.Base.Text.{Text, text, text_eq}
use pg2osync.Core.Filter.Syntax.{
  Floats, Literal, CmpOp, Expr, Filter, bool, eq, ne, cmp, is_null, in_list, and, or,
}
use pg2osync.Core.Filter.Tokens.{
  Tok, Token, Found, Refusal, ident, str, int, float, op, lparen, rparen, comma, quoted, the_end,
  empty_predicate, extra, no_column, function_call, no_operator, is_without_null, not_word_operator,
  not_without_in, word_operator, null_comparison, no_literal, no_list, empty_list, not_literal,
  no_rparen, unclosed, describe, is_word, is_any, keywords, word_operators,
}
use pg2osync.Core.Filter.Scan.{Tokenized, tokens, refused, tokenize}

-- What a method returns, the tokens ahead and the columns so far.
pub data Parsed {ℓ} (A : Type ℓ) : Type ℓ where
  ok : A → List Token → List Text → Parsed A
  failed : Refusal → Parsed A
  out_of_fuel : Parsed A

abbrev pub Parser {ℓ} : Type ℓ → Type ℓ
Parser A = List Token → List Text → Parsed A

module _ {ℓ κ} {A : Type ℓ} {B : Type κ} where
  abbrev pub and_then : Parsed A → (A → Parser B) → Parsed B
  and_then (ok a ts columns) next = next a ts columns
  and_then (failed why) next = failed why
  and_then out_of_fuel next = out_of_fuel

  infixl 5 ◌>>=◌
  abbrev pub ◌>>=◌ : Parser A → (A → Parser B) → Parser B
  ◌>>=◌ first next ts columns = and_then (first ts columns) next

unfoldable pub keyword : Text → Token → Bool
keyword k t = elim t.tok [ ident word ↦ is_word word k | _ ↦ false ]

-- Tests on the token ahead.
unfoldable pub at_lparen : List Token → Bool
at_lparen [] = false
at_lparen (t ∷ ts) = elim t.tok [ lparen ↦ true | _ ↦ false ]

unfoldable pub at_rparen : List Token → Bool
at_rparen [] = false
at_rparen (t ∷ ts) = elim t.tok [ rparen ↦ true | _ ↦ false ]

unfoldable pub at_keyword : Text → List Token → Bool
at_keyword k [] = false
at_keyword k (t ∷ ts) = keyword k t

unfoldable pub literal_of : Token → Option Literal
literal_of t = elim t.tok [
  | str s ↦ some (Literal.str s)
  | int i ↦ some (Literal.int i)
  | float f ↦ some (Literal.float f)
  | ident word ↦
      if is_word word (text "TRUE")
      then some (bool true)
      else (if is_word word (text "FALSE") then some (bool false) else none)
  | _ ↦ none
]

-- What a value is needed for, and the refusal where there is none.
unfoldable pub when_some {ℓ κ} :
    {A : Type ℓ} {B : Type κ} → Refusal → Option A → (A → Parsed B) → Parsed B
when_some why none next = failed why
when_some why (some a) next = next a

unfoldable pub tail : List Token → List Token
tail [] = []
tail (t ∷ ts) = ts

-- `accept_keyword`
unfoldable pub accept_keyword : Text → Parser Bool
accept_keyword k ts columns =
    if at_keyword k ts then ok true (tail ts) columns else ok false ts columns

unfoldable pub expect_rparen : {A : Type 0} → A → Parser A
expect_rparen a [] columns = failed unclosed
expect_rparen a (t ∷ ts) columns =
    if at_rparen (t ∷ ts) then ok a ts columns else failed (no_rparen t.offset)

-- The column that a token names.
unfoldable pub column_of : Token → Option Text
column_of t = elim t.tok [
  | ident word ↦ if is_any word keywords then none else some word
  | _ ↦ none
]

unfoldable pub is_word_operator : Token → Bool
is_word_operator t = elim t.tok [ ident word ↦ is_any word word_operators | _ ↦ false ]

unfoldable pub is_equality : CmpOp → Bool
is_equality eq = true
is_equality ne = true
is_equality _ = false

unfoldable pub is_comma : Token → Bool
is_comma t = elim t.tok [ comma ↦ true | _ ↦ false ]

-- A literal in a list, and what becomes of it.
unfoldable pub with_literal {ℓ} : {A : Type ℓ} → Token → (Literal → Parsed A) → Parsed A
with_literal t next = when_some (not_literal t.offset) (literal_of t) next

unfoldable pub push_literal : Literal → Parsed (List Literal) → Parsed (List Literal)
push_literal l (ok list ts columns) = ok (l ∷ list) ts columns
push_literal l (failed why) = failed why
push_literal l out_of_fuel = out_of_fuel

-- The loop of `in_list`, after the parenthesis.
unfoldable pub in_items : Parser (List Literal)
in_items [] columns = failed unclosed
in_items (t ∷ []) columns = with_literal t (λ l. expect_rparen (l ∷ []) [] columns)
in_items (t ∷ u ∷ ts) columns =
    let more = in_items ts columns in
    with_literal t
      (λ l. if is_comma u then push_literal l more else expect_rparen (l ∷ []) (u ∷ ts) columns)

-- The source's length, where an error at its end stands.
module _ (end : ℕ) where
  unfoldable pub offset : List Token → ℕ
  offset [] = end
  offset (t ∷ ts) = t.offset

  unfoldable pub found : List Token → Found
  found [] = the_end
  found (t ∷ ts) = describe t

  -- `comparison_rhs`
  unfoldable pub comparison_rhs : Text → CmpOp → Token → Parser Expr
  comparison_rhs column o t [] columns = failed (no_literal t.spelled the_end end)
  comparison_rhs column o t (u ∷ ts) columns =
      if is_equality o && keyword (text "NULL") u
      then failed (null_comparison t.spelled t.offset)
      else when_some (no_literal t.spelled (describe u) u.offset) (literal_of u)
          (λ l. ok (cmp column o l) ts columns)

  -- `in_list`
  unfoldable pub in_list_of : Text → Bool → Parser Expr
  in_list_of column negated ts columns =
      if at_lparen ts
      then (if at_rparen (tail ts)
          then failed (empty_list (offset (tail ts)))
          else and_then (in_items (tail ts) columns)
              (λ list rest columns'. ok (in_list column list negated) rest columns'))
      else failed (no_list (offset ts))

  unfoldable pub after_is : Text → Parser Expr
  after_is column = do
    negated ← accept_keyword (text "NOT")
    found_null ← accept_keyword (text "NULL")
    λ ts columns.
        if found_null
        then ok (is_null column negated) ts columns
        else failed (is_without_null (offset ts))

  unfoldable pub not_refused : Token → List Token → Refusal
  not_refused t [] = not_without_in the_end end
  not_refused t (u ∷ ts) =
      if is_word_operator u
      then not_word_operator u.spelled t.offset
      else not_without_in (describe u) u.offset

  unfoldable pub after_not : Text → Token → Parser Expr
  after_not column t = do
    found_in ← accept_keyword (text "IN")
    λ ts columns. if found_in then in_list_of column true ts columns else failed (not_refused t ts)

  unfoldable pub word_after : Text → Token → Parser Expr
  word_after column t ts columns =
      if keyword (text "IS") t
      then after_is column ts columns
      else (if keyword (text "IN") t
          then in_list_of column false ts columns
          else (if keyword (text "NOT") t
              then after_not column t ts columns
              else (if is_word_operator t
                  then failed (word_operator (describe t) t.offset)
                  else failed (no_operator column (describe t) t.offset))))

  unfoldable pub after_tok : Text → Token → Tok → Parser Expr
  after_tok column t (op o) ts columns = comparison_rhs column o t ts columns
  after_tok column t (ident word) ts columns = word_after column t ts columns
  after_tok column t _ ts columns = failed (no_operator column (describe t) t.offset)

  -- `comparison` after its column
  unfoldable pub after_column : Text → Parser Expr
  after_column column [] columns = failed (no_operator column the_end end)
  after_column column (t ∷ ts) columns = after_tok column t t.tok ts columns

  -- `comparison`
  unfoldable pub comparison : Parser Expr
  comparison [] columns = failed (no_column the_end end)
  comparison (t ∷ ts) columns = when_some (no_column (describe t) t.offset) (column_of t) (λ column.
      if at_lparen ts
      then failed (function_call column t.offset)
      else after_column column ts (columns ++ column ∷ []))

  unfoldable mutual
    pub or_expr : ℕ → Parser Expr
    or_expr zero ts columns = out_of_fuel
    or_expr (suc f) ts columns = and_then (and_expr f ts columns) (λ left. or_more f left)

    pub or_more : ℕ → Expr → Parser Expr
    or_more zero left ts columns = out_of_fuel
    or_more (suc f) left ts columns =
        let more = and_then (and_expr f (tail ts) columns) (λ right. or_more f (or left right)) in
        if at_keyword (text "OR") ts then more else ok left ts columns

    pub and_expr : ℕ → Parser Expr
    and_expr zero ts columns = out_of_fuel
    and_expr (suc f) ts columns = and_then (not_expr f ts columns) (λ left. and_more f left)

    pub and_more : ℕ → Expr → Parser Expr
    and_more zero left ts columns = out_of_fuel
    and_more (suc f) left ts columns =
        let more = and_then (not_expr f (tail ts) columns) (λ right. and_more f (and left right)) in
        if at_keyword (text "AND") ts then more else ok left ts columns

    pub not_expr : ℕ → Parser Expr
    not_expr zero ts columns = out_of_fuel
    not_expr (suc f) ts columns =
        let more =
          and_then (not_expr f (tail ts) columns)
            (λ e rest columns'. ok (Expr.not e) rest columns') in
        let other = primary f ts columns in if at_keyword (text "NOT") ts then more else other

    pub primary : ℕ → Parser Expr
    primary zero ts columns = out_of_fuel
    primary (suc f) ts columns =
        let inner = and_then (or_expr f (tail ts) columns) (λ e. expect_rparen e) in
        if at_lparen ts then inner else comparison ts columns
