-- ===== src/Core/Filter/Parser/Ends.antt =====
-- What the parts of the parser that need no fuel take and note, unless they refuse.
use pg2osync.Base.{
  ℕ, ◌+◌, ◌<◌, ◌≤◌, ◌≡◌, ◌≢◌, refl, ◌∙◌, ◌&&◌, Bool, true, false, Option, none, some, List, [], ◌∷◌,
  ◌++◌, length, arith, if◌then◌else◌,
}
use pg2osync.Base.Text.{Text, text}
use pg2osync.Core.Filter.Syntax.{Literal, CmpOp, Expr, named}
use pg2osync.Core.Filter.Tokens.{Tok, Token, Refusal, ident, op}
use pg2osync.Core.Filter.Parser.{
  Parsed, Parser, ok, failed, out_of_fuel, and_then, at_lparen, at_rparen, at_keyword, literal_of,
  tail, accept_keyword, expect_rparen, column_of, when_some, with_literal, push_literal, in_items,
  comparison_rhs, in_list_of, after_is, after_not, word_after, after_tok, after_column, comparison,
  is_comma, keyword, is_equality, is_word_operator,
}

-- A result within the fuel, of which this holds if it is one.
pub data Ends {ℓ κ} {A : Type ℓ} (P : A → List Token → List Text → Type κ)
    : Parsed A → Type (ℓ ⊔ κ) where
  returned :
      {a : A} {ts : List Token} {columns : List Text} → P a ts columns → Ends P (ok a ts columns)
  rejected : {why : Refusal} → Ends P (failed why)

-- An expression that was read off so many tokens at least, whose columns are noted.
abbrev pub Reads : ℕ → ℕ → List Text → Expr → List Token → List Text → Type 0
Reads least most columns e ts columns' =
    (length ts + least ≤ most) × (columns' ≡ columns ++ named e)

module _ {ℓ κ ℓ' κ'} {A : Type ℓ} {B : Type ℓ'} {P : A → List Token → List Text → Type κ}
    {Q : B → List Token → List Text → Type κ'} where
  pub Ends-then :
      {r : Parsed A} (next : A → Parser B)
      → Ends P r
      → ((a : A) (ts : List Token) (columns : List Text)
          → P a ts columns
          → Ends Q (next a ts columns))
      → Ends Q (and_then r next)
  Ends-then next (returned {a} {ts} {columns} h) k = k a ts columns h
  Ends-then next rejected k = rejected

module _ {ℓ κ} {A : Type ℓ} {P : A → List Token → List Text → Type κ} where
  pub Ends-if :
      (b : Bool) {r s : Parsed A} → (b ≡ true → Ends P r) → Ends P s → Ends P (if b then r else s)
  Ends-if true h k = h refl
  Ends-if false h k = k

  Ends-when_some {ℓ'} :
      {B : Type ℓ'} (why : Refusal) (o : Option B) (next : B → Parsed A)
      → ((b : B) → Ends P (next b))
      → Ends P (when_some why o next)
  unfolding when_some
  Ends-when_some why none next h = rejected
  Ends-when_some why (some b) next h = h b

  pub Ends-weaken {κ'} :
      {Q : A → List Token → List Text → Type κ'} {r : Parsed A}
      → Ends P r
      → ((a : A) (ts : List Token) (columns : List Text) → P a ts columns → Q a ts columns)
      → Ends Q r
  Ends-weaken (returned {a} {ts} {columns} h) k = returned (k a ts columns h)
  Ends-weaken rejected k = rejected

  pub Ends-ne-out_of_fuel : {r : Parsed A} → Ends P r → r ≢ out_of_fuel
  Ends-ne-out_of_fuel (returned h) = cc
  Ends-ne-out_of_fuel rejected = cc

-- What is ahead is shorter, and no column is noted.
abbrev Shorter {ℓ} : {A : Type ℓ} → List Token → List Text → A → List Token → List Text → Type 0
Shorter before columns a rest columns' = (length rest < length before) × (columns' ≡ columns)

-- What is ahead is no longer, and this column is all that was noted.
abbrev AfterColumn : List Token → List Text → Text → Expr → List Token → List Text → Type 0
AfterColumn before columns column e rest columns' =
    (length rest ≤ length before) × (columns' ≡ columns) × (named e ≡ column ∷ [])

at_rparen-length : (ts : List Token) → at_rparen ts ≡ true → length (tail ts) < length ts
unfolding at_rparen tail
at_rparen-length [] h = cc
at_rparen-length (t ∷ ts) h = omega arith

pub tail-length : (ts : List Token) → length (tail ts) ≤ length ts
unfolding tail
tail-length [] = omega arith
tail-length (t ∷ ts) = omega arith

pub Ends-expect_rparen :
    {A : Type 0} (a : A) (ts : List Token) (columns : List Text)
    → Ends
        (λ b rest columns'. (b ≡ a) × (length rest < length ts) × (columns' ≡ columns))
        (expect_rparen a ts columns)
unfolding expect_rparen
Ends-expect_rparen a [] columns = rejected
Ends-expect_rparen a (t ∷ ts) columns =
    Ends-if (at_rparen (t ∷ ts)) (λ h. returned (refl, omega arith, refl)) rejected

Ends-last :
    {A : Type 0} (a : A) (ts longer : List Token) (columns : List Text)
    → length ts ≤ length longer
    → Ends (Shorter longer columns) (expect_rparen a ts columns)
Ends-last a ts longer columns le =
    Ends-weaken (Ends-expect_rparen a ts columns) (λ b rest columns' h. (omega (arith, h.1), h.2))

Ends-push_literal :
    (l : Literal) (before longer : List Token) (columns : List Text) {r : Parsed (List Literal)}
    → length before ≤ length longer
    → Ends (Shorter before columns) r
    → Ends (Shorter longer columns) (push_literal l r)
unfolding push_literal
Ends-push_literal l before longer columns le (returned h) = returned (omega (arith, h.0), h.1)
Ends-push_literal l before longer columns le rejected = rejected

Ends-in_items :
    (ts : List Token) (columns : List Text) → Ends (Shorter ts columns) (in_items ts columns)
unfolding in_items with_literal
Ends-in_items [] columns = rejected
Ends-in_items (t ∷ []) columns =
    Ends-when_some _ (literal_of t) _ (λ l. Ends-last (l ∷ []) [] (t ∷ []) columns (omega arith))
Ends-in_items (t ∷ u ∷ ts) columns = Ends-when_some _ (literal_of t) _ (λ l.
    Ends-if (is_comma u)
      (λ _. Ends-push_literal l ts (t ∷ u ∷ ts) columns (omega arith) (Ends-in_items ts columns))
      (Ends-last (l ∷ []) (u ∷ ts) (t ∷ u ∷ ts) columns (omega arith)))

module _ (end : ℕ) where
  Ends-comparison_rhs :
      (column : Text) (o : CmpOp) (t : Token) (ts : List Token) (columns : List Text)
      → Ends (AfterColumn ts columns column) (comparison_rhs end column o t ts columns)
  unfolding comparison_rhs named
  Ends-comparison_rhs column o t [] columns = rejected
  Ends-comparison_rhs column o t (u ∷ ts) columns =
      Ends-if (is_equality o && keyword (text "NULL") u) (λ _. rejected)
        (Ends-when_some _ (literal_of u) _ (λ l. returned (omega arith, refl, refl)))

  Ends-in_list_of :
      (column : Text) (negated : Bool) (ts longer : List Token) (columns : List Text)
      → length ts ≤ length longer
      → Ends (AfterColumn longer columns column) (in_list_of end column negated ts columns)
  unfolding in_list_of named
  Ends-in_list_of column negated ts longer columns le =
      Ends-if (at_lparen ts)
        (λ _.
          Ends-if (at_rparen (tail ts)) (λ _. rejected)
            (Ends-then _ (Ends-in_items (tail ts) columns) (λ list rest columns' h.
              returned (omega (arith, h.0, tail-length ts, le), h.1, refl))))
        rejected

  Ends-accept_keyword :
      (k : Text) (ts : List Token) (columns : List Text)
      → Ends
          (λ b rest columns'. (length rest ≤ length ts) × (columns' ≡ columns))
          (accept_keyword k ts columns)
  unfolding accept_keyword
  Ends-accept_keyword k ts columns =
      Ends-if (at_keyword k ts) (λ _. returned (tail-length ts, refl))
        (returned (omega arith, refl))

  Ends-after_is :
      (column : Text) (ts : List Token) (columns : List Text)
      → Ends (AfterColumn ts columns column) (after_is end column ts columns)
  unfolding after_is named
  Ends-after_is column ts columns =
      Ends-then _ (Ends-accept_keyword (text "NOT") ts columns) (λ negated ts₁ columns₁ h.
        Ends-then _ (Ends-accept_keyword (text "NULL") ts₁ columns₁) (λ found_null ts₂ columns₂ k.
          Ends-if found_null (λ _. returned (omega (arith, h.0, k.0), k.1 ∙ h.1, refl)) rejected))

  Ends-after_not :
      (column : Text) (t : Token) (ts : List Token) (columns : List Text)
      → Ends (AfterColumn ts columns column) (after_not end column t ts columns)
  unfolding after_not
  Ends-after_not column t ts columns =
      Ends-then _ (Ends-accept_keyword (text "IN") ts columns) (λ found_in ts₁ columns₁ h.
        Ends-if found_in
          (λ _.
            Ends-weaken (Ends-in_list_of column true ts₁ ts columns₁ h.0)
              (λ e rest columns' k. (k.0, k.1 ∙ h.1, k.2)))
          rejected)

  Ends-word_after :
      (column : Text) (t : Token) (ts : List Token) (columns : List Text)
      → Ends (AfterColumn ts columns column) (word_after end column t ts columns)
  unfolding word_after
  Ends-word_after column t ts columns =
      Ends-if (keyword (text "IS") t) (λ _. Ends-after_is column ts columns)
        (Ends-if (keyword (text "IN") t)
          (λ _. Ends-in_list_of column false ts ts columns (omega arith))
          (Ends-if (keyword (text "NOT") t) (λ _. Ends-after_not column t ts columns)
            (Ends-if (is_word_operator t) (λ _. rejected) rejected)))

  Ends-after_tok :
      (column : Text) (t : Token) (k : Tok) (ts : List Token) (columns : List Text)
      → Ends (AfterColumn ts columns column) (after_tok end column t k ts columns)
  unfolding after_tok
  Ends-after_tok column t (op o) ts columns = Ends-comparison_rhs column o t ts columns
  Ends-after_tok column t (ident word) ts columns = Ends-word_after column t ts columns
  Ends-after_tok column t _ ts columns = rejected

  Ends-after_column :
      (column : Text) (ts : List Token) (columns : List Text)
      → Ends (AfterColumn ts columns column) (after_column end column ts columns)
  unfolding after_column
  Ends-after_column column [] columns = rejected
  Ends-after_column column (t ∷ ts) columns =
      Ends-weaken (Ends-after_tok column t t.tok ts columns)
        (λ e rest columns' h. (omega (arith, h.0), h.1, h.2))

  pub Ends-comparison :
      (ts : List Token) (columns : List Text)
      → Ends (Reads 1 (length ts) columns) (comparison end ts columns)
  unfolding comparison
  Ends-comparison [] columns = rejected
  Ends-comparison (t ∷ ts) columns = Ends-when_some _ (column_of t) _ (λ column.
      Ends-if (at_lparen ts) (λ _. rejected)
        (Ends-weaken (Ends-after_column column ts (columns ++ column ∷ []))
          (λ e rest columns' h. (omega (arith, h.0), rw (h.2) h.1))))
