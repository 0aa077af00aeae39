-- ===== src/Core/Filter/Tokens.antt =====
-- Tokens, keywords, and what a refusal's message names.
use pg2osync.Base.{ℕ, ◌-◌, Bool, true, false, ◌&&◌, ◌||◌, List, [], ◌∷◌, leb, ◌==◌, if◌then◌else◌}
use pg2osync.Base.Int.{ℤ}
use pg2osync.Base.Text.{Text, text}
use pg2osync.Core.Json.{Float}
use pg2osync.Core.Filter.Syntax.{CmpOp}

pub data Tok : Type 0 where
  ident str : Text → Tok
  int : ℤ → Tok
  float : Float → Tok
  op : CmpOp → Tok
  lparen rparen comma : Tok

pub record Token : Type 0 where
  pub tok : Tok
  pub offset : ℕ
  pub spelled : Text

-- How a message names what it found.
pub data Found : Type 0 where
  -- `describe`, as written or in quotes
  verbatim quoted : Text → Found
  the_end : Found

pub data Refusal : Type 0 where
  empty_predicate : Refusal
  -- what was found, and its offset
  extra no_column : Found → ℕ → Refusal
  function_call : Text → ℕ → Refusal
  -- the column before, what was found, and its offset
  no_operator : Text → Found → ℕ → Refusal
  is_without_null : ℕ → Refusal
  not_word_operator : Text → ℕ → Refusal
  not_without_in : Found → ℕ → Refusal
  word_operator : Found → ℕ → Refusal
  -- the operator as it is spelled
  null_comparison : Text → ℕ → Refusal
  no_literal : Text → Found → ℕ → Refusal
  no_list empty_list not_literal no_rparen : ℕ → Refusal
  unclosed : Refusal
  unterminated unexpected_character : ℕ → Refusal
  unsupported_symbol : ℕ → ℕ → Refusal
  out_of_range : Text → ℕ → Refusal

-- `eq_ignore_ascii_case`, of a word and a literal in capitals
unfoldable pub upper : ℕ → ℕ
upper c = if leb 97 c && leb c 122 then c - 32 else c

unfoldable pub is_word : Text → Text → Bool
is_word [] [] = true
is_word [] (d ∷ t) = false
is_word (c ∷ s) [] = false
is_word (c ∷ s) (d ∷ t) = (upper c == d) && is_word s t

unfoldable pub is_any : Text → List Text → Bool
is_any word [] = false
is_any word (k ∷ ks) = is_word word k || is_any word ks

abbrev pub keywords : List Text
keywords =
    text "AND"
    ∷ text "OR"
    ∷ text "NOT"
    ∷ text "IS"
    ∷ text "NULL"
    ∷ text "IN"
    ∷ text "TRUE"
    ∷ text "FALSE"
    ∷ []

abbrev pub word_operators : List Text
word_operators =
    text "LIKE"
    ∷ text "ILIKE"
    ∷ text "BETWEEN"
    ∷ text "SIMILAR"
    ∷ text "ANY"
    ∷ text "ALL"
    ∷ text "EXISTS"
    ∷ []

unfoldable pub describe : Token → Found
describe t = elim t.tok [
  | ident s ↦ quoted t.spelled
  | op o ↦ quoted t.spelled
  | lparen ↦ quoted t.spelled
  | rparen ↦ quoted t.spelled
  | comma ↦ quoted t.spelled
  | str s ↦ verbatim t.spelled
  | int i ↦ verbatim t.spelled
  | float f ↦ verbatim t.spelled
]
