-- ===== src/Core/Filter/Eval/Columns.antt =====
-- What a filter reads of a row.
use pg2osync.Base.{◌≡◌, List, [], ◌∷◌, ◌++◌, All}
use pg2osync.Base.Text.{Text}
use pg2osync.Core.Json.{Fields, get_field}
use pg2osync.Core.Filter.Syntax.{Floats, Expr, cmp, is_null, in_list, and, or, named}
use pg2osync.Core.Filter.Eval.{eval}

module _ (doc other : Fields) where
  -- These columns are alike in both documents, present or not.
  abbrev pub Agree : List Text → Type 0
  Agree = All (λ column. get_field column doc ≡ get_field column other)

  Agree-left : (ks js : List Text) → Agree (ks ++ js) → Agree ks
  Agree-left [] js h = tt
  Agree-left (k ∷ ks) js h = (h.0, Agree-left ks js h.1)

  Agree-right : (ks js : List Text) → Agree (ks ++ js) → Agree js
  Agree-right [] js h = h
  Agree-right (k ∷ ks) js h = Agree-right ks js h.1

module _ (floats : Floats) (doc other : Fields) where
  pub eval-Agree : (e : Expr) → Agree doc other (named e) → eval floats e doc ≡ eval floats e other
  unfolding eval named
  eval-Agree (cmp column op literal) h = rw h.0
  eval-Agree (is_null column negated) h = rw h.0
  eval-Agree (in_list column list negated) h = rw h.0
  eval-Agree (and a b) h = rw (
    eval-Agree a (Agree-left doc other (named a) (named b) h),
    eval-Agree b (Agree-right doc other (named a) (named b) h),
  )
  eval-Agree (or a b) h = rw (
    eval-Agree a (Agree-left doc other (named a) (named b) h),
    eval-Agree b (Agree-right doc other (named a) (named b) h),
  )
  eval-Agree (Expr.not a) h = rw (eval-Agree a h)
