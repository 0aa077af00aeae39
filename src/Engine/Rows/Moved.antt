-- ===== src/Engine/Rows/Moved.antt =====
-- What an update leaves in the target: the row's new state where it belongs, and nothing where its old
-- state was.
use pg2osync.Base.{ℕ, ◌≡◌, refl, true, false, Option, none, some, [], Bool-cases, inl, inr}
use pg2osync.Base.Text.{Text}
use pg2osync.Core.Json.{Value}
use pg2osync.Core.Event.{RowKind, insert, update}
use pg2osync.Core.Sink.{delete}
use pg2osync.Core.Filter.Syntax.{Floats, Filter}
use pg2osync.Core.Filter.Eval.{matches}
use pg2osync.Engine.Mapping.{done, IndexTarget}
use pg2osync.Engine.Placing.{Outside}
use pg2osync.Engine.Rows.{Rules, value_or, completion, filter_out}
use pg2osync.Engine.Rows.Materialize.{
  Written, refuses, map_option, inserted, updated, deleted, written_kind, materialize,
}

abbrev pub Accepts : Floats → Option Filter → Value → Type 0
Accepts floats none doc = Unit
Accepts floats (some filter) doc = matches floats filter doc ≡ true

filter_out-delete :
    (floats : Floats) (pk : Value) (before full : Option Value) (filter : Option Filter)
    → filter_out floats (RowKind.delete pk before) full filter ≡ RowKind.delete pk before
unfolding filter_out
filter_out-delete floats pk before full none = refl
filter_out-delete floats pk before full (some filter) = refl

filter_out-insert :
    (floats : Floats) (pk doc : Value) (full : Option Value) (filter : Option Filter)
    → Accepts floats filter doc
    → filter_out floats (insert pk doc) full filter ≡ insert pk doc
unfolding filter_out
filter_out-insert floats pk doc full none h = refl
filter_out-insert floats pk doc full (some filter) h = simp h

filter_out-update :
    (floats : Floats) (pk : Value) (previous_pk : Option Value) (doc : Value)
    (before : Option Value) (filter : Option Filter)
    → Accepts floats filter doc
    → filter_out floats (update pk previous_pk doc [] before) none filter
      ≡ update pk previous_pk doc [] before
unfolding filter_out value_or
filter_out-update floats pk previous_pk doc before none h = refl
filter_out-update floats pk previous_pk doc before (some filter) h = simp h

module _ (outside : Outside) (floats : Floats) (rules : Rules) (target : IndexTarget)
    (version : Option ℕ) where
  pub materialize-delete :
      (pk : Value) (before : Option Value) (w : Written)
      → materialize outside rules target version floats (RowKind.delete pk before) none ≡ done w
      → (rules.append_only ≡ false) × (deleted outside rules target version pk before ≡ done w)
  unfolding materialize refuses completion map_option written_kind
  materialize-delete pk before w e = elim (Bool-cases rules.append_only) [
    | inl stop ↦ cc (simp stop at e)
    | inr keyed ↦ (keyed, simp (keyed, filter_out-delete floats pk before none rules.filter) at e)
  ]

  pub materialize-insert :
      (pk doc : Value) (w : Written)
      → Accepts floats rules.filter doc
      → materialize outside rules target version floats (insert pk doc) none ≡ done w
      → inserted outside rules target version pk doc ≡ done w
  unfolding materialize refuses completion map_option written_kind
  materialize-insert pk doc w h e = simp (filter_out-insert floats pk doc none rules.filter h) at e

  pub materialize-update :
      (pk : Value) (previous_pk : Option Value) (doc : Value) (before previous : Option Value)
      → rules.append_only ≡ false
      → Accepts floats rules.filter doc
      → materialize outside rules target version floats
          (update pk previous_pk doc [] before)
          previous
        ≡ updated outside rules target version pk previous_pk doc [] before
  unfolding materialize refuses completion map_option written_kind
  materialize-update pk previous_pk doc before previous keyed h =
      simp (keyed, filter_out-update floats pk previous_pk doc before rules.filter h)
