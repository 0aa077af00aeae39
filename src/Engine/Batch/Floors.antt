-- ===== src/Engine/Batch/Floors.antt =====
-- What the window remembers of the documents that were removed, while a load is running.
use pg2osync.Base.{
  ℕ, ◌≤◌, ◌≡◌, refl, ◌∙◌, true, false, List, [], ◌∷◌, Option, none, some, Bool, Bool-cases, inl,
  inr, ◌&&◌, All, All-append, ltb, arith,
}
use pg2osync.Base.Map.{get, get-put}
use pg2osync.Base.Text.{Text, text_key, pair_key, pair_eq_iff, pair_eq}
use pg2osync.Core.Event.{RowChange}
use pg2osync.Core.Json.{Value}
use pg2osync.Core.Sink.{DocumentOp, upsert, delete, delete_children}
use pg2osync.Engine.Batch.State.{RowRules}
use pg2osync.Engine.Batch.Rows.{
  Removed, Cleared, later_than, is_dead, survivors, floor_at, remember, remember_all,
}
use pg2osync.Engine.Batch.Gathered.{emitted, shape_ops, window_after, row_ops}

-- An operation that writes this document at an earlier version.
unfoldable pub is_older_write : Text × Text → ℕ → DocumentOp → Bool
is_older_write key version (upsert index id routing doc (some v) pipeline) =
    pair_eq (index, id) key && ltb v version
is_older_write key version _ = false

abbrev pub Respects : Text × Text → ℕ → DocumentOp → Type 0
Respects key version op = is_older_write key version op ≡ false

pub record Below (key : Text × Text) (version : ℕ) (removed : Removed) : Type 0 where
  pub floor : ℕ
  pub known : get key removed ≡ some floor
  pub above : version ≤ floor

above-floor_at : (at : Option ℕ) (f v : ℕ) → at ≡ some f → f ≤ floor_at at v
unfolding floor_at
above-floor_at none f v e = cc
above-floor_at (some w) f v e = ground arith

pub new-floor_at : (at : Option ℕ) (v : ℕ) → v ≤ floor_at at v
unfolding floor_at
new-floor_at none v = omega arith
new-floor_at (some w) v = omega arith

Below-remember :
    (key : Text × Text) (version : ℕ) (op : DocumentOp) (removed : Removed)
    → Below key version removed
    → Below key version (remember op removed)
unfolding remember
Below-remember key version (delete index id routing (some v)) removed b =
    let floor = floor_at (get (index, id) removed) v in
    elim (Bool-cases (pair_eq (index, id) key)) [
      | inl same ↦
          let e : (index, id) ≡ key = (pair_eq_iff (index, id) key).0 same in
          let raised = above-floor_at (get (index, id) removed) b.floor v (rw e b.known) in
          record {
            floor = floor;
            known = get-put (index, id) key floor removed ∙ rw same refl;
            above = omega (arith, b.above, raised);
          }
      | inr other ↦ record {
        floor = b.floor;
        known = get-put (index, id) key floor removed ∙ rw other b.known;
        above = b.above;
      }
    ]
Below-remember key version (delete index id routing none) removed b = b
Below-remember key version (upsert index id routing doc v pipeline) removed b = b
Below-remember key version (delete_children index name parent_name parent_id v) removed b = b

pub Below-remember_all :
    (key : Text × Text) (version : ℕ) (ops : List DocumentOp) (removed : Removed)
    → Below key version removed
    → Below key version (remember_all ops removed)
unfolding remember_all
Below-remember_all key version [] removed b = b
Below-remember_all key version (op ∷ ops) removed b =
    Below-remember_all key version ops (remember op removed)
      (Below-remember key version op removed b)

-- A write that goes through is no older than what is remembered of its document.
Respects-alive :
    (matches : Text → Text → Bool) (key : Text × Text) (version : ℕ) (removed : Removed)
    (cleared : Cleared) (op : DocumentOp)
    → Below key version removed
    → is_dead matches removed cleared op ≡ false
    → Respects key version op
unfolding is_dead later_than is_older_write
Respects-alive matches key version removed cleared (upsert index id routing doc (some v) pipeline) b
      h =
    elim (Bool-cases (pair_eq (index, id) key)) [
      | inl same ↦
          let e : (index, id) ≡ key = (pair_eq_iff (index, id) key).0 same in
          let known : get (index, id) removed ≡ some b.floor = rw e b.known in
          ground (arith, known, b.above)
      | inr other ↦ rw other refl
    ]
Respects-alive matches key version removed cleared (upsert index id routing doc none pipeline) b h =
    refl
Respects-alive matches key version removed cleared (delete index id routing v) b h = refl
Respects-alive matches key version removed cleared (delete_children i n pn pi v) b h = refl

pub Respects-survivors :
    (matches : Text → Text → Bool) (key : Text × Text) (version : ℕ) (removed : Removed)
    (cleared : Cleared) (ops : List DocumentOp)
    → Below key version removed
    → All (Respects key version) (survivors matches removed cleared ops)
unfolding survivors
Respects-survivors matches key version removed cleared [] b = tt
Respects-survivors matches key version removed cleared (op ∷ ops) b =
    let rest = Respects-survivors matches key version removed cleared ops b in
    elim (Bool-cases (is_dead matches removed cleared op)) [
      | inl dead ↦ rw dead rest
      | inr alive ↦ rw alive (Respects-alive matches key version removed cleared op b alive, rest)
    ]

module _ (rules : RowRules) (previous : RowChange → Option Value) where
  -- What is remembered holds for every row that comes later.
  pub Respects-emitted :
      (key : Text × Text) (version : ℕ) (cleared : Cleared) (rs : List RowChange)
      (removed : Removed)
      → Below key version removed
      → All (Respects key version) (emitted rules previous true cleared rs removed)
  unfolding emitted row_ops window_after
  Respects-emitted key version cleared [] removed b = tt
  Respects-emitted key version cleared (r ∷ rs) removed b =
      let ops = row_ops rules previous r removed cleared in
      All-append (Respects key version) ops _
        (Respects-survivors rules.index_matches key version removed cleared
          (shape_ops (rules.shape r (previous r))) b)
        (Respects-emitted key version cleared rs (remember_all ops removed)
          (Below-remember_all key version ops removed b))
