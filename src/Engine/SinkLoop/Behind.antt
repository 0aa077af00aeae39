-- ===== src/Engine/SinkLoop/Behind.antt =====
-- When a sequence of effects is behind a log: every operation and clear in its place, and an
-- acknowledged position only after everything that stands before its commit in the log.
use pg2osync.Base.{
  ℕ, ◌<◌, ◌≡◌, ◌⊎◌, refl, ap, max, false, inl, inr, List, [], ◌∷◌, ◌++◌, map, append_assoc, arith,
  ◌==◌, if◌then◌else◌, Bool-cases, ltb, tests,
}
use pg2osync.Core.Sink.{DocumentOp, LsnOp}
use pg2osync.Engine.Batch.View.{Item, op, committed, clear, mark_at, view_ops}
use pg2osync.Engine.SinkLoop.{Effect, written, filed, acked, marked, truncated}

abbrev pub Has : ℕ → List ℕ → Type 0
Has l [] = ⊥
Has l (k ∷ ks) = (l ≡ k) ⊎ Has l ks

-- What the effects did to the target, and the positions that were acknowledged.
unfoldable pub effects_view : List Effect → List Item
effects_view [] = []
effects_view (written batch ∷ es) = map (λ (o : LsnOp). op o.op) batch ++ effects_view es
effects_view (filed rejected ∷ es) = effects_view es
effects_view (acked lsn ∷ es) = committed lsn.value ∷ effects_view es
effects_view (marked mark ∷ es) = effects_view es
effects_view (truncated index version only ∷ es) = clear index version only ∷ effects_view es

pub effects_view-append :
    (es fs : List Effect) → effects_view (es ++ fs) ≡ effects_view es ++ effects_view fs
unfolding effects_view
effects_view-append [] fs = refl
effects_view-append (written batch ∷ es) fs = simp (effects_view-append es fs, append_assoc)
effects_view-append (filed rejected ∷ es) fs = effects_view-append es fs
effects_view-append (acked lsn ∷ es) fs = ap (◌∷◌ (committed lsn.value)) (effects_view-append es fs)
effects_view-append (marked mark ∷ es) fs = effects_view-append es fs
effects_view-append (truncated index version only ∷ es) fs =
    ap (◌∷◌ (clear index version only)) (effects_view-append es fs)

-- `Behind before log seen rest after`: from a log whose commits `before` have been passed, `seen`
-- was done; `rest` of the log is still to do, and the commits `after` have been passed.
pub data Behind (rest : List Item) (after : List ℕ) : List ℕ → List Item → List Item → Type 0 where
  stopped : Behind rest after after rest []
  did_op :
      {before : List ℕ} {log seen : List Item} (o : DocumentOp)
      → Behind rest after before log seen
      → Behind rest after before (op o ∷ log) (op o ∷ seen)
  did_clear :
      {before : List ℕ} {log seen : List Item} {i : Item}
      → ((lsn : ℕ) → ¬ (i ≡ committed lsn))
      → Behind rest after before log seen
      → Behind rest after before (i ∷ log) (i ∷ seen)
  passed :
      {before : List ℕ} {log seen : List Item} (lsn : ℕ)
      → Behind rest after (lsn ∷ before) log seen
      → Behind rest after before (committed lsn ∷ log) seen
  acks :
      {before : List ℕ} {log seen : List Item} (lsn : ℕ)
      → Has lsn before
      → Behind rest after before log seen
      → Behind rest after before log (committed lsn ∷ seen)

pub Behind-append :
    {mid rest : List Item} {between after before : List ℕ} {log seen seen' : List Item}
    → Behind mid between before log seen
    → Behind rest after between mid seen'
    → Behind rest after before log (seen ++ seen')
Behind-append stopped g = g
Behind-append (did_op o f) g = did_op o (Behind-append f g)
Behind-append (did_clear c f) g = did_clear c (Behind-append f g)
Behind-append (passed lsn f) g = passed lsn (Behind-append f g)
Behind-append (acks lsn h f) g = acks lsn h (Behind-append f g)

-- The log may grow at its end.
pub Behind-more :
    {rest : List Item} {after before : List ℕ} {log seen : List Item} (more : List Item)
    → Behind rest after before log seen
    → Behind (rest ++ more) after before (log ++ more) seen
Behind-more more stopped = stopped
Behind-more more (did_op o f) = did_op o (Behind-more more f)
Behind-more more (did_clear c f) = did_clear c (Behind-more more f)
Behind-more more (passed lsn f) = passed lsn (Behind-more more f)
Behind-more more (acks lsn h f) = acks lsn h (Behind-more more f)

-- The commits that are passed with a batch.
unfoldable pub passes : List LsnOp → List ℕ → List ℕ
passes [] before = before
passes (o ∷ os) before = passes os (if o.lsn.value == 0 then before else o.lsn.value ∷ before)

pub Behind-batch :
    (batch : List LsnOp) (rest : List Item) (before : List ℕ)
    → Behind rest
        (passes batch before)
        before
        (view_ops batch ++ rest)
        (map (λ (o : LsnOp). op o.op) batch)
unfolding view_ops passes mark_at
Behind-batch [] rest before = stopped
Behind-batch (o ∷ os) rest before = did_op o.op (elim (Bool-cases (o.lsn.value == 0)) [
  | inl none' ↦ rw none' (Behind-batch os rest before)
  | inr some' ↦ rw some' (passed o.lsn.value (Behind-batch os rest (o.lsn.value ∷ before)))
])

-- The highest position in a batch.
unfoldable pub highest : List LsnOp → ℕ
highest [] = 0
highest (o ∷ os) = max o.lsn.value (highest os)

Has-passes_of_before :
    (l : ℕ) (batch : List LsnOp) (before : List ℕ) → Has l before → Has l (passes batch before)
unfolding passes
Has-passes_of_before l [] before h = h
Has-passes_of_before l (o ∷ os) before h =
    Has-passes_of_before l os _ (elim (Bool-cases (o.lsn.value == 0)) [
      | inl none' ↦ rw none' h
      | inr some' ↦ rw some' (inr h)
    ])

pub Has-highest :
    (batch : List LsnOp) (before : List ℕ)
    → 0 < highest batch
    → Has (highest batch) (passes batch before)
unfolding highest passes
Has-highest [] before h = elim h [ ]
Has-highest (o ∷ os) before h = elim (Bool-cases (ltb o.lsn.value (highest os))) [
  | inl later ↦
      let e : max o.lsn.value (highest os) ≡ highest os = omega (tests) in
      rw e (Has-highest os _ (omega tests))
  | inr here ↦
      let e : max o.lsn.value (highest os) ≡ o.lsn.value = ground arith in
      let some' : (o.lsn.value == 0) ≡ false = ground arith in
      rw (e, some') (Has-passes_of_before o.lsn.value os (o.lsn.value ∷ before) (inl refl))
]
