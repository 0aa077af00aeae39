-- ===== src/Engine/Batch/Gathered.antt =====
-- What the `Row` arm lets through: the operations of the rows, whatever the batch boundaries.
use pg2osync.Base.{
  ◌≡◌, refl, sym, ap, ◌∙◌, Bool, true, false, List, [], ◌∷◌, ◌++◌, map, append-nil, append_assoc,
  map-append, arith, if◌then◌else◌, Option, none, some, Bool-cases, inl, inr,
}
use pg2osync.Core.Error.{Result, ok, err, >>=-eq-ok}
use pg2osync.Core.Event.{RowChange}
use pg2osync.Core.Json.{Value}
use pg2osync.Core.Sink.{DocumentOp}
use pg2osync.Engine.Command
use pg2osync.Engine.Command.{SinkCommand}
use pg2osync.Engine.Batch.State.{State, RowRules, flush}
use pg2osync.Engine.Batch.Rows.{
  Removed, Cleared, survivors, remember_all, buffer_ops, is_full, kept, add_ops, process_row,
  process_rows, stamp,
}
use pg2osync.Engine.Batch.View.{
  op, view, view_ops, view_command, mark_at, view_ops-append, view_sent-snoc,
}

-- The fields that a write of the buffer leaves alone.
pub record SameWindow (s t : State) : Type 0 where
  pub superseded : t.superseded ≡ s.superseded
  pub cleared : t.cleared ≡ s.cleared
  pub copy : t.copy ≡ s.copy
  pub stream_txn_open : t.stream_txn_open ≡ s.stream_txn_open
  pub pending_mark : t.pending_mark ≡ s.pending_mark
  pub settings : t.settings ≡ s.settings

pub SameWindow-refl : (s : State) → SameWindow s s
SameWindow-refl s = record {
  superseded = refl;
  cleared = refl;
  copy = refl;
  stream_txn_open = refl;
  pending_mark = refl;
  settings = refl;
}

pub flush-eq-ok :
    (s : State) {s' : State}
    → flush s ≡ ok s'
    → s' ≡ record s {
      txn_buffer = [];
      txn_bytes = 0;
      sent = s.sent ++ Command.write s.txn_buffer ∷ [];
    }
unfolding flush
flush-eq-ok s h = ground arith

-- A write of the buffer moves it into `sent`, and changes nothing in what is let through.
pub view-flush : (s : State) {s' : State} → flush s ≡ ok s' → view s' ≡ view s
unfolding view view_ops view_command
view-flush s {s'} h =
    rw (flush-eq-ok s h) (rw (view_sent-snoc s.sent (Command.write s.txn_buffer)) (rw append-nil))

pub SameWindow-flush : (s : State) {s' : State} → flush s ≡ ok s' → SameWindow s s'
SameWindow-flush s h = rw (flush-eq-ok s h) (record {
  superseded = refl;
  cleared = refl;
  copy = refl;
  stream_txn_open = refl;
  pending_mark = refl;
  settings = refl;
})

view_ops-stamp : (ops : List DocumentOp) → view_ops (map stamp ops) ≡ map op ops
unfolding view_ops mark_at stamp
view_ops-stamp [] = refl
view_ops-stamp (o ∷ os) = ap (◌∷◌ (op o)) (view_ops-stamp os)

pub view-buffer_ops :
    (ops : List DocumentOp) (s : State) → view (buffer_ops ops s) ≡ view s ++ map op ops
unfolding view buffer_ops
view-buffer_ops ops s = simp (view_ops-append, view_ops-stamp, append_assoc)

-- What a row's shape gives: nothing where the table has no index, or where the row is refused.
unfoldable pub shape_ops : Option (Result (List DocumentOp)) → List DocumentOp
shape_ops none = []
shape_ops (some (ok ops)) = ops
shape_ops (some (err e)) = []

-- The deletes that are remembered after operations went through, if a load is running.
unfoldable pub window_after : Bool → List DocumentOp → Removed → Removed
window_after running ops removed = if running then remember_all ops removed else removed

window_after-nil : (running : Bool) (removed : Removed) → window_after running [] removed ≡ removed
unfolding window_after remember_all
window_after-nil true removed = refl
window_after-nil false removed = refl

-- The operations of a group of rows, in order: each row's, less what the stream has removed since.
-- Batch sizes, commits and the buffer play no part in it.
module _ (rules : RowRules) (previous : RowChange → Option Value) where
  unfoldable pub row_ops : RowChange → Removed → Cleared → List DocumentOp
  row_ops r removed cleared =
      survivors rules.index_matches removed cleared (shape_ops (rules.shape r (previous r)))

  unfoldable pub emitted : Bool → Cleared → List RowChange → Removed → List DocumentOp
  unfolding row_ops
  emitted running cleared [] removed = []
  emitted running cleared (r ∷ rs) removed =
      let ops = row_ops r removed cleared in
      ops ++ emitted running cleared rs (window_after running ops removed)

-- What one row did to the state: its operations went through, and the window took note of them.
record RowEffect (ops : List DocumentOp) (s t : State) : Type 0 where
  through : view t ≡ view s ++ map op ops
  superseded : t.superseded ≡ window_after s.copy.load_running ops s.superseded
  cleared : t.cleared ≡ s.cleared
  running : t.copy.load_running ≡ s.copy.load_running

settle :
    (t : State) {s' : State}
    → (if is_full t then flush t else ok t) ≡ ok s'
    → (view s' ≡ view t) × SameWindow t s'
settle t {s'} h = elim (Bool-cases (is_full t)) [
  | inl full ↦
      let flushed : flush t ≡ ok s' = rw full at h in
      (view-flush t flushed, SameWindow-flush t flushed)
  | inr room ↦ let same : t ≡ s' = cc (rw room at h) in rw (← same) (refl, SameWindow-refl t)
]

RowEffect-buffer_ops :
    (ops : List DocumentOp) (s : State) {s' : State}
    → view s' ≡ view (buffer_ops ops s)
    → SameWindow (buffer_ops ops s) s'
    → RowEffect ops s s'
unfolding buffer_ops window_after
RowEffect-buffer_ops ops s v w = record {
  through = v ∙ view-buffer_ops ops s;
  superseded = w.superseded;
  cleared = w.cleared;
  running = ap (λ c. c.load_running) w.copy;
}

module _ (rules : RowRules) where
  RowEffect-add_ops :
      (shape : Option (Result (List DocumentOp))) (s : State) {s' : State}
      → add_ops rules shape s ≡ ok s'
      → RowEffect (kept rules s (shape_ops shape)) s s'
  unfolding add_ops shape_ops kept survivors
  RowEffect-add_ops none s {s'} h =
      let same : s ≡ s' = cc in
      rw (← same) (record {
        through = sym (append-nil (view s));
        superseded = sym (window_after-nil s.copy.load_running s.superseded);
        cleared = refl;
        running = refl;
      })
  RowEffect-add_ops (some (err e)) s h = cc
  RowEffect-add_ops (some (ok ops)) s h =
      let (v, w) = settle (buffer_ops (kept rules s ops) s) h in
      RowEffect-buffer_ops (kept rules s ops) s v w

  RowEffect-process_row :
      (previous : RowChange → Option Value) (r : RowChange) (s : State) {s' : State}
      → process_row rules previous r s ≡ ok s'
      → RowEffect (row_ops rules previous r s.superseded s.cleared) s s'
  unfolding process_row row_ops kept
  RowEffect-process_row previous r s h = RowEffect-add_ops (rules.shape r (previous r)) s h

  pub process_rows-emitted :
      (previous : RowChange → Option Value) (rs : List RowChange) (s : State) {s' : State}
      → process_rows rules previous rs s ≡ ok s'
      → view s'
        ≡ view s ++ map op (emitted rules previous s.copy.load_running s.cleared rs s.superseded)
  unfolding process_rows emitted
  process_rows-emitted previous [] s {s'} h =
      let same : s ≡ s' = cc in rw (← same) (sym (append-nil _))
  process_rows-emitted previous (r ∷ rs) s h =
      let (t, first, rest) =
        >>=-eq-ok (process_row rules previous r s) (process_rows rules previous rs) h in
      let f = RowEffect-process_row previous r s first in
      process_rows-emitted previous rs t rest
      ∙ rw (f.through, f.superseded, f.cleared, f.running) (rw (map-append, append_assoc))
