-- ===== src/Engine/Batch/Quiet.antt =====
-- The handlers that send no load mark, and leave the one that waits where it is.
use pg2osync.Base.{
  ℕ, ◌-◌, arith, ◌≡◌, refl, ap, ◌∙◌, List, [], ◌∷◌, ◌++◌, append-nil, ◌==◌, Option, none, some,
  Bool-cases, inl, inr, ◌&&◌, not, when_true, when_false,
}
use pg2osync.Base.Text.{Text}
use pg2osync.Core.Error.{Result, ok, err, >>=-eq-ok, ok_inj}
use pg2osync.Core.Event.{ChangeEvent, RowChange, load_mark}
use pg2osync.Core.Json.{Value}
use pg2osync.Core.Lsn.{Lsn}
use pg2osync.Core.Sink.{DocumentOp}
use pg2osync.Engine.Command
use pg2osync.Engine.Command.{SinkCommand}
use pg2osync.Engine.Batch.State.{State, RowRules, send, flush, try_next}
use pg2osync.Engine.Batch.Rows.{
  gather, buffer_ops, is_full, kept, add_ops, process_row, process_rows, handle_rows,
}
use pg2osync.Engine.Batch.Handlers.{
  is_empty, close_txn, defer, is_some, overdue, coalesce, send_position, flush_buffer, note_clear,
  clear_index, is_unscoped, truncate_target,
}
use pg2osync.Engine.Batch.Moves.{SameWork, SameWork-trans, gather-SameWork, try_next-SameWork}
use pg2osync.Engine.Batch.Commits.{defer-SameWork}

unfoldable pub mark_in : SinkCommand → List ℕ
mark_in (Command.write ops) = []
mark_in (Command.truncate index version only) = []
mark_in (Command.load_mark mark) = mark ∷ []
mark_in (Command.position lsn) = []

unfoldable pub marks : List SinkCommand → List ℕ
unfolding mark_in
marks [] = []
marks (c ∷ cs) = mark_in c ++ marks cs

unfoldable pub mark_of : ChangeEvent → Option ℕ
mark_of (load_mark mark) = some mark
mark_of _ = none

-- No mark went out, and the one that waits still does.
pub record Quiet (s t : State) : Type 0 where
  pub sent : marks t.sent ≡ marks s.sent
  pub pending : t.pending_mark ≡ s.pending_mark

pub Quiet-refl : (s : State) → Quiet s s
Quiet-refl s = record { sent = refl; pending = refl }

pub Quiet-trans : {s t u : State} → Quiet s t → Quiet t u → Quiet s u
Quiet-trans f g = record { sent = g.sent ∙ f.sent; pending = g.pending ∙ f.pending }

pub Quiet-SameWork : {s t : State} → SameWork s t → Quiet s t
Quiet-SameWork f = record { sent = ap marks f.sent; pending = f.pending_mark }

pub marks-snoc :
    (cs : List SinkCommand) (c : SinkCommand) → marks (cs ++ c ∷ []) ≡ marks cs ++ mark_in c
unfolding marks mark_in
marks-snoc [] c = append-nil (mark_in c)
marks-snoc (Command.load_mark m ∷ cs) c = ap (◌∷◌ m) (marks-snoc cs c)
marks-snoc (Command.write ops ∷ cs) c = marks-snoc cs c
marks-snoc (Command.truncate index version only ∷ cs) c = marks-snoc cs c
marks-snoc (Command.position lsn ∷ cs) c = marks-snoc cs c

pub send-eq-ok :
    (c : SinkCommand) (s : State) {t : State}
    → send c s ≡ ok t
    → record s { sent = s.sent ++ c ∷ [] } ≡ t
unfolding send
send-eq-ok c s h = ground arith

pub Quiet-send :
    (c : SinkCommand) (s : State) {t : State} → mark_in c ≡ [] → send c s ≡ ok t → Quiet s t
Quiet-send c s e h =
    rw (← send-eq-ok c s h)
      (record { sent = marks-snoc s.sent c ∙ rw (e, append-nil) refl; pending = refl })

pub Quiet-flush : (s : State) {t : State} → flush s ≡ ok t → Quiet s t
unfolding flush mark_in
Quiet-flush s h =
    let f = Quiet-send (Command.write s.txn_buffer) _ refl h in
    record { sent = f.sent; pending = f.pending }

pub Quiet-flush_buffer : (s : State) {t : State} → flush_buffer s ≡ ok t → Quiet s t
unfolding flush_buffer
Quiet-flush_buffer s h = elim (Bool-cases (is_empty s.txn_buffer)) [
  | inl none' ↦ let e = ok_inj (when_true _ _ _ none' h) in rw (← e) (Quiet-refl s)
  | inr some' ↦ Quiet-flush s (when_false _ _ _ some' h)
]

pub Quiet-add_ops :
    (rules : RowRules) (shape : Option (Result (List DocumentOp))) (s : State) {t : State}
    → add_ops rules shape s ≡ ok t
    → Quiet s t
unfolding add_ops buffer_ops
Quiet-add_ops rules none s h = let e = ok_inj h in rw (← e) (Quiet-refl s)
Quiet-add_ops rules (some (err e)) s h = cc
Quiet-add_ops rules (some (ok ops)) s h =
    let buffered = buffer_ops (kept rules s ops) s in
    elim (Bool-cases (is_full buffered)) [
      | inl full ↦
          let f = Quiet-flush buffered (when_true _ _ _ full h) in
          record { sent = f.sent; pending = f.pending }
      | inr left ↦
          let e = ok_inj (when_false _ _ _ left h) in
          rw (← e) (record { sent = refl; pending = refl })
    ]

pub Quiet-process_rows :
    (rules : RowRules) (previous : RowChange → Option Value) (rs : List RowChange) (s : State)
    {t : State}
    → process_rows rules previous rs s ≡ ok t
    → Quiet s t
unfolding process_rows process_row
Quiet-process_rows rules previous [] s h = let e = ok_inj h in rw (← e) (Quiet-refl s)
Quiet-process_rows rules previous (r ∷ rs) s h =
    let (t, first, rest) =
      >>=-eq-ok (process_row rules previous r s) (process_rows rules previous rs) h in
    Quiet-trans (Quiet-add_ops rules (rules.shape r (previous r)) s first)
      (Quiet-process_rows rules previous rs t rest)

pub Quiet-handle_rows :
    (rules : RowRules) (r : RowChange) (s : State) {t : State}
    → handle_rows rules r s ≡ ok t
    → Quiet s t
unfolding handle_rows
Quiet-handle_rows rules r s h =
    let (rs, t) = gather (s.settings.batch_size - 1) s in
    let (previous, completed, rest) = >>=-eq-ok (rules.complete t.now (r ∷ rs)) _ h in
    Quiet-trans (Quiet-SameWork (gather-SameWork (s.settings.batch_size - 1) s))
      (Quiet-process_rows rules previous (r ∷ rs) t rest)

pub Quiet-coalesce : (s : State) {t : State} → coalesce s ≡ ok t → Quiet s t
unfolding coalesce
Quiet-coalesce s h =
    let found = (try_next s).0 in
    let held = defer found (try_next s).1 in
    let same : Quiet s held =
      Quiet-SameWork (SameWork-trans (try_next-SameWork s) (defer-SameWork found (try_next s).1)) in
    elim (Bool-cases (is_some found && not (overdue s.now s.coalescing_since))) [
      | inl wait ↦
          let e = ok_inj (when_true _ _ _ wait h) in
          rw (← e) (record { sent = same.sent; pending = same.pending })
      | inr now' ↦
          let f = Quiet-flush _ (when_false _ _ _ now' h) in
          record { sent = f.sent ∙ same.sent; pending = f.pending ∙ same.pending }
    ]

pub Quiet-close_txn : (lsn : Lsn) (s : State) → Quiet s (close_txn lsn s)
unfolding close_txn
Quiet-close_txn lsn s = elim (Bool-cases (lsn.value == 0)) [
  | inl load ↦ rw load (Quiet-refl s)
  | inr stream ↦ rw stream (record { sent = refl; pending = refl })
]

pub Quiet-send_position :
    (lsn : Lsn) (s : State) {t : State} → send_position lsn s ≡ ok t → Quiet s t
unfolding send_position mark_in
Quiet-send_position lsn s h = elim (Bool-cases (lsn.value == 0)) [
  | inl load ↦ let e = ok_inj (when_true _ _ _ load h) in rw (← e) (Quiet-refl s)
  | inr stream ↦ Quiet-send (Command.position lsn) s refl (when_false _ _ _ stream h)
]

pub Quiet-note_clear :
    (index : Text) (version : Option ℕ) (only : Option (Text × Text)) (s : State)
    → Quiet s (note_clear index version only s)
unfolding note_clear
Quiet-note_clear index (some version) none s = elim (Bool-cases s.copy.load_running) [
  | inl running ↦ simp running (record { sent = refl; pending = refl })
  | inr over ↦ simp over (Quiet-refl s)
]
Quiet-note_clear index (some version) (some relation) s = Quiet-refl s
Quiet-note_clear index none only s = Quiet-refl s

pub Quiet-clear_index :
    (index : Text) (version : Option ℕ) (only : Option (Text × Text)) (s : State) {t : State}
    → clear_index index version only s ≡ ok t
    → Quiet s t
unfolding clear_index mark_in
Quiet-clear_index index version only s h =
    let (t, first, last) = >>=-eq-ok (flush_buffer s) _ h in
    let noted = Quiet-note_clear index version only (record t { txn_bytes = 0 }) in
    Quiet-trans (Quiet-flush_buffer s first) (
      Quiet-trans (record { sent = noted.sent; pending = noted.pending })
        (Quiet-send (Command.truncate index version only) _ refl last))

pub Quiet-truncate_target :
    (rules : RowRules) (target : Option Text) (only : Option (Text × Text)) (version : Option ℕ)
    (s : State) {t : State}
    → truncate_target rules target only version s ≡ ok t
    → Quiet s t
unfolding truncate_target
Quiet-truncate_target rules none only version s h = let e = ok_inj h in rw (← e) (Quiet-refl s)
Quiet-truncate_target rules (some index) only version s h =
    elim (Bool-cases (is_unscoped only && rules.is_shared index)) [
      | inl shared ↦ let e = ok_inj (when_true _ _ _ shared h) in rw (← e) (Quiet-refl s)
      | inr own ↦ Quiet-clear_index index version only s (when_false _ _ _ own h)
    ]
