-- ===== src/Engine/Batch/Marks.antt =====
-- When a load mark goes to the sink: behind everything in hand, and outside a transaction.
use pg2osync.Base.{
  ℕ, arith, ◌≡◌, refl, sym, ◌∙◌, true, false, List, [], ◌∷◌, ◌++◌, Option, none, some, Bool-cases,
  inl, inr, ◌⊎◌, ◌&&◌, not, last?, when_true, when_false,
}
use pg2osync.Core.Error.{ok, >>=-eq-ok, ok_inj}
use pg2osync.Core.Event.{
  ChangeEvent, begin, commit, transaction, row, load_mark, load_started, load_finished,
  schema_drift, table_truncated,
}
use pg2osync.Core.Lsn.{Lsn}
use pg2osync.Engine.Command
use pg2osync.Engine.Command.{SinkCommand}
use pg2osync.Engine.Batch.State.{State, RowRules, send, flush}
use pg2osync.Engine.Batch.Handlers.{
  is_empty, close_txn, send_pending, release_mark, handle_commit, close_window, flush_buffer, calm,
  mark_behind, handle_load_mark, handle_truncate, handle,
}
use pg2osync.Engine.Batch.Quiet.{
  marks, mark_in, mark_of, Quiet, Quiet-refl, Quiet-trans, marks-snoc, send-eq-ok,
  Quiet-flush_buffer, Quiet-handle_rows, Quiet-coalesce, Quiet-close_txn, Quiet-send_position,
  Quiet-truncate_target,
}
use pg2osync.Engine.Batch.Bytes.{eq-nil_of_is_empty, nil-flush_buffer}

-- The last command out is this mark, with nothing in hand and no transaction open.
pub record Released (mark : ℕ) (s t : State) : Type 0 where
  pub sent : marks t.sent ≡ marks s.sent ++ mark ∷ []
  pub last : last? t.sent ≡ some (Command.load_mark mark)
  pub empty : t.txn_buffer ≡ []
  pub closed : t.stream_txn_open ≡ false

-- What an event did to the marks.
pub data MarkStep (ev : ChangeEvent) (s t : State) : Type 0 where
  quiet :
      mark_of ev ≡ none
      → marks t.sent ≡ marks s.sent
      → t.pending_mark ≡ s.pending_mark
      → MarkStep ev s t
  held :
      (mark : ℕ)
      → mark_of ev ≡ some mark
      → s.stream_txn_open ≡ true
      → t.sent ≡ s.sent
      → t.pending_mark ≡ some mark
      → MarkStep ev s t
  released :
      (mark : ℕ)
      → (mark_of ev ≡ some mark) ⊎ ((s.pending_mark ≡ some mark) × (t.pending_mark ≡ none))
      → Released mark s t
      → MarkStep ev s t

last?-snoc : (cs : List SinkCommand) (c : SinkCommand) → last? (cs ++ c ∷ []) ≡ some c
last?-snoc [] c = refl
last?-snoc (d ∷ []) c = refl
last?-snoc (d ∷ e ∷ cs) c = last?-snoc (e ∷ cs) c

-- A mark that goes out with nothing in hand and no transaction open.
Released-send :
    (mark : ℕ) (s : State) {t : State}
    → s.txn_buffer ≡ []
    → s.stream_txn_open ≡ false
    → send (Command.load_mark mark) s ≡ ok t
    → Released mark s t
unfolding mark_in
Released-send mark s empty closed h = rw (← send-eq-ok (Command.load_mark mark) s h) (record {
  sent = marks-snoc s.sent (Command.load_mark mark);
  last = last?-snoc s.sent (Command.load_mark mark);
  empty = empty;
  closed = closed;
})

-- Of a commit: its mark, if one waited and is let go, is the last thing out.
data CommitMarks (s t : State) : Type 0 where
  kept_back : Quiet s t → CommitMarks s t
  let_go :
      (mark : ℕ)
      → s.pending_mark ≡ some mark
      → t.pending_mark ≡ none
      → Released mark s t
      → CommitMarks s t

CommitMarks-send_pending :
    (pending : Option ℕ) (s : State) {t : State}
    → s.pending_mark ≡ pending
    → s.txn_buffer ≡ []
    → s.stream_txn_open ≡ false
    → send_pending pending s ≡ ok t
    → CommitMarks s t
unfolding send_pending
CommitMarks-send_pending none s p empty closed h =
    let e = ok_inj h in rw (← e) (kept_back (Quiet-refl s))
CommitMarks-send_pending (some mark) s p empty closed h =
    let waited : State = record s { pending_mark = none } in
    let r = Released-send mark waited empty closed h in
    let cleared : record waited { sent = waited.sent ++ Command.load_mark mark ∷ [] } ≡ _ =
      send-eq-ok (Command.load_mark mark) waited h in
    let_go mark p (rw (← cleared) refl)
      (record { sent = r.sent; last = r.last; empty = r.empty; closed = r.closed })

CommitMarks-release_mark : (s : State) {t : State} → release_mark s ≡ ok t → CommitMarks s t
unfolding release_mark
CommitMarks-release_mark s h = elim (Bool-cases (is_empty s.txn_buffer && not s.stream_txn_open)) [
  | inl now' ↦
      CommitMarks-send_pending s.pending_mark s refl
        (eq-nil_of_is_empty s.txn_buffer (ground arith)) (ground arith) (when_true _ _ _ now' h)
  | inr later ↦ let e = ok_inj (when_false _ _ _ later h) in rw (← e) (kept_back (Quiet-refl s))
]

CommitMarks-after : {s t u : State} → Quiet s t → CommitMarks t u → CommitMarks s u
CommitMarks-after f (kept_back g) = kept_back (Quiet-trans f g)
CommitMarks-after f (let_go mark p n r) =
    let_go mark (sym f.pending ∙ p) n (record {
      sent = rw (r.sent, f.sent) refl;
      last = r.last;
      empty = r.empty;
      closed = r.closed;
    })

CommitMarks-handle_commit :
    (lsn : Lsn) (s : State) {t : State} → handle_commit lsn s ≡ ok t → CommitMarks s t
unfolding handle_commit
CommitMarks-handle_commit lsn s h =
    let (t, first, last) = >>=-eq-ok _ release_mark h in
    CommitMarks-after
      (Quiet-trans (Quiet-close_txn lsn s) (elim (Bool-cases (is_empty s.txn_buffer)) [
        | inl none' ↦ Quiet-send_position lsn (close_txn lsn s) (when_true _ _ _ none' first)
        | inr some' ↦ Quiet-coalesce (close_txn lsn s) (when_false _ _ _ some' first)
      ]))
      (CommitMarks-release_mark t last)

MarkStep-of_Quiet :
    (ev : ChangeEvent) {s t : State} → mark_of ev ≡ none → Quiet s t → MarkStep ev s t
MarkStep-of_Quiet ev e f = quiet e f.sent f.pending

MarkStep-of_CommitMarks :
    (ev : ChangeEvent) {s t : State} → mark_of ev ≡ none → CommitMarks s t → MarkStep ev s t
MarkStep-of_CommitMarks ev e (kept_back f) = MarkStep-of_Quiet ev e f
MarkStep-of_CommitMarks ev e (let_go mark p n r) = released mark (inr (p, n)) r

-- A write of the buffer opens no transaction.
closed-flush_buffer :
    (s : State) {t : State} → flush_buffer s ≡ ok t → t.stream_txn_open ≡ s.stream_txn_open
unfolding flush_buffer flush send is_empty
closed-flush_buffer s h = ground arith

MarkStep-handle_load_mark :
    (mark : ℕ) (s : State) {t : State}
    → handle_load_mark mark s ≡ ok t
    → MarkStep (load_mark mark) s t
unfolding handle_load_mark mark_behind calm close_window mark_of
MarkStep-handle_load_mark mark s h = elim (Bool-cases s.stream_txn_open) [
  | inl inside ↦
      let e = ok_inj (when_true _ _ _ inside h) in rw (← e) (held mark refl inside refl refl)
  | inr outside ↦
      let (t, first, last) =
        >>=-eq-ok _ (send (Command.load_mark mark)) (when_false _ _ _ outside h) in
      let f = Quiet-flush_buffer _ first in
      let r =
        Released-send mark t (nil-flush_buffer _ first) (closed-flush_buffer _ first ∙ outside)
          last in
      released mark (inl refl) (record {
        sent = rw (r.sent, f.sent) refl;
        last = r.last;
        empty = r.empty;
        closed = r.closed;
      })
]

-- An event that is handled either sends no load mark and leaves the one that waits, or is a mark
-- that comes inside a transaction and waits in place of an earlier one, with nothing sent; or
-- exactly one mark goes out, the event's own or the one that waited (which then waits no longer).
-- A mark that goes out is the last command sent, the buffer is then empty, so that every
-- operation before it is out, and no transaction of the stream is open.
pub handle-MarkStep :
    (rules : RowRules) (ev : ChangeEvent) (s : State) {t : State}
    → handle rules ev s ≡ ok t
    → MarkStep ev s t
unfolding handle handle_truncate mark_of close_window
handle-MarkStep rules (transaction (begin lsn)) s h =
    let e = ok_inj h in rw (← e) (quiet refl refl refl)
handle-MarkStep rules (transaction (commit lsn ts)) s h =
    MarkStep-of_CommitMarks _ refl (CommitMarks-handle_commit lsn s h)
handle-MarkStep rules (load_mark mark) s h = MarkStep-handle_load_mark mark s h
handle-MarkStep rules (row r) s h = MarkStep-of_Quiet _ refl (Quiet-handle_rows rules r s h)
handle-MarkStep rules load_started s h = let e = ok_inj h in rw (← e) (quiet refl refl refl)
handle-MarkStep rules load_finished s h = let e = ok_inj h in rw (← e) (quiet refl refl refl)
handle-MarkStep rules (schema_drift schema table detail) s h =
    let e = ok_inj h in rw (← e) (quiet refl refl refl)
handle-MarkStep rules (table_truncated schema table version) s h =
    MarkStep-of_Quiet _ refl (
      Quiet-truncate_target rules (rules.pattern schema table) (rules.join schema table) version s
        h)
