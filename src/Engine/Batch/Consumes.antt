-- ===== src/Engine/Batch/Consumes.antt =====
-- A turn takes the event that it handles, and the rows gathered with it, off what waits.
use pg2osync.Base.{
  ℕ, ◌-◌, ◌≡◌, refl, sym, ap, ◌∙◌, true, List, [], ◌∷◌, ◌++◌, map, arith, Option, none, some,
  Bool-cases, inl, inr,
}
use mathlib.Core.Path.{ap₂}
use pg2osync.Base.Text.{Text}
use pg2osync.Core.Error.{Result, ok, err, >>=-eq-ok}
use pg2osync.Core.Event.{
  ChangeEvent, RowChange, begin, commit, transaction, row, load_mark, load_started, load_finished,
  schema_drift, table_truncated,
}
use pg2osync.Core.Json.{Value}
use pg2osync.Core.Lsn.{Lsn}
use pg2osync.Core.Sink.{DocumentOp}
use pg2osync.Engine.Command.{SinkCommand}
use pg2osync.Engine.Batch.State.{State, RowRules, send, flush, try_next}
use pg2osync.Engine.Batch.Rows.{gather, buffer_ops, add_ops, process_row, process_rows, handle_rows}
use pg2osync.Engine.Batch.Handlers.{
  is_empty, close_txn, send_position, send_pending, release_mark, coalesce, defer, handle_commit,
  handle_load_mark, mark_behind, calm, close_window, flush_buffer, note_clear, clear_index,
  truncate_target, handle_truncate, handle, next_event,
}
use pg2osync.Engine.Batch.Waiting.{
  waiting, in_hand, gather-waiting, next_event-waiting, try_next-waiting, deferred-try_next,
  deferred-next_event,
}

-- Nothing was taken off the channels.
record SameInbox (s t : State) : Type 0 where
  events : t.events ≡ s.events
  copy : t.copy ≡ s.copy
  deferred : t.deferred ≡ s.deferred

SameInbox-trans : {s t u : State} → SameInbox s t → SameInbox t u → SameInbox s u
SameInbox-trans f g = record {
  events = g.events ∙ f.events;
  copy = g.copy ∙ f.copy;
  deferred = g.deferred ∙ f.deferred;
}

waiting-SameInbox : {s t : State} → SameInbox s t → waiting t ≡ waiting s
unfolding waiting
waiting-SameInbox f = cc (f.events, f.copy, f.deferred)

SameInbox-send : (c : SinkCommand) (s : State) {s' : State} → send c s ≡ ok s' → SameInbox s s'
unfolding send
SameInbox-send c s h = ground arith

SameInbox-flush : (s : State) {s' : State} → flush s ≡ ok s' → SameInbox s s'
unfolding flush
SameInbox-flush s h = ground arith

SameInbox-add_ops :
    (rules : RowRules) (shape : Option (Result (List DocumentOp))) (s : State) {s' : State}
    → add_ops rules shape s ≡ ok s'
    → SameInbox s s'
unfolding add_ops buffer_ops flush
SameInbox-add_ops rules none s h = ground arith
SameInbox-add_ops rules (some (err e)) s h = cc
SameInbox-add_ops rules (some (ok ops)) s h = ground arith

SameInbox-process_rows :
    (rules : RowRules) (previous : RowChange → Option Value) (rs : List RowChange) (s : State)
    {s' : State}
    → process_rows rules previous rs s ≡ ok s'
    → SameInbox s s'
unfolding process_rows process_row
SameInbox-process_rows rules previous [] s h = ground arith
SameInbox-process_rows rules previous (r ∷ rs) s h =
    let (t, first, rest) =
      >>=-eq-ok (process_row rules previous r s) (process_rows rules previous rs) h in
    SameInbox-trans (SameInbox-add_ops rules (rules.shape r (previous r)) s first)
      (SameInbox-process_rows rules previous rs t rest)

SameInbox-release_mark : (s : State) {s' : State} → release_mark s ≡ ok s' → SameInbox s s'
unfolding release_mark send_pending send
SameInbox-release_mark s h = ground arith

SameInbox-send_position :
    (lsn : Lsn) (s : State) {s' : State}
    → send_position lsn (close_txn lsn s) ≡ ok s'
    → SameInbox s s'
unfolding send_position close_txn send
SameInbox-send_position lsn s h = ground arith

SameInbox-flush_buffer : (s : State) {s' : State} → flush_buffer s ≡ ok s' → SameInbox s s'
unfolding flush_buffer flush
SameInbox-flush_buffer s h = ground arith

SameInbox-handle_load_mark :
    (mark : ℕ) (s : State) {s' : State} → handle_load_mark mark s ≡ ok s' → SameInbox s s'
unfolding handle_load_mark mark_behind calm close_window flush_buffer flush send
SameInbox-handle_load_mark mark s h = ground arith

SameInbox-truncate_target :
    (rules : RowRules) (index : Option Text) (only : Option (Text × Text)) (version : Option ℕ)
    (s : State) {s' : State}
    → truncate_target rules index only version s ≡ ok s'
    → SameInbox s s'
unfolding truncate_target clear_index note_clear flush_buffer flush send
SameInbox-truncate_target rules none only version s h = ground arith
SameInbox-truncate_target rules (some index) none none s h = ground arith
SameInbox-truncate_target rules (some index) none (some version) s h = ground arith
SameInbox-truncate_target rules (some index) (some relation) none s h = ground arith
SameInbox-truncate_target rules (some index) (some relation) (some version) s h = ground arith

waiting-defer :
    (found : Option ChangeEvent) (t : State)
    → t.deferred ≡ none
    → waiting (defer found t) ≡ in_hand found ++ waiting t
unfolding defer in_hand waiting
waiting-defer none t e = refl
waiting-defer (some ev) t e = ap (λ d. ev ∷ (in_hand d ++ (t.events ++ t.copy.queue))) (sym e)

SameInbox-coalesce :
    (s : State) {s' : State}
    → coalesce s ≡ ok s'
    → SameInbox (defer (try_next s).0 (try_next s).1) s'
unfolding coalesce flush send
SameInbox-coalesce s h = ground arith

-- The event that a commit meets behind it is deferred, and not lost.
waiting-coalesce :
    (s : State) {s' : State} → s.deferred ≡ none → coalesce s ≡ ok s' → waiting s' ≡ waiting s
waiting-coalesce s e h =
    waiting-SameInbox (SameInbox-coalesce s h)
    ∙ waiting-defer (try_next s).0 (try_next s).1 (deferred-try_next s ∙ e)
    ∙ try_next-waiting s e

SameInbox-close_txn : (lsn : Lsn) (s : State) → SameInbox s (close_txn lsn s)
unfolding close_txn
SameInbox-close_txn lsn s = ground arith

waiting-handle_commit :
    (lsn : Lsn) (s : State) {s' : State}
    → s.deferred ≡ none
    → handle_commit lsn s ≡ ok s'
    → waiting s' ≡ waiting s
unfolding handle_commit
waiting-handle_commit lsn s e h = elim (Bool-cases (is_empty s.txn_buffer)) [
  | inl none' ↦
      let (t, first, last) =
        >>=-eq-ok (send_position lsn (close_txn lsn s)) release_mark (rw none' at h) in
      waiting-SameInbox
        (SameInbox-trans (SameInbox-send_position lsn s first) (SameInbox-release_mark t last))
  | inr some' ↦
      let closed = SameInbox-close_txn lsn s in
      let (t, first, last) = >>=-eq-ok (coalesce (close_txn lsn s)) release_mark (rw some' at h) in
      waiting-SameInbox (SameInbox-release_mark t last)
      ∙ waiting-coalesce (close_txn lsn s) (closed.deferred ∙ e) first
      ∙ waiting-SameInbox closed
]

waiting-handle_rows :
    (rules : RowRules) (r : RowChange) (s : State) {s' : State}
    → handle_rows rules r s ≡ ok s'
    → waiting s' ≡ waiting (gather (s.settings.batch_size - 1) s).1
unfolding handle_rows
waiting-handle_rows rules r s h =
    let (rs, t) = gather (s.settings.batch_size - 1) s in
    let (previous, found, rest) =
      >>=-eq-ok (rules.complete t.now (r ∷ rs)) (λ p. process_rows rules p (r ∷ rs) t) h in
    waiting-SameInbox (SameInbox-process_rows rules previous (r ∷ rs) t rest)

-- The rows that are handled together with an event.
unfoldable pub grouped : ChangeEvent → State → List RowChange
grouped (row r) s = (gather (s.settings.batch_size - 1) s).0
grouped _ s = []

silent-waiting :
    (s t : State) {s' : State} → waiting t ≡ waiting s → ok t ≡ ok s' → waiting s' ≡ waiting s
silent-waiting s t {s'} same h = let e : t ≡ s' = cc in rw (← e) same

-- What a handler leaves waiting is what waited before it, less the rows that it took with its own.
pub handle-waiting :
    (rules : RowRules) (ev : ChangeEvent) (s : State) {s' : State}
    → s.deferred ≡ none
    → handle rules ev s ≡ ok s'
    → map (λ r. row r) (grouped ev s) ++ waiting s' ≡ waiting s
unfolding handle grouped handle_truncate close_window
handle-waiting rules (transaction (begin lsn)) s e h =
    silent-waiting s (record s { stream_txn_open = true }) (unfold waiting in refl) h
handle-waiting rules (transaction (commit lsn commit_ts)) s e h = waiting-handle_commit lsn s e h
handle-waiting rules (load_mark mark) s e h =
    waiting-SameInbox (SameInbox-handle_load_mark mark s h)
handle-waiting rules (row r) s e h =
    ap (λ w. map (λ r. row r) (gather (s.settings.batch_size - 1) s).0 ++ w)
      (waiting-handle_rows rules r s h)
    ∙ gather-waiting (s.settings.batch_size - 1) s e
handle-waiting rules load_started s e h = silent-waiting s s refl h
handle-waiting rules load_finished s e h =
    silent-waiting s (close_window s) (unfold waiting in refl) h
handle-waiting rules (schema_drift schema table detail) s e h = silent-waiting s s refl h
handle-waiting rules (table_truncated schema table version) s e h = waiting-SameInbox (
    SameInbox-truncate_target rules (rules.pattern schema table) (rules.join schema table) version s
      h)

-- A turn that finds an event handles the first event that waits and the rows gathered with it,
-- and leaves all others waiting, in their order: no event is lost, handled twice or overtaken.
pub turn-waiting :
    (rules : RowRules) (ev : ChangeEvent) (s u : State) {s' : State}
    → next_event s ≡ (some ev, u)
    → handle rules ev u ≡ ok s'
    → ev ∷ (map (λ r. row r) (grouped ev u) ++ waiting s') ≡ waiting s
unfolding in_hand
turn-waiting rules ev s u {s'} found h =
    let at' : (next_event s).1 ≡ u = ap (λ (p : Option ChangeEvent × State). p.1) found in
    let is : (next_event s).0 ≡ some ev = ap (λ (p : Option ChangeEvent × State). p.0) found in
    let idle : u.deferred ≡ none =
      ap (λ (t : State). t.deferred) (sym at') ∙ deferred-next_event s in
    ap (◌∷◌ ev) (handle-waiting rules ev u idle h)
    ∙ ap₂ (λ f t. in_hand f ++ waiting t) (sym is) (sym at')
    ∙ next_event-waiting s
