-- ===== src/Engine/Batch/Commits.antt =====
-- What a commit does to the view: its position takes its place behind the operations before it.
use pg2osync.Base.{
  ℕ, ◌≡◌, refl, sym, ◌∙◌, true, false, List, [], ◌∷◌, ◌++◌, append-nil, append_assoc, ◌==◌, Option,
  none, some, Bool-cases, inl, inr, ◌&&◌, not,
}
use pg2osync.Core.Error.{ok, >>=-eq-ok}
use pg2osync.Core.Event.{ChangeEvent}
use pg2osync.Core.Lsn.{Lsn}
use pg2osync.Core.Sink.{LsnOp}
use pg2osync.Engine.Command
use pg2osync.Engine.Batch.State.{State, send, flush, try_next}
use pg2osync.Engine.Batch.Handlers.{
  is_empty, restamp, close_txn, send_position, coalesce, defer, is_some, overdue, first_since,
  send_pending, release_mark, handle_commit,
}
use pg2osync.Engine.Batch.View.{
  Item, op, committed, mark_at, view, view_ops, view_sent, view_command, Follows, Follows-refl,
  Follows-append, Follows-drop_last,
}
use pg2osync.Engine.Batch.Moves.{
  view-send, SameWork, SameWork-refl, SameWork-trans, try_next-SameWork, view-SameWork,
}
use pg2osync.Engine.Batch.Gathered.{view-flush}

Follows-restamp_last :
    {log : List Item} (before : List Item) (lsn : ℕ) (i : Item) (l : ℕ)
    → Follows log (before ++ i ∷ (mark_at l ++ []))
    → Follows (log ++ committed lsn ∷ []) (before ++ i ∷ committed lsn ∷ [])
unfolding mark_at
Follows-restamp_last {log} before lsn i l f =
    let at_end : List Item = committed lsn ∷ [] in
    let bare : Follows log (before ++ i ∷ []) = elim (Bool-cases (l == 0)) [
      | inl none' ↦ (rw none' at f)
      | inr some' ↦
          Follows-drop_last (before ++ i ∷ []) l
            (sym (append_assoc before (i ∷ []) (committed l ∷ []))) (rw some' at f)
    ] in
    rw (sym (append_assoc before (i ∷ []) at_end)) (Follows-append bare (Follows-refl at_end))

-- The last operation in hand takes the commit's position, in place of an earlier one.
pub Follows-restamp :
    {log : List Item} (before : List Item) (lsn : Lsn) (os : List LsnOp)
    → (lsn.value == 0) ≡ false
    → is_empty os ≡ false
    → Follows log (before ++ view_ops os)
    → Follows (log ++ committed lsn.value ∷ []) (before ++ view_ops (restamp lsn os))
unfolding restamp view_ops is_empty mark_at
Follows-restamp before lsn [] e h f = cc
Follows-restamp before lsn (o ∷ []) e h f =
    rw e (Follows-restamp_last before lsn.value (op o.op) o.lsn.value (unfold mark_at in f))
Follows-restamp {log} before lsn (o ∷ o' ∷ os) e h f =
    let first : List Item = op o.op ∷ mark_at o.lsn.value in
    rw (sym (append_assoc before first (view_ops (restamp lsn (o' ∷ os))))) (
      Follows-restamp (before ++ first) lsn (o' ∷ os) e refl
        (rw (append_assoc before first (view_ops (o' ∷ os))) f))

pub defer-SameWork : (found : Option ChangeEvent) (s : State) → SameWork s (defer found s)
unfolding defer
defer-SameWork none s = SameWork-refl s
defer-SameWork (some ev) s = record {
  sent = refl;
  txn_buffer = refl;
  txn_bytes = refl;
  superseded = refl;
  cleared = refl;
  settings = refl;
  stream_txn_open = refl;
  pending_mark = refl;
  sink_open = refl;
  current_position = refl;
}

-- Held or written, the buffer's operations stay where they are in what is let through.
view-coalesce : (s : State) {s' : State} → coalesce s ≡ ok s' → view s' ≡ view s
unfolding coalesce
view-coalesce s {s'} h =
    let found = (try_next s).0 in
    let held = defer found (try_next s).1 in
    let same : view held ≡ view s =
      view-SameWork (SameWork-trans (try_next-SameWork s) (defer-SameWork found (try_next s).1)) in
    elim (Bool-cases (is_some found && not (overdue s.now s.coalescing_since))) [
      | inl wait ↦
          let e : record held { coalescing_since = first_since s.now s.coalescing_since } ≡ s' =
            cc (rw wait at h) in
          rw (← e) (unfold view in (unfold view in same))
      | inr now' ↦
          let flushed : flush (record held { coalescing_since = none }) ≡ ok s' = rw now' at h in
          view-flush (record held { coalescing_since = none }) flushed ∙ (unfold view in same)
    ]

view-send_pending :
    (mark : Option ℕ) (s : State) {s' : State} → send_pending mark s ≡ ok s' → view s' ≡ view s
unfolding send_pending view view_command
view-send_pending none s {s'} h = let e : s ≡ s' = cc in rw (← e) refl
view-send_pending (some mark) s {s'} h =
    let (v, b) = view-send (Command.load_mark mark) (record s { pending_mark = none }) h in
    rw (v, b, append-nil) refl

view-release_mark : (s : State) {s' : State} → release_mark s ≡ ok s' → view s' ≡ view s
unfolding release_mark
view-release_mark s {s'} h = elim (Bool-cases (is_empty s.txn_buffer && not s.stream_txn_open)) [
  | inl now' ↦ view-send_pending s.pending_mark s (rw now' at h)
  | inr later ↦ let e : s ≡ s' = cc (rw later at h) in rw (← e) refl
]

eq-nil_of_is_empty : (os : List LsnOp) → is_empty os ≡ true → os ≡ []
unfolding is_empty
eq-nil_of_is_empty [] h = refl
eq-nil_of_is_empty (o ∷ os) h = cc

Follows-behind :
    {log : List Item} (before at_end : List Item) (lsn : Lsn) (os : List LsnOp)
    → is_empty os ≡ true
    → Follows log (before ++ view_ops os)
    → Follows (log ++ at_end) ((before ++ at_end) ++ view_ops (restamp lsn os))
unfolding is_empty view_ops restamp
Follows-behind before at_end lsn [] h f =
    rw append-nil (Follows-append (rw append-nil at f) (Follows-refl at_end))
Follows-behind before at_end lsn (o ∷ os) h f = cc

-- The commit with rows still in hand.
view-close_txn :
    {log : List Item} (lsn : Lsn) (s : State)
    → is_empty s.txn_buffer ≡ false
    → Follows log (view s)
    → Follows (log ++ mark_at lsn.value) (view (close_txn lsn s))
unfolding close_txn mark_at view
view-close_txn {log} lsn s h f = elim (Bool-cases (lsn.value == 0)) [
  | inl load ↦ rw (load, append-nil) f
  | inr stream ↦ rw stream (Follows-restamp (view_sent s.sent) lsn s.txn_buffer stream h f)
]

-- The commit with nothing in hand: its position goes by itself.
Follows-send_position :
    {log : List Item} (lsn : Lsn) (s : State) {s' : State}
    → is_empty s.txn_buffer ≡ true
    → send_position lsn (close_txn lsn s) ≡ ok s'
    → Follows log (view s)
    → Follows (log ++ mark_at lsn.value) (view s')
unfolding send_position close_txn mark_at view view_command
Follows-send_position {log} lsn s {s'} h e f = elim (Bool-cases (lsn.value == 0)) [
  | inl load ↦ let same : s ≡ s' = cc (rw load at e) in rw (load, append-nil, ← same) f
  | inr stream ↦
      let closed : State = record s {
        current_position = lsn.value;
        stream_txn_open = false;
        txn_buffer = restamp lsn s.txn_buffer;
      } in
      let sent' : send (Command.position lsn) closed ≡ ok s' = rw stream at e in
      let (v, b) = view-send (Command.position lsn) closed sent' in
      rw (v, b) (Follows-behind (view_sent s.sent) (mark_at lsn.value) lsn s.txn_buffer h f)
]

-- A commit of the stream puts its position behind everything before it; one of the load, nothing.
pub handle_commit-Follows :
    {log : List Item} (lsn : Lsn) (s : State) {s' : State}
    → handle_commit lsn s ≡ ok s'
    → Follows log (view s)
    → Follows (log ++ mark_at lsn.value) (view s')
unfolding handle_commit
handle_commit-Follows {log} lsn s h f = elim (Bool-cases (is_empty s.txn_buffer)) [
  | inl none' ↦
      let (t, first, last) =
        >>=-eq-ok (send_position lsn (close_txn lsn s)) release_mark (rw none' at h) in
      rw (view-release_mark t last) (Follows-send_position lsn s none' first f)
  | inr some' ↦
      let (t, first, last) = >>=-eq-ok (coalesce (close_txn lsn s)) release_mark (rw some' at h) in
      rw (view-release_mark t last, view-coalesce (close_txn lsn s) first)
        (view-close_txn lsn s some' f)
]
