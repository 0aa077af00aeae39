-- ===== src/Engine/Batch/Handlers.antt =====
-- The other arms of the engine's loop, and the loop body.
use pg2osync.Base.{
  ℕ, ◌-◌, max, Bool, true, false, ◌&&◌, not, Option, none, some, List, [], ◌∷◌, leb, ◌==◌,
  if◌then◌else◌,
}
use pg2osync.Base.Map.{get, put}
use pg2osync.Base.Text.{Text, text_key}
use pg2osync.Core.Error.{Result, ok, ◌>>=◌}
use pg2osync.Core.Event.{
  ChangeEvent, begin, commit, transaction, row, load_mark, load_started, load_finished,
  schema_drift, table_truncated,
}
use pg2osync.Core.Lsn.{Lsn}
use pg2osync.Core.Sink.{LsnOp}
use pg2osync.Engine.Command
use pg2osync.Engine.Batch.State.{State, RowRules, send, flush, try_next}
use pg2osync.Engine.Batch.Rows.{handle_rows}

-- `COALESCE_WINDOW`, in nanoseconds
abbrev pub coalesce_window : ℕ
coalesce_window = 10_000_000

unfoldable pub is_empty : List LsnOp → Bool
is_empty [] = true
is_empty (o ∷ os) = false

-- `last.lsn = lsn`
unfoldable pub restamp : Lsn → List LsnOp → List LsnOp
restamp lsn [] = []
restamp lsn (o ∷ []) = record o { lsn = lsn } ∷ []
restamp lsn (o ∷ o' ∷ os) = o ∷ restamp lsn (o' ∷ os)

-- A commit of the stream; one of the load, at position 0, moves nothing.
unfoldable pub close_txn : Lsn → State → State
close_txn lsn s = if lsn.value == 0 then s else record s {
  current_position = lsn.value;
  stream_txn_open = false;
  txn_buffer = restamp lsn s.txn_buffer;
}

unfoldable pub defer : Option ChangeEvent → State → State
defer none s = s
defer (some ev) s = record s { deferred = some ev }

unfoldable pub is_some : Option ChangeEvent → Bool
is_some none = false
is_some (some ev) = true

unfoldable pub overdue : ℕ → Option ℕ → Bool
overdue now none = false
overdue now (some since) = leb coalesce_window (now - since)

unfoldable pub first_since : ℕ → Option ℕ → Option ℕ
first_since now none = some now
first_since now (some since) = some since

-- Hold the buffer while another event waits, within the window; otherwise write it.
unfoldable pub coalesce : State → Result State
unfolding defer is_some overdue first_since
coalesce s =
    let (found, s') = try_next s in
    let held = defer found s' in
    if is_some found && not (overdue s.now s.coalescing_since)
    then ok (record held { coalescing_since = first_since s.now s.coalescing_since })
    else flush (record held { coalescing_since = none })

-- The position of a commit whose rows have all been handed over.
unfoldable pub send_position : Lsn → State → Result State
send_position lsn s = if lsn.value == 0 then ok s else send (Command.position lsn) s

unfoldable pub send_pending : Option ℕ → State → Result State
send_pending none s = ok s
send_pending (some mark) s = send (Command.load_mark mark) (record s { pending_mark = none })

unfoldable pub release_mark : State → Result State
unfolding send_pending
release_mark s =
    if is_empty s.txn_buffer && not s.stream_txn_open then send_pending s.pending_mark s else ok s

unfoldable pub handle_commit : Lsn → State → Result State
unfolding close_txn send_position
handle_commit lsn s = do
  s' ←
      if is_empty s.txn_buffer
      then send_position lsn (close_txn lsn s)
      else coalesce (close_txn lsn s)
  release_mark s'

unfoldable pub close_window : State → State
close_window s = record s { superseded = []; cleared = [] }

unfoldable pub flush_buffer : State → Result State
flush_buffer s = if is_empty s.txn_buffer then ok s else flush s

-- a write of the buffer ends a run of coalesced transactions
unfoldable pub calm : State → State
calm s = record s { coalescing_since = if is_empty s.txn_buffer then s.coalescing_since else none }

-- The mark goes behind everything in hand; inside a transaction it is held until the commit.
unfoldable pub mark_behind : ℕ → State → Result State
mark_behind mark s = do s' ← flush_buffer (calm s); send (Command.load_mark mark) s'

unfoldable pub handle_load_mark : ℕ → State → Result State
handle_load_mark mark s =
    if s.stream_txn_open
    then ok (record (close_window s) { pending_mark = some mark })
    else mark_behind mark (close_window s)

raise_floor : Option ℕ → ℕ → ℕ
raise_floor none version = version
raise_floor (some at) version = max at version

-- One floor per index, for a clear that is not scoped to a relation, while a load is running.
unfoldable pub note_clear : Text → Option ℕ → Option (Text × Text) → State → State
unfolding raise_floor
note_clear index (some version) none s =
    if s.copy.load_running
    then record s { cleared = put index (raise_floor (get index s.cleared) version) s.cleared }
    else s
note_clear index version only s = s

unfoldable pub clear_index : Text → Option ℕ → Option (Text × Text) → State → Result State
unfolding note_clear
clear_index index version only s = do
  s' ← flush_buffer s
  send (Command.truncate index version only)
      (note_clear index version only (record s' { txn_bytes = 0 }))

unfoldable pub is_unscoped : Option (Text × Text) → Bool
is_unscoped none = true
is_unscoped (some relation) = false

-- `deferred.take().or_else(|| try_next(..))`
unfoldable pub take_event : Option ChangeEvent → State → Option ChangeEvent × State
take_event none s = try_next s
take_event (some ev) s = (some ev, record s { deferred = none })

unfoldable pub next_event : State → Option ChangeEvent × State
unfolding take_event
next_event s = take_event s.deferred s

module _ (rules : RowRules) where
  unfoldable pub truncate_target :
      Option Text → Option (Text × Text) → Option ℕ → State → Result State
  unfolding clear_index is_unscoped
  truncate_target none only version s = ok s
  truncate_target (some index) only version s =
      if is_unscoped only && rules.is_shared index then ok s else clear_index index version only s

  unfoldable pub handle_truncate : Text → Text → Option ℕ → State → Result State
  unfolding truncate_target
  handle_truncate schema table version s =
      truncate_target (rules.pattern schema table) (rules.join schema table) version s

  -- The `match ev` of the loop.
  unfoldable pub handle : ChangeEvent → State → Result State
  handle (transaction (begin lsn)) s = ok (record s { stream_txn_open = true })
  handle (transaction (commit lsn commit_ts)) s = handle_commit lsn s
  handle (load_mark mark) s = handle_load_mark mark s
  handle (row r) s = handle_rows rules r s
  handle load_started s = ok s
  handle load_finished s = ok (close_window s)
  handle (schema_drift schema table detail) s = ok s
  handle (table_truncated schema table version) s = handle_truncate schema table version s

  unfoldable pub handle_found : Option ChangeEvent → State → Result State
  handle_found none s = ok s
  handle_found (some ev) s = handle ev s

  -- One turn on what already waits; with nothing waiting the loop sleeps, and the state stays.
  unfoldable pub turn : State → Result State
  unfolding handle_found
  turn s = let (found, s') = next_event s in handle_found found s'
