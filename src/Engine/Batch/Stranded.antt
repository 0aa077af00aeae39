-- ===== src/Engine/Batch/Stranded.antt =====
-- A committed batch that is held for an event which never writes it.
use pg2osync.Base.{ℕ, ◌≡◌, refl, false, [], ◌∷◌, ◌==◌, none, some, arith}
use pg2osync.Base.Text.{Text}
use pg2osync.Core.Error.{ok}
use pg2osync.Core.Event.{ChangeEvent, schema_drift}
use pg2osync.Core.Lsn.{Lsn}
use pg2osync.Engine.Intake.{Intake, held, receive, try_recv}
use pg2osync.Engine.Batch.State.{State, RowRules, from_copy, from_events, try_next}
use pg2osync.Engine.Batch.Handlers.{
  is_empty, restamp, close_txn, defer, is_some, overdue, first_since, coalesce, release_mark,
  handle_commit, handle, take_event, next_event, handle_found, turn,
}
use pg2osync.Engine.Batch.Bytes.{empty-restamp}

-- The commit's transaction, closed and held back behind the event.
abbrev held_back : Lsn → ChangeEvent → State → State
held_back lsn ev s = record s {
  events = [];
  current_position = lsn.value;
  stream_txn_open = false;
  txn_buffer = restamp lsn s.txn_buffer;
  deferred = some ev;
  coalescing_since = first_since s.now s.coalescing_since;
}

coalesce-held_back :
    (lsn : Lsn) (ev : ChangeEvent) (s : State)
    → (lsn.value == 0) ≡ false
    → overdue s.now s.coalescing_since ≡ false
    → s.events ≡ ev ∷ []
    → coalesce (close_txn lsn s) ≡ ok (held_back lsn ev s)
unfolding coalesce close_txn try_next from_events defer is_some
coalesce-held_back lsn ev s stream early one = simp (stream, one, early)

none-try_recv : (now : ℕ) (i : Intake) → i.queue ≡ [] → (try_recv now i).0 ≡ none
unfolding try_recv held receive
none-try_recv now i e = ground arith

handle_commit-held_back :
    (lsn : Lsn) (ev : ChangeEvent) (s : State)
    → (lsn.value == 0) ≡ false
    → is_empty s.txn_buffer ≡ false
    → overdue s.now s.coalescing_since ≡ false
    → s.events ≡ ev ∷ []
    → handle_commit lsn s ≡ ok (held_back lsn ev s)
unfolding handle_commit release_mark
handle_commit-held_back lsn ev s stream some' early one =
    simp
      (some', coalesce-held_back lsn ev s stream early one, empty-restamp lsn s.txn_buffer, some')

-- A commit of the stream with operations in hand, when the one event that waits is a schema drift
-- and the window of coalescing is not over: the commit is handled and the next turn handles the
-- drift, and then no command has been sent, the committed operations are still in the buffer, and
-- no event waits on either channel.
pub commit-Stranded :
    (rules : RowRules) (lsn : Lsn) (schema table detail : Text) (s : State)
    → (lsn.value == 0) ≡ false
    → is_empty s.txn_buffer ≡ false
    → overdue s.now s.coalescing_since ≡ false
    → s.events ≡ schema_drift schema table detail ∷ []
    → s.copy.queue ≡ []
    → (t u : State) × (handle_commit lsn s ≡ ok t)
      × (turn rules t ≡ ok u)
      × (u.sent ≡ s.sent)
      × (u.txn_buffer ≡ restamp lsn s.txn_buffer)
      × ((next_event u).0 ≡ none)
unfolding turn next_event take_event handle_found handle try_next from_events from_copy
commit-Stranded rules lsn schema table detail s stream some' early one empty =
    let t = held_back lsn (schema_drift schema table detail) s in
    (
      t,
      record t { deferred = none },
      handle_commit-held_back lsn (schema_drift schema table detail) s stream some' early one,
      refl,
      refl,
      refl,
      none-try_recv s.now s.copy empty,
    )
