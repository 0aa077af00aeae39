-- ===== src/Engine/Tests/Batch.antt =====
-- The batch builder's theorems at concrete inputs.
use pg2osync.Base.{◌≡◌, refl, false, Option, none, some, List, [], ◌∷◌, ◌++◌, map}
use pg2osync.Base.Text.{text}
use pg2osync.Core.Error.{ok}
use pg2osync.Core.Event.{
  ChangeEvent, RowChange, RowKind, kind_pk, begin, commit, transaction, row, load_mark,
  schema_drift, insert,
}
use pg2osync.Core.Event
use pg2osync.Core.Json.{Value}
use pg2osync.Core.Sink.{DocumentOp, upsert, delete}
use pg2osync.Engine.Command.{op_size}
use pg2osync.Engine.Command
use pg2osync.Engine.Batch.State.{State, RowRules}
use pg2osync.Engine.Batch.Handlers.{
  is_empty, restamp, handle, handle_commit, next_event, turn, overdue,
}
use pg2osync.Engine.Batch.View.{op}
use pg2osync.Engine.Batch.Waiting.{waiting}
use pg2osync.Engine.Batch.Consumes.{grouped, turn-waiting}
use pg2osync.Engine.Batch.Marks.{MarkStep, handle-MarkStep}
use pg2osync.Engine.Batch.Stranded.{commit-Stranded}
use pg2osync.Engine.Tests.{program, one, users, row_one, rules, at, opened, filled}

-- the row is taken from the stream, with its commit behind it
abbrev row_taken : State
row_taken = record opened { events = transaction (commit (at 5) 0) ∷ [] }

row_turn :
    (next_event opened ≡ (some (row row_one), row_taken))
    × (handle rules (row row_one) row_taken ≡ ok filled)
unfolding program
row_turn = (refl, refl)

turn-waiting_example :
    row row_one ∷ (map (λ r. row r) (grouped (row row_one) row_taken) ++ waiting filled)
    ≡ waiting opened
turn-waiting_example = turn-waiting rules (row row_one) opened row_taken row_turn.0 row_turn.1

abbrev nothing_stored : RowChange → Option Value
nothing_stored r = none

-- The transaction is over, and its row still in hand.
abbrev loaded : State
loaded = record filled { deferred = none; stream_txn_open = false }

abbrev marked : State
marked = record loaded {
  sent = Command.write loaded.txn_buffer ∷ Command.load_mark 3 ∷ [];
  txn_buffer = [];
  txn_bytes = 0;
}

mark_goes : handle rules (load_mark 3) loaded ≡ ok marked
unfolding program
mark_goes = refl

handle-MarkStep_example : MarkStep (load_mark 3) loaded marked
handle-MarkStep_example = handle-MarkStep rules (load_mark 3) loaded mark_goes

-- A row becomes a document of its own version, or removes it.
abbrev ops_of : RowChange → RowKind → List DocumentOp
ops_of r (Event.insert pk doc) = upsert users (text "1") none doc r.version none ∷ []
ops_of r (Event.update pk old doc unchanged before) =
    upsert users (text "1") none doc r.version none ∷ []
ops_of r (Event.delete pk before) = delete users (text "1") none r.version ∷ []

abbrev versioned_rules : RowRules
versioned_rules = record rules { shape = λ r previous. some (ok (ops_of r r.kind)) }

-- The stream deletes the row at 9, and the copy then brings it as it was at 5.
abbrev gone : RowChange
gone = record row_one { kind = Event.delete one none; version = some 9 }

abbrev window : State
window = record row_taken { superseded = ((users, text "2"), 7) ∷ [] }

abbrev after_window : State
after_window = record window {
  superseded = ((users, text "2"), 7) ∷ ((users, text "1"), 9) ∷ [];
  txn_buffer = record { lsn = at 0; op = delete users (text "1") none (some 9) } ∷ [];
  txn_bytes = 70;
}

-- The commit's row is in hand, and a schema drift waits behind the commit.
abbrev drifting : State
drifting = record filled {
  deferred = none;
  events = schema_drift (text "public") users (text "new column") ∷ [];
}

drifting_tests :
    (is_empty drifting.txn_buffer ≡ false)
    × (overdue drifting.now drifting.coalescing_since ≡ false)
unfolding program overdue
drifting_tests = (refl, refl)

commit-Stranded_example :
    (t u : State) × (handle_commit (at 5) drifting ≡ ok t)
    × (turn rules t ≡ ok u)
    × (u.sent ≡ drifting.sent)
    × (u.txn_buffer ≡ restamp (at 5) drifting.txn_buffer)
    × ((next_event u).0 ≡ none)
commit-Stranded_example =
    commit-Stranded rules (at 5) (text "public") users (text "new column") drifting refl
      drifting_tests.0 drifting_tests.1 refl refl
