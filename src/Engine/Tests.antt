-- ===== src/Engine/Tests.antt =====
-- Runs of the pipeline on one transaction of one row, and the theorems at these inputs.
mod Batch
mod Sink
use pg2osync.Base.{ℕ, ◌≡◌, refl, Bool, true, false, Option, none, some, List, [], ◌∷◌, arith, ◌==◌}
use pg2osync.Base.Text.{Text, text, text_eq, pair_eq}
use pg2osync.Base.Map.{get, put}
use pg2osync.Core.Error.{Result, ok, err}
use pg2osync.Core.Event.{
  ChangeEvent, RowChange, RowKind, begin, commit, transaction, row, load_mark, insert,
}
use pg2osync.Core.Json.{Value, number, Number}
use pg2osync.Core.Json
use pg2osync.Core.Lsn.{Lsn}
use pg2osync.Core.Sink.{DocumentOp, LsnOp, SinkAck, upsert, delete}
use pg2osync.Engine.Command.{SinkCommand, op_size, document_op_size, estimate_json}
use pg2osync.Engine.Command
use pg2osync.Engine.Intake.{Intake, new_intake, set_rate, try_recv, took}
use pg2osync.Engine.Batch.State.{State, RowRules, EngineSettings, send, flush, try_next, reload}
use pg2osync.Engine.Batch.Rows.{
  gather, process_rows, handle_rows, survivors, is_dead, remember, remember_all, buffer_ops,
  is_full, process_row,
}
use pg2osync.Engine.Batch.Handlers.{
  is_empty, restamp, coalesce, release_mark, handle_commit, handle_load_mark, handle_truncate,
  handle, next_event, turn, mark_behind, calm, close_window, flush_buffer,
}
use pg2osync.Engine.Batch.View.{Item, op, view, view_ops, view_sent, view_command, mark_at}
use pg2osync.Engine.Batch.Gathered.{emitted, shape_ops, window_after}
use pg2osync.Engine.Batch.Refines.{logged}
use pg2osync.Engine.SinkLoop.{
  World, Loop, Effect, RejectionPolicy, start_loop, note, stop, publish, account, finish, take_one,
  drain, on_command, Serves, starts, finishes, receives,
}
use pg2osync.Engine.SinkLoop.Behind.{effects_view, highest}

program : Unit {0}
unfolding new_intake set_rate try_recv took send flush try_next reload gather process_rows
    handle_rows survivors is_dead remember remember_all buffer_ops is_full process_row is_empty
    restamp coalesce release_mark handle_commit handle_load_mark handle_truncate handle next_event
    turn mark_behind calm close_window flush_buffer view view_ops view_sent view_command mark_at
    emitted shape_ops window_after logged op_size document_op_size start_loop note stop publish
    account finish take_one drain on_command effects_view highest get put pair_eq text_eq
    estimate_json
program = tt

abbrev one : Value
one = number (Number.pos 1)

abbrev users : Text
users = text "users"

abbrev upsert_one : DocumentOp
upsert_one = upsert users (text "1") none one (some 5) none

abbrev row_one : RowChange
row_one = record { schema = text "public"; table = users; kind = insert one one; version = some 5 }

-- One table, `users`, whose rows become one document each.
abbrev rules : RowRules
rules = record {
  complete = λ now rows. ok (λ r. none);
  shape = λ r previous. some (ok (upsert_one ∷ []));
  pattern = λ schema table. some users;
  join = λ schema table. none;
  is_shared = λ index. false;
  index_matches = λ pattern' name. text_eq pattern' name;
}

abbrev at : ℕ → Lsn
at n = record { value = n }

abbrev initial : State
initial = record {
  events = transaction (begin (at 5)) ∷ row row_one ∷ transaction (commit (at 5) 0) ∷ [];
  copy = record {
    queue = [];
    limit = none;
    configured = none;
    open_at = none;
    load_running = true;
  };
  now = 0;
  settings = record { batch_size = 500; batch_max_bytes = 1000; load_max_rows_per_sec = none };
  txn_buffer = [];
  txn_bytes = 0;
  deferred = none;
  coalescing_since = none;
  stream_txn_open = false;
  pending_mark = none;
  superseded = [];
  cleared = [];
  current_position = 0;
  sink_open = true;
  sent = [];
}

abbrev opened : State
opened = record initial {
  events = row row_one ∷ transaction (commit (at 5) 0) ∷ [];
  stream_txn_open = true;
}

-- gathering took the commit off the channel
abbrev filled : State
filled = record opened {
  events = [];
  deferred = some (transaction (commit (at 5) 0));
  txn_buffer = record { lsn = at 0; op = upsert_one } ∷ [];
  txn_bytes = 78;
}

abbrev batch_one : List LsnOp
batch_one = record { lsn = at 5; op = upsert_one } ∷ []

abbrev written : State
written = record filled {
  deferred = none;
  txn_buffer = [];
  txn_bytes = 0;
  stream_txn_open = false;
  current_position = 5;
  sent = Command.write batch_one ∷ [];
}

turns :
    (turn rules initial ≡ ok opened)
    × (turn rules opened ≡ ok filled)
    × (turn rules filled ≡ ok written)
unfolding program
turns = (refl, refl, refl)

-- A target that takes every batch.
abbrev willing : World
willing = record {
  write = λ n batch. some (ok (record { max_lsn = at (highest batch); rejected = [] }));
  quarantine = λ n rejected. ok tt;
  truncate = λ n index version only. ok tt;
}

abbrev fresh : Loop
fresh = start_loop RejectionPolicy.halt 100 1 0

abbrev served : Loop
served = take_one willing (on_command willing (Command.write batch_one) fresh)

serving : Serves willing fresh (Command.write batch_one ∷ []) served
unfolding program
serving = finishes (receives (Command.write batch_one) starts refl (omega arith)) refl
