-- ===== src/Engine/Batch/State.antt =====
-- The variables of the engine task's loop, and the helpers that its handlers share.
-- `sent` is what has gone down the batch channel so far; `sink_open` is whether the sink task
-- still reads it. Spans, log lines and counters other than the current position are not modelled.
use pg2osync.Base.{ℕ, Bool, Option, some, List, [], ◌∷◌, ◌++◌, if◌then◌else◌}
use pg2osync.Base.Text.{Text, text}
use pg2osync.Core.Error.{Result, ok, err, other}
use pg2osync.Core.Event.{ChangeEvent, RowChange}
use pg2osync.Core.Json.{Value}
use pg2osync.Core.Lsn.{Lsn}
use pg2osync.Core.Sink.{DocumentOp, LsnOp}
use pg2osync.Engine.Command.{SinkCommand}
use pg2osync.Engine.Command
use pg2osync.Engine.Intake.{Intake, try_recv, set_rate}

pub record EngineSettings : Type 0 where
  pub batch_size : ℕ
  pub batch_max_bytes : ℕ
  pub load_max_rows_per_sec : Option ℕ

-- What the configured tables make of a row. `complete` reads the stored documents that a group
-- of rows needs; `shape` is `none` for a table with no index, and otherwise what the row becomes.
pub record RowRules : Type 0 where
  pub complete : ℕ → List RowChange → Result (RowChange → Option Value)
  pub shape : RowChange → Option Value → Option (Result (List DocumentOp))
  pub pattern : Text → Text → Option Text
  pub join : Text → Text → Option (Text × Text)
  pub is_shared : Text → Bool
  pub index_matches : Text → Text → Bool

pub record State : Type 0 where
  pub events : List ChangeEvent
  pub copy : Intake
  pub now : ℕ
  pub settings : EngineSettings
  pub txn_buffer : List LsnOp
  pub txn_bytes : ℕ
  pub deferred : Option ChangeEvent
  pub coalescing_since : Option ℕ
  pub stream_txn_open : Bool
  pub pending_mark : Option ℕ
  pub superseded : List ((Text × Text) × ℕ)
  pub cleared : List (Text × ℕ)
  pub current_position : ℕ
  pub sink_open : Bool
  pub sent : List SinkCommand

abbrev pub pending_lsn : Lsn
pending_lsn = record { value = 0 }

-- `batch_tx.send`
unfoldable pub send : SinkCommand → State → Result State
send command s =
    if s.sink_open
    then ok (record s { sent = s.sent ++ command ∷ [] })
    else err (other (text "batch channel closed"))

-- `std::mem::take(&mut txn_buffer)` and the write that it goes into
unfoldable pub flush : State → Result State
unfolding send
flush s = send (Command.write s.txn_buffer) (record s { txn_buffer = []; txn_bytes = 0 })

unfoldable pub from_copy : State → Option ChangeEvent × State
from_copy s = let (found, copy') = try_recv s.now s.copy in (found, record s { copy = copy' })

unfoldable pub from_events : List ChangeEvent → State → Option ChangeEvent × State
unfolding from_copy
from_events [] s = from_copy s
from_events (ev ∷ rest) s = (some ev, record s { events = rest })

-- Whatever is already waiting, stream before copy.
unfoldable pub try_next : State → Option ChangeEvent × State
unfolding from_events
try_next s = from_events s.events s

-- The top of a turn: a reloaded configuration takes effect.
unfoldable pub reload : EngineSettings → State → State
reload latest s = record s {
  settings = latest;
  copy = set_rate s.now latest.load_max_rows_per_sec s.copy;
}
