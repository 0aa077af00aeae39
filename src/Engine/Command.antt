-- ===== src/Engine/Command.antt =====
-- The work that the engine hands to the sink task, and the size estimate that bounds a batch.
use pg2osync.Base.{ℕ, ◌+◌, Option, List, length}
use pg2osync.Base.Text.{Text}
use pg2osync.Core.Json.{
  Value, Items, Fields, null, bool, number, string, array, object, nil, cons, end, field,
}
use pg2osync.Core.Lsn.{Lsn}
use pg2osync.Core.Sink.{DocumentOp, LsnOp, upsert, delete, delete_children}

-- The tracing span that travels with a batch is not modelled.
pub data SinkCommand : Type 0 where
  write : List LsnOp → SinkCommand
  -- the index, the position, and the relation that the clear is scoped to
  truncate : Text → Option ℕ → Option (Text × Text) → SinkCommand
  load_mark : ℕ → SinkCommand
  position : Lsn → SinkCommand

unfoldable mutual
  pub estimate_json : Value → ℕ
  estimate_json null = 4
  estimate_json (bool b) = 5
  estimate_json (number n) = 8
  estimate_json (string s) = length s + 2
  estimate_json (array items) = 2 + estimate_items items
  estimate_json (object fields) = 2 + estimate_fields fields

  pub estimate_items : Items → ℕ
  estimate_items nil = 0
  estimate_items (cons v items) = estimate_json v + estimate_items items

  pub estimate_fields : Fields → ℕ
  estimate_fields end = 0
  estimate_fields (field k v fields) = length k + 4 + estimate_json v + estimate_fields fields

abbrev overhead : ℕ
overhead = 64

unfoldable pub document_op_size : DocumentOp → ℕ
document_op_size (upsert index id routing doc version pipeline) =
    length index + length id + estimate_json doc + overhead
document_op_size (delete index id routing version) = length index + length id + overhead
document_op_size (delete_children index name parent_name parent_id version) =
    length index + length name + length parent_id + overhead

unfoldable pub op_size : LsnOp → ℕ
op_size o = document_op_size o.op
