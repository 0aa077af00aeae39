-- ===== src/Core/Sink.antt =====
-- crates/core/src/sink.rs: what the engine hands to a sink, and what comes back.
use pg2osync.Base.{ℕ, Option, List, []}
use pg2osync.Base.Text.{Text}
use pg2osync.Core.Json.{Value}
use pg2osync.Core.Lsn.{Lsn}

pub data DocumentOp : Type 0 where
  -- index, id, routing, document, version, pipeline
  upsert : Text → Text → Option Text → Value → Option ℕ → Option Text → DocumentOp
  -- index, id, routing, version
  delete : Text → Text → Option Text → Option ℕ → DocumentOp
  -- index, join field, the parent's relation, the parent's id, version
  delete_children : Text → Text → Text → Text → Option ℕ → DocumentOp

pub record LsnOp : Type 0 where
  pub lsn : Lsn
  pub op : DocumentOp

pub record Rejection : Type 0 where
  pub index : Text
  pub doc_id : Text
  pub reason : Text
  pub lsn : Lsn
  pub op : DocumentOp

pub record SinkAck : Type 0 where
  pub max_lsn : Lsn
  pub rejected : List Rejection

-- `SinkAck::written`
unfoldable pub written : Lsn → SinkAck
written max_lsn = record { max_lsn = max_lsn; rejected = [] }
