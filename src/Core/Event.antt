-- ===== src/Core/Event.antt =====
-- crates/core/src/event.rs: everything that the engine consumes.
use pg2osync.Base.{ℕ, Option, none, some, List}
use pg2osync.Base.Text.{Text}
use pg2osync.Core.Json.{Value}
use pg2osync.Core.Lsn.{Lsn}

pub data TransactionBoundary : Type 0 where
  begin : Lsn → TransactionBoundary
  -- the commit position, and microseconds since 2000-01-01, 0 when unavailable
  commit : Lsn → ℕ → TransactionBoundary

pub data RowKind : Type 0 where
  -- key, document
  insert : Value → Value → RowKind
  -- key, key before, document, unchanged TOAST columns, before-image
  update : Value → Option Value → Value → List Text → Option Value → RowKind
  -- key, before-image
  delete : Value → Option Value → RowKind

pub record RowChange : Type 0 where
  pub schema : Text
  pub table : Text
  pub kind : RowKind
  pub version : Option ℕ

-- `RowChange::pk`
unfoldable pub kind_pk : RowKind → Value
kind_pk (insert pk doc) = pk
kind_pk (update pk previous_pk doc unchanged before) = pk
kind_pk (delete pk before) = pk

-- `RowChange::doc_mut`
unfoldable pub kind_doc : RowKind → Option Value
kind_doc (insert pk doc) = some doc
kind_doc (update pk previous_pk doc unchanged before) = some doc
kind_doc (delete pk before) = none

pub data ChangeEvent : Type 0 where
  transaction : TransactionBoundary → ChangeEvent
  row : RowChange → ChangeEvent
  load_mark : ℕ → ChangeEvent
  load_started load_finished : ChangeEvent
  -- schema, table, detail
  schema_drift : Text → Text → Text → ChangeEvent
  -- schema, table, version
  table_truncated : Text → Text → Option ℕ → ChangeEvent
