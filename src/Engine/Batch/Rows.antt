-- ===== src/Engine/Batch/Rows.antt =====
-- The `Row` arm of the engine's loop: gather the rows that wait, make documents of each, drop what
-- the stream has superseded, remember what it removes, and split an oversized batch.
use pg2osync.Base.{
  ℕ, zero, suc, ◌+◌, ◌-◌, max, Bool, false, ◌||◌, ◌&&◌, Option, none, some, List, [], ◌∷◌, ◌++◌,
  map, length, sum_by, ltb, leb, if◌then◌else◌,
}
use pg2osync.Base.Map.{get, put}
use pg2osync.Base.Text.{Text, pair_key, text_key}
use pg2osync.Core.Error.{Result, ok, err, ◌>>=◌}
use pg2osync.Core.Event.{ChangeEvent, RowChange, row}
use pg2osync.Core.Json.{Value}
use pg2osync.Core.Sink.{DocumentOp, LsnOp, upsert, delete}
use pg2osync.Engine.Command.{op_size}
use pg2osync.Engine.Batch.State.{State, RowRules, pending_lsn, flush, try_next}

-- the rest of the group, and the event that ended it, which waits for its own turn
unfoldable pub gather_more :
    (State → List RowChange × State) → Option ChangeEvent → State → List RowChange × State
gather_more next none s = ([], s)
gather_more next (some (row r)) s = let (rs, s') = next s in (r ∷ rs, s')
gather_more next (some other) s = ([], record s { deferred = some other })

unfoldable pub gather : ℕ → State → List RowChange × State
unfolding gather_more
gather zero s = ([], s)
gather (suc room) s = let (found, s') = try_next s in gather_more (gather room) found s'

abbrev pub Removed : Type 0
Removed = List ((Text × Text) × ℕ)

abbrev pub Cleared : Type 0
Cleared = List (Text × ℕ)

unfoldable pub later_than : ℕ → Option ℕ → Bool
later_than version none = false
later_than version (some removed) = ltb version removed

module _ (index_matches : Text → Text → Bool) where
  unfoldable pub cleared_after : Text → ℕ → Cleared → Bool
  cleared_after index version [] = false
  cleared_after index version ((pattern', at) ∷ rest) =
      (ltb version at && index_matches pattern' index) || cleared_after index version rest

  -- A write that the stream has removed at a later position.
  unfoldable pub is_dead : Removed → Cleared → DocumentOp → Bool
  unfolding later_than cleared_after
  is_dead removed cleared (upsert index id routing doc (some version) pipeline) =
      later_than version (get (index, id) removed) || cleared_after index version cleared
  is_dead removed cleared _ = false

  unfoldable pub survivors : Removed → Cleared → List DocumentOp → List DocumentOp
  survivors removed cleared [] = []
  survivors removed cleared (op ∷ ops) =
      let rest = survivors removed cleared ops in
      if is_dead removed cleared op then rest else op ∷ rest

-- `or_insert(version)`, then the larger of the two
unfoldable pub floor_at : Option ℕ → ℕ → ℕ
floor_at none version = version
floor_at (some removed) version = max removed version

unfoldable pub remember : DocumentOp → Removed → Removed
unfolding floor_at
remember (delete index id routing (some version)) removed =
    put (index, id) (floor_at (get (index, id) removed) version) removed
remember _ removed = removed

unfoldable pub remember_all : List DocumentOp → Removed → Removed
remember_all [] removed = removed
remember_all (op ∷ ops) removed = remember_all ops (remember op removed)

unfoldable pub stamp : DocumentOp → LsnOp
stamp op = record { lsn = pending_lsn; op = op }

-- One row's operations, into the buffer.
unfoldable pub buffer_ops : List DocumentOp → State → State
unfolding stamp
buffer_ops ops s = record s {
  txn_buffer = s.txn_buffer ++ map stamp ops;
  txn_bytes = s.txn_bytes + sum_by op_size (map stamp ops);
  superseded = if s.copy.load_running then remember_all ops s.superseded else s.superseded;
}

unfoldable pub is_full : State → Bool
is_full s =
    leb s.settings.batch_size (length s.txn_buffer) || leb s.settings.batch_max_bytes s.txn_bytes

module _ (rules : RowRules) where
  -- The operations of a row that go on, given what its shape was.
  unfoldable pub kept : State → List DocumentOp → List DocumentOp
  kept s ops = survivors rules.index_matches s.superseded s.cleared ops

  unfoldable pub add_ops : Option (Result (List DocumentOp)) → State → Result State
  unfolding kept
  add_ops none s = ok s
  add_ops (some (err e)) s = err e
  add_ops (some (ok ops)) s =
      let s' = buffer_ops (kept s ops) s in if is_full s' then flush s' else ok s'

  unfoldable pub process_row : (RowChange → Option Value) → RowChange → State → Result State
  unfolding add_ops
  process_row previous r s = add_ops (rules.shape r (previous r)) s

  unfoldable pub process_rows : (RowChange → Option Value) → List RowChange → State → Result State
  process_rows previous [] s = ok s
  process_rows previous (r ∷ rs) s = do s' ← process_row previous r s; process_rows previous rs s'

  unfoldable pub handle_rows : RowChange → State → Result State
  handle_rows r s = do
    let (rs, s') = gather (s.settings.batch_size - 1) s
    previous ← rules.complete s'.now (r ∷ rs)
    process_rows previous (r ∷ rs) s'
