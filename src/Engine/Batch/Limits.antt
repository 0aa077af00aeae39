-- ===== src/Engine/Batch/Limits.antt =====
-- Every handler of the engine's loop keeps the account of the buffer's size, and its limits.
use pg2osync.Base.Text.{Text}
use pg2osync.Core.Lsn.{Lsn}
use pg2osync.Engine.Command
use pg2osync.Engine.Command.{op_size}
use pg2osync.Engine.Batch.State.{State}
