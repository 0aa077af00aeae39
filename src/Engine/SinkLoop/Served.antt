-- ===== src/Engine/SinkLoop/Served.antt =====
-- The whole loop against its commands: barriers wait for every open write, and every run of the
-- loop stays behind what it was sent.
use pg2osync.Base.{◌≡◌, false, List, []}
use pg2osync.Base.Text.{Text}
use pg2osync.Core.Lsn.{Lsn}
use pg2osync.Engine.Command.{SinkCommand, write}
use pg2osync.Engine.Batch.View.{Item}
use pg2osync.Engine.SinkLoop.{Loop}
use pg2osync.Engine.SinkLoop.Behind.{Behind}
use pg2osync.Engine.SinkLoop.Safety.{Settled}

-- After a drain that did not fail nothing is open.
record Drained (log : List Item) (l : Loop) : Type 0 where
  settled : Settled log l
  none_open : l.halted ≡ false → l.inflight ≡ []

-- Every command but a write waits until nothing is open.
abbrev IsBarrier : SinkCommand → Type 0
IsBarrier (write batch) = ⊥
IsBarrier c = Unit

-- A loop that has done nothing yet.
pub record IsFresh (l : Loop) : Type 0 where
  pub none_open : l.inflight ≡ []
  pub no_effects : l.journal ≡ []
