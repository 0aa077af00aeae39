-- ===== src/Engine/Pipeline/EndToEnd.antt =====
-- The promise of the pipeline: a position is acknowledged only when everything before its commit
-- has been taken by the target.
use pg2osync.Base.{ℕ, ◌≡◌, List, [], ◌∷◌, ◌++◌}
use pg2osync.Engine.Batch.State.{State}
use pg2osync.Engine.Batch.View.{Item, op, committed, clear}
use pg2osync.Engine.SinkLoop.Behind.{Behind}

-- The document operations and the clears, without the commit positions.
unfoldable pub works : List Item → List Item
works [] = []
works (op o ∷ is) = op o ∷ works is
works (committed lsn ∷ is) = works is
works (clear index version only ∷ is) = clear index version only ∷ works is

-- `lsn` is the position of a commit of the log, and `done` has all the work before that commit.
pub record IsCovered (log done : List Item) (lsn : ℕ) : Type 0 where
  pub before : List Item
  pub after : List Item
  pub more : List Item
  pub commit_at : log ≡ before ++ committed lsn ∷ after
  pub all_done : works done ≡ works before ++ more
