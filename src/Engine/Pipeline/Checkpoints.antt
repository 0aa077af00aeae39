-- ===== src/Engine/Pipeline/Checkpoints.antt =====
-- The checkpoint task of `run`: it persists the last acknowledged position, and only then lets the
-- source acknowledge it.
use pg2osync.Base.{
  ℕ, ◌≡◌, ◌⊎◌, inl, inr, refl, arith, Bool, true, false, Option, none, some, List, [], ◌∷◌, ◌++◌,
  ◌==◌, if◌then◌else◌, Bool-cases,
}
use pg2osync.Base.Text.{Text}
use pg2osync.Core.Error.{Result, ok, err}
use pg2osync.Core.Lsn.{Lsn}

-- crates/core/src/checkpoint.rs
pub record StreamId : Type 0 where
  pub source : Text
  pub stream : Text
  pub publication : Text

pub record Checkpoint : Type 0 where
  pub stream : StreamId
  pub token : ℕ
  pub position : Text

pub record Task : Type 0 where
  pub stream : StreamId
  pub last_persisted : Option Lsn
  -- what the source may acknowledge
  pub durable : ℕ
  -- the checkpoints that the target holds, oldest first
  pub persisted : List Checkpoint

same_lsn : Option Lsn → Option Lsn → Bool
same_lsn none none = true
same_lsn (some a) (some b) = a.value == b.value
same_lsn _ _ = false

after_write : Result (Unit {0}) → Checkpoint → Lsn → Task → Task
after_write (err e) checkpoint lsn t = t
after_write (ok u) checkpoint lsn t = record t {
  last_persisted = some lsn;
  durable = lsn.value;
  persisted = t.persisted ++ checkpoint ∷ [];
}

module _ (render_position : ℕ → Text) where
  unfoldable pub checkpoint_at : Lsn → Task → Checkpoint
  checkpoint_at lsn t = record {
    stream = t.stream;
    token = lsn.value;
    position = render_position lsn.value;
  }

  -- One turn of the task: `seen` is the acknowledged position that it reads, `answer` what the
  -- target says to a checkpoint.
  unfoldable pub poll : Option Lsn → Result (Unit {0}) → Task → Task
  unfolding same_lsn after_write checkpoint_at
  poll none answer t = t
  poll (some lsn) answer t =
      if same_lsn t.last_persisted (some lsn)
      then t
      else after_write answer (checkpoint_at lsn t) lsn t

  -- A poll leaves the durable position alone, or moves it to the acknowledged position that the
  -- target has just persisted under this stream.
  pub poll-durable :
      (seen : Option Lsn) (answer : Result (Unit {0})) (t : Task)
      → (poll seen answer t ≡ t)
        ⊎ ((lsn : Lsn) × (seen ≡ some lsn)
            × ((poll seen answer t).durable ≡ lsn.value)
            × ((poll seen answer t).persisted ≡ t.persisted ++ checkpoint_at lsn t ∷ []))
  unfolding poll
  poll-durable none answer t = inl refl
  poll-durable (some lsn) (err e) t = inl (ground arith)
  poll-durable (some lsn) (ok u) t = elim (Bool-cases (same_lsn t.last_persisted (some lsn))) [
    | inl old ↦ inl (rw old)
    | inr new ↦ inr (lsn, refl, rw new, rw new)
  ]
