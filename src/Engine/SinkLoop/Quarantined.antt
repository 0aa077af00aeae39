-- ===== src/Engine/SinkLoop/Quarantined.antt =====
-- The limit on refused documents over a whole run of the sink loop, and what one refused batch does.
use pg2osync.Base.{
  ℕ, ◌+◌, ◌<◌, ◌≡◌, refl, true, inl, inr, List, ◌∷◌, ◌++◌, arith, Bool-cases, length, Option,
}
use pg2osync.Base.Text.{Text}
use pg2osync.Core.Error.{Result, ok, err}
use pg2osync.Core.Lsn.{Lsn}
use pg2osync.Core.Sink.{LsnOp, Rejection}
use pg2osync.Engine.Command.{SinkCommand, write, truncate, load_mark, position}
use pg2osync.Engine.SinkLoop.{
  RejectionPolicy, halt, quarantine, Effect, World, Loop, take_one, drain, cleared, barrier,
  after_drain, on_command, Serves, start_loop, starts, finishes, receives,
}
use pg2osync.Engine.SinkLoop.Rejected.{
  filed_in, Counts, Counts-note, Counts-stop, Counts-publish, Counts-take_front, Counts-drain_all,
}

module _ {base : ℕ} {policy : RejectionPolicy} (w : World) where
  Counts-cleared :
      (answer : Result (Unit {0})) (index : Text) (version : Option ℕ) (only : Option (Text × Text))
      (l : Loop)
      → Counts base policy l
      → Counts base policy (cleared w answer index version only l)
  unfolding cleared
  Counts-cleared (ok u) index version only l c =
      Counts-note (Effect.truncated index version only) l refl c
  Counts-cleared (err e) index version only l c = Counts-stop l c

  Counts-barrier :
      (command : SinkCommand) (l : Loop)
      → Counts base policy l
      → Counts base policy (barrier w command l)
  unfolding barrier
  Counts-barrier (position lsn) l c = Counts-publish lsn l c
  Counts-barrier (load_mark mark) l c =
      Counts-note (Effect.marked mark) (record l { load_done = mark }) refl
        (record { same = c.same; counted = c.counted; none_filed = c.none_filed; below = c.below })
  Counts-barrier (truncate index version only) l c =
      Counts-cleared (w.truncate l.calls index version only) index version only l c
  Counts-barrier (write batch) l c = c

  Counts-after_drain :
      (command : SinkCommand) (l : Loop)
      → Counts base policy l
      → Counts base policy (after_drain w command l)
  unfolding after_drain
  Counts-after_drain command l c = elim (Bool-cases l.halted) [
    | inl failed ↦ simp failed c
    | inr fine ↦ simp fine (Counts-barrier command l c)
  ]

  Counts-drained :
      (command : SinkCommand) (l : Loop)
      → Counts base policy l
      → Counts base policy (after_drain w command (drain w (record l { calls = l.calls + 1 })))
  unfolding drain
  Counts-drained command l c = Counts-after_drain command _ (
      Counts-drain_all w l.inflight (record l { calls = l.calls + 1 })
        (record { same = c.same; counted = c.counted; none_filed = c.none_filed; below = c.below }))

  Counts-on_command :
      (command : SinkCommand) (l : Loop)
      → Counts base policy l
      → Counts base policy (on_command w command l)
  unfolding on_command
  Counts-on_command (write batch) l c = record {
    same = c.same;
    counted = c.counted;
    none_filed = c.none_filed;
    below = c.below;
  }
  Counts-on_command (position lsn) l c = Counts-drained (position lsn) l c
  Counts-on_command (load_mark mark) l c = Counts-drained (load_mark mark) l c
  Counts-on_command (truncate index version only) l c =
      Counts-drained (truncate index version only) l c

  Counts-Serves :
      {start l : Loop} {commands : List SinkCommand}
      → Counts base policy start
      → Serves w start commands l
      → Counts base policy l
  unfolding take_one
  Counts-Serves c starts = c
  Counts-Serves c (finishes {l = before} r going) =
      Counts-take_front w before.inflight before (Counts-Serves c r)
  Counts-Serves c (receives {l = before} command r going room) =
      Counts-on_command command before (Counts-Serves c r)

Counts-start_loop :
    (policy : RejectionPolicy) (max_rejects write_concurrency already : ℕ)
    → let start = start_loop policy max_rejects write_concurrency already in
      Counts start.quarantined policy start
unfolding start_loop filed_in
Counts-start_loop policy max_rejects write_concurrency already = record {
  same = refl;
  counted = omega arith;
  none_filed = λ h. refl;
  below = λ h. inl refl;
}

-- Under the policy `halt` nothing is ever filed, whatever commands come and whatever the target
-- answers.
pub Serves-halt :
    (w : World) (max_rejects write_concurrency already : ℕ) {commands : List SinkCommand} {l : Loop}
    → Serves w (start_loop halt max_rejects write_concurrency already) commands l
    → filed_in l.journal ≡ 0
Serves-halt w max_rejects write_concurrency already r =
    (Counts-Serves w (Counts-start_loop halt max_rejects write_concurrency already) r).none_filed
      refl

-- What one batch does to a loop.
pub data Outcome (batch : List LsnOp) (rejected : List Rejection) (l l' : Loop) : Type 0 where
  stops :
      l'.halted ≡ true → l'.ack ≡ l.ack → l'.ckpt_done ≡ l.ckpt_done → Outcome batch rejected l l'
  files :
      l.policy ≡ quarantine
      → l.quarantined + length rejected < l.max_rejects
      → (acks : List Effect)
      → l'.journal ≡ l.journal ++ Effect.written batch ∷ Effect.filed rejected ∷ acks
      → filed_in acks ≡ 0
      → Outcome batch rejected l l'
