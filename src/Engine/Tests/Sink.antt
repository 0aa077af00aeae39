-- ===== src/Engine/Tests/Sink.antt =====
-- The sink loop's and the checkpoint task's theorems at concrete inputs.
use pg2osync.Base.{◌≡◌, ◌⊎◌, refl, none, some, [], ◌∷◌, ◌++◌}
use pg2osync.Base.Text.{text}
use pg2osync.Core.Error.{ok}
use pg2osync.Core.Lsn.{Lsn}
use pg2osync.Core.Sink.{Rejection, SinkAck}
use pg2osync.Engine.Command.{SinkCommand}
use pg2osync.Engine.Command
use pg2osync.Engine.SinkLoop.{World, Loop, RejectionPolicy, start_loop, take_one, on_command}
use pg2osync.Engine.SinkLoop.Rejected.{filed_in}
use pg2osync.Engine.SinkLoop.Quarantined.{Serves-halt}
use pg2osync.Engine.Pipeline.Checkpoints.{Task, checkpoint_at, poll, poll-durable}
use pg2osync.Engine.Tests.{program, users, at, upsert_one, batch_one, willing, served, serving}

abbrev bad_one : Rejection
bad_one = record {
  index = users;
  doc_id = text "1";
  reason = text "mapper";
  lsn = at 5;
  op = upsert_one;
}

-- A target that takes the batch but refuses its document, and files what it is asked to.
abbrev picky_ack : SinkAck
picky_ack = record { max_lsn = at 5; rejected = bad_one ∷ [] }

abbrev picky : World
picky = record willing { write = λ n batch. some (ok picky_ack) }

abbrev wary : Loop
wary = start_loop RejectionPolicy.quarantine 100 1 0

abbrev filed_one : Loop
filed_one = take_one picky (on_command picky (Command.write batch_one) wary)

filed_count : filed_in filed_one.journal ≡ 1
unfolding program filed_in
filed_count = refl

Serves-halt_example : filed_in served.journal ≡ 0
Serves-halt_example = Serves-halt willing 100 1 0 serving

abbrev task : Task
task = record {
  stream = record { source = text "pg"; stream = text "slot"; publication = text "pub" };
  last_persisted = none;
  durable = 0;
  persisted = [];
}

poll-durable_example :
    (poll (λ n. text "0/5") (some (at 5)) (ok tt) task ≡ task)
    ⊎ ((lsn : Lsn) × (some (at 5) ≡ some lsn)
        × ((poll (λ n. text "0/5") (some (at 5)) (ok tt) task).durable ≡ lsn.value)
        × ((poll (λ n. text "0/5") (some (at 5)) (ok tt) task).persisted
            ≡ task.persisted ++ checkpoint_at (λ n. text "0/5") lsn task ∷ []))
poll-durable_example = poll-durable (λ n. text "0/5") (some (at 5)) (ok tt) task
