-- ===== src/Engine/Batch/Moves.antt =====
-- What the small steps of a turn do to the view of a state.
use pg2osync.Base.{
  ℕ, zero, suc, ◌≡◌, refl, ◌∙◌, List, [], ◌∷◌, ◌++◌, arith, Option, none, some, Bool-cases, inl,
  inr,
}
use mathlib.Core.Path.{ap₂}
use pg2osync.Core.Error.{ok}
use pg2osync.Core.Event.{ChangeEvent, RowChange, row}
use pg2osync.Engine.Command.{SinkCommand}
use pg2osync.Engine.Batch.State.{State, send, try_next, from_events}
use pg2osync.Engine.Batch.Rows.{gather, gather_more}
use pg2osync.Engine.Batch.View.{view, view_ops, view_sent, view_command, view_sent-snoc}

pub view-send :
    (c : SinkCommand) (s : State) {s' : State}
    → send c s ≡ ok s'
    → (view_sent s'.sent ≡ view_sent s.sent ++ view_command c) × (s'.txn_buffer ≡ s.txn_buffer)
unfolding send
view-send c s {s'} h = elim (Bool-cases s.sink_open) [
  | inl open' ↦
      let e : s' ≡ record s { sent = s.sent ++ c ∷ [] } = ground arith in
      (rw e (view_sent-snoc s.sent c), rw e refl)
  | inr shut ↦ absurd (ground arith)
]

-- Two states with the same work in hand: only what waits, and the clock of coalescing, may differ.
pub record SameWork (s t : State) : Type 0 where
  pub sent : t.sent ≡ s.sent
  pub txn_buffer : t.txn_buffer ≡ s.txn_buffer
  pub txn_bytes : t.txn_bytes ≡ s.txn_bytes
  pub superseded : t.superseded ≡ s.superseded
  pub cleared : t.cleared ≡ s.cleared
  pub settings : t.settings ≡ s.settings
  pub stream_txn_open : t.stream_txn_open ≡ s.stream_txn_open
  pub pending_mark : t.pending_mark ≡ s.pending_mark
  pub sink_open : t.sink_open ≡ s.sink_open
  pub current_position : t.current_position ≡ s.current_position

pub SameWork-refl : (s : State) → SameWork s s
SameWork-refl s = record {
  sent = refl;
  txn_buffer = refl;
  txn_bytes = refl;
  superseded = refl;
  cleared = refl;
  settings = refl;
  stream_txn_open = refl;
  pending_mark = refl;
  sink_open = refl;
  current_position = refl;
}

pub SameWork-trans : {s t u : State} → SameWork s t → SameWork t u → SameWork s u
SameWork-trans f g = record {
  sent = g.sent ∙ f.sent;
  txn_buffer = g.txn_buffer ∙ f.txn_buffer;
  txn_bytes = g.txn_bytes ∙ f.txn_bytes;
  superseded = g.superseded ∙ f.superseded;
  cleared = g.cleared ∙ f.cleared;
  settings = g.settings ∙ f.settings;
  stream_txn_open = g.stream_txn_open ∙ f.stream_txn_open;
  pending_mark = g.pending_mark ∙ f.pending_mark;
  sink_open = g.sink_open ∙ f.sink_open;
  current_position = g.current_position ∙ f.current_position;
}

pub view-SameWork : {s t : State} → SameWork s t → view t ≡ view s
unfolding view
view-SameWork f = ap₂ (λ cs os. view_sent cs ++ view_ops os) f.sent f.txn_buffer

from_events-SameWork : (l : List ChangeEvent) (s : State) → SameWork s (from_events l s).1
unfolding from_events
from_events-SameWork [] s = record {
  sent = refl;
  txn_buffer = refl;
  txn_bytes = refl;
  superseded = refl;
  cleared = refl;
  settings = refl;
  stream_txn_open = refl;
  pending_mark = refl;
  sink_open = refl;
  current_position = refl;
}
from_events-SameWork (ev ∷ rest) s = record {
  sent = refl;
  txn_buffer = refl;
  txn_bytes = refl;
  superseded = refl;
  cleared = refl;
  settings = refl;
  stream_txn_open = refl;
  pending_mark = refl;
  sink_open = refl;
  current_position = refl;
}

pub try_next-SameWork : (s : State) → SameWork s (try_next s).1
unfolding try_next
try_next-SameWork s = from_events-SameWork s.events s

gather_more-SameWork :
    (next : State → List RowChange × State)
    → ((s : State) → SameWork s (next s).1)
    → (found : Option ChangeEvent) (s : State) → SameWork s (gather_more next found s).1
unfolding gather_more
gather_more-SameWork next k none s = SameWork-refl s
gather_more-SameWork next k (some (row r)) s = k s
gather_more-SameWork next k (some _) s = record {
  sent = refl;
  txn_buffer = refl;
  txn_bytes = refl;
  superseded = refl;
  cleared = refl;
  settings = refl;
  stream_txn_open = refl;
  pending_mark = refl;
  sink_open = refl;
  current_position = refl;
}

pub gather-SameWork : (n : ℕ) (s : State) → SameWork s (gather n s).1
unfolding gather
gather-SameWork zero s = SameWork-refl s
gather-SameWork (suc n) s =
    SameWork-trans (try_next-SameWork s)
      (gather_more-SameWork (gather n) (gather-SameWork n) (try_next s).0 (try_next s).1)
