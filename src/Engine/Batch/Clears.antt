-- ===== src/Engine/Batch/Clears.antt =====
-- The arms of a load mark and of a TRUNCATE: both hand the buffer over first.
use pg2osync.Base.{
  ℕ, ◌≡◌, refl, ap, ◌∙◌, true, List, [], ◌∷◌, ◌++◌, append-nil, arith, Option, none, some,
  Bool-cases, when_false, inl, inr,
}
use pg2osync.Base.Text.{Text}
use pg2osync.Core.Error.{Result, ok, >>=-eq-ok}
use pg2osync.Core.Sink.{LsnOp}
use pg2osync.Engine.Command
use pg2osync.Engine.Command.{SinkCommand}
use pg2osync.Engine.Batch.State.{State, send, flush}
use pg2osync.Engine.Batch.Handlers.{
  is_empty, flush_buffer, calm, mark_behind, handle_load_mark, close_window, note_clear,
  clear_index,
}
use pg2osync.Engine.Batch.View.{clear, view, view_ops, view_command}
use pg2osync.Engine.Batch.Moves.{view-send}
use pg2osync.Engine.Batch.Gathered.{flush-eq-ok, view-flush}

-- After it the buffer is empty, and nothing else that is let through has changed.
record Emptied (s t : State) : Type 0 where
  view_same : view t ≡ view s
  buffer : t.txn_buffer ≡ []

eq-nil_of_is_empty' : (os : List LsnOp) → is_empty os ≡ true → os ≡ []
unfolding is_empty
eq-nil_of_is_empty' [] h = refl
eq-nil_of_is_empty' (o ∷ os) h = cc

flush_buffer-Emptied : (s : State) {s' : State} → flush_buffer s ≡ ok s' → Emptied s s'
unfolding flush_buffer
flush_buffer-Emptied s {s'} h = elim (Bool-cases (is_empty s.txn_buffer)) [
  | inl none' ↦
      let same : s ≡ s' = cc (rw none' at h) in
      rw (← same) (record { view_same = refl; buffer = eq-nil_of_is_empty' s.txn_buffer none' })
  | inr some' ↦
      let flushed : flush s ≡ ok s' = rw some' at h in
      record {
        view_same = view-flush s flushed;
        buffer = ap (λ (t : State). t.txn_buffer) (flush-eq-ok s flushed);
      }
]

-- A command sent with an empty buffer comes last.
view-send_last :
    (c : SinkCommand) (s : State) {s' : State}
    → s.txn_buffer ≡ []
    → send c s ≡ ok s'
    → view s' ≡ view s ++ view_command c
unfolding view view_ops
view-send_last c s empty h =
    let (v, b) = view-send c s h in rw (v, b ∙ empty, empty) (simp append-nil)

view-mark_behind :
    (mark : ℕ) (s : State) {s' : State} → mark_behind mark s ≡ ok s' → view s' ≡ view s
unfolding mark_behind calm view_command
view-mark_behind mark s h =
    let (t, first, last) = >>=-eq-ok (flush_buffer (calm s)) (send (Command.load_mark mark)) h in
    let e = flush_buffer-Emptied (calm s) first in
    view-send_last (Command.load_mark mark) t e.buffer last
    ∙ append-nil (view t)
    ∙ (unfold view in e.view_same)

-- A mark lets nothing through by itself, and loses nothing.
pub view-handle_load_mark :
    (mark : ℕ) (s : State) {s' : State} → handle_load_mark mark s ≡ ok s' → view s' ≡ view s
unfolding handle_load_mark close_window view
view-handle_load_mark mark s {s'} h = elim (Bool-cases s.stream_txn_open) [
  | inl open' ↦
      let e : record s { superseded = []; cleared = []; pending_mark = some mark } ≡ s' =
        cc (rw open' at h) in
      rw (← e) refl
  | inr quiet ↦ view-mark_behind mark (close_window s) (when_false s.stream_txn_open _ _ quiet h)
]

note_clear-view :
    (index : Text) (version : Option ℕ) (only : Option (Text × Text)) (s : State)
    → (view (note_clear index version only s) ≡ view s)
      × ((note_clear index version only s).txn_buffer ≡ s.txn_buffer)
unfolding note_clear view
note_clear-view index (some version) none s = ground arith
note_clear-view index none none s = (refl, refl)
note_clear-view index none (some relation) s = (refl, refl)
note_clear-view index (some version) (some relation) s = (refl, refl)

-- A clear goes behind everything in hand.
pub clear_index-view :
    (index : Text) (version : Option ℕ) (only : Option (Text × Text)) (s : State) {s' : State}
    → clear_index index version only s ≡ ok s'
    → view s' ≡ view s ++ clear index version only ∷ []
unfolding clear_index view_command
clear_index-view index version only s {s'} h =
    let rest : State → Result State = λ t.
      send (Command.truncate index version only)
        (note_clear index version only (record t { txn_bytes = 0 })) in
    let (t, first, last) = >>=-eq-ok (flush_buffer s) rest h in
    let e = flush_buffer-Emptied s first in
    let (v, b) = note_clear-view index version only (record t { txn_bytes = 0 }) in
    view-send_last (Command.truncate index version only) _ (b ∙ e.buffer) last
    ∙ ap (λ v. v ++ clear index version only ∷ []) (v ∙ (unfold view in e.view_same))
