-- ===== src/Engine/Batch/Bytes.antt =====
-- The buffer's size: `txn_bytes` counts exactly what the buffer holds, and between events a buffer
-- that holds something is below both limits of a batch.
use pg2osync.Base.{
  ℕ, ◌-◌, ◌+◌, ◌<◌, ◌≡◌, refl, sym, ap, ◌∙◌, true, false, List, [], ◌∷◌, ◌++◌, map, arith, Option,
  none, some, Bool-cases, inl, inr, ◌||◌, length, sum_by, sum_by-append, leb, when_true, when_false,
  ◌==◌,
}
use pg2osync.Core.Error.{Result, ok, err, >>=-eq-ok, ok_inj}
use pg2osync.Core.Event.{RowChange}
use pg2osync.Core.Json.{Value}
use pg2osync.Core.Lsn.{Lsn}
use pg2osync.Core.Sink.{DocumentOp, LsnOp}
use pg2osync.Engine.Command.{SinkCommand, op_size}
use pg2osync.Engine.Batch.State.{State, RowRules, send, flush}
use pg2osync.Engine.Batch.Rows.{
  gather, kept, buffer_ops, stamp, is_full, add_ops, process_row, process_rows, handle_rows,
}
use pg2osync.Engine.Batch.Handlers.{is_empty, restamp, close_txn, flush_buffer}
use pg2osync.Engine.Batch.Moves.{SameWork, gather-SameWork}

pub record IsSized (s : State) : Type 0 where
  pub counted : s.txn_bytes ≡ sum_by op_size s.txn_buffer
  pub below :
      is_empty s.txn_buffer ≡ false
      → (length s.txn_buffer < s.settings.batch_size) × (s.txn_bytes < s.settings.batch_max_bytes)

-- The same buffer, of the same size, under the same settings.
pub record SameBuffer (s t : State) : Type 0 where
  pub bytes : t.txn_bytes ≡ s.txn_bytes
  pub total : sum_by op_size t.txn_buffer ≡ sum_by op_size s.txn_buffer
  pub count : length t.txn_buffer ≡ length s.txn_buffer
  pub settings : t.settings ≡ s.settings
  pub empty : is_empty t.txn_buffer ≡ is_empty s.txn_buffer

pub IsSized-SameBuffer : {s t : State} → SameBuffer s t → IsSized s → IsSized t
IsSized-SameBuffer f z = record {
  counted = f.bytes ∙ z.counted ∙ sym f.total;
  below = λ h. rw (f.bytes, f.count, f.settings) (z.below (sym f.empty ∙ h));
}

pub IsSized-SameWork : {s t : State} → SameWork s t → IsSized s → IsSized t
IsSized-SameWork f z =
    IsSized-SameBuffer
      (record {
        bytes = f.txn_bytes;
        total = ap (sum_by op_size) f.txn_buffer;
        count = ap length f.txn_buffer;
        settings = f.settings;
        empty = ap is_empty f.txn_buffer;
      })
      z

total-restamp : (lsn : Lsn) (os : List LsnOp) → sum_by op_size (restamp lsn os) ≡ sum_by op_size os
unfolding restamp op_size
total-restamp lsn [] = refl
total-restamp lsn (o ∷ []) = refl
total-restamp lsn (o ∷ o' ∷ os) = ap (λ n. op_size o + n) (total-restamp lsn (o' ∷ os))

count-restamp : (lsn : Lsn) (os : List LsnOp) → length (restamp lsn os) ≡ length os
unfolding restamp
count-restamp lsn [] = refl
count-restamp lsn (o ∷ []) = refl
count-restamp lsn (o ∷ o' ∷ os) = omega (arith, count-restamp lsn (o' ∷ os))

pub empty-restamp : (lsn : Lsn) (os : List LsnOp) → is_empty (restamp lsn os) ≡ is_empty os
unfolding restamp is_empty
empty-restamp lsn [] = refl
empty-restamp lsn (o ∷ []) = refl
empty-restamp lsn (o ∷ o' ∷ os) = refl

pub SameBuffer-close_txn : (lsn : Lsn) (s : State) → SameBuffer s (close_txn lsn s)
unfolding close_txn
SameBuffer-close_txn lsn s = elim (Bool-cases (lsn.value == 0)) [
  | inl load ↦
      rw load (record { bytes = refl; total = refl; count = refl; settings = refl; empty = refl })
  | inr stream ↦ rw stream (record {
    bytes = refl;
    total = total-restamp lsn s.txn_buffer;
    count = count-restamp lsn s.txn_buffer;
    settings = refl;
    empty = empty-restamp lsn s.txn_buffer;
  })
]

pub IsSized-flush : (s : State) {s' : State} → flush s ≡ ok s' → IsSized s'
unfolding flush send is_empty
IsSized-flush s h = ground arith

room :
    (count size limit max_size : ℕ)
    → (leb limit count || leb max_size size) ≡ false
    → (count < limit) × (size < max_size)
room count size limit max_size h = ground arith

IsSized-buffer_ops :
    (ops : List DocumentOp) (s : State)
    → is_full (buffer_ops ops s) ≡ false
    → IsSized s
    → IsSized (buffer_ops ops s)
unfolding buffer_ops is_full
IsSized-buffer_ops ops s h z = record {
  counted =
      ap (λ n. n + sum_by op_size (map stamp ops)) z.counted
      ∙ sym (sum_by-append op_size s.txn_buffer (map stamp ops));
  below = λ e. room _ _ _ _ h;
}

-- After a row the buffer is below its limits, or has just been written.
IsSized-add_ops :
    (rules : RowRules) (shape : Option (Result (List DocumentOp))) (s : State) {s' : State}
    → add_ops rules shape s ≡ ok s'
    → IsSized s
    → IsSized s'
unfolding add_ops
IsSized-add_ops rules none s {s'} h z = let e : s ≡ s' = cc in rw (← e) z
IsSized-add_ops rules (some (err e)) s h z = cc
IsSized-add_ops rules (some (ok ops)) s {s'} h z =
    let t = buffer_ops (kept rules s ops) s in
    elim (Bool-cases (is_full t)) [
      | inl full ↦ IsSized-flush t (when_true _ _ _ full h)
      | inr left ↦
          let e : t ≡ s' = ok_inj (when_false _ _ _ left h) in
          rw (← e) (IsSized-buffer_ops (kept rules s ops) s left z)
    ]

IsSized-process_rows :
    (rules : RowRules) (previous : RowChange → Option Value) (rs : List RowChange) (s : State)
    {s' : State}
    → process_rows rules previous rs s ≡ ok s'
    → IsSized s
    → IsSized s'
unfolding process_rows process_row
IsSized-process_rows rules previous [] s {s'} h z = let e : s ≡ s' = cc in rw (← e) z
IsSized-process_rows rules previous (r ∷ rs) s h z =
    let (t, first, rest) =
      >>=-eq-ok (process_row rules previous r s) (process_rows rules previous rs) h in
    IsSized-process_rows rules previous rs t rest
      (IsSized-add_ops rules (rules.shape r (previous r)) s first z)

pub IsSized-handle_rows :
    (rules : RowRules) (r : RowChange) (s : State) {s' : State}
    → handle_rows rules r s ≡ ok s'
    → IsSized s
    → IsSized s'
unfolding handle_rows
IsSized-handle_rows rules r s h z =
    let (rs, t) = gather (s.settings.batch_size - 1) s in
    let (previous, completed, rest) = >>=-eq-ok (rules.complete t.now (r ∷ rs)) _ h in
    IsSized-process_rows rules previous (r ∷ rs) t rest
      (IsSized-SameWork (gather-SameWork (s.settings.batch_size - 1) s) z)

pub IsSized-send :
    (c : SinkCommand) (s : State) {s' : State} → send c s ≡ ok s' → IsSized s → IsSized s'
unfolding send
IsSized-send c s {s'} h z = elim (Bool-cases s.sink_open) [
  | inl open' ↦
      let e : record s { sent = s.sent ++ c ∷ [] } ≡ s' = cc (when_true _ _ _ open' h) in
      rw (← e) (record { counted = z.counted; below = z.below })
  | inr shut ↦ absurd (ground arith)
]

pub IsSized-flush_buffer :
    (s : State) {s' : State} → flush_buffer s ≡ ok s' → IsSized s → IsSized s'
unfolding flush_buffer
IsSized-flush_buffer s {s'} h z = elim (Bool-cases (is_empty s.txn_buffer)) [
  | inl none' ↦ let e : s ≡ s' = ok_inj (when_true _ _ _ none' h) in rw (← e) z
  | inr some' ↦ IsSized-flush s (when_false _ _ _ some' h)
]

pub eq-nil_of_is_empty : (os : List LsnOp) → is_empty os ≡ true → os ≡ []
unfolding is_empty
eq-nil_of_is_empty [] h = refl
eq-nil_of_is_empty (o ∷ os) h = cc

-- After a write of whatever is in hand, nothing is.
pub nil-flush_buffer : (s : State) {s' : State} → flush_buffer s ≡ ok s' → s'.txn_buffer ≡ []
unfolding flush_buffer flush send
nil-flush_buffer s {s'} h = elim (Bool-cases (is_empty s.txn_buffer)) [
  | inl none' ↦
      let e : s ≡ s' = ok_inj (when_true _ _ _ none' h) in
      rw (← e) (eq-nil_of_is_empty s.txn_buffer none')
  | inr some' ↦ ground arith
]
