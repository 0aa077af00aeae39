-- ===== src/Engine/SinkLoop.antt =====
-- `sink_loop`, `take_one`, `finish`, `drain` and `Acks::apply`: the task that writes.
--
-- What the target answers is a `World`, asked by the number of the call, so that every sequence of
-- answers is some world. `journal` records the calls that took effect, in the order in which the
-- loop accounts for them. Log lines and spans are not modelled.
pub mod Behind
pub mod Safety
pub mod Served
pub mod Rejected
pub mod Quarantined
use pg2osync.Base.{
  ℕ, ◌+◌, ◌<◌, ◌≡◌, max, Bool, true, false, Option, none, some, List, [], ◌∷◌, ◌++◌, length, ltb,
  leb, if◌then◌else◌,
}
use pg2osync.Base.Text.{Text}
use pg2osync.Core.Error.{Result, ok, err}
use pg2osync.Core.Lsn.{Lsn}
use pg2osync.Core.Sink.{LsnOp, Rejection, SinkAck}
use pg2osync.Engine.Command.{SinkCommand, write, truncate, load_mark, position}

pub data RejectionPolicy : Type 0 where
  halt quarantine : RejectionPolicy

pub data Effect : Type 0 where
  written : List LsnOp → Effect
  filed : List Rejection → Effect
  acked : Lsn → Effect
  marked : ℕ → Effect
  truncated : Text → Option ℕ → Option (Text × Text) → Effect

-- `sink.write` as a spawned task (`none` if the task did not finish), `sink.quarantine` and
-- `sink.truncate_index`
pub record World : Type 0 where
  pub write : ℕ → List LsnOp → Option (Result SinkAck)
  pub quarantine : ℕ → List Rejection → Result (Unit {0})
  pub truncate : ℕ → Text → Option ℕ → Option (Text × Text) → Result (Unit {0})

pub record Loop : Type 0 where
  pub policy : RejectionPolicy
  pub max_rejects : ℕ
  pub write_concurrency : ℕ
  pub quarantined : ℕ
  -- requests open against the target, oldest first, with their numbers
  pub inflight : List (ℕ × List LsnOp)
  pub calls : ℕ
  pub halted : Bool
  -- `ack_tx`, `ckpt_done_tx` and `load_done_tx`
  pub ack : Option Lsn
  pub ckpt_done : Option Lsn
  pub load_done : ℕ
  pub sink_errors : ℕ
  pub journal : List Effect

-- The state in which the loop starts; `already` is what the quarantine store holds.
unfoldable pub start_loop : RejectionPolicy → ℕ → ℕ → ℕ → Loop
start_loop policy max_rejects write_concurrency already = record {
  policy = policy;
  max_rejects = max_rejects;
  write_concurrency = write_concurrency;
  quarantined = elim policy [ halt ↦ 0 | quarantine ↦ already ];
  inflight = [];
  calls = 0;
  halted = false;
  ack = none;
  ckpt_done = none;
  load_done = 0;
  sink_errors = 0;
  journal = [];
}

unfoldable pub note : Effect → Loop → Loop
note e l = record l { journal = l.journal ++ e ∷ [] }

-- a failure: nothing after it is acknowledged
unfoldable pub stop : Loop → Loop
stop l = record l { halted = true; sink_errors = l.sink_errors + 1 }

-- A position of zero comes from the initial load, and is never acknowledged.
unfoldable pub publish : Lsn → Loop → Loop
unfolding note
publish lsn l =
    if ltb 0 lsn.value
    then note (Effect.acked lsn) (record l { ack = some lsn; ckpt_done = some lsn })
    else l

unfoldable pub file : Result (Unit {0}) → List Rejection → Lsn → Loop → Loop
file (err e) rejected lsn l = stop l
file (ok u) rejected lsn l =
    let l' =
      note (Effect.filed rejected) (record l { quarantined = l.quarantined + length rejected }) in
    if leb l.max_rejects (l.quarantined + length rejected) then stop l' else publish lsn l'

module _ (w : World) where
  unfoldable pub refused : RejectionPolicy → List Rejection → Lsn → Loop → Loop
  refused halt rejected lsn l = stop l
  refused quarantine rejected lsn l =
      if leb l.max_rejects l.quarantined
      then stop l
      else file (w.quarantine l.calls rejected) rejected lsn l

  -- `Acks::apply` at an acknowledgement
  unfoldable pub apply_ack : List Rejection → Lsn → Loop → Loop
  apply_ack [] lsn l = publish lsn l
  apply_ack (r ∷ rs) lsn l = refused l.policy (r ∷ rs) lsn l

  -- `finish` and `Acks::apply`, for a write
  unfoldable pub account : List LsnOp → Option (Result SinkAck) → Loop → Loop
  unfolding apply_ack refused file publish note stop
  account batch none l = stop l
  account batch (some (err e)) l = stop l
  account batch (some (ok a)) l = apply_ack a.rejected a.max_lsn (note (Effect.written batch) l)

  unfoldable pub finish : ℕ → List LsnOp → Loop → Loop
  finish n batch l = account batch (w.write n batch) l

  -- `take_one`: wait for the oldest open write
  unfoldable pub take_front : List (ℕ × List LsnOp) → Loop → Loop
  take_front [] l = l
  take_front ((n, batch) ∷ rest) l = finish n batch (record l { inflight = rest })

  unfoldable pub take_one : Loop → Loop
  unfolding take_front
  take_one l = take_front l.inflight l

  -- `drain`: every open write in the order in which they were sent, up to a failure
  unfoldable pub drain_all : List (ℕ × List LsnOp) → Loop → Loop
  drain_all [] l = l
  drain_all ((n, batch) ∷ rest) l =
      let l' = finish n batch (record l { inflight = rest }) in
      let more = drain_all rest l' in if l'.halted then l' else more

  unfoldable pub drain : Loop → Loop
  unfolding drain_all
  drain l = drain_all l.inflight l

  unfoldable pub cleared : Result (Unit {0}) → Text → Option ℕ → Option (Text × Text) → Loop → Loop
  cleared (ok u) index version only l = note (Effect.truncated index version only) l
  cleared (err e) index version only l = stop l

  -- a command other than a write, once nothing is open
  unfoldable pub barrier : SinkCommand → Loop → Loop
  barrier (position lsn) l = publish lsn l
  barrier (load_mark mark) l = note (Effect.marked mark) (record l { load_done = mark })
  barrier (truncate index version only) l =
      cleared (w.truncate l.calls index version only) index version only l
  barrier (write batch) l = l

  unfoldable pub after_drain : SinkCommand → Loop → Loop
  after_drain c l = if l.halted then l else barrier c l

  unfoldable pub on_command : SinkCommand → Loop → Loop
  unfolding after_drain barrier cleared
  on_command (write batch) l = record l {
    inflight = l.inflight ++ (l.calls, batch) ∷ [];
    calls = l.calls + 1;
  }
  on_command c l = after_drain c (drain (record l { calls = l.calls + 1 }))

-- The loop on the commands that it has received so far. A finished write is taken at any time; a
-- command only while fewer writes are open than the concurrency allows.
pub data Serves (w : World) (start : Loop) : List SinkCommand → Loop → Type 0 where
  starts : Serves w start [] start
  finishes :
      {commands : List SinkCommand} {l : Loop}
      → Serves w start commands l
      → l.halted ≡ false
      → Serves w start commands (take_one w l)
  receives :
      {commands : List SinkCommand} {l : Loop} (c : SinkCommand)
      → Serves w start commands l
      → l.halted ≡ false
      → length l.inflight < max 1 l.write_concurrency
      → Serves w start (commands ++ c ∷ []) (on_command w c l)
