-- ===== src/Engine/SinkLoop/Safety.antt =====
-- Whatever the target answers and whenever writes finish, the loop's effects are behind its commands.
use pg2osync.Base.{
  ℕ, ◌+◌, ◌<◌, ◌≡◌, refl, ap, ◌∙◌, false, inl, inr, List, [], ◌∷◌, ◌++◌, map, append-nil,
  append_assoc, arith, Bool-cases, ltb, leb, length, Option, none, some,
}
use pg2osync.Core.Error.{Result, ok, err}
use pg2osync.Core.Lsn.{Lsn}
use pg2osync.Core.Sink.{LsnOp, Rejection, SinkAck}
use pg2osync.Engine.Batch.View.{Item, op, view_ops}
use pg2osync.Engine.SinkLoop.{
  RejectionPolicy, halt, quarantine, Effect, World, Loop, note, stop, publish, file, refused,
  apply_ack, account, finish, take_front,
}
use pg2osync.Engine.SinkLoop.Behind.{
  Has, effects_view, effects_view-append, Behind, stopped, acks, Behind-append, passes,
  Behind-batch, highest, Has-highest,
}

-- What the open writes will do.
unfoldable pub open_view : List (ℕ × List LsnOp) → List Item
open_view [] = []
open_view ((n, batch) ∷ rest) = view_ops batch ++ open_view rest

pub open_view-snoc :
    (ws : List (ℕ × List LsnOp)) (n : ℕ) (batch : List LsnOp)
    → open_view (ws ++ (n, batch) ∷ []) ≡ open_view ws ++ view_ops batch
unfolding open_view
open_view-snoc [] n batch = append-nil (view_ops batch)
open_view-snoc ((m, b) ∷ ws) n batch = simp (open_view-snoc ws n batch, append_assoc)

-- Done is behind the log, with `rest` to do, all of it open unless the loop has halted.
pub record Settled (log : List Item) (l : Loop) : Type 0 where
  pub rest : List Item
  pub commits : List ℕ
  pub behind : Behind rest commits [] log (effects_view l.journal)
  pub in_hand : l.halted ≡ false → rest ≡ open_view l.inflight

-- The documented contract of `Sink::write`: the answer reports the highest position of the batch.
abbrev pub ReportsHighest : World → Type 0
ReportsHighest w =
    (n : ℕ) (batch : List LsnOp) (a : SinkAck)
    → w.write n batch ≡ some (ok a)
    → a.max_lsn.value ≡ highest batch

module _ {log : List Item} where
  pub Settled-stop :
      {rest : List Item} {commits : List ℕ} (l : Loop)
      → Behind rest commits [] log (effects_view l.journal)
      → Settled log (stop l)
  unfolding stop
  Settled-stop {rest} {commits} l b = record {
    rest = rest;
    commits = commits;
    behind = b;
    in_hand = λ h. cc;
  }

  pub Settled-publish :
      {commits : List ℕ} (lsn : Lsn) (l : Loop)
      → Behind (open_view l.inflight) commits [] log (effects_view l.journal)
      → (0 < lsn.value → Has lsn.value commits)
      → Settled log (publish lsn l)
  unfolding publish effects_view
  Settled-publish {commits} lsn l b has = elim (Bool-cases (ltb 0 lsn.value)) [
    | inl real ↦ rw real (record {
      rest = open_view l.inflight;
      commits = commits;
      behind =
          rw effects_view-append (Behind-append b (acks lsn.value (has (ground arith)) stopped));
      in_hand = λ h. refl;
    })
    | inr zero' ↦
        rw zero' (record {
          rest = open_view l.inflight;
          commits = commits;
          behind = b;
          in_hand = λ h. refl;
        })
  ]

  Settled-file :
      (answer : Result (Unit {0})) (rejected : List Rejection) {commits : List ℕ} (lsn : Lsn)
      (l : Loop)
      → Behind (open_view l.inflight) commits [] log (effects_view l.journal)
      → (0 < lsn.value → Has lsn.value commits)
      → Settled log (file answer rejected lsn l)
  unfolding file effects_view note
  Settled-file (err e) rejected lsn l b has = Settled-stop l b
  Settled-file (ok u) rejected {commits} lsn l b has =
      let l' : Loop = record l {
        quarantined = l.quarantined + length rejected;
        journal = l.journal ++ Effect.filed rejected ∷ [];
      } in
      let b' : Behind (open_view l.inflight) commits [] log (effects_view l'.journal) =
        rw (effects_view-append l.journal (Effect.filed rejected ∷ []), append-nil) b in
      elim (Bool-cases (leb l.max_rejects (l.quarantined + length rejected))) [
        | inl spent ↦ rw spent (Settled-stop l' b')
        | inr left ↦ rw left (Settled-publish lsn l' b' has)
      ]

  module _ (w : World) where
    Settled-refused :
        (policy : RejectionPolicy) (rejected : List Rejection) {commits : List ℕ} (lsn : Lsn)
        (l : Loop)
        → Behind (open_view l.inflight) commits [] log (effects_view l.journal)
        → (0 < lsn.value → Has lsn.value commits)
        → Settled log (refused w policy rejected lsn l)
    unfolding refused
    Settled-refused halt rejected lsn l b has = Settled-stop l b
    Settled-refused quarantine rejected lsn l b has =
        elim (Bool-cases (leb l.max_rejects l.quarantined)) [
          | inl spent ↦ rw spent (Settled-stop l b)
          | inr left ↦ rw left (Settled-file (w.quarantine l.calls rejected) rejected lsn l b has)
        ]

    Settled-apply_ack :
        (rejected : List Rejection) {commits : List ℕ} (lsn : Lsn) (l : Loop)
        → Behind (open_view l.inflight) commits [] log (effects_view l.journal)
        → (0 < lsn.value → Has lsn.value commits)
        → Settled log (apply_ack w rejected lsn l)
    unfolding apply_ack
    Settled-apply_ack [] lsn l b has = Settled-publish lsn l b has
    Settled-apply_ack (r ∷ rs) lsn l b has = Settled-refused l.policy (r ∷ rs) lsn l b has

    -- One finished write, whose batch was the next thing to do.
    pub Settled-account :
        (batch : List LsnOp) (answer : Option (Result SinkAck)) {commits : List ℕ} (l : Loop)
        → ((a : SinkAck) → answer ≡ some (ok a) → a.max_lsn.value ≡ highest batch)
        → Behind (view_ops batch ++ open_view l.inflight) commits [] log (effects_view l.journal)
        → Settled log (account w batch answer l)
    unfolding account note
    Settled-account batch none l c b = Settled-stop l b
    Settled-account batch (some (err e)) l c b = Settled-stop l b
    Settled-account batch (some (ok a)) {commits} l c b =
        let done : effects_view (note (Effect.written batch) l).journal
            ≡ effects_view l.journal ++ map (λ (o : LsnOp). op o.op) batch =
          unfold note effects_view in
          (effects_view-append l.journal (Effect.written batch ∷ [])
            ∙ ap (λ v. effects_view l.journal ++ v) (append-nil _)) in
        Settled-apply_ack a.rejected {commits = passes batch commits} a.max_lsn
          (note (Effect.written batch) l)
          (rw done (Behind-append b (Behind-batch batch (open_view l.inflight) commits)))
          (λ h. rw (c a refl) (Has-highest batch commits (rw (c a refl) at h)))

    module _ (contract : ReportsHighest w) where
      pub Settled-take_front :
          (ws : List (ℕ × List LsnOp)) (l : Loop)
          → {commits : List ℕ} → l.inflight ≡ ws
          → Behind (open_view ws) commits [] log (effects_view l.journal)
          → Settled log (take_front w ws l)
      unfolding take_front open_view finish
      Settled-take_front [] l e b = record {
        rest = [];
        commits = _;
        behind = b;
        in_hand = λ h. rw e refl;
      }
      Settled-take_front ((n, batch) ∷ rest) l e b =
          Settled-account batch (w.write n batch) (record l { inflight = rest }) (contract n batch)
            b
