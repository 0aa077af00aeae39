-- ===== src/Engine/SinkLoop/Rejected.antt =====
-- The account of refused documents: what is filed is counted, and the limit stops the loop.
use pg2osync.Base.{
  ℕ, ◌+◌, ◌<◌, ◌≡◌, ◌⊎◌, refl, sym, false, inl, inr, List, [], ◌∷◌, ◌++◌, arith, Bool-cases, ltb,
  leb, length, Option, none, some,
}
use pg2osync.Core.Error.{Result, ok, err}
use pg2osync.Core.Lsn.{Lsn}
use pg2osync.Core.Sink.{LsnOp, Rejection, SinkAck}
use pg2osync.Engine.SinkLoop.{
  RejectionPolicy, halt, quarantine, Effect, World, Loop, note, stop, publish, file, refused,
  apply_ack, account, finish, take_front, drain_all,
}

-- How many refused documents the effects filed.
unfoldable pub filed_in : List Effect → ℕ
filed_in [] = 0
filed_in (Effect.filed rejected ∷ es) = length rejected + filed_in es
filed_in (_ ∷ es) = filed_in es

abbrev pub filed_by : Effect → ℕ
filed_by (Effect.filed rejected) = length rejected
filed_by _ = 0

filed_in-snoc : (es : List Effect) (e : Effect) → filed_in (es ++ e ∷ []) ≡ filed_in es + filed_by e
unfolding filed_in
filed_in-snoc [] (Effect.filed rejected) = omega arith
filed_in-snoc [] (Effect.written batch) = refl
filed_in-snoc [] (Effect.acked lsn) = refl
filed_in-snoc [] (Effect.marked mark) = refl
filed_in-snoc [] (Effect.truncated index version only) = refl
filed_in-snoc (Effect.filed rejected ∷ es) e = omega (arith, filed_in-snoc es e)
filed_in-snoc (Effect.written batch ∷ es) e = filed_in-snoc es e
filed_in-snoc (Effect.acked lsn ∷ es) e = filed_in-snoc es e
filed_in-snoc (Effect.marked mark ∷ es) e = filed_in-snoc es e
filed_in-snoc (Effect.truncated index version only ∷ es) e = filed_in-snoc es e

-- The count of a loop that started with `base` documents in quarantine.
pub record Counts (base : ℕ) (policy : RejectionPolicy) (l : Loop) : Type 0 where
  pub same : l.policy ≡ policy
  pub counted : l.quarantined ≡ base + filed_in l.journal
  pub none_filed : policy ≡ halt → filed_in l.journal ≡ 0
  pub below : l.halted ≡ false → (filed_in l.journal ≡ 0) ⊎ (l.quarantined < l.max_rejects)

module _ {base : ℕ} {policy : RejectionPolicy} where
  -- An effect that files nothing.
  pub Counts-note :
      (e : Effect) (l : Loop)
      → filed_by e ≡ 0
      → Counts base policy l
      → Counts base policy (note e l)
  unfolding note
  Counts-note e l h c =
      let k : filed_in (l.journal ++ e ∷ []) ≡ filed_in l.journal =
        omega (arith, filed_in-snoc l.journal e, h) in
      record {
        same = c.same;
        counted = rw k c.counted;
        none_filed = λ p. rw k (c.none_filed p);
        below = λ p. rw k (c.below p);
      }

  pub Counts-stop : (l : Loop) → Counts base policy l → Counts base policy (stop l)
  unfolding stop
  Counts-stop l c = record {
    same = c.same;
    counted = c.counted;
    none_filed = c.none_filed;
    below = λ p. cc;
  }

  pub Counts-publish :
      (lsn : Lsn) (l : Loop) → Counts base policy l → Counts base policy (publish lsn l)
  unfolding publish
  Counts-publish lsn l c = elim (Bool-cases (ltb 0 lsn.value)) [
    | inl real ↦ rw real (
        Counts-note (Effect.acked lsn) _ refl (record {
          same = c.same;
          counted = c.counted;
          none_filed = c.none_filed;
          below = c.below;
        }))
    | inr zero' ↦ rw zero' c
  ]

  Counts-file :
      (answer : Result (Unit {0})) (rejected : List Rejection) (lsn : Lsn) (l : Loop)
      → policy ≡ quarantine
      → Counts base policy l
      → Counts base policy (file answer rejected lsn l)
  unfolding file note stop
  Counts-file (err e) rejected lsn l p c = Counts-stop l c
  Counts-file (ok u) rejected lsn l p c =
      let l' : Loop =
        note (Effect.filed rejected) (record l { quarantined = l.quarantined + length rejected }) in
      let k : filed_in l'.journal ≡ filed_in l.journal + length rejected =
        filed_in-snoc l.journal (Effect.filed rejected) in
      let counted' : l.quarantined + length rejected ≡ base + filed_in l'.journal =
        omega (arith, k, c.counted) in
      elim (Bool-cases (leb l.max_rejects (l.quarantined + length rejected))) [
        | inl spent ↦
            rw spent
              (record { same = c.same; counted = counted'; none_filed = λ h. cc; below = λ h. cc })
        | inr left ↦ rw left (
            Counts-publish lsn l' (record {
              same = c.same;
              counted = counted';
              none_filed = λ h. cc;
              below = λ h. inr (ground arith);
            }))
      ]

  module _ (w : World) where
    Counts-refused :
        (p : RejectionPolicy) (rejected : List Rejection) (lsn : Lsn) (l : Loop)
        → policy ≡ p
        → Counts base policy l
        → Counts base policy (refused w p rejected lsn l)
    unfolding refused
    Counts-refused halt rejected lsn l p c = Counts-stop l c
    Counts-refused quarantine rejected lsn l p c =
        elim (Bool-cases (leb l.max_rejects l.quarantined)) [
          | inl spent ↦ rw spent (Counts-stop l c)
          | inr left ↦ rw left (Counts-file (w.quarantine l.calls rejected) rejected lsn l p c)
        ]

    Counts-account :
        (batch : List LsnOp) (answer : Option (Result SinkAck)) (l : Loop)
        → Counts base policy l
        → Counts base policy (account w batch answer l)
    unfolding account apply_ack
    Counts-account batch none l c = Counts-stop l c
    Counts-account batch (some (err e)) l c = Counts-stop l c
    Counts-account batch (some (ok a)) l c =
        let c' = Counts-note (Effect.written batch) l refl c in
        elim a.rejected
          as (λ rejected.
            Counts base policy (apply_ack w rejected a.max_lsn (note (Effect.written batch) l))) [
              | [] ↦ Counts-publish a.max_lsn _ c'
              | r ∷ rs ↦ Counts-refused _ (r ∷ rs) a.max_lsn _ (sym c'.same) c'
            ]

    Counts-finish :
        (n : ℕ) (batch : List LsnOp) (rest : List (ℕ × List LsnOp)) (l : Loop)
        → Counts base policy l
        → Counts base policy (finish w n batch (record l { inflight = rest }))
    unfolding finish
    Counts-finish n batch rest l c =
        Counts-account batch (w.write n batch) (record l { inflight = rest })
          (record {
            same = c.same;
            counted = c.counted;
            none_filed = c.none_filed;
            below = c.below;
          })

    pub Counts-take_front :
        (ws : List (ℕ × List LsnOp)) (l : Loop)
        → Counts base policy l
        → Counts base policy (take_front w ws l)
    unfolding take_front
    Counts-take_front [] l c = c
    Counts-take_front ((n, batch) ∷ rest) l c = Counts-finish n batch rest l c

    pub Counts-drain_all :
        (ws : List (ℕ × List LsnOp)) (l : Loop)
        → Counts base policy l
        → Counts base policy (drain_all w ws l)
    unfolding drain_all
    Counts-drain_all [] l c = c
    Counts-drain_all ((n, batch) ∷ rest) l c =
        let l' = finish w n batch (record l { inflight = rest }) in
        let c' : Counts base policy l' = Counts-finish n batch rest l c in
        elim (Bool-cases l'.halted) [
          | inl failed ↦ simp failed c'
          | inr fine ↦ simp fine (Counts-drain_all rest l' c')
        ]
