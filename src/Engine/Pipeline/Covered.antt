-- ===== src/Engine/Pipeline/Covered.antt =====
-- The two refinements together: what follows a log, and what is behind that.
use pg2osync.Base.{ℕ, ◌≡◌, inl, inr, refl, sym, ap, List, [], ◌∷◌, ◌++◌, map}
use mathlib.Core.Path.{subst}
use pg2osync.Engine.Batch.View.{Item, op, committed, Follows, nothing, keep, skip}
use pg2osync.Engine.SinkLoop.Behind.{Has, Behind, stopped, did_op, did_clear, passed, acks}

-- What is done is behind the log, and the rest of the view follows the rest of the log.
pub record Composed (rest : List Item) (before : List ℕ) (log done : List Item) : Type 0 where
  pub left : List Item
  pub commits : List ℕ
  pub behind : Behind left commits before log done
  pub follows : Follows left rest

abbrev Within : List ℕ → List ℕ → Type 0
Within before before' = (l : ℕ) → Has l before → Has l before'

Within-cons :
    (before before' : List ℕ) (k : ℕ) → Within before before' → Within (k ∷ before) (k ∷ before')
Within-cons before before' k w l (inl e) = inl e
Within-cons before before' k w l (inr h) = inr (w l h)

-- The commits that were left out in front of an item.
record Uncons (i : Item) (log seen : List Item) : Type 0 where
  skipped : List ℕ
  tail : List Item
  parts : log ≡ map committed skipped ++ i ∷ tail
  follows : Follows tail seen

uncons :
    {log seen' : List Item} (i : Item) (seen : List Item)
    → seen' ≡ i ∷ seen
    → Follows log seen'
    → Uncons i log seen
uncons i seen e nothing = cc
uncons i seen e (keep {log} {seen = s} j f) =
    let here : j ≡ i = cc in
    let rest : s ≡ seen = cc in
    record { skipped = []; tail = log; parts = ap (λ k. k ∷ log) here; follows = rw rest at f }
uncons i seen e (skip lsn f) =
    let u = uncons i seen e f in
    record {
      skipped = lsn ∷ u.skipped;
      tail = u.tail;
      parts = ap (◌∷◌ (committed lsn)) u.parts;
      follows = u.follows;
    }

pile : List ℕ → List ℕ → List ℕ
pile [] before = before
pile (k ∷ ks) before = pile ks (k ∷ before)

Within-pile : (ks before before' : List ℕ) → Within before before' → Within before (pile ks before')
unfolding pile
Within-pile [] before before' w = w
Within-pile (k ∷ ks) before before' w = Within-pile ks before (k ∷ before') (λ l h. inr (w l h))

pass_all :
    {left : List Item} {commits : List ℕ} (ks before : List ℕ) {log done : List Item}
    → Behind left commits (pile ks before) log done
    → Behind left commits before (map committed ks ++ log) done
unfolding pile
pass_all [] before b = b
pass_all (k ∷ ks) before b = passed k (pass_all ks (k ∷ before) b)

module _ {rest : List Item} (before' : List ℕ) {i : Item} {log seen : List Item}
    (u : Uncons i log seen) where
  -- The step over the item itself, once the commits in front of it are passed.
  over :
      {done done' : List Item} (c : Composed rest (pile u.skipped before') u.tail done)
      → (Behind c.left c.commits (pile u.skipped before') u.tail done
          → Behind c.left c.commits (pile u.skipped before') (i ∷ u.tail) done')
      → Composed rest before' log done'
  over {done' = d} c step = record {
    left = c.left;
    commits = c.commits;
    behind =
        subst (λ l. Behind c.left c.commits before' l d) (sym u.parts)
          (pass_all u.skipped before' (step c.behind));
    follows = c.follows;
  }

pub compose :
    {rest : List Item} {after before : List ℕ} {seen done : List Item}
    → Behind rest after before seen done
    → {log : List Item} → Follows log seen
    → (before' : List ℕ) → Within before before'
    → Composed rest before' log done
compose stopped f before' w = record { left = _; commits = before'; behind = stopped; follows = f }
compose (acks lsn h b) f before' w =
    let c = compose b f before' w in
    record {
      left = c.left;
      commits = c.commits;
      behind = acks lsn (w lsn h) c.behind;
      follows = c.follows;
    }
compose (did_op {before} {log = seen} o b) f before' w =
    let u = uncons (op o) seen refl f in
    over before' u
      (compose b u.follows (pile u.skipped before') (Within-pile u.skipped before before' w))
      (did_op o)
compose (did_clear {before} {log = seen} {i = i} n b) f before' w =
    let u = uncons i seen refl f in
    over before' u
      (compose b u.follows (pile u.skipped before') (Within-pile u.skipped before before' w))
      (did_clear n)
compose (passed {before} {log = seen} lsn b) f before' w =
    let u = uncons (committed lsn) seen refl f in
    let piled : List ℕ = pile u.skipped before' in
    let c =
      compose b u.follows (lsn ∷ piled)
        (Within-cons before piled lsn (Within-pile u.skipped before before' w)) in
    record {
      left = c.left;
      commits = c.commits;
      behind = rw u.parts (pass_all u.skipped before' (passed lsn c.behind));
      follows = c.follows;
    }
