-- ===== src/Engine/Rows/Fanned.antt =====
-- What the documents of a fanned row leave in the target, from one state of the row to the next.
use pg2osync.Base.{
  ℕ, ◌≡◌, refl, sym, ap, ◌∙◌, Bool, true, false, not, ◌&&◌, ◌||◌, Option, List, [], ◌∷◌, ◌++◌,
  Bool-cases, inl, inr, arith,
}
use pg2osync.Base.Text.{Text, text_eq, text_eq_iff}
use pg2osync.Core.Sink.{DocumentOp}
use pg2osync.Engine.Placing.{Outside}
use pg2osync.Engine.Rows.{Rules, Placed, routing_eq, is_held}
use pg2osync.Engine.Rows.Materialize.{finish, removals, leavings}
use pg2osync.Engine.Rows.Stored.{Store, at_home, after, stored, at_home-same}

free_parts :
    (x a b w : Bool) → (x && ((a && b) || w)) ≡ false → ((x && a && b) ≡ false) × ((x && w) ≡ false)
free_parts x a b w h = ground arith

first_or_rest :
    (x a b w : Bool) → (x && ((a && b) || w)) ≡ true → (x && w) ≡ false → (x && a && b) ≡ true
first_or_rest x a b w h h' = ground arith

not_both : (a b : Bool) → (not a || not b) ≡ not (a && b)
not_both a b = ground arith

not_self : (a : Bool) → a ≡ not a → ⊥
not_self false e = cc
not_self true e = cc

text_eq-sym : (s t : Text) → text_eq s t ≡ text_eq t s
text_eq-sym s t = ground (arith, text_eq_iff s t, text_eq_iff t s)

module _ (sweep : Text → Text → Text → Text → Store → Store) (outside : Outside) (rules : Rules)
    (version : Option ℕ) (i d : Text) (r : Option Text) where
  stored-append :
      (before later : List DocumentOp) (s : Store)
      → stored sweep (before ++ later) s ≡ stored sweep later (stored sweep before s)
  stored-append [] later s = refl
  stored-append (op ∷ before) later s = stored-append before later (after sweep op s)

  -- Whether a document of a list, in an index, is here.
  abbrev here : Text → List Placed → Bool
  here index placed = text_eq index i && is_held d r placed

  finish-free :
      (index : Text) (completed : List Text) (placed : List Placed) (s : Store)
      → here index placed ≡ false
      → stored sweep (finish outside rules version index completed placed).0 s i d r ≡ s i d r
  unfolding finish is_held
  finish-free index completed [] s h = refl
  finish-free index completed (p ∷ placed) s h =
      let (first, rest) =
        free_parts (text_eq index i) (text_eq p.id d) (routing_eq p.routing r) (is_held d r placed)
          h in
      finish-free index completed placed _ rest ∙ (simp first)

  finish-here :
      (index : Text) (completed : List Text) (placed : List Placed) (s t : Store)
      → here index placed ≡ true
      → stored sweep (finish outside rules version index completed placed).0 s i d r
        ≡ stored sweep (finish outside rules version index completed placed).0 t i d r
  unfolding finish is_held
  finish-here index completed [] s t h = absurd (ground arith)
  finish-here index completed (p ∷ placed) s t h = elim (Bool-cases (here index placed)) [
    | inl later ↦ finish-here index completed placed _ _ later
    | inr no_more ↦
        let first =
          first_or_rest (text_eq index i) (text_eq p.id d) (routing_eq p.routing r)
            (is_held d r placed) h no_more in
        finish-free index completed placed _ no_more
        ∙ (simp first)
        ∙ sym (finish-free index completed placed _ no_more)
  ]

  removals-alike :
      (index : Text) (placed : List Placed) (s t : Store)
      → s i d r ≡ t i d r
      → stored sweep (removals outside rules version index placed) s i d r
        ≡ stored sweep (removals outside rules version index placed) t i d r
  unfolding removals
  removals-alike index [] s t h = h
  removals-alike index (p ∷ placed) s t h = removals-alike index placed _ _ (simp h)

  abbrev leaves : Text → Text → List Placed → Placed → Bool
  leaves index old_index held p = not (text_eq old_index index) || not (is_held p.id p.routing held)

  leaves-here :
      (index old_index : Text) (held : List Placed) (p : Placed)
      → at_home old_index p.id p.routing i d r ≡ true
      → leaves index old_index held p ≡ not (here index held)
  leaves-here index old_index held p h =
      let (a, b, c) = at_home-same old_index p.id p.routing i d r h in
      simp (a, b, c, text_eq-sym i index) (not_both (text_eq index i) (is_held d r held))

  -- A document of the list that stays, or that goes, tells whether this one is another.
  elsewhere :
      (index old_index : Text) (held : List Placed) (p : Placed)
      → leaves index old_index held p ≡ here index held
      → at_home old_index p.id p.routing i d r ≡ false
  elsewhere index old_index held p same =
      elim (Bool-cases (at_home old_index p.id p.routing i d r)) [
        | inr away ↦ away
        | inl h ↦
            absurd (not_self (here index held) (sym same ∙ leaves-here index old_index held p h))
      ]

  -- A document that the new state holds stays.
  leavings-here :
      (index old_index : Text) (held old : List Placed) (s : Store)
      → here index held ≡ true
      → stored sweep (leavings outside rules version index old_index held old) s i d r ≡ s i d r
  unfolding leavings
  leavings-here index old_index held [] s h = refl
  leavings-here index old_index held (p ∷ old) s h =
      elim (Bool-cases (leaves index old_index held p)) [
        | inr kept ↦ simp kept (leavings-here index old_index held old s h)
        | inl gone ↦ simp gone (
            leavings-here index old_index held old _ h
            ∙ (simp (elsewhere index old_index held p (gone ∙ sym h))))
      ]

  -- Of what it does not hold, all that the old state had goes.
  leavings-free :
      (index old_index : Text) (held old : List Placed) (s : Store)
      → here index held ≡ false
      → stored sweep (leavings outside rules version index old_index held old) s i d r
        ≡ stored sweep (removals outside rules version old_index old) s i d r
  unfolding leavings removals
  leavings-free index old_index held [] s h = refl
  leavings-free index old_index held (p ∷ old) s h =
      elim (Bool-cases (leaves index old_index held p)) [
        | inl gone ↦ simp gone (leavings-free index old_index held old _ h)
        | inr kept ↦ simp kept (
            leavings-free index old_index held old s h
            ∙ removals-alike old_index old s _
                (simp (elsewhere index old_index held p (kept ∙ sym h))))
      ]

  pub finish-leavings :
      (index old_index : Text) (completed : List Text) (placed old : List Placed) (s : Store)
      → stored sweep
          ((finish outside rules version index completed placed).0
            ++ leavings outside rules version index old_index placed old)
          s
          i
          d
          r
        ≡ stored sweep
            (finish outside rules version index completed placed).0
            (stored sweep (removals outside rules version old_index old) s)
            i
            d
            r
  finish-leavings index old_index completed placed old s = elim (Bool-cases (here index placed)) [
    | inl held ↦
        ap (λ t. t i d r)
          (stored-append (finish outside rules version index completed placed).0 _ s)
        ∙ leavings-here index old_index placed old _ held
        ∙ finish-here index completed placed s _ held
    | inr free ↦
        ap (λ t. t i d r)
          (stored-append (finish outside rules version index completed placed).0 _ s)
        ∙ leavings-free index old_index placed old _ free
        ∙ removals-alike old_index old _ s (finish-free index completed placed s free)
        ∙ sym (finish-free index completed placed _ free)
  ]
