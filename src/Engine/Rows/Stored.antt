-- ===== src/Engine/Rows/Stored.antt =====
-- What operations leave in the target, whose documents are named by index, id and routing.
use pg2osync.Base.{
  ℕ, ◌≡◌, refl, sym, ap, ◌∙◌, Bool, true, false, ◌&&◌, Option, none, some, List, [], ◌∷◌,
  Bool-cases, inl, inr, arith, if◌then◌else◌,
}
use pg2osync.Base.Text.{Text, text_eq, text_eq_iff, text_eq_refl}
use pg2osync.Core.Json.{Value}
use pg2osync.Core.Sink.{DocumentOp, upsert, delete, delete_children}
use pg2osync.Engine.Placing.{Outside}
use pg2osync.Engine.Rows.{Rules, routing_eq}
use pg2osync.Engine.Rows.Materialize.{moved}

-- The target's documents, by index, id and routing.
abbrev pub Store : Type 0
Store = Text → Text → Option Text → Option Value

abbrev pub at_home : Text → Text → Option Text → Text → Text → Option Text → Bool
at_home index id routing index' id' routing' =
    text_eq index index' && text_eq id id' && routing_eq routing routing'

-- One write, where what a deletion of a parent's children does is given.
abbrev pub after : (Text → Text → Text → Text → Store → Store) → DocumentOp → Store → Store
after sweep (upsert index id routing doc version pipeline) s =
    λ i d r. if at_home index id routing i d r then some doc else s i d r
after sweep (delete index id routing version) s =
    λ i d r. if at_home index id routing i d r then none else s i d r
after sweep (delete_children index name parent_name parent_id version) s =
    sweep index name parent_name parent_id s

abbrev pub stored : (Text → Text → Text → Text → Store → Store) → List DocumentOp → Store → Store
stored sweep [] s = s
stored sweep (op ∷ ops) s = stored sweep ops (after sweep op s)

routing_eq_sound : (q r : Option Text) → routing_eq q r ≡ true → q ≡ r
unfolding routing_eq
routing_eq_sound none none e = refl
routing_eq_sound none (some r) e = cc
routing_eq_sound (some q) none e = cc
routing_eq_sound (some q) (some r) e = ap some ((text_eq_iff q r).0 e)

routing_eq_refl : (r : Option Text) → routing_eq r r ≡ true
unfolding routing_eq
routing_eq_refl none = refl
routing_eq_refl (some r) = text_eq_refl r

pub at_home-same :
    (i d : Text) (r : Option Text) (i' d' : Text) (r' : Option Text)
    → at_home i d r i' d' r' ≡ true
    → (i ≡ i') × (d ≡ d') × (r ≡ r')
at_home-same i d r i' d' r' e =
    ground (arith, text_eq_iff i i', text_eq_iff d d', routing_eq_sound r r')

at_home-meet :
    (i d : Text) (r : Option Text) (i' d' : Text) (r' : Option Text) (x y : Text) (z : Option Text)
    → at_home i d r x y z ≡ true
    → at_home i' d' r' x y z ≡ true
    → at_home i d r i' d' r' ≡ true
at_home-meet i d r i' d' r' x y z e e' =
    let (a, b, c) = at_home-same i d r x y z e in
    let (a', b', c') = at_home-same i' d' r' x y z e' in
    rw (a ∙ sym a', b ∙ sym b', c ∙ sym c', text_eq_refl i', text_eq_refl d', routing_eq_refl r')
      refl

shadowed :
    (q : Bool) (x y : Option Value)
    → (if q then x else y) ≡ (if q then x else (if q then none else y))
shadowed false x y = refl
shadowed true x y = refl

swapped :
    (q q' : Bool) (x y : Option Value)
    → (q ≡ true → q' ≡ true → ⊥)
    → (if q' then none else (if q then x else y)) ≡ (if q then x else (if q' then none else y))
swapped false q' x y h = refl
swapped true false x y h = refl
swapped true true x y h = absurd (h refl refl)

-- Writing first and removing the old document afterwards leaves what the other order would.
pub stored-moved :
    (sweep : Text → Text → Text → Text → Store → Store) (outside : Outside) (rules : Rules)
    (version : Option ℕ) (pipeline : Option Text) (index id : Text) (routing : Option Text)
    (doc : Value) (old_index old_id : Text) (old_routing : Option Text) (s : Store) (i d : Text)
    (r : Option Text)
    → stored sweep
        (upsert index id routing doc version pipeline
          ∷ moved outside rules version index id routing old_index old_id old_routing)
        s
        i
        d
        r
      ≡ stored sweep
          (upsert index id routing doc version pipeline ∷ [])
          (after sweep (delete old_index old_id old_routing version) s)
          i
          d
          r
unfolding moved
stored-moved sweep outside rules version pipeline index id routing doc old_index old_id old_routing
      s i d r =
    elim (Bool-cases (at_home old_index old_id old_routing index id routing)) [
      | inl same ↦
          let (a, b, c) = at_home-same old_index old_id old_routing index id routing same in
          simp (a, b, c, text_eq_refl index, text_eq_refl id, routing_eq_refl routing)
            (shadowed (at_home index id routing i d r) (some doc) (s i d r))
      | inr other ↦ simp other (
          swapped (at_home index id routing i d r) (at_home old_index old_id old_routing i d r)
            (some doc) (s i d r)
            (λ e e'. cc (at_home-meet old_index old_id old_routing index id routing i d r e' e)))
    ]
