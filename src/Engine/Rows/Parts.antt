-- ===== src/Engine/Rows/Parts.antt =====
-- What an insert and a delete of a row that is one document find out, and what they write.
use pg2osync.Base.{ℕ, ◌≡◌, refl, sym, ap, Option, none, some, List, [], ◌∷◌}
use pg2osync.Base.Text.{Text}
use pg2osync.Core.Json.{Value}
use pg2osync.Core.Sink.{delete}
use pg2osync.Engine.Mapping.{done, >>=-eq-done, IndexTarget}
use pg2osync.Engine.Mapping.Yields.{Yields, Yields-bind, Yields-done}
use pg2osync.Engine.Placing.{Outside, JoinParent, JoinRule}
use pg2osync.Engine.Rows.{Rules, Placed}
use pg2osync.Engine.Rows.Materialize.{
  Written, derived_id, rendered_index, shaped, filed_by, routing_by, placed_one, placed_all, place,
  key_routing, finish, inserted, orphans_of, orphans, deleted_by, deleted,
}

abbrev pub HasParent : Option JoinRule → Type 0
HasParent none = Unit
HasParent (some rule) = (parent : JoinParent) × (rule.parent ≡ some parent)

module _ (outside : Outside) (rules : Rules) where
  placed_one-id :
      (raw : Value) (id : Text) (doc : Value) (p : Placed)
      → placed_one outside rules raw (id, doc) ≡ done p
      → p.id ≡ id
  unfolding placed_one
  placed_one-id raw id doc p e =
      let keeps : Yields (λ q. q.id ≡ id) (placed_one outside rules raw (id, doc)) =
        Yields-bind (filed_by outside rules rules.join doc) (λ filed e1.
          Yields-bind (routing_by outside rules filed rules.routed raw)
            (λ routing e2. Yields-done refl)) in
      keeps.yielded p e

  place-one :
      (base : Text) (doc : Value) (placed : List Placed)
      → rules.fan ≡ none
      → place outside rules base doc ≡ done placed
      → (p : Placed) × (placed ≡ p ∷ []) × (p.id ≡ base)
  unfolding place shaped placed_all
  place-one base doc placed single e =
      let (p, e1, r1) =
        >>=-eq-done (placed_one outside rules doc (base, doc)) (λ p. done (p ∷ []))
          (simp single at e) in
      let same : p ∷ [] ≡ placed = cc r1 in (p, sym same, placed_one-id doc base doc p e1)

module _ (outside : Outside) (rules : Rules) (target : IndexTarget) (version : Option ℕ) where
  orphans-HasParent :
      (join : Option JoinRule) (index base : Text)
      → HasParent join
      → orphans outside rules target version join index base ≡ []
  unfolding orphans orphans_of
  orphans-HasParent none index base h = refl
  orphans-HasParent (some rule) index base (parent, e) = simp e

  deleted_by-one :
      (pk : Value) (before : Option Value) (index id : Text)
      → HasParent rules.join
      → Yields
          (λ ops.
            (routing : Option Text) × (key_routing outside rules before pk ≡ done routing)
            × (ops ≡ delete index id routing version ∷ []))
          (deleted_by outside rules target version none pk before index id)
  unfolding deleted_by
  deleted_by-one pk before index id childless =
      Yields-bind (key_routing outside rules before pk) (λ routing e. Yields-done (
        routing,
        e,
        ap (λ more. delete index id routing version ∷ more)
            (orphans-HasParent rules.join index id childless),
      ))

  -- What a delete of a row that is one document found out, and what it writes.
  pub record DeletedAs (pk row : Value) (w : Written) : Type 0 where
    pub id : Text
    pub index : Text
    pub routing : Option Text
    pub id_of : derived_id outside rules pk none (some row) ≡ done id
    pub index_of : rendered_index outside rules target pk none (some row) ≡ done index
    pub routing_of : key_routing outside rules (some row) pk ≡ done routing
    pub writes : w ≡ (delete index id routing version ∷ [], [])

  pub deleted-DeletedAs :
      (pk row : Value)
      → rules.fan ≡ none
      → HasParent rules.join
      → Yields (DeletedAs pk row) (deleted outside rules target version pk (some row))
  unfolding deleted deleted_by
  deleted-DeletedAs pk row single childless =
      Yields-bind (derived_id outside rules pk none (some row)) (λ id e1.
        Yields-bind (rendered_index outside rules target pk none (some row)) (λ index e2.
          simp single (
            Yields-bind (deleted_by outside rules target version none pk (some row) index id)
              (λ ops e3.
                let (routing, found, same) =
                  (deleted_by-one pk (some row) index id childless).yielded ops e3 in
                Yields-done (record {
                  id = id;
                  index = index;
                  routing = routing;
                  id_of = e1;
                  index_of = e2;
                  routing_of = found;
                  writes = ap (λ all. (all, [])) same;
                })))))

  pub record InsertedAs (pk doc : Value) (w : Written) : Type 0 where
    pub id : Text
    pub index : Text
    pub placed : Placed
    pub id_of : derived_id outside rules pk (some doc) none ≡ done id
    pub index_of : rendered_index outside rules target pk (some doc) none ≡ done index
    pub place_of : place outside rules id doc ≡ done (placed ∷ [])
    pub named : placed.id ≡ id
    pub writes : w ≡ finish outside rules version index [] (placed ∷ [])

  pub inserted-InsertedAs :
      (pk doc : Value)
      → rules.fan ≡ none
      → Yields (InsertedAs pk doc) (inserted outside rules target version pk doc)
  unfolding inserted
  inserted-InsertedAs pk doc single =
      Yields-bind (derived_id outside rules pk (some doc) none) (λ id e1.
        Yields-bind (rendered_index outside rules target pk (some doc) none) (λ index e2.
          Yields-bind (place outside rules id doc) (λ placed e3.
            let (p, one, named) = place-one outside rules id doc placed single e3 in
            Yields-done (record {
              id = id;
              index = index;
              placed = p;
              id_of = e1;
              index_of = e2;
              place_of = rw one at e3;
              named = named;
              writes = ap (λ ps. finish outside rules version index [] ps) one;
            }))))
