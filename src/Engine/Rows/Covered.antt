-- ===== src/Engine/Rows/Covered.antt =====
-- The indexes that a row renders are those of its table, and so are those of what is written there.
use pg2osync.Base.{
  ℕ, ◌≡◌, refl, true, not, ◌&&◌, ◌||◌, Option, none, some, List, [], ◌∷◌, All, Bool-cases, inl, inr,
}
use pg2osync.Base.Text.{Text, text_eq}
use pg2osync.Core.Json.{Value}
use pg2osync.Core.Sink.{DocumentOp, upsert, delete, delete_children}
use pg2osync.Core.Patterns.{index_matches_pattern}
use pg2osync.Engine.Mapping.{
  Attempt, done, refused, IndexTarget, target_pattern, render_target, render_target_from_pk,
}
use pg2osync.Engine.Mapping.Cleared.{render_target-matches}
use pg2osync.Engine.Placing.{Outside, JoinParent, JoinRule}
use pg2osync.Engine.Rows.{
  Rules, Placed, value_or, ok, render_for_row, index_rows, is_held, routing_eq, is_object,
}
use pg2osync.Engine.Rows.Materialize.{
  rendered_index, finish, removals, leavings, old_index_by, moved, orphans_of, orphans,
}

abbrev pub op_index : DocumentOp → Text
op_index (upsert index id routing doc version pipeline) = index
op_index (delete index id routing version) = index
op_index (delete_children index name parent_name parent_id version) = index

abbrev pub op_version : DocumentOp → Option ℕ
op_version (upsert index id routing doc version pipeline) = version
op_version (delete index id routing version) = version
op_version (delete_children index name parent_name parent_id version) = version

module _ (target : IndexTarget) where
  abbrev pub Covered : Text → Type 0
  Covered index = index_matches_pattern (target_pattern target) index ≡ true

  abbrev pub Filed : Option ℕ → DocumentOp → Type 0
  Filed version op = Covered (op_index op) × (op_version op ≡ version)

module _ (outside : Outside) (rules : Rules) (target : IndexTarget) (version : Option ℕ) where
  pub rendered_index-Covered :
      (pk : Value) (doc before : Option Value) (index : Text)
      → rendered_index outside rules target pk doc before ≡ done index
      → Covered target index
  unfolding rendered_index render_for_row
  rendered_index-Covered pk (some doc) before index e =
      render_target-matches outside.to_json target doc index (inl e)
  rendered_index-Covered pk none (some row) index e =
      render_target-matches outside.to_json target row index (inl e)
  rendered_index-Covered pk none none index e =
      elim (Bool-cases ((index_rows outside target).is_pk_only || is_object pk)) [
        | inl enough ↦ render_target-matches outside.to_json target pk index (inr (rw enough at e))
        | inr short ↦ cc (rw short at e)
      ]

  ok-Covered :
      (r : Attempt Text) (index : Text)
      → Covered target index
      → ((name : Text) → r ≡ done name → Covered target name)
      → Covered target (value_or (ok r) index)
  unfolding value_or ok
  ok-Covered (done name) index h named = named name refl
  ok-Covered (refused why) index h named = h

  pub old_index_by-Covered :
      (before : Option Value) (pk : Value) (index : Text)
      → Covered target index
      → Covered target (value_or (old_index_by outside rules target before pk) index)
  unfolding old_index_by value_or
  old_index_by-Covered (some row) pk index h =
      ok-Covered (render_target outside.to_json target row) index h
        (λ name e. render_target-matches outside.to_json target row name (inl e))
  old_index_by-Covered none pk index h =
      elim (Bool-cases ((index_rows outside target).is_pk_only)) [
        | inl only ↦ rw only (
            ok-Covered (render_target_from_pk outside.to_json target pk) index h
              (λ name e. render_target-matches outside.to_json target pk name (inr e)))
        | inr wide ↦ rw wide h
      ]

  pub finish-Filed :
      (index : Text) (completed : List Text) (placed : List Placed)
      → Covered target index
      → All (Filed target version) ((finish outside rules version index completed placed).0)
  unfolding finish
  finish-Filed index completed [] h = tt
  finish-Filed index completed (p ∷ placed) h = ((h, refl), finish-Filed index completed placed h)

  pub removals-Filed :
      (index : Text) (placed : List Placed)
      → Covered target index
      → All (Filed target version) (removals outside rules version index placed)
  unfolding removals
  removals-Filed index [] h = tt
  removals-Filed index (p ∷ placed) h = ((h, refl), removals-Filed index placed h)

  pub leavings-Filed :
      (index old_index : Text) (held placed : List Placed)
      → Covered target old_index
      → All (Filed target version) (leavings outside rules version index old_index held placed)
  unfolding leavings
  leavings-Filed index old_index held [] h = tt
  leavings-Filed index old_index held (p ∷ placed) h =
      elim (Bool-cases (not (text_eq old_index index) || not (is_held p.id p.routing held))) [
        | inl gone ↦ rw gone ((h, refl), leavings-Filed index old_index held placed h)
        | inr kept ↦ rw kept (leavings-Filed index old_index held placed h)
      ]

  pub moved-Filed :
      (index base : Text) (routing : Option Text) (old_index old_id : Text)
      (old_routing : Option Text)
      → Covered target old_index
      → All
          (Filed target version)
          (moved outside rules version index base routing old_index old_id old_routing)
  unfolding moved
  moved-Filed index base routing old_index old_id old_routing h =
      elim (Bool-cases
        (text_eq old_index index && text_eq old_id base && routing_eq old_routing routing)) [
          | inl same ↦ rw same tt
          | inr other ↦ rw other ((h, refl), tt)
        ]

  orphans_of-Filed :
      (rule : JoinRule) (parent : Option JoinParent) (index base : Text)
      → Covered target index
      → All (Filed target version) (orphans_of outside rules target version rule parent index base)
  unfolding orphans_of
  orphans_of-Filed rule none index base h = ((h, refl), tt)
  orphans_of-Filed rule (some parent) index base h = tt

  pub orphans-Filed :
      (join : Option JoinRule) (index base : Text)
      → Covered target index
      → All (Filed target version) (orphans outside rules target version join index base)
  unfolding orphans
  orphans-Filed none index base h = tt
  orphans-Filed (some rule) index base h = orphans_of-Filed rule rule.parent index base h
