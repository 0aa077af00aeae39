-- ===== src/Engine/Mapping/Cleared.antt =====
-- A table's index pattern covers every index that its rows are written to.
use pg2osync.Base.{
  ◌≡◌, ◌⊎◌, inl, inr, refl, ◌∙◌, true, List, [], ◌∷◌, ◌++◌, append_assoc, append-nil, Bool-cases,
  arith, ◌==◌, if◌then◌else◌,
}
use pg2osync.Base.Text.{Text}
use pg2osync.Core.Json.{
  Value, Fields, null, bool, number, string, array, object, end, field, get_field,
}
use pg2osync.Core.Patterns.{index_matches_pattern}
use pg2osync.Core.Patterns.Meaning.{Fits, index_matches_pattern-Fits}
use pg2osync.Engine.Mapping.{
  Attempt, done, ◌>>=◌, >>=-eq-done, shown_column, IdPart, literal, column, IdTemplate,
  rendered_part, render_parts, render_template, render_scalar, render_template_from_pk, IndexTarget,
  static, template, usable, ends_in_star, pattern_after, target_pattern, render_target,
  render_target_from_pk,
}

-- A text fits itself, in front of what fits.
Fits-append : (s p n : Text) → Fits p n → Fits (s ++ p) (s ++ n)
Fits-append [] p n h = h
Fits-append (c ∷ s) p n h = elim (Bool-cases (c == 42)) [
  | inl star ↦ rw star (c ∷ [], s ++ n, refl, Fits-append s p n h)
  | inr other ↦ rw other (s ++ n, refl, Fits-append s p n h)
]

-- A second star says nothing new.
Fits-star : (out p x : Text) → ends_in_star out ≡ true → Fits (out ++ 42 ∷ p) x → Fits (out ++ p) x
unfolding ends_in_star
Fits-star [] p x e h = cc
Fits-star (c ∷ []) p x e h =
    let (gap, rest, split, inner) = rw e at h in
    let (gap', rest', split', fits) = inner in
    rw e (gap ++ gap', rest', split ∙ rw (split', append_assoc gap gap' rest'), fits)
Fits-star (c ∷ d ∷ s) p x e h = elim (Bool-cases (c == 42)) [
  | inl star ↦
      let (gap, rest, split, fits) = rw star at h in
      rw star (gap, rest, split, Fits-star (d ∷ s) p rest e fits)
  | inr other ↦
      let (rest, split, fits) = rw other at h in
      rw other (rest, split, Fits-star (d ∷ s) p rest e fits)
]

-- What is rendered so far fits what the pattern has so far, whatever follows both.
abbrev Leads : Text → Text → Type 0
Leads out shown = (p n : Text) → Fits p n → Fits (out ++ p) (shown ++ n)

Leads-literal : (s out shown : Text) → Leads out shown → Leads (out ++ s) (shown ++ s)
Leads-literal s out shown h p n fits =
    rw (append_assoc out s p, append_assoc shown s n) (h (s ++ p) (s ++ n) (Fits-append s p n fits))

Leads-column :
    (v out shown : Text)
    → Leads out shown
    → Leads (if ends_in_star out then out else out ++ 42 ∷ []) (shown ++ v)
Leads-column v out shown h = elim (Bool-cases (ends_in_star out)) [
  | inl star ↦ rw star (λ p n fits.
      rw (append_assoc shown v n)
        (Fits-star out p (shown ++ (v ++ n)) star (h (42 ∷ p) (v ++ n) (v, n, refl, fits))))
  | inr other ↦ rw other (λ p n fits.
      rw (append_assoc out (42 ∷ []) p, append_assoc shown v n)
        (h (42 ∷ p) (v ++ n) (v, n, refl, fits)))
]

module _ (to_json : Value → Text) (doc : Fields) where
  render_parts-Fits :
      (parts : List IdPart) (out shown : Text) {name : Text}
      → Leads out shown
      → render_parts to_json doc parts shown ≡ done name
      → Fits (pattern_after out parts) name
  unfolding render_parts rendered_part pattern_after
  render_parts-Fits [] out shown {name} h e =
      let fits = h [] [] refl in
      let same : shown ≡ name = cc e in rw (← same) (rw (append-nil out, append-nil shown) at fits)
  render_parts-Fits (literal s ∷ parts) out shown h e =
      render_parts-Fits parts (out ++ s) (shown ++ s) (Leads-literal s out shown h) e
  render_parts-Fits (column c ∷ parts) out shown h e =
      let (v, first, rest) =
        >>=-eq-done (shown_column to_json c (get_field c doc))
          (λ shown'. render_parts to_json doc parts (shown ++ shown')) e in
      render_parts-Fits parts _ (shown ++ v) (Leads-column v out shown h) rest

module _ (to_json : Value → Text) where
  render_template-Fits :
      (t : IdTemplate) (v : Value) {name : Text}
      → render_template to_json t v ≡ done name
      → Fits (pattern_after [] t.parts) name
  unfolding render_template
  render_template-Fits t (object doc) e =
      render_parts-Fits to_json doc t.parts [] [] (λ p n fits. fits) e
  render_template-Fits t null e = cc
  render_template-Fits t (bool b) e = cc
  render_template-Fits t (number n) e = cc
  render_template-Fits t (string s) e = cc
  render_template-Fits t (array items) e = cc

  render_scalar-Fits :
      (t : IdTemplate) (cs : List Text) (v : Value) {name : Text}
      → render_scalar to_json t cs v ≡ done name
      → Fits (pattern_after [] t.parts) name
  unfolding render_scalar
  render_scalar-Fits t [] v e = cc
  render_scalar-Fits t (c ∷ []) v e = elim (Bool-cases t.pk_only) [
    | inl only ↦ render_template-Fits t (object (field c v end)) (simp only at e)
    | inr wide ↦ cc (simp wide at e)
  ]
  render_scalar-Fits t (c ∷ d ∷ cs) v e = cc

  render_template_from_pk-Fits :
      (t : IdTemplate) (v : Value) {name : Text}
      → render_template_from_pk to_json t v ≡ done name
      → Fits (pattern_after [] t.parts) name
  unfolding render_template_from_pk
  render_template_from_pk-Fits t (object key) e = render_template-Fits t (object key) e
  render_template_from_pk-Fits t null e = cc
  render_template_from_pk-Fits t (bool b) e = render_scalar-Fits t _ (bool b) e
  render_template_from_pk-Fits t (number n) e = render_scalar-Fits t _ (number n) e
  render_template_from_pk-Fits t (string s) e = render_scalar-Fits t _ (string s) e
  render_template_from_pk-Fits t (array items) e = render_scalar-Fits t _ (array items) e

  usable-same : (r : Attempt Text) {name : Text} → (r >>= usable) ≡ done name → r ≡ done name
  unfolding usable
  usable-same r e = ground arith

  Fits-self : (name : Text) → Fits name name
  Fits-self name = let fits = Fits-append name [] [] refl in rw append-nil at fits

  -- Every index that a row of a table renders, from its document or from its key, matches the pattern
  -- that a TRUNCATE of the table clears.
  pub render_target-matches :
      (target : IndexTarget) (v : Value) (name : Text)
      → (render_target to_json target v ≡ done name)
        ⊎ (render_target_from_pk to_json target v ≡ done name)
      → index_matches_pattern (target_pattern target) name ≡ true
  unfolding render_target render_target_from_pk target_pattern
  render_target-matches (static fixed) v name (inl e) =
      let same : fixed ≡ name = cc e in
      (index_matches_pattern-Fits fixed name).1 (rw same (Fits-self name))
  render_target-matches (static fixed) v name (inr e) =
      let same : fixed ≡ name = cc e in
      (index_matches_pattern-Fits fixed name).1 (rw same (Fits-self name))
  render_target-matches (template spec t) v name (inl e) =
      (index_matches_pattern-Fits (pattern_after [] t.parts) name).1
        (render_template-Fits t v (usable-same (render_template to_json t v) e))
  render_target-matches (template spec t) v name (inr e) =
      (index_matches_pattern-Fits (pattern_after [] t.parts) name).1
        (render_template_from_pk-Fits t v (usable-same (render_template_from_pk to_json t v) e))
