-- ===== src/Core/Patterns/Meaning.antt =====
-- A pattern with stars against what it means: a star stands for any text.
use pg2osync.Base.{
  ℕ, ◌≡◌, ◌↔◌, refl, ap, true, List, [], ◌∷◌, ◌++◌, ◌==◌, if◌then◌else◌, Bool-cases, inl, inr,
}
use pg2osync.Base.Text.{Text}
use pg2osync.Core.Patterns.{literals, index_matches_pattern}
use pg2osync.Core.Patterns.Globs.{Anchored, Anchored-of_split, split_of_Anchored}

-- What a pattern means: a star, 42 in ASCII, stands for any text, and every other byte for itself.
abbrev pub Fits : Text → Text → Type 0
Fits [] name = name ≡ []
Fits (c ∷ pattern') name =
    if c == 42
    then ((gap rest : Text) × (name ≡ gap ++ rest) × Fits pattern' rest)
    else ((rest : Text) × (name ≡ c ∷ rest) × Fits pattern' rest)

-- One byte less of the first literal.
Anchored-uncons :
    (c : ℕ) (first : Text) (others : List Text) (name : Text)
    → Anchored (c ∷ first) others name
    → (rest : Text) × (name ≡ c ∷ rest) × Anchored first others rest
Anchored-uncons c first [] name e = (first, e, refl)
Anchored-uncons c first (next ∷ others) name (gap, rest, e, anchored) =
    (first ++ (gap ++ rest), e, (gap, rest, refl, anchored))

Anchored-cons :
    (c : ℕ) (first : Text) (others : List Text) (rest : Text)
    → Anchored first others rest
    → Anchored (c ∷ first) others (c ∷ rest)
Anchored-cons c first [] rest e = ap (◌∷◌ c) e
Anchored-cons c first (next ∷ others) rest (gap, rest', e, anchored) =
    (gap, rest', ap (◌∷◌ c) e, anchored)

Fits-of_Anchored :
    (pattern' name : Text)
    → Anchored (literals pattern').0 (literals pattern').1 name
    → Fits pattern' name
unfolding literals
Fits-of_Anchored [] name h = h
Fits-of_Anchored (c ∷ pattern') name h = elim (Bool-cases (c == 42)) [
  | inl star ↦
      let (gap, rest, e, anchored) = rw star at h in
      rw star (gap, rest, e, Fits-of_Anchored pattern' rest anchored)
  | inr other ↦
      let (rest, e, anchored) =
        Anchored-uncons c (literals pattern').0 (literals pattern').1 name (rw other at h) in
      rw other (rest, e, Fits-of_Anchored pattern' rest anchored)
]

Anchored-of_Fits :
    (pattern' name : Text)
    → Fits pattern' name
    → Anchored (literals pattern').0 (literals pattern').1 name
unfolding literals
Anchored-of_Fits [] name h = h
Anchored-of_Fits (c ∷ pattern') name h = elim (Bool-cases (c == 42)) [
  | inl star ↦
      let (gap, rest, e, fits) = rw star at h in
      rw star (gap, rest, e, Anchored-of_Fits pattern' rest fits)
  | inr other ↦
      let (rest, e, fits) = rw other at h in
      rw (other, e)
        (Anchored-cons c (literals pattern').0 (literals pattern').1 rest
          (Anchored-of_Fits pattern' rest fits))
]

-- A name matches a pattern exactly when it fits it, a star standing for any text, the empty one
-- too, and every other byte for itself: taking each literal at its leftmost place loses no match.
pub index_matches_pattern-Fits :
    (pattern' name : Text) → (index_matches_pattern pattern' name ≡ true) ↔ Fits pattern' name
unfolding index_matches_pattern
index_matches_pattern-Fits pattern' name = (
  λ h.
      Fits-of_Anchored pattern' name
        (Anchored-of_split (literals pattern').0 (literals pattern').1 name h),
  λ f.
      split_of_Anchored (literals pattern').0 (literals pattern').1 name
        (Anchored-of_Fits pattern' name f),
)
