-- ===== src/Core/Patterns/Globs.antt =====
-- The greedy match of the literals finds them in their order, wherever they can be found.
use pg2osync.Base.{
  ◌≤◌, ◌≡◌, refl, sym, ap, ◌∙◌, true, some, List, [], ◌∷◌, ◌++◌, append_assoc, length,
  length-append, ◌==◌, ==_iff, Bool-cases, Option-cases, inl, inr, arith,
}
use pg2osync.Base.Text.{Text, text_eq, text_eq_iff}
use pg2osync.Core.Patterns.{
  strip_prefix, ends_with, or_later, after_first, on_rest, match_literals, match_split,
}

-- The first literal starts the name, the others follow after any texts, the last ends it.
abbrev pub Anchored : Text → List Text → Text → Type 0
Anchored first [] name = name ≡ first
Anchored first (next ∷ others) name =
    (gap rest : Text) × (name ≡ first ++ (gap ++ rest)) × Anchored next others rest

strip_prefix-append : (literal rest : Text) → strip_prefix literal (literal ++ rest) ≡ some rest
unfolding strip_prefix
strip_prefix-append [] rest = refl
strip_prefix-append (c ∷ literal) rest =
    let same : (c == c) ≡ true = ground arith in rw same (strip_prefix-append literal rest)

append_of_strip_prefix :
    (literal name : Text) {rest : Text}
    → strip_prefix literal name ≡ some rest
    → name ≡ literal ++ rest
unfolding strip_prefix
append_of_strip_prefix [] name h = cc
append_of_strip_prefix (c ∷ literal) [] h = cc
append_of_strip_prefix (c ∷ literal) (d ∷ name) {rest} h = elim (Bool-cases (c == d)) [
  | inl same ↦
      let e : c ≡ d = (==_iff c d).0 same in
      let tail = append_of_strip_prefix literal name (rw same at h) in rw (e, tail)
  | inr other ↦ cc (rw other at h)
]

ends_with-append : (gap literal : Text) → ends_with literal (gap ++ literal) ≡ true
unfolding ends_with
ends_with-append [] [] = (text_eq_iff [] []).1 refl
ends_with-append [] (c ∷ literal) = rw ((text_eq_iff (c ∷ literal) (c ∷ literal)).1 refl)
ends_with-append (d ∷ gap) literal = rw (ends_with-append gap literal) (ground arith)

append_of_ends_with :
    (literal name : Text) → ends_with literal name ≡ true → (gap : Text) × (name ≡ gap ++ literal)
unfolding ends_with
append_of_ends_with literal [] h = ([], (text_eq_iff [] literal).0 h)
append_of_ends_with literal (d ∷ ds) h = elim (Bool-cases (text_eq (d ∷ ds) literal)) [
  | inl whole ↦ ([], (text_eq_iff (d ∷ ds) literal).0 whole)
  | inr part ↦
      let (gap, e) = append_of_ends_with literal ds (rw part at h) in (d ∷ gap, ap (◌∷◌ d) e)
]

-- Of two ways to cut a text, the shorter front leaves the longer rest.
cut :
    (xs ys zs ws : Text)
    → xs ++ ys ≡ zs ++ ws
    → length xs ≤ length zs
    → (gap : Text) × (ys ≡ gap ++ ws)
cut [] ys zs ws e h = (zs, e)
cut (x ∷ xs) ys [] ws e h = absurd (omega (arith, h))
cut (x ∷ xs) ys (z ∷ zs) ws e h =
    let tails : xs ++ ys ≡ zs ++ ws = cc in cut xs ys zs ws tails (omega (arith, h))

append_of_after_first :
    (literal name : Text) {rest : Text}
    → after_first literal name ≡ some rest
    → (gap : Text) × (name ≡ gap ++ (literal ++ rest))
unfolding after_first or_later
append_of_after_first literal [] h = ([], append_of_strip_prefix literal [] h)
append_of_after_first literal (d ∷ ds) h = elim (Option-cases (strip_prefix literal (d ∷ ds))) [
  | inl none' ↦
      let (gap, e) = append_of_after_first literal ds (rw none' at h) in (d ∷ gap, ap (◌∷◌ d) e)
  | inr found ↦
      let same : some found.0 ≡ some _ = rw found.1 at h in
      ([], append_of_strip_prefix literal (d ∷ ds) (found.1 ∙ same))
]

after_first-here :
    (literal name : Text) {rest : Text}
    → strip_prefix literal name ≡ some rest
    → after_first literal name ≡ some rest
unfolding after_first or_later
after_first-here literal [] h = h
after_first-here literal (d ∷ ds) h = rw h

-- The leftmost occurrence leaves at least what any other occurrence leaves.
after_first-append :
    (gap literal rest : Text)
    → (left more : Text) × (after_first literal (gap ++ (literal ++ rest)) ≡ some left)
      × (left ≡ more ++ rest)
unfolding after_first or_later
after_first-append [] literal rest =
    (rest, [], after_first-here literal (literal ++ rest) (strip_prefix-append literal rest), refl)
after_first-append (d ∷ gap) literal rest =
    elim (Option-cases (strip_prefix literal (d ∷ (gap ++ (literal ++ rest))))) [
      | inl none' ↦
          let (left, more, found, e) = after_first-append gap literal rest in
          (left, more, rw none' found, e)
      | inr found ↦
          let here = append_of_strip_prefix literal (d ∷ (gap ++ (literal ++ rest))) found.1 in
          let (more, e) =
            cut literal found.0 ((d ∷ gap) ++ literal) rest
              (sym here ∙ sym (append_assoc (d ∷ gap) literal rest))
              (omega (arith, length-append (d ∷ gap) literal)) in
          (found.0, more, rw found.1 refl, e)
    ]

-- The literals in their order, the first after any text.
abbrev Gapped : Text → List Text → Text → Type 0
Gapped first others name = (gap rest : Text) × (name ≡ gap ++ rest) × Anchored first others rest

Gapped-of_match :
    (first : Text) (others : List Text) (name : Text)
    → match_literals first others name ≡ true
    → Gapped first others name
unfolding match_literals on_rest
Gapped-of_match first [] name h =
    let (gap, e) = append_of_ends_with first name h in (gap, first, e, refl)
Gapped-of_match first (next ∷ others) name h = elim (Option-cases (after_first first name)) [
  | inl none' ↦ absurd (cc (rw none' at h))
  | inr found ↦
      let (gap, e) = append_of_after_first first name found.1 in
      let (gap', rest, e', anchored) = Gapped-of_match next others found.0 (rw found.1 at h) in
      (gap, first ++ found.0, e, (gap', rest, ap (λ r. first ++ r) e', anchored))
]

match_of_Gapped :
    (first : Text) (others : List Text) (name : Text)
    → Gapped first others name
    → match_literals first others name ≡ true
unfolding match_literals on_rest
match_of_Gapped first [] name (gap, rest, e, anchored) =
    rw (e, anchored) (ends_with-append gap first)
match_of_Gapped first (next ∷ others) name (gap, rest, e, (gap', rest', e', anchored)) =
    let (left, more, found, e'') = after_first-append gap first (gap' ++ rest') in
    rw (e, e', found)
      (match_of_Gapped next others left
        (more ++ gap', rest', e'' ∙ sym (append_assoc more gap' rest'), anchored))

pub Anchored-of_split :
    (first : Text) (others : List Text) (name : Text)
    → match_split first others name ≡ true
    → Anchored first others name
unfolding match_split on_rest
Anchored-of_split first [] name h = sym ((text_eq_iff first name).0 h)
Anchored-of_split first (next ∷ others) name h = elim (Option-cases (strip_prefix first name)) [
  | inl none' ↦ absurd (cc (rw none' at h))
  | inr found ↦
      let (gap, rest, e, anchored) = Gapped-of_match next others found.0 (rw found.1 at h) in
      (gap, rest, append_of_strip_prefix first name found.1 ∙ ap (λ r. first ++ r) e, anchored)
]

pub split_of_Anchored :
    (first : Text) (others : List Text) (name : Text)
    → Anchored first others name
    → match_split first others name ≡ true
unfolding match_split on_rest
split_of_Anchored first [] name e = (text_eq_iff first name).1 (sym e)
split_of_Anchored first (next ∷ others) name (gap, rest, e, anchored) =
    rw (e, strip_prefix-append first (gap ++ rest))
      (match_of_Gapped next others (gap ++ rest) (gap, rest, refl, anchored))
