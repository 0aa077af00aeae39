-- ===== src/Engine/Mapping/Spelled.antt =====
-- What `IdTemplate::parse` reads is what is written.
use pg2osync.Base.{
  ◌≡◌, refl, sym, ap, ◌∙◌, true, Option, none, some, List, [], ◌∷◌, ◌++◌, append_assoc, append-nil,
  All, All-append, Bool-cases, inl, inr, ◌==◌, ==_iff,
}
use pg2osync.Base.Text.{Text}
use pg2osync.Engine.Mapping.{
  done, >>=-eq-done, IdPart, literal, column, IdTemplate, flushed, close_name, scan_parts,
  checked_parts, parse_template, is_column_name, all_in, column_names,
}

abbrev pub written : List IdPart → Text
written [] = []
written (literal s ∷ parts) = s ++ written parts
written (column c ∷ parts) = 123 ∷ (c ++ 125 ∷ written parts)

abbrev pub IsNamed : IdPart → Type 0
IsNamed (literal s) = Unit
IsNamed (column c) = is_column_name c ≡ true

abbrev opened : Option Text → Text
opened none = []
opened (some name) = 123 ∷ name

written-append : (ps qs : List IdPart) → written (ps ++ qs) ≡ written ps ++ written qs
written-append [] qs = refl
written-append (literal s ∷ ps) qs = simp (written-append ps qs, append_assoc)
written-append (column c ∷ ps) qs = simp (written-append ps qs, append_assoc)

-- What a scan keeps: the text of its parts, and that they name columns.
abbrev Keeps : Text → List IdPart → Type 0
Keeps spelled parts = (written parts ≡ spelled) × All IsNamed parts

flushed-Keeps :
    (lit : Text) (parts : List IdPart)
    → All IsNamed parts
    → Keeps (written parts ++ lit) (flushed lit parts)
unfolding flushed
flushed-Keeps [] parts h = (sym (append-nil (written parts)), h)
flushed-Keeps (c ∷ s) parts h = (
  written-append parts (literal (c ∷ s) ∷ []) ∙ ap (λ t. written parts ++ c ∷ t) (append-nil s),
  All-append IsNamed parts (literal (c ∷ s) ∷ []) h (tt, tt),
)

close_name-Keeps :
    (name lit : Text) (parts closed : List IdPart)
    → All IsNamed parts
    → close_name name lit parts ≡ done closed
    → Keeps (written parts ++ (lit ++ 123 ∷ (name ++ 125 ∷ []))) closed
unfolding close_name
close_name-Keeps [] lit parts closed h e = cc
close_name-Keeps (c ∷ s) lit parts closed h e = elim (Bool-cases (is_column_name (c ∷ s))) [
  | inr bad ↦ cc (rw bad at e)
  | inl named ↦
      let same : flushed lit parts ++ column (c ∷ s) ∷ [] ≡ closed = cc (rw named at e) in
      let kept = flushed-Keeps lit parts h in
      rw (← same) (
        written-append (flushed lit parts) (column (c ∷ s) ∷ [])
            ∙ (rw kept.0 (append_assoc (written parts) lit (123 ∷ (c ∷ s ++ 125 ∷ [])))),
        All-append IsNamed (flushed lit parts) (column (c ∷ s) ∷ []) kept.1 (named, tt),
      )
]

scan_parts-Keeps :
    (s : Text) (mode : Option Text) (lit : Text) (parts ps : List IdPart)
    → All IsNamed parts
    → scan_parts s mode lit parts ≡ done ps
    → Keeps (written parts ++ (lit ++ (opened mode ++ s))) ps
unfolding scan_parts
scan_parts-Keeps [] none lit parts ps h e =
    let same : flushed lit parts ≡ ps = cc e in
    let kept = flushed-Keeps lit parts h in
    rw (← same) (kept.0 ∙ ap (λ t. written parts ++ t) (sym (append-nil lit)), kept.1)
scan_parts-Keeps [] (some name) lit parts ps h e = cc
scan_parts-Keeps (c ∷ s) none lit parts ps h e = elim (Bool-cases (c == 123)) [
  | inl start ↦
      let kept = scan_parts-Keeps s (some []) lit parts ps h (rw start at e) in
      let brace = (==_iff c 123).0 start in rw brace kept
  | inr other ↦ elim (Bool-cases (c == 125)) [
    | inl stop ↦ cc (rw (other, stop) at e)
    | inr plain ↦
        let kept = scan_parts-Keeps s none (lit ++ c ∷ []) parts ps h (rw (other, plain) at e) in
        (kept.0 ∙ ap (λ t. written parts ++ t) (append_assoc lit (c ∷ []) s), kept.1)
  ]
]
scan_parts-Keeps (c ∷ s) (some name) lit parts ps h e = elim (Bool-cases (c == 125)) [
  | inl stop ↦
      let (closed, first, rest) =
        >>=-eq-done (close_name name lit parts) (scan_parts s none []) (rw stop at e) in
      let before = close_name-Keeps name lit parts closed h first in
      let after = scan_parts-Keeps s none [] closed ps before.1 rest in
      let brace = (==_iff c 125).0 stop in
      rw brace (after.0 ∙ simp (before.0, append_assoc), after.1)
  | inr other ↦ elim (Bool-cases (c == 123)) [
    | inl start ↦ cc (rw (other, start) at e)
    | inr plain ↦
        let kept =
          scan_parts-Keeps s (some (name ++ c ∷ [])) lit parts ps h (rw (other, plain) at e) in
        (
          kept.0 ∙ ap (λ t. written parts ++ (lit ++ 123 ∷ t)) (append_assoc name (c ∷ []) s),
          kept.1,
        )
  ]
]

checked_parts-parts :
    (keys : List Text) (parts : List IdPart) (t : IdTemplate)
    → checked_parts keys parts ≡ done t
    → (t.parts ≡ parts) × (t.pk_only ≡ all_in keys (column_names t.parts))
unfolding checked_parts
checked_parts-parts keys [] t e = cc
checked_parts-parts keys (p ∷ parts) t e =
    let same : record { parts = p ∷ parts; pk_only = all_in keys (column_names (p ∷ parts)) } ≡ t =
      cc e in
    rw (← same) (refl, refl)

-- A parsed template spells what was written: its literals and its placeholders in braces, one after
-- another. Every placeholder names a column, and the template is of the key alone exactly when each
-- column that it names is one of the key's.
pub parse_template-written :
    (spec : Text) (keys : List Text) (t : IdTemplate)
    → parse_template spec keys ≡ done t
    → (written t.parts ≡ spec)
      × All IsNamed t.parts
      × (t.pk_only ≡ all_in keys (column_names t.parts))
unfolding parse_template
parse_template-written spec keys t e =
    let (parts, first, rest) = >>=-eq-done (scan_parts spec none [] []) (checked_parts keys) e in
    let kept = scan_parts-Keeps spec none [] [] parts tt first in
    let (same, only) = checked_parts-parts keys parts t rest in
    (rw same kept.0, rw same kept.1, only)
