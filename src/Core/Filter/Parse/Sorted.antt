-- ===== src/Core/Filter/Parse/Sorted.antt =====
-- The columns of a filter: sorted, each listed once.
use Prim.Native.Nat.{Ordering}
use pg2osync.Base.{
  ◌≡◌, refl, ◌∙◌, Bool, true, false, ◌||◌, List, [], ◌∷◌, Bool-cases, inl, inr, arith,
}
use pg2osync.Base.Text.{Text, text_eq, text_eq_iff}
use pg2osync.Core.Filter.Eval.{compare_bytes}
use pg2osync.Core.Filter.Parse.{not_after, insert_sorted, sort, dedup}

abbrev pub has : Text → List Text → Bool
has k [] = false
has k (s ∷ ts) = text_eq s k || has k ts

abbrev pub Ascending : List Text → Type 0
Ascending [] = Unit
Ascending (s ∷ []) = Unit
Ascending (s ∷ t ∷ ts) = (compare_bytes s t ≡ Ordering.lt) × Ascending (t ∷ ts)

abbrev Sorted : List Text → Type 0
Sorted [] = Unit
Sorted (s ∷ []) = Unit
Sorted (s ∷ t ∷ ts) = (not_after s t ≡ true) × Sorted (t ∷ ts)

not_after_total : (s t : Text) → not_after s t ≡ false → not_after t s ≡ true
unfolding not_after compare_bytes
not_after_total [] [] h = cc
not_after_total [] (d ∷ t) h = cc
not_after_total (c ∷ s) [] h = refl
not_after_total (c ∷ s) (d ∷ t) h = ground (arith, not_after_total s t)

before_of_ne :
    (s t : Text) → not_after s t ≡ true → text_eq s t ≡ false → compare_bytes s t ≡ Ordering.lt
unfolding not_after compare_bytes text_eq
before_of_ne [] [] h ne = cc
before_of_ne [] (d ∷ t) h ne = refl
before_of_ne (c ∷ s) [] h ne = cc
before_of_ne (c ∷ s) (d ∷ t) h ne = ground (arith, before_of_ne s t)

insert_sorted-Sorted : (s : Text) (ts : List Text) → Sorted ts → Sorted (insert_sorted s ts)
unfolding insert_sorted
insert_sorted-Sorted s [] h = tt
insert_sorted-Sorted s (t ∷ []) h = ground (arith, not_after_total s t)
insert_sorted-Sorted s (t ∷ u ∷ ts) h =
    ground (arith, not_after_total s t, insert_sorted-Sorted s (u ∷ ts))

sort-Sorted : (ts : List Text) → Sorted (sort ts)
unfolding sort
sort-Sorted [] = tt
sort-Sorted (s ∷ ts) = insert_sorted-Sorted s (sort ts) (sort-Sorted ts)

dedup-head : (t : Text) (ts : List Text) → (rest : List Text) × (dedup (t ∷ ts) ≡ t ∷ rest)
unfolding dedup
dedup-head t [] = ([], refl)
dedup-head t (u ∷ ts) = elim (Bool-cases (text_eq t u)) [
  | inl same ↦ let (rest, e) = dedup-head u ts in (rest, rw same (rw ((text_eq_iff t u).0 same) e))
  | inr other ↦ (dedup (u ∷ ts), rw other)
]

dedup-Ascending : (ts : List Text) → Sorted ts → Ascending (dedup ts)
unfolding dedup
dedup-Ascending [] h = tt
dedup-Ascending (s ∷ []) h = tt
dedup-Ascending (s ∷ t ∷ ts) h = elim (Bool-cases (text_eq s t)) [
  | inl same ↦ rw same (dedup-Ascending (t ∷ ts) h.1)
  | inr other ↦
      let (rest, e) = dedup-head t ts in
      let ascending = rw e at (dedup-Ascending (t ∷ ts) h.1) in
      rw (other, e) (before_of_ne s t h.0 other, ascending)
]

pub dedup-sort-Ascending : (ts : List Text) → Ascending (dedup (sort ts))
dedup-sort-Ascending ts = dedup-Ascending (sort ts) (sort-Sorted ts)

has-insert_sorted :
    (k s : Text) (ts : List Text) → has k (insert_sorted s ts) ≡ (text_eq s k || has k ts)
unfolding insert_sorted
has-insert_sorted k s [] = refl
has-insert_sorted k s (t ∷ ts) = ground (arith, has-insert_sorted k s ts)

has-sort : (k : Text) (ts : List Text) → has k (sort ts) ≡ has k ts
unfolding sort
has-sort k [] = refl
has-sort k (s ∷ ts) = rw (has-insert_sorted k s (sort ts), has-sort k ts)

has-dedup : (k : Text) (ts : List Text) → has k (dedup ts) ≡ has k ts
unfolding dedup
has-dedup k [] = refl
has-dedup k (s ∷ []) = refl
has-dedup k (s ∷ t ∷ ts) = ground (arith, text_eq_iff s t, has-dedup k (t ∷ ts))

pub has-dedup-sort : (k : Text) (ts : List Text) → has k (dedup (sort ts)) ≡ has k ts
has-dedup-sort k ts = has-dedup k (sort ts) ∙ has-sort k ts
