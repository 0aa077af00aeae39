-- ===== src/Source/Gtid/Intervals.antt =====
-- Adding a number to sorted intervals with gaps, against an insertion that walks the list once.
use pg2osync.Base.{
  ℕ, ◌+◌, ◌<◌, ◌≤◌, ◌≡◌, refl, ap, false, inl, inr, [], ◌∷◌, ◌++◌, last?, leb, ltb, ◌==◌,
  if◌then◌else◌, arith, Bool-cases,
}
use pg2osync.Source.Gtid.{
  word, succ64, Ranges, merge_from, coalesce, follows_last, leading, trailing, join_next,
}

-- Sorted, none empty, a gap between any two, from `lo` on, and no end at the end of a `u64`.
abbrev pub Normal : ℕ → Ranges → Type 0
Normal lo [] = Unit
Normal lo ((s, e) ∷ rest) = (lo ≤ s) × (s ≤ e) × (e + 1 < word) × Normal (e + 2) rest

-- After an interval that the number follows: it may reach the next one.
unfoldable pub extend : ℕ → ℕ → Ranges → Ranges
extend s g [] = (s, g) ∷ []
extend s g ((s', e') ∷ rest) = if s' == g + 1 then (s, e') ∷ rest else (s, g) ∷ (s', e') ∷ rest

-- The reference: one walk, which stops at the first interval that the number touches.
unfoldable pub insert_number : ℕ → Ranges → Ranges
unfolding extend
insert_number g [] = (g, g) ∷ []
insert_number g ((s, e) ∷ rest) =
    let later = insert_number g rest in
    if ltb (e + 1) g
    then (s, e) ∷ later
    else (if g == e + 1
        then extend s g rest
        else (if leb s g
            then (s, e) ∷ rest
            else (if g + 1 == s then (g, e) ∷ rest else (g, g) ∷ (s, e) ∷ rest)))

pub succ64-plain : (n : ℕ) → n + 1 < word → succ64 n ≡ n + 1
unfolding succ64
succ64-plain n h = omega (arith, h)

pub merge_from-Normal :
    (s e : ℕ) (rest : Ranges)
    → e + 1 < word
    → Normal (e + 2) rest
    → merge_from s e rest ≡ (s, e) ∷ rest
unfolding merge_from
merge_from-Normal s e [] h n = refl
merge_from-Normal s e ((s', e') ∷ rest) h n =
    let apart : leb s' (e + 1) ≡ false = ground (arith, n.0) in
    rw (succ64-plain e h) (rw apart (ap (◌∷◌ (s, e)) (merge_from-Normal s' e' rest n.2 n.3)))

pub merge_from-far :
    (s e s' e' : ℕ) (rest : Ranges)
    → e + 1 < word
    → e + 1 < s'
    → merge_from s e ((s', e') ∷ rest) ≡ (s, e) ∷ merge_from s' e' rest
unfolding merge_from
merge_from-far s e s' e' rest h far =
    let apart : leb s' (e + 1) ≡ false = ground (arith, far) in rw (succ64-plain e h) (rw apart)

pub leading-none : (g lo : ℕ) (rest : Ranges) → Normal lo rest → g < lo → leading g rest ≡ []
unfolding leading
leading-none g lo [] n h = refl
leading-none g lo ((s, e) ∷ rest) n h =
    let apart : leb s g ≡ false = ground (arith, n.0, h) in rw apart

pub trailing-all : (g lo : ℕ) (rest : Ranges) → Normal lo rest → g < lo → trailing g rest ≡ rest
unfolding trailing
trailing-all g lo [] n h = refl
trailing-all g lo ((s, e) ∷ rest) n h =
    let apart : leb s g ≡ false = ground (arith, n.0, h) in rw apart

-- A number within or before an interval does not follow the last one.
pub follows_last-early :
    (g s e : ℕ) (rest : Ranges)
    → e + 1 < word
    → Normal (e + 2) rest
    → g ≤ e
    → follows_last g (last? ((s, e) ∷ rest)) ≡ false
unfolding follows_last
follows_last-early g s e [] h n early = rw (succ64-plain e h) (ground (arith, early))
follows_last-early g s e ((s', e') ∷ rest) h n early =
    follows_last-early g s' e' rest n.2 n.3 (omega (arith, early, n.0, n.1))

-- Past an interval, with a gap: the interval stays in front of everything.
pub join_next-past :
    (g s e : ℕ) (before after : Ranges)
    → e + 1 < word
    → e + 1 < g
    → Normal (e + 2) before
    → join_next g ((s, e) ∷ before) after ≡ (s, e) ∷ join_next g before after
unfolding join_next coalesce
join_next-past g s e before [] h far n = refl
join_next-past g s e before ((s', e') ∷ after) h far n = elim (Bool-cases (succ64 g == s')) [
  | inr apart ↦ rw apart
  | inl joins ↦ rw joins (past before n)
]
  where
    past :
        (b : Ranges)
        → Normal (e + 2) b
        → merge_from s e (b ++ (g, e') ∷ after) ≡ (s, e) ∷ coalesce (b ++ (g, e') ∷ after)
    past [] nb = merge_from-far s e g e' after h far
    past ((t, f) ∷ b) nb = merge_from-far s e t f (b ++ (g, e') ∷ after) h (omega (arith, nb.0))
