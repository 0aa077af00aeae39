-- ===== src/Source/Gtid/Past.antt =====
-- A number past the first interval, with a gap: the interval stays in front of everything.
use pg2osync.Base.{
  ℕ, ◌+◌, ◌<◌, ◌≤◌, ◌≡◌, refl, true, false, ◌&&◌, inl, inr, Option, none, some, [], ◌∷◌, ◌++◌,
  last?, leb, ◌==◌, arith, Bool-cases,
}
use pg2osync.Source.Gtid.{
  word, succ64, Ranges, coalesce, follows_last, end_last, leading, trailing, place, add_number,
}
use pg2osync.Source.Gtid.Intervals.{Normal, succ64-plain, merge_from-far, join_next-past}

leading-Normal : (g lo : ℕ) (rest : Ranges) → Normal lo rest → Normal lo (leading g rest)
unfolding leading
leading-Normal g lo [] n = tt
leading-Normal g lo ((s, e) ∷ rest) n = elim (Bool-cases (leb s g)) [
  | inl here ↦ rw here (n.0, n.1, n.2, leading-Normal g (e + 2) rest n.3)
  | inr past ↦ rw past tt
]

-- The last interval of those before, with a new end, stays behind an interval in front.
end_last-past :
    (g s e : ℕ) (r : ℕ × ℕ) (before after : Ranges)
    → e + 1 < word
    → e + 1 < r.0
    → coalesce ((s, e) ∷ (end_last g (r ∷ before) ++ after))
      ≡ (s, e) ∷ coalesce (end_last g (r ∷ before) ++ after)
unfolding end_last coalesce
end_last-past g s e (t, f) [] after h far = merge_from-far s e t g after h far
end_last-past g s e (t, f) (r ∷ before) after h far =
    merge_from-far s e t f (end_last g (r ∷ before) ++ after) h far

place-past_on :
    (g s e : ℕ) (l : Option (ℕ × ℕ)) (r : ℕ × ℕ) (before after : Ranges)
    → e + 1 < word
    → e + 1 < g
    → Normal (e + 2) (r ∷ before)
    → place g l ((s, e) ∷ r ∷ before) after ≡ (s, e) ∷ place g l (r ∷ before) after
unfolding place end_last
place-past_on g s e none r before after h far n = join_next-past g s e (r ∷ before) after h far n
place-past_on g s e (some (t, f)) r before after h far n = elim (Bool-cases (leb t g && leb g f)) [
  | inl covered ↦ rw covered
  | inr outside ↦ rw outside (elim (Bool-cases (g == succ64 f)) [
    | inl next ↦
        rw next (unfold end_last in end_last-past g s e r before after h (omega (arith, n.0)))
    | inr apart ↦ rw apart (join_next-past g s e (r ∷ before) after h far n)
  ])
]

pub far-follows : (g s e : ℕ) → e + 1 < word → e + 1 < g → follows_last g (some (s, e)) ≡ false
unfolding follows_last
far-follows g s e h far = rw (succ64-plain e h) (ground (arith, far))

place-past :
    (g s e : ℕ) (before after : Ranges)
    → s ≤ e
    → e + 1 < word
    → e + 1 < g
    → Normal (e + 2) before
    → place g (last? ((s, e) ∷ before)) ((s, e) ∷ before) after
      ≡ (s, e) ∷ place g (last? before) before after
unfolding place
place-past g s e [] after o h far n =
    let outside : (leb s g && leb g e) ≡ false = ground (arith, far) in
    let apart : (g == succ64 e) ≡ false = unfold follows_last in far-follows g s e h far in
    rw (outside, apart) (join_next-past g s e [] after h far tt)
place-past g s e (r ∷ before) after o h far n =
    place-past_on g s e (last? (r ∷ before)) r before after h far n

pub leading-past :
    (g s e : ℕ) (rest : Ranges) → s ≤ g → leading g ((s, e) ∷ rest) ≡ (s, e) ∷ leading g rest
unfolding leading
leading-past g s e rest h = let here : leb s g ≡ true = ground (arith, h) in rw here

pub trailing-past :
    (g s e : ℕ) (rest : Ranges) → s ≤ g → trailing g ((s, e) ∷ rest) ≡ trailing g rest
unfolding trailing
trailing-past g s e rest h = let here : leb s g ≡ true = ground (arith, h) in rw here

pub leading-nil : (g : ℕ) → leading g [] ≡ []
unfolding leading
leading-nil g = refl

pub trailing-nil : (g : ℕ) → trailing g [] ≡ []
unfolding trailing
trailing-nil g = refl

-- Past the first interval, with a gap.
pub add_number-past :
    (g s e : ℕ) (rest : Ranges)
    → s ≤ e
    → e + 1 < word
    → e + 1 < g
    → Normal (e + 2) rest
    → add_number g ((s, e) ∷ rest) ≡ (s, e) ∷ add_number g rest
unfolding add_number end_last follows_last place
add_number-past g s e [] o h far n =
    let within : s ≤ g = omega (arith, o, far) in
    rw
      (
        far-follows g s e h far,
        leading-past g s e [] within,
        trailing-past g s e [] within,
        leading-nil g,
        trailing-nil g,
      )
      (place-past g s e [] [] o h far tt)
add_number-past g s e (r ∷ rest) o h far n =
    let within : s ≤ g = omega (arith, o, far) in
    elim (Bool-cases (follows_last g (last? (r ∷ rest)))) [
      | inl next ↦ rw next refl
      | inr other ↦
          rw (other, leading-past g s e (r ∷ rest) within, trailing-past g s e (r ∷ rest) within)
            (place-past g s e (leading g (r ∷ rest)) (trailing g (r ∷ rest)) o h far
              (leading-Normal g (e + 2) (r ∷ rest) n))
    ]
