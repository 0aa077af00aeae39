-- ===== src/Source/Gtid/Inserts.antt =====
-- `add` against the reference: the fast path, the partition and the merges change nothing.
use pg2osync.Base.{
  ℕ, ◌+◌, ◌<◌, ◌≤◌, ◌≡◌, refl, ap, ◌∙◌, max, true, false, ◌&&◌, inl, inr, some, [], ◌∷◌, last?, leb,
  ltb, ◌==◌, if◌then◌else◌, arith, Bool-cases, tests,
}
use pg2osync.Source.Gtid.{
  word, succ64, Ranges, merge_from, coalesce, follows_last, end_last, leading, trailing, join_next,
  place, add_number,
}
use pg2osync.Source.Gtid.Intervals.{
  Normal, extend, insert_number, succ64-plain, merge_from-Normal, leading-none, trailing-all,
  follows_last-early,
}
use pg2osync.Source.Gtid.Past.{add_number-past, leading-past, trailing-past}

-- What is within reach of the first interval alone is placed there.
add_number-here :
    (g lo : ℕ) (ranges before after : Ranges)
    → follows_last g (last? ranges) ≡ false
    → leading g ranges ≡ before
    → trailing g ranges ≡ after
    → add_number g ranges ≡ place g (last? before) before after
unfolding add_number
add_number-here g lo ranges before after early b a = rw (early, b, a)

merge_from-extend :
    (s g : ℕ) (rest : Ranges)
    → g + 1 < word
    → Normal (g + 1) rest
    → merge_from s g rest ≡ extend s g rest
unfolding merge_from extend
merge_from-extend s g [] h n = refl
merge_from-extend s g ((s', e') ∷ rest) h n = elim (Bool-cases (s' == g + 1)) [
  | inl meets ↦
      let near : leb s' (g + 1) ≡ true = ground arith in
      let end' : max g e' ≡ e' = omega (arith, n.0, n.1) in
      rw (succ64-plain g h) (rw (near, meets, end') (merge_from-Normal s e' rest n.2 n.3))
  | inr apart ↦
      let far : leb s' (g + 1) ≡ false = ground (arith, n.0, apart) in
      rw (succ64-plain g h)
        (rw (far, apart) (ap (◌∷◌ (s, g)) (merge_from-Normal s' e' rest n.2 n.3)))
]

follows-next : (e : ℕ) → e + 1 < word → (e + 1 == succ64 e) ≡ true
follows-next e h = rw (succ64-plain e h) (ground arith)

add_number-only : (s e : ℕ) → e + 1 < word → add_number (e + 1) ((s, e) ∷ []) ≡ (s, e + 1) ∷ []
unfolding add_number follows_last end_last
add_number-only s e h = rw (follows-next e h)

place-next :
    (s e : ℕ) (rest : Ranges)
    → e + 1 < word
    → place (e + 1) (some (s, e)) ((s, e) ∷ []) rest ≡ merge_from s (e + 1) rest
unfolding place end_last coalesce
place-next s e rest h =
    let outside : (leb s (e + 1) && leb (e + 1) e) ≡ false = ground arith in
    rw (outside, follows-next e h)

-- The number that follows the first interval.
add_number-next :
    (s e : ℕ) (rest : Ranges)
    → s ≤ e
    → e + 2 < word
    → Normal (e + 2) rest
    → add_number (e + 1) ((s, e) ∷ rest) ≡ extend s (e + 1) rest
add_number-next s e [] o h n = unfold extend in add_number-only s e (omega (arith, h))
add_number-next s e ((s', e') ∷ rest) o h n =
    let g = e + 1 in
    let within : s ≤ g = omega (arith, o) in
    let early : follows_last g (last? ((s', e') ∷ rest)) ≡ false =
      follows_last-early g s' e' rest n.2 n.3 (omega (arith, n.0, n.1)) in
    add_number-here g 0 ((s, e) ∷ (s', e') ∷ rest) ((s, e) ∷ []) ((s', e') ∷ rest) early
      (leading-past g s e ((s', e') ∷ rest) within
        ∙ ap (◌∷◌ (s, e)) (leading-none g (e + 2) ((s', e') ∷ rest) n (omega arith)))
      (trailing-past g s e ((s', e') ∷ rest) within
        ∙ trailing-all g (e + 2) ((s', e') ∷ rest) n (omega arith))
    ∙ (place-next s e ((s', e') ∷ rest) (omega (arith, h))
        ∙ merge_from-extend s (e + 1) ((s', e') ∷ rest) (omega (arith, h))
            (omega (arith, n.0), n.1, n.2, n.3))

-- The number that is in the first interval.
add_number-within :
    (g s e : ℕ) (rest : Ranges)
    → s ≤ g
    → g ≤ e
    → e + 1 < word
    → Normal (e + 2) rest
    → add_number g ((s, e) ∷ rest) ≡ (s, e) ∷ rest
unfolding place
add_number-within g s e rest lower upper h n =
    let early = follows_last-early g s e rest h n upper in
    let inside : (leb s g && leb g e) ≡ true = ground (arith, lower, upper) in
    add_number-here g 0 ((s, e) ∷ rest) ((s, e) ∷ []) rest early
      (leading-past g s e rest lower
        ∙ ap (◌∷◌ (s, e)) (leading-none g (e + 2) rest n (omega (arith, upper))))
      (trailing-past g s e rest lower ∙ trailing-all g (e + 2) rest n (omega (arith, upper)))
    ∙ rw inside refl

-- The number before the first interval.
add_number-before :
    (g s e : ℕ) (rest : Ranges)
    → g < s
    → s ≤ e
    → e + 1 < word
    → Normal (e + 2) rest
    → add_number g ((s, e) ∷ rest) ≡ (if g + 1 == s then (g, e) ∷ rest else (g, g) ∷ (s, e) ∷ rest)
unfolding place join_next coalesce
add_number-before g s e rest lower o h n =
    let all : Normal s ((s, e) ∷ rest) = (omega arith, o, h, n) in
    let early = follows_last-early g s e rest h n (omega (arith, lower, o)) in
    add_number-here g s ((s, e) ∷ rest) [] ((s, e) ∷ rest) early
      (leading-none g s ((s, e) ∷ rest) all lower) (trailing-all g s ((s, e) ∷ rest) all lower)
    ∙ rw (succ64-plain g (omega (arith, lower, o, h)), merge_from-Normal g e rest h n) refl

-- On sorted intervals with gaps, `add` is the insertion that walks the list once.
pub add_number-insert_number :
    (g lo : ℕ) (ranges : Ranges)
    → g + 1 < word
    → Normal lo ranges
    → add_number g ranges ≡ insert_number g ranges
unfolding insert_number
add_number-insert_number g lo [] h n =
    unfold add_number follows_last leading trailing place join_next in refl
add_number-insert_number g lo ((s, e) ∷ rest) h n = elim (Bool-cases (ltb (e + 1) g)) [
  | inl far ↦ rw far (
      add_number-past g s e rest n.1 n.2 (omega tests) n.3
      ∙ ap (◌∷◌ (s, e)) (add_number-insert_number g (e + 2) rest h n.3))
  | inr close ↦ rw close (elim (Bool-cases (g == e + 1)) [
    | inl next ↦
        let eq : g ≡ e + 1 = ground arith in
        rw (next, eq) (add_number-next s e rest n.1 (omega (arith, eq, h)) n.3)
    | inr other ↦ rw other (elim (Bool-cases (leb s g)) [
      | inl lower ↦ rw lower (add_number-within g s e rest (ground arith) (ground arith) n.2 n.3)
      | inr before ↦ rw before (add_number-before g s e rest (ground arith) n.1 n.2 n.3)
    ])
  ])
]
