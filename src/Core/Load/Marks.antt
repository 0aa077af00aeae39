-- ===== src/Core/Load/Marks.antt =====
-- The marks of one channel are never zero and never repeat.
use pg2osync.Base.{ℕ, zero, suc, ◌+◌, ◌-◌, ◌%◌, ◌<◌, ◌≡◌, min, List, [], ◌∷◌, arith}
use pg2osync.Core.Load.{word, next_mark, marks_from}

-- Each above the one before it.
abbrev pub Ascends : ℕ → List ℕ → Type 0
Ascends below [] = Unit
Ascends below (mark ∷ marks) = (below < mark) × Ascends mark marks

-- However many loaders share a channel's sequence: until its 64-bit counter is used up, the marks
-- that the calls hand out ascend from above the counter, so that none is zero or handed out twice.
pub marks_from-Ascends : (n c : ℕ) → c + n < word → Ascends c (marks_from n c)
unfolding marks_from next_mark
marks_from-Ascends zero c h = tt
marks_from-Ascends (suc n) c h =
    let mark : min (c + 1) (word - 1) ≡ c + 1 = omega (arith, h) in
    let counter : (c + 1) % word ≡ c + 1 = omega (arith, h) in
    rw (mark, counter) (omega arith, marks_from-Ascends n (c + 1) (omega (arith, h)))
