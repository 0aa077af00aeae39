-- ===== src/Source/Gtid/Numbers.antt =====
-- Which numbers a set holds, and that `add` adds one and keeps the intervals sorted with gaps.
use pg2osync.Base.{
  ℕ, ◌+◌, ◌<◌, ◌≤◌, ◌≡◌, Bool, false, ◌&&◌, ◌||◌, inl, inr, List, [], ◌∷◌, leb, ltb, ◌==◌, arith,
  Bool-cases, tests,
}
use pg2osync.Base.Map.{get, get-put}
use pg2osync.Base.Text.{Text, text_key, text_eq, text_eq_iff}
use pg2osync.Source.Gtid.{word, Ranges, add_number, or_empty, add_mysql}
use pg2osync.Source.Gtid.Intervals.{Normal, extend, insert_number}
use pg2osync.Source.Gtid.Inserts.{add_number-insert_number}

unfoldable pub includes : ℕ → Ranges → Bool
includes n [] = false
includes n ((s, e) ∷ rest) = (leb s n && leb n e) || includes n rest

-- Whether the set holds this transaction.
unfoldable pub holds : Text → ℕ → List (Text × Ranges) → Bool
holds uuid n uuids = includes n (or_empty (get uuid uuids))

includes-extend :
    (n s e : ℕ) (rest : Ranges)
    → s ≤ e
    → Normal (e + 2) rest
    → includes n (extend s (e + 1) rest) ≡ (n == e + 1 || includes n ((s, e) ∷ rest))
unfolding extend includes
includes-extend n s e [] o h = ground arith
includes-extend n s e ((s', e') ∷ rest) o h = ground (arith, h.0, h.1)

includes-insert_number :
    (n g lo : ℕ) (ranges : Ranges)
    → Normal lo ranges
    → includes n (insert_number g ranges) ≡ (n == g || includes n ranges)
unfolding insert_number includes
includes-insert_number n g lo [] h = ground arith
includes-insert_number n g lo ((s, e) ∷ rest) h =
    let later = includes-insert_number n g (e + 2) rest h.3 in
    elim (Bool-cases (ltb (e + 1) g)) [
      | inl far ↦ rw far (ground (arith, later))
      | inr close ↦ rw close (elim (Bool-cases (g == e + 1)) [
        | inl next ↦
            let eq : g ≡ e + 1 = ground arith in
            rw next (rw eq (includes-extend n s e rest h.1 h.3))
        | inr other ↦ rw other (elim (Bool-cases (leb s g)) [
          | inl lower ↦ rw lower (ground arith)
          | inr before ↦ rw before (elim (Bool-cases (g + 1 == s)) [
            | inl meets ↦ rw meets (ground (arith, h.1))
            | inr apart ↦ rw apart (ground arith)
          ])
        ])
      ])
    ]

Normal-extend :
    (lo s e : ℕ) (rest : Ranges)
    → lo ≤ s
    → s ≤ e
    → e + 2 < word
    → Normal (e + 2) rest
    → Normal lo (extend s (e + 1) rest)
unfolding extend
Normal-extend lo s e [] l o w h = (l, omega (arith, o), omega (arith, w), tt)
Normal-extend lo s e ((s', e') ∷ rest) l o w h = elim (Bool-cases (s' == e + 1 + 1)) [
  | inl meets ↦ rw meets (l, omega (arith, o, h.0, h.1), h.2, h.3)
  | inr apart ↦
      let past : e + 1 + 2 ≤ s' = ground (arith, h.0, apart) in
      rw apart (l, omega (arith, o), omega (arith, w), (past, h.1, h.2, h.3))
]

Normal-insert_number :
    (g lo : ℕ) (ranges : Ranges)
    → lo ≤ g
    → g + 1 < word
    → Normal lo ranges
    → Normal lo (insert_number g ranges)
unfolding insert_number
Normal-insert_number g lo [] l w h = (l, omega arith, w, tt)
Normal-insert_number g lo ((s, e) ∷ rest) l w h = elim (Bool-cases (ltb (e + 1) g)) [
  | inl far ↦ rw far (h.0, h.1, h.2, Normal-insert_number g (e + 2) rest (omega tests) w h.3)
  | inr close ↦ rw close (elim (Bool-cases (g == e + 1)) [
    | inl next ↦
        let eq : g ≡ e + 1 = ground arith in
        rw next (rw eq (Normal-extend lo s e rest h.0 h.1 (omega (arith, eq, w)) h.3))
    | inr other ↦ rw other (elim (Bool-cases (leb s g)) [
      | inl lower ↦ rw lower h
      | inr before ↦ rw before (elim (Bool-cases (g + 1 == s)) [
        | inl meets ↦ rw meets (l, ground (arith, h.1), h.2, h.3)
        | inr apart ↦
            let past : g + 2 ≤ s = ground arith in
            rw apart (l, omega arith, w, (past, h.1, h.2, h.3))
      ])
    ])
  ])
]

-- The intervals of every server are sorted, with a gap between any two.
abbrev pub IsNormal : List (Text × Ranges) → Type 0
IsNormal uuids = (uuid : Text) → Normal 0 (or_empty (get uuid uuids))

add_number-holds :
    (n g : ℕ) (ranges : Ranges)
    → g + 1 < word
    → Normal 0 ranges
    → includes n (add_number g ranges) ≡ (n == g || includes n ranges)
add_number-holds n g ranges w h =
    rw (add_number-insert_number g 0 ranges w h) (includes-insert_number n g 0 ranges h)

-- A set of sorted intervals with gaps holds, after `add`, the transaction that was added and
-- those that it held, of every server, and no other, for a number below the end of a `u64`.
pub holds-add_mysql :
    (uuid : Text) (g : ℕ) (uuids : List (Text × Ranges)) (uuid' : Text) (n : ℕ)
    → g + 1 < word
    → IsNormal uuids
    → holds uuid' n (add_mysql uuid g uuids)
      ≡ ((text_eq uuid uuid' && n == g) || holds uuid' n uuids)
unfolding holds add_mysql or_empty
holds-add_mysql uuid g uuids uuid' n w h =
    let added = add_number g (or_empty (get uuid uuids)) in
    rw (get-put uuid uuid' added uuids) (elim (Bool-cases (text_eq uuid uuid')) [
      | inl same ↦
          let e : uuid ≡ uuid' = (text_eq_iff uuid uuid').0 same in
          rw same (rw e (add_number-holds n g (or_empty (get uuid' uuids)) w (h uuid')))
      | inr other ↦ rw other
    ])

-- `add` of a number below the end of a `u64` keeps the intervals of every server sorted, with a
-- gap between any two, so that a run of consecutive transactions is one interval.
pub add_mysql-IsNormal :
    (uuid : Text) (g : ℕ) (uuids : List (Text × Ranges))
    → g + 1 < word
    → IsNormal uuids
    → IsNormal (add_mysql uuid g uuids)
unfolding add_mysql or_empty
add_mysql-IsNormal uuid g uuids w h = λ uuid'.
    let ranges = or_empty (get uuid uuids) in
    let added : Normal 0 (add_number g ranges) =
      rw (add_number-insert_number g 0 ranges w (h uuid))
        (Normal-insert_number g 0 ranges (omega arith) w (h uuid)) in
    rw (get-put uuid uuid' (add_number g ranges) uuids) (elim (Bool-cases (text_eq uuid uuid')) [
      | inl same ↦ rw same added
      | inr other ↦ rw other (h uuid')
    ])
