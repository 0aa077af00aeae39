-- ===== src/Source/Gtid/Tracker.antt =====
-- What a checkpoint at a position claims to have consumed.
use pg2osync.Base.{
  ℕ, ◌+◌, ◌<◌, ◌≤◌, ◌≡◌, refl, ap, Bool, false, ◌&&◌, ◌||◌, inl, inr, Option, none, some, List, [],
  ◌∷◌, leb, ◌==◌, arith, Bool-cases, All,
}
use pg2osync.Base.Text.{Text, text_eq, text_key}
use pg2osync.Source.Gtid.{
  word, Ranges, add_mysql, GtidPosition, mysql, is_empty, Consumed, in_mysql, in_mariadb,
  GtidTracker, due, not_due, consume, consume_all, settle, position_at,
}
use pg2osync.Source.Gtid.Numbers.{holds, IsNormal, holds-add_mysql, add_mysql-IsNormal}

-- Whether this is the MySQL transaction.
unfoldable pub is_transaction : Text → ℕ → Consumed → Bool
is_transaction uuid n (in_mysql uuid' g) = text_eq uuid' uuid && n == g
is_transaction uuid n (in_mariadb domain server_id seq_no) = false

-- Whether the transaction was recorded at or before the position.
unfoldable pub recorded : Text → ℕ → ℕ → List (ℕ × Consumed) → Bool
recorded uuid n token [] = false
recorded uuid n token ((at, c) ∷ rest) =
    (leb at token && is_transaction uuid n c) || recorded uuid n token rest

-- Commits in the order of their positions.
abbrev pub Ascends : ℕ → List (ℕ × Consumed) → Type 0
Ascends from [] = Unit
Ascends from ((at, c) ∷ rest) = (from ≤ at) × Ascends at rest

-- Numbers whose successor is a `u64`.
abbrev pub InRange : ℕ × Consumed → Type 0
InRange (at, in_mysql uuid g) = g + 1 < word
InRange (at, in_mariadb domain server_id seq_no) = Unit

recorded-late :
    (uuid : Text) (n token from : ℕ) (pending : List (ℕ × Consumed))
    → token < from
    → Ascends from pending
    → recorded uuid n token pending ≡ false
unfolding recorded
recorded-late uuid n token from [] h a = refl
recorded-late uuid n token from ((at, c) ∷ rest) h a =
    let late : leb at token ≡ false = ground (arith, h, a.0) in
    rw late (recorded-late uuid n token at rest (omega (arith, h, a.0)) a.1)

-- The pass over the commits that are due adds those that were recorded by then.
consume_all-holds :
    (uuid : Text) (n token from : ℕ) (pending : List (ℕ × Consumed)) (set : List (Text × Ranges))
    {set' : List (Text × Ranges)}
    → Ascends from pending
    → All InRange pending
    → IsNormal set
    → consume_all (due token pending) (mysql set) ≡ some (mysql set')
    → holds uuid n set' ≡ (recorded uuid n token pending || holds uuid n set)
unfolding consume_all due recorded consume is_transaction
consume_all-holds uuid n token from [] set {set'} a r k h = let e : set ≡ set' = cc in rw (← e)
consume_all-holds uuid n token from ((at, in_mysql u g) ∷ rest) set {set'} a r k h =
    elim (Bool-cases (leb at token)) [
      | inl now' ↦
          let later =
            consume_all-holds uuid n token at rest (add_mysql u g set) a.1 r.1
              (add_mysql-IsNormal u g set r.0 k) (rw now' at h) in
          rw (later, holds-add_mysql u g set uuid n r.0 k, now') (ground arith)
      | inr later ↦
          let e : set ≡ set' = cc (rw later at h) in
          rw (later, recorded-late uuid n token at rest (ground (arith, later)) a.1, ← e)
    ]
consume_all-holds uuid n token from ((at, in_mariadb d i q) ∷ rest) set {set'} a r k h =
    elim (Bool-cases (leb at token)) [
      | inl now' ↦ cc (rw now' at h)
      | inr later ↦
          let e : set ≡ set' = cc (rw later at h) in
          rw (later, recorded-late uuid n token at rest (ground (arith, later)) a.1, ← e)
    ]

not_due-late :
    (token from : ℕ) (pending : List (ℕ × Consumed))
    → Ascends from pending
    → All (λ (p : ℕ × Consumed). token < p.0) (not_due token pending)
unfolding not_due
not_due-late token from [] a = tt
not_due-late token from ((at, c) ∷ rest) a = elim (Bool-cases (leb at token)) [
  | inl now' ↦ rw now' (not_due-late token at rest a.1)
  | inr later ↦
      let after : token < at = ground (arith, later) in rw later (after, all-late at rest after a.1)
]
  where
    all-late :
        (f : ℕ) (pending' : List (ℕ × Consumed))
        → token < f
        → Ascends f pending'
        → All (λ (p : ℕ × Consumed). token < p.0) pending'
    all-late f [] h a' = tt
    all-late f ((at', c') ∷ rest') h a' =
        let after : token < at' = omega (arith, h, a'.0) in (after, all-late at' rest' after a'.1)

no_mark : (a b : Bool) → (a || b) ≡ false → a ≡ false
no_mark a b h = ground arith

settle-claims :
    (folded : Option GtidPosition) (t : GtidTracker) {position : GtidPosition} {t' : GtidTracker}
    → settle folded t ≡ (some position, t')
    → (folded ≡ some position)
      × (t'.position ≡ position)
      × (t'.pending ≡ t.pending)
      × (t.incomplete ≡ false)
unfolding settle
settle-claims none t h = cc
settle-claims (some p) t h = elim (Bool-cases (t.incomplete || is_empty p)) [
  | inl withheld ↦ cc (rw withheld at h)
  | inr given ↦
      let same : (some p, record t { position = p }) ≡ (some _, _) = rw given at h in
      let to : record t { position = p } ≡ _ = ap (λ q. q.1) same in
      let is : some p ≡ some _ = ap (λ q. q.0) same in
      (is, rw (← to) (cc is), rw (← to) refl, no_mark t.incomplete (is_empty p) given)
]

-- Where the commits were recorded in the order of their positions, their numbers are below the
-- end of a `u64`, and the tracker's intervals are sorted with gaps: a MySQL position that the tracker gives out for a token holds exactly the
-- transactions that the tracker's position held before and those that were recorded at or before
-- the token; the tracker keeps it, and keeps waiting only for commits after the token.
pub position_at-claims :
    (uuid : Text) (n token from : ℕ) (t : GtidTracker) (set set' : List (Text × Ranges))
    {t' : GtidTracker}
    → t.position ≡ mysql set
    → Ascends from t.pending
    → All InRange t.pending
    → IsNormal set
    → position_at token t ≡ (some (mysql set'), t')
    → (holds uuid n set' ≡ (recorded uuid n token t.pending || holds uuid n set))
      × (t'.position ≡ mysql set')
      × All (λ (p : ℕ × Consumed). token < p.0) t'.pending
unfolding position_at
position_at-claims uuid n token from t set set' p a r k h =
    let (folded, kept, left, whole) =
      settle-claims (consume_all (due token t.pending) t.position)
        (record t { pending = not_due token t.pending }) h in
    (
      consume_all-holds uuid n token from t.pending set a r k (rw p at folded),
      kept,
      rw left (not_due-late token from t.pending a),
    )
