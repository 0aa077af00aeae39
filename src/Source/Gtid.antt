-- ===== src/Source/Gtid.antt =====
-- crates/source-mysql/src/gtid.rs: the consumed transactions of a MySQL or MariaDB server, and the
-- tracker that lets a checkpoint claim only those that it covers. The text and binary forms, and
-- the order in which `BTreeMap` lists its keys, are not modelled.
pub mod Intervals
pub mod Past
pub mod Inserts
pub mod Numbers
pub mod Tracker
pub mod Domains
use pg2osync.Base.{
  ℕ, ◌+◌, ◌%◌, max, Bool, true, false, ◌&&◌, ◌||◌, ==_iff, Option, none, some, List, [], ◌∷◌, ◌++◌,
  last?, leb, ◌==◌, if◌then◌else◌,
}
use pg2osync.Base.Map.{Eq, get, put}
use pg2osync.Base.Text.{Text, text_key}

abbrev pub word : ℕ
word = 18_446_744_073_709_551_616

-- `n + 1` in a `u64`
unfoldable pub succ64 : ℕ → ℕ
succ64 n = (n + 1) % word

-- Inclusive intervals of transaction numbers.
abbrev pub Ranges : Type 0
Ranges = List (ℕ × ℕ)

-- `coalesce`, with the interval that is being merged into
unfoldable pub merge_from : ℕ → ℕ → Ranges → Ranges
merge_from s e [] = (s, e) ∷ []
merge_from s e ((s', e') ∷ rest) =
    let near = leb s' (succ64 e) in
    let later = merge_from (if near then s else s') (if near then max e e' else e') rest in
    if near then later else (s, e) ∷ later

unfoldable pub coalesce : Ranges → Ranges
coalesce [] = []
coalesce ((s, e) ∷ rest) = merge_from s e rest

unfoldable pub follows_last : ℕ → Option (ℕ × ℕ) → Bool
follows_last g none = false
follows_last g (some (s, e)) = g == succ64 e

-- `last.1 = gno`
unfoldable pub end_last : ℕ → Ranges → Ranges
end_last g [] = []
end_last g ((s, e) ∷ []) = (s, g) ∷ []
end_last g (r ∷ r' ∷ rest) = r ∷ end_last g (r' ∷ rest)

-- The two sides of `partition_point(|(start, _)| *start <= gno)`
unfoldable pub leading : ℕ → Ranges → Ranges
leading g [] = []
leading g ((s, e) ∷ rest) = let more = leading g rest in if leb s g then (s, e) ∷ more else []

unfoldable pub trailing : ℕ → Ranges → Ranges
trailing g [] = []
trailing g ((s, e) ∷ rest) = let more = trailing g rest in if leb s g then more else (s, e) ∷ rest

-- Before the interval that starts next, or joined to it.
unfoldable pub join_next : ℕ → Ranges → Ranges → Ranges
join_next g before [] = before ++ (g, g) ∷ []
join_next g before ((s, e) ∷ rest) =
    if succ64 g == s then coalesce (before ++ (g, e) ∷ rest) else before ++ (g, g) ∷ (s, e) ∷ rest

unfoldable pub place : ℕ → Option (ℕ × ℕ) → Ranges → Ranges → Ranges
place g none before after = join_next g before after
place g (some (s, e)) before after =
    if leb s g && leb g e
    then before ++ after
    else (if g == succ64 e then coalesce (end_last g before ++ after) else join_next g before after)

-- One number into the intervals of its server.
unfoldable pub add_number : ℕ → Ranges → Ranges
add_number g ranges =
    if follows_last g (last? ranges)
    then end_last g ranges
    else place g (last? (leading g ranges)) (leading g ranges) (trailing g ranges)

unfoldable pub or_empty : Option Ranges → Ranges
or_empty none = []
or_empty (some ranges) = ranges

-- `MySqlGtidSet::add`
unfoldable pub add_mysql : Text → ℕ → List (Text × Ranges) → List (Text × Ranges)
unfolding or_empty
add_mysql uuid gno uuids = put uuid (add_number gno (or_empty (get uuid uuids))) uuids

instance abbrev pub domain_key : Eq ℕ
domain_key = record { beq = ◌==◌; beq_iff = ==_iff }

-- A newer number of the domain, or the one that is there.
unfoldable pub newest : ℕ → ℕ → Option (ℕ × ℕ) → ℕ × ℕ
newest server_id seq_no none = (server_id, seq_no)
newest server_id seq_no (some (server, seq)) =
    if leb seq seq_no then (server_id, seq_no) else (server, seq)

abbrev pub Domains : Type 0
Domains = List (ℕ × (ℕ × ℕ))

-- `MariaGtidPos::add`
unfoldable pub add_mariadb : ℕ → ℕ → ℕ → Domains → Domains
unfolding newest
add_mariadb domain server_id seq_no domains =
    put domain (newest server_id seq_no (get domain domains)) domains

pub data GtidPosition : Type 0 where
  mysql : List (Text × Ranges) → GtidPosition
  mariadb : Domains → GtidPosition

-- `GtidPosition::is_empty`
unfoldable pub is_empty : GtidPosition → Bool
is_empty (mysql []) = true
is_empty (mariadb []) = true
is_empty _ = false

pub data Consumed : Type 0 where
  in_mysql : Text → ℕ → Consumed
  in_mariadb : ℕ → ℕ → ℕ → Consumed

pub record GtidTracker : Type 0 where
  pub position : GtidPosition
  -- each with the position of its commit, oldest first
  pub pending : List (ℕ × Consumed)
  pub incomplete : Bool

resume_at : Bool → Option GtidPosition → GtidPosition
resume_at is_mariadb (some position) = position
resume_at true none = mariadb []
resume_at false none = mysql []

-- `GtidTracker::new`
unfoldable pub new_tracker : Bool → Option GtidPosition → GtidTracker
unfolding resume_at
new_tracker is_mariadb resume_from = record {
  position = resume_at is_mariadb resume_from;
  pending = [];
  incomplete = false;
}

-- `record_mysql` and `record_mariadb`
unfoldable pub record_consumed : ℕ → Consumed → GtidTracker → GtidTracker
record_consumed token consumed t = record t { pending = t.pending ++ (token, consumed) ∷ [] }

-- `mark_incomplete`
unfoldable pub mark_incomplete : GtidTracker → GtidTracker
mark_incomplete t = record t { incomplete = true }

unfoldable pub due : ℕ → List (ℕ × Consumed) → List (ℕ × Consumed)
due token [] = []
due token ((at, c) ∷ rest) =
    let more = due token rest in if leb at token then (at, c) ∷ more else []

unfoldable pub not_due : ℕ → List (ℕ × Consumed) → List (ℕ × Consumed)
not_due token [] = []
not_due token ((at, c) ∷ rest) =
    let more = not_due token rest in if leb at token then more else (at, c) ∷ rest

-- One transaction into the position, if it is of the position's server.
unfoldable pub consume : Consumed → GtidPosition → Option GtidPosition
consume (in_mysql uuid gno) (mysql set) = some (mysql (add_mysql uuid gno set))
consume (in_mariadb domain server_id seq_no) (mariadb pos) =
    some (mariadb (add_mariadb domain server_id seq_no pos))
consume _ position = none

unfoldable pub consume_all : List (ℕ × Consumed) → GtidPosition → Option GtidPosition
consume_all [] position = some position
consume_all ((at, c) ∷ rest) position = elim (consume c position) [
  | none ↦ none
  | some position' ↦ consume_all rest position'
]

emptied : GtidPosition → GtidPosition
emptied (mysql set) = mysql []
emptied (mariadb pos) = mariadb []

settle : Option GtidPosition → GtidTracker → Option GtidPosition × GtidTracker
settle none t = (none, record t { position = emptied t.position; incomplete = true })
settle (some position) t = (
  if t.incomplete || is_empty position then none else some position,
  record t { position = position },
)

-- `GtidTracker::position_at`, which renders the position that it returns
unfoldable pub position_at : ℕ → GtidTracker → Option GtidPosition × GtidTracker
unfolding settle emptied
position_at token t =
    settle (consume_all (due token t.pending) t.position)
      (record t { pending = not_due token t.pending })
