-- ===== src/Engine/Intake.antt =====
-- `LoadIntake` and `RateLimit`: the load's channel, with its optional ceiling on rows a second.
-- Times are nanoseconds. The bucket's `f64` tokens are integers of 10⁻⁹ tokens, `credit` above
-- zero and `debt` below it, and a wait is rounded to the nearest nanosecond.
use pg2osync.Base.{
  ℕ, ◌+◌, ◌-◌, ◌*◌, ◌/◌, min, max, Bool, true, false, Option, none, some, List, [], ◌∷◌, ltb, ◌==◌,
  if◌then◌else◌,
}
use mathlib.Core.Option
use pg2osync.Core.Event.{ChangeEvent, row, load_started, load_finished}

abbrev pub second : ℕ
second = 1_000_000_000

pub record RateLimit : Type 0 where
  pub per_sec : ℕ
  -- at most one of the two is not zero
  pub credit : ℕ
  pub debt : ℕ
  pub last : ℕ

-- `RateLimit::new`
unfoldable pub new_limit : ℕ → ℕ → RateLimit
new_limit now rows_per_sec = record {
  per_sec = max rows_per_sec 1;
  credit = 0;
  debt = 0;
  last = now;
}

-- the bucket refilled for the time since the last charge, holding one second at most
refill : RateLimit → ℕ → RateLimit
refill l now =
    let gained = (now - l.last) * l.per_sec in
    record l {
      credit = min (l.credit + (gained - l.debt)) (l.per_sec * second);
      debt = l.debt - gained;
      last = now;
    }

-- `RateLimit::charge`: the bucket, and how long to wait before taking more
unfoldable pub charge : RateLimit → ℕ → ℕ → RateLimit × ℕ
unfolding refill
charge l rows now =
    let r = refill l now in
    let owed = rows * second in
    let debt' = r.debt + (owed - r.credit) in
    (record r { credit = r.credit - owed; debt = debt' }, (debt' + r.per_sec / 2) / r.per_sec)

pub record Intake : Type 0 where
  -- what waits in the channel
  pub queue : List ChangeEvent
  pub limit : Option RateLimit
  pub configured : Option ℕ
  pub open_at : Option ℕ
  pub load_running : Bool

same_rate : Option ℕ → Option ℕ → Bool
same_rate none none = true
same_rate (some a) (some b) = a == b
same_rate _ _ = false

-- `LoadIntake::new`
unfoldable pub new_intake : ℕ → Option ℕ → Intake
new_intake now rate = record {
  queue = [];
  limit = Option.map (new_limit now) rate;
  configured = rate;
  open_at = none;
  load_running = true;
}

-- `LoadIntake::set_rate`
unfoldable pub set_rate : ℕ → Option ℕ → Intake → Intake
unfolding same_rate
set_rate now rate i =
    if same_rate i.configured rate
    then i
    else record i { configured = rate; limit = Option.map (new_limit now) rate; open_at = none }

-- `LoadIntake::held`
unfoldable pub held : ℕ → Intake → Bool × Intake
held now i = elim i.open_at [
  | none ↦ (false, i)
  | some at ↦ if ltb now at then (true, i) else (false, record i { open_at = none })
]

running_after : ChangeEvent → Bool → Bool
running_after load_started running = true
running_after load_finished running = false
running_after _ running = running

pay : ℕ → RateLimit → Intake → Intake
pay now l i =
    let (l', wait) = charge l 1 now in
    record i { limit = some l'; open_at = if wait == 0 then i.open_at else some (now + wait) }

charge_row : ℕ → ChangeEvent → Intake → Intake
charge_row now (row r) i = elim i.limit [ none ↦ i | some l ↦ pay now l i ]
charge_row now _ i = i

-- `LoadIntake::took`
unfoldable pub took : ℕ → ChangeEvent → Intake → Intake
unfolding running_after charge_row pay charge
took now ev i = charge_row now ev (record i { load_running = running_after ev i.load_running })

unfoldable pub receive : ℕ → List ChangeEvent → Intake → Option ChangeEvent × Intake
receive now [] i = (none, i)
receive now (ev ∷ rest) i = (some ev, took now ev (record i { queue = rest }))

-- `LoadIntake::try_recv`
unfoldable pub try_recv : ℕ → Intake → Option ChangeEvent × Intake
unfolding held receive
try_recv now i =
    let (closed, i') = held now i in if closed then (none, i') else receive now i'.queue i'
