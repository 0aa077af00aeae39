-- ===== src/Engine/Batch/Waiting.antt =====
-- No event is lost, doubled or reordered on its way to its handler.
use pg2osync.Base.{
  ℕ, zero, suc, ◌≡◌, refl, sym, ap, ◌∙◌, List, [], ◌∷◌, ◌++◌, map, arith, Option, none, some,
  Bool-cases, inl, inr,
}
use pg2osync.Core.Event.{ChangeEvent, RowChange, row}
use pg2osync.Engine.Intake.{Intake, held, took, receive, try_recv}
use pg2osync.Engine.Batch.State.{State, from_events, try_next}
use pg2osync.Engine.Batch.Rows.{gather, gather_more}
use pg2osync.Engine.Batch.Handlers.{next_event, take_event}

unfoldable pub in_hand : Option ChangeEvent → List ChangeEvent
in_hand none = []
in_hand (some ev) = ev ∷ []

-- The events that are still to be handled: the deferred one, the stream's, then the load's.
unfoldable pub waiting : State → List ChangeEvent
unfolding in_hand
waiting s = in_hand s.deferred ++ (s.events ++ s.copy.queue)

queue-took : (now : ℕ) (ev : ChangeEvent) (i : Intake) → (took now ev i).queue ≡ i.queue
unfolding took
queue-took now (row r) i = ground arith
queue-took now _ i = refl

queue-receive :
    (now : ℕ) (q : List ChangeEvent) (i : Intake)
    → i.queue ≡ q
    → in_hand (receive now q i).0 ++ (receive now q i).1.queue ≡ q
unfolding receive in_hand
queue-receive now [] i e = e
queue-receive now (ev ∷ rest) i e = ap (◌∷◌ ev) (queue-took now ev (record i { queue = rest }))

queue-held : (now : ℕ) (i : Intake) → (held now i).1.queue ≡ i.queue
unfolding held
queue-held now i = ground arith

-- A receive from the load's channel takes the oldest event, or none.
pub queue-try_recv :
    (now : ℕ) (i : Intake) → in_hand (try_recv now i).0 ++ (try_recv now i).1.queue ≡ i.queue
unfolding try_recv in_hand
queue-try_recv now i = elim (Bool-cases (held now i).0) [
  | inl closed ↦ rw closed (queue-held now i)
  | inr open' ↦
      let j = (held now i).1 in rw open' (queue-receive now j.queue j refl ∙ queue-held now i)
]

from_events-waiting :
    (l : List ChangeEvent) (s : State)
    → s.events ≡ l
    → in_hand (from_events l s).0 ++ ((from_events l s).1.events ++ (from_events l s).1.copy.queue)
      ≡ l ++ s.copy.queue
unfolding from_events in_hand
from_events-waiting [] s e =
    ap (λ evs. in_hand (try_recv s.now s.copy).0 ++ (evs ++ (try_recv s.now s.copy).1.queue)) e
    ∙ queue-try_recv s.now s.copy
from_events-waiting (ev ∷ rest) s e = refl

deferred-from_events :
    (l : List ChangeEvent) (s : State) → (from_events l s).1.deferred ≡ s.deferred
unfolding from_events
deferred-from_events [] s = refl
deferred-from_events (ev ∷ rest) s = refl

-- What waits in the two channels loses its head to `try_next`, and nothing else.
pub try_next-waiting :
    (s : State) → s.deferred ≡ none → in_hand (try_next s).0 ++ waiting (try_next s).1 ≡ waiting s
unfolding try_next waiting
try_next-waiting s e =
    let f = (try_next s).0 in
    let t = (try_next s).1 in
    let kept : t.deferred ≡ none = deferred-from_events s.events s ∙ e in
    ap (λ d. in_hand f ++ (in_hand d ++ (t.events ++ t.copy.queue))) kept
    ∙ from_events-waiting s.events s refl
    ∙ ap (λ d. in_hand d ++ (s.events ++ s.copy.queue)) (sym e)

-- The next event is the first of those that wait, and the others wait on.
pub next_event-waiting :
    (s : State) → in_hand (next_event s).0 ++ waiting (next_event s).1 ≡ waiting s
unfolding next_event waiting
next_event-waiting s = go s.deferred refl
  where
    go :
        (d : Option ChangeEvent)
        → s.deferred ≡ d
        → in_hand (take_event d s).0 ++ waiting (take_event d s).1 ≡ waiting s
    go none e = try_next-waiting s e
    go (some ev) e = ap (λ d. in_hand d ++ (s.events ++ s.copy.queue)) (sym e)

gather_more-waiting :
    (next : State → List RowChange × State)
    → ((s : State)
        → s.deferred ≡ none
        → map (λ r. row r) (next s).0 ++ waiting (next s).1 ≡ waiting s)
    → (found : Option ChangeEvent) (s : State) → s.deferred ≡ none
    → map (λ r. row r) (gather_more next found s).0 ++ waiting (gather_more next found s).1
      ≡ in_hand found ++ waiting s
unfolding gather_more in_hand waiting
gather_more-waiting next k none s e = refl
gather_more-waiting next k (some (row r)) s e = ap (◌∷◌ (row r)) (k s e)
gather_more-waiting next k (some ev) s e =
    ap (λ d. ev ∷ (in_hand d ++ (s.events ++ s.copy.queue))) (sym e)

-- Gathering takes the rows at the front of what waits, at most as many as there is room for.
pub gather-waiting :
    (room : ℕ) (s : State)
    → s.deferred ≡ none
    → map (λ r. row r) (gather room s).0 ++ waiting (gather room s).1 ≡ waiting s
unfolding gather
gather-waiting zero s e = refl
gather-waiting (suc room) s e =
    gather_more-waiting (gather room) (gather-waiting room) (try_next s).0 (try_next s).1
      (unfold try_next in (deferred-from_events s.events s ∙ e))
    ∙ try_next-waiting s e

pub deferred-try_next : (s : State) → (try_next s).1.deferred ≡ s.deferred
unfolding try_next
deferred-try_next s = deferred-from_events s.events s

-- A handler runs with nothing deferred, so what it defers replaces nothing.
pub deferred-next_event : (s : State) → (next_event s).1.deferred ≡ none
unfolding next_event
deferred-next_event s = go s.deferred refl
  where
    go : (d : Option ChangeEvent) → s.deferred ≡ d → (take_event d s).1.deferred ≡ none
    go none e = deferred-try_next s ∙ e
    go (some ev) e = refl
