-- ===== src/Engine/Batch/Refines.antt =====
-- The engine task against its specification: a log to which every event adds what it means,
-- whatever the batches. What the task lets through follows that log.
use pg2osync.Base.{
  ℕ, ◌+◌, ◌-◌, ◌≡◌, refl, sym, ap, ◌∙◌, true, false, List, [], ◌∷◌, ◌++◌, map, append-nil,
  if◌then◌else◌, Option, none, some, Bool-cases, when_false, inl, inr, ◌&&◌, when_true,
}
use pg2osync.Base.Text.{Text}
use pg2osync.Core.Error.{Result, ok, err, ◌>>=◌}
use pg2osync.Core.Event.{
  ChangeEvent, RowChange, begin, commit, transaction, row, load_mark, load_started, load_finished,
  schema_drift, table_truncated,
}
use pg2osync.Core.Json.{Value}
use pg2osync.Engine.Batch.State.{State, RowRules, EngineSettings, reload}
use pg2osync.Engine.Batch.Rows.{gather, process_rows, handle_rows}
use pg2osync.Engine.Batch.Handlers.{
  close_window, truncate_target, handle_truncate, handle, is_unscoped, next_event,
}
use pg2osync.Engine.Batch.View.{
  Item, op, clear, mark_at, view, Follows, Follows-refl, Follows-append,
}
use pg2osync.Engine.Batch.Moves.{gather-SameWork, view-SameWork}
use pg2osync.Engine.Batch.Gathered.{emitted, process_rows-emitted}
use pg2osync.Engine.Batch.Commits.{handle_commit-Follows}
use pg2osync.Engine.Batch.Clears.{view-handle_load_mark, clear_index-view}

module _ (rules : RowRules) where
  completed_rows : Result (RowChange → Option Value) → List RowChange → State → List Item
  completed_rows (err e) rs s = []
  completed_rows (ok previous) rs s =
      map op (emitted rules previous s.copy.load_running s.cleared rs s.superseded)

  -- The rows that are gathered with `r`, as their operations.
  logged_rows : RowChange → State → List Item
  unfolding completed_rows
  logged_rows r s =
      let (rs, s') = gather (s.settings.batch_size - 1) s in
      completed_rows (rules.complete s'.now (r ∷ rs)) (r ∷ rs) s'

  logged_clear : Option Text → Option (Text × Text) → Option ℕ → List Item
  logged_clear none only version = []
  logged_clear (some index) only version =
      if is_unscoped only && rules.is_shared index then [] else clear index version only ∷ []

  -- What an event adds to the log.
  unfoldable pub logged : ChangeEvent → State → List Item
  unfolding logged_rows logged_clear
  logged (transaction (commit lsn commit_ts)) s = mark_at lsn.value
  logged (row r) s = logged_rows r s
  logged (table_truncated schema table version) s =
      logged_clear (rules.pattern schema table) (rules.join schema table) version
  logged _ s = []

  completed-view :
      (found : Result (RowChange → Option Value)) (rs : List RowChange) (s : State) {s' : State}
      → (found >>= λ previous. process_rows rules previous rs s) ≡ ok s'
      → view s' ≡ view s ++ completed_rows found rs s
  unfolding completed_rows
  completed-view (err e) rs s h = cc
  completed-view (ok previous) rs s h = process_rows-emitted rules previous rs s h

  handle_rows-view :
      (r : RowChange) (s : State) {s' : State}
      → handle_rows rules r s ≡ ok s'
      → view s' ≡ view s ++ logged_rows r s
  unfolding handle_rows logged_rows
  handle_rows-view r s h =
      let (rs, t) = gather (s.settings.batch_size - 1) s in
      completed-view (rules.complete t.now (r ∷ rs)) (r ∷ rs) t h
      ∙ ap (λ v. v ++ completed_rows (rules.complete t.now (r ∷ rs)) (r ∷ rs) t)
          (view-SameWork (gather-SameWork (s.settings.batch_size - 1) s))

  truncate_target-view :
      (index : Option Text) (only : Option (Text × Text)) (version : Option ℕ) (s : State)
      {s' : State}
      → truncate_target rules index only version s ≡ ok s'
      → view s' ≡ view s ++ logged_clear index only version
  unfolding truncate_target logged_clear
  truncate_target-view none only version s {s'} h =
      let e : s ≡ s' = cc in rw (← e) (sym (append-nil (view s)))
  truncate_target-view (some index) only version s {s'} h =
      elim (Bool-cases (is_unscoped only && rules.is_shared index)) [
        | inl skipped ↦ rw skipped (
            let e : s ≡ s' = cc (when_true _ _ _ skipped h) in rw (← e) (sym (append-nil (view s))))
        | inr applied ↦
            rw applied (clear_index-view index version only s (when_false _ _ _ applied h))
      ]

  silent :
      {log : List Item} (s t : State) {s' : State}
      → view t ≡ view s
      → ok t ≡ ok s'
      → Follows log (view s)
      → Follows (log ++ []) (view s')
  silent {log} s t {s'} same h f = let e : t ≡ s' = cc in rw (append-nil log, ← e, same) f

  -- Every event adds to what the task lets through what it adds to the log.
  pub handle-Follows :
      {log : List Item} (ev : ChangeEvent) (s : State) {s' : State}
      → handle rules ev s ≡ ok s'
      → Follows log (view s)
      → Follows (log ++ logged ev s) (view s')
  unfolding handle logged handle_truncate close_window
  handle-Follows {log} (transaction (begin lsn)) s h f =
      silent s (record s { stream_txn_open = true }) (unfold view in refl) h f
  handle-Follows (transaction (commit lsn commit_ts)) s h f = handle_commit-Follows lsn s h f
  handle-Follows {log} (load_mark mark) s h f =
      rw (append-nil log, view-handle_load_mark mark s h) f
  handle-Follows (row r) s h f = rw (handle_rows-view r s h) (Follows-append f (Follows-refl _))
  handle-Follows load_started s h f = silent s s refl h f
  handle-Follows load_finished s h f = silent s (close_window s) (unfold view in refl) h f
  handle-Follows (schema_drift schema table detail) s h f = silent s s refl h f
  handle-Follows (table_truncated schema table version) s h f =
      rw (truncate_target-view (rules.pattern schema table) (rules.join schema table) version s h)
        (Follows-append f (Follows-refl _))

-- The state of the engine task through its turns, with the log that its events make. Between
-- turns events arrive, time passes, settings are reloaded, the load's channel closes, and the
-- sink task may go away.
pub data Run (rules : RowRules) (s : State) : List Item → State → Type 0 where
  start : Run rules s [] s
  turned :
      {log : List Item} {t : State} (ev : ChangeEvent) {u v : State}
      → Run rules s log t
      → next_event t ≡ (some ev, u)
      → handle rules ev u ≡ ok v
      → Run rules s (log ++ logged rules ev u) v
  stream_arrives :
      {log : List Item} {t : State} (ev : ChangeEvent)
      → Run rules s log t
      → Run rules s log (record t { events = t.events ++ ev ∷ [] })
  load_arrives :
      {log : List Item} {t : State} (ev : ChangeEvent)
      → Run rules s log t
      → Run rules s log (record t { copy = record t.copy { queue = t.copy.queue ++ ev ∷ [] } })
  time_passes :
      {log : List Item} {t : State} (elapsed : ℕ)
      → Run rules s log t
      → Run rules s log (record t { now = t.now + elapsed })
  reloads :
      {log : List Item} {t : State} (latest : EngineSettings)
      → Run rules s log t
      → Run rules s log (reload latest t)
  copy_closes : {log : List Item} {t : State} → Run rules s log t → Run rules s log (close_window t)
  sink_stops :
      {log : List Item} {t : State}
      → Run rules s log t
      → Run rules s log (record t { sink_open = false })
