-- ===== src/Reminders/Repeats.antt =====
-- No reminder of app/internal/worker/reminder.go comes twice.
use tasks_service.Prelude.{
  ℕ, ◌≡◌, refl, sym, ◌∙◌, Bool, true, false, Bool-cases, Option-cases, inl, inr, ◌&&◌, ◌==◌, List,
  [], ◌∷◌, any, select, update_where, All, All-map, All-update_where, All-select, any-select-false,
  arith, eq_iff, not,
}
use tasks_service.Database.{Platform, sql}
use tasks_service.Tasks.Tables.{TaskRow, has_task_id}
use tasks_service.Tasks.Repository.{patch_row}
use tasks_service.Reminders.{
  UserSubscription, ReminderWindow, window_60m, window_15m, window_5m, upsert_row,
  upsert_subscription,
}
use tasks_service.Reminders.Worker.{
  System, Notification, process_window, tick, Step, ticked, elapsed, synced, patched, deleted,
  with_tasks, step, run,
}
use tasks_service.Reminders.Audience.{
  Adds, IsFitting, process_window-IsFitting, is_due_row, info_of,
}
use tasks_service.Reminders.Sent.{
  is_unmarked, IsMarked, IsCanonical, IsReminded, process_window-IsReminded, none_after,
  patch_row-unmarked,
}

abbrev is_same_window : ReminderWindow → ReminderWindow → Bool
is_same_window window_60m window_60m = true
is_same_window window_15m window_15m = true
is_same_window window_5m window_5m = true
is_same_window _ _ = false

-- Of the same task and for the same window.
abbrev pub is_repeat : Notification → Notification → Bool
is_repeat n m = is_same_window n.window m.window && m.task_id == n.task_id

-- A row that is due has no mark yet.
due_unmarked :
    (wd : ReminderWindow) (from to : ℕ) (n : Notification) (rows : List TaskRow)
    → any (is_due_row wd from to (info_of n)) rows ≡ true
    → any (is_unmarked wd n.task_id) rows ≡ true
unfolding any
due_unmarked wd from to n [] h = cc
due_unmarked wd from to n (r ∷ rows) h = ground (arith, due_unmarked wd from to n rows)

same_window : (wd wd' : ReminderWindow) → is_same_window wd wd' ≡ true → wd' ≡ wd
same_window window_60m window_60m h = refl
same_window window_15m window_15m h = refl
same_window window_5m window_5m h = refl
same_window window_60m window_15m h = cc
same_window window_60m window_5m h = cc
same_window window_15m window_60m h = cc
same_window window_15m window_5m h = cc
same_window window_5m window_60m h = cc
same_window window_5m window_15m h = cc

new_reminder :
    (n : Notification) (rows : List TaskRow) (sent : List Notification)
    → any (is_unmarked n.window n.task_id) rows ≡ true
    → All (IsMarked rows) sent
    → any (is_repeat n) sent ≡ false
unfolding any
new_reminder n rows [] h m = refl
new_reminder n rows (o ∷ sent) h m = elim (Bool-cases (is_repeat n o)) [
  | inr other ↦ rw other (new_reminder n rows sent h m.1)
  | inl same ↦
      let window_same = same_window n.window o.window (ground (arith, same)) in
      let task_same = (eq_iff o.task_id n.task_id).0 (ground (arith, same)) in
      let clash : any (is_unmarked n.window n.task_id) rows ≡ false =
        rw (sym window_same, sym task_same) m.0 in
      ground (arith, clash, h)
]

module _ (pg : Platform) (delivers : ℕ → Bool) where
  with_tasks-IsReminded :
      (f : List TaskRow → List TaskRow) (s : System)
      → (All (IsCanonical pg) s.database.tables.tasks
          → All (IsCanonical pg) (f s.database.tables.tasks))
      → ((n : Notification)
          → IsMarked s.database.tables.tasks n
          → IsMarked (f s.database.tables.tasks) n)
      → IsReminded pg delivers s
      → IsReminded pg delivers (with_tasks f s)
  with_tasks-IsReminded f s keep mark h = record {
    up = h.up;
    canonical = keep h.canonical;
    marked = All-map (IsMarked s.database.tables.tasks) (IsMarked _) s.sent mark h.marked;
  }

  synced-IsReminded :
      (sub : UserSubscription) (s : System)
      → IsReminded pg delivers s
      → IsReminded pg delivers (record s { database = (upsert_subscription pg sub s.database).1 })
  unfolding upsert_subscription upsert_row sql
  synced-IsReminded sub s h = elim (Option-cases (pg.uuid sub.user_id)) [
    | inl e ↦
        rw (h.up s.database.calls, e, sql)
          (record { up = h.up; canonical = h.canonical; marked = h.marked })
    | inr (u, e) ↦
        rw (h.up s.database.calls, e, sql)
          (record { up = h.up; canonical = h.canonical; marked = h.marked })
  ]

  step-IsReminded :
      (e : Step) (s : System)
      → IsReminded pg delivers s
      → IsReminded pg delivers (step pg delivers e s)
  unfolding step tick
  step-IsReminded ticked s h = process_window-IsReminded pg delivers window_5m _ _ (
      process_window-IsReminded pg delivers window_15m _ _
        (process_window-IsReminded pg delivers window_60m _ s h))
  step-IsReminded (elapsed d) s h = record { up = h.up; canonical = h.canonical; marked = h.marked }
  step-IsReminded (synced sub) s h = synced-IsReminded sub s h
  step-IsReminded (patched id p tag) s h =
      with_tasks-IsReminded (update_where (has_task_id id) (patch_row p tag)) s
        (All-update_where (IsCanonical pg) (has_task_id id) (patch_row p tag) _ (λ r here c. c))
        (λ n m.
          none_after (is_unmarked n.window n.task_id) (has_task_id id) (patch_row p tag) _
            (λ r k. patch_row-unmarked n.window n.task_id p tag r ∙ k) m)
        h
  step-IsReminded (deleted id) s h =
      let kept = λ (r : TaskRow). not (has_task_id id r) in
      with_tasks-IsReminded (select kept) s
        (All-select (IsCanonical pg) kept s.database.tables.tasks)
        (λ n m. any-select-false kept (is_unmarked n.window n.task_id) s.database.tables.tasks m) h

  run-IsReminded :
      (es : List Step) (s : System)
      → IsReminded pg delivers s
      → IsReminded pg delivers (run pg delivers es s)
  unfolding run
  run-IsReminded [] s h = h
  run-IsReminded (e ∷ es) s h = run-IsReminded es (step pg delivers e s) (step-IsReminded e s h)

  -- What processing a window sends was not sent before.
  processed_once :
      (wd : ReminderWindow) (ahead : ℕ) (s : System)
      → IsReminded pg delivers s
      → Adds (λ n. any (is_repeat n) s.sent ≡ false) s (process_window pg delivers wd ahead s)
  processed_once wd ahead s h =
      let (more, e, fitting) = process_window-IsFitting pg delivers wd ahead s in
      (
        more,
        e,
        All-map (IsFitting wd ahead s) _ more
            (λ n f.
              new_reminder n s.database.tables.tasks s.sent
                (rw f.0 (due_unmarked wd _ _ n s.database.tables.tasks f.1.0)) h.marked)
            fitting,
      )

  -- With a database that answers every call and a table whose ids are uuids: whatever ticks of the
  -- worker, waits, new subscriptions, updates and deletions of tasks come first, the worker sends
  -- no reminder for a window of which it has reminded the user of the same task before, not even
  -- when an update has moved the deadline.
  pub no_second_reminder :
      (es : List Step) (wd : ReminderWindow) (ahead : ℕ) (s : System)
      → ((n : ℕ) → s.database.fails n ≡ false)
      → All (IsCanonical pg) s.database.tables.tasks
      → s.sent ≡ []
      → Adds
          (λ n. any (is_repeat n) (run pg delivers es s).sent ≡ false)
          (run pg delivers es s)
          (process_window pg delivers wd ahead (run pg delivers es s))
  no_second_reminder es wd ahead s up canonical e =
      processed_once wd ahead (run pg delivers es s)
        (run-IsReminded es s (record { up = up; canonical = canonical; marked = rw e tt }))
