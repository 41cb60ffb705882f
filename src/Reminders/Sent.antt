-- ===== src/Reminders/Sent.antt =====
-- That the worker of app/internal/worker/reminder.go does not repeat itself: what it sent is marked.
use tasks_service.Prelude.{
  ℕ, ◌+◌, ◌-◌, ◌≡◌, refl, Bool, true, false, Bool-cases, inl, inr, ◌&&◌, String, Option, some, List,
  [], ◌∷◌, any, update_where, All, All-append, All-map, All-update_where, arith, eq_iff, subst,
}
use tasks_service.Database.{Platform, World, sql, after_call}
use tasks_service.Tasks.Tables.{TaskRow, has_task_id}
use tasks_service.Tasks.Repository.{UpdatePatch, patch_row}
use tasks_service.Reminders.{
  Tables, ReminderWindow, window_60m, window_15m, window_5m, TaskReminderInfo, sent_at, mark_sent,
  is_missing, find_tasks_due_for_reminder, mark_row, mark_reminder_sent,
}
use tasks_service.Reminders.Worker.{
  System, Notification, minute, notification, remind, remind_all, process_window,
}
use tasks_service.Reminders.Audience.{due_tasks_lem, is_due_row}

abbrev pub is_unmarked : ReminderWindow → String → TaskRow → Bool
is_unmarked wd id r = has_task_id id r && is_missing (sent_at wd r)

-- The task of a notification is marked for its window, or is gone.
abbrev pub IsMarked : List TaskRow → Notification → Type 0
IsMarked rows n = any (is_unmarked n.window n.task_id) rows ≡ false

-- What marking a row does to another mark.
mark_sent-unmarked :
    (wd wd' : ReminderWindow) (id : String) (now : ℕ) (r : TaskRow)
    → is_unmarked wd id r ≡ false
    → is_unmarked wd id (mark_sent wd' now r) ≡ false
mark_sent-unmarked window_60m window_60m id now r h = ground arith
mark_sent-unmarked window_60m window_15m id now r h = h
mark_sent-unmarked window_60m window_5m id now r h = h
mark_sent-unmarked window_15m window_60m id now r h = h
mark_sent-unmarked window_15m window_15m id now r h = ground arith
mark_sent-unmarked window_15m window_5m id now r h = h
mark_sent-unmarked window_5m window_60m id now r h = h
mark_sent-unmarked window_5m window_15m id now r h = h
mark_sent-unmarked window_5m window_5m id now r h = ground arith

sent_at-mark_sent :
    (wd : ReminderWindow) (now : ℕ) (r : TaskRow) → sent_at wd (mark_sent wd now r) ≡ some now
sent_at-mark_sent window_60m now r = refl
sent_at-mark_sent window_15m now r = refl
sent_at-mark_sent window_5m now r = refl

task_id-mark_sent :
    (wd : ReminderWindow) (now : ℕ) (r : TaskRow) → (mark_sent wd now r).task_id ≡ r.task_id
task_id-mark_sent window_60m now r = refl
task_id-mark_sent window_15m now r = refl
task_id-mark_sent window_5m now r = refl

pub none_after {ℓ} :
    {A : Type ℓ} (q p : A → Bool) (f : A → A) (xs : List A)
    → ((x : A) → q x ≡ false → q (f x) ≡ false)
    → any q xs ≡ false
    → any q (update_where p f xs) ≡ false
unfolding any update_where
none_after q p f [] keep h = refl
none_after q p f (x ∷ xs) keep h = ground (arith, keep x, none_after q p f xs keep)

marked_after :
    (wd : ReminderWindow) (id : String) (now : ℕ) (rows : List TaskRow)
    → any (is_unmarked wd id) (update_where (has_task_id id) (mark_sent wd now) rows) ≡ false
unfolding any update_where
marked_after wd id now [] = refl
marked_after wd id now (r ∷ rows) =
    ground (arith, sent_at-mark_sent wd now r, marked_after wd id now rows)

pub patch_row-unmarked :
    (wd : ReminderWindow) (id : String) (p : UpdatePatch) (tag : Option String) (r : TaskRow)
    → is_unmarked wd id (patch_row p tag r) ≡ is_unmarked wd id r
patch_row-unmarked window_60m id p tag r = refl
patch_row-unmarked window_15m id p tag r = refl
patch_row-unmarked window_5m id p tag r = refl

-- The column is a uuid.
abbrev pub IsCanonical : Platform → TaskRow → Type 0
IsCanonical pg r = pg.uuid r.task_id ≡ some r.task_id

module _ (pg : Platform) (delivers : ℕ → Bool) where
  -- The database answers every call, and what was sent is marked.
  pub record IsReminded (s : System) : Type 0 where
    pub up : (n : ℕ) → s.database.fails n ≡ false
    pub canonical : All (IsCanonical pg) s.database.tables.tasks
    pub marked : All (IsMarked s.database.tables.tasks) s.sent

  due_canonical :
      (wd : ReminderWindow) (from to : ℕ) (i : TaskReminderInfo) (rows : List TaskRow)
      → All (IsCanonical pg) rows
      → any (is_due_row wd from to i) rows ≡ true
      → pg.uuid i.task_id ≡ some i.task_id
  unfolding any
  due_canonical wd from to i [] h d = cc
  due_canonical wd from to i (r ∷ rows) h d = elim (Bool-cases (is_due_row wd from to i r)) [
    | inl here ↦
        subst (λ (id : String). pg.uuid id ≡ some id)
          ((eq_iff r.task_id i.task_id).0 (ground (arith, here))) h.0
    | inr later ↦ due_canonical wd from to i rows h.1 (ground (arith, later, d))
  ]

  mark_reminder_sent_lem :
      (id : String) (wd : ReminderWindow) (w : World Tables)
      → w.fails w.calls ≡ false
      → pg.uuid id ≡ some id
      → (mark_reminder_sent pg id wd w).1 ≡ record (after_call w) {
        tables = record w.tables {
          tasks = update_where (has_task_id id) (mark_sent wd w.now) w.tables.tasks;
        };
      }
  unfolding mark_reminder_sent mark_row sql
  mark_reminder_sent_lem id wd w up e = rw (up, e) refl

  remind-IsReminded :
      (wd : ReminderWindow) (i : TaskReminderInfo) (s : System)
      → pg.uuid i.task_id ≡ some i.task_id
      → IsReminded s
      → IsReminded (remind pg delivers wd i s)
  unfolding remind
  remind-IsReminded wd i s e h = elim (Bool-cases (delivers s.posts)) [
    | inr refused ↦ rw refused (record { up = h.up; canonical = h.canonical; marked = h.marked })
    | inl delivered ↦
        rw (delivered, mark_reminder_sent_lem i.task_id wd s.database (h.up s.database.calls) e)
          (record {
            up = h.up;
            canonical =
                All-update_where (IsCanonical pg) (has_task_id i.task_id)
                  (mark_sent wd s.database.now) _
                  (λ r here c. rw (task_id-mark_sent wd s.database.now r) c) h.canonical;
            marked =
                All-append (IsMarked _) s.sent (notification wd i ∷ [])
                  (All-map (IsMarked s.database.tables.tasks) (IsMarked _) s.sent
                    (λ n m.
                      none_after (is_unmarked n.window n.task_id) (has_task_id i.task_id)
                        (mark_sent wd s.database.now) s.database.tables.tasks
                        (mark_sent-unmarked n.window wd n.task_id s.database.now) m)
                    h.marked)
                  (marked_after wd i.task_id s.database.now s.database.tables.tasks, tt);
          })
  ]

  remind_all-IsReminded :
      (wd : ReminderWindow) (is : List TaskReminderInfo) (s : System)
      → All (λ (i : TaskReminderInfo). pg.uuid i.task_id ≡ some i.task_id) is
      → IsReminded s
      → IsReminded (remind_all pg delivers wd is s)
  unfolding remind_all
  remind_all-IsReminded wd [] s e h = h
  remind_all-IsReminded wd (i ∷ is) s e h =
      remind_all-IsReminded wd is (remind pg delivers wd i s) e.1 (remind-IsReminded wd i s e.0 h)

  pub process_window-IsReminded :
      (wd : ReminderWindow) (ahead : ℕ) (s : System)
      → IsReminded s
      → IsReminded (process_window pg delivers wd ahead s)
  unfolding process_window find_tasks_due_for_reminder sql
  process_window-IsReminded wd ahead s h =
      rw (h.up s.database.calls, sql)
        (remind_all-IsReminded wd _ _
          (All-map _ _ _ (λ i e. due_canonical wd _ _ i s.database.tables.tasks h.canonical e.0)
            (due_tasks_lem wd (s.database.now + (ahead - minute))
              (s.database.now + (ahead + minute)) s.database.now s.database.tables.subscriptions
              s.database.tables.tasks))
          (record { up = h.up; canonical = h.canonical; marked = h.marked }))
