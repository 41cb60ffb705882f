-- ===== src/Reminders/Worker.antt =====
-- app/internal/worker/reminder.go: the worker that sends the reminders.
use tasks_service.Prelude.{
  ℕ, suc, ◌+◌, ◌-◌, ◌*◌, Bool, not, String, Option, List, [], ◌∷◌, ◌++◌, select, update_where,
  if◌then◌else◌,
}
use tasks_service.Database.{Platform, World, Result, ok, err}
use tasks_service.Tasks.Tables.{TaskRow, has_task_id}
use tasks_service.Tasks.Repository.{UpdatePatch, patch_row}
use tasks_service.Reminders.{
  Tables, UserSubscription, ReminderWindow, window_60m, window_15m, window_5m, TaskReminderInfo,
  find_tasks_due_for_reminder, mark_reminder_sent, upsert_subscription,
}

-- ReminderNotification, with the window for its text.
pub record Notification : Type 0 where
  pub user_id : String
  pub telegram_chat_id : String
  pub task_id : String
  pub task_title : String
  pub due_date : ℕ
  pub window : ReminderWindow

-- What was sent without an error, and how many sendings there were.
pub record System : Type 0 where
  pub database : World Tables
  pub sent : List Notification
  pub posts : ℕ

-- In nanoseconds, as the clock.
abbrev pub minute : ℕ
minute = 60000000000

abbrev pub notification : ReminderWindow → TaskReminderInfo → Notification
notification wd t = record {
  user_id = t.user_id;
  telegram_chat_id = t.telegram_chat_id;
  task_id = t.task_id;
  task_title = t.title;
  due_date = t.due_date;
  window = wd;
}

-- What happens while the worker runs: a tick of it, time, SyncSubscription of a user's
-- subscription, an update of a task and a deletion.
pub data Step : Type 0 where
  ticked : Step
  elapsed : ℕ → Step
  synced : UserSubscription → Step
  patched : String → UpdatePatch → Option String → Step
  deleted : String → Step

abbrev pub with_tasks : (List TaskRow → List TaskRow) → System → System
with_tasks f s = record s {
  database = record s.database {
    tables = record s.database.tables { tasks = f s.database.tables.tasks };
  };
}

-- `delivers n` says whether the n-th SendReminder returns no error.
module _ (pg : Platform) (delivers : ℕ → Bool) where
  -- One round of the loop. An error of MarkReminderSent is only logged.
  unfoldable pub remind : ReminderWindow → TaskReminderInfo → System → System
  remind wd t s =
      if delivers s.posts
      then record {
        database = (mark_reminder_sent pg t.task_id wd s.database).1;
        sent = s.sent ++ notification wd t ∷ [];
        posts = suc s.posts;
      }
      else record s { posts = suc s.posts }

  unfoldable pub remind_all : ReminderWindow → List TaskReminderInfo → System → System
  remind_all wd [] s = s
  remind_all wd (t ∷ rest) s = remind_all wd rest (remind wd t s)

  abbrev pub remind_found :
      ReminderWindow → Result (List TaskReminderInfo) × World Tables → System → System
  remind_found wd (err e, w) s = record s { database = w }
  remind_found wd (ok tasks, w) s = remind_all wd tasks (record s { database = w })

  unfoldable pub process_window : ReminderWindow → ℕ → System → System
  process_window wd ahead s =
      let now = s.database.now in
      remind_found wd
        (find_tasks_due_for_reminder (now + (ahead - minute)) (now + (ahead + minute)) wd
          s.database)
        s

  unfoldable pub tick : System → System
  tick s =
      process_window window_5m (5 * minute)
        (process_window window_15m (15 * minute) (process_window window_60m (60 * minute) s))

  unfoldable pub step : Step → System → System
  step ticked s = tick s
  step (elapsed d) s = record s { database = record s.database { now = s.database.now + d } }
  step (synced sub) s = record s { database = (upsert_subscription pg sub s.database).1 }
  step (patched id p tag) s = with_tasks (update_where (has_task_id id) (patch_row p tag)) s
  step (deleted id) s = with_tasks (select (λ r. not (has_task_id id r))) s

  unfoldable pub run : List Step → System → System
  run [] s = s
  run (e ∷ rest) s = run rest (step e s)
