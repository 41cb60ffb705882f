-- ===== src/Reminders/Examples.antt =====
-- A run of the worker of the reminders, and the theorems applied to it.
use tasks_service.Prelude.{
  ℕ, Bool, ◌++◌, ◌*◌, ◌≡◌, refl, true, false, not, ◌==◌, none, some, List, [], ◌∷◌, any, find,
  update_where, if◌then◌else◌,
}
use tasks_service.Database.{Platform, sql, ◌>>=◌}
use tasks_service.Tasks.Tables.{TaskRow}
use tasks_service.Tasks.Repository.{UpdatePatch}
use tasks_service.Reminders.{
  UserSubscription, window_60m, due_tasks, joined, find_tasks_due_for_reminder, mark_row,
  mark_reminder_sent, is_active_user, get_subscription, select_subscription,
}
use tasks_service.Reminders.Worker.{
  System, Notification, Step, ticked, elapsed, patched, minute, remind, remind_all, process_window,
  tick, step, run,
}
use tasks_service.Reminders.Audience.{Adds, IsFitting, process_window-IsFitting}
use tasks_service.Reminders.Repeats.{is_repeat, no_second_reminder}

abbrev pg : Platform
pg = record {
  uuid = λ s. if s == "" then none else some s;
  timestamp = λ s. none;
  gen_uuid = λ n. "g";
  parse_uuid = λ s. not (s == "");
}

abbrev trip : TaskRow
trip = record {
  task_id = "t1";
  title = "trip";
  description = "";
  status = "2";
  priory = "red";
  due_date = 60 * minute;
  created_at = 0;
  user_id = "u1";
  tag_id = none;
  admin_deleted = none;
  admin_deleted_at = none;
  user_ack = none;
  reminder_60m_sent_at = none;
  reminder_15m_sent_at = none;
  reminder_5m_sent_at = none;
}

abbrev subscriber : UserSubscription
subscriber = record {
  user_id = "u1";
  name = "ann";
  has_subscription = true;
  expires_at = some (1000 * minute);
  telegram_chat_id = some "7";
  updated_at = 0;
}

abbrev start : System
start = record {
  database = record {
    tables = record { tasks = trip ∷ []; subscriptions = subscriber ∷ [] };
    calls = 0;
    fails = λ n. false;
    now = 0;
  };
  sent = [];
  posts = 0;
}

abbrev delivers : ℕ → Bool
delivers n = true

abbrev later : UpdatePatch
later = record {
  title = none;
  description = none;
  status = none;
  priority = none;
  due_date = some (120 * minute);
  tag_name = none;
}

-- The reminder is sent, then the deadline is moved by an hour and is once more an hour away.
abbrev moved : List Step
moved = ticked ∷ patched "t1" later none ∷ elapsed (60 * minute) ∷ []

abbrev first_reminder : Notification
first_reminder = record {
  user_id = "u1";
  telegram_chat_id = "7";
  task_id = "t1";
  task_title = "trip";
  due_date = 60 * minute;
  window = window_60m;
}

moved_test : (run pg delivers (moved ++ ticked ∷ []) start).sent ≡ first_reminder ∷ []
unfolding run step tick process_window find_tasks_due_for_reminder sql remind_all remind
    mark_reminder_sent mark_row due_tasks joined update_where
moved_test = refl

active_test : (is_active_user pg "u1" start.database).0 ≡ true
unfolding is_active_user get_subscription select_subscription sql find ◌>>=◌
active_test = refl

process_window-IsFitting_example :
    Adds
      (IsFitting window_60m (60 * minute) start)
      start
      (process_window pg delivers window_60m (60 * minute) start)
process_window-IsFitting_example =
    process_window-IsFitting pg delivers window_60m (60 * minute) start

no_second_reminder_example :
    Adds
      (λ n. any (is_repeat n) (run pg delivers moved start).sent ≡ false)
      (run pg delivers moved start)
      (process_window pg delivers window_60m (60 * minute) (run pg delivers moved start))
no_second_reminder_example =
    no_second_reminder pg delivers moved window_60m (60 * minute) start (λ n. refl) (refl, tt) refl
