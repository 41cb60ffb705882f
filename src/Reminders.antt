-- ===== src/Reminders.antt =====
-- app/internal/tasks/repository/postgres/subscription.go and app/internal/tasks/service/subscription.go:
-- the subscriptions of users, and which tasks are due for a reminder.
pub mod Worker
pub mod Sent
pub mod Repeats
pub mod Audience
mod Examples
use tasks_service.Prelude.{
  ℕ, ◌+◌, Bool, true, false, not, ◌&&◌, ◌==◌, String, Option, none, some, List, [], ◌∷◌, ◌++◌, any,
  find, select, map, update_where, leb, ltb, or_else, if◌then◌else◌, ◌>>=◌ as and_then,
}
use tasks_service.Database.{Platform, World, Exec, Result, ok, err, pure, raise, sql, driver, ◌>>=◌}
use tasks_service.Tasks.Tables.{TaskRow, has_task_id}

-- A row of user_subscriptions. A chat's id is its decimal text.
pub record UserSubscription : Type 0 where
  pub user_id : String
  pub name : String
  pub has_subscription : Bool
  pub expires_at : Option ℕ
  pub telegram_chat_id : Option String
  pub updated_at : ℕ

-- The tables tasks and user_subscriptions.
pub record Tables : Type 0 where
  pub tasks : List TaskRow
  pub subscriptions : List UserSubscription

pub data ReminderWindow : Type 0 where
  window_60m window_15m window_5m : ReminderWindow

pub record TaskReminderInfo : Type 0 where
  pub task_id : String
  pub title : String
  pub due_date : ℕ
  pub user_id : String
  pub telegram_chat_id : String

abbrev pub has_user : String → UserSubscription → Bool
has_user user s = s.user_id == user

-- ON CONFLICT (user_id) DO UPDATE: a blank name and a chat that is missing keep the stored ones.
abbrev pub merge : ℕ → UserSubscription → UserSubscription → UserSubscription
merge now sub old = record {
  user_id = old.user_id;
  name = if sub.name == "" then old.name else sub.name;
  has_subscription = sub.has_subscription;
  expires_at = sub.expires_at;
  telegram_chat_id = or_else sub.telegram_chat_id old.telegram_chat_id;
  updated_at = now;
}

-- The column of reminderSentCol.
abbrev pub sent_at : ReminderWindow → TaskRow → Option ℕ
sent_at window_60m r = r.reminder_60m_sent_at
sent_at window_15m r = r.reminder_15m_sent_at
sent_at window_5m r = r.reminder_5m_sent_at

abbrev pub mark_sent : ReminderWindow → ℕ → TaskRow → TaskRow
mark_sent window_60m now r = record r { reminder_60m_sent_at = some now }
mark_sent window_15m now r = record r { reminder_15m_sent_at = some now }
mark_sent window_5m now r = record r { reminder_5m_sent_at = some now }

abbrev pub is_missing {ℓ} : {A : Type ℓ} → Option A → Bool
is_missing none = true
is_missing (some a) = false

-- A NULL `expires_at` is no time after now.
abbrev pub is_after : ℕ → Option ℕ → Bool
is_after now none = false
is_after now (some t) = ltb now t

abbrev pub is_active : ℕ → UserSubscription → Bool
is_active now s = s.has_subscription && is_after now s.expires_at

-- The conditions on the task.
abbrev pub is_due : ReminderWindow → ℕ → ℕ → TaskRow → Bool
is_due wd from to r =
    not (r.status == "3") && (leb from r.due_date && leb r.due_date to && is_missing (sent_at wd r))

-- The row of the result for a task and a subscription, where it has one.
abbrev pub with_chat : TaskRow → Option String → List TaskReminderInfo
with_chat r none = []
with_chat r (some chat) =
    record {
      task_id = r.task_id;
      title = r.title;
      due_date = r.due_date;
      user_id = r.user_id;
      telegram_chat_id = chat;
    }
    ∷ []

-- JOIN user_subscriptions s ON s.user_id = t.user_id
unfoldable pub joined : ℕ → TaskRow → List UserSubscription → List TaskReminderInfo
joined now r [] = []
joined now r (s ∷ rest) =
    let others = joined now r rest in
    if s.user_id == r.user_id && is_active now s
    then with_chat r s.telegram_chat_id ++ others
    else others

unfoldable pub due_tasks :
    ReminderWindow → ℕ → ℕ → ℕ → List UserSubscription → List TaskRow → List TaskReminderInfo
due_tasks wd from to now subs [] = []
due_tasks wd from to now subs (r ∷ rest) =
    let others = due_tasks wd from to now subs rest in
    if is_due wd from to r then joined now r subs ++ others else others

module _ (pg : Platform) where
  unfoldable pub upsert_row : UserSubscription → ℕ → ℕ → Tables → Option (Unit {0} × Tables)
  upsert_row sub now n t = and_then (pg.uuid sub.user_id) λ user.
      let fresh : UserSubscription = record sub { user_id = user; updated_at = now } in
      some (
        tt,
        record t {
          subscriptions =
              if any (has_user user) t.subscriptions
              then update_where (has_user user) (merge now sub) t.subscriptions
              else t.subscriptions ++ fresh ∷ [];
        },
      )

  unfoldable pub upsert_subscription : UserSubscription → Exec Tables (Unit {0})
  upsert_subscription sub = sql "upsert subscription" (upsert_row sub)

  unfoldable pub select_subscription :
      String → ℕ → ℕ → Tables → Option (Option UserSubscription × Tables)
  select_subscription user now n t =
      and_then (pg.uuid user) λ u. some (find (has_user u) t.subscriptions, t)

  -- pgx reports a missing row with an error of its own, not with sql.ErrNoRows, which the method
  -- looks for.
  abbrev pub scan_subscription : Option UserSubscription → Exec Tables UserSubscription
  scan_subscription none = raise (driver "get subscription")
  scan_subscription (some s) = pure s

  unfoldable pub get_subscription : String → Exec Tables UserSubscription
  get_subscription user = do
    found ← sql "get subscription" (select_subscription user)
    scan_subscription found

  -- IsActive, on the reply of GetSubscription.
  abbrev pub is_active_reply : Result UserSubscription × World Tables → Bool × World Tables
  is_active_reply (err e, w) = (false, w)
  is_active_reply (ok s, w) = (is_active w.now s, w)

  unfoldable pub is_active_user : String → World Tables → Bool × World Tables
  is_active_user user w = is_active_reply (get_subscription user w)

  unfoldable pub mark_row : String → ReminderWindow → ℕ → ℕ → Tables → Option (Unit {0} × Tables)
  mark_row task wd now n t =
      and_then (pg.uuid task) λ id.
        some (tt, record t { tasks = update_where (has_task_id id) (mark_sent wd now) t.tasks })

  unfoldable pub mark_reminder_sent : String → ReminderWindow → Exec Tables (Unit {0})
  mark_reminder_sent task wd = sql "mark reminder sent" (mark_row task wd)

unfoldable pub find_tasks_due_for_reminder :
    ℕ → ℕ → ReminderWindow → Exec Tables (List TaskReminderInfo)
find_tasks_due_for_reminder from to wd =
    sql "find tasks due for reminder"
      λ now n t. some (due_tasks wd from to now t.subscriptions t.tasks, t)
