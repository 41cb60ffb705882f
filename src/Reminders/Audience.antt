-- ===== src/Reminders/Audience.antt =====
-- Whom the worker of app/internal/worker/reminder.go reminds of what.
use tasks_service.Prelude.{
  ℕ, ◌+◌, ◌-◌, ◌≡◌, refl, sym, ap, ◌∙◌, Bool, true, false, Bool-cases, inl, inr, ◌&&◌, ◌==◌, String,
  Option, none, some, List, [], ◌∷◌, ◌++◌, any, nat_eq, All, All-append, All-map, arith, eq_refl,
}
use mathlib.Core.List.{append-nil, append_assoc}
use tasks_service.Database.{Platform, sql}
use tasks_service.Tasks.Tables.{TaskRow}
use tasks_service.Reminders.{
  UserSubscription, ReminderWindow, TaskReminderInfo, is_due, is_active, with_chat, joined,
  due_tasks, find_tasks_due_for_reminder,
}
use tasks_service.Reminders.Worker.{
  System, Notification, minute, notification, remind, remind_all, process_window,
}

-- The task is the one of the row, with the row's title, deadline and user.
abbrev pub is_of_row : TaskReminderInfo → TaskRow → Bool
is_of_row i r =
    r.task_id == i.task_id
    && (r.user_id == i.user_id && (r.title == i.title && nat_eq r.due_date i.due_date))

abbrev pub has_chat : String → Option String → Bool
has_chat chat none = false
has_chat chat (some c) = c == chat

-- The user's subscription, active and with the chat.
abbrev pub is_served_by : ℕ → TaskReminderInfo → UserSubscription → Bool
is_served_by now i s =
    is_active now s && (s.user_id == i.user_id && has_chat i.telegram_chat_id s.telegram_chat_id)

abbrev pub is_due_row : ReminderWindow → ℕ → ℕ → TaskReminderInfo → TaskRow → Bool
is_due_row wd from to i r = is_due wd from to r && is_of_row i r

abbrev pub info_of : Notification → TaskReminderInfo
info_of n = record {
  task_id = n.task_id;
  title = n.task_title;
  due_date = n.due_date;
  user_id = n.user_id;
  telegram_chat_id = n.telegram_chat_id;
}

-- There is such a task, due and not reminded of, and such a subscription.
abbrev pub IsEntitled :
    ReminderWindow → ℕ → ℕ → ℕ → List UserSubscription → List TaskRow → TaskReminderInfo → Type 0
IsEntitled wd from to now subs rows i =
    (any (is_due_row wd from to i) rows ≡ true) × (any (is_served_by now i) subs ≡ true)

abbrev JoinedTo : ℕ → TaskRow → List UserSubscription → TaskReminderInfo → Type 0
JoinedTo now r subs i = (is_of_row i r ≡ true) × (any (is_served_by now i) subs ≡ true)

nat_eq_refl : (n : ℕ) → nat_eq n n ≡ true
nat_eq_refl n = ground arith

one_more :
    (now : ℕ) (r : TaskRow) (s : UserSubscription) (rest : List UserSubscription)
    (is : List TaskReminderInfo)
    → All (JoinedTo now r rest) is
    → All (JoinedTo now r (s ∷ rest)) is
unfolding any
one_more now r s rest is =
    All-map (JoinedTo now r rest) (JoinedTo now r (s ∷ rest)) is λ i h. (h.0, ground (arith, h.1))

chat_joined :
    (now : ℕ) (r : TaskRow) (s : UserSubscription) (rest : List UserSubscription)
    (c : Option String)
    → s.telegram_chat_id ≡ c
    → (s.user_id == r.user_id && is_active now s) ≡ true
    → All (JoinedTo now r (s ∷ rest)) (with_chat r c)
unfolding any
chat_joined now r s rest none e h = tt
chat_joined now r s rest (some c) e h = (
  (
    ground (arith, eq_refl r.task_id, eq_refl r.user_id, eq_refl r.title, nat_eq_refl r.due_date),
    rw e (ground (arith, h, eq_refl c)),
  ),
  tt,
)

joined_lem :
    (now : ℕ) (r : TaskRow) (subs : List UserSubscription)
    → All (JoinedTo now r subs) (joined now r subs)
unfolding joined
joined_lem now r [] = tt
joined_lem now r (s ∷ rest) = elim (Bool-cases (s.user_id == r.user_id && is_active now s)) [
  | inl h ↦ rw h (
      All-append (JoinedTo now r (s ∷ rest)) (with_chat r s.telegram_chat_id) (joined now r rest)
        (chat_joined now r s rest s.telegram_chat_id refl h)
        (one_more now r s rest (joined now r rest) (joined_lem now r rest)))
  | inr h ↦ rw h (one_more now r s rest (joined now r rest) (joined_lem now r rest))
]

module _ (wd : ReminderWindow) (from to now : ℕ) (subs : List UserSubscription) where
  pub due_tasks_lem :
      (rows : List TaskRow)
      → All (IsEntitled wd from to now subs rows) (due_tasks wd from to now subs rows)
  unfolding due_tasks any
  due_tasks_lem [] = tt
  due_tasks_lem (r ∷ rest) =
      let later =
        All-map (IsEntitled wd from to now subs rest) (IsEntitled wd from to now subs (r ∷ rest))
          (due_tasks wd from to now subs rest) (λ i h. (ground (arith, h.0), h.1))
          (due_tasks_lem rest) in
      elim (Bool-cases (is_due wd from to r)) [
        | inl due ↦ rw due (
            All-append (IsEntitled wd from to now subs (r ∷ rest)) (joined now r subs) _
              (All-map (JoinedTo now r subs) (IsEntitled wd from to now subs (r ∷ rest))
                (joined now r subs) (λ i h. (ground (arith, due, h.0), h.1))
                (joined_lem now r subs))
              later)
        | inr not_due ↦ rw not_due later
      ]

-- What is sent in addition, all of it with a property.
abbrev pub Adds : (Notification → Type 0) → System → System → Type 0
Adds P s t = (more : List Notification) × (t.sent ≡ s.sent ++ more) × All P more

Adds-nothing : (P : Notification → Type 0) (s : System) → Adds P s s
Adds-nothing P s = ([], sym (append-nil s.sent), tt)

Adds-next : (P : Notification → Type 0) (s t u : System) → Adds P s t → Adds P t u → Adds P s u
Adds-next P s t u (xs, e, h) (ys, f, g) =
    (xs ++ ys, f ∙ ap (λ v. v ++ ys) e ∙ append_assoc s.sent xs ys, All-append P xs ys h g)

module _ (pg : Platform) (delivers : ℕ → Bool) (P : Notification → Type 0) where
  remind-Adds :
      (wd : ReminderWindow) (i : TaskReminderInfo) (s : System)
      → P (notification wd i)
      → Adds P s (remind pg delivers wd i s)
  unfolding remind
  remind-Adds wd i s h = elim (Bool-cases (delivers s.posts)) [
    | inl d ↦ rw d (notification wd i ∷ [], refl, (h, tt))
    | inr d ↦ rw d ([], sym (append-nil s.sent), tt)
  ]

  pub remind_all-Adds :
      (wd : ReminderWindow) (is : List TaskReminderInfo) (s : System)
      → All (λ i. P (notification wd i)) is
      → Adds P s (remind_all pg delivers wd is s)
  unfolding remind_all
  remind_all-Adds wd [] s h = Adds-nothing P s
  remind_all-Adds wd (i ∷ is) s h =
      Adds-next P s (remind pg delivers wd i s)
        (remind_all pg delivers wd is (remind pg delivers wd i s)) (remind-Adds wd i s h.0)
        (remind_all-Adds wd is (remind pg delivers wd i s) h.1)

-- The notification is of a task in the table, not completed, with a deadline around `ahead` from
-- now and no mark for the window, and goes to the chat of an active subscription of the task's user.
abbrev pub IsFitting : ReminderWindow → ℕ → System → Notification → Type 0
IsFitting wd ahead s n =
    (n.window ≡ wd)
    × IsEntitled wd (s.database.now + (ahead - minute)) (s.database.now + (ahead + minute))
        s.database.now s.database.tables.subscriptions s.database.tables.tasks (info_of n)

module _ (pg : Platform) (delivers : ℕ → Bool) where
  -- Whatever fails, all that the worker sends when it processes a window is for a task that is not
  -- completed, has its deadline at most a minute before or after that far ahead, and is not marked
  -- for the window, and goes to the chat of an active subscription of the task's user.
  pub process_window-IsFitting :
      (wd : ReminderWindow) (ahead : ℕ) (s : System)
      → Adds (IsFitting wd ahead s) s (process_window pg delivers wd ahead s)
  unfolding process_window find_tasks_due_for_reminder sql
  process_window-IsFitting wd ahead s = elim (Bool-cases (s.database.fails s.database.calls)) [
    | inl down ↦ rw (down, sql) (Adds-nothing (IsFitting wd ahead s) s)
    | inr up ↦
        rw (up, sql)
          (remind_all-Adds pg delivers (IsFitting wd ahead s) wd _ _ (
            All-map _ _ _ (λ i h. (refl, h))
              (due_tasks_lem wd (s.database.now + (ahead - minute))
                (s.database.now + (ahead + minute)) s.database.now s.database.tables.subscriptions
                s.database.tables.tasks)))
  ]
