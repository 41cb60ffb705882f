-- ===== src/SharedTasks/Repository/Statements.antt =====
-- The SQL statements of app/internal/shared_tasks/repository/postgres/repository.go, each as the
-- function on the tables that PostgreSQL computes: none is a statement that fails.
use Prim.Native.String
use mathlib.Core.Option
use tasks_service.Prelude.{
  ◌>>=◌, ℕ, Bool, false, String, Option, none, some, List, [], ◌∷◌, ◌++◌, ◌==◌, ◌&&◌, ◌||◌, map,
  leb, if◌then◌else◌, find, select, count, update_where, any, not,
}
use tasks_service.Database.{Platform}
use tasks_service.SharedTasks.Domain.{SharedTask, SharedSubtask}
use tasks_service.SharedTasks.Tables.{
  Tables, TaskRow, SubtaskRow, or_false, or_blank, has_id, has_participant, belongs_to, is_pending,
}

-- A value that fits a VARCHAR(n) column.
abbrev pub fits : ℕ → String → Bool
fits n s = leb (String.count s) n

-- The rows with the smaller `order_num` first.
insert_by_order : SubtaskRow → List SubtaskRow → List SubtaskRow
insert_by_order s [] = s ∷ []
insert_by_order s (r ∷ rest) =
    let later = insert_by_order s rest in
    if leb s.order_num r.order_num then s ∷ r ∷ rest else r ∷ later

unfoldable pub order_by_num : List SubtaskRow → List SubtaskRow
unfolding insert_by_order
order_by_num [] = []
order_by_num (s ∷ rest) = insert_by_order s (order_by_num rest)

-- ORDER BY created_at DESC
insert_by_created : TaskRow → List TaskRow → List TaskRow
insert_by_created s [] = s ∷ []
insert_by_created s (r ∷ rest) =
    let later = insert_by_created s rest in
    if leb r.created_at s.created_at then s ∷ r ∷ rest else r ∷ later

unfoldable pub order_by_created : List TaskRow → List TaskRow
unfolding insert_by_created
order_by_created [] = []
order_by_created (s ∷ rest) = insert_by_created s (order_by_created rest)

-- `scanSharedTask` of a row joined with the names of both users.
unfoldable pub scan_shared_task : Tables → TaskRow → SharedTask
scan_shared_task t r = record {
  id = r.id;
  proposer_id = r.proposer_id;
  addressee_id = r.addressee_id;
  title = r.title;
  description = r.description;
  priority = r.priority;
  status = r.status;
  due_date = r.due_date;
  created_at = r.created_at;
  proposer_name = or_blank (t.names r.proposer_id);
  addressee_name = or_blank (t.names r.addressee_id);
  subtasks = [];
  admin_deleted = or_false r.admin_deleted;
}

-- `scanSharedSubtask` of a row joined with the name of the assignee.
unfoldable pub scan_shared_subtask : Tables → SubtaskRow → SharedSubtask
scan_shared_subtask t s = record {
  id = s.id;
  shared_task_id = s.shared_task_id;
  title = s.title;
  assignee_id = s.assignee_id;
  assignee_name = or_blank (t.names s.assignee_id);
  is_done = s.is_done;
  order = s.order_num;
}

-- WHERE id=… AND (proposer_id=… OR addressee_id=…)
abbrev pub by_participant : String → String → TaskRow → Bool
by_participant id user r = has_id id r && has_participant user r

-- WHERE id=… AND addressee_id=… AND status='pending'
abbrev pub by_addressee : String → String → TaskRow → Bool
by_addressee id user r = has_id id r && (r.addressee_id == user && is_pending r)

-- The subtask belongs to the row, and the row is one that `delete_task` deletes.
abbrev pub owns_removed : String → String → SubtaskRow → TaskRow → Bool
owns_removed id user s r = by_participant id user r && has_id s.shared_task_id r

-- The subtask belongs to the row, and the user takes part in the row's task.
abbrev pub is_open_to : String → SubtaskRow → TaskRow → Bool
is_open_to user s r = has_id s.shared_task_id r && has_participant user r

abbrev pub may_toggle : List TaskRow → String → String → SubtaskRow → Bool
may_toggle tasks id user s = s.id == id && any (is_open_to user s) tasks

abbrev pub flip : SubtaskRow → SubtaskRow
flip s = record s { is_done = not s.is_done }

-- NOT (admin_deleted AND user_ack), for a participant
abbrev pub is_shown_to : String → TaskRow → Bool
is_shown_to user r = has_participant user r && not (or_false r.admin_deleted && or_false r.user_ack)

abbrev pub overwrite : String → String → String → Option ℕ → ℕ → TaskRow → TaskRow
overwrite title desc priority due now r = record r {
  title = title;
  description = desc;
  priority = priority;
  due_date = due;
  updated_at = now;
}

abbrev pub swap_roles : TaskRow → TaskRow
swap_roles r = record r { proposer_id = r.addressee_id; addressee_id = r.proposer_id }

-- UPDATE shared_tasks SET … WHERE `hit`: a row that does not fit its columns fails the statement.
abbrev pub update_rows :
    String → (TaskRow → Bool) → (TaskRow → TaskRow) → Tables → Option (ℕ × Tables)
update_rows priority hit change t =
    if fits 10 priority || not (any hit t.tasks)
    then some (count hit t.tasks, record t { tasks = update_where hit change t.tasks })
    else none

module _ (pg : Platform) where
  -- A nil `dueDateArg` is NULL.
  unfoldable pub read_due : Option String → Option (Option ℕ)
  read_due none = some none
  read_due (some s) = do d ← pg.timestamp s; some (some d)

  abbrev pub new_task : String → String → String → String → String → Option ℕ → ℕ → ℕ → TaskRow
  new_task proposer addressee title desc priority due now n = record {
    id = pg.gen_uuid n;
    proposer_id = proposer;
    addressee_id = addressee;
    title = title;
    description = desc;
    priority = priority;
    due_date = due;
    status = "pending";
    created_at = now;
    updated_at = now;
    admin_deleted = some false;
    admin_deleted_at = none;
    user_ack = some false;
  }

  -- INSERT INTO shared_tasks … RETURNING id; the id is the primary key.
  unfoldable pub insert_task :
      String
      → String
      → String
      → String
      → String
      → Option String
      → ℕ
      → ℕ
      → Tables
      → Option (String × Tables)
  insert_task proposer addressee title desc priority due now n t = do
    p ← pg.uuid proposer
    a ← pg.uuid addressee
    d ← read_due due
    if fits 10 priority && not (any (has_id (pg.gen_uuid n)) t.tasks)
        then some (
          pg.gen_uuid n,
          record t { tasks = t.tasks ++ new_task p a title desc priority d now n ∷ [] },
        )
        else none

  -- INSERT INTO shared_subtasks …; the foreign key names a row of shared_tasks.
  unfoldable pub insert_subtask :
      String → String → String → ℕ → ℕ → ℕ → Tables → Option (Unit {0} × Tables)
  insert_subtask task title assignee order_num now n t = do
    id ← pg.uuid task
    a ← pg.uuid assignee
    if any (has_id id) t.tasks
        then some (
          tt,
          record t {
            subtasks =
                t.subtasks
                ++ record {
                  id = pg.gen_uuid n;
                  shared_task_id = id;
                  title = title;
                  assignee_id = a;
                  is_done = false;
                  order_num = order_num;
                }
                  ∷ [];
          },
        )
        else none

  -- UPDATE shared_tasks SET status=… WHERE id AND addressee_id AND status='pending': the rows affected.
  unfoldable pub set_status : String → String → String → ℕ → ℕ → Tables → Option (ℕ × Tables)
  set_status task status user now n t = do
    id ← pg.uuid task
    u ← pg.uuid user
    some (
      count (by_addressee id u) t.tasks,
      record t {
        tasks =
            update_where (by_addressee id u) (λ r. record r { status = status; updated_at = now })
              t.tasks;
      },
    )

  -- The UPDATE of `Update`: by either participant.
  unfoldable pub update_task :
      String
      → String
      → String
      → Option String
      → String
      → String
      → ℕ
      → ℕ
      → Tables
      → Option (ℕ × Tables)
  update_task title desc priority due task user now n t = do
    d ← read_due due
    id ← pg.uuid task
    u ← pg.uuid user
    update_rows priority (by_participant id u) (overwrite title desc priority d now) t

  -- The UPDATE of `CounterPropose`: by the addressee of a pending task, and the roles change.
  unfoldable pub counter_task :
      String
      → String
      → String
      → Option String
      → String
      → String
      → ℕ
      → ℕ
      → Tables
      → Option (ℕ × Tables)
  counter_task title desc priority due task user now n t = do
    d ← read_due due
    id ← pg.uuid task
    u ← pg.uuid user
    update_rows priority (by_addressee id u)
        (λ r. swap_roles (overwrite title desc priority d now r)) t

  -- DELETE FROM shared_subtasks WHERE shared_task_id=…
  unfoldable pub delete_subtasks : String → ℕ → ℕ → Tables → Option (Unit {0} × Tables)
  delete_subtasks task now n t = do
    id ← pg.uuid task
    some (tt, record t { subtasks = select (λ s. not (belongs_to id s)) t.subtasks })

  -- SELECT … WHERE id AND (proposer_id OR addressee_id)
  unfoldable pub select_task : String → String → ℕ → ℕ → Tables → Option (Option TaskRow × Tables)
  select_task task user now n t = do
    id ← pg.uuid task
    u ← pg.uuid user
    some (find (by_participant id u) t.tasks, t)

  -- The SELECT of `FindByID`, joined with the names of both users.
  unfoldable pub select_detail :
      String → String → ℕ → ℕ → Tables → Option (Option SharedTask × Tables)
  select_detail task user now n t = do
    id ← pg.uuid task
    u ← pg.uuid user
    some (Option.map (scan_shared_task t) (find (by_participant id u) t.tasks), t)

  -- DELETE FROM shared_tasks WHERE …; ON DELETE CASCADE takes the subtasks of the deleted rows.
  unfoldable pub delete_task : String → String → ℕ → ℕ → Tables → Option (ℕ × Tables)
  delete_task task user now n t = do
    id ← pg.uuid task
    u ← pg.uuid user
    some (
      count (by_participant id u) t.tasks,
      record t {
        tasks = select (λ r. not (by_participant id u r)) t.tasks;
        subtasks = select (λ s. not (any (owns_removed id u s) t.tasks)) t.subtasks;
      },
    )

  -- UPDATE shared_subtasks SET is_done = NOT is_done FROM shared_tasks … RETURNING …
  unfoldable pub toggle_subtask :
      String → String → ℕ → ℕ → Tables → Option (Option SubtaskRow × Tables)
  toggle_subtask subtask user now n t = do
    id ← pg.uuid subtask
    u ← pg.uuid user
    some (
      Option.map flip (find (may_toggle t.tasks id u) t.subtasks),
      record t { subtasks = update_where (may_toggle t.tasks id u) flip t.subtasks },
    )

  -- The rows of a task's subtasks, as `FindByID` reads them.
  unfoldable pub select_subtasks : String → ℕ → ℕ → Tables → Option (List SharedSubtask × Tables)
  select_subtasks task now n t = do
    id ← pg.uuid task
    some (map (scan_shared_subtask t) (order_by_num (select (belongs_to id) t.subtasks)), t)

  -- SELECT … WHERE (proposer_id OR addressee_id) AND NOT (admin_deleted AND user_ack)
  unfoldable pub select_by_user : String → ℕ → ℕ → Tables → Option (List SharedTask × Tables)
  select_by_user user now n t = do
    u ← pg.uuid user
    some (map (scan_shared_task t) (order_by_created (select (is_shown_to u) t.tasks)), t)

  unfoldable pub select_all : ℕ → ℕ → Tables → Option (List SharedTask × Tables)
  select_all now n t = some (map (scan_shared_task t) (order_by_created t.tasks), t)

  -- WHERE shared_task_id = ANY(ids) ORDER BY order_num
  unfoldable pub select_subtasks_of :
      List String → ℕ → ℕ → Tables → Option (List SharedSubtask × Tables)
  select_subtasks_of ids now n t = some (
    map (scan_shared_subtask t)
        (order_by_num (select (λ s. any (λ id. belongs_to id s) ids) t.subtasks)),
    t,
  )
