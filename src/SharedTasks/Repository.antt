-- ===== src/SharedTasks/Repository.antt =====
-- The methods of app/internal/shared_tasks/repository/postgres/repository.go. The texts are those
-- that the code wraps a driver's error in. `rows.Err()` and `Scan` fail together with the call.
pub mod Statements
use tasks_service.Prelude.{
  ℕ, zero, suc, ◌+◌, Bool, true, false, String, Option, none, some, List, [], ◌∷◌, ◌++◌, ◌==◌, ◌&&◌,
  ◌||◌, map, nat_eq, is_empty, if◌then◌else◌,
}
use tasks_service.Database.{
  Platform, Exec, pure, raise, sql, transaction, ◌>>=◌, ◌>>◌, already_handled, no_rights, no_access,
  pending_addressee, no_subtask,
}
use tasks_service.SharedTasks.Domain.{SharedTask, SharedSubtask, SubtaskInput, UpdateInput}
use tasks_service.SharedTasks.Tables.{Tables, TaskRow, SubtaskRow}
use Statements.{
  select_detail, insert_task, insert_subtask, set_status, update_task, counter_task,
  delete_subtasks, select_task, delete_task, toggle_subtask, select_subtasks, select_by_user,
  select_all, select_subtasks_of,
}

-- `dueDateArg`: the empty text is nil.
abbrev pub due_date_arg : String → Option String
due_date_arg s = if s == "" then none else some s

abbrev pub default_priority : String → String
default_priority p = if p == "" then "red" else p

-- `tag.RowsAffected() == 0`
abbrev pub ensure_affected : ℕ → Exec Tables (Unit {0}) → Exec Tables (Unit {0})
ensure_affected n missing = if nat_eq n 0 then missing else pure tt

-- The map `idx` from the id of a task to its position, as the loop over the tasks fills it.
unfoldable pub build_index : ℕ → List SharedTask → (String → Option ℕ) → String → Option ℕ
build_index i [] idx = idx
build_index i (t ∷ rest) idx =
    build_index (suc i) rest (λ id. if id == t.id then some i else idx id)

-- tasks[i].Subtasks = append(tasks[i].Subtasks, s)
unfoldable pub append_at : Option ℕ → SharedSubtask → List SharedTask → List SharedTask
append_at none s tasks = tasks
append_at (some i) s [] = []
append_at (some zero) s (t ∷ rest) = record t { subtasks = t.subtasks ++ s ∷ [] } ∷ rest
append_at (some (suc i)) s (t ∷ rest) = t ∷ append_at (some i) s rest

-- The loop over the subtasks' rows.
unfoldable pub attach : (String → Option ℕ) → List SharedSubtask → List SharedTask → List SharedTask
attach idx [] tasks = tasks
attach idx (s ∷ rest) tasks = attach idx rest (append_at (idx s.shared_task_id) s tasks)

abbrev pub task_ids : List SharedTask → List String
task_ids = map (λ t. t.id)

abbrev pub partner_of : String → TaskRow → String
partner_of user row = if user == row.proposer_id then row.addressee_id else row.proposer_id

-- Who is told of the deletion, and of which title: nobody unless the task was accepted.
abbrev pub notice : String → TaskRow → String × String
notice user row = if row.status == "accepted" then (partner_of user row, row.title) else ("", "")

abbrev pub scan_toggled : Option SubtaskRow → Exec Tables SharedSubtask
scan_toggled none = raise no_subtask
scan_toggled (some s) = pure (record {
  id = s.id;
  shared_task_id = s.shared_task_id;
  title = s.title;
  assignee_id = s.assignee_id;
  assignee_name = "";
  is_done = s.is_done;
  order = s.order_num;
})

module _ (pg : Platform) where
  -- The loop that inserts the subtasks; `i` counts the ones that are skipped too.
  unfoldable pub insert_subtasks : String → String → ℕ → List SubtaskInput → Exec Tables (Unit {0})
  insert_subtasks what task i [] = pure tt
  insert_subtasks what task i (s ∷ rest) =
      let later = insert_subtasks what task (i + 1) rest in
      if s.title == "" || s.assignee_id == ""
      then later
      else do sql what (insert_subtask pg task s.title s.assignee_id i); later

  unfoldable pub propose :
      String → String → String → String → String → String → List SubtaskInput → Exec Tables String
  propose proposer addressee title desc priority due subtasks = transaction "commit tx" do
    task ← sql "insert shared_task" (
        insert_task pg proposer addressee title desc (default_priority priority) (due_date_arg due))
    insert_subtasks "insert shared_subtask" task 0 subtasks
    pure task

  unfoldable pub find_tasks_with_subtasks :
      (ℕ → ℕ → Tables → Option (List SharedTask × Tables)) → Exec Tables (List SharedTask)
  find_tasks_with_subtasks query = do
    tasks ← sql "query shared tasks" query
    if is_empty tasks then pure tasks else do
      rows ← sql "get subtasks" (select_subtasks_of pg (task_ids tasks))
      pure (attach (build_index 0 tasks (λ _. none)) rows tasks)

  unfoldable pub find_by_user : String → Exec Tables (List SharedTask)
  find_by_user user = find_tasks_with_subtasks (select_by_user pg user)

  unfoldable pub find_all : Exec Tables (List SharedTask)
  find_all = find_tasks_with_subtasks (select_all pg)

  -- The rest of `FindByID` for the row that `QueryRow` found; no row is a nil task and no error.
  unfoldable pub load_task : String → Option SharedTask → Exec Tables (Option SharedTask)
  load_task task none = pure none
  load_task task (some found) = do
    rows ← sql "get subtasks detail" (select_subtasks pg task)
    pure (some (record found { subtasks = rows }))

  unfoldable pub find_by_id : String → String → Exec Tables (Option SharedTask)
  find_by_id task user = do
    found ← sql "get shared task detail" (select_detail pg task user)
    load_task task found

  unfoldable pub respond : String → String → String → Exec Tables (Unit {0})
  respond task user status = do
    n ← sql "respond shared task" (set_status pg task status user)
    ensure_affected n (raise already_handled)

  -- `if input.Subtasks != nil { … }`: the subtasks are deleted and written anew.
  unfoldable pub replace_subtasks : String → Option (List SubtaskInput) → Exec Tables (Unit {0})
  replace_subtasks task none = pure tt
  replace_subtasks task (some subtasks) = do
    sql "delete subtasks" (delete_subtasks pg task)
    insert_subtasks "insert subtask" task 0 subtasks

  unfoldable pub update : String → String → UpdateInput → Exec Tables (Unit {0})
  update task user input = transaction "" do
    n ← sql "update shared_task" (
        update_task pg input.title input.description input.priority (due_date_arg input.due_date)
          task user)
    ensure_affected n (raise no_rights)
    replace_subtasks task input.subtasks

  unfoldable pub counter_propose : String → String → UpdateInput → Exec Tables (Unit {0})
  counter_propose task addressee input = transaction "" do
    n ← sql "counter propose" (
        counter_task pg input.title input.description input.priority (due_date_arg input.due_date)
          task addressee)
    ensure_affected n (raise already_handled)
    replace_subtasks task input.subtasks

  -- The rest of `Delete` for the row that was read.
  unfoldable pub delete_found : String → String → Option TaskRow → Exec Tables (String × String)
  delete_found task user none = raise no_access
  delete_found task user (some row) =
      if row.status == "pending" && user == row.addressee_id then raise pending_addressee else do
        n ← sql "delete shared_task" (delete_task pg task user)
        ensure_affected n (raise no_rights)
        pure (notice user row)

  unfoldable pub delete : String → String → Exec Tables (String × String)
  delete task user = do
    row ← sql "get shared task for delete" (select_task pg task user)
    delete_found task user row

  unfoldable pub toggle_subtask_done : String → String → Exec Tables SharedSubtask
  toggle_subtask_done subtask user = do
    s ← sql "toggle subtask" (toggle_subtask pg subtask user)
    scan_toggled s
