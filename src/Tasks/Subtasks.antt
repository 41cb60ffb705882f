-- ===== src/Tasks/Subtasks.antt =====
-- The subtasks' methods of app/internal/tasks/repository/postgres/postgres.go.
use tasks_service.Prelude.{
  ℕ, suc, Bool, false, not, String, Option, none, some, List, [], ◌∷◌, ◌++◌, ◌==◌, ◌&&◌, any, count,
  select, find, update_where, leb, nat_eq, is_empty, map, if◌then◌else◌,
}
use mathlib.Core.Option
use tasks_service.Database.{Platform, Exec, no_subtask, no_access, pure, raise, sql, ◌>>=◌}
use tasks_service.Tasks.Domain.{Subtask}
use tasks_service.Tasks.Tables.{TaskRow, SubtaskRow, Tables, Generators, has_task_id, is_of_task}
use tasks_service.Tasks.Repository.{scan_row}

abbrev pub subtask_model_to_entity : SubtaskRow → Subtask
subtask_model_to_entity s = record {
  id = s.id;
  task_id = s.task_id;
  title = s.title;
  is_done = s.is_done;
  order = s.order_num;
}

-- FROM tasks t WHERE s.id = $1 AND s.task_id = t.task_id AND t.user_id = $2
abbrev pub is_owned : List TaskRow → String → String → SubtaskRow → Bool
is_owned tasks id user s =
    s.id == id && any (λ (r : TaskRow). r.task_id == s.task_id && r.user_id == user) tasks

abbrev pub toggle : SubtaskRow → SubtaskRow
toggle s = record s { is_done = not s.is_done }

-- COALESCE(MAX(order_num) + 1, 0)
unfoldable pub next_order : String → List SubtaskRow → ℕ
next_order task [] = 0
next_order task (s ∷ rest) =
    let later = next_order task rest in
    if is_of_task task s then (if leb later s.order_num then suc s.order_num else later) else later

-- ORDER BY order_num
unfoldable pub insert_by_order : SubtaskRow → List SubtaskRow → List SubtaskRow
insert_by_order s [] = s ∷ []
insert_by_order s (q ∷ rest) =
    let later = insert_by_order s rest in
    if leb s.order_num q.order_num then s ∷ q ∷ rest else q ∷ later

unfoldable pub order_by_num : List SubtaskRow → List SubtaskRow
order_by_num [] = []
order_by_num (s ∷ rest) = insert_by_order s (order_by_num rest)

module _ (pg : Platform) (gen : Generators) where
  abbrev with_id {ℓ} : {A : Type ℓ} → String → (String → Option A) → Option A
  with_id s f = elim (pg.uuid s) [ none ↦ none | some id ↦ f id ]

  -- The rows of the INSERT, `i` counting them.
  unfoldable pub new_subtasks : String → ℕ → ℕ → List Subtask → List SubtaskRow
  new_subtasks task n i [] = []
  new_subtasks task n i (s ∷ rest) =
      record {
        id = gen.row_uuid n i;
        task_id = task;
        title = s.title;
        is_done = false;
        order_num = i;
      }
      ∷ new_subtasks task n (suc i) rest

  -- The foreign key asks for the task.
  unfoldable pub insert_subtasks :
      String → List Subtask → ℕ → ℕ → Tables → Option (Unit {0} × Tables)
  insert_subtasks task subtasks now n t = with_id task λ id.
      if any (has_task_id id) t.tasks
      then some (tt, record t { subtasks = t.subtasks ++ new_subtasks id n 0 subtasks })
      else none

  unfoldable pub create_subtasks : String → List Subtask → Exec Tables (Unit {0})
  create_subtasks task subtasks =
      if is_empty subtasks
      then pure tt
      else sql "batch insert subtasks" (insert_subtasks task subtasks)

  -- INSERT … SELECT … FROM tasks WHERE task_id = … AND user_id = … RETURNING …
  unfoldable pub insert_subtask :
      String → String → String → ℕ → ℕ → Tables → Option (Option SubtaskRow × Tables)
  insert_subtask task owner title now n t = with_id task λ id. with_id owner λ user.
      let row : SubtaskRow = record {
        id = gen.row_uuid n 0;
        task_id = id;
        title = title;
        is_done = false;
        order_num = next_order id t.subtasks;
      } in
      if any (λ (r : TaskRow). r.task_id == id && r.user_id == user) t.tasks
      then some (some row, record t { subtasks = t.subtasks ++ row ∷ [] })
      else some (none, t)

  abbrev pub scan_created : Option SubtaskRow → Exec Tables Subtask
  scan_created none = raise no_access
  scan_created (some s) = pure (subtask_model_to_entity s)

  unfoldable pub create_subtask : String → String → String → Exec Tables Subtask
  create_subtask task owner title = do
    row ← sql "create subtask" (insert_subtask task owner title)
    scan_created row

  unfoldable pub select_subtasks : String → ℕ → ℕ → Tables → Option (List Subtask × Tables)
  select_subtasks task now n t =
      with_id task λ id.
        some (map subtask_model_to_entity (order_by_num (select (is_of_task id) t.subtasks)), t)

  unfoldable pub find_by_task : String → Exec Tables (List Subtask)
  find_by_task task = sql "find subtasks" (select_subtasks task)

  unfoldable pub toggle_row : String → String → ℕ → ℕ → Tables → Option (Option SubtaskRow × Tables)
  toggle_row subtask owner now n t = with_id subtask λ id. with_id owner λ user. some (
    Option.map toggle (find (is_owned t.tasks id user) t.subtasks),
    record t { subtasks = update_where (is_owned t.tasks id user) toggle t.subtasks },
  )

  unfoldable pub toggle_done : String → String → Exec Tables Subtask
  toggle_done subtask owner = do
    found ← sql "toggle subtask" (toggle_row subtask owner)
    s ← scan_row "toggle subtask" found
    pure (subtask_model_to_entity s)

  abbrev pub is_open_of : String → SubtaskRow → Bool
  is_open_of task s = is_of_task task s && not s.is_done

  unfoldable pub count_open : String → ℕ → ℕ → Tables → Option (ℕ × Tables)
  count_open task now n t = with_id task λ id. some (count (is_open_of id) t.subtasks, t)

  unfoldable pub are_all_done : String → Exec Tables Bool
  are_all_done task = do n ← sql "check subtasks done" (count_open task); pure (nat_eq n 0)

  unfoldable pub delete_row : String → String → ℕ → ℕ → Tables → Option (ℕ × Tables)
  delete_row subtask owner now n t = with_id subtask λ id. with_id owner λ user. some (
    count (is_owned t.tasks id user) t.subtasks,
    record t { subtasks = select (λ s. not (is_owned t.tasks id user s)) t.subtasks },
  )

  abbrev pub ensure_subtask : ℕ → Exec Tables (Unit {0})
  ensure_subtask n = if nat_eq n 0 then raise no_subtask else pure tt

  unfoldable pub delete_subtask : String → String → Exec Tables (Unit {0})
  delete_subtask subtask owner = do
    n ← sql "delete subtask" (delete_row subtask owner)
    ensure_subtask n

  unfoldable pub rename_row : String → String → String → ℕ → ℕ → Tables → Option (ℕ × Tables)
  rename_row subtask owner title now n t = with_id subtask λ id. with_id owner λ user. some (
    count (is_owned t.tasks id user) t.subtasks,
    record t {
      subtasks =
          update_where (is_owned t.tasks id user) (λ s. record s { title = title }) t.subtasks;
    },
  )

  unfoldable pub update_subtask : String → String → String → Exec Tables (Unit {0})
  update_subtask subtask owner title = do
    n ← sql "update subtask" (rename_row subtask owner title)
    ensure_subtask n
