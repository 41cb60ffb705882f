-- ===== src/Tasks/Statements.antt =====
-- The SQL statements of app/internal/tasks/repository/postgres/postgres.go that change tables, each
-- as the function on the tables that PostgreSQL computes: none is a statement that fails.
use tasks_service.Prelude.{
  ◌>>=◌, ℕ, suc, Bool, false, not, String, Option, none, some, List, [], ◌∷◌, ◌++◌, ◌==◌, ◌&&◌,
  ◌||◌, any, count, select, find, leb, or_else, if◌then◌else◌,
}
use tasks_service.Database.{Platform}
use tasks_service.Outbox.{TaskPayload}
use tasks_service.Tasks.Domain.{Task, storage_code}
use tasks_service.Tasks.Tables.{
  TaskRow, TagRow, EventRow, Tables, Generators, has_task_id, clashes, is_priory,
}

abbrev pub default_tag_id : String
default_tag_id = "a1b2c3d4-e5f6-4a7b-8c9d-0e1f2a3b4c5d"

-- toTaskPayload
abbrev pub to_task_payload : Task → TaskPayload
to_task_payload t = record {
  id = t.id;
  title = t.title;
  description = t.description;
  priority = t.priority;
  status = t.status;
  due_date = t.due_date;
  user_id = t.user_id;
  tag_id = t.tag_id;
  tag_name = t.tag_name;
  created_at = t.created_at;
}

abbrev pub has_name : String → TagRow → Bool
has_name name r = r.name == name

abbrev pub has_name_of : String → String → TagRow → Bool
has_name_of name user r = r.name == name && r.user_id == user

-- The CTE tag_resolved: a default tag, else a tag of the user.
abbrev pub tag_resolved : String → String → Tables → Option TagRow
tag_resolved name user t =
    or_else (find (has_name name) t.default_tags) (find (has_name_of name user) t.custom_tags)

-- The CTE tag_upserted, for the tag that was resolved: the tag's id, and the user's tags after it.
abbrev pub tag_upserted :
    String → String → String → List TagRow → Option TagRow → String × List TagRow
tag_upserted fresh name user tags none =
    (fresh, tags ++ record { tag_id = fresh; name = name; user_id = user } ∷ [])
tag_upserted fresh name user tags (some r) = (r.tag_id, tags)

-- INSERT INTO tasks: fails for an id that is taken and for a priority outside the CHECK.
abbrev pub insert_row : TaskRow → List TaskRow → Option (List TaskRow)
insert_row r rows =
    if any (has_task_id r.task_id) rows || not (is_priory r.priory)
    then none
    else some (rows ++ r ∷ [])

-- INSERT INTO outbox_events
abbrev pub insert_event : EventRow → List EventRow → Option (List EventRow)
insert_event e rows = if any (clashes e) rows then none else some (rows ++ e ∷ [])

abbrev pub created_event : String → String → Task → ℕ → EventRow
created_event event_id id task now = record {
  id = event_id;
  aggregate_id = id;
  event_type = "created";
  event_data = to_task_payload task;
  created_at = now;
  version = 0;
}

abbrev pub new_row : String → String → String → Task → ℕ → TaskRow
new_row id user tag task now = record {
  task_id = id;
  title = task.title;
  description = task.description;
  status = storage_code task.status;
  priory = task.priority;
  due_date = task.due_date;
  created_at = now;
  user_id = user;
  tag_id = some tag;
  admin_deleted = some false;
  admin_deleted_at = none;
  user_ack = some false;
  reminder_60m_sent_at = none;
  reminder_15m_sent_at = none;
  reminder_5m_sent_at = none;
}

-- `CASE status::text WHEN '1' THEN …`
abbrev pub status_name : String → String
status_name s =
    if s == "1"
    then "not_completed"
    else if s == "2"
    then "in_progress"
    else if s == "3"
    then "completed"
    else s

abbrev pub or_empty : Option String → String
or_empty none = ""
or_empty (some s) = s

-- The event of a row that is deleted, with its `json_build_object`.
abbrev pub deleted_event : String → ℕ → TaskRow → EventRow
deleted_event event_id now r = record {
  id = event_id;
  aggregate_id = r.task_id;
  event_type = "deleted";
  event_data = record {
    id = r.task_id;
    title = r.title;
    description = r.description;
    priority = r.priory;
    status = status_name r.status;
    due_date = r.due_date;
    user_id = r.user_id;
    tag_id = some (or_empty r.tag_id);
    tag_name = "";
    created_at = r.created_at;
  };
  created_at = now;
  version = 0;
}

-- The events of the deleted rows, each with an id of its own; fails when one of them does.
unfoldable pub insert_deleted :
    (ℕ → String) → ℕ → ℕ → List TaskRow → List EventRow → Option (List EventRow)
insert_deleted id i now [] outbox = some outbox
insert_deleted id i now (r ∷ rest) outbox = do
  after ← insert_event (deleted_event (id i) now r) outbox
  insert_deleted id (suc i) now rest after

-- DELETE FROM tasks WHERE …, which deletes the subtasks too, and the insert of the events.
abbrev pub delete_rows : (ℕ → String) → ℕ → (TaskRow → Bool) → Tables → Option Tables
delete_rows id now hit t = do
  outbox ← insert_deleted id 0 now (select hit t.tasks) t.outbox
  some (record t {
    tasks = select (λ r. not (hit r)) t.tasks;
    subtasks = select (λ s. not (any (λ r. hit r && has_task_id s.task_id r) t.tasks)) t.subtasks;
    outbox = outbox;
  })

abbrev pub is_update_of : String → EventRow → Bool
is_update_of id e = e.aggregate_id == id && e.event_type == "update"

-- COALESCE((SELECT MAX(version) + 1 …), 0)
unfoldable pub next_version : String → List EventRow → ℕ
next_version id [] = 0
next_version id (e ∷ rest) =
    let later = next_version id rest in
    if is_update_of id e then (if leb later e.version then suc e.version else later) else later

abbrev pub update_event : String → String → Task → ℕ → ℕ → EventRow
update_event event_id id task now version = record {
  id = event_id;
  aggregate_id = id;
  event_type = "update";
  event_data = to_task_payload task;
  created_at = now;
  version = version;
}

-- Every id is read, or the statement fails.
unfoldable pub read_ids : (String → Option String) → List String → Option (List String)
read_ids uuid [] = some []
read_ids uuid (s ∷ rest) = do id ← uuid s; ids ← read_ids uuid rest; some (id ∷ ids)

module _ (pg : Platform) (gen : Generators) where
  -- The statement of `Create` for a task with a tag name.
  unfoldable pub create_tagged : Task → ℕ → ℕ → Tables → Option (Unit {0} × Tables)
  create_tagged task now n t = do
    user ← pg.uuid task.user_id
    id ← pg.uuid task.id
    let (tag, tags) =
        tag_upserted (gen.row_uuid n 0) task.tag_name user t.custom_tags
          (tag_resolved task.tag_name user t)
    rows ← insert_row (new_row id user tag task now) t.tasks
    outbox ← insert_event (created_event (gen.new_uuid n) id task now) t.outbox
    some (tt, record t { tasks = rows; custom_tags = tags; outbox = outbox })

  -- COALESCE($9::uuid, …)
  unfoldable pub read_tag : Option String → Option String
  read_tag none = some default_tag_id
  read_tag (some s) = pg.uuid s

  -- The statement of `Create` for a task without a tag name.
  unfoldable pub create_simple : Task → ℕ → ℕ → Tables → Option (Unit {0} × Tables)
  create_simple task now n t = do
    user ← pg.uuid task.user_id
    id ← pg.uuid task.id
    tag ← read_tag task.tag_id
    rows ← insert_row (new_row id user tag task now) t.tasks
    outbox ← insert_event (created_event (gen.new_uuid n) id task now) t.outbox
    some (tt, record t { tasks = rows; outbox = outbox })

  -- INSERT INTO tasks … VALUES …, and the events of the batch: one row after another.
  unfoldable pub insert_tasks : List Task → ℕ → ℕ → List TaskRow → Option (List TaskRow)
  insert_tasks [] now n rows = some rows
  insert_tasks (task ∷ rest) now n rows = do
    user ← pg.uuid task.user_id
    id ← pg.uuid task.id
    tag ← read_tag (if or_empty task.tag_id == "" then none else task.tag_id)
    after ← insert_row (new_row id user tag task now) rows
    insert_tasks rest now n after

  unfoldable pub insert_events : List Task → ℕ → ℕ → ℕ → List EventRow → Option (List EventRow)
  insert_events [] i now n outbox = some outbox
  insert_events (task ∷ rest) i now n outbox = do
    id ← pg.uuid task.id
    after ← insert_event (created_event (gen.row_uuid n i) id task now) outbox
    insert_events rest (suc i) now n after

  unfoldable pub insert_batch : List Task → ℕ → ℕ → Tables → Option (Unit {0} × Tables)
  insert_batch tasks now n t = do
    rows ← insert_tasks tasks now n t.tasks
    some (tt, record t { tasks = rows })

  unfoldable pub insert_batch_events : List Task → ℕ → ℕ → Tables → Option (Unit {0} × Tables)
  insert_batch_events tasks now n t = do
    outbox ← insert_events tasks 0 now n t.outbox
    some (tt, record t { outbox = outbox })

  -- The statement of `Delete`; the number of its events is the number of rows that it reports.
  unfoldable pub delete_task : String → ℕ → ℕ → Tables → Option (ℕ × Tables)
  delete_task task now n t = do
    id ← pg.uuid task
    after ← delete_rows (λ i. gen.new_uuid n) now (has_task_id id) t
    some (count (has_task_id id) t.tasks, after)

  unfoldable pub delete_tasks : List String → ℕ → ℕ → Tables → Option (Unit {0} × Tables)
  delete_tasks tasks now n t = do
    ids ← read_ids pg.uuid tasks
    after ← delete_rows (gen.row_uuid n) now (λ r. any (λ id. id == r.task_id) ids) t
    some (tt, after)

  -- The last statement of `Update`.
  unfoldable pub insert_update : String → Task → ℕ → ℕ → Tables → Option (Unit {0} × Tables)
  insert_update task updated now n t = do
    id ← pg.uuid task
    outbox ←
        insert_event (update_event (gen.new_uuid n) id updated now (next_version id t.outbox))
          t.outbox
    some (tt, record t { outbox = outbox })
