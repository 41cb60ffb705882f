-- ===== src/Tasks/Repository.antt =====
-- The methods of app/internal/tasks/repository/postgres/postgres.go that change tasks. The texts are
-- those that the code wraps a driver's error in.
use tasks_service.Prelude.{
  ℕ, Bool, true, false, not, String, Option, none, some, List, [], ◌∷◌, ◌++◌, ◌==◌, ◌&&◌, ◌||◌, any,
  count, find, update_where, ltb, nat_eq, is_empty, is_blank, or_else, if◌then◌else◌,
}
use mathlib.Core.Option
use tasks_service.Database.{
  Platform, Exec, driver, not_found, invalid_uuid, no_fields, pure, raise, sql, transaction, ◌>>=◌,
  ◌>>◌,
}
use tasks_service.Tasks.Domain.{Task, new_status, storage_code}
use tasks_service.Tasks.Tables.{TaskRow, TagRow, Tables, Generators, has_task_id, is_priory}
use tasks_service.Tasks.Statements.{
  has_name, has_name_of, create_tagged, create_simple, insert_batch, insert_batch_events,
  delete_task, delete_tasks, insert_update,
}

-- port.UpdatePatch
pub record UpdatePatch : Type 0 where
  pub title : Option String
  pub description : Option String
  pub status : Option String
  pub priority : Option String
  pub due_date : Option ℕ
  pub tag_name : Option String

abbrev pub or_keep {ℓ} : {A : Type ℓ} → Option A → A → A
or_keep none a = a
or_keep (some b) a = b

-- SET …, with the tag that was resolved.
abbrev pub patch_row : UpdatePatch → Option String → TaskRow → TaskRow
patch_row p tag r = record r {
  title = or_keep p.title r.title;
  description = or_keep p.description r.description;
  due_date = or_keep p.due_date r.due_date;
  priory = or_keep p.priority r.priory;
  status = or_keep (Option.map storage_code p.status) r.status;
  tag_id = or_else tag r.tag_id;
}

abbrev pub is_some {ℓ} : {A : Type ℓ} → Option A → Bool
is_some none = false
is_some (some a) = true

-- len(setClauses) == 0
abbrev pub is_empty_patch : UpdatePatch → Option String → Bool
is_empty_patch p tag = not (
    is_some p.title
    || (is_some p.description
        || (is_some p.due_date || (is_some p.priority || (is_some p.status || is_some tag)))))

-- The status that a reader sees: a task that is not completed and whose deadline is over.
abbrev pub shown_status : ℕ → String → ℕ → String
shown_status now status due =
    if not (status == "completed") && (not (nat_eq due 0) && ltb due now)
    then "not_completed"
    else status

abbrev pub tag_id_is : String → TagRow → Bool
tag_id_is id r = r.tag_id == id

-- COALESCE(dt.name, ct.name) of the joined tags, as the text in the task: blank for NULL.
abbrev pub joined_name : Tables → Option String → String
joined_name t none = ""
joined_name t (some id) =
    elim (or_else (find (tag_id_is id) t.default_tags) (find (tag_id_is id) t.custom_tags)) [
      | none ↦ ""
      | some r ↦ r.name
    ]

-- modelToEntity of a row, without the times of the reminders, which `Update` does not read.
abbrev pub model_to_entity : ℕ → Tables → TaskRow → Task
model_to_entity now t r = record {
  id = r.task_id;
  title = r.title;
  description = r.description;
  priority = r.priory;
  status = shown_status now (new_status r.status) r.due_date;
  due_date = r.due_date;
  user_id = r.user_id;
  tag_id = r.tag_id;
  tag_name = joined_name t r.tag_id;
  created_at = r.created_at;
  subtasks = [];
  reminder_60m_sent_at = none;
  reminder_15m_sent_at = none;
  reminder_5m_sent_at = none;
}

-- `Scan` of the row that a query found; no row is an error of the driver.
abbrev pub scan_row {ℓ} : {A : Type ℓ} → String → Option A → Exec Tables A
scan_row what none = raise (driver what)
scan_row what (some a) = pure a

abbrev pub ensure_affected : ℕ → Exec Tables (Unit {0})
ensure_affected n = if nat_eq n 0 then raise not_found else pure tt

module _ (pg : Platform) (gen : Generators) where
  unfoldable pub create : Task → Exec Tables (Unit {0})
  create task =
      if not (is_blank task.tag_name)
      then sql "create task" (create_tagged pg gen task)
      else sql "create task" (create_simple pg gen task)

  unfoldable pub create_batch : List Task → Exec Tables (Unit {0})
  create_batch tasks =
      if is_empty tasks
      then pure tt
      else transaction "create batch commit" (
          sql "create batch insert tasks" (insert_batch pg gen tasks)
          >> sql "create batch insert outbox" (insert_batch_events pg gen tasks))

  abbrev select_by {ℓ} :
      {A : Type ℓ} → String → (String → Tables → A) → ℕ → ℕ → Tables → Option (A × Tables)
  select_by s f now n t = elim (pg.uuid s) [ none ↦ none | some id ↦ some (f id t, t) ]

  unfoldable pub select_user : String → ℕ → ℕ → Tables → Option (Option String × Tables)
  select_user task =
      select_by task λ id t. Option.map (λ (r : TaskRow). r.user_id) (find (has_task_id id) t.tasks)

  unfoldable pub select_default_tag : String → ℕ → ℕ → Tables → Option (Option String × Tables)
  select_default_tag name now n t =
      some (Option.map (λ (r : TagRow). r.tag_id) (find (has_name name) t.default_tags), t)

  unfoldable pub select_custom_tag :
      String → String → ℕ → ℕ → Tables → Option (Option String × Tables)
  select_custom_tag name user =
      select_by user
        λ u t. Option.map (λ (r : TagRow). r.tag_id) (find (has_name_of name u) t.custom_tags)

  -- INSERT INTO custom_tag … RETURNING tag_id: fails for a name that the user has.
  unfoldable pub insert_custom_tag : String → String → ℕ → ℕ → Tables → Option (String × Tables)
  insert_custom_tag name user now n t = elim (pg.uuid user) [
    | none ↦ none
    | some u ↦
        if any (has_name_of name u) t.custom_tags
        then none
        else some (
          gen.row_uuid n 0,
          record t {
            custom_tags =
                t.custom_tags
                ++ record { tag_id = gen.row_uuid n 0; name = name; user_id = u } ∷ [];
          },
        )
  ]

  abbrev pub or_insert_tag : String → String → Option String → Exec Tables String
  or_insert_tag name user none = sql "resolve tag" (insert_custom_tag name user)
  or_insert_tag name user (some id) = pure id

  abbrev pub or_custom_tag : String → String → Option String → Exec Tables String
  or_custom_tag name user none =
      sql "resolve tag" (select_custom_tag name user) >>= or_insert_tag name user
  or_custom_tag name user (some id) = pure id

  -- The tag of the patch: a default tag, else the owner's, else a new one of the owner.
  unfoldable pub resolve_tag : String → String → Exec Tables String
  resolve_tag task name = do
    found ← sql "get user_id for task" (select_user task)
    user ← scan_row "get user_id for task" found
    tag ← sql "resolve tag" (select_default_tag name)
    or_custom_tag name user tag

  abbrev pub patch_tag : String → Option String → Exec Tables (Option String)
  patch_tag task none = pure none
  patch_tag task (some name) =
      if is_blank name then pure none else (resolve_tag task name >>= λ tag. pure (some tag))

  -- UPDATE tasks SET … WHERE task_id = …
  unfoldable pub update_task :
      String → UpdatePatch → Option String → ℕ → ℕ → Tables → Option (ℕ × Tables)
  update_task task p tag now n t = elim (pg.uuid task) [
    | none ↦ none
    | some id ↦
        if is_priory (or_keep p.priority "red") || not (any (has_task_id id) t.tasks)
        then some (
          count (has_task_id id) t.tasks,
          record t { tasks = update_where (has_task_id id) (patch_row p tag) t.tasks },
        )
        else none
  ]

  unfoldable pub select_updated : String → ℕ → ℕ → Tables → Option (Option Task × Tables)
  select_updated task now =
      select_by task (λ id t. Option.map (model_to_entity now t) (find (has_task_id id) t.tasks))
        now

  -- What `Update` does once the tag is resolved.
  unfoldable pub write_patch : String → UpdatePatch → Option String → Exec Tables Task
  write_patch task p tag = if is_empty_patch p tag then raise no_fields else do
    n ← sql "exec update task" (update_task task p tag)
    ensure_affected n
    found ← sql "fetch updated task" (select_updated task)
    updated ← scan_row "fetch updated task" found
    sql "insert outbox event" (insert_update pg gen task updated)
    pure updated

  unfoldable pub update : String → UpdatePatch → Exec Tables Task
  update task p =
      if not (pg.parse_uuid task)
      then raise invalid_uuid
      else transaction "commit update tx" (patch_tag task p.tag_name >>= write_patch task p)

  unfoldable pub delete : String → Exec Tables (Unit {0})
  delete task =
      if not (pg.parse_uuid task)
      then raise invalid_uuid
      else do n ← sql "delete task" (delete_task pg gen task); ensure_affected n

  unfoldable pub delete_batch : List String → Exec Tables (Unit {0})
  delete_batch tasks =
      if is_empty tasks then pure tt else sql "delete batch" (delete_tasks pg gen tasks)
