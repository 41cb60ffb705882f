-- ===== src/Tasks/Service.antt =====
-- The methods of app/internal/tasks/service/service.go that change tasks and their subtasks. Logging is
-- left out.
use tasks_service.Prelude.{Bool, String, Option, none, some, List, if◌then◌else◌}
use tasks_service.Database.{
  Platform, World, Exec, Result, ok, err, bad_transition, pure, raise, ◌>>=◌, ◌>>◌,
}
use tasks_service.Tasks.Domain.{Task, Subtask, has_subtasks, status_completed, can_transition_to}
use tasks_service.Tasks.Tables.{Tables, Generators}
use tasks_service.Tasks.Repository
use tasks_service.Tasks.Repository.{UpdatePatch}
use tasks_service.Tasks.Subtasks
use tasks_service.Tasks.Admin
use tasks_service.Tasks.Reads

-- A patch of the status alone.
abbrev pub status_patch : String → UpdatePatch
status_patch s = record {
  title = none;
  description = none;
  status = some s;
  priority = none;
  due_date = none;
  tag_name = none;
}

-- A call whose error is only logged.
abbrev pub ignore {ℓ} : {A : Type ℓ} → Exec Tables A → World Tables → World Tables
ignore m w = (m w).1

module _ (pg : Platform) (gen : Generators) where
  unfoldable pub create_task : Task → Exec Tables (Unit {0})
  create_task task = do
    Repository.create pg gen task
    if has_subtasks task then Subtasks.create_subtasks pg gen task.id task.subtasks else pure tt

  unfoldable pub create_task_batch : List Task → Exec Tables (Unit {0})
  create_task_batch = Repository.create_batch pg gen

  -- The check of `UpdateTask`: the task is read, and its own method is asked.
  unfoldable pub check_transition : String → Option String → Exec Tables (Unit {0})
  check_transition id none = pure tt
  check_transition id (some status) = do
    current ← Reads.find_by_id pg id
    if can_transition_to current status then pure tt else raise bad_transition

  unfoldable pub update_task : String → UpdatePatch → Exec Tables Task
  update_task id patch = check_transition id patch.status >> Repository.update pg gen id patch

  unfoldable pub delete_task : String → Exec Tables (Unit {0})
  delete_task = Repository.delete pg gen

  unfoldable pub delete_task_batch : List String → Exec Tables (Unit {0})
  delete_task_batch = Repository.delete_batch pg gen

  unfoldable pub add_subtask : String → String → String → Exec Tables Subtask
  add_subtask = Subtasks.create_subtask pg gen

  -- What follows the answer of AreAllDone: its error, and that of the update, are only logged.
  abbrev pub complete_if : String → Result Bool × World Tables → World Tables
  complete_if task (err e, w) = w
  complete_if task (ok all_done, w) =
      if all_done
      then ignore (Repository.update pg gen task (status_patch status_completed)) w
      else w

  -- The rest of ToggleSubtaskDone for the subtask that was toggled.
  abbrev pub auto_complete : Subtask → Exec Tables Subtask
  auto_complete s w =
      if s.is_done
      then (ok s, complete_if s.task_id (Subtasks.are_all_done pg gen s.task_id w))
      else (ok s, w)

  unfoldable pub toggle_subtask_done : String → String → Exec Tables Subtask
  toggle_subtask_done subtask owner = Subtasks.toggle_done pg gen subtask owner >>= auto_complete

  unfoldable pub delete_subtask : String → String → Exec Tables (Unit {0})
  delete_subtask = Subtasks.delete_subtask pg gen

  unfoldable pub update_subtask : String → String → String → Exec Tables (Unit {0})
  update_subtask = Subtasks.update_subtask pg gen

  unfoldable pub admin_soft_delete : String → Exec Tables String
  admin_soft_delete = Admin.admin_soft_delete pg

  unfoldable pub acknowledge_admin_deletion : String → String → Exec Tables (Unit {0})
  acknowledge_admin_deletion = Admin.acknowledge_admin_deletion pg

  unfoldable pub admin_restore : String → Exec Tables String
  admin_restore = Admin.admin_restore pg
