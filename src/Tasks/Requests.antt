-- ===== src/Tasks/Requests.antt =====
-- The calls that change tasks and their subtasks, as one type: the theorems range over sequences of
-- them.
use tasks_service.Prelude.{String, List, [], ◌∷◌}
use tasks_service.Database.{Platform, World, Exec, pure, ◌>>=◌}
use tasks_service.Tasks.Domain.{Task}
use tasks_service.Tasks.Tables.{Tables, Generators}
use tasks_service.Tasks.Repository.{UpdatePatch}
use tasks_service.Tasks.Service

pub data Request : Type 0 where
  create : Task → Request
  create_batch : List Task → Request
  update : String → UpdatePatch → Request
  delete : String → Request
  delete_batch : List String → Request
  add_subtask : String → String → String → Request
  toggle : String → String → Request
  delete_subtask : String → String → Request
  rename_subtask : String → String → String → Request
  soft_delete : String → Request
  acknowledge : String → String → Request
  restore : String → Request

abbrev pub discard {ℓ} : {A : Type ℓ} → Exec Tables A → Exec Tables (Unit {0})
discard m = m >>= λ _. pure tt

module _ (pg : Platform) (gen : Generators) where
  -- One request, whatever it replies.
  unfoldable pub perform : Request → Exec Tables (Unit {0})
  perform (create task) = Service.create_task pg gen task
  perform (create_batch tasks) = Service.create_task_batch pg gen tasks
  perform (update task patch) = discard (Service.update_task pg gen task patch)
  perform (delete task) = Service.delete_task pg gen task
  perform (delete_batch tasks) = Service.delete_task_batch pg gen tasks
  perform (add_subtask task owner title) = discard (Service.add_subtask pg gen task owner title)
  perform (toggle subtask owner) = discard (Service.toggle_subtask_done pg gen subtask owner)
  perform (delete_subtask subtask owner) = Service.delete_subtask pg gen subtask owner
  perform (rename_subtask subtask owner title) = Service.update_subtask pg gen subtask owner title
  perform (soft_delete task) = discard (Service.admin_soft_delete pg gen task)
  perform (acknowledge task user) = Service.acknowledge_admin_deletion pg gen task user
  perform (restore task) = discard (Service.admin_restore pg gen task)

  -- Requests one after another; a request that fails ends only itself.
  unfoldable pub serve : List Request → World Tables → World Tables
  serve [] w = w
  serve (r ∷ rest) w = serve rest (perform r w).1
