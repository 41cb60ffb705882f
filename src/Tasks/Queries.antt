-- ===== src/Tasks/Queries.antt =====
-- The methods of app/internal/tasks/service/service.go that read tasks, from the cache and from the
-- database, those that only pass a call on, and those for shared tasks.
pub mod Fresh
mod Examples
use tasks_service.Prelude.{
  ℕ, Bool, true, false, String, Option, none, some, List, ◌==◌, if◌then◌else◌,
}
use tasks_service.Database.{Platform, World, Exec, Result, ok, err}
use tasks_service.Api.Sort.{Options}
use tasks_service.Api.Filter.{Field}
use tasks_service.Tasks.Domain.{Task, Subtask}
use tasks_service.Tasks.Tables.{Tables, Generators}
use tasks_service.Tasks.Subtasks
use tasks_service.Tasks.Filters.{Where}
use tasks_service.Tasks.Reads
use tasks_service.Tasks.Reads.{TaskList, Listed}
use tasks_service.Cache
use tasks_service.Cache.Redis.{Server, Cached}
use tasks_service.SharedTasks.Tables as Shared
use tasks_service.SharedTasks.Admin

-- The stores of the service.
pub record Stores : Type 0 where
  pub database : World Tables
  pub cache : Server

-- A call whose error the service logs and returns.
abbrev pub logged {ℓ} : {A : Type ℓ} → Exec Tables A → Exec Tables A
logged m w = m w

-- A cached task with its subtasks of now, if they can be read.
abbrev pub with_current :
    Server → Task → Result (List Subtask) × World Tables → Result (Task × Bool) × Stores
with_current c task (ok subtasks, w) =
    (ok (record task { subtasks = subtasks }, true), record { database = w; cache = c })
with_current c task (err e, w) = (ok (task, true), record { database = w; cache = c })

-- The task of the database, not from the cache.
abbrev pub from_database : Server → Result Task × World Tables → Result (Task × Bool) × Stores
from_database c (ok task, w) = (ok (task, false), record { database = w; cache = c })
from_database c (err e, w) = (err e, record { database = w; cache = c })

module _ (pg : Platform) (gen : Generators) where
  abbrev pub find_uncached : String → World Tables → Server → Result (Task × Bool) × Stores
  find_uncached id w c = from_database c (Reads.find_by_id pg id w)

  -- The rest of FindTask for the reply of the cache, in which an error is none.
  abbrev pub find_cached :
      String → World Tables → Option Task × Server → Result (Task × Bool) × Stores
  find_cached id w (none, c) = find_uncached id w c
  find_cached id w (some task, c) =
      if task.id == ""
      then find_uncached id w c
      else with_current c task (Subtasks.find_by_task pg gen id w)

  -- The task, and whether it comes from the cache.
  unfoldable pub find_task : String → Stores → Result (Task × Bool) × Stores
  find_task id s = find_cached id s.database (Cache.get_task id s.cache)

module _ (pg : Platform) where
  unfoldable pub find_tasks_by_tag : String → String → Exec Tables (List TaskList)
  find_tasks_by_tag user tag = logged (Reads.find_by_tag pg user tag)

  unfoldable pub admin_find_all_tasks : Exec Tables (List TaskList)
  admin_find_all_tasks = logged (Reads.find_all pg)

  unfoldable pub admin_find_all_filtered :
      String → String → String → String → Exec Tables (List TaskList)
  admin_find_all_filtered from to status priory =
      logged (Reads.find_all_filtered pg from to status priory)

  module _ (parse_time : String → Option ℕ)
      (refine : Where → String → List Listed → Option (List Listed)) where
    unfoldable pub find_tasks_by_user :
        String → Options → List Field → Exec Tables (Option (List TaskList))
    find_tasks_by_user user o fs = logged (Reads.find_by_user pg parse_time refine user o fs)

  unfoldable pub admin_soft_delete_shared : String → Exec Shared.Tables (String × String × String)
  admin_soft_delete_shared = Admin.admin_soft_delete_shared pg

  unfoldable pub acknowledge_admin_deletion_shared : String → String → Exec Shared.Tables (Unit {0})
  acknowledge_admin_deletion_shared = Admin.acknowledge_admin_deletion_shared pg

  unfoldable pub admin_restore_shared : String → Exec Shared.Tables (String × String)
  admin_restore_shared = Admin.admin_restore_shared pg

unfoldable pub set_task : Task → Cached (Unit {0})
set_task = Cache.set_task

unfoldable pub get_task : String → Cached Task
get_task = Cache.get_task

unfoldable pub delete_cached_task : String → Cached (Unit {0})
delete_cached_task = Cache.delete_task

unfoldable pub get_list : String → Cached (Option (List TaskList))
get_list = Cache.get_list

unfoldable pub set_list : String → List TaskList → Cached (Unit {0})
set_list = Cache.set_list

unfoldable pub invalidate_user_lists : String → Cached (Unit {0})
invalidate_user_lists = Cache.invalidate_user_lists
