-- ===== src/Cache/Entries.antt =====
-- The values that app/internal/tasks/repository/redis/redis.go writes as JSON, and their conversions.
use tasks_service.Prelude.{ℕ, Bool, String, Option, List}
use tasks_service.Tasks.Domain.{Task, Subtask, new_status}
use tasks_service.Tasks.Reads.{TaskList}

-- cacheTask; a cacheSubtask has the fields of a Subtask.
pub record CacheTask : Type 0 where
  pub id : String
  pub title : String
  pub description : String
  pub priority : String
  pub status : String
  pub due_date : ℕ
  pub user_id : String
  pub tag_id : Option String
  pub tag_name : String
  pub created_at : ℕ
  pub subtasks : List Subtask

-- cacheListTasks
pub record CacheListTask : Type 0 where
  pub id : String
  pub title : String
  pub priority : String
  pub status : String
  pub due_date : ℕ
  pub user_id : String
  pub tag_id : Option String
  pub tag_name : Option String
  pub admin_deleted : Bool
  pub admin_deleted_at : Option ℕ

abbrev pub to_cache_list_task : TaskList → CacheListTask
to_cache_list_task t = record {
  id = t.id;
  title = t.title;
  priority = t.priory;
  status = t.status;
  due_date = t.due_date;
  user_id = t.user_id;
  tag_id = t.tag_id;
  tag_name = t.tag_name;
  admin_deleted = t.admin_deleted;
  admin_deleted_at = t.admin_deleted_at;
}

abbrev pub from_cache_list_task : CacheListTask → TaskList
from_cache_list_task c = record {
  id = c.id;
  title = c.title;
  description = "";
  status = c.status;
  priory = c.priority;
  due_date = c.due_date;
  user_id = c.user_id;
  tag_id = c.tag_id;
  tag_name = c.tag_name;
  admin_deleted = c.admin_deleted;
  admin_deleted_at = c.admin_deleted_at;
}

unfoldable pub to_cache_task : Task → CacheTask
to_cache_task t = record {
  id = t.id;
  title = t.title;
  description = t.description;
  priority = t.priority;
  status = t.status;
  due_date = t.due_date;
  user_id = t.user_id;
  tag_id = t.tag_id;
  tag_name = t.tag_name;
  created_at = t.created_at;
  subtasks = t.subtasks;
}

unfoldable pub from_cache_task : CacheTask → Task
from_cache_task c = record {
  id = c.id;
  title = c.title;
  description = c.description;
  priority = c.priority;
  status = new_status c.status;
  due_date = c.due_date;
  user_id = c.user_id;
  tag_id = c.tag_id;
  tag_name = c.tag_name;
  created_at = c.created_at;
  subtasks = c.subtasks;
  reminder_60m_sent_at = Option.none;
  reminder_15m_sent_at = Option.none;
  reminder_5m_sent_at = Option.none;
}
