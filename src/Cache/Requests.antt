-- ===== src/Cache/Requests.antt =====
-- The methods of app/internal/tasks/repository/redis/redis.go that change the cache, as one type, and
-- the time that passes between them.
use tasks_service.Prelude.{ℕ, ◌+◌, String, List, [], ◌∷◌, ◌<>◌}
use tasks_service.Tasks.Domain.{Task}
use tasks_service.Tasks.Reads.{TaskList}
use tasks_service.Cache.{
  set_task, delete_task, set_list, invalidate_user_lists, invalidate_user_task_caches,
  invalidate_tag_tasks,
}
use tasks_service.Cache.Redis.{Server}

-- The key of a list as build_cache_key and build_cache_key_with_tag begin it.
abbrev pub list_key : String → String
list_key rest = "tasks:user:" <> rest

pub data Request : Type 0 where
  cache_task : Task → Request
  drop_task : String → Request
  cache_list : String → List TaskList → Request
  drop_lists : String → Request
  drop_tasks : String → Request
  drop_tagged : String → Request
  wait : ℕ → Request

-- What is left of the server, whatever the reply.
unfoldable pub perform : Request → Server → Server
perform (cache_task task) w = (set_task task w).1
perform (drop_task id) w = (delete_task id w).1
perform (cache_list rest tasks) w = (set_list (list_key rest) tasks w).1
perform (drop_lists user) w = (invalidate_user_lists user w).1
perform (drop_tasks user) w = (invalidate_user_task_caches user w).1
perform (drop_tagged tag) w = (invalidate_tag_tasks tag w).1
perform (wait d) w = record w { now = w.now + d }

unfoldable pub serve : List Request → Server → Server
serve [] w = w
serve (r ∷ rest) w = serve rest (perform r w)
