-- ===== src/Cache/Specification.antt =====
-- What app/internal/tasks/repository/redis/redis.go promises of cached tasks, without keys, times and
-- connections.
pub mod Kept
use tasks_service.Prelude.{
  Bool, true, false, ◌≡◌, ◌==◌, String, Option, none, some, List, [], ◌∷◌, if◌then◌else◌,
}
use tasks_service.Tasks.Domain.{Task}
use tasks_service.Cache.{set_task, delete_task}
use tasks_service.Cache.Redis.{Server}
use tasks_service.Cache.Requests.{
  Request, cache_task, drop_task, cache_list, drop_lists, drop_tasks, drop_tagged, wait,
}

-- The last task that was cached under an id and not dropped. The cache may have forgotten it.
abbrev pub Stored : Type 0
Stored = String → Option Task

abbrev pub insert : Task → Stored → Stored
insert task m id = if id == task.id then some task else m id

abbrev pub remove : String → Stored → Stored
remove gone m id = if id == gone then none else m id

-- SetTask and DeleteTask.
abbrev pub is_own : Request → Bool
is_own (cache_task task) = true
is_own (drop_task id) = true
is_own (cache_list rest tasks) = false
is_own (drop_lists user) = false
is_own (drop_tasks user) = false
is_own (drop_tagged tag) = false
is_own (wait d) = false

-- What a request may do, given whether it succeeds: only one that fails may leave things as they
-- are, and one that fails may have had its effect.
pub data Allowed : Bool → Request → Stored → Stored → Type 0 where
  stored : (ok : Bool) (task : Task) (m : Stored) → Allowed ok (cache_task task) m (insert task m)
  not_stored : (task : Task) (m : Stored) → Allowed false (cache_task task) m m
  dropped : (ok : Bool) (id : String) (m : Stored) → Allowed ok (drop_task id) m (remove id m)
  not_dropped : (id : String) (m : Stored) → Allowed false (drop_task id) m m
  kept : (ok : Bool) (r : Request) (m : Stored) → is_own r ≡ false → Allowed ok r m m

pub data Runs : List (Request × Bool) → Stored → Stored → Type 0 where
  finished : (m : Stored) → Runs [] m m
  next :
      (ok : Bool) (r : Request) (rest : List (Request × Bool)) (m m' m'' : Stored)
      → Allowed ok r m m'
      → Runs rest m' m''
      → Runs ((r, ok) ∷ rest) m m''

abbrev pub is_ok {ℓ} : {A : Type ℓ} → Option A → Bool
is_ok none = false
is_ok (some a) = true

abbrev pub reply : Request → Server → Bool
reply (cache_task task) w = is_ok (set_task task w).0
reply (drop_task id) w = is_ok (delete_task id w).0
reply (cache_list rest tasks) w = true
reply (drop_lists user) w = true
reply (drop_tasks user) w = true
reply (drop_tagged tag) w = true
reply (wait d) w = true
