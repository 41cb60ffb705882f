-- ===== src/Cache.antt =====
-- app/internal/tasks/repository/redis/redis.go: the cache of tasks and of lists of tasks.
pub mod Redis
pub mod Entries
pub mod Tracking
pub mod Requests
pub mod Specification
pub mod Refinement
mod Examples
use tasks_service.Prelude.{
  ℕ, ◌*◌, Bool, true, false, not, ◌==◌, ◌&&◌, String, Option, none, some, List, [], ◌∷◌, ◌++◌, ◌<>◌,
  map, cut, split, is_empty, if◌then◌else◌,
}
use tasks_service.Tasks.Domain.{Task}
use tasks_service.Tasks.Reads.{TaskList}
use tasks_service.Cache.Entries.{
  CacheListTask, to_cache_list_task, from_cache_list_task, to_cache_task, from_cache_task,
}
use tasks_service.Cache.Redis.{
  Value, json_task, json_list, Command, set, sadd, expire, Cached, Server, pipeline, get, smembers,
  delete_keys,
}

abbrev pub hour : ℕ
hour = 3600000000000

abbrev pub task_key : String → String
task_key id = "task:" <> id

abbrev pub user_key : String → String
user_key user = "user_tasks:" <> user

abbrev pub tag_key : String → String
tag_key tag = "tag_tasks:" <> tag

abbrev pub list_keys_of : String → String
list_keys_of user = "user_list_keys:" <> user

-- `task.TagID != nil && *task.TagID != ""`
abbrev pub tag_command : String → Option String → List Command
tag_command id none = []
tag_command id (some tag) = if tag == "" then [] else sadd (tag_key tag) id ∷ []

unfoldable pub set_task : Task → Cached (Unit {0})
set_task task = pipeline (
    set (task_key task.id) (json_task (to_cache_task task)) (24 * hour)
    ∷ sadd (user_key task.user_id) task.id
    ∷ tag_command task.id task.tag_id)

-- A missing key and a text that is no task are errors.
abbrev pub read_task : Option (Option Value) → Option Task
read_task none = none
read_task (some none) = none
read_task (some (some v)) = elim v [ json_task c ↦ some (from_cache_task c) | _ ↦ none ]

unfoldable pub get_task : String → Cached Task
get_task id w = let (reply, w') = get (task_key id) w in (read_task reply, w')

unfoldable pub delete_task : String → Cached (Unit {0})
delete_task id = delete_keys (task_key id ∷ [])

-- A missing key is no error, and gives no list.
abbrev pub read_list : Option (Option Value) → Option (Option (List TaskList))
read_list none = none
read_list (some none) = some none
read_list (some (some v)) = elim v [
  | json_list l ↦ some (some (map from_cache_list_task l))
  | _ ↦ none
]

unfoldable pub get_list : String → Cached (Option (List TaskList))
get_list key w = let (reply, w') = get key w in (read_list reply, w')

abbrev before_cut : String → Option (String × String) → String
before_cut s none = s
before_cut s (some (base, rest)) = base

abbrev tracking_key : List String → Option String
tracking_key (kind ∷ owner ∷ user ∷ rest) =
    if kind == "tasks" && owner == "user" then some (list_keys_of user) else none
tracking_key parts = none

-- userListKey; none is the blank result.
unfoldable pub user_list_key : String → Option String
user_list_key key = tracking_key (split 58 (before_cut key (cut 59 key)))

abbrev pub track_commands : String → Option String → List Command
track_commands key none = []
track_commands key (some tracking) = sadd tracking key ∷ expire tracking (25 * hour) ∷ []

unfoldable pub set_list : String → List TaskList → Cached (Unit {0})
set_list key tasks = pipeline (
    set key (json_list (map to_cache_list_task tasks)) (24 * hour)
    ∷ track_commands key (user_list_key key))

-- What follows SMEMBERS: the keys that the members stand for are deleted, and the set.
abbrev pub delete_members :
    (String → String) → String → Option (List String) × Server → Option (Unit {0}) × Server
delete_members key_of tracking (none, w) = (none, w)
delete_members key_of tracking (some ms, w) =
    if is_empty ms then (some tt, w) else delete_keys (map key_of ms ++ tracking ∷ []) w

unfoldable pub invalidate_user_lists : String → Cached (Unit {0})
invalidate_user_lists user w =
    delete_members (λ k. k) (list_keys_of user) (smembers (list_keys_of user) w)

unfoldable pub invalidate_user_task_caches : String → Cached (Unit {0})
invalidate_user_task_caches user w =
    delete_members task_key (user_key user) (smembers (user_key user) w)

unfoldable pub invalidate_tag_tasks : String → Cached (Unit {0})
invalidate_tag_tasks tag w = delete_members task_key (tag_key tag) (smembers (tag_key tag) w)
