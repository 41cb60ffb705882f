-- ===== src/Tasks/Queries/Fresh.antt =====
-- What FindTask of app/internal/tasks/service/service.go returns for a task that SetTask has cached.
use tasks_service.Prelude.{
  ℕ, suc, ◌+◌, ◌*◌, ◌≡◌, refl, ◌∙◌, true, false, ◌==◌, String, Option, none, some, ◌∷◌, ltb, arith,
  eq_refl,
}
use tasks_service.Database.{Platform, World}
use tasks_service.Tasks.Domain.{Task, new_status}
use tasks_service.Tasks.Tables.{Tables, Generators}
use tasks_service.Tasks.Subtasks
use tasks_service.Tasks.Queries.{with_current, find_task}
use tasks_service.Cache.{hour, task_key, user_key, tag_command, set_task, get_task}
use tasks_service.Cache.Entries.{CacheTask, to_cache_task, from_cache_task}
use tasks_service.Cache.Redis.{
  Keys, Server, set, sadd, json_task, run_all, effect, pipeline, get, after_call,
}
use tasks_service.Cache.Tracking.{entry}
use tasks_service.Cache.Tracking.KeyNames.{user_key-ne, tag_key-ne}

tagged_key :
    (id : String) (tag : Option String) (now : ℕ) (keys : Keys)
    → (run_all now (tag_command id tag) keys).1 (task_key id) ≡ keys (task_key id)
unfolding run_all
tagged_key id none now keys = refl
tagged_key id (some tag) now keys = ground (arith, tag_key-ne id tag)

stored :
    (task : Task) (now : ℕ) (keys : Keys)
    → (run_all now
          (set (task_key task.id) (json_task (to_cache_task task)) (24 * hour)
            ∷ sadd (user_key task.user_id) task.id
            ∷ tag_command task.id task.tag_id)
          keys).1
        (task_key task.id)
      ≡ entry (json_task (to_cache_task task)) (some (now + 24 * hour))
unfolding run_all effect
stored task now keys =
    tagged_key task.id task.tag_id now _
    ∙ ground (arith, user_key-ne task.id task.user_id, eq_refl (task_key task.id))

-- Later, by `d`.
abbrev pub later : ℕ → Server → Server
later d c = record c { now = c.now + d }

-- The task as it was cached: its status is read as a status, and it has no marks of reminders.
abbrev pub as_cached : Task → Task
as_cached task = record task {
  status = new_status task.status;
  reminder_60m_sent_at = none;
  reminder_15m_sent_at = none;
  reminder_5m_sent_at = none;
}

set_task_lem :
    (task : Task) (c : Server)
    → c.cut c.calls ≡ none
    → (set_task task c).1 ≡ record (after_call c) {
      keys =
          (run_all c.now
            (set (task_key task.id) (json_task (to_cache_task task)) (24 * hour)
              ∷ sadd (user_key task.user_id) task.id
              ∷ tag_command task.id task.tag_id)
            c.keys).1;
    }
unfolding set_task pipeline
set_task_lem task c up = rw (up, pipeline) refl

get_task_lem :
    (id : String) (v : CacheTask) (t : ℕ) (c : Server)
    → c.cut c.calls ≡ none
    → c.keys (task_key id) ≡ entry (json_task v) (some t)
    → ltb c.now t ≡ true
    → get_task id c ≡ (some (from_cache_task v), after_call c)
unfolding get_task get
get_task_lem id v t c up e alive = rw (up, get, e, alive) refl

get_task-set_task :
    (task : Task) (c : Server) (d : ℕ)
    → c.cut c.calls ≡ none
    → c.cut (suc c.calls) ≡ none
    → ltb d (24 * hour) ≡ true
    → get_task task.id (later d (set_task task c).1)
      ≡ (some (as_cached task), after_call (later d (set_task task c).1))
unfolding to_cache_task from_cache_task
get_task-set_task task c d up up' soon = rw (set_task_lem task c up) (
    get_task_lem task.id (to_cache_task task) (c.now + 24 * hour) _ up' (stored task c.now c.keys)
      (ground (arith, soon)))

-- Within 24 hours after a SetTask that succeeds, on a cache that answers, FindTask returns the task
-- as it was cached, whatever has become of its row: its status is not compared with the deadline.
-- Only the subtasks are those of now, if they can be read.
pub find_task-set_task :
    (pg : Platform) (gen : Generators) (task : Task) (w : World Tables) (c : Server) (d : ℕ)
    → c.cut c.calls ≡ none
    → c.cut (suc c.calls) ≡ none
    → (task.id == "") ≡ false
    → ltb d (24 * hour) ≡ true
    → find_task pg gen task.id (record { database = w; cache = later d (set_task task c).1 })
      ≡ with_current
          (after_call (later d (set_task task c).1))
          (as_cached task)
          (Subtasks.find_by_task pg gen task.id w)
unfolding find_task
find_task-set_task pg gen task w c d up up' named soon =
    rw (get_task-set_task task c d up up' soon, named) refl
