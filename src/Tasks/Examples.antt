-- ===== src/Tasks/Examples.antt =====
-- Runs of the requests on tasks at concrete tables, and the theorems applied to them.
use tasks_service.Prelude.{
  find, update_where, nat_eq, ◌≡◌, refl, true, false, not, ◌==◌, any, select, count, is_blank, none,
  some, List, [], ◌∷◌, if◌then◌else◌,
}
use tasks_service.Database.{Platform, World, ok, err, driver, not_found, sql, transaction, ◌>>=◌}
use tasks_service.Tasks.Domain.{Task, Subtask, new_status, storage_code}
use tasks_service.Tasks.Tables.{TaskRow, Tables, EventRow, Generators, same_key}
use tasks_service.Tasks.Statements.{
  create_simple, insert_deleted, delete_task, next_version, update_event, read_tag,
}
use tasks_service.Tasks.Repository
use tasks_service.Tasks.Service
use tasks_service.Tasks.Requests.{Request, perform, serve}
use tasks_service.Tasks.Log.{serve-IsLogged}
use tasks_service.Tasks.Log.Statements.{IsLogged}
use tasks_service.Tasks.Atomicity.{failed_write_unchanged}
use tasks_service.Tasks.Versions.{next_version-fresh}
use tasks_service.Tasks.Repository.{UpdatePatch}
use tasks_service.Tasks.Statements.{insert_update}
use tasks_service.Tasks.Update.{IsUpdated, update_lem}
use tasks_service.Tasks.Completion.{IsSettled, toggle_completes}
use tasks_service.Tasks.Subtasks
use tasks_service.Tasks.Partial.{IsStored, create_task_partial}

abbrev blank : Task
blank = record {
  id = "t1";
  title = "";
  description = "";
  priority = "";
  status = "";
  due_date = 0;
  user_id = "u1";
  tag_id = none;
  tag_name = "";
  created_at = 0;
  subtasks = record { id = "s1"; task_id = "t1"; title = "pack"; is_done = true; order = 0 } ∷ [];
  reminder_60m_sent_at = none;
  reminder_15m_sent_at = none;
  reminder_5m_sent_at = none;
}

abbrev sample : Platform
sample = record {
  uuid = λ s. if s == "" then none else some s;
  timestamp = λ s. none;
  gen_uuid = λ n. "g";
  parse_uuid = λ s. not (s == "");
}

abbrev ids : Generators
ids = record {
  new_uuid = λ n. if nat_eq n 0 then "e0" else if nat_eq n 1 then "e1" else "e2";
  row_uuid = λ n i. if nat_eq i 0 then "r0" else "r1";
}

abbrev empty : Tables
empty = record { tasks = []; subtasks = []; default_tags = []; custom_tags = []; outbox = [] }

abbrev at_rest : Tables → World Tables
at_rest t = record { tables = t; calls = 0; fails = λ n. false; now = 100 }

-- The second call fails.
abbrev shaky : World Tables
shaky = record { tables = empty; calls = 0; fails = λ n. nat_eq n 1; now = 100 }

abbrev trip : Task
trip = record blank { title = "trip"; priority = "red"; status = "completed" }

abbrev tagged : Task
tagged = record trip { id = "t2"; tag_name = "home"; subtasks = [] }

abbrev script : List Request
script =
    Request.create trip
    ∷ Request.create_batch (tagged ∷ tagged ∷ [])
    ∷ Request.create tagged
    ∷ Request.toggle "r0" "u1"
    ∷ Request.delete "t1"
    ∷ []

serve-IsLogged_example : IsLogged (serve sample ids script (at_rest empty)).tables
serve-IsLogged_example = serve-IsLogged sample ids script (at_rest empty) tt

failed_write_unchanged_example :
    (perform sample ids (Request.delete "t9") (at_rest empty)).1.tables ≡ empty
unfolding perform Service.delete_task Repository.delete sql ◌>>=◌ delete_task insert_deleted select
    count any
failed_write_unchanged_example =
    failed_write_unchanged sample ids (Request.delete "t9") (at_rest empty) not_found tt refl

abbrev updated : EventRow
updated = update_event "e7" "t1" trip 50 4

next_version-fresh_example :
    any
      (same_key (update_event "e8" "t1" trip 60 (next_version "t1" (updated ∷ []))))
      (updated ∷ [])
    ≡ false
next_version-fresh_example = next_version-fresh "e8" "t1" trip 60 (updated ∷ [])

create_task_partial_example :
    ((Service.create_task sample ids trip shaky).0 ≡ err (driver "batch insert subtasks"))
    × IsStored sample ids trip (Service.create_task sample ids trip shaky).1.tables
    × ((Service.create_task sample ids trip shaky).1.tables.subtasks
        ≡ (Repository.create sample ids trip shaky).1.tables.subtasks)
unfolding Repository.create create_simple read_tag sql any is_blank storage_code
create_task_partial_example = create_task_partial sample ids trip shaky refl refl refl

abbrev red_trip : TaskRow
red_trip = record {
  task_id = "t1";
  title = "trip";
  description = "";
  status = "2";
  priory = "red";
  due_date = 0;
  created_at = 7;
  user_id = "u1";
  tag_id = none;
  admin_deleted = some false;
  admin_deleted_at = none;
  user_ack = some false;
  reminder_60m_sent_at = none;
  reminder_15m_sent_at = none;
  reminder_5m_sent_at = none;
}

abbrev one_trip : Tables
one_trip = record empty { tasks = red_trip ∷ [] }

abbrev finished : UpdatePatch
finished = Service.status_patch "completed"

abbrev completed : Task
completed = record trip { description = ""; status = "completed"; created_at = 7; subtasks = [] }

update_lem_example :
    IsUpdated "t1" finished completed one_trip
      (Repository.update sample ids "t1" finished (at_rest one_trip)).1.tables
unfolding Repository.update Repository.write_patch Repository.update_task Repository.select_updated
    insert_update next_version transaction sql ◌>>=◌ find count any update_where new_status
    storage_code
update_lem_example = update_lem sample ids "t1" "t1" finished completed (at_rest one_trip) refl refl

abbrev packed : Subtask
packed = record { id = "s1"; task_id = "t1"; title = "pack"; is_done = true; order = 0 }

abbrev open_trip : Tables
open_trip = record one_trip {
  subtasks =
      record { id = "s1"; task_id = "t1"; title = "pack"; is_done = false; order_num = 0 } ∷ [];
}

toggle_completes_example :
    ((Service.toggle_subtask_done sample ids "s1" "u1" (at_rest open_trip)).0 ≡ ok packed)
    × IsSettled sample ids "t1"
        (Subtasks.toggle_done sample ids "s1" "u1" (at_rest open_trip)).1.tables
        (Service.toggle_subtask_done sample ids "s1" "u1" (at_rest open_trip)).1.tables
unfolding Subtasks.toggle_done Subtasks.toggle_row sql ◌>>=◌ find any
toggle_completes_example =
    toggle_completes sample ids "s1" "u1" "t1" packed (at_rest open_trip) red_trip (λ n. refl)
      (λ n. refl) refl refl refl refl refl
