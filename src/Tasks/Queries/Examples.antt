-- ===== src/Tasks/Queries/Examples.antt =====
-- FindTask after SetTask at a concrete task, and the theorem applied to it.
use tasks_service.Prelude.{◌≡◌, refl, true, false, not, ◌==◌, none, some, [], ◌∷◌, if◌then◌else◌}
use tasks_service.Database.{Platform, World}
use tasks_service.Tasks.Domain.{Task}
use tasks_service.Tasks.Tables.{Tables, Generators}
use tasks_service.Tasks.Subtasks
use tasks_service.Tasks.Queries.{with_current, find_task}
use tasks_service.Tasks.Queries.Fresh.{later, as_cached, find_task-set_task}
use tasks_service.Cache.{hour, set_task}
use tasks_service.Cache.Redis.{Server, after_call}

abbrev pg : Platform
pg = record {
  uuid = λ s. if s == "" then none else some s;
  timestamp = λ s. none;
  gen_uuid = λ n. "g";
  parse_uuid = λ s. not (s == "");
}

abbrev ids : Generators
ids = record { new_uuid = λ n. "e"; row_uuid = λ n i. "r" }

abbrev trip : Task
trip = record {
  id = "t1";
  title = "trip";
  description = "";
  priority = "red";
  status = "in_progress";
  due_date = 5;
  user_id = "u1";
  tag_id = some "g1";
  tag_name = "work";
  created_at = 0;
  subtasks = [];
  reminder_60m_sent_at = none;
  reminder_15m_sent_at = none;
  reminder_5m_sent_at = none;
}

abbrev packed : World Tables
packed = record {
  tables = record {
    tasks = [];
    subtasks =
        record { id = "s1"; task_id = "t1"; title = "pack"; is_done = true; order_num = 0 } ∷ [];
    default_tags = [];
    custom_tags = [];
    outbox = [];
  };
  calls = 0;
  fails = λ n. false;
  now = 0;
}

abbrev cold : Server
cold = record { keys = λ k. none; calls = 0; cut = λ n. none; now = 0 }

find_task-set_task_example :
    find_task pg ids "t1" (record { database = packed; cache = later hour (set_task trip cold).1 })
    ≡ with_current
        (after_call (later hour (set_task trip cold).1))
        (as_cached trip)
        (Subtasks.find_by_task pg ids "t1" packed)
find_task-set_task_example = find_task-set_task pg ids trip packed cold hour refl refl refl refl
