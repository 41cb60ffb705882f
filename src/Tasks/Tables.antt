-- ===== src/Tasks/Tables.antt =====
-- The tables tasks, subtasks, default_tag, custom_tag and outbox_events (app/migrations), as far as
-- the statements of app/internal/tasks/repository/postgres/postgres.go read and write them.
use tasks_service.Prelude.{ℕ, Bool, String, Option, List, ◌==◌, ◌&&◌, ◌||◌, nat_eq}
use tasks_service.Outbox.{TaskPayload}

-- `status` is the text of the number in the SMALLINT column. A NULL tag is none.
pub record TaskRow : Type 0 where
  pub task_id : String
  pub title : String
  pub description : String
  pub status : String
  pub priory : String
  pub due_date : ℕ
  pub created_at : ℕ
  pub user_id : String
  pub tag_id : Option String
  pub admin_deleted : Option Bool
  pub admin_deleted_at : Option ℕ
  pub user_ack : Option Bool
  pub reminder_60m_sent_at : Option ℕ
  pub reminder_15m_sent_at : Option ℕ
  pub reminder_5m_sent_at : Option ℕ

pub record SubtaskRow : Type 0 where
  pub id : String
  pub task_id : String
  pub title : String
  pub is_done : Bool
  pub order_num : ℕ

pub record TagRow : Type 0 where
  pub tag_id : String
  pub name : String
  -- blank in default_tag
  pub user_id : String

-- `event_data` is the payload whose JSON the column holds; `aggregate_type` is always 'task'.
pub record EventRow : Type 0 where
  pub id : String
  pub aggregate_id : String
  pub event_type : String
  pub event_data : TaskPayload
  pub created_at : ℕ
  pub version : ℕ

pub record Tables : Type 0 where
  pub tasks : List TaskRow
  pub subtasks : List SubtaskRow
  pub default_tags : List TagRow
  pub custom_tags : List TagRow
  pub outbox : List EventRow

-- Generated ids: `new_uuid n` is the one of `uuid.New()` for the n-th call of the database, and
-- `row_uuid n i` the one that `uuid.New()` or the database generates for the i-th row of that call.
pub record Generators : Type 0 where
  pub new_uuid : ℕ → String
  pub row_uuid : ℕ → ℕ → String

abbrev pub has_task_id : String → TaskRow → Bool
has_task_id id r = r.task_id == id

abbrev pub is_of_task : String → SubtaskRow → Bool
is_of_task task s = s.task_id == task

-- The key of UNIQUE (aggregate_type, aggregate_id, event_type, version)
abbrev pub same_key : EventRow → EventRow → Bool
same_key e q =
    q.aggregate_id == e.aggregate_id && (q.event_type == e.event_type && nat_eq q.version e.version)

-- The constraints of outbox_events refuse the event.
abbrev pub clashes : EventRow → EventRow → Bool
clashes e q = q.id == e.id || same_key e q

-- CHECK (priory IN ('red', 'blue', 'green'))
abbrev pub is_priory : String → Bool
is_priory p = p == "red" || (p == "blue" || p == "green")
