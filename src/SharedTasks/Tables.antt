-- ===== src/SharedTasks/Tables.antt =====
-- The tables shared_tasks, shared_subtasks and user_subscriptions
-- (app/migrations/0009 to 0012), as far as the repository's statements read and write them.
use tasks_service.Prelude.{ℕ, Bool, false, String, Option, none, some, List, ◌==◌, ◌||◌}

-- A row of shared_tasks. `admin_deleted` and `user_ack` may be NULL.
pub record TaskRow : Type 0 where
  pub id : String
  pub proposer_id : String
  pub addressee_id : String
  pub title : String
  pub description : String
  pub priority : String
  pub due_date : Option ℕ
  pub status : String
  pub created_at : ℕ
  pub updated_at : ℕ
  pub admin_deleted : Option Bool
  pub admin_deleted_at : Option ℕ
  pub user_ack : Option Bool

pub record SubtaskRow : Type 0 where
  pub id : String
  pub shared_task_id : String
  pub title : String
  pub assignee_id : String
  pub is_done : Bool
  pub order_num : ℕ

pub record Tables : Type 0 where
  pub tasks : List TaskRow
  pub subtasks : List SubtaskRow
  -- user_subscriptions: the name of each user that has a row
  pub names : String → Option String

-- COALESCE(b, FALSE)
abbrev pub or_false : Option Bool → Bool
or_false none = false
or_false (some b) = b

-- COALESCE(name, '')
abbrev pub or_blank : Option String → String
or_blank none = ""
or_blank (some s) = s

-- WHERE id = $1
abbrev pub has_id : String → TaskRow → Bool
has_id id r = r.id == id

-- proposer_id = $1 OR addressee_id = $1
abbrev pub has_participant : String → TaskRow → Bool
has_participant user r = r.proposer_id == user || r.addressee_id == user

abbrev pub belongs_to : String → SubtaskRow → Bool
belongs_to task s = s.shared_task_id == task

abbrev pub is_pending : TaskRow → Bool
is_pending r = r.status == "pending"
