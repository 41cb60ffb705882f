-- ===== src/Outbox/Payload.antt =====
-- The data of an outbox event: app/internal/tasks/repository/outbox/model.go.
use tasks_service.Prelude.{ℕ, String, Option, none, []}
use tasks_service.Tasks.Domain.{Task, new_status}

pub record TaskPayload : Type 0 where
  pub id : String
  pub title : String
  pub description : String
  pub priority : String
  pub status : String
  pub due_date : ℕ
  pub user_id : String
  pub tag_id : Option String
  pub tag_name : String
  pub created_at : ℕ

abbrev pub payload_to_task : TaskPayload → Task
payload_to_task p = record {
  id = p.id;
  title = p.title;
  description = p.description;
  priority = p.priority;
  status = new_status p.status;
  due_date = p.due_date;
  user_id = p.user_id;
  tag_id = p.tag_id;
  tag_name = p.tag_name;
  created_at = p.created_at;
  subtasks = [];
  reminder_60m_sent_at = none;
  reminder_15m_sent_at = none;
  reminder_5m_sent_at = none;
}
