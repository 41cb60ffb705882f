-- ===== src/Tasks/Domain.antt =====
-- app/internal/tasks/domain/task.go and subtask.go, and the defaults of app/pkg/utils/validate.
-- A time is the number of seconds since Go's zero time, which is 0.
use tasks_service.Prelude.{
  ℕ, ◌+◌, ◌*◌, Bool, true, false, not, String, Option, none, some, List, [], ◌∷◌, ◌==◌, ◌||◌,
  nat_eq, is_empty, if◌then◌else◌,
}

abbrev pub Status : Type 0
Status = String

abbrev pub status_not_completed : Status
status_not_completed = "not_completed"

abbrev pub status_in_progress : Status
status_in_progress = "in_progress"

abbrev pub status_completed : Status
status_completed = "completed"

abbrev pub Priory : Type 0
Priory = String

abbrev pub priory_blue : Priory
priory_blue = "blue"

abbrev pub priory_red : Priory
priory_red = "red"

abbrev pub priory_green : Priory
priory_green = "green"

pub record Subtask : Type 0 where
  pub id : String
  pub task_id : String
  pub title : String
  pub is_done : Bool
  pub order : ℕ

pub record Task : Type 0 where
  pub id : String
  pub title : String
  pub description : String
  pub priority : Priory
  pub status : Status
  pub due_date : ℕ
  pub user_id : String
  pub tag_id : Option String
  pub tag_name : String
  pub created_at : ℕ
  pub subtasks : List Subtask
  pub reminder_60m_sent_at : Option ℕ
  pub reminder_15m_sent_at : Option ℕ
  pub reminder_5m_sent_at : Option ℕ

unfoldable pub new_priory : String → Priory
new_priory s =
    if s == "blue"
    then priory_blue
    else if s == "red"
    then priory_red
    else if s == "green"
    then priory_green
    else priory_green

abbrev pub is_valid_priory : Priory → Bool
is_valid_priory p = p == priory_blue || (p == priory_green || p == priory_red)

unfoldable pub new_status : String → Status
new_status s =
    if s == "not_completed" || s == "1"
    then status_not_completed
    else if s == "in_progress" || s == "2"
    then status_in_progress
    else if s == "completed" || s == "3"
    then status_completed
    else status_in_progress

-- The number in the SMALLINT column, as a text.
unfoldable pub storage_code : Status → String
storage_code s =
    if s == status_not_completed
    then "1"
    else if s == status_in_progress
    then "2"
    else if s == status_completed
    then "3"
    else "2"

abbrev pub is_valid_status : Status → Bool
is_valid_status s = s == status_not_completed || (s == status_in_progress || s == status_completed)

abbrev pub can_transition_to : Task → Status → Bool
can_transition_to t s = is_valid_status s

abbrev pub is_some_text : Option String → Bool
is_some_text none = false
is_some_text (some s) = not (s == "")

abbrev pub has_tag : Task → Bool
has_tag t = is_some_text t.tag_id || not (t.tag_name == "")

abbrev pub has_subtasks : Task → Bool
has_subtasks t = not (is_empty t.subtasks)

-- The loop of AllSubtasksDone.
unfoldable pub none_open : List Subtask → Bool
none_open [] = true
none_open (s ∷ rest) = let later = none_open rest in if not s.is_done then false else later

unfoldable pub all_subtasks_done : Task → Bool
all_subtasks_done t = if is_empty t.subtasks then false else none_open t.subtasks

-- validate.Validate: a `switch` takes the first case that applies.
unfoldable pub validate : ℕ → Task → Task
validate now t =
    if t.status == ""
    then record t { status = status_in_progress }
    else if t.priority == ""
    then record t { priority = "green" }
    else if nat_eq t.due_date 0
    then record t { due_date = now + 24 * 3600 }
    else t
