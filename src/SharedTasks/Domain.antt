-- ===== src/SharedTasks/Domain.antt =====
-- app/internal/shared_tasks/domain and the inputs of app/internal/shared_tasks/port.
use tasks_service.Prelude.{
  ℕ, Bool, true, false, String, Option, none, some, List, [], ◌∷◌, ◌==◌, ◌||◌, not, if◌then◌else◌,
}
use tasks_service.Database.{Error, no_own_subtask, no_friend_subtask}

-- `type SharedTaskStatus string`: any text can stand in the column, and three are valid.
abbrev pub SharedTaskStatus : Type 0
SharedTaskStatus = String

abbrev pub status_pending : SharedTaskStatus
status_pending = "pending"

abbrev pub status_accepted : SharedTaskStatus
status_accepted = "accepted"

abbrev pub status_rejected : SharedTaskStatus
status_rejected = "rejected"

abbrev pub is_valid : SharedTaskStatus → Bool
is_valid s = s == status_pending || (s == status_accepted || s == status_rejected)

pub record SharedSubtask : Type 0 where
  pub id : String
  pub shared_task_id : String
  pub title : String
  pub assignee_id : String
  pub assignee_name : String
  pub is_done : Bool
  pub order : ℕ

pub record SharedTask : Type 0 where
  pub id : String
  pub proposer_id : String
  pub addressee_id : String
  pub title : String
  pub description : String
  pub priority : String
  pub status : SharedTaskStatus
  pub due_date : Option ℕ
  pub created_at : ℕ
  pub proposer_name : String
  pub addressee_name : String
  pub subtasks : List SharedSubtask
  pub admin_deleted : Bool

pub record SubtaskInput : Type 0 where
  pub title : String
  pub assignee_id : String

-- `subtasks`: none leaves the subtasks alone, a list replaces them.
pub record UpdateInput : Type 0 where
  pub title : String
  pub description : String
  pub priority : String
  pub due_date : String
  pub subtasks : Option (List SubtaskInput)

pub record SubtaskCandidate : Type 0 where
  pub assignee_id : String

-- The loop of `ValidateSubtasksForProposal`, over its two flags.
unfoldable pub scan_assignees : String → String → Bool → Bool → List SubtaskCandidate → Bool × Bool
scan_assignees proposer addressee has_own has_friend [] = (has_own, has_friend)
scan_assignees proposer addressee has_own has_friend (s ∷ rest) =
    scan_assignees proposer addressee (if s.assignee_id == proposer then true else has_own)
      (if s.assignee_id == addressee then true else has_friend) rest

check_flags : Bool × Bool → Option Error
check_flags (has_own, has_friend) =
    if not has_own
    then some no_own_subtask
    else if not has_friend
    then some no_friend_subtask
    else none

unfoldable pub validate_subtasks_for_proposal :
    String → String → List SubtaskCandidate → Option Error
unfolding scan_assignees check_flags
validate_subtasks_for_proposal proposer addressee subtasks =
    check_flags (scan_assignees proposer addressee false false subtasks)
