-- ===== src/SharedTasks/Validation.antt =====
-- `ValidateSubtasksForProposal` and the requests that repeat or undo one another.
use tasks_service.Prelude.{
  ◌≡◌, Bool, true, false, String, none, some, List, [], ◌∷◌, ◌==◌, ◌||◌, arith, any, if◌then◌else◌,
}
use tasks_service.Database.{no_own_subtask, no_friend_subtask}
use tasks_service.SharedTasks.Domain.{
  SubtaskCandidate, scan_assignees, validate_subtasks_for_proposal,
}

abbrev pub is_assigned_to : String → SubtaskCandidate → Bool
is_assigned_to user s = s.assignee_id == user

scan_assignees-eq :
    (p a : String) (own friend : Bool) (ss : List SubtaskCandidate)
    → scan_assignees p a own friend ss
      ≡ (own || any (is_assigned_to p) ss, friend || any (is_assigned_to a) ss)
unfolding scan_assignees any
scan_assignees-eq p a own friend [] = ground arith
scan_assignees-eq p a own friend (s ∷ rest) = ground (
  arith,
  scan_assignees-eq p a (if s.assignee_id == p then true else own)
      (if s.assignee_id == a then true else friend) rest,
)

-- The one loop with two flags decides two searches: the error is that of the proposer when no
-- subtask is the proposer's, else that of the friend when none is the addressee's, else there is
-- none.
pub validate_subtasks_for_proposal_lem :
    (p a : String) (ss : List SubtaskCandidate)
    → validate_subtasks_for_proposal p a ss ≡ (
        if any (is_assigned_to p) ss
        then if any (is_assigned_to a) ss then none else some no_friend_subtask
        else some no_own_subtask)
unfolding validate_subtasks_for_proposal
validate_subtasks_for_proposal_lem p a ss = rw (scan_assignees-eq p a false false ss) (ground arith)
