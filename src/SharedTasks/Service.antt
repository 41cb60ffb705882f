-- ===== src/SharedTasks/Service.antt =====
-- The methods of app/internal/shared_tasks/service/service.go. Logging is left out.
use tasks_service.Prelude.{
  Bool, true, false, String, Option, none, some, List, [], ◌∷◌, ◌==◌, ◌&&◌, if◌then◌else◌,
}
use tasks_service.Database.{Platform, Error, Exec, pure, raise, ◌>>=◌, ◌>>◌, self_task, not_found}
use tasks_service.SharedTasks.Domain.{
  SharedTask, SharedSubtask, SubtaskInput, SubtaskCandidate, UpdateInput, status_pending,
  status_accepted, status_rejected, validate_subtasks_for_proposal,
}
use tasks_service.SharedTasks.Tables.{Tables}
use tasks_service.SharedTasks.Repository

-- The subtasks with a title, as candidates.
unfoldable pub candidates : List SubtaskInput → List SubtaskCandidate
candidates [] = []
candidates (s ∷ rest) =
    let later = candidates rest in
    if s.title == "" then later else record { assignee_id = s.assignee_id } ∷ later

-- `if err != nil { return …, err }`
abbrev pub or_raise {ℓ} : {A : Type ℓ} → Option Error → Exec Tables A → Exec Tables A
or_raise none m = m
or_raise (some e) m = raise e

module _ (pg : Platform) where
  unfoldable pub propose :
      String → String → String → String → String → String → List SubtaskInput → Exec Tables String
  propose proposer addressee title desc priority due subtasks =
      if proposer == addressee
      then raise self_task
      else or_raise (validate_subtasks_for_proposal proposer addressee (candidates subtasks))
          (Repository.propose pg proposer addressee title desc priority due subtasks)

  unfoldable pub find_by_user : String → Exec Tables (List SharedTask)
  find_by_user = Repository.find_by_user pg

  unfoldable pub admin_find_all : Exec Tables (List SharedTask)
  admin_find_all = Repository.find_all pg

  unfoldable pub find_by_id : String → String → Exec Tables (Option SharedTask)
  find_by_id = Repository.find_by_id pg

  unfoldable pub accept : String → String → Exec Tables (Unit {0})
  accept task user = Repository.respond pg task user status_accepted

  unfoldable pub reject : String → String → Exec Tables (Unit {0})
  reject task user = Repository.respond pg task user status_rejected

  -- The rest of `Update` for the task that was read.
  unfoldable pub update_found : String → String → UpdateInput → Option SharedTask → Exec Tables Bool
  update_found task user input none = raise not_found
  update_found task user input (some t) =
      if t.status == status_pending && t.addressee_id == user
      then (do Repository.counter_propose pg task user input; pure true)
      else (do Repository.update pg task user input; pure false)

  unfoldable pub update : String → String → UpdateInput → Exec Tables Bool
  update task user input = do
    found ← Repository.find_by_id pg task user
    update_found task user input found

  unfoldable pub delete : String → String → Exec Tables (String × String)
  delete = Repository.delete pg

  unfoldable pub toggle_subtask_done : String → String → Exec Tables SharedSubtask
  toggle_subtask_done = Repository.toggle_subtask_done pg
