-- ===== src/Tasks/Codes.antt =====
-- The encodings of status and priority of app/internal/tasks/domain/task.go.
use tasks_service.Prelude.{
  ◌≡◌, inl, inr, refl, sym, subst, Bool, true, false, not, String, ◌==◌, ◌||◌, ◌&&◌, ℕ, arith,
  eq_iff, any, if◌then◌else◌, Bool-cases, List, [], ◌∷◌, is_empty,
}
use tasks_service.Tasks.Domain.{
  Task, Subtask, new_status, storage_code, status_not_completed, status_in_progress,
  status_completed, priory_blue, priory_red, priory_green, is_valid_status, new_priory,
  is_valid_priory, none_open, all_subtasks_done, validate,
}

status_branches :
    (a b c : Bool)
    → is_valid_status (
        if a
        then status_not_completed
        else if b
        then status_in_progress
        else if c
        then status_completed
        else status_in_progress)
      ≡ true
status_branches true b c = refl
status_branches false true c = refl
status_branches false false true = refl
status_branches false false false = refl

priory_branches :
    (a b c : Bool)
    → is_valid_priory (
        if a
        then priory_blue
        else if b
        then priory_red
        else if c
        then priory_green
        else priory_green)
      ≡ true
priory_branches true b c = refl
priory_branches false true c = refl
priory_branches false false true = refl
priory_branches false false false = refl

abbrev ReadsStatus : String → Type 0
ReadsStatus s = new_status (storage_code s) ≡ (if is_valid_status s then s else "in_progress")

abbrev ReadsPriory : String → Type 0
ReadsPriory s = new_priory s ≡ (if is_valid_priory s then s else "green")

-- Any text whatever is read as a valid status, and what is stored for a status is read back as the
-- status if it is valid, and as 'in_progress' if it is not.
pub new_status-storage_code :
    (s : String)
    → (is_valid_status (new_status s) ≡ true)
      × (new_status (storage_code s) ≡ (if is_valid_status s then s else "in_progress"))
unfolding new_status storage_code
new_status-storage_code s = (
  status_branches (s == "not_completed" || s == "1") (s == "in_progress" || s == "2")
      (s == "completed" || s == "3"),
  elim (Bool-cases (s == "not_completed")) [
    | inl e ↦ subst ReadsStatus (sym ((eq_iff s "not_completed").0 e)) refl
    | inr e1 ↦ elim (Bool-cases (s == "in_progress")) [
      | inl e ↦ subst ReadsStatus (sym ((eq_iff s "in_progress").0 e)) refl
      | inr e2 ↦ elim (Bool-cases (s == "completed")) [
        | inl e ↦ subst ReadsStatus (sym ((eq_iff s "completed").0 e)) refl
        | inr e3 ↦ rw e1 (rw e2 (rw e3 refl))
      ]
    ]
  ],
)

-- Any text is read as a valid priority, and a valid one as itself.
pub new_priory_lem :
    (s : String)
    → (is_valid_priory (new_priory s) ≡ true)
      × (new_priory s ≡ (if is_valid_priory s then s else "green"))
unfolding new_priory
new_priory_lem s = (
  priory_branches (s == "blue") (s == "red") (s == "green"),
  elim (Bool-cases (s == "blue")) [
    | inl e ↦ subst ReadsPriory (sym ((eq_iff s "blue").0 e)) refl
    | inr e1 ↦ elim (Bool-cases (s == "red")) [
      | inl e ↦ subst ReadsPriory (sym ((eq_iff s "red").0 e)) refl
      | inr e2 ↦ elim (Bool-cases (s == "green")) [
        | inl e ↦ subst ReadsPriory (sym ((eq_iff s "green").0 e)) refl
        | inr e3 ↦ rw e1 (rw e2 (rw e3 refl))
      ]
    ]
  ],
)

none_open-eq : (ss : List Subtask) → none_open ss ≡ not (any (λ s. not s.is_done) ss)
unfolding none_open any
none_open-eq [] = refl
none_open-eq (s ∷ rest) = ground (arith, none_open-eq rest)

-- All subtasks are done when there is one, and none of them is open.
pub all_subtasks_done-eq :
    (t : Task)
    → all_subtasks_done t ≡ (not (is_empty t.subtasks) && not (any (λ s. not s.is_done) t.subtasks))
unfolding all_subtasks_done
all_subtasks_done-eq t = ground (arith, none_open-eq t.subtasks)

-- A task without a status keeps an empty priority and a zero deadline: one default at most is set.
pub validate_once :
    (now : ℕ) (t : Task)
    → t.status ≡ ""
    → t.priority ≡ ""
    → ((validate now t).priority ≡ "") × ((validate now t).due_date ≡ t.due_date)
unfolding validate
validate_once now t h g = rw ((eq_iff t.status "").1 h) (g, refl)
