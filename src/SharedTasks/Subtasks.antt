-- ===== src/SharedTasks/Subtasks.antt =====
-- The repository's statements on subtasks leave the rows of shared_tasks alone.
use tasks_service.Prelude.{ℕ, ◌+◌, ◌≡◌, String, Option, none, some, List, [], ◌∷◌, arith}
use tasks_service.Database.{Platform, sql}
use tasks_service.Database.Rules.{Keeps, Keeps-sql, Keeps-pure, Keeps-if, Keeps-bind}
use tasks_service.SharedTasks.Domain.{SubtaskInput}
use tasks_service.SharedTasks.Tables.{Tables, TaskRow}
use tasks_service.SharedTasks.Repository
use tasks_service.SharedTasks.Repository.Statements.{insert_subtask, delete_subtasks}

module _ (pg : Platform) (P : List TaskRow → Type 0) where
  insert_subtask_tasks :
      (task title assignee : String) (order now n : ℕ) (t : Tables) (u : Unit {0}) (t' : Tables)
      → insert_subtask pg task title assignee order now n t ≡ some (u, t')
      → t'.tasks ≡ t.tasks
  unfolding insert_subtask
  insert_subtask_tasks task title assignee order now n t u t' h = ground arith

  delete_subtasks_tasks :
      (task : String) (now n : ℕ) (t : Tables) (u : Unit {0}) (t' : Tables)
      → delete_subtasks pg task now n t ≡ some (u, t')
      → t'.tasks ≡ t.tasks
  unfolding delete_subtasks
  delete_subtasks_tasks task now n t u t' h = ground arith

  keep_sql {ℓ} :
      {A : Type ℓ} (what : String) (run : ℕ → ℕ → Tables → Option (A × Tables))
      → ((now n : ℕ) (t : Tables) (a : A) (t' : Tables)
          → run now n t ≡ some (a, t')
          → t'.tasks ≡ t.tasks)
      → Keeps (λ (t : Tables). P t.tasks) (sql what run)
  keep_sql what run same = Keeps-sql what run λ now n t a t' h m. rw (same now n t a t' h) m

  pub insert_subtasks-Keeps :
      (what task : String) (i : ℕ) (ss : List SubtaskInput)
      → Keeps (λ (t : Tables). P t.tasks) (Repository.insert_subtasks pg what task i ss)
  unfolding Repository.insert_subtasks
  insert_subtasks-Keeps what task i [] = Keeps-pure tt
  insert_subtasks-Keeps what task i (s ∷ rest) =
      let later = insert_subtasks-Keeps what task (i + 1) rest in
      Keeps-if _ _ _ later (
        Keeps-bind _ _ (keep_sql _ _ (insert_subtask_tasks task s.title s.assignee_id i))
          (λ _. later))

  pub replace_subtasks-Keeps :
      (task : String) (ss : Option (List SubtaskInput))
      → Keeps (λ (t : Tables). P t.tasks) (Repository.replace_subtasks pg task ss)
  unfolding Repository.replace_subtasks
  replace_subtasks-Keeps task none = Keeps-pure tt
  replace_subtasks-Keeps task (some ss) =
      Keeps-bind _ _ (keep_sql _ _ (delete_subtasks_tasks task))
        (λ _. insert_subtasks-Keeps _ task 0 ss)
