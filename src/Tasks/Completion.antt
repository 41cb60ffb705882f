-- ===== src/Tasks/Completion.antt =====
-- The automatic completion of a task: `ToggleSubtaskDone` of app/internal/tasks/service/service.go.
use tasks_service.Prelude.{
  ◌≡◌, refl, sym, ap, ◌∙◌, Bool, true, false, String, some, List, [], ◌∷◌, arith, subst, find, ℕ,
  nat_eq, count, not, any, false, ◌⊎◌, inl, inr, Bool-cases,
}
use tasks_service.Database.{
  Platform, World, Exec, Result, ok, err, continue, sql, after_call, ◌>>=◌,
}
use tasks_service.Database.Inversion.{of_ok}
use tasks_service.Tasks.Domain.{Task, Subtask, status_completed, storage_code}
use tasks_service.Tasks.Tables.{TaskRow, SubtaskRow, Tables, Generators, has_task_id}
use tasks_service.Tasks.Repository.{patch_row}
use tasks_service.Tasks.Subtasks
use tasks_service.Tasks.Service
use tasks_service.Tasks.Update.{IsUpdated, update_lem}
use tasks_service.Tasks.Update.Success.{is_event_id, find-patched, update_succeeds}

nat_eq-count :
    (p : SubtaskRow → Bool) (xs : List SubtaskRow) → nat_eq (count p xs) 0 ≡ not (any p xs)
unfolding count any
nat_eq-count p [] = refl
nat_eq-count p (x ∷ xs) = ground (arith, nat_eq-count p xs)

-- The environment, the tasks and the outbox are those of before.
abbrev IsKept : World Tables → World Tables → Type 0
IsKept w v =
    (v.fails ≡ w.fails) × (v.tables.tasks ≡ w.tables.tasks) × (v.tables.outbox ≡ w.tables.outbox)

continue_same :
    {A B : Type 0} (f : A → Exec Tables B) (r : Result A × World Tables) (a : A)
    → r.0 ≡ ok a
    → continue f r ≡ f a r.1
continue_same f (ok b, v) a g = ap (λ x. f x v) (of_ok g)
continue_same f (err e, v) a g = cc

module _ (pg : Platform) (gen : Generators) where
  toggle_done-IsKept :
      (subtask owner : String) (w : World Tables)
      → IsKept w (Subtasks.toggle_done pg gen subtask owner w).1
  unfolding Subtasks.toggle_done Subtasks.toggle_row sql ◌>>=◌
  toggle_done-IsKept subtask owner w = ground arith

  count_open-eq :
      (task id : String) (now n : ℕ) (t : Tables)
      → pg.uuid task ≡ some id
      → Subtasks.count_open pg gen task now n t
        ≡ some (count (Subtasks.is_open_of pg gen id) t.subtasks, t)
  unfolding Subtasks.count_open
  count_open-eq task id now n t spelled = ground arith

  -- AreAllDone answers by the rows: no subtask of the task is open.
  are_all_done-eq :
      (task id : String) (v : World Tables)
      → v.fails v.calls ≡ false
      → pg.uuid task ≡ some id
      → Subtasks.are_all_done pg gen task v
        ≡ (ok (not (any (Subtasks.is_open_of pg gen id) v.tables.subtasks)), after_call v)
  unfolding Subtasks.are_all_done sql ◌>>=◌
  are_all_done-eq task id v quiet spelled =
      rw
        (
          quiet,
          count_open-eq task id v.now v.calls v.tables spelled,
          nat_eq-count (Subtasks.is_open_of pg gen id) v.tables.subtasks,
        )
        refl

  toggle_subtask_done-eq :
      (subtask owner : String) (s : Subtask) (w : World Tables)
      → (Subtasks.toggle_done pg gen subtask owner w).0 ≡ ok s
      → s.is_done ≡ true
      → Service.toggle_subtask_done pg gen subtask owner w ≡ (
        ok s,
        Service.complete_if pg gen s.task_id (
            Subtasks.are_all_done pg gen s.task_id (Subtasks.toggle_done pg gen subtask owner w).1),
      )
  unfolding Service.toggle_subtask_done ◌>>=◌
  toggle_subtask_done-eq subtask owner s w e done =
      continue_same (Service.auto_complete pg gen) (Subtasks.toggle_done pg gen subtask owner w) s e
      ∙ rw done refl

  -- What the service makes of the task `id` whose subtask was toggled: while a subtask is open
  -- nothing, else an update of the status, after which the task's row has the code of a completed
  -- task.
  abbrev pub IsSettled : String → Tables → Tables → Type 0
  IsSettled id toggled t =
      ((any (Subtasks.is_open_of pg gen id) toggled.subtasks ≡ true) × (t ≡ toggled))
      ⊎ ((any (Subtasks.is_open_of pg gen id) toggled.subtasks ≡ false)
          × (u : Task) × IsUpdated id (Service.status_patch status_completed) u toggled t
          × (row : TaskRow) × (find (has_task_id id) t.tasks ≡ some row)
          × (row.status ≡ "3"))

  complete_if-IsSettled :
      (task id : String) (v : World Tables) (row : TaskRow)
      → pg.uuid task ≡ some id
      → pg.parse_uuid task ≡ true
      → ((n : ℕ) → v.fails n ≡ false)
      → ((n : ℕ) → any (is_event_id (gen.new_uuid n)) v.tables.outbox ≡ false)
      → find (has_task_id id) v.tables.tasks ≡ some row
      → IsSettled id v.tables
          (Service.complete_if pg gen task (Subtasks.are_all_done pg gen task v)).tables
  unfolding storage_code
  complete_if-IsSettled task id v row spelled parsed quiet fresh found =
      let is_open = any (Subtasks.is_open_of pg gen id) v.tables.subtasks in
      rw (are_all_done-eq task id v (quiet v.calls) spelled) (elim (Bool-cases is_open) [
        | inl f ↦ rw f (inl (refl, refl))
        | inr f ↦
            let (u, done) =
              update_succeeds pg gen task id spelled (after_call v) row parsed quiet fresh found in
            let written =
              update_lem pg gen task id (Service.status_patch status_completed) u (after_call v)
                spelled done in
            rw f (
              inr (
                refl,
                u,
                written,
                patch_row (Service.status_patch status_completed) written.0 row,
                ap (find (has_task_id id)) written.2
                    ∙ find-patched id (Service.status_patch status_completed) written.0
                        v.tables.tasks row found,
                refl,
              ))
      ])

  -- When a subtask is toggled to done, no call fails, no event of the outbox has an id that is
  -- generated, and the row of the subtask's task is there: the caller gets the subtask. If a subtask
  -- of the task is still open, the tables are those that the toggle left; if none is, they are those
  -- after an update of the status, with its event, and the task's row has the code of a completed
  -- task.
  pub toggle_completes :
      (subtask owner id : String) (s : Subtask) (w : World Tables) (row : TaskRow)
      → ((n : ℕ) → w.fails n ≡ false)
      → ((n : ℕ) → any (is_event_id (gen.new_uuid n)) w.tables.outbox ≡ false)
      → (Subtasks.toggle_done pg gen subtask owner w).0 ≡ ok s
      → s.is_done ≡ true
      → pg.uuid s.task_id ≡ some id
      → pg.parse_uuid s.task_id ≡ true
      → find (has_task_id id) w.tables.tasks ≡ some row
      → ((Service.toggle_subtask_done pg gen subtask owner w).0 ≡ ok s)
        × IsSettled id
            (Subtasks.toggle_done pg gen subtask owner w).1.tables
            (Service.toggle_subtask_done pg gen subtask owner w).1.tables
  toggle_completes subtask owner id s w row quiet fresh e done spelled parsed found =
      let same = toggle_subtask_done-eq subtask owner s w e done in
      let (fails, tasks, outbox) = toggle_done-IsKept subtask owner w in
      let v : World Tables = (Subtasks.toggle_done pg gen subtask owner w).1 in
      (
        ap (λ (r : Result Subtask × World Tables). r.0) same,
        subst (λ (r : Result Subtask × World Tables). IsSettled id v.tables r.1.tables) (sym same)
            (complete_if-IsSettled s.task_id id v row spelled parsed
              (λ n. ap (λ f. f n) fails ∙ quiet n)
              (λ n. ap (any (is_event_id (gen.new_uuid n))) outbox ∙ fresh n)
              (ap (find (has_task_id id)) tasks ∙ found)),
      )
