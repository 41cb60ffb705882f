-- ===== src/Tasks/Partial.antt =====
-- `CreateTask` of app/internal/tasks/service/service.go when the insert of the subtasks fails.
use tasks_service.Prelude.{
  >>=-eq-some, of_some, ℕ, ◌≡◌, refl, ap, inl, inr, true, false, Bool-cases, String, some, List,
  subst, any, eq_refl, any-append_last, is_blank, is_empty, if◌then◌else◌,
}
use tasks_service.Database.{
  Platform, World, Exec, Result, ok, err, driver, pure, sql, continue, ◌>>=◌,
}
use tasks_service.Database.Inversion.{sql_ok}
use tasks_service.Tasks.Domain.{Task, has_subtasks}
use tasks_service.Tasks.Tables.{TaskRow, Tables, Generators, has_task_id}
use tasks_service.Tasks.Statements.{
  tag_resolved, tag_upserted, insert_row, insert_event, created_event, new_row, create_tagged,
  create_simple, read_tag,
}
use tasks_service.Tasks.Repository
use tasks_service.Tasks.Subtasks
use tasks_service.Tasks.Service
use tasks_service.Tasks.Log.Statements.{insert_row_ok}

has_last :
    (r : TaskRow) (rows rows' : List TaskRow)
    → insert_row r rows ≡ some rows'
    → any (has_task_id r.task_id) rows' ≡ true
has_last r rows rows' h =
    subst (λ l. any (has_task_id r.task_id) l ≡ true) (insert_row_ok r rows rows' h)
      (any-append_last (has_task_id r.task_id) rows r (eq_refl r.task_id))

-- A call after one that succeeded.
continue_ok :
    {A : Type 0} (n : Exec Tables (Unit {0})) (r : Result A × World Tables) (a : A)
    → r.0 ≡ ok a
    → continue (λ _. n) r ≡ n r.1
continue_ok n (ok b, v) a g = refl
continue_ok n (err e, v) a g = cc

module _ (pg : Platform) (gen : Generators) where
  -- The task's row is among the rows.
  abbrev pub IsStored : Task → Tables → Type 0
  IsStored task t =
      (id : String) × (pg.uuid task.id ≡ some id) × (any (has_task_id id) t.tasks ≡ true)

  create_tagged_ok :
      (task : Task) (now n : ℕ) (t : Tables) (a : Unit {0}) (t' : Tables)
      → create_tagged pg gen task now n t ≡ some (a, t')
      → IsStored task t'
  unfolding create_tagged
  create_tagged_ok task now n t a t' h =
      let (user, e1, h1) = >>=-eq-some (pg.uuid task.user_id) _ h in
      let (id, e2, h2) = >>=-eq-some (pg.uuid task.id) _ h1 in
      let tag =
        tag_upserted (gen.row_uuid n 0) task.tag_name user t.custom_tags
          (tag_resolved task.tag_name user t) in
      let row = new_row id user tag.0 task now in
      let (rows, e3, h3) = >>=-eq-some (insert_row row t.tasks) _ h2 in
      let (outbox, e4, h4) =
        >>=-eq-some (insert_event (created_event (gen.new_uuid n) id task now) t.outbox) _ h3 in
      subst (IsStored task) (ap (λ (q : Unit {0} × Tables). q.1) (of_some h4))
        (id, e2, has_last row t.tasks rows e3)

  create_simple_ok :
      (task : Task) (now n : ℕ) (t : Tables) (a : Unit {0}) (t' : Tables)
      → create_simple pg gen task now n t ≡ some (a, t')
      → IsStored task t'
  unfolding create_simple
  create_simple_ok task now n t a t' h =
      let (user, e1, h1) = >>=-eq-some (pg.uuid task.user_id) _ h in
      let (id, e2, h2) = >>=-eq-some (pg.uuid task.id) _ h1 in
      let (tag, e0, h0) = >>=-eq-some (read_tag pg gen task.tag_id) _ h2 in
      let row = new_row id user tag task now in
      let (rows, e3, h3) = >>=-eq-some (insert_row row t.tasks) _ h0 in
      let (outbox, e4, h4) =
        >>=-eq-some (insert_event (created_event (gen.new_uuid n) id task now) t.outbox) _ h3 in
      subst (IsStored task) (ap (λ (q : Unit {0} × Tables). q.1) (of_some h4))
        (id, e2, has_last row t.tasks rows e3)

  create_ok :
      (task : Task) (w : World Tables)
      → (Repository.create pg gen task w).0 ≡ ok tt
      → IsStored task (Repository.create pg gen task w).1.tables
  unfolding Repository.create
  create_ok task w = elim (Bool-cases (is_blank task.tag_name)) [
    | inl e ↦
        rw e (λ h. create_simple_ok task _ _ _ _ _ (sql_ok _ (create_simple pg gen task) w tt h))
    | inr e ↦
        rw e (λ h. create_tagged_ok task _ _ _ _ _ (sql_ok _ (create_tagged pg gen task) w tt h))
  ]

  -- A task with subtasks is created by two statements outside of any transaction: when the first one
  -- succeeds and the call of the second one fails, the caller gets an error, and the task is stored
  -- all the same, with no subtask added.
  pub create_task_partial :
      (task : Task) (w : World Tables)
      → is_empty task.subtasks ≡ false
      → (Repository.create pg gen task w).0 ≡ ok tt
      → (Repository.create pg gen task w).1.fails (Repository.create pg gen task w).1.calls ≡ true
      → ((Service.create_task pg gen task w).0 ≡ err (driver "batch insert subtasks"))
        × IsStored task (Service.create_task pg gen task w).1.tables
        × ((Service.create_task pg gen task w).1.tables.subtasks
            ≡ (Repository.create pg gen task w).1.tables.subtasks)
  unfolding Service.create_task Subtasks.create_subtasks sql ◌>>=◌
  create_task_partial task w some_task h f =
      let rest : Exec Tables (Unit {0}) =
        if has_subtasks task
        then Subtasks.create_subtasks pg gen task.id task.subtasks
        else pure tt in
      rw (continue_ok rest (Repository.create pg gen task w) tt h)
        (rw some_task (rw f (refl, create_ok task w h, refl)))
