-- ===== src/SharedTasks/Lifecycle.antt =====
-- The life of a shared task: pending, then accepted or rejected, and gone once it is deleted.
pub mod Rows
use tasks_service.Prelude.{
  ℕ, ◌+◌, ◌≡◌, ◌≢◌, refl, sym, ap, ◌∙◌, Bool, true, false, String, Option, none, some, List, [],
  ◌∷◌, ◌==◌, ◌||◌, arith, eq_iff, All, update_where, inl, inr, ◌⊎◌, Bool-cases, Option-cases, subst,
}
use tasks_service.Database.{
  World, Exec, Error, Platform, pure, raise, sql, already_handled, no_rights, no_access, no_subtask,
  not_found, self_task, invalid_uuid, ◌>>=◌, ◌>>◌,
}
use tasks_service.Database.Rules.{
  Leads, Keeps, Reads, Reads-sql, Leads-bind, Leads-sql, Leads-pure, Leads-raise, Leads-if,
  Leads-transaction, Keeps-sql, Keeps-pure, Keeps-raise, Keeps-if, Keeps-bind,
}
use tasks_service.SharedTasks.Domain.{
  SharedTask, SubtaskInput, UpdateInput, validate_subtasks_for_proposal,
}
use tasks_service.SharedTasks.Tables.{Tables, TaskRow, SubtaskRow, has_id}
use tasks_service.SharedTasks.Repository
use tasks_service.SharedTasks.Subtasks.{insert_subtasks-Keeps, replace_subtasks-Keeps}
use tasks_service.SharedTasks.Service
use tasks_service.SharedTasks.Admin
use tasks_service.SharedTasks.Requests.{
  Request, propose, accept, reject, delete, toggle, update, soft_delete, restore, acknowledge,
  perform,
}
use tasks_service.SharedTasks.Atomicity.{find_by_id-Reads, select_task_reads, select_row_reads}
use tasks_service.SharedTasks.Invariant.Rows.{HaveDistinctIds}
use Rows.{
  Edge, stays, opens, accepts, rejects, removes, Moves, status_of, update_where-Moves,
  insert_task-Moves, set_status-Moves, update_task-Moves, counter_task-Moves, delete_task-Moves,
  toggle_subtask_tasks,
}

module _ (pg : Platform) (id : String) (before : List TaskRow) where
  -- Before the write of a request, and after it.
  abbrev From : Tables → Type 0
  From t = HaveDistinctIds t.tasks × (t.tasks ≡ before)

  abbrev To : Tables → Type 0
  To t = Moves id before t.tasks

  To-of_From : (t : Tables) → From t → To t
  To-of_From t f = rw f.1 (stays refl)

  To-raise {ℓ} : {A : Type ℓ} (e : Error) → Leads From To (raise {A = A} e)
  To-raise = Leads-raise From To To-of_From

  To-pure {ℓ} : {A : Type ℓ} (a : A) → Leads From To (pure a)
  To-pure = Leads-pure From To To-of_From

  -- A statement that is the first to write.
  To-sql {ℓ} :
      {A : Type ℓ} (what : String) (run : ℕ → ℕ → Tables → Option (A × Tables))
      → ((now n : ℕ) (t : Tables) (a : A) (t' : Tables)
          → HaveDistinctIds t.tasks
          → run now n t ≡ some (a, t')
          → Moves id t.tasks t'.tasks)
      → Leads From To (sql what run)
  To-sql what run move =
      Leads-sql From To To-of_From what run
        λ now n t a t' h f. subst (λ ts. Moves id ts t'.tasks) f.1 (move now n t a t' f.0 h)

  To-then {ℓ κ} :
      {A : Type ℓ} {B : Type κ} (m : Exec Tables A) (f : A → Exec Tables B)
      → Leads From To m
      → ((a : A) → Keeps To (f a))
      → Leads From To (m >>= f)
  To-then m f = Leads-bind From To To m f (λ t h. h)

  -- A read stands before the write.
  To-read {ℓ κ} :
      {A : Type ℓ} {B : Type κ} (m : Exec Tables A) (f : A → Exec Tables B)
      → Reads m
      → ((a : A) → Leads From To (f a))
      → Leads From To (m >>= f)
  To-read m f r = Leads-bind From From To m f To-of_From (record { at = λ w h. rw (r.at w) h })

  ensure-Keeps : (n : ℕ) (e : Error) → Keeps To (Repository.ensure_affected n (raise e))
  ensure-Keeps n e = Keeps-if _ _ _ (Keeps-raise e) (Keeps-pure tt)

  or_raise-To {ℓ} :
      {A : Type ℓ} (e : Option Error) (m : Exec Tables A)
      → Leads From To m
      → Leads From To (Service.or_raise e m)
  or_raise-To none m k = k
  or_raise-To (some e) m k = To-raise e

  overdue-To {ℓ} :
      {A : Type ℓ} (due : Option ℕ) (m : Exec Tables A)
      → Leads From To m
      → Leads From To (Admin.unless_overdue due m)
  overdue-To due m k = record {
    at = λ w f. elim (Bool-cases (Admin.is_overdue w.now due)) [
      | inl late ↦ rw late (To-of_From w.tables f)
      | inr early ↦ rw early (k.at w f)
    ];
  }

  propose-To :
      (p a t d pr du : String) (ss : List SubtaskInput)
      → Leads From To (Service.propose pg p a t d pr du ss)
  unfolding Service.propose Repository.propose
  propose-To p a t d pr du ss = Leads-if From _ _ _ (To-raise self_task) (
      or_raise-To (validate_subtasks_for_proposal p a (Service.candidates ss)) _ (
        Leads-transaction From To To-of_From _ _ (
          To-then _ _
            (To-sql _ _ λ now n s a' s' _. insert_task-Moves pg id p a t d _ _ now n s a' s')
            (λ task.
              Keeps-bind _ _ (insert_subtasks-Keeps pg (Moves id before) _ task 0 ss)
                (λ _. Keeps-pure task)))))

  respond-To :
      (task user status : String)
      → Edge (some "pending") (some status)
      → Leads From To (Repository.respond pg task user status)
  unfolding Repository.respond
  respond-To task user status edge =
      To-then _ _
        (To-sql _ _ λ now n t k t' _. set_status-Moves pg id task status user now n t k t' edge)
        (λ n. ensure-Keeps n already_handled)

  update_found-To :
      (task user : String) (input : UpdateInput) (found : Option SharedTask)
      → Leads From To (Service.update_found pg task user input found)
  unfolding Service.update_found Repository.update Repository.counter_propose
  update_found-To task user input none = To-raise not_found
  update_found-To task user input (some found) =
      Leads-if From _ _ _
        (To-then _ _
          (Leads-transaction From To To-of_From _ _ (
            To-then _ _
              (To-sql _ _ λ now n t k t' _. counter_task-Moves pg id _ _ _ _ task user now n t k t')
              (λ n.
                Keeps-bind _ _ (ensure-Keeps n already_handled)
                  (λ _. replace_subtasks-Keeps pg (Moves id before) task input.subtasks))))
          (λ _. Keeps-pure true))
        (To-then _ _
          (Leads-transaction From To To-of_From _ _ (
            To-then _ _
              (To-sql _ _ λ now n t k t' _. update_task-Moves pg id _ _ _ _ task user now n t k t')
              (λ n.
                Keeps-bind _ _ (ensure-Keeps n no_rights)
                  (λ _. replace_subtasks-Keeps pg (Moves id before) task input.subtasks))))
          (λ _. Keeps-pure false))

  delete_found-To :
      (task user : String) (found : Option TaskRow)
      → Leads From To (Repository.delete_found pg task user found)
  unfolding Repository.delete_found
  delete_found-To task user none = To-raise no_access
  delete_found-To task user (some row) = Leads-if From _ _ _ (To-raise _) (
      To-then _ _ (To-sql _ _ λ now n t k t' d. delete_task-Moves pg id task user now n t k t' d)
        (λ n. Keeps-bind _ _ (ensure-Keeps n no_rights) (λ _. Keeps-pure _)))

  toggled-Keeps : (a : Option SubtaskRow) → Keeps To (Repository.scan_toggled a)
  toggled-Keeps none = Keeps-raise no_subtask
  toggled-Keeps (some s) = Keeps-pure _

  report-Keeps : (a : Option TaskRow) → Keeps To (Admin.report a)
  report-Keeps none = Keeps-raise _
  report-Keeps (some r) = Keeps-pure _

  -- The administrator's marks are not the status.
  soft_delete-Moves :
      (task : String) (now n : ℕ) (t : Tables) (a : Option TaskRow) (t' : Tables)
      → Admin.soft_delete_row pg task now n t ≡ some (a, t')
      → Moves id t.tasks t'.tasks
  unfolding Admin.soft_delete_row
  soft_delete-Moves task now n t a t' h = elim (Option-cases (pg.uuid task)) [
    | inl e ↦ absurd (ground arith)
    | inr (i, e) ↦
        let same : update_where (Admin.is_live i) (Admin.mark_deleted now) t.tasks ≡ t'.tasks =
          ground arith in
        subst (Moves id t.tasks) same (
          update_where-Moves id (Admin.is_live i) (Admin.mark_deleted now) t.tasks (λ r. refl)
            (λ r _. stays refl))
  ]

  restore-Moves :
      (task : String) (now n : ℕ) (t : Tables) (u : Unit {0}) (t' : Tables)
      → Admin.restore_row pg task now n t ≡ some (u, t')
      → Moves id t.tasks t'.tasks
  unfolding Admin.restore_row
  restore-Moves task now n t a t' h = elim (Option-cases (pg.uuid task)) [
    | inl e ↦ absurd (ground arith)
    | inr (i, e) ↦
        let same : update_where (has_id i) Admin.mark_restored t.tasks ≡ t'.tasks = ground arith in
        subst (Moves id t.tasks) same (
          update_where-Moves id (has_id i) Admin.mark_restored t.tasks (λ r. refl)
            (λ r _. stays refl))
  ]

  acknowledge-Moves :
      (task user : String) (now n : ℕ) (t : Tables) (u : Unit {0}) (t' : Tables)
      → Admin.acknowledge_row pg task user now n t ≡ some (u, t')
      → Moves id t.tasks t'.tasks
  unfolding Admin.acknowledge_row
  acknowledge-Moves task user now n t a t' h = elim (Option-cases (pg.uuid user)) [
    | inl e ↦ absurd (ground arith)
    | inr (u, f) ↦ elim (Option-cases (pg.uuid task)) [
      | inl e ↦ absurd (ground arith)
      | inr (i, e) ↦
          let same : update_where (Admin.may_acknowledge i u) Admin.mark_acknowledged t.tasks
              ≡ t'.tasks =
            ground arith in
          subst (Moves id t.tasks) same (
            update_where-Moves id (Admin.may_acknowledge i u) Admin.mark_acknowledged t.tasks
              (λ r. refl) (λ r _. stays refl))
    ]
  ]

  restore_found-To :
      (task : String) (found : Option TaskRow) → Leads From To (Admin.restore_found pg task found)
  unfolding Admin.restore_found
  restore_found-To task none = To-raise not_found
  restore_found-To task (some r) = overdue-To r.due_date _ (
      To-then _ _ (To-sql _ _ λ now n t a t' _. restore-Moves task now n t a t')
        (λ _. Keeps-pure _))

  perform-To : (r : Request) → Leads From To (perform pg r)
  unfolding perform Service.accept Service.reject Service.update Service.delete
      Service.toggle_subtask_done Repository.delete Repository.toggle_subtask_done
      Admin.admin_soft_delete_shared Admin.admin_restore_shared
      Admin.acknowledge_admin_deletion_shared
  perform-To (propose p a t d pr du ss) =
      To-then _ _ (propose-To p a t d pr du ss) (λ _. Keeps-pure tt)
  perform-To (accept task user) = respond-To task user "accepted" (accepts refl refl)
  perform-To (reject task user) = respond-To task user "rejected" (rejects refl refl)
  perform-To (delete task user) =
      To-then _ _
        (To-read _ _ (Reads-sql _ _ (select_task_reads pg task user)) (delete_found-To task user))
        (λ _. Keeps-pure tt)
  perform-To (toggle s user) =
      To-then _ _
        (To-then _ _
          (To-sql _ _
            λ now n t a t' _ h. rw (toggle_subtask_tasks pg id s user now n t a t' h) (stays refl))
          toggled-Keeps)
        (λ _. Keeps-pure tt)
  perform-To (update task user input) =
      To-then _ _ (To-read _ _ (find_by_id-Reads pg task user) (update_found-To task user input))
        (λ _. Keeps-pure tt)
  perform-To (soft_delete task) =
      To-then _ _
        (Leads-if From _ _ _ (To-raise invalid_uuid) (
          To-then _ _ (To-sql _ _ λ now n t a t' _. soft_delete-Moves task now n t a t')
            report-Keeps))
        (λ _. Keeps-pure tt)
  perform-To (restore task) =
      To-then _ _
        (Leads-if From _ _ _ (To-raise invalid_uuid)
          (To-read _ _ (Reads-sql _ _ (select_row_reads pg task)) (restore_found-To task)))
        (λ _. Keeps-pure tt)
  perform-To (acknowledge task user) =
      Leads-if From _ _ _ (To-raise invalid_uuid)
        (To-sql _ _ λ now n t a t' _. acknowledge-Moves task user now n t a t')

-- Over tables with distinct ids, one request, whether it succeeds or not, leaves the status of each task as it was, opens a task
-- as pending, turns pending into accepted or rejected, or removes the task; so a task that was
-- accepted or rejected never changes its status again.
pub perform-Edge :
    (pg : Platform) (id : String) (r : Request) (w : World Tables)
    → HaveDistinctIds w.tables.tasks
    → Edge (status_of id w.tables.tasks) (status_of id (perform pg r w).1.tables.tasks)
perform-Edge pg id r w d = (perform-To pg id w.tables.tasks r).at w (d, refl)
