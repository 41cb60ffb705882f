-- ===== src/SharedTasks/Atomicity.antt =====
-- A request that fails has changed nothing, wherever it failed.
use tasks_service.Prelude.{
  >>=-eq-some, refl, inl, inr, ◌≢◌, ◌⊎◌, Option-cases, arith, Bool-cases, nat_eq, count, any, not,
  select-eq_of_count, select-eq_of_true, any-false_of_count, update_where-eq_of_find,
  update_where-eq_of_count, ℕ, ◌≡◌, true, false, String, Option, none, some, List,
}
use tasks_service.Database.{
  Error, err, World, Exec, Platform, already_handled, not_found, no_rights, no_access, no_subtask,
  pure, raise, ◌>>=◌,
}
use tasks_service.Database.Rules.{
  Atomic, Reads, Reads-pure, Reads-bind, Atomic-sql, Atomic-bind, Reads-sql, ok≢err, Atomic-if,
  Atomic-raise, Atomic-transaction, Atomic-write, Atomic-bind_total,
}
use tasks_service.SharedTasks.Domain.{
  SharedTask, SharedSubtask, SubtaskInput, UpdateInput, validate_subtasks_for_proposal,
}
use tasks_service.SharedTasks.Repository.Statements.{
  select_detail, select_subtasks, set_status, delete_task, select_task, toggle_subtask,
  by_participant, owns_removed, may_toggle, flip, by_addressee,
}
use tasks_service.SharedTasks.Tables.{Tables, TaskRow, SubtaskRow, has_id}
use tasks_service.SharedTasks.Repository
use tasks_service.SharedTasks.Service
use tasks_service.SharedTasks.Admin
use tasks_service.SharedTasks.Requests.{
  Request, propose, accept, reject, delete, toggle, update, soft_delete, restore, acknowledge,
  discard, perform,
}

or_raise-Atomic {ℓ} :
    {A : Type ℓ} (e : Option Error) (m : Exec Tables A) → Atomic m → Atomic (Service.or_raise e m)
or_raise-Atomic none m k = k
or_raise-Atomic (some e) m k = Atomic-raise e

discard-Atomic {ℓ} : {A : Type ℓ} (m : Exec Tables A) → Atomic m → Atomic (discard m)
discard-Atomic m k = Atomic-bind_total m (λ _. pure tt) k (λ a w c. ok≢err tt c)

module _ (pg : Platform) where
  propose-Atomic :
      (p a t d pr du : String) (ss : List SubtaskInput)
      → Atomic (Service.propose pg p a t d pr du ss)
  unfolding Service.propose Repository.propose
  propose-Atomic p a t d pr du ss = Atomic-if _ _ _ (Atomic-raise _) (
      or_raise-Atomic (validate_subtasks_for_proposal p a (Service.candidates ss)) _
        (Atomic-transaction _ _))

  set_status_none :
      (task status user : String) (now n : ℕ) (t t' : Tables)
      → set_status pg task status user now n t ≡ some (0, t')
      → t' ≡ t
  unfolding set_status
  set_status_none task status user now n t t' h =
      let (id, e, h1) = >>=-eq-some (pg.uuid task) _ h in
      let (u, f, h2) = >>=-eq-some (pg.uuid user) _ h1 in
      ground (
        arith,
        update_where-eq_of_count (by_addressee id u)
            (λ r. record r { status = status; updated_at = now }) t.tasks,
      )

  ensure_cases :
      (e : Error) (n : ℕ) (t t' : Tables)
      → (n ≡ 0 → t' ≡ t)
      → ((t' ≡ t) × Atomic (Repository.ensure_affected n (raise e)))
        ⊎ ((w : World Tables) (c : Error) → (Repository.ensure_affected n (raise e) w).0 ≢ err c)
  ensure_cases e n t t' h = elim (Bool-cases (nat_eq n 0)) [
    | inl z ↦ inl (h (ground arith), rw z (Atomic-raise e))
    | inr z ↦ inr (λ w c. rw z (ok≢err tt c))
  ]

  respond-Atomic : (task user status : String) → Atomic (Repository.respond pg task user status)
  unfolding Repository.respond
  respond-Atomic task user status = Atomic-write _ _ _ λ now n t a t' h.
      ensure_cases already_handled a t t'
        (λ z. set_status_none task status user now n t t' (rw z at h))

  delete_task_none :
      (task user : String) (now n : ℕ) (t t' : Tables)
      → delete_task pg task user now n t ≡ some (0, t')
      → t' ≡ t
  unfolding delete_task
  delete_task_none task user now n t t' h =
      let (id, e, h1) = >>=-eq-some (pg.uuid task) _ h in
      let (u, f, h2) = >>=-eq-some (pg.uuid user) _ h1 in
      let none_hit : count (by_participant id u) t.tasks ≡ 0 = ground arith in
      ground (
        arith,
        select-eq_of_count (by_participant id u) t.tasks none_hit,
        select-eq_of_true (λ s. not (any (owns_removed id u s) t.tasks)) t.subtasks
            (λ s. rw (
              any-false_of_count (by_participant id u) (has_id s.shared_task_id) t.tasks none_hit)),
      )

  delete_cases :
      (n : ℕ) (t t' : Tables) (reply : String × String)
      → (n ≡ 0 → t' ≡ t)
      → ((t' ≡ t) × Atomic (Repository.ensure_affected n (raise no_rights) >>= λ _. pure reply))
        ⊎ ((w : World Tables) (c : Error)
            → ((Repository.ensure_affected n (raise no_rights) >>= λ _. pure reply) w).0 ≢ err c)
  unfolding ◌>>=◌
  delete_cases n t t' reply h = elim (Bool-cases (nat_eq n 0)) [
    | inl z ↦ inl (h (ground arith), rw z (Atomic-raise no_rights))
    | inr z ↦ inr (λ w c. rw z (ok≢err reply c))
  ]

  delete_found-Atomic :
      (task user : String) (found : Option TaskRow)
      → Atomic (Repository.delete_found pg task user found)
  unfolding Repository.delete_found
  delete_found-Atomic task user none = Atomic-raise no_access
  delete_found-Atomic task user (some row) = Atomic-if _ _ _ (Atomic-raise _) (
      Atomic-write _ _ _ λ now n t a t' h.
        delete_cases a t t' _ (λ z. delete_task_none task user now n t t' (rw z at h)))

  pub select_task_reads :
      (task user : String) (now n : ℕ) (t : Tables) (a : Option TaskRow) (t' : Tables)
      → select_task pg task user now n t ≡ some (a, t')
      → t' ≡ t
  unfolding select_task
  select_task_reads task user now n t a t' h = ground arith

  delete-Atomic : (task user : String) → Atomic (Repository.delete pg task user)
  unfolding Repository.delete
  delete-Atomic task user =
      Atomic-bind _ _ (Reads-sql _ _ (select_task_reads task user)) (delete_found-Atomic task user)

  toggle_cases :
      (id user : String) (now n : ℕ) (t : Tables) (a : Option SubtaskRow) (t' : Tables)
      → toggle_subtask pg id user now n t ≡ some (a, t')
      → ((t' ≡ t) × Atomic (Repository.scan_toggled a))
        ⊎ ((w : World Tables) (c : Error) → (Repository.scan_toggled a w).0 ≢ err c)
  unfolding toggle_subtask
  toggle_cases id user now n t (some s) t' h = inr (λ w c. ok≢err _ c)
  toggle_cases id user now n t none t' h =
      let (i, e, h1) = >>=-eq-some (pg.uuid id) _ h in
      let (u, f, h2) = >>=-eq-some (pg.uuid user) _ h1 in
      inl (
        ground (arith, update_where-eq_of_find (may_toggle t.tasks i u) flip t.subtasks),
        Atomic-raise no_subtask,
      )

  toggle-Atomic : (id user : String) → Atomic (Repository.toggle_subtask_done pg id user)
  unfolding Repository.toggle_subtask_done
  toggle-Atomic id user = Atomic-write _ _ _ (toggle_cases id user)

  select_detail_reads :
      (task user : String) (now n : ℕ) (t : Tables) (a : Option SharedTask) (t' : Tables)
      → select_detail pg task user now n t ≡ some (a, t')
      → t' ≡ t
  unfolding select_detail
  select_detail_reads task user now n t a t' h = ground arith

  select_subtasks_reads :
      (task : String) (now n : ℕ) (t : Tables) (a : List SharedSubtask) (t' : Tables)
      → select_subtasks pg task now n t ≡ some (a, t')
      → t' ≡ t
  unfolding select_subtasks
  select_subtasks_reads task now n t a t' h = ground arith

  load_task-Reads :
      (task : String) (found : Option SharedTask) → Reads (Repository.load_task pg task found)
  unfolding Repository.load_task
  load_task-Reads task none = Reads-pure none
  load_task-Reads task (some t) =
      Reads-bind _ _ (Reads-sql _ _ (select_subtasks_reads task)) (λ rows. Reads-pure _)

  pub find_by_id-Reads : (task user : String) → Reads (Repository.find_by_id pg task user)
  unfolding Repository.find_by_id
  find_by_id-Reads task user =
      Reads-bind _ _ (Reads-sql _ _ (select_detail_reads task user)) (load_task-Reads task)

  update_found-Atomic :
      (task user : String) (input : UpdateInput) (found : Option SharedTask)
      → Atomic (Service.update_found pg task user input found)
  unfolding Service.update_found Repository.update Repository.counter_propose
  update_found-Atomic task user input none = Atomic-raise not_found
  update_found-Atomic task user input (some t) =
      Atomic-if _ _ _ (Atomic-bind_total _ _ (Atomic-transaction _ _) (λ a w c. ok≢err true c))
        (Atomic-bind_total _ _ (Atomic-transaction _ _) (λ a w c. ok≢err false c))

  update-Atomic :
      (task user : String) (input : UpdateInput) → Atomic (Service.update pg task user input)
  unfolding Service.update
  update-Atomic task user input =
      Atomic-bind _ _ (find_by_id-Reads task user) (update_found-Atomic task user input)

  soft_delete_cases :
      (task : String) (now n : ℕ) (t : Tables) (a : Option TaskRow) (t' : Tables)
      → Admin.soft_delete_row pg task now n t ≡ some (a, t')
      → ((t' ≡ t) × Atomic (Admin.report a))
        ⊎ ((w : World Tables) (c : Error) → (Admin.report a w).0 ≢ err c)
  unfolding Admin.soft_delete_row
  soft_delete_cases task now n t (some r) t' h = inr (λ w c. ok≢err _ c)
  soft_delete_cases task now n t none t' h = elim (Option-cases (pg.uuid task)) [
    | inl e ↦ absurd (ground arith)
    | inr (id, e) ↦ inl (
      ground (arith, update_where-eq_of_find (Admin.is_live id) (Admin.mark_deleted now) t.tasks),
      Atomic-raise _,
    )
  ]

  soft_delete-Atomic : (task : String) → Atomic (Admin.admin_soft_delete_shared pg task)
  unfolding Admin.admin_soft_delete_shared
  soft_delete-Atomic task =
      Atomic-if _ _ _ (Atomic-raise _) (Atomic-write _ _ _ (soft_delete_cases task))

  pub select_row_reads :
      (task : String) (now n : ℕ) (t : Tables) (a : Option TaskRow) (t' : Tables)
      → Admin.select_row pg task now n t ≡ some (a, t')
      → t' ≡ t
  unfolding Admin.select_row
  select_row_reads task now n t a t' h = ground arith

  overdue-Atomic {ℓ} :
      {A : Type ℓ} (due : Option ℕ) (m : Exec Tables A)
      → Atomic m
      → Atomic (Admin.unless_overdue due m)
  overdue-Atomic due m k = record {
    at = λ w e. elim (Bool-cases (Admin.is_overdue w.now due)) [
      | inl late ↦ rw late (λ h. refl)
      | inr early ↦ rw early (k.at w e)
    ];
  }

  restore_found-Atomic :
      (task : String) (found : Option TaskRow) → Atomic (Admin.restore_found pg task found)
  unfolding Admin.restore_found
  restore_found-Atomic task none = Atomic-raise not_found
  restore_found-Atomic task (some r) =
      overdue-Atomic r.due_date _ (Atomic-bind_total _ _ (Atomic-sql _ _) (λ a w c. ok≢err _ c))

  restore-Atomic : (task : String) → Atomic (Admin.admin_restore_shared pg task)
  unfolding Admin.admin_restore_shared
  restore-Atomic task =
      Atomic-if _ _ _ (Atomic-raise _)
        (Atomic-bind _ _ (Reads-sql _ _ (select_row_reads task)) (restore_found-Atomic task))

  pub perform-Atomic : (r : Request) → Atomic (perform pg r)
  unfolding perform Service.accept Service.reject Service.delete Service.toggle_subtask_done
      Admin.acknowledge_admin_deletion_shared
  perform-Atomic (propose p a t d pr du ss) = discard-Atomic _ (propose-Atomic p a t d pr du ss)
  perform-Atomic (accept task user) = respond-Atomic task user "accepted"
  perform-Atomic (reject task user) = respond-Atomic task user "rejected"
  perform-Atomic (delete task user) = discard-Atomic _ (delete-Atomic task user)
  perform-Atomic (toggle s user) = discard-Atomic _ (toggle-Atomic s user)
  perform-Atomic (update task user input) = discard-Atomic _ (update-Atomic task user input)
  perform-Atomic (soft_delete task) = discard-Atomic _ (soft_delete-Atomic task)
  perform-Atomic (restore task) = discard-Atomic _ (restore-Atomic task)
  perform-Atomic (acknowledge task user) = Atomic-if _ _ _ (Atomic-raise _) (Atomic-sql _ _)

  -- Whatever request returns an error, for whatever reason and at whichever of its calls of the
  -- database, the tables are then as they were before the request.
  pub failed_request_unchanged :
      (r : Request) (w : World Tables) (e : Error)
      → (perform pg r w).0 ≡ err e
      → (perform pg r w).1.tables ≡ w.tables
  failed_request_unchanged r w e h = (perform-Atomic r).at w e h
