-- ===== src/SharedTasks/Invariant.antt =====
-- The tables of shared tasks stay well formed: every request, whether it succeeds, is refused or
-- fails half way, and so every sequence of requests.
pub mod Rows
pub mod Statements
use tasks_service.Prelude.{
  of_some, ℕ, ◌+◌, ◌≡◌, ◌≢◌, refl, sym, ap, ◌∙◌, Bool, true, false, String, Option, none, some,
  List, [], ◌∷◌, ◌==◌, ◌||◌, arith, eq_iff, All, inl, inr, Bool-cases, Option-cases, subst,
}
use tasks_service.Database.{
  World, Exec, Error, Platform, pure, raise, already_handled, no_rights, no_access, no_subtask,
  not_found, self_task, invalid_uuid, ◌>>=◌, ◌>>◌,
}
use tasks_service.Database.Rules.{
  Keeps, Reads, Leads-bind, Keeps-sql, Keeps-pure, Keeps-raise, Keeps-if, Keeps-bind,
  Keeps-transaction,
}
use tasks_service.SharedTasks.Domain.{
  SharedTask, SubtaskInput, UpdateInput, validate_subtasks_for_proposal, is_valid,
}
use tasks_service.SharedTasks.Tables.{Tables, TaskRow, SubtaskRow, has_id}
use tasks_service.SharedTasks.Repository
use tasks_service.SharedTasks.Service
use tasks_service.SharedTasks.Admin
use tasks_service.SharedTasks.Requests.{
  Request, propose, accept, reject, delete, toggle, update, soft_delete, restore, acknowledge,
  perform, serve, IsCanonical,
}
use tasks_service.SharedTasks.Atomicity.{find_by_id-Reads, select_task_reads, select_row_reads}
use Rows.{IsWellFormed}
use Statements.{
  update_where-IsWellFormed, insert_task-IsWellFormed, insert_subtask-IsWellFormed,
  set_status-IsWellFormed, update_task-IsWellFormed, counter_task-IsWellFormed,
  delete_subtasks-IsWellFormed, delete_task-IsWellFormed, toggle_subtask-IsWellFormed,
}

Keeps-Reads {ℓ} : {A : Type ℓ} (m : Exec Tables A) → Reads m → Keeps IsWellFormed m
Keeps-Reads m r = record { at = λ w v. rw (r.at w) v }

or_raise-Keeps {ℓ} :
    {A : Type ℓ} (e : Option Error) (m : Exec Tables A)
    → Keeps IsWellFormed m
    → Keeps IsWellFormed (Service.or_raise e m)
or_raise-Keeps none m k = k
or_raise-Keeps (some e) m k = Keeps-raise e

overdue-Keeps {ℓ} :
    {A : Type ℓ} (due : Option ℕ) (m : Exec Tables A)
    → Keeps IsWellFormed m
    → Keeps IsWellFormed (Admin.unless_overdue due m)
overdue-Keeps due m k = record {
  at = λ w v. elim (Bool-cases (Admin.is_overdue w.now due)) [
    | inl late ↦ rw late v
    | inr early ↦ rw early (k.at w v)
  ];
}

ensure-Keeps : (n : ℕ) (e : Error) → Keeps IsWellFormed (Repository.ensure_affected n (raise e))
ensure-Keeps n e = Keeps-if _ _ _ (Keeps-raise e) (Keeps-pure tt)

module _ (pg : Platform) where
  insert_subtasks-Keeps :
      (what task : String) (i : ℕ) (ss : List SubtaskInput)
      → Keeps IsWellFormed (Repository.insert_subtasks pg what task i ss)
  unfolding Repository.insert_subtasks
  insert_subtasks-Keeps what task i [] = Keeps-pure tt
  insert_subtasks-Keeps what task i (s ∷ rest) =
      let later = insert_subtasks-Keeps what task (i + 1) rest in
      Keeps-if _ _ _ later (
        Keeps-bind _ _ (Keeps-sql _ _ (insert_subtask-IsWellFormed pg task s.title s.assignee_id i))
          (λ _. later))

  propose-Keeps :
      (p a title desc priority due : String) (ss : List SubtaskInput)
      → pg.uuid p ≢ pg.uuid a
      → Keeps IsWellFormed (Repository.propose pg p a title desc priority due ss)
  unfolding Repository.propose
  propose-Keeps p a title desc priority due ss two = Keeps-transaction _ _ (
      Keeps-bind _ _
        (Keeps-sql _ _
          λ now n t id t'. insert_task-IsWellFormed pg p a title desc _ _ now n t id t' two)
        (λ task. Keeps-bind _ _ (insert_subtasks-Keeps _ task 0 ss) (λ _. Keeps-pure task)))

  service_propose-Keeps :
      (p a title desc priority due : String) (ss : List SubtaskInput)
      → pg.uuid p ≡ some p
      → pg.uuid a ≡ some a
      → Keeps IsWellFormed (Service.propose pg p a title desc priority due ss)
  unfolding Service.propose
  service_propose-Keeps p a title desc priority due ss hp ha = elim (Bool-cases (p == a)) [
    | inl e ↦ rw e (Keeps-raise self_task)
    | inr e ↦ rw e (
        or_raise-Keeps (validate_subtasks_for_proposal p a (Service.candidates ss)) _ (
          propose-Keeps p a title desc priority due ss
            (λ same. cc (e, (eq_iff p a).1 (of_some (sym hp ∙ same ∙ ha))))))
  ]

  respond-Keeps :
      (task user status : String)
      → is_valid status ≡ true
      → Keeps IsWellFormed (Repository.respond pg task user status)
  unfolding Repository.respond
  respond-Keeps task user status valid =
      Keeps-bind _ _
        (Keeps-sql _ _
          λ now n t k t'. set_status-IsWellFormed pg task status user now n t k t' valid)
        (λ n. ensure-Keeps n already_handled)

  replace-Keeps :
      (task : String) (ss : Option (List SubtaskInput))
      → Keeps IsWellFormed (Repository.replace_subtasks pg task ss)
  unfolding Repository.replace_subtasks
  replace-Keeps task none = Keeps-pure tt
  replace-Keeps task (some ss) =
      Keeps-bind _ _ (Keeps-sql _ _ (delete_subtasks-IsWellFormed pg task))
        (λ _. insert_subtasks-Keeps _ task 0 ss)

  update-Keeps :
      (task user : String) (input : UpdateInput)
      → Keeps IsWellFormed (Repository.update pg task user input)
  unfolding Repository.update
  update-Keeps task user input = Keeps-transaction _ _ (
      Keeps-bind _ _
        (Keeps-sql _ _
          (update_task-IsWellFormed pg input.title input.description input.priority _ task user))
        (λ n. Keeps-bind _ _ (ensure-Keeps n no_rights) (λ _. replace-Keeps task input.subtasks)))

  counter-Keeps :
      (task user : String) (input : UpdateInput)
      → Keeps IsWellFormed (Repository.counter_propose pg task user input)
  unfolding Repository.counter_propose
  counter-Keeps task user input = Keeps-transaction _ _ (
      Keeps-bind _ _
        (Keeps-sql _ _
          (counter_task-IsWellFormed pg input.title input.description input.priority _ task user))
        (λ n.
          Keeps-bind _ _ (ensure-Keeps n already_handled) (λ _. replace-Keeps task input.subtasks)))

  update_found-Keeps :
      (task user : String) (input : UpdateInput) (found : Option SharedTask)
      → Keeps IsWellFormed (Service.update_found pg task user input found)
  unfolding Service.update_found
  update_found-Keeps task user input none = Keeps-raise not_found
  update_found-Keeps task user input (some t) =
      Keeps-if _ _ _ (Keeps-bind _ _ (counter-Keeps task user input) (λ _. Keeps-pure true))
        (Keeps-bind _ _ (update-Keeps task user input) (λ _. Keeps-pure false))

  delete_found-Keeps :
      (task user : String) (found : Option TaskRow)
      → Keeps IsWellFormed (Repository.delete_found pg task user found)
  unfolding Repository.delete_found
  delete_found-Keeps task user none = Keeps-raise no_access
  delete_found-Keeps task user (some row) = Keeps-if _ _ _ (Keeps-raise _) (
      Keeps-bind _ _ (Keeps-sql _ _ (delete_task-IsWellFormed pg task user))
        (λ n. Keeps-bind _ _ (ensure-Keeps n no_rights) (λ _. Keeps-pure _)))

  toggled-Keeps : (a : Option SubtaskRow) → Keeps IsWellFormed (Repository.scan_toggled a)
  toggled-Keeps none = Keeps-raise no_subtask
  toggled-Keeps (some s) = Keeps-pure _

  soft_delete_row-IsWellFormed :
      (task : String) (now n : ℕ) (t : Tables) (a : Option TaskRow) (t' : Tables)
      → Admin.soft_delete_row pg task now n t ≡ some (a, t')
      → IsWellFormed t
      → IsWellFormed t'
  unfolding Admin.soft_delete_row
  soft_delete_row-IsWellFormed task now n t a t' h v = elim (Option-cases (pg.uuid task)) [
    | inl e ↦ absurd (ground arith)
    | inr (id, e) ↦ subst IsWellFormed (ground arith) (
        update_where-IsWellFormed (Admin.is_live id) (Admin.mark_deleted now) t (λ r. refl)
          (λ r two. two) (λ r valid. valid) v)
  ]

  restore_row-IsWellFormed :
      (task : String) (now n : ℕ) (t : Tables) (u : Unit {0}) (t' : Tables)
      → Admin.restore_row pg task now n t ≡ some (u, t')
      → IsWellFormed t
      → IsWellFormed t'
  unfolding Admin.restore_row
  restore_row-IsWellFormed task now n t a t' h v = elim (Option-cases (pg.uuid task)) [
    | inl e ↦ absurd (ground arith)
    | inr (id, e) ↦ subst IsWellFormed (ground arith) (
        update_where-IsWellFormed (has_id id) Admin.mark_restored t (λ r. refl) (λ r two. two)
          (λ r valid. valid) v)
  ]

  acknowledge_row-IsWellFormed :
      (task user : String) (now n : ℕ) (t : Tables) (u : Unit {0}) (t' : Tables)
      → Admin.acknowledge_row pg task user now n t ≡ some (u, t')
      → IsWellFormed t
      → IsWellFormed t'
  unfolding Admin.acknowledge_row
  acknowledge_row-IsWellFormed task user now n t a t' h v = elim (Option-cases (pg.uuid user)) [
    | inl e ↦ absurd (ground arith)
    | inr (u, f) ↦ elim (Option-cases (pg.uuid task)) [
      | inl e ↦ absurd (ground arith)
      | inr (id, e) ↦ subst IsWellFormed (ground arith) (
          update_where-IsWellFormed (Admin.may_acknowledge id u) Admin.mark_acknowledged t
            (λ r. refl) (λ r two. two) (λ r valid. valid) v)
    ]
  ]

  report-Keeps : (a : Option TaskRow) → Keeps IsWellFormed (Admin.report a)
  report-Keeps none = Keeps-raise _
  report-Keeps (some r) = Keeps-pure _

  restore_found-Keeps :
      (task : String) (found : Option TaskRow)
      → Keeps IsWellFormed (Admin.restore_found pg task found)
  unfolding Admin.restore_found
  restore_found-Keeps task none = Keeps-raise not_found
  restore_found-Keeps task (some r) =
      overdue-Keeps r.due_date _
        (Keeps-bind _ _ (Keeps-sql _ _ (restore_row-IsWellFormed task)) (λ _. Keeps-pure _))

  perform-Keeps : (r : Request) → IsCanonical pg r → Keeps IsWellFormed (perform pg r)
  unfolding perform Service.accept Service.reject Service.update Service.delete
      Service.toggle_subtask_done Repository.delete Repository.toggle_subtask_done
      Admin.admin_soft_delete_shared Admin.admin_restore_shared
      Admin.acknowledge_admin_deletion_shared
  perform-Keeps (propose p a t d pr du ss) c =
      Keeps-bind _ _ (service_propose-Keeps p a t d pr du ss c.0 c.1) (λ _. Keeps-pure tt)
  perform-Keeps (accept task user) c = respond-Keeps task user "accepted" refl
  perform-Keeps (reject task user) c = respond-Keeps task user "rejected" refl
  perform-Keeps (delete task user) c =
      Keeps-bind _ _
        (Keeps-bind _ _
          (Keeps-sql _ _ λ now n t a t' h v. rw (select_task_reads pg task user now n t a t' h) v)
          (delete_found-Keeps task user))
        (λ _. Keeps-pure tt)
  perform-Keeps (toggle s user) c =
      Keeps-bind _ _
        (Keeps-bind _ _ (Keeps-sql _ _ (toggle_subtask-IsWellFormed pg s user)) toggled-Keeps)
        (λ _. Keeps-pure tt)
  perform-Keeps (update task user input) c =
      Keeps-bind _ _
        (Keeps-bind _ _ (Keeps-Reads _ (find_by_id-Reads pg task user))
          (update_found-Keeps task user input))
        (λ _. Keeps-pure tt)
  perform-Keeps (soft_delete task) c =
      Keeps-bind _ _
        (Keeps-if _ _ _ (Keeps-raise invalid_uuid)
          (Keeps-bind _ _ (Keeps-sql _ _ (soft_delete_row-IsWellFormed task)) report-Keeps))
        (λ _. Keeps-pure tt)
  perform-Keeps (restore task) c =
      Keeps-bind _ _
        (Keeps-if _ _ _ (Keeps-raise invalid_uuid) (
          Keeps-bind _ _
            (Keeps-sql _ _ λ now n t a t' h v. rw (select_row_reads pg task now n t a t' h) v)
            (restore_found-Keeps task)))
        (λ _. Keeps-pure tt)
  perform-Keeps (acknowledge task user) c =
      Keeps-if _ _ _ (Keeps-raise invalid_uuid)
        (Keeps-sql _ _ (acknowledge_row-IsWellFormed task user))

  -- From well-formed tables, any sequence of requests whose proposals name their users in the
  -- spelling of the database leads to well-formed tables, whichever of the requests are refused and
  -- whichever of their calls fail: the ids of the tasks are distinct, each task has two different
  -- users and a valid status, and each subtask has its task.
  pub serve-IsWellFormed :
      (rs : List Request) (w : World Tables)
      → All (IsCanonical pg) rs
      → IsWellFormed w.tables
      → IsWellFormed (serve pg rs w).tables
  unfolding serve
  serve-IsWellFormed [] w c v = v
  serve-IsWellFormed (r ∷ rest) w c v =
      serve-IsWellFormed rest (perform pg r w).1 c.1 ((perform-Keeps r c.0).at w v)
