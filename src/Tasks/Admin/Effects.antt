-- ===== src/Tasks/Admin/Effects.antt =====
-- What the reads and the administrator's writes of
-- app/internal/tasks/repository/postgres/postgres.go do to the tables.
use tasks_service.Prelude.{
  ℕ, ◌≡◌, ◌≢◌, ◌⊎◌, refl, sym, ◌∙◌, inl, inr, Bool, true, false, Bool-cases, String, Option, none,
  some, List, ltb, arith, subst, update_where, update_where-eq_of_find, All-update_where,
  >>=-eq-some, subst_tables, of_some, if◌then◌else◌,
}
use tasks_service.Database.{
  Platform, World, Exec, Result, ok, err, Error, not_found, pure, sql, ◌>>=◌,
}
use tasks_service.Database.Rules.{
  Keeps, Keeps-pure, Keeps-raise, Keeps-sql, Keeps-if, Keeps-bind, Reads, Reads-sql, Reads-bind,
  Reads-pure, Reads-raise, Atomic, Atomic-raise, Atomic-if, Atomic-sql, Atomic-bind,
  Atomic-bind_total, Atomic-write, ok≢err,
}
use tasks_service.Tasks.Domain.{Task, Subtask, can_transition_to}
use tasks_service.Tasks.Tables.{TaskRow, Tables, Generators, has_task_id}
use tasks_service.Tasks.Repository.{scan_row}
use tasks_service.Tasks.Admin
use tasks_service.Tasks.Admin.{
  is_live, mark_deleted, may_acknowledge, mark_acknowledged, mark_restored, soft_delete_row,
  acknowledge_row, select_row, restore_row, unless_overdue,
}
use tasks_service.Tasks.Reads.{select_task, select_subtasks, with_subtasks, find_by_id}
use tasks_service.Tasks.Service
use tasks_service.Tasks.Log.Statements.{IsLogged, HasCreation}

scan_row-Reads {ℓ} : {A : Type ℓ} (what : String) (o : Option A) → Reads (scan_row what o)
scan_row-Reads what none = Reads-raise _
scan_row-Reads what (some a) = Reads-pure a

Reads-if {ℓ} :
    {A : Type ℓ} (b : Bool) {m n : Exec Tables A} → Reads m → Reads n → Reads (if b then m else n)
Reads-if true k l = k
Reads-if false k l = l

pub Keeps-Reads {ℓ} : {A : Type ℓ} (P : Tables → Type 0) (m : Exec Tables A) → Reads m → Keeps P m
Keeps-Reads P m r = record { at = λ w v. subst P (sym (r.at w)) v }

module _ (pg : Platform) (gen : Generators) where
  subtasks_read : (id : String) → Reads (sql "find subtasks" (select_subtasks pg id))
  subtasks_read id = Reads-sql _ _ λ now n t a t' h. unfold select_subtasks in ground arith

  same_tables :
      (task : Task) (r : Result (List Subtask) × World Tables)
      → (with_subtasks pg task r).1.tables ≡ r.1.tables
  same_tables task (ok ss, w) = refl
  same_tables task (err e, w) = refl

  pub find_by_id-Reads : (id : String) → Reads (find_by_id pg id)
  unfolding find_by_id select_task
  find_by_id-Reads id = Reads-bind _ _ (Reads-sql _ _ λ now n t a t' h. ground arith) λ found.
      Reads-bind _ _ (scan_row-Reads _ found) λ task. record {
        at = λ w.
            same_tables task (sql "find subtasks" (select_subtasks pg id) w)
            ∙ (subtasks_read id).at w;
      }

  pub check_transition-Reads :
      (id : String) (status : Option String) → Reads (Service.check_transition pg gen id status)
  unfolding Service.check_transition
  check_transition-Reads id none = Reads-pure tt
  check_transition-Reads id (some s) =
      Reads-bind _ _ (find_by_id-Reads id)
        λ task. Reads-if (can_transition_to task s) (Reads-pure tt) (Reads-raise _)

  overdue-Atomic {ℓ} :
      {A : Type ℓ} (due : ℕ) (m : Exec Tables A) → Atomic m → Atomic (unless_overdue due m)
  overdue-Atomic due m k = record {
    at = λ w e. elim (Bool-cases (ltb due w.now)) [
      | inl late ↦ rw late (λ h. refl)
      | inr early ↦ rw early (k.at w e)
    ];
  }

  overdue-Keeps {ℓ} :
      {A : Type ℓ} (P : Tables → Type 0) (due : ℕ) (m : Exec Tables A)
      → Keeps P m
      → Keeps P (unless_overdue due m)
  overdue-Keeps P due m k = record {
    at = λ w v. elim (Bool-cases (ltb due w.now)) [
      | inl late ↦ rw late v
      | inr early ↦ rw early (k.at w v)
    ];
  }

  -- A mark on rows of the tasks leaves their ids and the outbox.
  marked-IsLogged :
      (hit : TaskRow → Bool) (mark : TaskRow → TaskRow) (t : Tables)
      → ((r : TaskRow) → (mark r).task_id ≡ r.task_id)
      → IsLogged t
      → IsLogged (record t { tasks = update_where hit mark t.tasks })
  marked-IsLogged hit mark t same =
      All-update_where (HasCreation t.outbox) hit mark t.tasks (λ r one h. rw (same r) h)

  soft_delete_row-IsLogged :
      (task : String) (now n : ℕ) (t : Tables) (a : Option TaskRow) (t' : Tables)
      → soft_delete_row pg task now n t ≡ some (a, t')
      → IsLogged t
      → IsLogged t'
  unfolding soft_delete_row
  soft_delete_row-IsLogged task now n t a t' h v =
      let (id, e, f) = >>=-eq-some (pg.uuid task) _ h in
      subst_tables IsLogged (of_some f)
        (marked-IsLogged (is_live id) (mark_deleted now) t (λ r. refl) v)

  acknowledge_row-IsLogged :
      (task user : String) (now n : ℕ) (t : Tables) (a : Unit {0}) (t' : Tables)
      → acknowledge_row pg task user now n t ≡ some (a, t')
      → IsLogged t
      → IsLogged t'
  unfolding acknowledge_row
  acknowledge_row-IsLogged task user now n t a t' h v =
      let (id, e, f) = >>=-eq-some (pg.uuid task) _ h in
      let (u, g, k) = >>=-eq-some (pg.uuid user) _ f in
      subst_tables IsLogged (of_some k)
        (marked-IsLogged (may_acknowledge id u) mark_acknowledged t (λ r. refl) v)

  restore_row-IsLogged :
      (task : String) (now n : ℕ) (t : Tables) (a : Unit {0}) (t' : Tables)
      → restore_row pg task now n t ≡ some (a, t')
      → IsLogged t
      → IsLogged t'
  unfolding restore_row
  restore_row-IsLogged task now n t a t' h v =
      let (id, e, f) = >>=-eq-some (pg.uuid task) _ h in
      subst_tables IsLogged (of_some f)
        (marked-IsLogged (has_task_id id) mark_restored t (λ r. refl) v)

  select_row-Reads : (task : String) → Reads (sql "admin restore get task" (select_row pg task))
  unfolding select_row
  select_row-Reads task = Reads-sql _ _ λ now n t a t' h. ground arith

  soft_delete_cases :
      (task : String) (now n : ℕ) (t : Tables) (a : Option TaskRow) (t' : Tables)
      → soft_delete_row pg task now n t ≡ some (a, t')
      → ((t' ≡ t)
          × Atomic (scan_row "admin soft delete task" a >>= λ r. pure {T = Tables} r.user_id))
        ⊎ ((w : World Tables) (c : Error)
            → ((scan_row "admin soft delete task" a >>= λ r. pure r.user_id) w).0 ≢ err c)
  unfolding soft_delete_row ◌>>=◌
  soft_delete_cases task now n t (some r) t' h = inr (λ w c. ok≢err _ c)
  soft_delete_cases task now n t none t' h =
      let (id, e, f) = >>=-eq-some (pg.uuid task) _ h in
      inl (
        ground (arith, update_where-eq_of_find (is_live id) (mark_deleted now) t.tasks),
        Atomic-raise _,
      )

  pub soft_delete-Keeps : (task : String) → Keeps IsLogged (Admin.admin_soft_delete pg task)
  unfolding Admin.admin_soft_delete
  soft_delete-Keeps task = Keeps-if _ _ _ (Keeps-raise _) (
      Keeps-bind _ _ (Keeps-sql _ _ (soft_delete_row-IsLogged task)) λ found.
        Keeps-bind _ _ (Keeps-Reads IsLogged _ (scan_row-Reads _ found)) (λ r. Keeps-pure _))

  pub soft_delete-Atomic : (task : String) → Atomic (Admin.admin_soft_delete pg task)
  unfolding Admin.admin_soft_delete
  soft_delete-Atomic task =
      Atomic-if _ _ _ (Atomic-raise _) (Atomic-write _ _ _ (soft_delete_cases task))

  pub acknowledge-Keeps :
      (task user : String) → Keeps IsLogged (Admin.acknowledge_admin_deletion pg task user)
  unfolding Admin.acknowledge_admin_deletion
  acknowledge-Keeps task user =
      Keeps-if _ _ _ (Keeps-raise _) (Keeps-sql _ _ (acknowledge_row-IsLogged task user))

  pub acknowledge-Atomic :
      (task user : String) → Atomic (Admin.acknowledge_admin_deletion pg task user)
  unfolding Admin.acknowledge_admin_deletion
  acknowledge-Atomic task user = Atomic-if _ _ _ (Atomic-raise _) (Atomic-sql _ _)

  restore_found-Keeps :
      (task : String) (found : Option TaskRow) → Keeps IsLogged (Admin.restore_found pg task found)
  unfolding Admin.restore_found
  restore_found-Keeps task none = Keeps-raise not_found
  restore_found-Keeps task (some r) =
      overdue-Keeps IsLogged r.due_date _
        (Keeps-bind _ _ (Keeps-sql _ _ (restore_row-IsLogged task)) (λ a. Keeps-pure _))

  restore_found-Atomic :
      (task : String) (found : Option TaskRow) → Atomic (Admin.restore_found pg task found)
  unfolding Admin.restore_found
  restore_found-Atomic task none = Atomic-raise not_found
  restore_found-Atomic task (some r) =
      overdue-Atomic r.due_date _ (Atomic-bind_total _ _ (Atomic-sql _ _) (λ a w c. ok≢err _ c))

  pub restore-Keeps : (task : String) → Keeps IsLogged (Admin.admin_restore pg task)
  unfolding Admin.admin_restore
  restore-Keeps task =
      Keeps-if _ _ _ (Keeps-raise _)
        (Keeps-bind _ _ (Keeps-Reads IsLogged _ (select_row-Reads task)) (restore_found-Keeps task))

  pub restore-Atomic : (task : String) → Atomic (Admin.admin_restore pg task)
  unfolding Admin.admin_restore
  restore-Atomic task =
      Atomic-if _ _ _ (Atomic-raise _)
        (Atomic-bind _ _ (select_row-Reads task) (restore_found-Atomic task))
