-- ===== src/Tasks/Log.antt =====
-- The transactional outbox of app/internal/tasks: no task without the event of its creation.
pub mod Statements
use tasks_service.Prelude.{
  ℕ, ◌≡◌, refl, sym, ap, ◌∙◌, inl, inr, Bool, true, false, not, Bool-cases, String, Option, none,
  some, List, [], ◌∷◌, arith, subst, All, if◌then◌else◌,
}
use tasks_service.Database.{
  Platform, World, Exec, Result, ok, err, Error, pure, raise, sql, transaction, settle, after_call,
  ◌>>=◌, ◌>>◌,
}
use tasks_service.Database.Rules.{
  Keeps, Leads, Keeps-pure, Keeps-raise, Keeps-sql, Keeps-if, Keeps-bind, Keeps-transaction,
}
use tasks_service.Database.Inversion.{sql_ok, bind_ok}
use tasks_service.Tasks.Domain.{Task, Subtask}
use tasks_service.Tasks.Tables.{TaskRow, SubtaskRow, Tables, Generators}
use tasks_service.Tasks.Repository
use tasks_service.Tasks.Repository.{
  UpdatePatch, scan_row, ensure_affected, select_user, select_default_tag, select_custom_tag,
  insert_custom_tag, or_insert_tag, or_custom_tag, resolve_tag, patch_tag, update_task,
  select_updated, write_patch,
}
use tasks_service.Tasks.Statements.{insert_batch, insert_batch_events}
use tasks_service.Tasks.Subtasks
use tasks_service.Tasks.Tags.{
  IsStable, other-Keeps, scan_row-Keeps, affected-Keeps, patch_tag-Keeps, select_updated_same,
}
use tasks_service.Tasks.Service
use tasks_service.Tasks.Admin.Effects.{
  Keeps-Reads, check_transition-Reads, soft_delete-Keeps, acknowledge-Keeps, restore-Keeps,
}
use tasks_service.Tasks.Requests.{Request, perform, serve}
use tasks_service.Tasks.Log.Statements.{
  IsLogged, HasCreation, create_tagged-IsLogged, create_simple-IsLogged, batch-IsLogged,
  insert_update-IsLogged, delete_task-IsLogged, delete_tasks-IsLogged, update_task-IsLogged,
}

settle-keeps :
    {A : Type 0} (P : Tables → Type 0) (what : String) (before : Tables)
    (r : Result A × World Tables)
    → P before
    → ((a : A) → r.0 ≡ ok a → P r.1.tables)
    → P (settle what before r).1.tables
settle-keeps P what before (err e, w) v after = v
settle-keeps P what before (ok a, w) v after = ground (arith, after a refl)

-- A transaction keeps what holds when it commits: the tables in between are not seen.
commit-Keeps :
    {A : Type 0} (P : Tables → Type 0) (what : String) (body : Exec Tables A)
    → ((w : World Tables) (a : A) → P w.tables → (body w).0 ≡ ok a → P (body w).1.tables)
    → Keeps P (transaction what body)
unfolding transaction
commit-Keeps P what body after = record {
  at = λ w v. elim (Bool-cases (w.fails w.calls)) [
    | inl e ↦ rw e v
    | inr e ↦
        rw e
          (settle-keeps P what w.tables (body (after_call w)) v (λ a h. after (after_call w) a v h))
  ];
}

IsLogged-IsStable : IsStable IsLogged
IsLogged-IsStable t t' tasks outbox v =
    subst (λ o. All (HasCreation o) t'.tasks) outbox (subst (All (HasCreation t.outbox)) tasks v)

module _ (pg : Platform) (gen : Generators) where
  create-Keeps : (task : Task) → Keeps IsLogged (Repository.create pg gen task)
  unfolding Repository.create
  create-Keeps task =
      Keeps-if _ _ _ (Keeps-sql _ _ (create_tagged-IsLogged pg gen task))
        (Keeps-sql _ _ (create_simple-IsLogged pg gen task))

  batch_ok :
      (tasks : List Task) (w : World Tables) (a : Unit {0})
      → IsLogged w.tables
      → ((sql "create batch insert tasks" (insert_batch pg gen tasks)
            >> sql "create batch insert outbox" (insert_batch_events pg gen tasks))
          w).0
        ≡ ok a
      → IsLogged
          ((sql "create batch insert tasks" (insert_batch pg gen tasks)
              >> sql "create batch insert outbox" (insert_batch_events pg gen tasks))
            w).1.tables
  batch_ok tasks w a v h =
      let first = sql "create batch insert tasks" (insert_batch pg gen tasks) in
      let second = sql "create batch insert outbox" (insert_batch_events pg gen tasks) in
      let (b, h1, same) = bind_ok first (λ _. second) w a h in
      let e1 = sql_ok "create batch insert tasks" (insert_batch pg gen tasks) w b h1 in
      let h2 = ap (λ (r : Result (Unit {0}) × World Tables). r.0) (sym same) ∙ h in
      let e2 =
        sql_ok "create batch insert outbox" (insert_batch_events pg gen tasks) (first w).1 a h2 in
      subst (λ (r : Result (Unit {0}) × World Tables). IsLogged r.1.tables) (sym same)
        (batch-IsLogged pg gen tasks w.now w.calls (first w).1.now (first w).1.calls w.tables
          (first w).1.tables (second (first w).1).1.tables b a e1 e2 v)

  create_batch-Keeps : (tasks : List Task) → Keeps IsLogged (Repository.create_batch pg gen tasks)
  unfolding Repository.create_batch
  create_batch-Keeps tasks =
      Keeps-if _ _ _ (Keeps-pure tt) (commit-Keeps IsLogged _ _ (batch_ok tasks))

  write_patch-Keeps :
      (task : String) (p : UpdatePatch) (tag : Option String)
      → Keeps IsLogged (write_patch pg gen task p tag)
  unfolding write_patch
  write_patch-Keeps task p tag = Keeps-if _ _ _ (Keeps-raise _) (
      Keeps-bind _ _ (Keeps-sql _ _ (update_task-IsLogged pg gen task p tag)) λ n.
        Keeps-bind _ _ (affected-Keeps IsLogged IsLogged-IsStable n) λ _.
          Keeps-bind _ _
            (other-Keeps IsLogged IsLogged-IsStable _ _ (select_updated_same pg gen task))
            λ found. Keeps-bind _ _ (scan_row-Keeps IsLogged IsLogged-IsStable _ found) λ updated.
              Keeps-bind _ _ (Keeps-sql _ _ (insert_update-IsLogged pg gen task updated))
                (λ _. Keeps-pure updated))

  update-Keeps :
      (task : String) (p : UpdatePatch) → Keeps IsLogged (Repository.update pg gen task p)
  unfolding Repository.update
  update-Keeps task p = Keeps-if _ _ _ (Keeps-raise _) (
      Keeps-transaction _ _ (
        Keeps-bind _ _ (patch_tag-Keeps IsLogged IsLogged-IsStable pg gen task p.tag_name)
          (write_patch-Keeps task p)))

  delete-Keeps : (task : String) → Keeps IsLogged (Repository.delete pg gen task)
  unfolding Repository.delete
  delete-Keeps task = Keeps-if _ _ _ (Keeps-raise _) (
      Keeps-bind _ _ (Keeps-sql _ _ (delete_task-IsLogged pg gen task))
        (affected-Keeps IsLogged IsLogged-IsStable))

  delete_batch-Keeps : (tasks : List String) → Keeps IsLogged (Repository.delete_batch pg gen tasks)
  unfolding Repository.delete_batch
  delete_batch-Keeps tasks =
      Keeps-if _ _ _ (Keeps-pure tt) (Keeps-sql _ _ (delete_tasks-IsLogged pg gen tasks))

  create_subtasks-Keeps :
      (task : String) (ss : List Subtask) → Keeps IsLogged (Subtasks.create_subtasks pg gen task ss)
  unfolding Subtasks.create_subtasks Subtasks.insert_subtasks
  create_subtasks-Keeps task ss =
      Keeps-if _ _ _ (Keeps-pure tt)
        (other-Keeps IsLogged IsLogged-IsStable _ _ λ now n t a t' h. ground arith)

  created-Keeps : (o : Option SubtaskRow) → Keeps IsLogged (Subtasks.scan_created pg gen o)
  created-Keeps none = Keeps-raise _
  created-Keeps (some s) = Keeps-pure _

  create_subtask-Keeps :
      (task owner title : String) → Keeps IsLogged (Subtasks.create_subtask pg gen task owner title)
  unfolding Subtasks.create_subtask Subtasks.insert_subtask
  create_subtask-Keeps task owner title =
      Keeps-bind _ _ (other-Keeps IsLogged IsLogged-IsStable _ _ λ now n t a t' h. ground arith)
        created-Keeps

  toggle_done-Keeps :
      (subtask owner : String) → Keeps IsLogged (Subtasks.toggle_done pg gen subtask owner)
  unfolding Subtasks.toggle_done Subtasks.toggle_row
  toggle_done-Keeps subtask owner =
      Keeps-bind _ _ (other-Keeps IsLogged IsLogged-IsStable _ _ λ now n t a t' h. ground arith)
        λ found.
          Keeps-bind _ _ (scan_row-Keeps IsLogged IsLogged-IsStable _ found) (λ s. Keeps-pure _)

  are_all_done-Keeps : (task : String) → Keeps IsLogged (Subtasks.are_all_done pg gen task)
  unfolding Subtasks.are_all_done Subtasks.count_open
  are_all_done-Keeps task =
      Keeps-bind _ _ (other-Keeps IsLogged IsLogged-IsStable _ _ λ now n t a t' h. ground arith)
        (λ n. Keeps-pure _)

  delete_subtask-Keeps :
      (subtask owner : String) → Keeps IsLogged (Subtasks.delete_subtask pg gen subtask owner)
  unfolding Subtasks.delete_subtask Subtasks.delete_row
  delete_subtask-Keeps subtask owner =
      Keeps-bind _ _ (other-Keeps IsLogged IsLogged-IsStable _ _ λ now n t a t' h. ground arith)
        (λ n. Keeps-if _ _ _ (Keeps-raise _) (Keeps-pure tt))

  update_subtask-Keeps :
      (subtask owner title : String)
      → Keeps IsLogged (Subtasks.update_subtask pg gen subtask owner title)
  unfolding Subtasks.update_subtask Subtasks.rename_row
  update_subtask-Keeps subtask owner title =
      Keeps-bind _ _ (other-Keeps IsLogged IsLogged-IsStable _ _ λ now n t a t' h. ground arith)
        (λ n. Keeps-if _ _ _ (Keeps-raise _) (Keeps-pure tt))

  complete-IsLogged :
      (task : String) (r : Result Bool × World Tables)
      → IsLogged r.1.tables
      → IsLogged (Service.complete_if pg gen task r).tables
  complete-IsLogged task (err e, w) v = v
  complete-IsLogged task (ok false, w) v = v
  complete-IsLogged task (ok true, w) v = (update-Keeps task _).at w v

  auto_complete-Keeps : (s : Subtask) → Keeps IsLogged (Service.auto_complete pg gen s)
  auto_complete-Keeps s = record {
    at = λ w v. elim (Bool-cases s.is_done) [
      | inl e ↦ rw e (
          complete-IsLogged s.task_id (Subtasks.are_all_done pg gen s.task_id w)
            ((are_all_done-Keeps s.task_id).at w v))
      | inr e ↦ rw e v
    ];
  }

  perform-Keeps : (r : Request) → Keeps IsLogged (perform pg gen r)
  unfolding perform Service.create_task Service.create_task_batch Service.delete_task
      Service.delete_task_batch Service.add_subtask Service.toggle_subtask_done
      Service.delete_subtask Service.update_subtask Service.update_task Service.admin_soft_delete
      Service.acknowledge_admin_deletion Service.admin_restore
  perform-Keeps (Request.create task) =
      Keeps-bind _ _ (create-Keeps task)
        (λ _. Keeps-if _ _ _ (create_subtasks-Keeps task.id task.subtasks) (Keeps-pure tt))
  perform-Keeps (Request.create_batch tasks) = create_batch-Keeps tasks
  perform-Keeps (Request.update task p) =
      Keeps-bind _ _
        (Keeps-bind _ _ (Keeps-Reads IsLogged _ (check_transition-Reads pg gen task p.status))
          (λ _. update-Keeps task p))
        (λ _. Keeps-pure tt)
  perform-Keeps (Request.delete task) = delete-Keeps task
  perform-Keeps (Request.delete_batch tasks) = delete_batch-Keeps tasks
  perform-Keeps (Request.add_subtask task owner title) =
      Keeps-bind _ _ (create_subtask-Keeps task owner title) (λ _. Keeps-pure tt)
  perform-Keeps (Request.toggle subtask owner) =
      Keeps-bind _ _ (Keeps-bind _ _ (toggle_done-Keeps subtask owner) auto_complete-Keeps)
        (λ _. Keeps-pure tt)
  perform-Keeps (Request.delete_subtask subtask owner) = delete_subtask-Keeps subtask owner
  perform-Keeps (Request.rename_subtask subtask owner title) =
      update_subtask-Keeps subtask owner title
  perform-Keeps (Request.soft_delete task) =
      Keeps-bind _ _ (soft_delete-Keeps pg gen task) (λ _. Keeps-pure tt)
  perform-Keeps (Request.acknowledge task user) = acknowledge-Keeps pg gen task user
  perform-Keeps (Request.restore task) =
      Keeps-bind _ _ (restore-Keeps pg gen task) (λ _. Keeps-pure tt)

  -- Whatever requests are served, whichever of them are refused and whichever of their calls fail,
  -- also within a batch: each task in the table has the event of its creation in the outbox, if that
  -- was so at first.
  pub serve-IsLogged :
      (rs : List Request) (w : World Tables)
      → IsLogged w.tables
      → IsLogged (serve pg gen rs w).tables
  unfolding serve
  serve-IsLogged [] w v = v
  serve-IsLogged (r ∷ rest) w v =
      serve-IsLogged rest (perform pg gen r w).1 ((perform-Keeps r).at w v)
