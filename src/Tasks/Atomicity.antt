-- ===== src/Tasks/Atomicity.antt =====
-- Errors of the requests on tasks leave the tables as they were.
use tasks_service.Prelude.{
  >>=-eq-some, ℕ, ◌≡◌, ◌≢◌, ◌⊎◌, refl, inl, inr, Bool, true, false, not, Bool-cases, Option-cases,
  subst, String, Option, none, some, List, [], ◌∷◌, ◌&&◌, arith, any, count, select, nat_eq,
  update_where-eq_of_count, update_where-eq_of_find, select-eq_of_count, select-eq_of_true,
  any-false_of_count, if◌then◌else◌,
}
use tasks_service.Database.{
  Platform, World, Exec, Result, err, Error, pure, raise, not_found, no_subtask, ◌>>=◌,
}
use tasks_service.Database.Rules.{
  Atomic, Atomic-pure, Atomic-raise, Atomic-if, Atomic-sql, Atomic-transaction, Atomic-bind,
  Atomic-bind_total, Atomic-write, ok≢err,
}
use tasks_service.Tasks.Domain.{Subtask, has_subtasks}
use tasks_service.Tasks.Tables.{TaskRow, SubtaskRow, Tables, Generators, has_task_id}
use tasks_service.Tasks.Statements.{delete_task, delete_rows, insert_deleted}
use tasks_service.Tasks.Repository
use tasks_service.Tasks.Repository.{UpdatePatch, scan_row, ensure_affected}
use tasks_service.Tasks.Subtasks
use tasks_service.Tasks.Subtasks.{
  is_owned, toggle, toggle_row, delete_row, rename_row, insert_subtask, ensure_subtask,
  scan_created,
}
use tasks_service.Tasks.Service
use tasks_service.Tasks.Admin.Effects.{
  check_transition-Reads, soft_delete-Atomic, acknowledge-Atomic, restore-Atomic,
}
use tasks_service.Tasks.Requests.{Request, discard, perform}

discard-Atomic {ℓ} : {A : Type ℓ} (m : Exec Tables A) → Atomic m → Atomic (discard m)
discard-Atomic m k = Atomic-bind_total m (λ _. pure tt) k (λ a w c. ok≢err tt c)

-- After a statement that reports how many rows it changed.
affected_cases :
    (n : ℕ) (e : Error) (t t' : Tables)
    → (n ≡ 0 → t' ≡ t)
    → ((t' ≡ t) × Atomic {T = Tables} (if nat_eq n 0 then raise e else pure {A = Unit {0}} tt))
      ⊎ ((w : World Tables) (c : Error)
          → ((if nat_eq n 0 then raise e else pure {A = Unit {0}} tt) w).0 ≢ err c)
affected_cases n e t t' h = elim (Bool-cases (nat_eq n 0)) [
  | inl z ↦ inl (h (ground arith), rw z (Atomic-raise e))
  | inr z ↦ inr (λ w c. rw z (ok≢err tt c))
]

select-empty : (p : TaskRow → Bool) (xs : List TaskRow) → count p xs ≡ 0 → select p xs ≡ []
unfolding select count
select-empty p [] h = refl
select-empty p (x ∷ xs) h = ground (arith, select-empty p xs)

delete_rows_none :
    (id : ℕ → String) (now : ℕ) (hit : TaskRow → Bool) (t t' : Tables)
    → count hit t.tasks ≡ 0
    → delete_rows id now hit t ≡ some t'
    → t' ≡ t
unfolding insert_deleted
delete_rows_none id now hit t t' none_hit h =
    let (outbox, e, h1) = >>=-eq-some (insert_deleted id 0 now (select hit t.tasks) t.outbox) _ h in
    let same : insert_deleted id 0 now [] t.outbox ≡ some outbox =
      subst (λ l. insert_deleted id 0 now l t.outbox ≡ some outbox)
        (select-empty hit t.tasks none_hit) e in
    ground (
      arith,
      same,
      select-eq_of_count hit t.tasks none_hit,
      select-eq_of_true (λ s. not (any (λ r. hit r && has_task_id s.task_id r) t.tasks)) t.subtasks
          (λ s. rw (any-false_of_count hit (has_task_id s.task_id) t.tasks none_hit)),
    )

module _ (pg : Platform) (gen : Generators) where
  delete_task_none :
      (task : String) (now n : ℕ) (t t' : Tables)
      → delete_task pg gen task now n t ≡ some (0, t')
      → t' ≡ t
  unfolding delete_task
  delete_task_none task now n t t' h =
      let (id, e, h1) = >>=-eq-some (pg.uuid task) _ h in
      let (after, f, h2) =
        >>=-eq-some (delete_rows (λ i. gen.new_uuid n) now (has_task_id id) t) _ h1 in
      let none_hit : count (has_task_id id) t.tasks ≡ 0 = ground arith in
      let same = delete_rows_none _ now (has_task_id id) t after none_hit f in ground arith

  delete-Atomic : (task : String) → Atomic (Repository.delete pg gen task)
  unfolding Repository.delete
  delete-Atomic task = Atomic-if _ _ _ (Atomic-raise _) (
      Atomic-write _ _ _ λ now n t a t' h.
        affected_cases a not_found t t' (λ z. delete_task_none task now n t t' (rw z at h)))

  delete_row_none :
      (id owner : String) (now n : ℕ) (t t' : Tables)
      → delete_row pg gen id owner now n t ≡ some (0, t')
      → t' ≡ t
  unfolding delete_row
  delete_row_none id owner now n t t' h = elim (Option-cases (pg.uuid id)) [
    | inl e ↦ absurd (ground arith)
    | inr (i, e) ↦ elim (Option-cases (pg.uuid owner)) [
      | inl f ↦ absurd (ground arith)
      | inr (u, f) ↦ ground (arith, select-eq_of_count (is_owned t.tasks i u) t.subtasks)
    ]
  ]

  rename_row_none :
      (id owner title : String) (now n : ℕ) (t t' : Tables)
      → rename_row pg gen id owner title now n t ≡ some (0, t')
      → t' ≡ t
  unfolding rename_row
  rename_row_none id owner title now n t t' h = elim (Option-cases (pg.uuid id)) [
    | inl e ↦ absurd (ground arith)
    | inr (i, e) ↦ elim (Option-cases (pg.uuid owner)) [
      | inl f ↦ absurd (ground arith)
      | inr (u, f) ↦ ground (
        arith,
        update_where-eq_of_count (is_owned t.tasks i u) (λ s. record s { title = title })
            t.subtasks,
      )
    ]
  ]

  toggle_cases :
      (id owner : String) (now n : ℕ) (t : Tables) (a : Option SubtaskRow) (t' : Tables)
      → toggle_row pg gen id owner now n t ≡ some (a, t')
      → ((t' ≡ t)
          × Atomic (scan_row "toggle subtask" a >>= λ s. pure (Subtasks.subtask_model_to_entity s)))
        ⊎ ((w : World Tables) (c : Error)
            → ((scan_row "toggle subtask" a >>= λ s. pure (Subtasks.subtask_model_to_entity s)) w).0
              ≢ err c)
  unfolding toggle_row ◌>>=◌
  toggle_cases id owner now n t (some s) t' h = inr (λ w c. ok≢err _ c)
  toggle_cases id owner now n t none t' h = elim (Option-cases (pg.uuid id)) [
    | inl e ↦ absurd (ground arith)
    | inr (i, e) ↦ elim (Option-cases (pg.uuid owner)) [
      | inl f ↦ absurd (ground arith)
      | inr (u, f) ↦ inl (
        ground (arith, update_where-eq_of_find (is_owned t.tasks i u) toggle t.subtasks),
        Atomic-raise _,
      )
    ]
  ]

  added_cases :
      (task owner title : String) (now n : ℕ) (t : Tables) (a : Option SubtaskRow) (t' : Tables)
      → insert_subtask pg gen task owner title now n t ≡ some (a, t')
      → ((t' ≡ t) × Atomic (scan_created pg gen a))
        ⊎ ((w : World Tables) (c : Error) → (scan_created pg gen a w).0 ≢ err c)
  unfolding insert_subtask
  added_cases task owner title now n t (some s) t' h = inr (λ w c. ok≢err _ c)
  added_cases task owner title now n t none t' h = inl (ground arith, Atomic-raise _)

  auto_complete_total :
      (s : Subtask) (w : World Tables) (c : Error) → (Service.auto_complete pg gen s w).0 ≢ err c
  auto_complete_total s w c = either s.is_done _ _ (ok≢err s c) (ok≢err s c)
    where
      either :
          (b : Bool) (x y : Result Subtask × World Tables)
          → x.0 ≢ err c
          → y.0 ≢ err c
          → (if b then x else y).0 ≢ err c
      either true x y h g = h
      either false x y h g = g

  -- A request writes with one statement or transaction, unless it creates a task with subtasks.
  abbrev pub IsOneWrite : Request → Type 0
  IsOneWrite (Request.create task) = has_subtasks task ≡ false
  IsOneWrite _ = Unit

  perform-Atomic : (r : Request) → IsOneWrite r → Atomic (perform pg gen r)
  unfolding perform Service.create_task Service.create_task_batch Service.delete_task
      Service.delete_task_batch Service.add_subtask Service.toggle_subtask_done
      Service.delete_subtask Service.update_subtask Service.update_task Service.admin_soft_delete
      Service.acknowledge_admin_deletion Service.admin_restore Repository.create
      Repository.create_batch Repository.update Repository.delete_batch Subtasks.create_subtask
      Subtasks.toggle_done Subtasks.delete_subtask Subtasks.update_subtask
  perform-Atomic (Request.create task) one = rw one (
      Atomic-bind_total _ _ (Atomic-if _ _ _ (Atomic-sql _ _) (Atomic-sql _ _))
        (λ a w c. ok≢err tt c))
  perform-Atomic (Request.create_batch tasks) one =
      Atomic-if _ _ _ (Atomic-pure tt) (Atomic-transaction _ _)
  perform-Atomic (Request.update task p) one = discard-Atomic _ (
      Atomic-bind _ _ (check_transition-Reads pg gen task p.status)
        (λ _. Atomic-if _ _ _ (Atomic-raise _) (Atomic-transaction _ _)))
  perform-Atomic (Request.delete task) one = delete-Atomic task
  perform-Atomic (Request.delete_batch tasks) one =
      Atomic-if _ _ _ (Atomic-pure tt) (Atomic-sql _ _)
  perform-Atomic (Request.add_subtask task owner title) one =
      discard-Atomic _ (Atomic-write _ _ _ (added_cases task owner title))
  perform-Atomic (Request.toggle subtask owner) one =
      discard-Atomic _ (
        Atomic-bind_total _ _ (Atomic-write _ _ _ (toggle_cases subtask owner)) auto_complete_total)
  perform-Atomic (Request.delete_subtask subtask owner) one = Atomic-write _ _ _ λ now n t a t' h.
      affected_cases a no_subtask t t' (λ z. delete_row_none subtask owner now n t t' (rw z at h))
  perform-Atomic (Request.rename_subtask subtask owner title) one =
      Atomic-write _ _ _ λ now n t a t' h.
        affected_cases a no_subtask t t'
          (λ z. rename_row_none subtask owner title now n t t' (rw z at h))
  perform-Atomic (Request.soft_delete task) one = discard-Atomic _ (soft_delete-Atomic pg gen task)
  perform-Atomic (Request.acknowledge task user) one = acknowledge-Atomic pg gen task user
  perform-Atomic (Request.restore task) one = discard-Atomic _ (restore-Atomic pg gen task)

  -- A request that returns an error has left every table as it was, for whatever reason it failed and
  -- at whichever of its calls, unless it creates a task with subtasks.
  pub failed_write_unchanged :
      (r : Request) (w : World Tables) (e : Error)
      → IsOneWrite r
      → (perform pg gen r w).0 ≡ err e
      → (perform pg gen r w).1.tables ≡ w.tables
  failed_write_unchanged r w e one h = (perform-Atomic r one).at w e h
