-- ===== src/SharedTasks/Invariant/Statements.antt =====
-- Each SQL statement keeps the tables of shared tasks well formed.
use tasks_service.Prelude.{
  >>=-eq-some, of_some, if-eq-some, subst_tables, ℕ, ◌≡◌, ◌≢◌, refl, sym, ap, ◌∙◌, Bool, true,
  false, String, Option, some, List, [], ◌∷◌, ◌++◌, ◌&&◌, ◌||◌, not, ◌==◌, arith, All, All-append,
  All-map, All-update_where, All-select, any, any-append_left, any-update_where, any-select-not,
  update_where, select,
}
use tasks_service.Database.{Platform}
use tasks_service.SharedTasks.Domain.{is_valid}
use tasks_service.SharedTasks.Tables.{Tables, TaskRow, SubtaskRow, has_id, belongs_to}
use tasks_service.SharedTasks.Repository.Statements.{
  read_due, fits, update_rows, by_participant, by_addressee, owns_removed, may_toggle, flip,
  new_task, overwrite, swap_roles, insert_task, insert_subtask, set_status, update_task,
  counter_task, delete_subtasks, delete_task, toggle_subtask,
}
use tasks_service.SharedTasks.Invariant.Rows.{
  IsWellFormed, HasTwoUsers, HasValidStatus, HasTask, HaveDistinctIds-append_one,
  HaveDistinctIds-update_where, HaveDistinctIds-select,
}

-- An UPDATE of shared_tasks that leaves the ids alone.
pub update_where-IsWellFormed :
    (p : TaskRow → Bool) (f : TaskRow → TaskRow) (t : Tables)
    → ((r : TaskRow) → (f r).id ≡ r.id)
    → ((r : TaskRow) → HasTwoUsers r → HasTwoUsers (f r))
    → ((r : TaskRow) → HasValidStatus r → HasValidStatus (f r))
    → IsWellFormed t
    → IsWellFormed (record t { tasks = update_where p f t.tasks })
update_where-IsWellFormed p f t same two valid v = record {
  distinct_ids = HaveDistinctIds-update_where p f t.tasks same v.distinct_ids;
  two_users = All-update_where HasTwoUsers p f t.tasks (λ r _. two r) v.two_users;
  valid_status = All-update_where HasValidStatus p f t.tasks (λ r _. valid r) v.valid_status;
  owned =
      All-map (HasTask t.tasks) (HasTask (update_where p f t.tasks)) t.subtasks
        (λ s h.
          any-update_where (has_id s.shared_task_id) p f t.tasks
            (λ r. ap (λ i. i == s.shared_task_id) (same r))
          ∙ h)
        v.owned;
}

-- A change of subtasks, under tasks that stay.
subtasks-IsWellFormed :
    (t : Tables) (subtasks : List SubtaskRow)
    → All (HasTask t.tasks) subtasks
    → IsWellFormed t
    → IsWellFormed (record t { subtasks = subtasks })
subtasks-IsWellFormed t subtasks owned v = record {
  distinct_ids = v.distinct_ids;
  two_users = v.two_users;
  valid_status = v.valid_status;
  owned = owned;
}

append_row-IsWellFormed :
    (t : Tables) (r : TaskRow)
    → any (has_id r.id) t.tasks ≡ false
    → HasTwoUsers r
    → HasValidStatus r
    → IsWellFormed t
    → IsWellFormed (record t { tasks = t.tasks ++ r ∷ [] })
append_row-IsWellFormed t r fresh two valid v = record {
  distinct_ids = HaveDistinctIds-append_one t.tasks r fresh v.distinct_ids;
  two_users = All-append HasTwoUsers t.tasks (r ∷ []) v.two_users (two, tt);
  valid_status = All-append HasValidStatus t.tasks (r ∷ []) v.valid_status (valid, tt);
  owned =
      All-map (HasTask t.tasks) (HasTask (t.tasks ++ r ∷ [])) t.subtasks
        (λ s. any-append_left (has_id s.shared_task_id) t.tasks (r ∷ [])) v.owned;
}

-- The cascade: what still has a task after the deletion had one that was not deleted.
owned-delete_task :
    (id user : String) (tasks : List TaskRow) (subtasks : List SubtaskRow)
    → All (HasTask tasks) subtasks
    → All
        (HasTask (select (λ r. not (by_participant id user r)) tasks))
        (select (λ s. not (any (owns_removed id user s) tasks)) subtasks)
unfolding select
owned-delete_task id user tasks [] h = tt
owned-delete_task id user tasks (s ∷ rest) h = ground (
  arith,
  owned-delete_task id user tasks rest h.1,
  any-select-not (by_participant id user) (has_id s.shared_task_id) tasks h.0,
)

module _ (pg : Platform) where
  pub insert_task-IsWellFormed :
      (p a title desc priority : String) (due : Option String) (now n : ℕ) (t : Tables)
      (id : String) (t' : Tables)
      → pg.uuid p ≢ pg.uuid a
      → insert_task pg p a title desc priority due now n t ≡ some (id, t')
      → IsWellFormed t
      → IsWellFormed t'
  unfolding insert_task
  insert_task-IsWellFormed p a title desc priority due now n t id t' two h v =
      let (i, e, h1) = >>=-eq-some (pg.uuid p) _ h in
      let (j, f, h2) = >>=-eq-some (pg.uuid a) _ h1 in
      let (d, g, h3) = >>=-eq-some (read_due pg due) _ h2 in
      let (c, h4) =
        if-eq-some (fits 10 priority && not (any (has_id (pg.gen_uuid n)) t.tasks)) _ h3 in
      subst_tables IsWellFormed h4 (
        append_row-IsWellFormed t (new_task pg i j title desc priority d now n) (ground arith)
          (λ same. two (e ∙ ap some same ∙ sym f)) refl v)

  pub insert_subtask-IsWellFormed :
      (task title assignee : String) (order now n : ℕ) (t : Tables) (u : Unit {0}) (t' : Tables)
      → insert_subtask pg task title assignee order now n t ≡ some (u, t')
      → IsWellFormed t
      → IsWellFormed t'
  unfolding insert_subtask
  insert_subtask-IsWellFormed task title assignee order now n t u t' h v =
      let (i, e, h1) = >>=-eq-some (pg.uuid task) _ h in
      let (j, f, h2) = >>=-eq-some (pg.uuid assignee) _ h1 in
      let (c, h3) = if-eq-some (any (has_id i) t.tasks) _ h2 in
      subst_tables IsWellFormed h3
        (subtasks-IsWellFormed t _ (All-append (HasTask t.tasks) t.subtasks _ v.owned (c, tt)) v)

  pub set_status-IsWellFormed :
      (task status user : String) (now n : ℕ) (t : Tables) (k : ℕ) (t' : Tables)
      → is_valid status ≡ true
      → set_status pg task status user now n t ≡ some (k, t')
      → IsWellFormed t
      → IsWellFormed t'
  unfolding set_status
  set_status-IsWellFormed task status user now n t k t' valid h v =
      let (id, e, h1) = >>=-eq-some (pg.uuid task) _ h in
      let (u, f, h2) = >>=-eq-some (pg.uuid user) _ h1 in
      subst_tables IsWellFormed (of_some h2) (
        update_where-IsWellFormed (by_addressee id u) _ t (λ r. refl) (λ r two. two) (λ r _. valid)
          v)

  update_rows-IsWellFormed :
      (priority : String) (hit : TaskRow → Bool) (change : TaskRow → TaskRow) (t : Tables) (k : ℕ)
      (t' : Tables)
      → ((r : TaskRow) → (change r).id ≡ r.id)
      → ((r : TaskRow) → HasTwoUsers r → HasTwoUsers (change r))
      → ((r : TaskRow) → HasValidStatus r → HasValidStatus (change r))
      → update_rows priority hit change t ≡ some (k, t')
      → IsWellFormed t
      → IsWellFormed t'
  update_rows-IsWellFormed priority hit change t k t' same two valid h v =
      let (c, h1) = if-eq-some (fits 10 priority || not (any hit t.tasks)) _ h in
      subst_tables IsWellFormed h1 (update_where-IsWellFormed hit change t same two valid v)

  pub update_task-IsWellFormed :
      (title desc priority : String) (due : Option String) (task user : String) (now n : ℕ)
      (t : Tables) (k : ℕ) (t' : Tables)
      → update_task pg title desc priority due task user now n t ≡ some (k, t')
      → IsWellFormed t
      → IsWellFormed t'
  unfolding update_task
  update_task-IsWellFormed title desc priority due task user now n t k t' h =
      let (d, e, h1) = >>=-eq-some (read_due pg due) _ h in
      let (i, f, h2) = >>=-eq-some (pg.uuid task) _ h1 in
      let (u, g, h3) = >>=-eq-some (pg.uuid user) _ h2 in
      update_rows-IsWellFormed priority (by_participant i u) (overwrite title desc priority d now) t
        k t' (λ r. refl) (λ r two. two) (λ r valid. valid) h3

  pub counter_task-IsWellFormed :
      (title desc priority : String) (due : Option String) (task user : String) (now n : ℕ)
      (t : Tables) (k : ℕ) (t' : Tables)
      → counter_task pg title desc priority due task user now n t ≡ some (k, t')
      → IsWellFormed t
      → IsWellFormed t'
  unfolding counter_task
  counter_task-IsWellFormed title desc priority due task user now n t k t' h =
      let (d, e, h1) = >>=-eq-some (read_due pg due) _ h in
      let (i, f, h2) = >>=-eq-some (pg.uuid task) _ h1 in
      let (u, g, h3) = >>=-eq-some (pg.uuid user) _ h2 in
      update_rows-IsWellFormed priority (by_addressee i u)
        (λ r. swap_roles (overwrite title desc priority d now r)) t k t' (λ r. refl)
        (λ r two same. two (sym same)) (λ r valid. valid) h3

  pub delete_subtasks-IsWellFormed :
      (task : String) (now n : ℕ) (t : Tables) (u : Unit {0}) (t' : Tables)
      → delete_subtasks pg task now n t ≡ some (u, t')
      → IsWellFormed t
      → IsWellFormed t'
  unfolding delete_subtasks
  delete_subtasks-IsWellFormed task now n t u t' h v =
      let (i, e, h1) = >>=-eq-some (pg.uuid task) _ h in
      subst_tables IsWellFormed (of_some h1) (
        subtasks-IsWellFormed t _
          (All-select (HasTask t.tasks) (λ s. not (belongs_to i s)) t.subtasks v.owned) v)

  pub delete_task-IsWellFormed :
      (task user : String) (now n : ℕ) (t : Tables) (k : ℕ) (t' : Tables)
      → delete_task pg task user now n t ≡ some (k, t')
      → IsWellFormed t
      → IsWellFormed t'
  unfolding delete_task
  delete_task-IsWellFormed task user now n t k t' h v =
      let (i, e, h1) = >>=-eq-some (pg.uuid task) _ h in
      let (u, f, h2) = >>=-eq-some (pg.uuid user) _ h1 in
      subst_tables IsWellFormed (of_some h2) (record {
        distinct_ids = HaveDistinctIds-select _ t.tasks v.distinct_ids;
        two_users = All-select HasTwoUsers _ t.tasks v.two_users;
        valid_status = All-select HasValidStatus _ t.tasks v.valid_status;
        owned = owned-delete_task i u t.tasks t.subtasks v.owned;
      })

  pub toggle_subtask-IsWellFormed :
      (subtask user : String) (now n : ℕ) (t : Tables) (a : Option SubtaskRow) (t' : Tables)
      → toggle_subtask pg subtask user now n t ≡ some (a, t')
      → IsWellFormed t
      → IsWellFormed t'
  unfolding toggle_subtask
  toggle_subtask-IsWellFormed subtask user now n t a t' h v =
      let (i, e, h1) = >>=-eq-some (pg.uuid subtask) _ h in
      let (u, f, h2) = >>=-eq-some (pg.uuid user) _ h1 in
      subst_tables IsWellFormed (of_some h2) (
        subtasks-IsWellFormed t _
          (All-update_where (HasTask t.tasks) (may_toggle t.tasks i u) flip t.subtasks
            (λ s _ owned. owned) v.owned)
          v)
