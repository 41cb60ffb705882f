-- ===== src/SharedTasks/Deletion.antt =====
-- `Delete` of app/internal/shared_tasks/repository/postgres/repository.go: its guard and its effect.
use tasks_service.Prelude.{
  >>=-eq-some, of_some, ℕ, suc, ◌≡◌, ◌≢◌, sym, ap, ap₂, ◌∙◌, true, false, String, Option, none,
  some, List, ◌==◌, ◌&&◌, not, arith, eq_iff, inl, inr, Bool-cases, subst, any, find, count, select,
  nat_eq, any-select-not_self, any-select_excluded, any_of_find, count_of_find,
}
use tasks_service.Database.{World, Result, ok, Platform, pure, raise, sql, no_rights, ◌>>=◌}
use tasks_service.Database.Inversion.{sql_ok, bind_ok, of_ok}
use tasks_service.SharedTasks.Tables.{Tables, TaskRow, SubtaskRow, belongs_to}
use tasks_service.SharedTasks.Repository
use tasks_service.SharedTasks.Repository.Statements.{
  by_participant, owns_removed, select_task, delete_task,
}
use tasks_service.SharedTasks.Atomicity.{select_task_reads}
use tasks_service.SharedTasks.Negotiation.{ensure_ok}

-- What a deletion leaves of a task that it found.
pub record IsDeleted (id user : String) (t : Tables) : Type 0 where
  pub no_task : any (by_participant id user) t.tasks ≡ false
  pub no_subtask : any (belongs_to id) t.subtasks ≡ false

subtask_removed :
    (id user : String) (tasks : List TaskRow) (row : TaskRow) (s : SubtaskRow)
    → find (by_participant id user) tasks ≡ some row
    → not (any (owns_removed id user s) tasks) ≡ true
    → belongs_to id s ≡ false
subtask_removed id user tasks row s found stays = elim (Bool-cases (belongs_to id s)) [
  | inr other ↦ other
  | inl mine ↦
      let owned : any (owns_removed id user s) tasks ≡ true =
        any_of_find (by_participant id user) (owns_removed id user s) tasks row found (λ r h.
          ground
            (arith, eq_iff r.id id, eq_iff s.shared_task_id id, eq_iff r.id s.shared_task_id)) in
      cc (owned, stays)
]

abbrev removed : String → String → Tables → Tables
removed id user t = record t {
  tasks = select (λ r. not (by_participant id user r)) t.tasks;
  subtasks = select (λ s. not (any (owns_removed id user s) t.tasks)) t.subtasks;
}

removed-IsDeleted :
    (id user : String) (t : Tables) (row : TaskRow)
    → find (by_participant id user) t.tasks ≡ some row
    → IsDeleted id user (removed id user t)
removed-IsDeleted id user t row found = record {
  no_task = any-select-not_self (by_participant id user) t.tasks;
  no_subtask =
      any-select_excluded (λ s. not (any (owns_removed id user s) t.tasks)) (belongs_to id)
        t.subtasks (λ s. subtask_removed id user t.tasks row s found);
}

module _ (pg : Platform) where
  delete_task_deletes :
      (task user id u : String) (now n : ℕ) (t : Tables) (k : ℕ) (t' : Tables) (row : TaskRow)
      → pg.uuid task ≡ some id
      → pg.uuid user ≡ some u
      → find (by_participant id u) t.tasks ≡ some row
      → delete_task pg task user now n t ≡ some (k, t')
      → IsDeleted id u t'
  unfolding delete_task
  delete_task_deletes task user id u now n t k t' row e f found h =
      let (id', e', h1) = >>=-eq-some (pg.uuid task) _ h in
      let (u', f', h2) = >>=-eq-some (pg.uuid user) _ h1 in
      let back = ap₂ (λ i v. removed i v t) (of_some (sym e ∙ e')) (of_some (sym f ∙ f')) in
      subst (IsDeleted id u) (back ∙ ap (λ (q : ℕ × Tables). q.1) (of_some h2))
        (removed-IsDeleted id u t row found)

  -- The rest of `Delete` after its read: the guard, the effect and the reply.
  delete_found_ok :
      (task user id u : String) (found : Option TaskRow) (w : World Tables)
      (reply : String × String)
      → pg.uuid task ≡ some id
      → pg.uuid user ≡ some u
      → found ≡ find (by_participant id u) w.tables.tasks
      → (Repository.delete_found pg task user found w).0 ≡ ok reply
      → (row : TaskRow) × (find (by_participant id u) w.tables.tasks ≡ some row)
        × ((row.status == "pending" && user == row.addressee_id) ≡ false)
        × IsDeleted id u (Repository.delete_found pg task user found w).1.tables
        × (reply ≡ Repository.notice user row)
  unfolding Repository.delete_found
  delete_found_ok task user id u none w reply e f same = λ h. cc
  delete_found_ok task user id u (some row) w reply e f same =
      elim (Bool-cases (row.status == "pending" && user == row.addressee_id)) [
        | inl guarded ↦ rw guarded (λ h. cc)
        | inr free ↦ rw free (λ h.
            let v : World Tables = (sql "delete shared_task" (delete_task pg task user) w).1 in
            let (n, h1, moved) = bind_ok _ _ w reply h in
            let h2 = ap (λ (r : Result (String × String) × World Tables). r.0) (sym moved) ∙ h in
            let (u', h3, moved') =
              bind_ok (Repository.ensure_affected n (raise no_rights))
                (λ _. pure (Repository.notice user row)) v reply h2 in
            let (affected, stay) = ensure_ok n no_rights v h3 in
            (
              row,
              sym same,
              free,
              subst (IsDeleted id u)
                  (sym (
                    ap (λ (r : Result (String × String) × World Tables). r.1.tables)
                      (moved ∙ moved')
                    ∙ ap (λ (x : World Tables). x.tables) stay))
                  (delete_task_deletes task user id u w.now w.calls w.tables n v.tables row e f
                    (sym same) (sql_ok _ _ w n h1)),
              sym (
                  of_ok
                    (ap (λ (r : Result (String × String) × World Tables). r.0) (sym moved') ∙ h2)),
            ))
      ]

  read_ok :
      (task user id u : String) (now n : ℕ) (t : Tables) (found : Option TaskRow) (t' : Tables)
      → pg.uuid task ≡ some id
      → pg.uuid user ≡ some u
      → select_task pg task user now n t ≡ some (found, t')
      → found ≡ find (by_participant id u) t.tasks
  unfolding select_task
  read_ok task user id u now n t found t' e f h = ground arith

  -- A deletion that succeeded, whatever spelling of the user's id it was asked with.
  deleted :
      (task user id u : String) (w : World Tables) (reply : String × String)
      → pg.uuid task ≡ some id
      → pg.uuid user ≡ some u
      → (Repository.delete pg task user w).0 ≡ ok reply
      → (row : TaskRow) × (find (by_participant id u) w.tables.tasks ≡ some row)
        × ((row.status == "pending" && user == row.addressee_id) ≡ false)
        × IsDeleted id u (Repository.delete pg task user w).1.tables
        × (reply ≡ Repository.notice user row)
  unfolding Repository.delete
  deleted task user id u w reply e f h =
      let v : World Tables = (sql "get shared task for delete" (select_task pg task user) w).1 in
      let (found, h1, same) = bind_ok _ _ w reply h in
      let h2 = ap (λ (r : Result (String × String) × World Tables). r.0) (sym same) ∙ h in
      let read = sql_ok _ _ w found h1 in
      let kept : v.tables ≡ w.tables =
        select_task_reads pg task user w.now w.calls w.tables found v.tables read in
      let at_read =
        read_ok task user id u w.now w.calls w.tables found v.tables e f read
        ∙ ap (λ (t : Tables). find (by_participant id u) t.tasks) (sym kept) in
      let (row, there, guard, gone, told) =
        delete_found_ok task user id u found v reply e f at_read h2 in
      (
        row,
        ap (λ (t : Tables). find (by_participant id u) t.tasks) (sym kept) ∙ there,
        guard,
        subst (IsDeleted id u)
            (sym (ap (λ (r : Result (String × String) × World Tables). r.1.tables) same)) gone,
        told,
      )

  -- A deletion that succeeded, by a user whose id is spelled as the database spells it, removed a
  -- task that the user takes part in and its subtasks; the task did not wait for this user's
  -- answer. The reply is the partner's id and the title if the task was accepted, else blank.
  pub delete_lem :
      (task user id : String) (w : World Tables) (reply : String × String)
      → pg.uuid task ≡ some id
      → pg.uuid user ≡ some user
      → (Repository.delete pg task user w).0 ≡ ok reply
      → (row : TaskRow) × (find (by_participant id user) w.tables.tasks ≡ some row)
        × ¬ ((row.status ≡ "pending") × (row.addressee_id ≡ user))
        × IsDeleted id user (Repository.delete pg task user w).1.tables
        × (reply ≡ Repository.notice user row)
  delete_lem task user id w reply e f h =
      let (row, there, guard, gone, told) = deleted task user id user w reply e f h in
      (
        row,
        there,
        (λ (pending, mine). cc (
          guard,
          (eq_iff row.status "pending").1 pending,
          (eq_iff user row.addressee_id).1 (sym mine),
        )),
        gone,
        told,
      )

  -- The reply to an addressee who deletes a pending task under another spelling.
  respelled_ok :
      (task user id u : String) (w : World Tables) (row : TaskRow)
      → pg.uuid task ≡ some id
      → pg.uuid user ≡ some u
      → user ≢ u
      → find (by_participant id u) w.tables.tasks ≡ some row
      → row.status ≡ "pending"
      → row.addressee_id ≡ u
      → w.fails w.calls ≡ false
      → w.fails (suc w.calls) ≡ false
      → (Repository.delete pg task user w).0 ≡ ok ("", "")
  unfolding Repository.delete Repository.delete_found sql ◌>>=◌ select_task delete_task
  respelled_ok task user id u w row e f other found pending mine c0 c1 =
      let some_row : nat_eq (count (by_participant id u) w.tables.tasks) 0 ≡ false =
        count_of_find (by_participant id u) w.tables.tasks row found in
      let differs : (user == row.addressee_id) ≡ false =
        ground (arith, eq_iff user row.addressee_id) in
      let quiet : (row.status == "accepted") ≡ false = ap (λ s. s == "accepted") pending in
      ground (arith, eq_iff row.status "pending")

  -- The guard compares texts, the database compares ids: an addressee who asks with another
  -- spelling of the id, when no call fails, deletes a task that waits for the addressee's answer.
  -- The reply is a success that names nobody to tell, and neither the task nor a subtask of it is
  -- left.
  pub delete_respelled :
      (task user id u : String) (w : World Tables) (row : TaskRow)
      → pg.uuid task ≡ some id
      → pg.uuid user ≡ some u
      → user ≢ u
      → find (by_participant id u) w.tables.tasks ≡ some row
      → row.status ≡ "pending"
      → row.addressee_id ≡ u
      → w.fails w.calls ≡ false
      → w.fails (suc w.calls) ≡ false
      → ((Repository.delete pg task user w).0 ≡ ok ("", ""))
        × IsDeleted id u (Repository.delete pg task user w).1.tables
  delete_respelled task user id u w row e f other found pending mine c0 c1 =
      let done = respelled_ok task user id u w row e f other found pending mine c0 c1 in
      let (_, _, _, gone, _) = deleted task user id u w ("", "") e f done in (done, gone)
