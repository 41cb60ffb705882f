-- ===== src/SharedTasks/Lifecycle/Rows.antt =====
-- What each SQL statement may do to the status of a shared task.
use mathlib.Core.Option
use tasks_service.Prelude.{
  >>=-eq-some, of_some, if-eq-some, subst_tables, ℕ, ◌≡◌, refl, sym, ap, Bool, true, false, String,
  Option, none, some, List, [], ◌∷◌, ◌++◌, ◌==◌, ◌||◌, ◌&&◌, not, arith, eq_iff, inl, inr,
  Bool-cases, Option-cases, subst, any, find, select, update_where, find-append, find-update_where,
  find-eq-none, any-select-false,
}
use tasks_service.Database.{Platform}
use tasks_service.SharedTasks.Tables.{Tables, TaskRow, SubtaskRow, has_id}
use tasks_service.SharedTasks.Repository.Statements.{
  read_due, fits, update_rows, by_participant, by_addressee, new_task, overwrite, swap_roles,
  insert_task, set_status, update_task, counter_task, delete_task, toggle_subtask,
}
use tasks_service.SharedTasks.Invariant.Rows.{HaveDistinctIds}

-- The status of the task with an id.
abbrev pub status_of : String → List TaskRow → Option String
status_of id tasks = Option.map (λ (r : TaskRow). r.status) (find (has_id id) tasks)

-- What one request may do to the status of a task; none stands for no such task.
pub data Edge (before after : Option String) : Type 0 where
  stays : after ≡ before → Edge before after
  opens : before ≡ none → after ≡ some "pending" → Edge before after
  accepts : before ≡ some "pending" → after ≡ some "accepted" → Edge before after
  rejects : before ≡ some "pending" → after ≡ some "rejected" → Edge before after
  removes : after ≡ none → Edge before after

abbrev pub Moves : String → List TaskRow → List TaskRow → Type 0
Moves id before after = Edge (status_of id before) (status_of id after)

pub update_where-Moves :
    (id : String) (p : TaskRow → Bool) (f : TaskRow → TaskRow) (tasks : List TaskRow)
    → ((r : TaskRow) → (f r).id ≡ r.id)
    → ((r : TaskRow) → p r ≡ true → Edge (some r.status) (some (f r).status))
    → Moves id tasks (update_where p f tasks)
update_where-Moves id p f tasks same edge =
    rw (find-update_where (has_id id) p f tasks (λ r. ap (λ i. i == id) (same r)))
      (elim (Option-cases (find (has_id id) tasks)) [
        | inl e ↦ rw e (stays refl)
        | inr (r, e) ↦ rw e (elim (Bool-cases (p r)) [
          | inl hit ↦ rw hit (edge r hit)
          | inr miss ↦ rw miss (stays refl)
        ])
      ])

select-Moves :
    (id : String) (p : TaskRow → Bool) (tasks : List TaskRow)
    → HaveDistinctIds tasks
    → Moves id tasks (select p tasks)
unfolding find select
select-Moves id p [] d = stays refl
select-Moves id p (r ∷ rest) d = elim (Bool-cases (r.id == id)) [
  | inl hit ↦
      let absent : find (has_id id) (select p rest) ≡ none =
        find-eq-none (has_id id) (select p rest) (
          any-select-false p (has_id id) rest
            (subst (λ i. any (has_id i) rest ≡ false) ((eq_iff r.id id).0 hit) d.0)) in
      elim (Bool-cases (p r)) [
        | inl kept ↦ rw (kept, hit) (stays refl)
        | inr gone ↦ rw gone (removes (ap (Option.map (λ (r : TaskRow). r.status)) absent))
      ]
  | inr miss ↦ elim (Bool-cases (p r)) [
    | inl kept ↦ rw (kept, miss) (select-Moves id p rest d.1)
    | inr gone ↦ rw (gone, miss) (select-Moves id p rest d.1)
  ]
]

append-Moves :
    (id : String) (r : TaskRow) (tasks : List TaskRow)
    → r.status ≡ "pending"
    → Moves id tasks (tasks ++ r ∷ [])
append-Moves id r tasks h =
    rw (find-append (has_id id) tasks (r ∷ [])) (elim (Option-cases (find (has_id id) tasks)) [
      | inl e ↦ rw e (elim (Bool-cases (has_id id r)) [
        | inl hit ↦ unfold find in rw hit (opens refl (ap some h))
        | inr miss ↦ unfold find in rw miss (stays refl)
      ])
      | inr (r, e) ↦ rw e (stays refl)
    ])

module _ (pg : Platform) (id : String) where
  pub insert_task-Moves :
      (p a title desc priority : String) (due : Option String) (now n : ℕ) (t : Tables)
      (new : String) (t' : Tables)
      → insert_task pg p a title desc priority due now n t ≡ some (new, t')
      → Moves id t.tasks t'.tasks
  unfolding insert_task
  insert_task-Moves p a title desc priority due now n t new t' h =
      let (i, e, h1) = >>=-eq-some (pg.uuid p) _ h in
      let (j, f, h2) = >>=-eq-some (pg.uuid a) _ h1 in
      let (d, g, h3) = >>=-eq-some (read_due pg due) _ h2 in
      let (c, h4) =
        if-eq-some (fits 10 priority && not (any (has_id (pg.gen_uuid n)) t.tasks)) _ h3 in
      subst_tables (λ (u : Tables). Moves id t.tasks u.tasks) h4
        (append-Moves id (new_task pg i j title desc priority d now n) t.tasks refl)

  pub set_status-Moves :
      (task status user : String) (now n : ℕ) (t : Tables) (k : ℕ) (t' : Tables)
      → Edge (some "pending") (some status)
      → set_status pg task status user now n t ≡ some (k, t')
      → Moves id t.tasks t'.tasks
  unfolding set_status
  set_status-Moves task status user now n t k t' edge h =
      let (i, e, h1) = >>=-eq-some (pg.uuid task) _ h in
      let (u, f, h2) = >>=-eq-some (pg.uuid user) _ h1 in
      subst_tables (λ (u : Tables). Moves id t.tasks u.tasks) (of_some h2)
        (update_where-Moves id (by_addressee i u) _ t.tasks (λ r. refl)
          (λ r hit.
            subst (λ s. Edge (some s) (some status))
              (sym ((eq_iff r.status "pending").0 (ground arith))) edge))

  update_rows-Moves :
      (priority : String) (hit : TaskRow → Bool) (change : TaskRow → TaskRow) (t : Tables) (k : ℕ)
      (t' : Tables)
      → ((r : TaskRow) → (change r).id ≡ r.id)
      → ((r : TaskRow) → (change r).status ≡ r.status)
      → update_rows priority hit change t ≡ some (k, t')
      → Moves id t.tasks t'.tasks
  update_rows-Moves priority hit change t k t' same status h =
      let (c, h1) = if-eq-some (fits 10 priority || not (any hit t.tasks)) _ h in
      subst_tables (λ (u : Tables). Moves id t.tasks u.tasks) h1
        (update_where-Moves id hit change t.tasks same (λ r _. stays (ap some (status r))))

  pub update_task-Moves :
      (title desc priority : String) (due : Option String) (task user : String) (now n : ℕ)
      (t : Tables) (k : ℕ) (t' : Tables)
      → update_task pg title desc priority due task user now n t ≡ some (k, t')
      → Moves id t.tasks t'.tasks
  unfolding update_task
  update_task-Moves title desc priority due task user now n t k t' h =
      let (d, e, h1) = >>=-eq-some (read_due pg due) _ h in
      let (i, f, h2) = >>=-eq-some (pg.uuid task) _ h1 in
      let (u, g, h3) = >>=-eq-some (pg.uuid user) _ h2 in
      update_rows-Moves priority (by_participant i u) (overwrite title desc priority d now) t k t'
        (λ r. refl) (λ r. refl) h3

  pub counter_task-Moves :
      (title desc priority : String) (due : Option String) (task user : String) (now n : ℕ)
      (t : Tables) (k : ℕ) (t' : Tables)
      → counter_task pg title desc priority due task user now n t ≡ some (k, t')
      → Moves id t.tasks t'.tasks
  unfolding counter_task
  counter_task-Moves title desc priority due task user now n t k t' h =
      let (d, e, h1) = >>=-eq-some (read_due pg due) _ h in
      let (i, f, h2) = >>=-eq-some (pg.uuid task) _ h1 in
      let (u, g, h3) = >>=-eq-some (pg.uuid user) _ h2 in
      update_rows-Moves priority (by_addressee i u)
        (λ r. swap_roles (overwrite title desc priority d now r)) t k t' (λ r. refl) (λ r. refl) h3

  pub delete_task-Moves :
      (task user : String) (now n : ℕ) (t : Tables) (k : ℕ) (t' : Tables)
      → HaveDistinctIds t.tasks
      → delete_task pg task user now n t ≡ some (k, t')
      → Moves id t.tasks t'.tasks
  unfolding delete_task
  delete_task-Moves task user now n t k t' d h =
      let (i, e, h1) = >>=-eq-some (pg.uuid task) _ h in
      let (u, f, h2) = >>=-eq-some (pg.uuid user) _ h1 in
      subst_tables (λ (u : Tables). Moves id t.tasks u.tasks) (of_some h2)
        (select-Moves id (λ r. not (by_participant i u r)) t.tasks d)

  pub toggle_subtask_tasks :
      (subtask user : String) (now n : ℕ) (t : Tables) (a : Option SubtaskRow) (t' : Tables)
      → toggle_subtask pg subtask user now n t ≡ some (a, t')
      → t'.tasks ≡ t.tasks
  unfolding toggle_subtask
  toggle_subtask_tasks subtask user now n t a t' h = ground arith
