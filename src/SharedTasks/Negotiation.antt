-- ===== src/SharedTasks/Negotiation.antt =====
-- Who may do what with a shared task, and in which order: answers, counter-proposals, toggles.
use tasks_service.Prelude.{
  >>=-eq-some, of_some, if-eq-some, ℕ, suc, ◌≡◌, ◌≢◌, refl, sym, ap, ap₂, ◌∙◌, false, String,
  Option, none, some, List, [], ◌∷◌, ◌==◌, ◌||◌, not, arith, eq_iff, All, inl, inr, Bool-cases,
  subst, any, count, update_where, nat_eq, update_where_twice, any-update_where,
}
use tasks_service.Database.{
  World, Exec, Error, Result, ok, Platform, raise, sql, after_call, transaction, ◌>>◌,
  already_handled, ◌>>=◌,
}
use tasks_service.SharedTasks.Subtasks.{replace_subtasks-Keeps}
use tasks_service.Database.Inversion.{sql_ok, bind_ok, transaction_ok}
use tasks_service.SharedTasks.Domain.{SharedSubtask, SubtaskInput, UpdateInput}
use tasks_service.SharedTasks.Tables.{Tables, TaskRow, SubtaskRow, has_id}
use tasks_service.SharedTasks.Repository
use tasks_service.SharedTasks.Repository.Statements.{
  by_addressee, may_toggle, flip, swap_roles, overwrite, counter_task, read_due, fits, set_status,
  toggle_subtask,
}
use tasks_service.SharedTasks.Invariant.Rows.{HaveDistinctIds, HasTwoUsers}

pub ensure_ok :
    (n : ℕ) (e : Error) (w : World Tables)
    → (Repository.ensure_affected n (raise e) w).0 ≡ ok tt
    → (nat_eq n 0 ≡ false) × ((Repository.ensure_affected n (raise e) w).1 ≡ w)
ensure_ok n e w = elim (Bool-cases (nat_eq n 0)) [
  | inl z ↦ rw z (λ h. cc)
  | inr z ↦ rw z (λ h. (refl, refl))
]

count_absent :
    (id u : String) (tasks : List TaskRow)
    → any (has_id id) tasks ≡ false
    → count (by_addressee id u) tasks ≡ 0
unfolding count any
count_absent id u [] h = refl
count_absent id u (r ∷ rest) h = ground (arith, count_absent id u rest)

-- With distinct ids, an answer leaves no pending task under the id.
answered :
    (id u v status : String) (now : ℕ) (tasks : List TaskRow)
    → HaveDistinctIds tasks
    → status ≢ "pending"
    → nat_eq (count (by_addressee id u) tasks) 0 ≡ false
    → count (by_addressee id v) (
        update_where
          (by_addressee id u)
          (λ r. record r { status = status; updated_at = now })
          tasks)
      ≡ 0
unfolding count update_where
answered id u v status now [] d s h = cc
answered id u v status now (r ∷ rest) d s h =
    let change = λ (x : TaskRow). record x { status = status; updated_at = now } in
    elim (Bool-cases (r.id == id)) [
      | inl hit ↦
          let alone : any (has_id id) rest ≡ false =
            subst (λ i. any (has_id i) rest ≡ false) ((eq_iff r.id id).0 hit) d.0 in
          ground (
            arith,
            eq_iff status "pending",
            count_absent id u rest alone,
            count_absent id v (update_where (by_addressee id u) change rest)
                (any-update_where (has_id id) (by_addressee id u) change rest (λ x. refl) ∙ alone),
          )
      | inr miss ↦ ground (arith, answered id u v status now rest d.1 s)
    ]

-- Where every task has two users, the change of roles leaves the user none to answer.
swapped :
    (id u title desc priority : String) (d : Option ℕ) (now : ℕ) (tasks : List TaskRow)
    → All HasTwoUsers tasks
    → count (by_addressee id u) (
        update_where
          (by_addressee id u)
          (λ r. swap_roles (overwrite title desc priority d now r))
          tasks)
      ≡ 0
unfolding count update_where
swapped id u title desc priority d now [] two = refl
swapped id u title desc priority d now (r ∷ rest) two = ground (
  arith,
  eq_iff r.addressee_id u,
  eq_iff r.proposer_id u,
  eq_iff r.id id,
  swapped id u title desc priority d now rest two.1,
)

abbrev toggled : String → String → Tables → Tables
toggled id u t = record t { subtasks = update_where (may_toggle t.tasks id u) flip t.subtasks }

flip-flip : (s : SubtaskRow) → flip (flip s) ≡ s
flip-flip s = ground arith

toggled_twice : (id u : String) (t : Tables) → toggled id u (toggled id u t) ≡ t
toggled_twice id u t =
    ap (λ (ss : List SubtaskRow). record t { subtasks = ss })
      (update_where_twice (may_toggle t.tasks id u) flip t.subtasks (λ s. refl) flip-flip)

scan_toggled_world :
    (a : Option SubtaskRow) (w : World Tables) → (Repository.scan_toggled a w).1 ≡ w
scan_toggled_world none w = refl
scan_toggled_world (some s) w = refl

module _ (pg : Platform) where
  -- What an answer that succeeded found and wrote.
  respond_ok :
      (task user status : String) (w : World Tables)
      → (Repository.respond pg task user status w).0 ≡ ok tt
      → (id : String) × (u : String) × (pg.uuid task ≡ some id)
        × (pg.uuid user ≡ some u)
        × (nat_eq (count (by_addressee id u) w.tables.tasks) 0 ≡ false)
        × ((Repository.respond pg task user status w).1.tables.tasks
            ≡ update_where
                (by_addressee id u)
                (λ r. record r { status = status; updated_at = w.now })
                w.tables.tasks)
  unfolding Repository.respond set_status
  respond_ok task user status w h =
      let (n, h1, same) = bind_ok _ _ w tt h in
      let written = sql_ok _ _ w n h1 in
      let (id, e, h2) = >>=-eq-some (pg.uuid task) _ written in
      let (u, f, h3) = >>=-eq-some (pg.uuid user) _ h2 in
      let (affected, after) =
        ensure_ok n already_handled (sql "respond shared task" (set_status pg task status user) w).1
          (ap (λ (r : Result (Unit {0}) × World Tables). r.0) (sym same) ∙ h) in
      (
        id,
        u,
        e,
        f,
        ap (λ (p : ℕ × Tables). nat_eq p.0 0) (of_some h3) ∙ affected,
        ap (λ (r : Result (Unit {0}) × World Tables). r.1.tables.tasks) same
            ∙ ap (λ (v : World Tables). v.tables.tasks) after
            ∙ sym (ap (λ (p : ℕ × Tables). p.1.tasks) (of_some h3)),
      )

  -- Where no task waits for the user's answer, there is none to give.
  respond_refused :
      (task user status : String) (id : String) (w : World Tables)
      → pg.uuid task ≡ some id
      → ((v : String) → count (by_addressee id v) w.tables.tasks ≡ 0)
      → (Repository.respond pg task user status w).0 ≢ ok tt
  respond_refused task user status id w e nothing h =
      let (i, v, e', f, some_row, after) = respond_ok task user status w h in
      cc (of_some (sym e ∙ e'), nothing v)

  -- A task is answered once: after an answer that succeeded, by either request, no further answer
  -- to the same task succeeds, whoever gives it and whatever it is, as long as nothing else happens
  -- in between. The ids of the tasks are distinct, and the first answer is not 'pending'.
  pub respond_once :
      (task user other status again : String) (w : World Tables)
      → HaveDistinctIds w.tables.tasks
      → status ≢ "pending"
      → (Repository.respond pg task user status w).0 ≡ ok tt
      → (Repository.respond pg task other again (Repository.respond pg task user status w).1).0
        ≢ ok tt
  respond_once task user other status again w d s h =
      let (id, u, e, f, some_row, after) = respond_ok task user status w h in
      respond_refused task other again id (Repository.respond pg task user status w).1 e
        (λ v. rw after (answered id u v status w.now w.tables.tasks d s some_row))

  -- What a toggle that succeeded wrote.
  toggle_ok :
      (subtask user : String) (w : World Tables) (s : SharedSubtask)
      → (Repository.toggle_subtask_done pg subtask user w).0 ≡ ok s
      → (id : String) × (u : String) × (pg.uuid subtask ≡ some id)
        × (pg.uuid user ≡ some u)
        × ((Repository.toggle_subtask_done pg subtask user w).1.tables ≡ toggled id u w.tables)
  unfolding Repository.toggle_subtask_done toggle_subtask
  toggle_ok subtask user w s h =
      let (a, h1, same) = bind_ok _ _ w s h in
      let written = sql_ok _ _ w a h1 in
      let (id, e, h2) = >>=-eq-some (pg.uuid subtask) _ written in
      let (u, f, h3) = >>=-eq-some (pg.uuid user) _ h2 in
      (
        id,
        u,
        e,
        f,
        ap (λ (r : Result SharedSubtask × World Tables). r.1.tables) same
            ∙ ap (λ (v : World Tables). v.tables) (scan_toggled_world a _)
            ∙ sym (ap (λ (p : Option SubtaskRow × Tables). p.1) (of_some h3)),
      )

  -- Two toggles of one subtask by one user, both of which succeed, restore the tables.
  pub toggle_twice :
      (subtask user : String) (w : World Tables) (s s' : SharedSubtask)
      → (Repository.toggle_subtask_done pg subtask user w).0 ≡ ok s
      → (Repository.toggle_subtask_done pg subtask user
          (Repository.toggle_subtask_done pg subtask user w).1).0
        ≡ ok s'
      → (Repository.toggle_subtask_done pg subtask user
          (Repository.toggle_subtask_done pg subtask user w).1).1.tables
        ≡ w.tables
  toggle_twice subtask user w s s' h g =
      let (id, u, e, f, first) = toggle_ok subtask user w s h in
      let (id', u', e', f', second) =
        toggle_ok subtask user (Repository.toggle_subtask_done pg subtask user w).1 s' g in
      second
      ∙ ap (toggled id' u') first
      ∙ ap₂ (λ i v. toggled i v (toggled id u w.tables)) (of_some (sym e' ∙ e))
          (of_some (sym f' ∙ f))
      ∙ toggled_twice id u w.tables

  -- The body that `Update` and `CounterPropose` share, around their UPDATE.
  abbrev rewrite_task :
      String
      → (ℕ → ℕ → Tables → Option (ℕ × Tables))
      → Error
      → String
      → Option (List SubtaskInput)
      → Exec Tables (Unit {0})
  rewrite_task what run e task ss = do
    n ← sql what run
    Repository.ensure_affected n (raise e)
    Repository.replace_subtasks pg task ss

  rewrite_ok :
      (what : String) (run : ℕ → ℕ → Tables → Option (ℕ × Tables)) (e : Error) (task : String)
      (ss : Option (List SubtaskInput)) (w : World Tables)
      → (transaction "" (rewrite_task what run e task ss) w).0 ≡ ok tt
      → (n : ℕ) × (t : Tables) × (run w.now (suc w.calls) w.tables ≡ some (n, t))
        × (nat_eq n 0 ≡ false)
        × ((transaction "" (rewrite_task what run e task ss) w).1.tables.tasks ≡ t.tasks)
  rewrite_ok what run e task ss w h =
      let (h0, outer) = transaction_ok "" (rewrite_task what run e task ss) w tt h in
      let (n, h1, same) = bind_ok _ _ (after_call w) tt h0 in
      let v : World Tables = (sql what run (after_call w)).1 in
      let h2 = ap (λ (r : Result (Unit {0}) × World Tables). r.0) (sym same) ∙ h0 in
      let (u, h3, same') =
        bind_ok (Repository.ensure_affected n (raise e))
          (λ _. Repository.replace_subtasks pg task ss) v tt h2 in
      let (affected, stay) = ensure_ok n e v h3 in
      (
        n,
        v.tables,
        sql_ok what run (after_call w) n h1,
        affected,
        ap (λ (t : Tables). t.tasks) outer
            ∙ ap (λ (r : Result (Unit {0}) × World Tables). r.1.tables.tasks) (same ∙ same')
            ∙ (replace_subtasks-Keeps pg (λ ts. ts ≡ v.tables.tasks) task ss).at
                (Repository.ensure_affected n (raise e) v).1
                (ap (λ (x : World Tables). x.tables.tasks) stay),
      )

  -- What a counter-proposal that succeeded wrote to the rows of the tasks.
  counter_ok :
      (task user : String) (input : UpdateInput) (w : World Tables)
      → (Repository.counter_propose pg task user input w).0 ≡ ok tt
      → (id : String) × (u : String) × (d : Option ℕ) × (pg.uuid task ≡ some id)
        × (pg.uuid user ≡ some u)
        × ((Repository.counter_propose pg task user input w).1.tables.tasks
            ≡ update_where
                (by_addressee id u)
                (λ r. swap_roles (overwrite input.title input.description input.priority d w.now r))
                w.tables.tasks)
  unfolding Repository.counter_propose counter_task
  counter_ok task user input w h =
      let (n, t, written, affected, after) = rewrite_ok _ _ _ _ _ w h in
      let (d, g, h2) =
        >>=-eq-some (read_due pg (Repository.due_date_arg input.due_date)) _ written in
      let (id, e, h3) = >>=-eq-some (pg.uuid task) _ h2 in
      let (u, f, h4) = >>=-eq-some (pg.uuid user) _ h3 in
      let (c, h5) =
        if-eq-some (fits 10 input.priority || not (any (by_addressee id u) w.tables.tasks)) _ h4 in
      (id, u, d, e, f, after ∙ sym (ap (λ (p : ℕ × Tables). p.1.tasks) h5))

  -- A counter-proposal that succeeded makes its author the proposer: where every task has two
  -- different users, the author can then neither accept nor reject the task, in whatever spelling
  -- of the task's id and of the own id, until another request changes it.
  pub counter_then_respond :
      (task user again self status : String) (input : UpdateInput) (w : World Tables)
      → All HasTwoUsers w.tables.tasks
      → pg.uuid again ≡ pg.uuid task
      → pg.uuid self ≡ pg.uuid user
      → (Repository.counter_propose pg task user input w).0 ≡ ok tt
      → (Repository.respond pg again self status
          (Repository.counter_propose pg task user input w).1).0
        ≢ ok tt
  counter_then_respond task user again self status input w two same_task same_user h g =
      let (id, u, d, e, f, after) = counter_ok task user input w h in
      let (id', u', e', f', some_row, _) =
        respond_ok again self status (Repository.counter_propose pg task user input w).1 g in
      let change = λ (r : TaskRow).
        swap_roles (overwrite input.title input.description input.priority d w.now r) in
      let rows = update_where (by_addressee id u) change w.tables.tasks in
      let none_left =
        ap (count (by_addressee id' u')) after
        ∙ ap₂ (λ i v. count (by_addressee i v) rows) (of_some (sym e' ∙ same_task ∙ e))
            (of_some (sym f' ∙ same_user ∙ f))
        ∙ swapped id u input.title input.description input.priority d w.now w.tables.tasks two in
      cc (some_row, none_left)
