-- ===== src/SharedTasks/Proposal.antt =====
-- What a proposal that succeeded has stored, and what the spelling of a user's id decides.
use tasks_service.Prelude.{
  >>=-eq-some, of_some, if-eq-some, ℕ, suc, ◌≡◌, refl, sym, ap, ◌∙◌, false, String, Option, none,
  some, List, [], ◌∷◌, ◌++◌, ◌==◌, ◌&&◌, not, All, inl, inr, Bool-cases, subst, any,
}
use tasks_service.Database.{
  World, Exec, Error, Result, ok, Platform, pure, sql, after_call, ◌>>=◌, ◌>>◌,
}
use tasks_service.Database.Inversion.{sql_ok, bind_ok, transaction_ok}
use tasks_service.Database.Rules.{Keeps-bind, Keeps-pure}
use tasks_service.SharedTasks.Domain.{SubtaskInput, validate_subtasks_for_proposal}
use tasks_service.SharedTasks.Tables.{Tables, TaskRow, has_id}
use tasks_service.SharedTasks.Repository
use tasks_service.SharedTasks.Repository.Statements.{fits, read_due, insert_task, new_task}
use tasks_service.SharedTasks.Service
use tasks_service.SharedTasks.Subtasks.{insert_subtasks-Keeps}
use tasks_service.SharedTasks.Invariant.Rows.{HasTwoUsers}

or_raise_ok {ℓ} :
    {A : Type ℓ} (e : Option Error) (m : Exec Tables A) (w : World Tables) (a : A)
    → (Service.or_raise e m w).0 ≡ ok a
    → (e ≡ none) × (Service.or_raise e m w ≡ m w)
or_raise_ok none m w a h = (refl, refl)
or_raise_ok (some e) m w a h = cc

not-All-append :
    (xs : List TaskRow) (r : TaskRow)
    → r.proposer_id ≡ r.addressee_id
    → ¬ All HasTwoUsers (xs ++ r ∷ [])
not-All-append [] r h all = all.0 h
not-All-append (x ∷ xs) r h all = not-All-append xs r h all.1

module _ (pg : Platform) (p a title desc priority due : String) (ss : List SubtaskInput) where
  abbrev pub stored : World Tables → Result String × World Tables
  stored = Repository.propose pg p a title desc priority due ss

  -- The checks that a proposal that succeeded has passed.
  pub checked :
      (w : World Tables) (id : String)
      → (Service.propose pg p a title desc priority due ss w).0 ≡ ok id
      → (p == a ≡ false)
        × (validate_subtasks_for_proposal p a (Service.candidates ss) ≡ none)
        × (Service.propose pg p a title desc priority due ss w ≡ stored w)
  unfolding Service.propose
  checked w id = elim (Bool-cases (p == a)) [
    | inl e ↦ rw e (λ h. cc)
    | inr e ↦ rw e (λ h.
        let (valid, same) =
          or_raise_ok (validate_subtasks_for_proposal p a (Service.candidates ss)) stored w id h in
        (refl, valid, same))
  ]

  abbrev pub body : Exec Tables String
  body = do
    task ← sql "insert shared_task" (
        insert_task pg p a title desc (Repository.default_priority priority)
          (Repository.due_date_arg due))
    Repository.insert_subtasks pg "insert shared_subtask" task 0 ss
    pure task

  -- The row that a proposal adds.
  pub stored_row :
      (w : World Tables) (id : String)
      → (stored w).0 ≡ ok id
      → (u : String) × (v : String) × (d : Option ℕ) × (pg.uuid p ≡ some u)
        × (pg.uuid a ≡ some v)
        × ((stored w).1.tables.tasks
            ≡ w.tables.tasks
              ++ new_task pg u v title desc
                  (Repository.default_priority priority)
                  d
                  w.now
                  (suc w.calls)
                ∷ [])
  unfolding Repository.propose insert_task
  stored_row w id h =
      let (h0, outer) = transaction_ok "commit tx" body w id h in
      let (task, h1, same) = bind_ok _ _ (after_call w) id h0 in
      let written = sql_ok _ _ (after_call w) task h1 in
      let v' : World Tables =
        (sql "insert shared_task"
          (insert_task pg p a title desc (Repository.default_priority priority)
            (Repository.due_date_arg due))
          (after_call w)).1 in
      let (u, e, h2) = >>=-eq-some (pg.uuid p) _ written in
      let (v, f, h3) = >>=-eq-some (pg.uuid a) _ h2 in
      let (d, g, h4) = >>=-eq-some (read_due pg (Repository.due_date_arg due)) _ h3 in
      let (c, h5) =
        if-eq-some
          (fits 10 (Repository.default_priority priority)
            && not (any (has_id (pg.gen_uuid (suc w.calls))) w.tables.tasks))
          _ h4 in
      (
        u,
        v,
        d,
        e,
        f,
        ap (λ (t : Tables). t.tasks) outer
            ∙ ap (λ (r : Result String × World Tables). r.1.tables.tasks) same
            ∙ (Keeps-bind _ _
                  (insert_subtasks-Keeps pg (λ ts. ts ≡ v'.tables.tasks) "insert shared_subtask"
                    task 0 ss)
                  (λ _. Keeps-pure task)).at
                v' refl
            ∙ sym (ap (λ (q : String × Tables). q.1.tasks) h5),
      )

  -- A proposal that passes the checks does what the repository does.
  passes :
      (w : World Tables)
      → p == a ≡ false
      → validate_subtasks_for_proposal p a (Service.candidates ss) ≡ none
      → Service.propose pg p a title desc priority due ss w ≡ stored w
  unfolding Service.propose
  passes w e valid = rw (e, valid) refl

  -- Two texts that differ but are one id to the database, with subtasks that pass the validation of
  -- the assignees: when the repository's statements succeed, so does the proposal to oneself, and
  -- not every stored task has two users any more.
  pub self_task_stored :
      (w : World Tables) (id : String)
      → p == a ≡ false
      → pg.uuid p ≡ pg.uuid a
      → validate_subtasks_for_proposal p a (Service.candidates ss) ≡ none
      → (Repository.propose pg p a title desc priority due ss w).0 ≡ ok id
      → ((Service.propose pg p a title desc priority due ss w).0 ≡ ok id)
        × ¬ All HasTwoUsers (Service.propose pg p a title desc priority due ss w).1.tables.tasks
  self_task_stored w id differ one_user valid h =
      let same = passes w differ valid in
      let (u, v, d, e, f, after) = stored_row w id h in
      (
        ap (λ (r : Result String × World Tables). r.0) same ∙ h,
        λ all. not-All-append w.tables.tasks _ (of_some (sym e ∙ one_user ∙ f)) (
            subst (All HasTwoUsers)
              (ap (λ (r : Result String × World Tables). r.1.tables.tasks) same ∙ after) all),
      )
