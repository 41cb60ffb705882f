-- ===== src/SharedTasks/Assignees.antt =====
-- A proposal that succeeded has stored a subtask for each of the two users.
use tasks_service.Prelude.{
  >>=-eq-some, of_some, if-eq-some, ℕ, ◌+◌, ◌≡◌, ◌≢◌, refl, sym, ap, ◌∙◌, Bool, true, String, none,
  some, List, [], ◌∷◌, ◌==◌, ◌&&◌, ◌||◌, not, arith, eq_iff, inl, inr, Bool-cases, subst, any,
  any-append, any-append_left,
}
use tasks_service.Database.{World, Result, ok, Platform, pure, sql, after_call}
use tasks_service.Database.Inversion.{sql_ok, bind_ok, transaction_ok, of_ok}
use tasks_service.Database.Rules.{Keeps, Keeps-bind, Keeps-sql, Keeps-pure, Keeps-if}
use tasks_service.SharedTasks.Domain.{SubtaskInput}
use tasks_service.SharedTasks.Tables.{Tables, SubtaskRow, has_id}
use tasks_service.SharedTasks.Repository
use tasks_service.SharedTasks.Repository.Statements.{insert_subtask, insert_task}
use tasks_service.SharedTasks.Service
use tasks_service.SharedTasks.Proposal
use tasks_service.SharedTasks.Validation.{is_assigned_to, validate_subtasks_for_proposal_lem}

-- A subtask of the task `id` that is assigned to the user `u`.
abbrev pub is_for : String → String → SubtaskRow → Bool
is_for id u s = s.shared_task_id == id && s.assignee_id == u

abbrev names : String → SubtaskInput → Bool
names x s = not (s.title == "") && s.assignee_id == x

any-candidates :
    (x : String) (ss : List SubtaskInput)
    → any (is_assigned_to x) (Service.candidates ss) ≡ any (names x) ss
unfolding any Service.candidates
any-candidates x [] = refl
any-candidates x (s ∷ rest) = ground (arith, any-candidates x rest)

module _ (pg : Platform) (id u task x what : String) where
  insert_found :
      (title : String) (i now n : ℕ) (t : Tables) (tt' : Unit {0}) (t' : Tables)
      → pg.uuid task ≡ some id
      → pg.uuid x ≡ some u
      → insert_subtask pg task title x i now n t ≡ some (tt', t')
      → any (is_for id u) t'.subtasks ≡ true
  unfolding insert_subtask any
  insert_found title i now n t tt' t' e f h =
      let (k, e', h1) = >>=-eq-some (pg.uuid task) _ h in
      let (v, f', h2) = >>=-eq-some (pg.uuid x) _ h1 in
      let (c, h3) = if-eq-some (any (has_id k) t.tasks) _ h2 in
      ap (λ (q : Unit {0} × Tables). any (is_for id u) q.1.subtasks) (sym h3)
      ∙ any-append (is_for id u) t.subtasks _
      ∙ ground (arith, eq_iff k id, eq_iff v u, of_some (sym e' ∙ e), of_some (sym f' ∙ f))

  insert_keeps :
      (title assignee : String) (i now n : ℕ) (t : Tables) (tt' : Unit {0}) (t' : Tables)
      → insert_subtask pg task title assignee i now n t ≡ some (tt', t')
      → any (is_for id u) t.subtasks ≡ true
      → any (is_for id u) t'.subtasks ≡ true
  unfolding insert_subtask
  insert_keeps title assignee i now n t tt' t' h g =
      let (k, e', h1) = >>=-eq-some (pg.uuid task) _ h in
      let (v, f', h2) = >>=-eq-some (pg.uuid assignee) _ h1 in
      let (c, h3) = if-eq-some (any (has_id k) t.tasks) _ h2 in
      ap (λ (q : Unit {0} × Tables). any (is_for id u) q.1.subtasks) (sym h3)
      ∙ any-append_left (is_for id u) t.subtasks _ g

  insert_subtasks_keep :
      (i : ℕ) (ss : List SubtaskInput)
      → Keeps
          (λ (t : Tables). any (is_for id u) t.subtasks ≡ true)
          (Repository.insert_subtasks pg what task i ss)
  unfolding Repository.insert_subtasks
  insert_subtasks_keep i [] = Keeps-pure tt
  insert_subtasks_keep i (s ∷ rest) =
      let later = insert_subtasks_keep (i + 1) rest in
      Keeps-if _ _ _ later
        (Keeps-bind _ _ (Keeps-sql _ _ (insert_keeps s.title s.assignee_id i)) (λ _. later))

  -- The loop inserts each subtask with a title and an assignee.
  insert_subtasks_found :
      (i : ℕ) (ss : List SubtaskInput) (w : World Tables)
      → pg.uuid task ≡ some id
      → pg.uuid x ≡ some u
      → x ≢ ""
      → any (names x) ss ≡ true
      → (Repository.insert_subtasks pg what task i ss w).0 ≡ ok tt
      → any (is_for id u) (Repository.insert_subtasks pg what task i ss w).1.tables.subtasks ≡ true
  unfolding Repository.insert_subtasks any
  insert_subtasks_found i [] w e f ne found = λ h. cc
  insert_subtasks_found i (s ∷ rest) w e f ne found =
      elim (Bool-cases (s.title == "" || s.assignee_id == "")) [
        | inl skip ↦ rw skip (λ h.
            insert_subtasks_found (i + 1) rest w e f ne
              (ground (arith, eq_iff s.assignee_id x, eq_iff s.assignee_id "")) h)
        | inr keep ↦ rw keep (λ h.
            let (u', h1, same) =
              bind_ok (sql what (insert_subtask pg task s.title s.assignee_id i))
                (λ _. Repository.insert_subtasks pg what task (i + 1) rest) w tt h in
            let v : World Tables =
              (sql what (insert_subtask pg task s.title s.assignee_id i) w).1 in
            let written = sql_ok what (insert_subtask pg task s.title s.assignee_id i) w u' h1 in
            let h2 = ap (λ (r : Result (Unit {0}) × World Tables). r.0) (sym same) ∙ h in
            ap (λ (r : Result (Unit {0}) × World Tables). any (is_for id u) r.1.tables.subtasks)
              same
            ∙ elim (Bool-cases (names x s)) [
              | inl here ↦
                  let it : s.assignee_id ≡ x = (eq_iff s.assignee_id x).0 (ground arith) in
                  (insert_subtasks_keep (i + 1) rest).at v (
                    insert_found s.title i w.now w.calls w.tables u' v.tables e f (
                      subst
                        (λ y.
                          insert_subtask pg task s.title y i w.now w.calls w.tables
                          ≡ some (u', v.tables))
                        it written))
              | inr there ↦ insert_subtasks_found (i + 1) rest v e f ne (ground arith) h2
            ])
      ]

module _ (pg : Platform) (p a title desc priority due : String) (ss : List SubtaskInput) where
  -- The subtasks of a user who is named by one, after the repository's transaction.
  stored_found :
      (x id u : String) (w : World Tables)
      → pg.uuid id ≡ some id
      → pg.uuid x ≡ some u
      → x ≢ ""
      → any (names x) ss ≡ true
      → (Repository.propose pg p a title desc priority due ss w).0 ≡ ok id
      → any (is_for id u) (Repository.propose pg p a title desc priority due ss w).1.tables.subtasks
        ≡ true
  unfolding Repository.propose
  stored_found x id u w e f ne found h =
      let insert =
        insert_task pg p a title desc (Repository.default_priority priority)
          (Repository.due_date_arg due) in
      let (h0, outer) =
        transaction_ok "commit tx" (Proposal.body pg p a title desc priority due ss) w id h in
      let (task, h1, same) = bind_ok _ _ (after_call w) id h0 in
      let v : World Tables = (sql "insert shared_task" insert (after_call w)).1 in
      let h2 = ap (λ (r : Result String × World Tables). r.0) (sym same) ∙ h0 in
      let (u', h3, same') =
        bind_ok (Repository.insert_subtasks pg "insert shared_subtask" task 0 ss) (λ _. pure task) v
          id h2 in
      let is_id = of_ok (ap (λ (r : Result String × World Tables). r.0) (sym same') ∙ h2) in
      ap (λ (t : Tables). any (is_for id u) t.subtasks) outer
      ∙ ap (λ (r : Result String × World Tables). any (is_for id u) r.1.tables.subtasks)
          (same ∙ same')
      ∙ insert_subtasks_found pg id u task x "insert shared_subtask" 0 ss v (ap pg.uuid is_id ∙ e) f
          ne found h3

  -- A proposal that succeeded has stored, under the id that it returns, a subtask that is assigned
  -- to the proposer and one that is assigned to the addressee. The database reads the id back as
  -- it is, both users' ids are read, and the empty text is no id.
  pub propose_assigns_both :
      (w : World Tables) (id u v : String)
      → pg.uuid id ≡ some id
      → pg.uuid p ≡ some u
      → pg.uuid a ≡ some v
      → pg.uuid "" ≡ none
      → (Service.propose pg p a title desc priority due ss w).0 ≡ ok id
      → (any (is_for id u) (Service.propose pg p a title desc priority due ss w).1.tables.subtasks
          ≡ true)
        × (any (is_for id v) (Service.propose pg p a title desc priority due ss w).1.tables.subtasks
            ≡ true)
  propose_assigns_both w id u v e f g blank h =
      let (_, valid, same) = Proposal.checked pg p a title desc priority due ss w id h in
      let h0 = ap (λ (r : Result String × World Tables). r.0) (sym same) ∙ h in
      let moved = ap (λ (r : Result String × World Tables). r.1.tables.subtasks) same in
      let decided = sym (validate_subtasks_for_proposal_lem p a (Service.candidates ss)) ∙ valid in
      let own : any (names p) ss ≡ true = ground (arith, any-candidates p ss) in
      let friend : any (names a) ss ≡ true = ground (arith, any-candidates a ss) in
      (
        ap (any (is_for id u)) moved
            ∙ stored_found p id u w e f (λ z. cc (sym f ∙ ap pg.uuid z ∙ blank)) own h0,
        ap (any (is_for id v)) moved
            ∙ stored_found a id v w e g (λ z. cc (sym g ∙ ap pg.uuid z ∙ blank)) friend h0,
      )
