-- ===== src/Tasks/Log/Statements.antt =====
-- What the statements of app/internal/tasks/repository/postgres/postgres.go do to the outbox.
use tasks_service.Prelude.{
  >>=-eq-some, of_some, any-append_last, ℕ, suc, ◌≡◌, sym, ap, ◌∙◌, inl, inr, Bool, true, not,
  Bool-cases, Option-cases, String, Option, none, some, List, [], ◌∷◌, ◌++◌, ◌==◌, ◌&&◌, ◌||◌,
  arith, subst, any, any-append_left, select, eq_refl, All, All-append, All-map, All-select,
  All-update_where, if◌then◌else◌,
}
use mathlib.Core.List.{append_assoc, append-nil}
use tasks_service.Database.{Platform}
use tasks_service.Tasks.Domain.{Task}
use tasks_service.Tasks.Tables.{TaskRow, EventRow, Tables, Generators, has_task_id, is_priory}
use tasks_service.Tasks.Statements.{
  tag_resolved, tag_upserted, insert_row, insert_event, created_event, new_row, deleted_event,
  insert_deleted, delete_rows, create_tagged, create_simple, insert_tasks, insert_events,
  insert_batch, insert_batch_events, delete_task, delete_tasks, insert_update, read_tag, read_ids,
  or_empty,
}
use tasks_service.Tasks.Repository.{UpdatePatch, patch_row, or_keep, update_task}

abbrev pub is_creation_of : String → EventRow → Bool
is_creation_of id e = e.aggregate_id == id && e.event_type == "created"

-- The event of the row's creation is in the outbox.
abbrev pub HasCreation : List EventRow → TaskRow → Type 0
HasCreation outbox r = any (is_creation_of r.task_id) outbox ≡ true

abbrev pub IsLogged : Tables → Type 0
IsLogged t = All (HasCreation t.outbox) t.tasks

pub insert_row_ok :
    (r : TaskRow) (rows rows' : List TaskRow)
    → insert_row r rows ≡ some rows'
    → rows ++ r ∷ [] ≡ rows'
insert_row_ok r rows rows' h = ground arith

insert_event_ok :
    (e : EventRow) (rows rows' : List EventRow)
    → insert_event e rows ≡ some rows'
    → rows ++ e ∷ [] ≡ rows'
insert_event_ok e rows rows' h = ground arith

-- More events keep what is logged.
pub more_events :
    (outbox more : List EventRow) (rows : List TaskRow)
    → All (HasCreation outbox) rows
    → All (HasCreation (outbox ++ more)) rows
more_events outbox more rows =
    All-map (HasCreation outbox) (HasCreation (outbox ++ more)) rows
      λ r h. any-append_left (is_creation_of r.task_id) outbox more h

created_matches :
    (event_id id : String) (task : Task) (now : ℕ)
    → is_creation_of id (created_event event_id id task now) ≡ true
created_matches event_id id task now = ground (arith, eq_refl id)

created-IsLogged :
    (event_id id user tag : String) (task : Task) (now : ℕ) (outbox : List EventRow)
    (rows : List TaskRow)
    → All (HasCreation outbox) rows
    → All
        (HasCreation (outbox ++ created_event event_id id task now ∷ []))
        (rows ++ new_row id user tag task now ∷ [])
created-IsLogged event_id id user tag task now outbox rows v =
    All-append _ rows _ (more_events outbox _ rows v)
      (any-append_last (is_creation_of id) outbox _ (created_matches event_id id task now), tt)

module _ (pg : Platform) (gen : Generators) where
  pub create_tagged-IsLogged :
      (task : Task) (now n : ℕ) (t : Tables) (a : Unit {0}) (t' : Tables)
      → create_tagged pg gen task now n t ≡ some (a, t')
      → IsLogged t
      → IsLogged t'
  unfolding create_tagged
  create_tagged-IsLogged task now n t a t' h v =
      let (user, e1, h1) = >>=-eq-some (pg.uuid task.user_id) _ h in
      let (id, e2, h2) = >>=-eq-some (pg.uuid task.id) _ h1 in
      let tag =
        tag_upserted (gen.row_uuid n 0) task.tag_name user t.custom_tags
          (tag_resolved task.tag_name user t) in
      let (rows, e3, h3) = >>=-eq-some (insert_row (new_row id user tag.0 task now) t.tasks) _ h2 in
      let (outbox, e4, h4) =
        >>=-eq-some (insert_event (created_event (gen.new_uuid n) id task now) t.outbox) _ h3 in
      subst IsLogged (ap (λ (q : Unit {0} × Tables). q.1) (of_some h4)) (
        subst (λ o. All (HasCreation o) rows) (insert_event_ok _ t.outbox outbox e4)
          (subst (All (HasCreation (t.outbox ++ created_event (gen.new_uuid n) id task now ∷ [])))
            (insert_row_ok _ t.tasks rows e3)
            (created-IsLogged (gen.new_uuid n) id user tag.0 task now t.outbox t.tasks v)))

  pub create_simple-IsLogged :
      (task : Task) (now n : ℕ) (t : Tables) (a : Unit {0}) (t' : Tables)
      → create_simple pg gen task now n t ≡ some (a, t')
      → IsLogged t
      → IsLogged t'
  unfolding create_simple
  create_simple-IsLogged task now n t a t' h v =
      let (user, e1, h1) = >>=-eq-some (pg.uuid task.user_id) _ h in
      let (id, e2, h2) = >>=-eq-some (pg.uuid task.id) _ h1 in
      let (tag, e0, h0) = >>=-eq-some (read_tag pg gen task.tag_id) _ h2 in
      let (rows, e3, h3) = >>=-eq-some (insert_row (new_row id user tag task now) t.tasks) _ h0 in
      let (outbox, e4, h4) =
        >>=-eq-some (insert_event (created_event (gen.new_uuid n) id task now) t.outbox) _ h3 in
      subst IsLogged (ap (λ (q : Unit {0} × Tables). q.1) (of_some h4)) (
        subst (λ o. All (HasCreation o) rows) (insert_event_ok _ t.outbox outbox e4)
          (subst (All (HasCreation (t.outbox ++ created_event (gen.new_uuid n) id task now ∷ [])))
            (insert_row_ok _ t.tasks rows e3)
            (created-IsLogged (gen.new_uuid n) id user tag task now t.outbox t.tasks v)))

  -- The rows and the events of one batch, inserted by two statements.
  batch_loops :
      (tasks : List Task) (i now n now' n' : ℕ) (rows rows' : List TaskRow)
      (outbox outbox' : List EventRow)
      → insert_tasks pg gen tasks now n rows ≡ some rows'
      → insert_events pg gen tasks i now' n' outbox ≡ some outbox'
      → All (HasCreation outbox) rows
      → All (HasCreation outbox') rows'
  unfolding insert_tasks insert_events
  batch_loops [] i now n now' n' rows rows' outbox outbox' h g v =
      subst (λ o. All (HasCreation o) rows') (of_some g)
        (subst (All (HasCreation outbox)) (of_some h) v)
  batch_loops (task ∷ rest) i now n now' n' rows rows' outbox outbox' h g v =
      let (user, e1, h1) = >>=-eq-some (pg.uuid task.user_id) _ h in
      let (id, e2, h2) = >>=-eq-some (pg.uuid task.id) _ h1 in
      let (tag, e3, h3) =
        >>=-eq-some (read_tag pg gen (if or_empty task.tag_id == "" then none else task.tag_id)) _
          h2 in
      let (rows1, e4, h4) = >>=-eq-some (insert_row (new_row id user tag task now) rows) _ h3 in
      let (id', f2, g2) = >>=-eq-some (pg.uuid task.id) _ g in
      let (outbox1, f4, g4) =
        >>=-eq-some (insert_event (created_event (gen.row_uuid n' i) id' task now') outbox) _ g2 in
      let event = insert_event_ok _ outbox outbox1 f4 in
      batch_loops rest (suc i) now n now' n' rows1 rows' outbox1 outbox' h4 g4 (
        subst (λ o. All (HasCreation o) rows1) event
          (subst
            (All (HasCreation (outbox ++ created_event (gen.row_uuid n' i) id' task now' ∷ [])))
            (insert_row_ok (new_row id user tag task now) rows rows1 e4)
            (All-append _ rows _ (more_events outbox _ rows v) (
              any-append_last (is_creation_of id) outbox _ (
                  subst
                    (λ j. is_creation_of j (created_event (gen.row_uuid n' i) id' task now') ≡ true)
                    (of_some (sym f2 ∙ e2)) (created_matches (gen.row_uuid n' i) id' task now')),
              tt,
            ))))

  pub batch-IsLogged :
      (tasks : List Task) (now n now' n' : ℕ) (t t1 t' : Tables) (a b : Unit {0})
      → insert_batch pg gen tasks now n t ≡ some (a, t1)
      → insert_batch_events pg gen tasks now' n' t1 ≡ some (b, t')
      → IsLogged t
      → IsLogged t'
  unfolding insert_batch insert_batch_events
  batch-IsLogged tasks now n now' n' t t1 t' a b h g v =
      let (rows, e1, h1) = >>=-eq-some (insert_tasks pg gen tasks now n t.tasks) _ h in
      let back = ap (λ (q : Unit {0} × Tables). q.1) (of_some h1) in
      let (outbox, f1, g1) = >>=-eq-some (insert_events pg gen tasks 0 now' n' t1.outbox) _ g in
      subst IsLogged (ap (λ (q : Unit {0} × Tables). q.1) (of_some g1)) (
        subst (λ (u : Tables). All (HasCreation outbox) u.tasks) back
          (batch_loops tasks 0 now n now' n' t.tasks rows t.outbox outbox e1
            (subst (λ (u : Tables). insert_events pg gen tasks 0 now' n' u.outbox ≡ some outbox)
              (sym back) f1)
            v))

  pub insert_update-IsLogged :
      (task : String) (updated : Task) (now n : ℕ) (t : Tables) (a : Unit {0}) (t' : Tables)
      → insert_update pg gen task updated now n t ≡ some (a, t')
      → IsLogged t
      → IsLogged t'
  unfolding insert_update
  insert_update-IsLogged task updated now n t a t' h v =
      let (id, e1, h1) = >>=-eq-some (pg.uuid task) _ h in
      let (outbox, e2, h2) = >>=-eq-some (insert_event _ t.outbox) _ h1 in
      subst IsLogged (ap (λ (q : Unit {0} × Tables). q.1) (of_some h2)) (
        subst (λ o. All (HasCreation o) t.tasks) (insert_event_ok _ t.outbox outbox e2)
          (more_events t.outbox _ t.tasks v))

  deleted_more :
      (id : ℕ → String) (i now : ℕ) (rows : List TaskRow) (outbox outbox' : List EventRow)
      → insert_deleted id i now rows outbox ≡ some outbox'
      → (more : List EventRow) × (outbox ++ more ≡ outbox')
  unfolding insert_deleted
  deleted_more id i now [] outbox outbox' h = ([], append-nil outbox ∙ of_some h)
  deleted_more id i now (r ∷ rest) outbox outbox' h =
      let (outbox1, e1, h1) = >>=-eq-some (insert_event (deleted_event (id i) now r) outbox) _ h in
      let (more, same) = deleted_more id (suc i) now rest outbox1 outbox' h1 in
      let event = deleted_event (id i) now r in
      (
        event ∷ more,
        sym (append_assoc outbox (event ∷ []) more)
            ∙ ap (λ o. o ++ more) (insert_event_ok event outbox outbox1 e1)
            ∙ same,
      )

  delete_rows-IsLogged :
      (id : ℕ → String) (now : ℕ) (hit : TaskRow → Bool) (t t' : Tables)
      → delete_rows id now hit t ≡ some t'
      → IsLogged t
      → IsLogged t'
  delete_rows-IsLogged id now hit t t' h v =
      let (outbox, e1, h1) =
        >>=-eq-some (insert_deleted id 0 now (select hit t.tasks) t.outbox) _ h in
      let (more, same) = deleted_more id 0 now (select hit t.tasks) t.outbox outbox e1 in
      subst IsLogged (of_some h1) (
        All-select (HasCreation outbox) (λ r. not (hit r)) t.tasks
          (subst (λ o. All (HasCreation o) t.tasks) same (more_events t.outbox more t.tasks v)))

  pub delete_task-IsLogged :
      (task : String) (now n : ℕ) (t : Tables) (a : ℕ) (t' : Tables)
      → delete_task pg gen task now n t ≡ some (a, t')
      → IsLogged t
      → IsLogged t'
  unfolding delete_task
  delete_task-IsLogged task now n t a t' h v =
      let (id, e1, h1) = >>=-eq-some (pg.uuid task) _ h in
      let (after, e2, h2) = >>=-eq-some (delete_rows _ now (has_task_id id) t) _ h1 in
      subst IsLogged (ap (λ (q : ℕ × Tables). q.1) (of_some h2))
        (delete_rows-IsLogged _ now (has_task_id id) t after e2 v)

  pub delete_tasks-IsLogged :
      (tasks : List String) (now n : ℕ) (t : Tables) (a : Unit {0}) (t' : Tables)
      → delete_tasks pg gen tasks now n t ≡ some (a, t')
      → IsLogged t
      → IsLogged t'
  unfolding delete_tasks
  delete_tasks-IsLogged tasks now n t a t' h v =
      let (ids, e1, h1) = >>=-eq-some (read_ids pg.uuid tasks) _ h in
      let hit = λ (r : TaskRow). any (λ id. id == r.task_id) ids in
      let (after, e2, h2) = >>=-eq-some (delete_rows (gen.row_uuid n) now hit t) _ h1 in
      subst IsLogged (ap (λ (q : Unit {0} × Tables). q.1) (of_some h2))
        (delete_rows-IsLogged (gen.row_uuid n) now hit t after e2 v)

  pub update_task-IsLogged :
      (task : String) (p : UpdatePatch) (tag : Option String) (now n : ℕ) (t : Tables) (a : ℕ)
      (t' : Tables)
      → update_task pg gen task p tag now n t ≡ some (a, t')
      → IsLogged t
      → IsLogged t'
  unfolding update_task
  update_task-IsLogged task p tag now n t a t' = elim (Option-cases (pg.uuid task)) [
    | inl e ↦ rw (e, update_task) (λ h. cc)
    | inr (id, e) ↦
        rw (e, update_task)
          (elim (Bool-cases
            (is_priory (or_keep p.priority "red") || not (any (has_task_id id) t.tasks))) [
              | inl f ↦ rw f (λ h v. subst IsLogged (ap (λ (q : ℕ × Tables). q.1) (of_some h)) (
                  All-update_where (HasCreation t.outbox) (has_task_id id) (patch_row p tag) t.tasks
                    (λ r one w. w) v))
              | inr f ↦ rw f (λ h. cc)
            ])
  ]
