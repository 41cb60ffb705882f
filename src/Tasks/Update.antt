-- ===== src/Tasks/Update.antt =====
-- What `Update` of app/internal/tasks/repository/postgres/postgres.go has written when it succeeds.
pub mod Success
use tasks_service.Prelude.{
  >>=-eq-some, of_some, ℕ, ◌≡◌, refl, sym, ap, ◌∙◌, inl, inr, Bool, true, false, not, Bool-cases,
  String, Option, none, some, [], ◌∷◌, ◌++◌, ◌||◌, arith, subst, any, update_where, nat_eq,
  if◌then◌else◌,
}
use tasks_service.Database.{
  Platform, World, Exec, Result, ok, raise, pure, sql, transaction, after_call, not_found, ◌>>=◌,
}
use tasks_service.Database.Inversion.{sql_ok, bind_ok, transaction_ok, of_ok}
use tasks_service.Tasks.Domain.{Task}
use tasks_service.Tasks.Tables.{EventRow, Tables, Generators, has_task_id, is_priory}
use tasks_service.Tasks.Statements.{
  to_task_payload, insert_update, next_version, update_event, insert_event,
}
use tasks_service.Tasks.Repository
use tasks_service.Tasks.Repository.{
  UpdatePatch, patch_row, patch_tag, write_patch, update_task, select_updated, scan_row,
  ensure_affected, or_keep, is_empty_patch,
}
use tasks_service.Tasks.Tags.{IsStable, patch_tag-Keeps, select_updated_same}

-- The rows and the outbox are those of before, but for the patched row and the event of the update.
abbrev pub IsUpdated : String → UpdatePatch → Task → Tables → Tables → Type 0
IsUpdated id p updated before t =
    (tag : Option String) × (e : EventRow) × (t.tasks
      ≡ update_where (has_task_id id) (patch_row p tag) before.tasks)
    × (t.outbox ≡ before.outbox ++ e ∷ [])
    × (e.event_type ≡ "update")
    × (e.aggregate_id ≡ id)
    × (e.event_data ≡ to_task_payload updated)

-- The rows are those of before, and the outbox has one more event, that of the update.
abbrev IsAppended : String → Task → Tables → Tables → Type 0
IsAppended id updated before t =
    (t.tasks ≡ before.tasks)
    × (e : EventRow) × (t.outbox ≡ before.outbox ++ e ∷ [])
    × (e.event_type ≡ "update")
    × (e.aggregate_id ≡ id)
    × (e.event_data ≡ to_task_payload updated)

module _ (pg : Platform) (gen : Generators) where
  update_task_ok :
      (task id : String) (p : UpdatePatch) (tag : Option String) (now n : ℕ) (t : Tables) (a : ℕ)
      (t' : Tables)
      → pg.uuid task ≡ some id
      → update_task pg gen task p tag now n t ≡ some (a, t')
      → (t'.tasks ≡ update_where (has_task_id id) (patch_row p tag) t.tasks)
        × (t'.outbox ≡ t.outbox)
  unfolding update_task
  update_task_ok task id p tag now n t a t' e =
      rw (e, update_task)
        (elim (Bool-cases
          (is_priory (or_keep p.priority "red") || not (any (has_task_id id) t.tasks))) [
            | inl f ↦ rw f (λ h.
                let back = ap (λ (q : ℕ × Tables). q.1) (of_some h) in
                (sym (ap (λ (u : Tables). u.tasks) back), sym (ap (λ (u : Tables). u.outbox) back)))
            | inr f ↦ rw f (λ h. cc)
          ])

  insert_update_ok :
      (task id : String) (updated : Task) (now n : ℕ) (t : Tables) (a : Unit {0}) (t' : Tables)
      → pg.uuid task ≡ some id
      → insert_update pg gen task updated now n t ≡ some (a, t')
      → (t'.tasks ≡ t.tasks)
        × (e : EventRow) × (t'.outbox ≡ t.outbox ++ e ∷ [])
        × (e.event_type ≡ "update")
        × (e.aggregate_id ≡ id)
        × (e.event_data ≡ to_task_payload updated)
  unfolding insert_update
  insert_update_ok task id updated now n t a t' e h =
      let (id', e', h1) = >>=-eq-some (pg.uuid task) _ h in
      let event = update_event (gen.new_uuid n) id' updated now (next_version id' t.outbox) in
      let (outbox, f, h2) = >>=-eq-some (insert_event event t.outbox) _ h1 in
      let back = ap (λ (q : Unit {0} × Tables). q.1) (of_some h2) in
      let appended : t.outbox ++ event ∷ [] ≡ outbox = ground arith in
      (
        sym (ap (λ (u : Tables). u.tasks) back),
        event,
        sym (ap (λ (u : Tables). u.outbox) back) ∙ sym appended,
        refl,
        of_some (sym e' ∙ e),
        refl,
      )

  -- The end of `Update`: the event, and the reply.
  abbrev record_update : String → Task → Exec Tables Task
  record_update task updated =
      sql "insert outbox event" (insert_update pg gen task updated) >>= λ _. pure updated

  record_update_ok :
      (task id : String) (updated u : Task) (w : World Tables)
      → pg.uuid task ≡ some id
      → (record_update task updated w).0 ≡ ok u
      → IsAppended id u w.tables (record_update task updated w).1.tables
  record_update_ok task id updated u w e h =
      let (a, h1, same) =
        bind_ok (sql "insert outbox event" (insert_update pg gen task updated)) (λ _. pure updated)
          w u h in
      let one = of_ok (ap (λ (r : Result Task × World Tables). r.0) (sym same) ∙ h) in
      subst (λ (r : Result Task × World Tables). IsAppended id u w.tables r.1.tables) (sym same)
        (subst
          (λ v.
            IsAppended id v w.tables
              (sql "insert outbox event" (insert_update pg gen task updated) w).1.tables)
          one (insert_update_ok task id updated _ _ _ a _ e (sql_ok _ _ w a h1)))

  abbrev scan_updated : String → Option Task → Exec Tables Task
  scan_updated task found = scan_row "fetch updated task" found >>= record_update task

  scan_updated_ok :
      (task id : String) (found : Option Task) (u : Task) (w : World Tables)
      → pg.uuid task ≡ some id
      → (scan_updated task found w).0 ≡ ok u
      → IsAppended id u w.tables (scan_updated task found w).1.tables
  unfolding ◌>>=◌
  scan_updated_ok task id none u w e h = cc
  scan_updated_ok task id (some updated) u w e h = record_update_ok task id updated u w e h

  abbrev fetch_updated : String → Exec Tables Task
  fetch_updated task = sql "fetch updated task" (select_updated pg gen task) >>= scan_updated task

  fetch_updated_ok :
      (task id : String) (u : Task) (w : World Tables)
      → pg.uuid task ≡ some id
      → (fetch_updated task w).0 ≡ ok u
      → IsAppended id u w.tables (fetch_updated task w).1.tables
  fetch_updated_ok task id u w e h =
      let m = sql "fetch updated task" (select_updated pg gen task) in
      let (found, h1, same) = bind_ok m (scan_updated task) w u h in
      let (tasks, outbox) = select_updated_same pg gen task _ _ _ found _ (sql_ok _ _ w found h1) in
      let (rows, event, log, kind, aggregate, payload) =
        scan_updated_ok task id found u (m w).1 e
          (ap (λ (r : Result Task × World Tables). r.0) (sym same) ∙ h) in
      subst (λ (r : Result Task × World Tables). IsAppended id u w.tables r.1.tables) (sym same)
        (
          rows ∙ sym tasks,
          event,
          log ∙ ap (λ o. o ++ event ∷ []) (sym outbox),
          kind,
          aggregate,
          payload,
        )

  affected_ok :
      (task id : String) (b : Bool) (u : Task) (w : World Tables)
      → pg.uuid task ≡ some id
      → (((if b then raise not_found else pure {A = Unit {0}} tt) >>= λ _. fetch_updated task) w).0
        ≡ ok u
      → IsAppended id u w.tables
          (((if b then raise not_found else pure {A = Unit {0}} tt) >>= λ _. fetch_updated task)
            w).1.tables
  unfolding ◌>>=◌
  affected_ok task id true u w e h = cc
  affected_ok task id false u w e h = fetch_updated_ok task id u w e h

  abbrev patch_and_fetch : String → UpdatePatch → Option String → Exec Tables Task
  patch_and_fetch task p tag = sql "exec update task" (update_task pg gen task p tag) >>= λ n.
      ensure_affected n >>= λ _. fetch_updated task

  patch_and_fetch_ok :
      (task id : String) (p : UpdatePatch) (tag : Option String) (u : Task) (w : World Tables)
      → pg.uuid task ≡ some id
      → (patch_and_fetch task p tag w).0 ≡ ok u
      → IsUpdated id p u w.tables (patch_and_fetch task p tag w).1.tables
  patch_and_fetch_ok task id p tag u w e h =
      let m = sql "exec update task" (update_task pg gen task p tag) in
      let rest = λ (n : ℕ). ensure_affected n >>= λ _. fetch_updated task in
      let (n, h1, same) = bind_ok m rest w u h in
      let (patched, outbox) = update_task_ok task id p tag _ _ _ n _ e (sql_ok _ _ w n h1) in
      let (rows, event, log, kind, aggregate, payload) =
        affected_ok task id (nat_eq n 0) u (m w).1 e
          (ap (λ (r : Result Task × World Tables). r.0) (sym same) ∙ h) in
      subst (λ (r : Result Task × World Tables). IsUpdated id p u w.tables r.1.tables) (sym same)
        (
          tag,
          event,
          rows ∙ patched,
          log ∙ ap (λ o. o ++ event ∷ []) outbox,
          kind,
          aggregate,
          payload,
        )

  write_patch_ok :
      (task id : String) (p : UpdatePatch) (tag : Option String) (u : Task) (w : World Tables)
      → pg.uuid task ≡ some id
      → (write_patch pg gen task p tag w).0 ≡ ok u
      → IsUpdated id p u w.tables (write_patch pg gen task p tag w).1.tables
  unfolding write_patch
  write_patch_ok task id p tag u w e = elim (Bool-cases (is_empty_patch p tag)) [
    | inl f ↦ rw f (λ h. cc)
    | inr f ↦ rw f (patch_and_fetch_ok task id p tag u w e)
  ]

  -- The rows and the outbox are those of `before`.
  abbrev IsSame : Tables → Tables → Type 0
  IsSame before t = (t.tasks ≡ before.tasks) × (t.outbox ≡ before.outbox)

  IsSame-IsStable : (before : Tables) → IsStable (IsSame before)
  IsSame-IsStable before t t' tasks outbox v = (sym tasks ∙ v.0, sym outbox ∙ v.1)

  committed :
      (task id : String) (p : UpdatePatch) (u : Task) (w : World Tables)
      → pg.uuid task ≡ some id
      → (transaction "commit update tx"
          (patch_tag pg gen task p.tag_name >>= write_patch pg gen task p)
          w).0
        ≡ ok u
      → IsUpdated id p u w.tables
          (transaction "commit update tx"
            (patch_tag pg gen task p.tag_name >>= write_patch pg gen task p)
            w).1.tables
  committed task id p u w e h =
      let m = patch_tag pg gen task p.tag_name in
      let (h1, after) = transaction_ok _ (m >>= write_patch pg gen task p) w u h in
      let v = after_call w in
      let (tag, h2, same) = bind_ok m (write_patch pg gen task p) v u h1 in
      let (rows, outbox) =
        (patch_tag-Keeps (IsSame w.tables) (IsSame-IsStable w.tables) pg gen task p.tag_name).at v
          (refl, refl) in
      let (set_tag, event, patched, log, kind, aggregate, payload) =
        write_patch_ok task id p tag u (m v).1 e
          (ap (λ (r : Result Task × World Tables). r.0) (sym same) ∙ h1) in
      subst (IsUpdated id p u w.tables)
        (sym (after ∙ ap (λ (r : Result Task × World Tables). r.1.tables) same))
        (
          set_tag,
          event,
          patched ∙ ap (update_where (has_task_id id) (patch_row p set_tag)) rows,
          log ∙ ap (λ o. o ++ event ∷ []) outbox,
          kind,
          aggregate,
          payload,
        )

  -- An update that succeeds has set the fields of the patch, and possibly another tag, in the row of
  -- the task, has left all other rows as they were, and has added one event to the outbox: an update
  -- of this task, whose data is the task that it returns.
  pub update_lem :
      (task id : String) (p : UpdatePatch) (u : Task) (w : World Tables)
      → pg.uuid task ≡ some id
      → (Repository.update pg gen task p w).0 ≡ ok u
      → IsUpdated id p u w.tables (Repository.update pg gen task p w).1.tables
  unfolding Repository.update
  update_lem task id p u w e = elim (Bool-cases (not (pg.parse_uuid task))) [
    | inl f ↦ rw f (λ h. cc)
    | inr f ↦ rw f (committed task id p u w e)
  ]
