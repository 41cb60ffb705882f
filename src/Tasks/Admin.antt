-- ===== src/Tasks/Admin.antt =====
-- What an administrator does to tasks, and what their owner answers:
-- app/internal/tasks/repository/postgres/postgres.go.
pub mod Effects
use tasks_service.Prelude.{
  ℕ, Bool, true, false, String, Option, none, some, ◌&&◌, ◌==◌, not, ltb, nat_eq, if◌then◌else◌,
  find, update_where, ◌>>=◌ as and_then,
}
use tasks_service.Database.{
  Platform, Exec, pure, raise, sql, driver, ◌>>=◌, ◌>>◌, invalid_uuid, not_found, deadline_expired,
}
use tasks_service.Tasks.Tables.{Tables, TaskRow, has_task_id}
use tasks_service.Tasks.Repository.{scan_row}

-- A NULL is false.
abbrev pub or_false : Option Bool → Bool
or_false none = false
or_false (some b) = b

-- `task_id = $1 AND (admin_deleted = FALSE OR admin_deleted IS NULL)`
abbrev pub is_live : String → TaskRow → Bool
is_live id r = has_task_id id r && not (or_false r.admin_deleted)

abbrev pub mark_deleted : ℕ → TaskRow → TaskRow
mark_deleted now r = record r { admin_deleted = some true; admin_deleted_at = some now }

-- `task_id = $1 AND user_id = $2 AND admin_deleted = TRUE`
abbrev pub may_acknowledge : String → String → TaskRow → Bool
may_acknowledge id user r = has_task_id id r && (r.user_id == user && or_false r.admin_deleted)

abbrev pub mark_acknowledged : TaskRow → TaskRow
mark_acknowledged r = record r { user_ack = some true }

abbrev pub mark_restored : TaskRow → TaskRow
mark_restored r = record r {
  admin_deleted = some false;
  admin_deleted_at = none;
  user_ack = some false;
}

-- The deadline is compared with the clock at the time of the check.
abbrev pub unless_overdue {ℓ} : {A : Type ℓ} → ℕ → Exec Tables A → Exec Tables A
unless_overdue due m w = if ltb due w.now then raise deadline_expired w else m w

module _ (pg : Platform) where
  -- UPDATE … SET admin_deleted = TRUE … RETURNING user_id: none where no row was updated.
  unfoldable pub soft_delete_row : String → ℕ → ℕ → Tables → Option (Option TaskRow × Tables)
  soft_delete_row task now n t = and_then (pg.uuid task) λ id. some (
    find (is_live id) t.tasks,
    record t { tasks = update_where (is_live id) (mark_deleted now) t.tasks },
  )

  unfoldable pub acknowledge_row : String → String → ℕ → ℕ → Tables → Option (Unit {0} × Tables)
  acknowledge_row task user now n t = and_then (pg.uuid task) λ id. and_then (pg.uuid user) λ u.
      some (tt, record t { tasks = update_where (may_acknowledge id u) mark_acknowledged t.tasks })

  unfoldable pub select_row : String → ℕ → ℕ → Tables → Option (Option TaskRow × Tables)
  select_row task now n t = and_then (pg.uuid task) λ id. some (find (has_task_id id) t.tasks, t)

  unfoldable pub restore_row : String → ℕ → ℕ → Tables → Option (Unit {0} × Tables)
  restore_row task now n t =
      and_then (pg.uuid task)
        λ id. some (tt, record t { tasks = update_where (has_task_id id) mark_restored t.tasks })

  -- The owner of the task; `Scan` of no row is an error.
  unfoldable pub admin_soft_delete : String → Exec Tables String
  admin_soft_delete id = if not (pg.parse_uuid id) then raise invalid_uuid else do
    found ← sql "admin soft delete task" (soft_delete_row id)
    r ← scan_row "admin soft delete task" found
    pure r.user_id

  unfoldable pub acknowledge_admin_deletion : String → String → Exec Tables (Unit {0})
  acknowledge_admin_deletion id user =
      if not (pg.parse_uuid id)
      then raise invalid_uuid
      else sql "acknowledge admin deletion task" (acknowledge_row id user)

  -- The rest of `AdminRestore` for the row that was read.
  unfoldable pub restore_found : String → Option TaskRow → Exec Tables String
  restore_found id none = raise not_found
  restore_found id (some r) =
      unless_overdue r.due_date do sql "admin restore task" (restore_row id); pure r.user_id

  unfoldable pub admin_restore : String → Exec Tables String
  admin_restore id =
      if not (pg.parse_uuid id)
      then raise invalid_uuid
      else do found ← sql "admin restore get task" (select_row id); restore_found id found
