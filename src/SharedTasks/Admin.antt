-- ===== src/SharedTasks/Admin.antt =====
-- The methods on shared tasks of app/internal/tasks/repository/postgres/postgres.go, which the
-- service and the handler of the tasks pass on to an administrator and to the participants.
use tasks_service.Prelude.{
  ℕ, Bool, true, false, String, Option, none, some, ◌&&◌, not, ltb, if◌then◌else◌, find,
  update_where,
}
use tasks_service.Database.{
  Platform, Exec, pure, raise, sql, driver, ◌>>=◌, ◌>>◌, invalid_uuid, not_found, deadline_expired,
}
use tasks_service.SharedTasks.Tables.{Tables, TaskRow, or_false, has_id, has_participant}

-- `admin_deleted = FALSE OR admin_deleted IS NULL`
abbrev pub is_live : String → TaskRow → Bool
is_live id r = has_id id r && not (or_false r.admin_deleted)

abbrev pub mark_deleted : ℕ → TaskRow → TaskRow
mark_deleted now r = record r { admin_deleted = some true; admin_deleted_at = some now }

-- `(proposer_id = $2 OR addressee_id = $2) AND admin_deleted = TRUE`
abbrev pub may_acknowledge : String → String → TaskRow → Bool
may_acknowledge id user r = has_id id r && (has_participant user r && or_false r.admin_deleted)

abbrev pub mark_acknowledged : TaskRow → TaskRow
mark_acknowledged r = record r { user_ack = some true }

abbrev pub mark_restored : TaskRow → TaskRow
mark_restored r = record r {
  admin_deleted = some false;
  admin_deleted_at = none;
  user_ack = some false;
}

-- `dueDate != nil && dueDate.Before(time.Now().UTC())`
abbrev pub is_overdue : ℕ → Option ℕ → Bool
is_overdue now none = false
is_overdue now (some due) = ltb due now

-- The deadline is compared with the clock at the time of the check.
abbrev pub unless_overdue {ℓ} : {A : Type ℓ} → Option ℕ → Exec Tables A → Exec Tables A
unless_overdue due m w = if is_overdue w.now due then raise deadline_expired w else m w

-- The ids of both participants and the title; `Scan` of no row is an error, which the code wraps.
abbrev pub report : Option TaskRow → Exec Tables (String × String × String)
report none = raise (driver "admin soft delete shared task")
report (some r) = pure (r.proposer_id, r.addressee_id, r.title)

module _ (pg : Platform) where
  abbrev with_id {ℓ} : {A : Type ℓ} → String → (String → A × Tables) → Option (A × Tables)
  with_id s f = elim (pg.uuid s) [ none ↦ none | some id ↦ some (f id) ]

  -- UPDATE … SET admin_deleted = TRUE … RETURNING …: the row, or none where none was updated.
  unfoldable pub soft_delete_row : String → ℕ → ℕ → Tables → Option (Option TaskRow × Tables)
  soft_delete_row task now n t = with_id task λ id. (
    find (is_live id) t.tasks,
    record t { tasks = update_where (is_live id) (mark_deleted now) t.tasks },
  )

  unfoldable pub acknowledge_row : String → String → ℕ → ℕ → Tables → Option (Unit {0} × Tables)
  acknowledge_row task user now n t = elim (pg.uuid user) [
    | none ↦ none
    | some u ↦ with_id task λ id.
        (tt, record t { tasks = update_where (may_acknowledge id u) mark_acknowledged t.tasks })
  ]

  unfoldable pub select_row : String → ℕ → ℕ → Tables → Option (Option TaskRow × Tables)
  select_row task now n t = with_id task λ id. (find (has_id id) t.tasks, t)

  unfoldable pub restore_row : String → ℕ → ℕ → Tables → Option (Unit {0} × Tables)
  restore_row task now n t =
      with_id task λ id. (tt, record t { tasks = update_where (has_id id) mark_restored t.tasks })

  unfoldable pub admin_soft_delete_shared : String → Exec Tables (String × String × String)
  admin_soft_delete_shared id =
      if not (pg.parse_uuid id)
      then raise invalid_uuid
      else do found ← sql "admin soft delete shared task" (soft_delete_row id); report found

  unfoldable pub acknowledge_admin_deletion_shared : String → String → Exec Tables (Unit {0})
  acknowledge_admin_deletion_shared id user =
      if not (pg.parse_uuid id)
      then raise invalid_uuid
      else sql "acknowledge admin deletion shared task" (acknowledge_row id user)

  -- The rest of `AdminRestoreShared` for the row that was read.
  unfoldable pub restore_found : String → Option TaskRow → Exec Tables (String × String)
  restore_found id none = raise not_found
  restore_found id (some r) =
      unless_overdue r.due_date
        do sql "admin restore shared task" (restore_row id); pure (r.proposer_id, r.addressee_id)

  unfoldable pub admin_restore_shared : String → Exec Tables (String × String)
  admin_restore_shared id =
      if not (pg.parse_uuid id)
      then raise invalid_uuid
      else do found ← sql "admin restore get shared task" (select_row id); restore_found id found
