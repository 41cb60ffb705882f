-- ===== src/Tasks/Update/Success.antt =====
-- When the update of a task's status succeeds: `Update` of
-- app/internal/tasks/repository/postgres/postgres.go.
use tasks_service.Prelude.{
  ℕ, suc, ◌≡◌, refl, ap, ◌∙◌, Bool, true, false, String, Option, none, some, List, [], ◌∷◌, ◌==◌,
  arith, any, find, count, update_where, count_of_find, find-update_where, find_passes, when,
}
use mathlib.Core.Option
use tasks_service.Database.{Platform, World, ok, sql, transaction, ◌>>=◌}
use tasks_service.Tasks.Domain.{Task, status_completed}
use tasks_service.Tasks.Tables.{
  TaskRow, EventRow, Tables, Generators, has_task_id, clashes, same_key,
}
use tasks_service.Tasks.Statements.{insert_update, next_version, update_event}
use tasks_service.Tasks.Repository
use tasks_service.Tasks.Repository.{
  model_to_entity, UpdatePatch, patch_row, write_patch, update_task, select_updated,
}
use tasks_service.Tasks.Service
use tasks_service.Tasks.Versions.{next_version-fresh}

-- An id that no event of the outbox has.
abbrev pub is_event_id : String → EventRow → Bool
is_event_id id q = q.id == id

any_clash :
    (e : EventRow) (outbox : List EventRow)
    → any (is_event_id e.id) outbox ≡ false
    → any (same_key e) outbox ≡ false
    → any (clashes e) outbox ≡ false
unfolding any
any_clash e [] h g = refl
any_clash e (q ∷ outbox) h g = ground (arith, any_clash e outbox)

pub find-patched :
    (id : String) (p : UpdatePatch) (tag : Option String) (rows : List TaskRow) (row : TaskRow)
    → find (has_task_id id) rows ≡ some row
    → find (has_task_id id) (update_where (has_task_id id) (patch_row p tag) rows)
      ≡ some (patch_row p tag row)
find-patched id p tag rows row h =
    find-update_where (has_task_id id) (has_task_id id) (patch_row p tag) rows (λ r. refl)
    ∙ ap (Option.map (when (has_task_id id) (patch_row p tag) (λ r. r))) h
    ∙ rw (find_passes (has_task_id id) rows row h) refl

module _ (pg : Platform) (gen : Generators) (task id : String)
    (spelled : pg.uuid task ≡ some id) where
  insert_update_succeeds :
      (u : Task) (now n : ℕ) (t : Tables)
      → any (is_event_id (gen.new_uuid n)) t.outbox ≡ false
      → (t' : Tables) × (insert_update pg gen task u now n t ≡ some (tt, t'))
  unfolding insert_update
  insert_update_succeeds u now n t fresh = rw spelled (
      rw
        (any_clash (update_event (gen.new_uuid n) id u now (next_version id t.outbox)) t.outbox
          fresh (next_version-fresh (gen.new_uuid n) id u now t.outbox))
        (_, refl))

  abbrev completing : UpdatePatch
  completing = Service.status_patch status_completed

  abbrev patched : Tables → Tables
  patched t = record t { tasks = update_where (has_task_id id) (patch_row completing none) t.tasks }

  update_task_succeeds :
      (now n : ℕ) (t : Tables)
      → update_task pg gen task completing none now n t
        ≡ some (count (has_task_id id) t.tasks, patched t)
  unfolding update_task
  update_task_succeeds now n t = rw (spelled, update_task) refl

  select_updated_succeeds :
      (now n : ℕ) (t : Tables) (row : TaskRow)
      → find (has_task_id id) t.tasks ≡ some row
      → select_updated pg gen task now n t ≡ some (some (model_to_entity now t row), t)
  unfolding select_updated
  select_updated_succeeds now n t row found = ground arith

  -- The update of the status to completed succeeds when no call fails, the task is there and no
  -- event has an id that is generated.
  pub update_succeeds :
      (w : World Tables) (row : TaskRow)
      → pg.parse_uuid task ≡ true
      → ((n : ℕ) → w.fails n ≡ false)
      → ((n : ℕ) → any (is_event_id (gen.new_uuid n)) w.tables.outbox ≡ false)
      → find (has_task_id id) w.tables.tasks ≡ some row
      → (u : Task) × ((Repository.update pg gen task completing w).0 ≡ ok u)
  unfolding Repository.update write_patch sql transaction ◌>>=◌
  update_succeeds w row parsed quiet fresh found =
      let shown = model_to_entity w.now (patched w.tables) (patch_row completing none row) in
      let (t', inserted) =
        insert_update_succeeds shown w.now (suc (suc (suc w.calls))) (patched w.tables) (fresh _) in
      (
        shown,
        rw
            (
              parsed,
              quiet w.calls,
              quiet (suc w.calls),
              update_task_succeeds w.now (suc w.calls) w.tables,
              count_of_find (has_task_id id) w.tables.tasks row found,
              quiet (suc (suc w.calls)),
              select_updated_succeeds w.now (suc (suc w.calls)) (patched w.tables) _
                  (find-patched id completing none w.tables.tasks row found),
              quiet (suc (suc (suc w.calls))),
              inserted,
              quiet (suc (suc (suc (suc w.calls)))),
            )
            refl,
      )
