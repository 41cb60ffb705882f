-- ===== src/Tasks/Versions.antt =====
-- The versions of the update events: app/internal/tasks/repository/postgres/postgres.go, `Update`.
use tasks_service.Prelude.{ℕ, ◌≡◌, ◌≤◌, refl, false, String, List, [], ◌∷◌, any, arith}
use tasks_service.Tasks.Domain.{Task}
use tasks_service.Tasks.Tables.{EventRow, same_key}
use tasks_service.Tasks.Statements.{next_version, update_event}

above-fresh :
    (event_id id : String) (task : Task) (now version : ℕ) (outbox : List EventRow)
    → next_version id outbox ≤ version
    → any (same_key (update_event event_id id task now version)) outbox ≡ false
unfolding next_version any
above-fresh event_id id task now version [] h = refl
above-fresh event_id id task now version (e ∷ rest) h =
    ground (arith, above-fresh event_id id task now version rest)

-- The version that `Update` computes is new: no event in the outbox has the same task, the same type
-- and that version, so the uniqueness constraint on these three columns never refuses the event.
pub next_version-fresh :
    (event_id id : String) (task : Task) (now : ℕ) (outbox : List EventRow)
    → any (same_key (update_event event_id id task now (next_version id outbox))) outbox ≡ false
next_version-fresh event_id id task now outbox =
    above-fresh event_id id task now (next_version id outbox) outbox (omega arith)
