-- ===== src/SharedTasks/Requests.antt =====
-- The calls that change shared tasks, as one type: the theorems range over sequences of them.
use tasks_service.Prelude.{String, ◌≡◌, some, List, [], ◌∷◌}
use tasks_service.Database.{Platform, World, Exec, pure, ◌>>=◌}
use tasks_service.SharedTasks.Domain.{SubtaskInput, UpdateInput}
use tasks_service.SharedTasks.Tables.{Tables}
use tasks_service.SharedTasks.Service
use tasks_service.SharedTasks.Admin

pub data Request : Type 0 where
  propose : String → String → String → String → String → String → List SubtaskInput → Request
  accept reject delete toggle : String → String → Request
  update : String → String → UpdateInput → Request
  soft_delete restore : String → Request
  acknowledge : String → String → Request

abbrev pub discard {ℓ} : {A : Type ℓ} → Exec Tables A → Exec Tables (Unit {0})
discard m = m >>= λ _. pure tt

module _ (pg : Platform) where
  -- One request, whatever it replies.
  unfoldable pub perform : Request → Exec Tables (Unit {0})
  perform (propose proposer addressee title desc priority due subtasks) =
      discard (Service.propose pg proposer addressee title desc priority due subtasks)
  perform (accept task user) = Service.accept pg task user
  perform (reject task user) = Service.reject pg task user
  perform (delete task user) = discard (Service.delete pg task user)
  perform (toggle subtask user) = discard (Service.toggle_subtask_done pg subtask user)
  perform (update task user input) = discard (Service.update pg task user input)
  perform (soft_delete task) = discard (Admin.admin_soft_delete_shared pg task)
  perform (restore task) = discard (Admin.admin_restore_shared pg task)
  perform (acknowledge task user) = Admin.acknowledge_admin_deletion_shared pg task user

  -- Requests one after another; a request that fails ends only itself.
  unfoldable pub serve : List Request → World Tables → World Tables
  serve [] w = w
  serve (r ∷ rest) w = serve rest (perform r w).1

  -- A proposal names its users in the spelling in which the database returns ids.
  abbrev pub IsCanonical : Request → Type 0
  IsCanonical (propose proposer addressee _ _ _ _ _) =
      (pg.uuid proposer ≡ some proposer) × (pg.uuid addressee ≡ some addressee)
  IsCanonical _ = Unit
