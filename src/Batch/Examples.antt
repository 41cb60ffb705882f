-- ===== src/Batch/Examples.antt =====
-- Runs of a worker with small queues, and the theorems applied to them.
use tasks_service.Prelude.{
  ℕ, ◌≡◌, refl, true, not, String, Option, none, some, List, [], ◌∷◌, ◌++◌, arith, is_empty, select,
  if◌then◌else◌,
}
use tasks_service.Database.{Error, driver}
use tasks_service.Batch.{
  Worker, Event, put, take, tick, done, run, step, enqueue, receive, add, stop, drain,
}
use tasks_service.Batch.Order.{concat, in_order, all_accepted, run-in_order}
use tasks_service.Batch.Bounds.{IsBounded, run-IsBounded}
use tasks_service.Batch.Shutdown.{run-shutdown}
use tasks_service.Batch.Flush.{flush_create, is_tagged, each, flush_create_lem}

abbrev idle : Worker ℕ
idle = record { channel = []; batch = []; flushes = []; running = true }

abbrev busy : Worker ℕ
busy = record { channel = 4 ∷ 5 ∷ []; batch = 3 ∷ []; flushes = (1 ∷ 2 ∷ []) ∷ []; running = true }

abbrev day : List (Event ℕ)
day = put 1 ∷ put 2 ∷ put 3 ∷ take ∷ put 4 ∷ tick ∷ take ∷ take ∷ done ∷ put 5 ∷ []

-- Channel and batch hold two items: the third is refused, the fifth comes after the end.
day_flushes : (run 2 2 day idle).flushes ≡ (1 ∷ []) ∷ (2 ∷ 4 ∷ []) ∷ []
unfolding run step enqueue receive add stop drain
day_flushes = refl

run-in_order_example : in_order (run 2 2 day busy) ≡ in_order busy ++ all_accepted 2 2 day busy
run-in_order_example = run-in_order 2 2 day busy

run-IsBounded_example : IsBounded 2 2 (run 2 2 day busy)
run-IsBounded_example = run-IsBounded 2 2 day busy (omega arith) (record {
  channel_fits = omega arith;
  batch_fits = omega arith;
  flushes_fit = ((omega arith, omega arith), tt);
})

run-shutdown_example : concat (run 2 2 (done ∷ put 6 ∷ take ∷ []) busy).flushes ≡ in_order busy
run-shutdown_example = run-shutdown 2 2 (put 6 ∷ take ∷ []) busy refl

-- A task is its tag here, and the state is the list of the calls.
abbrev note : String → List (List String) → Option Error × List (List String)
note t calls = (some (driver "lost"), calls ++ (t ∷ []) ∷ [])

abbrev note_all : List String → List (List String) → Option Error × List (List String)
note_all ts calls = (none, calls ++ ts ∷ [])

flush_create_lem_example :
    flush_create (λ t. t) note note_all ("" ∷ "home" ∷ " " ∷ "work" ∷ []) [] ≡ (
      let simple = select (λ t. not (is_tagged (λ t. t) t)) ("" ∷ "home" ∷ " " ∷ "work" ∷ []) in
      let after = each note (select (is_tagged (λ t. t)) ("" ∷ "home" ∷ " " ∷ "work" ∷ [])) [] in
      if is_empty simple then after else (note_all simple after).1)
flush_create_lem_example =
    flush_create_lem (λ t. t) note note_all ("" ∷ "home" ∷ " " ∷ "work" ∷ []) []
