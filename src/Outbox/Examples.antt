-- ===== src/Outbox/Examples.antt =====
-- Runs of the worker at small tables, and the theorems applied to them.
use tasks_service.Prelude.{
  List, arith, ℕ, ◌≡◌, refl, true, false, String, none, some, [], ◌∷◌, ◌==◌, if◌then◌else◌, select,
  any, update_where, count, map,
}
use tasks_service.Database.{sql, ◌>>=◌}
use tasks_service.Outbox.{
  EventModel, Rows, System, Outside, Processor, TaskPayload, Step, tick, arrive, step, run,
  process_batch, process_events, process_event, select_unprocessed, order_by_created,
  insert_by_created, limit, get_unprocessed_events, mark_as_failed, mark_batch_as_processed,
}
use tasks_service.Outbox.Queued.{IsQueued, run-IsQueued}
use tasks_service.Outbox.Blocking.{IsBlocked, run-IsBlocked}

abbrev payload : TaskPayload
payload = record {
  id = "t1";
  title = "trip";
  description = "";
  priority = "red";
  status = "3";
  due_date = 0;
  user_id = "u1";
  tag_id = none;
  tag_name = "";
  created_at = 7;
}

-- Only the text "{}" is read, and every message is accepted.
abbrev kafka : Outside
kafka = record { unmarshal = λ s. if s == "{}" then some payload else none; accepts = λ n. true }

abbrev small : Processor
small = record { batch_size = 2; max_attempts = 5 }

abbrev event : String → String → ℕ → EventModel
event id text at = record {
  id = id;
  aggregate_type = "task";
  aggregate_id = "t1";
  event_type = "created";
  event_data = text;
  created_at = at;
  processed_at = none;
  attempts = 0;
  last_error = none;
}

abbrev system : Rows → System
system rows = record {
  database = record { tables = rows; calls = 0; fails = λ n. false; now = 100 };
  kafka = record { queued = []; message_count = 0; error_count = 0 };
}

-- The third event can be read by the worker, but never gets into its batch.
abbrev blocked : Rows
blocked = event "e3" "{}" 3 ∷ event "e1" "x" 1 ∷ event "e2" "y" 2 ∷ []

abbrev flowing : Rows
flowing = event "e1" "x" 1 ∷ event "e3" "{}" 3 ∷ []

flowing_queued :
    map (λ m. m.event) (run kafka small (tick ∷ []) (system flowing)).kafka.queued ≡ "e3" ∷ []
unfolding run step process_batch process_events process_event select_unprocessed order_by_created
    insert_by_created limit get_unprocessed_events sql ◌>>=◌ mark_as_failed mark_batch_as_processed
    select any update_where count
flowing_queued = refl

-- Two ticks, and an event that arrives between them.
abbrev steps : List Step
steps = tick ∷ arrive (event "e4" "{}" 9) ∷ tick ∷ []

run-IsQueued_example : IsQueued (run kafka small steps (system flowing))
run-IsQueued_example = run-IsQueued kafka small steps (system flowing) (refl, (refl, tt))

run-IsBlocked_example :
    ((run kafka small steps (system blocked)).kafka.queued ≡ [])
    × IsBlocked kafka small 2 (run kafka small steps (system blocked)).database.tables
unfolding select_unprocessed order_by_created insert_by_created limit select
run-IsBlocked_example =
    run-IsBlocked kafka small 2 steps (system blocked)
      (refl, ((refl, omega arith), ((refl, omega arith), tt))) (tt, (omega arith, (tt, tt)))
