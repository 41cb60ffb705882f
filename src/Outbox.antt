-- ===== src/Outbox.antt =====
-- The outbox table and its repository (app/internal/tasks/repository/outbox), and the worker that
-- hands its events to Kafka (app/internal/worker/worker.go).
mod Examples
pub mod Payload
pub mod Kafka
pub mod Blocking
pub mod Queued
use tasks_service.Prelude.{
  ℕ, zero, suc, ◌+◌, ◌-◌, Bool, true, false, not, String, Option, none, some, List, [], ◌∷◌, ◌++◌,
  ◌==◌, ◌&&◌, any, count, select, update_where, is_empty, leb, ltb, nat_eq, if◌then◌else◌,
}
use mathlib.Core.Option
use tasks_service.Database.{
  World, Exec, Error, Result, ok, err, driver, not_found, pure, raise, sql, ◌>>=◌,
}
use tasks_service.Outbox.Payload.{payload_to_task}
use tasks_service.Outbox.Kafka.{Client, producer_write}
pub use tasks_service.Outbox.Payload.{TaskPayload}
pub use tasks_service.Outbox.Kafka.{Message}

-- A row of outbox_events. `event_data` is JSON.
pub record EventModel : Type 0 where
  pub id : String
  pub aggregate_type : String
  pub aggregate_id : String
  pub event_type : String
  pub event_data : String
  pub created_at : ℕ
  pub processed_at : Option ℕ
  pub attempts : ℕ
  pub last_error : Option String

abbrev pub Rows : Type 0
Rows = List EventModel

abbrev pub is_unprocessed : EventModel → Bool
is_unprocessed r = elim r.processed_at [ none ↦ true | some t ↦ false ]

abbrev pub has_event_id : String → EventModel → Bool
has_event_id id r = r.id == id

-- ORDER BY created_at ASC
unfoldable pub insert_by_created : EventModel → Rows → Rows
insert_by_created r [] = r ∷ []
insert_by_created r (q ∷ rest) =
    let later = insert_by_created r rest in
    if leb r.created_at q.created_at then r ∷ q ∷ rest else q ∷ later

unfoldable pub order_by_created : Rows → Rows
order_by_created [] = []
order_by_created (r ∷ rest) = insert_by_created r (order_by_created rest)

-- LIMIT n
unfoldable pub limit {ℓ} : {A : Type ℓ} → ℕ → List A → List A
limit zero xs = []
limit (suc n) [] = []
limit (suc n) (x ∷ xs) = x ∷ limit n xs

unfoldable pub select_unprocessed : ℕ → Rows → Rows
select_unprocessed n rows = limit n (order_by_created (select is_unprocessed rows))

abbrev pub mark_processed : ℕ → EventModel → EventModel
mark_processed now r = record r { processed_at = some now }

abbrev pub mark_failed : String → EventModel → EventModel
mark_failed message r = record r { attempts = suc r.attempts; last_error = some message }

-- CHECK (attempts BETWEEN 0 AND 100), for the rows that the statement writes
abbrev pub may_fail_again : String → EventModel → Bool
may_fail_again id r = has_event_id id r && leb 100 r.attempts

-- id = ANY($2)
abbrev pub is_one_of : List String → EventModel → Bool
is_one_of ids r = any (λ id. id == r.id) ids

unfoldable pub get_unprocessed_events : ℕ → Exec Rows Rows
get_unprocessed_events n = sql "query outbox" λ now k rows. some (select_unprocessed n rows, rows)

abbrev pub ensure_found : ℕ → Exec Rows (Unit {0})
ensure_found n = if nat_eq n 0 then raise not_found else pure tt

unfoldable pub mark_as_processed : String → Exec Rows (Unit {0})
mark_as_processed id = do
  n ← sql "mark processed" (λ now k rows.
      some (count (has_event_id id) rows, update_where (has_event_id id) (mark_processed now) rows))
  ensure_found n

unfoldable pub mark_batch_as_processed : List String → Exec Rows (Unit {0})
mark_batch_as_processed ids =
    sql "" λ now k rows. some (tt, update_where (is_one_of ids) (mark_processed now) rows)

abbrev fail_rows : String → String → ℕ → ℕ → Rows → Option (ℕ × Rows)
fail_rows id message now k rows =
    if any (may_fail_again id) rows
    then none
    else some
        (count (has_event_id id) rows, update_where (has_event_id id) (mark_failed message) rows)

unfoldable pub mark_as_failed : String → String → Exec Rows (Unit {0})
mark_as_failed id message = do n ← sql "mark failed" (fail_rows id message); ensure_found n

-- The worker's side of the system: the database and the client of Kafka.
pub record System : Type 0 where
  pub database : World Rows
  pub kafka : Client

-- What the worker meets outside src/: `json.Unmarshal` of the event's data, and a writer that accepts
-- the n-th message into its buffer or returns an error.
pub record Outside : Type 0 where
  pub unmarshal : String → Option TaskPayload
  pub accepts : ℕ → Bool

pub record Processor : Type 0 where
  pub batch_size : ℕ
  pub max_attempts : ℕ

abbrev pub new_processor : Processor
new_processor = record { batch_size = 1000; max_attempts = 5 }

-- What may happen next: the ticker of the worker fires, or a new event is inserted.
pub data Step : Type 0 where
  tick : Step
  arrive : EventModel → Step

-- A row as it is inserted.
abbrev pub unprocessed : EventModel → EventModel
unprocessed e = record e { processed_at = none }

module _ (env : Outside) (p : Processor) where
  -- kafkaRepo.Write for an event. No error means that the writer has accepted the message, no more.
  abbrev pub write : EventModel → TaskPayload → System → Option String × System
  write e payload s =
      let (failure, client) =
        producer_write env.accepts e.id s.database.now (payload_to_task payload) e.event_type
          s.kafka in
      (Option.map (λ _. "kafka write") failure, record s { kafka = client })

  -- What is written for an event whose data was read.
  abbrev pub write_read : EventModel → Option TaskPayload → System → Option String × System
  write_read e none s = (some "unmarshal task payload", s)
  write_read e (some payload) s = write e payload s

  -- The error's text, or none.
  unfoldable pub process_event : EventModel → System → Option String × System
  process_event e = write_read e (env.unmarshal e.event_data)

  -- MarkAsFailed, whose own error is only logged, unless the event has used up its attempts.
  abbrev pub note_failure : EventModel → String → System → System
  note_failure e message s =
      if ltb e.attempts p.max_attempts
      then record s { database = (mark_as_failed e.id message s.database).1 }
      else s

  -- What the loop does after an event; the list is `successIDs`.
  abbrev pub after_event : EventModel → Option String × System → List String × System
  after_event e (none, s) = (e.id ∷ [], s)
  after_event e (some message, s) = ([], note_failure e message s)

  -- The loop over the events.
  unfoldable pub process_events : Rows → List String → System → List String × System
  process_events [] done s = (done, s)
  process_events (e ∷ rest) done s =
      let (ids, t) = after_event e (process_event e s) in process_events rest (done ++ ids) t

  abbrev pub finish_batch : List String × System → System
  finish_batch (ids, s) =
      if is_empty ids then s else record s { database = (mark_batch_as_processed ids s.database).1 }

  abbrev pub process_read : Result Rows × World Rows → System → System
  process_read (err e, w) s = record s { database = w }
  process_read (ok events, w) s =
      finish_batch (process_events events [] (record s { database = w }))

  -- processBatch
  unfoldable pub process_batch : System → System
  process_batch s = process_read (get_unprocessed_events p.batch_size s.database) s

  -- The loop of Start, while a service inserts events. ORDER BY makes it no matter where in the
  -- table a new row stands, but among rows of one time, which PostgreSQL returns in any order.
  unfoldable pub step : Step → System → System
  step tick s = process_batch s
  step (arrive e) s = record s {
    database = record s.database { tables = unprocessed e ∷ s.database.tables };
  }

  unfoldable pub run : List Step → System → System
  run [] s = s
  run (e ∷ rest) s = run rest (step e s)
