-- ===== src/Outbox/Queued.antt =====
-- What the worker marks as processed: app/internal/worker/worker.go marks only events whose message the Kafka writer
-- accepted.
use tasks_service.Prelude.{
  any-append_last, ℕ, suc, ◌≡◌, refl, sym, inl, inr, Bool, true, Bool-cases, String, Option, none,
  some, List, [], ◌∷◌, ◌++◌, ◌==◌, ◌||◌, any, update_where, ltb, subst, arith, eq_iff, eq_refl, All,
  All-append, All-map, All-update_where, any-append_left, any-append,
}
use mathlib.Core.List.{append-nil}
use tasks_service.Database.{World, Result, ok, err}
use tasks_service.Database.Rules.{
  Keeps, Keeps-pure, Keeps-raise, Keeps-sql, Keeps-if, Keeps-bind, Reads-sql,
}
use tasks_service.Outbox.{
  EventModel, Rows, Message, System, Outside, Processor, TaskPayload, is_unprocessed, has_event_id,
  is_one_of, mark_failed, mark_processed, fail_rows, mark_as_failed, mark_batch_as_processed,
  get_unprocessed_events, process_event, write_read, after_event, note_failure, process_events,
  finish_batch, process_read, process_batch, Step, tick, arrive, step, run,
}

abbrev pub is_from : String → Message → Bool
is_from id m = m.event == id

-- The row waits to be processed, or the writer has accepted a message of it.
abbrev pub IsSafe : List Message → EventModel → Type 0
IsSafe queued r = (is_unprocessed r || any (is_from r.id) queued) ≡ true

abbrev pub IsQueued : System → Type 0
IsQueued s = All (IsSafe s.kafka.queued) s.database.tables

-- What a failure that was noted wrote.
pub fail_rows_ok :
    (id message : String) (now k : ℕ) (t : Rows) (n : ℕ) (t' : Rows)
    → fail_rows id message now k t ≡ some (n, t')
    → update_where (has_event_id id) (mark_failed message) t ≡ t'
fail_rows_ok id message now k t n t' h = ground arith

pub mark_as_failed-Keeps :
    (P : Rows → Type 0) (id message : String)
    → ((t : Rows) → P t → P (update_where (has_event_id id) (mark_failed message) t))
    → Keeps P (mark_as_failed id message)
unfolding mark_as_failed
mark_as_failed-Keeps P id message keep =
    Keeps-bind _ _
      (Keeps-sql _ _
        λ now k t n t' h v. subst P (fail_rows_ok id message now k t n t' h) (keep t v))
      (λ n. Keeps-if _ _ _ (Keeps-raise _) (Keeps-pure tt))

more_queued :
    (queued : List Message) (m : Message) (rows : Rows)
    → All (IsSafe queued) rows
    → All (IsSafe (queued ++ m ∷ [])) rows
more_queued queued m rows =
    All-map (IsSafe queued) (IsSafe (queued ++ m ∷ [])) rows
      λ r h. ground (arith, any-append (is_from r.id) queued (m ∷ []))

-- The ids belong to messages that the writer accepted.
any_queued :
    (queued : List Message) (ids : List String) (id : String)
    → All (λ i. any (is_from i) queued ≡ true) ids
    → any (λ i. i == id) ids ≡ true
    → any (is_from id) queued ≡ true
unfolding any
any_queued queued [] id h g = cc
any_queued queued (i ∷ ids) id h g = elim (Bool-cases (i == id)) [
  | inl e ↦ subst (λ j. any (is_from j) queued ≡ true) ((eq_iff i id).0 e) h.0
  | inr e ↦ any_queued queued ids id h.1 (ground arith)
]

mark_batch-Keeps :
    (queued : List Message) (ids : List String)
    → All (λ i. any (is_from i) queued ≡ true) ids
    → Keeps (All (IsSafe queued)) (mark_batch_as_processed ids)
unfolding mark_batch_as_processed
mark_batch-Keeps queued ids all = Keeps-sql _ _ λ now k t n t' h v.
    subst (All (IsSafe queued)) (ground arith) (
      All-update_where (IsSafe queued) (is_one_of ids) (mark_processed now) t
        (λ r one safe. any_queued queued ids r.id all one) v)

-- What the loop keeps: the rows are safe, and the ids gathered belong to messages that were accepted.
abbrev IsSound : List String → System → Type 0
IsSound ids s = IsQueued s × All (λ i. any (is_from i) s.kafka.queued ≡ true) ids

accepted-IsSound :
    (ids : List String) (m : Message) (s : System)
    → IsSound ids s
    → IsSound (ids ++ m.event ∷ []) (record s {
      kafka = record s.kafka {
        queued = s.kafka.queued ++ m ∷ [];
        message_count = suc s.kafka.message_count;
      };
    })
accepted-IsSound ids m s v = (
  more_queued s.kafka.queued m s.database.tables v.0,
  All-append _ ids (m.event ∷ [])
      (All-map _ _ ids (λ i h. any-append_left (is_from i) s.kafka.queued (m ∷ []) h) v.1)
      (any-append_last (is_from m.event) s.kafka.queued m (eq_refl m.event), tt),
)

-- The system after a message that the writer refused.
abbrev pub refused : System → System
refused s = record s {
  kafka = record s.kafka {
    message_count = suc s.kafka.message_count;
    error_count = suc s.kafka.error_count;
  };
}

module _ (env : Outside) (p : Processor) where
  failed-IsSound :
      (ids : List String) (e : EventModel) (message : String) (s : System)
      → IsSound ids s
      → IsSound ids (note_failure env p e message s)
  failed-IsSound ids e message s v = elim (Bool-cases (ltb e.attempts p.max_attempts)) [
    | inl h ↦ rw h (
      (mark_as_failed-Keeps (All (IsSafe s.kafka.queued)) e.id message (λ t w.
            All-update_where (IsSafe s.kafka.queued) (has_event_id e.id) (mark_failed message) t
              (λ r one safe. safe) w)).at
          s.database v.0,
      v.1,
    )
    | inr h ↦ rw h v
  ]

  none_more : (ids : List String) (s : System) → IsSound ids s → IsSound (ids ++ []) s
  none_more ids s v = subst (λ l. IsSound l s) (sym (append-nil ids)) v

  read-IsSound :
      (e : EventModel) (o : Option TaskPayload) (ids : List String) (s : System)
      → IsSound ids s
      → IsSound
          (ids ++ (after_event env p e (write_read env p e o s)).0)
          (after_event env p e (write_read env p e o s)).1
  read-IsSound e none ids s v =
      none_more ids (note_failure env p e "unmarshal task payload" s)
        (failed-IsSound ids e "unmarshal task payload" s v)
  read-IsSound e (some payload) ids s v = elim (Bool-cases (env.accepts s.kafka.message_count)) [
    | inl g ↦ rw g (accepted-IsSound ids _ s v)
    | inr g ↦ rw g (
        none_more ids (note_failure env p e "kafka write" (refused s))
          (failed-IsSound ids e "kafka write" (refused s) v))
  ]

  event-IsSound :
      (e : EventModel) (ids : List String) (s : System)
      → IsSound ids s
      → IsSound
          (ids ++ (after_event env p e (process_event env p e s)).0)
          (after_event env p e (process_event env p e s)).1
  unfolding process_event
  event-IsSound e = read-IsSound e (env.unmarshal e.event_data)

  events-IsSound :
      (es : Rows) (ids : List String) (s : System)
      → IsSound ids s
      → IsSound (process_events env p es ids s).0 (process_events env p es ids s).1
  unfolding process_events
  events-IsSound [] ids s v = v
  events-IsSound (e ∷ rest) ids s v =
      let r = after_event env p e (process_event env p e s) in
      events-IsSound rest (ids ++ r.0) r.1 (event-IsSound e ids s v)

  finish-IsQueued : (r : List String × System) → IsSound r.0 r.1 → IsQueued (finish_batch env p r)
  finish-IsQueued ([], s) v = v.0
  finish-IsQueued (i ∷ ids, s) v = (mark_batch-Keeps s.kafka.queued (i ∷ ids) v.1).at s.database v.0

  read-IsQueued :
      (r : Result Rows × World Rows) (s : System)
      → All (IsSafe s.kafka.queued) r.1.tables
      → IsQueued (process_read env p r s)
  read-IsQueued (err e, w) s v = v
  read-IsQueued (ok events, w) s v =
      finish-IsQueued (process_events env p events [] (record s { database = w }))
        (events-IsSound events [] (record s { database = w }) (v, tt))

  batch-IsQueued : (s : System) → IsQueued s → IsQueued (process_batch env p s)
  unfolding process_batch get_unprocessed_events
  batch-IsQueued s v = read-IsQueued (get_unprocessed_events p.batch_size s.database) s (
      subst (All (IsSafe s.kafka.queued))
        (sym ((Reads-sql _ _ (λ now k t a t' h. ground arith)).at s.database)) v)

  step-IsQueued : (e : Step) (s : System) → IsQueued s → IsQueued (step env p e s)
  unfolding step
  step-IsQueued tick s v = batch-IsQueued s v
  step-IsQueued (arrive e) s v = (refl, v)

  -- However often the worker ticks and new events arrive, whatever data it cannot read, whatever
  -- messages the Kafka writer refuses and whatever calls of the database fail: every event that is
  -- marked as processed has a message that the writer accepted into its buffer, if that was so at
  -- first. Whether Kafka gets what was accepted is not said.
  pub run-IsQueued : (steps : List Step) (s : System) → IsQueued s → IsQueued (run env p steps s)
  unfolding run
  run-IsQueued [] s v = v
  run-IsQueued (e ∷ rest) s v = run-IsQueued rest (step env p e s) (step-IsQueued e s v)
