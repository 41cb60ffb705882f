-- ===== src/Outbox/Blocking.antt =====
-- What a full batch of events that cannot be queued does to those behind it: app/internal/worker/worker.go.
use tasks_service.Prelude.{
  length, ◌≤◌, ◌<◌, All-map, ℕ, zero, suc, ◌≡◌, refl, sym, ap, ◌∙◌, inl, inr, Bool, Bool-cases,
  String, none, List, [], ◌∷◌, ◌++◌, select, update_where, ltb, subst, arith, All, All-update_where,
  if◌then◌else◌,
}
use tasks_service.Database.{World, Result, ok, err}
use tasks_service.Database.Rules.{Reads-sql}
use tasks_service.Database.Inversion.{sql_ok}
use tasks_service.Outbox.Queued.{mark_as_failed-Keeps}
use tasks_service.Outbox.{
  EventModel, Rows, Message, System, Outside, Processor, is_unprocessed, has_event_id,
  insert_by_created, order_by_created, limit, select_unprocessed, mark_failed,
  get_unprocessed_events, process_event, write_read, after_event, note_failure, process_events,
  finish_batch, process_read, process_batch, Step, tick, arrive, unprocessed, step, run,
}

select-update_where :
    (q p : EventModel → Bool) (f : EventModel → EventModel) (xs : Rows)
    → ((r : EventModel) → q (f r) ≡ q r)
    → select q (update_where p f xs) ≡ update_where p f (select q xs)
unfolding select update_where
select-update_where q p f [] same = refl
select-update_where q p f (x ∷ xs) same = ground (arith, same x, select-update_where q p f xs same)

limit-update_where :
    (p : EventModel → Bool) (f : EventModel → EventModel) (n : ℕ) (xs : Rows)
    → limit n (update_where p f xs) ≡ update_where p f (limit n xs)
unfolding limit update_where
limit-update_where p f zero xs = refl
limit-update_where p f (suc n) [] = refl
limit-update_where p f (suc n) (x ∷ xs) = ground (arith, limit-update_where p f n xs)

insert-update_where :
    (p : EventModel → Bool) (f : EventModel → EventModel) (r : EventModel) (xs : Rows)
    → ((q : EventModel) → (f q).created_at ≡ q.created_at)
    → insert_by_created (if p r then f r else r) (update_where p f xs)
      ≡ update_where p f (insert_by_created r xs)
unfolding insert_by_created update_where
insert-update_where p f r [] same = ground arith
insert-update_where p f r (x ∷ xs) same =
    ground (arith, same x, same r, insert-update_where p f r xs same)

order-update_where :
    (p : EventModel → Bool) (f : EventModel → EventModel) (xs : Rows)
    → ((q : EventModel) → (f q).created_at ≡ q.created_at)
    → order_by_created (update_where p f xs) ≡ update_where p f (order_by_created xs)
unfolding order_by_created update_where
order-update_where p f [] same = refl
order-update_where p f (x ∷ xs) same =
    ground
      (arith, order-update_where p f xs same, insert-update_where p f x (order_by_created xs) same)

-- A failure does not change which events are read, nor their order.
select_unprocessed-update_where :
    (n : ℕ) (p : EventModel → Bool) (message : String) (xs : Rows)
    → select_unprocessed n (update_where p (mark_failed message) xs)
      ≡ update_where p (mark_failed message) (select_unprocessed n xs)
unfolding select_unprocessed
select_unprocessed-update_where n p message xs =
    ap (λ t. limit n (order_by_created t))
      (select-update_where is_unprocessed p (mark_failed message) xs (λ r. refl))
    ∙ ap (limit n)
        (order-update_where p (mark_failed message) (select is_unprocessed xs) (λ r. refl))
    ∙ limit-update_where p (mark_failed message) n (order_by_created (select is_unprocessed xs))

length-update_where :
    (p : EventModel → Bool) (f : EventModel → EventModel) (xs : Rows)
    → length (update_where p f xs) ≡ length xs
unfolding update_where
length-update_where p f [] = refl
length-update_where p f (x ∷ xs) = ground (arith, length-update_where p f xs)

-- An event that is later than a full batch does not change the batch.
limit-insert_late :
    (n t : ℕ) (r : EventModel) (xs : Rows)
    → t < r.created_at
    → All (λ e. e.created_at ≤ t) (limit n xs)
    → length (limit n xs) ≡ n
    → limit n (insert_by_created r xs) ≡ limit n xs
unfolding limit insert_by_created
limit-insert_late zero t r xs late all full = refl
limit-insert_late (suc n) t r [] late all full = absurd (omega arith)
limit-insert_late (suc n) t r (x ∷ xs) late all full =
    ground (arith, all.0, limit-insert_late n t r xs late all.1 (omega arith))

-- `t` is a time that no event of the batch is later than, and all events to come are.
module _ (env : Outside) (p : Processor) (t : ℕ) where
  abbrev pub IsUnreadable : EventModel → Type 0
  IsUnreadable e = env.unmarshal e.event_data ≡ none

  -- An event that keeps its place in the batch: unreadable, and not later than `t`.
  abbrev pub IsObstacle : EventModel → Type 0
  IsObstacle e = IsUnreadable e × (e.created_at ≤ t)

  -- The next batch is full, and made of obstacles.
  abbrev pub IsBlocked : Rows → Type 0
  IsBlocked rows =
      (length (select_unprocessed p.batch_size rows) ≡ p.batch_size)
      × All IsObstacle (select_unprocessed p.batch_size rows)

  -- An event that arrives is later than `t`.
  abbrev pub IsLater : Step → Type 0
  IsLater tick = Unit {0}
  IsLater (arrive e) = t < e.created_at

  failure-IsBlocked :
      (id message : String) (rows : Rows)
      → IsBlocked rows
      → IsBlocked (update_where (has_event_id id) (mark_failed message) rows)
  failure-IsBlocked id message rows v =
      let batch = select_unprocessed p.batch_size rows in
      subst (λ (b : Rows). (length b ≡ p.batch_size) × All IsObstacle b)
        (sym (select_unprocessed-update_where p.batch_size (has_event_id id) message rows))
        (
          length-update_where (has_event_id id) (mark_failed message) batch ∙ v.0,
          All-update_where IsObstacle (has_event_id id) (mark_failed message) batch (λ r one h. h)
              v.1,
        )

  arrive-IsBlocked :
      (e : EventModel) (rows : Rows)
      → t < e.created_at
      → IsBlocked rows
      → IsBlocked (unprocessed e ∷ rows)
  unfolding select_unprocessed select order_by_created
  arrive-IsBlocked e rows late v =
      subst (λ (b : Rows). (length b ≡ p.batch_size) × All IsObstacle b)
        (sym (
          limit-insert_late p.batch_size t (unprocessed e)
            (order_by_created (select is_unprocessed rows)) late
            (All-map IsObstacle (λ q. q.created_at ≤ t)
              (limit p.batch_size (order_by_created (select is_unprocessed rows))) (λ q h. h.1) v.1)
            v.0))
        v

  -- A client that has accepted `queued`, and a blocked table.
  abbrev IsStuck : List Message → System → Type 0
  IsStuck queued s = (s.kafka.queued ≡ queued) × IsBlocked s.database.tables

  failed-IsStuck :
      (queued : List Message) (e : EventModel) (message : String) (s : System)
      → IsStuck queued s
      → IsStuck queued (note_failure env p e message s)
  failed-IsStuck queued e message s v = elim (Bool-cases (ltb e.attempts p.max_attempts)) [
    | inl h ↦ rw h (
      v.0,
      (mark_as_failed-Keeps IsBlocked e.id message (failure-IsBlocked e.id message)).at s.database
          v.1,
    )
    | inr h ↦ rw h v
  ]

  events-IsStuck :
      (queued : List Message) (es : Rows) (s : System)
      → All IsObstacle es
      → IsStuck queued s
      → ((process_events env p es [] s).0 ≡ []) × IsStuck queued (process_events env p es [] s).1
  unfolding process_events process_event
  events-IsStuck queued [] s all v = (refl, v)
  events-IsStuck queued (e ∷ rest) s all v =
      let r = process_events env p rest in
      subst
        (λ (q : List String × System).
          ((r ([] ++ q.0) q.1).0 ≡ []) × IsStuck queued (r ([] ++ q.0) q.1).1)
        (sym (ap (λ o. after_event env p e (write_read env p e o s)) all.0.0))
        (events-IsStuck queued rest (note_failure env p e "unmarshal task payload" s) all.1
          (failed-IsStuck queued e "unmarshal task payload" s v))

  finish-IsStuck :
      (queued : List Message) (ids : List String) (s : System)
      → ids ≡ []
      → IsStuck queued s
      → IsStuck queued (finish_batch env p (ids, s))
  finish-IsStuck queued [] s h v = v
  finish-IsStuck queued (i ∷ ids) s h v = cc

  read-IsStuck :
      (queued : List Message) (r : Result Rows × World Rows) (s : System)
      → s.kafka.queued ≡ queued
      → IsBlocked r.1.tables
      → ((events : Rows) → r.0 ≡ ok events → events ≡ select_unprocessed p.batch_size r.1.tables)
      → IsStuck queued (process_read env p r s)
  read-IsStuck queued (err e, w) s h v read = (h, v)
  read-IsStuck queued (ok events, w) s h v read =
      let after =
        events-IsStuck queued events (record s { database = w })
          (subst (All IsObstacle) (sym (read events refl)) v.1) (h, v) in
      finish-IsStuck queued _ _ after.0 after.1

  get_reads : (w : World Rows) → (get_unprocessed_events p.batch_size w).1.tables ≡ w.tables
  unfolding get_unprocessed_events
  get_reads w = (Reads-sql _ _ (λ now k t a t' h. ground arith)).at w

  get_ok :
      (w : World Rows) (events : Rows)
      → (get_unprocessed_events p.batch_size w).0 ≡ ok events
      → events ≡ select_unprocessed p.batch_size w.tables
  unfolding get_unprocessed_events
  get_ok w events h = let e = sql_ok _ _ w events h in ground arith

  batch-IsStuck :
      (queued : List Message) (s : System)
      → IsStuck queued s
      → IsStuck queued (process_batch env p s)
  unfolding process_batch
  batch-IsStuck queued s v =
      let same = get_reads s.database in
      read-IsStuck queued (get_unprocessed_events p.batch_size s.database) s v.0
        (subst IsBlocked (sym same) v.1)
        (λ events h. get_ok s.database events h ∙ ap (select_unprocessed p.batch_size) (sym same))

  step-IsStuck :
      (queued : List Message) (e : Step) (s : System)
      → IsLater e
      → IsStuck queued s
      → IsStuck queued (step env p e s)
  unfolding step
  step-IsStuck queued tick s late h = batch-IsStuck queued s h
  step-IsStuck queued (arrive e) s late h = (h.0, arrive-IsBlocked e s.database.tables late h.1)

  run-IsStuck :
      (queued : List Message) (steps : List Step) (s : System)
      → All IsLater steps
      → IsStuck queued s
      → IsStuck queued (run env p steps s)
  unfolding run
  run-IsStuck queued [] s late h = h
  run-IsStuck queued (e ∷ rest) s late h =
      run-IsStuck queued rest (step env p e s) late.1 (step-IsStuck queued e s late.0 h)

  -- When the next batch is full, the data of all its events cannot be read, none of them is later
  -- than the time `t` and every event that arrives is: however often the worker ticks and events
  -- arrive, nothing more is handed to Kafka, and the next batch is then still such a batch.
  pub run-IsBlocked :
      (steps : List Step) (s : System)
      → IsBlocked s.database.tables
      → All IsLater steps
      → ((run env p steps s).kafka.queued ≡ s.kafka.queued)
        × IsBlocked (run env p steps s).database.tables
  run-IsBlocked steps s v late = run-IsStuck s.kafka.queued steps s late (refl, v)
