-- ===== src/Batch.antt =====
-- The batch processor of app/internal/tasks/batch/batch.go: the queues of tasks to create and of
-- tasks to delete, their two workers, and the order of what each writes.

mod Examples
pub mod Bounds
pub mod Flush
pub mod Order
pub mod Shutdown
use tasks_service.Prelude.{
  ℕ, suc, ◌≡◌, Bool, true, false, List, [], ◌∷◌, ◌++◌, length, is_empty, ltb, leb, if◌then◌else◌,
}

abbrev pub task_channel_size : ℕ
task_channel_size = 10000

abbrev pub task_max_batch : ℕ
task_max_batch = 500

abbrev pub delete_channel_size : ℕ
delete_channel_size = 10000

abbrev pub delete_max_batch : ℕ
delete_max_batch = 500

-- One queue and its worker. `flushes` is what the worker passed to flushCreate or flushDelete,
-- in order.
pub record Worker {ℓ} (A : Type ℓ) : Type ℓ where
  pub channel : List A
  pub batch : List A
  pub flushes : List (List A)
  pub running : Bool

module _ {ℓ} {A : Type ℓ} where
  -- A batch of length zero is not flushed.
  abbrev pub flush : Worker A → Worker A
  flush s =
      if is_empty s.batch then s else record s { flushes = s.flushes ++ s.batch ∷ []; batch = [] }

  -- `append` to the batch, and a flush once it is full.
  unfoldable pub add : ℕ → A → Worker A → Worker A
  add max x s =
      let grown : Worker A = record s { batch = s.batch ++ x ∷ [] } in
      if leb max (length grown.batch) then flush grown else grown

  -- The inner loop after `ctx.Done()`: what is left in the channel is read to its end.
  unfoldable pub drain : ℕ → List A → Worker A → Worker A
  drain max [] s = flush s
  drain max (x ∷ rest) s = drain max rest (add max x s)

  -- EnqueueCreate and EnqueueDelete: false for a full channel.
  unfoldable pub enqueue : ℕ → A → Worker A → Bool × Worker A
  enqueue size x s =
      if ltb (length s.channel) size
      then (true, record s { channel = s.channel ++ x ∷ [] })
      else (false, s)

  -- case task := <-p.taskCh
  unfoldable pub receive : ℕ → List A → Worker A → Worker A
  receive max [] s = s
  receive max (x ∷ rest) s = add max x (record s { channel = rest })

  -- case <-ctx.Done(). The drain is one step here: an item that comes while the channel is drained
  -- counts as one that came just before the context was cancelled. Runs in which a channel that was
  -- full then accepts an item because the drain has made room are not represented.
  unfoldable pub stop : ℕ → Worker A → Worker A
  stop max s = record (drain max s.channel (flush (record s { channel = [] }))) { running = false }

-- What may happen next: a client enqueues an item, or the worker's `select` picks a case. `select`
-- picks any case that is ready, so every sequence is possible.
pub data Event {ℓ} (A : Type ℓ) : Type ℓ where
  put : A → Event A
  take tick done : Event A

module _ {ℓ} {A : Type ℓ} where
  abbrev pub while_running : (Worker A → Worker A) → Worker A → Worker A
  while_running f s = if s.running then f s else s

  unfoldable pub step : ℕ → ℕ → Event A → Worker A → Worker A
  step size max (put x) s = (enqueue size x s).1
  step size max take s = while_running (λ t. receive max t.channel t) s
  step size max tick s = while_running flush s
  step size max done s = while_running (stop max) s

  unfoldable pub run : ℕ → ℕ → List (Event A) → Worker A → Worker A
  run size max [] s = s
  run size max (e ∷ rest) s = run size max rest (step size max e s)

-- The loops of runCreateWorker and runDeleteWorker, with the constants of each.
abbrev pub run_create_worker {ℓ} : {A : Type ℓ} → List (Event A) → Worker A → Worker A
run_create_worker = run task_channel_size task_max_batch

abbrev pub run_delete_worker {ℓ} : {A : Type ℓ} → List (Event A) → Worker A → Worker A
run_delete_worker = run delete_channel_size delete_max_batch
