-- ===== src/Batch/Flush.antt =====
-- flushCreate and flushDelete of app/internal/tasks/batch/batch.go, over the calls of the services
-- that they make, each a step on a state `W` of the caller's.
use tasks_service.Prelude.{
  ℕ, suc, ◌+◌, ◌-◌, ◌≤◌, ◌≡◌, refl, sym, ap, Bool, not, List, [], ◌∷◌, ◌++◌, String, Option, map,
  arith, is_blank, is_empty, select, length, ltb, if◌then◌else◌,
}
use mathlib.Core.List.{append_assoc, append-nil}
use tasks_service.Database.{Error}

abbrev pub redis_concurrency_limit : ℕ
redis_concurrency_limit = 500

pub record DeleteItem : Type 0 where
  pub id : String
  pub user_id : String

-- A call whose error is only logged.
abbrev pub logged {ℓ} : {W : Type ℓ} → Option Error × W → W
logged (e, w) = w

-- strings.TrimSpace(t.TagName) != ""
abbrev pub is_tagged {κ} : {Task : Type κ} → (Task → String) → Task → Bool
is_tagged tag_name t = not (is_blank (tag_name t))

-- The loop that starts a goroutine per item to write the cache, if the semaphore has room.
-- `in_use` goroutines run, and `finished i` of them end before the i-th item.
unfoldable pub start_caching {κ} : {Task : Type κ} → (ℕ → ℕ) → ℕ → ℕ → List Task → List Task × ℕ
start_caching finished i in_use [] = ([], in_use)
start_caching finished i in_use (t ∷ rest) =
    let left = in_use - finished i in
    let (started, after) = start_caching finished (i + 1) (suc left) rest in
    let skipped = start_caching finished (i + 1) left rest in
    if ltb left redis_concurrency_limit then (t ∷ started, after) else skipped

module _ {ℓ κ} {W : Type ℓ} {Task : Type κ} where
  -- The loop of flushCreate: a task with a tag is created at once, the others are gathered.
  unfoldable pub split_loop :
      (Task → String) → (Task → W → Option Error × W) → List Task → List Task → W → List Task × W
  split_loop tag_name create [] simple w = (simple, w)
  split_loop tag_name create (t ∷ rest) simple w =
      let stored = split_loop tag_name create rest simple (logged (create t w)) in
      let gathered = split_loop tag_name create rest (simple ++ t ∷ []) w in
      if is_tagged tag_name t then stored else gathered

  abbrev pub create_simple : (List Task → W → Option Error × W) → List Task × W → W
  create_simple create_batch (simple, w) =
      if is_empty simple then w else logged (create_batch simple w)

  -- flushCreate up to the caching.
  unfoldable pub flush_create :
      (Task → String)
      → (Task → W → Option Error × W)
      → (List Task → W → Option Error × W)
      → List Task
      → W
      → W
  flush_create tag_name create create_batch tasks w =
      create_simple create_batch (split_loop tag_name create tasks [] w)

  -- One call after another.
  unfoldable pub each : (Task → W → Option Error × W) → List Task → W → W
  each f [] w = w
  each f (t ∷ rest) w = each f rest (logged (f t w))

  split_loop-eq :
      (tag_name : Task → String) (create : Task → W → Option Error × W) (tasks simple : List Task)
      (w : W)
      → split_loop tag_name create tasks simple w ≡ (
        simple ++ select (λ t. not (is_tagged tag_name t)) tasks,
        each create (select (is_tagged tag_name) tasks) w,
      )
  unfolding split_loop each select
  split_loop-eq tag_name create [] simple w = ap (λ l. (l, w)) (sym (append-nil simple))
  split_loop-eq tag_name create (t ∷ rest) simple w = ground (
    arith,
    split_loop-eq tag_name create rest simple (logged (create t w)),
    split_loop-eq tag_name create rest (simple ++ t ∷ []) w,
    append_assoc simple (t ∷ []) (select (λ x. not (is_tagged tag_name x)) rest),
  )

  -- The flush of a batch first creates the tasks that have a tag, one after another in the order of
  -- the batch, and then inserts all others at once, in the order of the batch, if there are any: each task is
  -- in exactly one of these calls, and an error of one call keeps no other from being made.
  pub flush_create_lem :
      (tag_name : Task → String) (create : Task → W → Option Error × W)
      (create_batch : List Task → W → Option Error × W) (tasks : List Task) (w : W)
      → flush_create tag_name create create_batch tasks w ≡ (
          let simple = select (λ t. not (is_tagged tag_name t)) tasks in
          let after = each create (select (is_tagged tag_name) tasks) w in
          if is_empty simple then after else (create_batch simple after).1)
  unfolding flush_create
  flush_create_lem tag_name create create_batch tasks w =
      rw (split_loop-eq tag_name create tasks [] w) refl

-- flushDelete up to the cache.
unfoldable pub flush_delete {ℓ} :
    {W : Type ℓ} → (List String → W → Option Error × W) → List DeleteItem → W → W
flush_delete delete_batch items w = logged (delete_batch (map (λ i. i.id) items) w)

module _ {κ} {Task : Type κ} where
  -- Never more goroutines than the semaphore admits write the cache, if there were no more at first.
  pub started-in_use :
      (finished : ℕ → ℕ) (i in_use : ℕ) (tasks : List Task)
      → in_use ≤ redis_concurrency_limit
      → (start_caching finished i in_use tasks).1 ≤ redis_concurrency_limit
  unfolding start_caching
  started-in_use finished i in_use [] h = h
  started-in_use finished i in_use (t ∷ rest) h = ground (
    arith,
    started-in_use finished (i + 1) (suc (in_use - finished i)) rest,
    started-in_use finished (i + 1) (in_use - finished i) rest,
  )

  -- When the goroutines that run leave room for all tasks of the batch, every task is cached.
  pub started-eq :
      (finished : ℕ → ℕ) (i in_use : ℕ) (tasks : List Task)
      → in_use + length tasks ≤ redis_concurrency_limit
      → (start_caching finished i in_use tasks).0 ≡ tasks
  unfolding start_caching
  started-eq finished i in_use [] h = refl
  started-eq finished i in_use (t ∷ rest) h =
      ground (arith, started-eq finished (i + 1) (suc (in_use - finished i)) rest)
