-- ===== src/Batch/Bounds.antt =====
-- The bounds on the queue and the batches of app/internal/tasks/batch/batch.go.
use tasks_service.Prelude.{
  ℕ, ◌≡◌, ◌≤◌, ◌<◌, refl, ap, Bool, true, false, List, [], ◌∷◌, ◌++◌, arith, length, length-append,
  ltb, leb, inl, inr, Bool-cases, if◌then◌else◌, All, All-append,
}
use tasks_service.Batch.{
  Worker, Event, put, take, tick, done, flush, add, drain, enqueue, receive, stop, step, run,
}

module _ {ℓ} {A : Type ℓ} (size max : ℕ) where
  -- A slice that is flushed is not empty and not longer than a batch may be.
  abbrev pub IsFull : List A → Type 0
  IsFull xs = (1 ≤ length xs) × (length xs ≤ max)

  pub record IsBounded (s : Worker A) : Type ℓ where
    pub channel_fits : length s.channel ≤ size
    pub batch_fits : length s.batch < max
    pub flushes_fit : All IsFull s.flushes

  flush_fields-IsBounded :
      (b : List A) (s : Worker A)
      → 1 ≤ max
      → length s.channel ≤ size
      → length b ≤ max
      → All IsFull s.flushes
      → IsBounded (flush (record s { batch = b }))
  flush_fields-IsBounded [] s m c b f = record {
    channel_fits = c;
    batch_fits = omega (arith, m);
    flushes_fit = f;
  }
  flush_fields-IsBounded (x ∷ rest) s m c b f = record {
    channel_fits = c;
    batch_fits = omega (arith, m);
    flushes_fit = All-append IsFull s.flushes ((x ∷ rest) ∷ []) f ((omega arith, b), tt);
  }

  flush-IsBounded : (s : Worker A) → 1 ≤ max → IsBounded s → IsBounded (flush s)
  flush-IsBounded s m v =
      flush_fields-IsBounded s.batch s m v.channel_fits (omega (arith, v.batch_fits)) v.flushes_fit

  add-IsBounded : (x : A) (s : Worker A) → 1 ≤ max → IsBounded s → IsBounded (add max x s)
  unfolding add
  add-IsBounded x s m v =
      let longer = length-append s.batch (x ∷ []) in
      let flushed =
        flush_fields-IsBounded (s.batch ++ x ∷ []) s m v.channel_fits
          (omega (arith, longer, v.batch_fits)) v.flushes_fit in
      elim (Bool-cases (leb max (length (s.batch ++ x ∷ [])))) [
        | inl e ↦ rw e flushed
        | inr e ↦ rw e (record {
          channel_fits = v.channel_fits;
          batch_fits = ground arith;
          flushes_fit = v.flushes_fit;
        })
      ]

  drain-IsBounded :
      (xs : List A) (s : Worker A) → 1 ≤ max → IsBounded s → IsBounded (drain max xs s)
  unfolding drain
  drain-IsBounded [] s m v = flush-IsBounded s m v
  drain-IsBounded (x ∷ rest) s m v = drain-IsBounded rest (add max x s) m (add-IsBounded x s m v)

  stop-IsBounded : (s : Worker A) → 1 ≤ max → IsBounded s → IsBounded (stop max s)
  unfolding stop
  stop-IsBounded s m v =
      let t : Worker A = record s { channel = [] } in
      let empty : IsBounded t = record {
        channel_fits = omega arith;
        batch_fits = v.batch_fits;
        flushes_fit = v.flushes_fit;
      } in
      let drained = drain-IsBounded s.channel (flush t) m (flush-IsBounded t m empty) in
      record {
        channel_fits = drained.channel_fits;
        batch_fits = drained.batch_fits;
        flushes_fit = drained.flushes_fit;
      }

  receive-IsBounded :
      (xs : List A) (s : Worker A)
      → s.channel ≡ xs
      → 1 ≤ max
      → IsBounded s
      → IsBounded (receive max xs s)
  unfolding receive
  receive-IsBounded [] s h m v = v
  receive-IsBounded (x ∷ rest) s h m v =
      add-IsBounded x (record s { channel = rest }) m
        (record {
          channel_fits = omega (arith, v.channel_fits, ap length h);
          batch_fits = v.batch_fits;
          flushes_fit = v.flushes_fit;
        })

  enqueue-IsBounded : (x : A) (s : Worker A) → IsBounded s → IsBounded (enqueue size x s).1
  unfolding enqueue
  enqueue-IsBounded x s v = elim (Bool-cases (ltb (length s.channel) size)) [
    | inl e ↦ rw e (record {
      channel_fits = ground (arith, length-append s.channel (x ∷ []));
      batch_fits = v.batch_fits;
      flushes_fit = v.flushes_fit;
    })
    | inr e ↦ rw e v
  ]

  if-IsBounded :
      (b : Bool) (s t : Worker A) → IsBounded s → IsBounded t → IsBounded (if b then s else t)
  if-IsBounded true s t v w = v
  if-IsBounded false s t v w = w

  step-IsBounded :
      (e : Event A) (s : Worker A) → 1 ≤ max → IsBounded s → IsBounded (step size max e s)
  unfolding step
  step-IsBounded (put x) s m v = enqueue-IsBounded x s v
  step-IsBounded take s m v = if-IsBounded s.running _ s (receive-IsBounded s.channel s refl m v) v
  step-IsBounded tick s m v = if-IsBounded s.running _ s (flush-IsBounded s m v) v
  step-IsBounded done s m v = if-IsBounded s.running _ s (stop-IsBounded s m v) v

  -- The channel never holds more than its size, the batch is always shorter than the greatest
  -- batch, and every slice that is flushed has at least one item and at most as many as the
  -- greatest batch, whatever happens in whatever order. The greatest batch is at least one.
  pub run-IsBounded :
      (es : List (Event A)) (s : Worker A) → 1 ≤ max → IsBounded s → IsBounded (run size max es s)
  unfolding run
  run-IsBounded [] s m v = v
  run-IsBounded (e ∷ rest) s m v = run-IsBounded rest (step size max e s) m (step-IsBounded e s m v)
