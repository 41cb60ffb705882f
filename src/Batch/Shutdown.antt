-- ===== src/Batch/Shutdown.antt =====
-- What the workers of app/internal/tasks/batch/batch.go write at shutdown, and after it.
use tasks_service.Prelude.{ℕ, ◌≡◌, refl, sym, ap, ◌∙◌, true, false, List, [], ◌∷◌, ◌++◌, arith}
use mathlib.Core.List.{append-nil}
use tasks_service.Batch.{
  Worker, Event, put, take, tick, done, flush, add, drain, enqueue, stop, step, run,
}
use tasks_service.Batch.Order.{
  concat, collected, in_order, in_order-stop, channel-drain, channel-flush,
}

module _ {ℓ} {A : Type ℓ} where
  batch-flush_fields : (b : List A) (s : Worker A) → (flush (record s { batch = b })).batch ≡ []
  batch-flush_fields [] s = refl
  batch-flush_fields (x ∷ rest) s = refl

  batch-flush : (s : Worker A) → (flush s).batch ≡ []
  batch-flush s = batch-flush_fields s.batch s

  batch-drain : (max : ℕ) (xs : List A) (s : Worker A) → (drain max xs s).batch ≡ []
  unfolding drain
  batch-drain max [] s = batch-flush s
  batch-drain max (x ∷ rest) s = batch-drain max rest (add max x s)

  flushes-stop : (max : ℕ) (s : Worker A) → concat (stop max s).flushes ≡ in_order s
  unfolding stop
  flushes-stop max s =
      let t : Worker A = flush (record s { channel = [] }) in
      let u : Worker A = drain max s.channel t in
      sym (append-nil (concat u.flushes))
      ∙ ap (λ b. concat u.flushes ++ b) (sym (batch-drain max s.channel t))
      ∙ sym (append-nil (collected u))
      ∙ ap (λ c. collected u ++ c)
          (sym (channel-flush (record s { channel = [] })) ∙ sym (channel-drain max s.channel t))
      ∙ in_order-stop max s

  flushes-step :
      (size max : ℕ) (e : Event A) (s : Worker A)
      → s.running ≡ false
      → ((step size max e s).running ≡ false) × ((step size max e s).flushes ≡ s.flushes)
  unfolding step enqueue
  flushes-step size max (put x) s h = ground arith
  flushes-step size max take s h = ground arith
  flushes-step size max tick s h = ground arith
  flushes-step size max done s h = ground arith

  flushes-run :
      (size max : ℕ) (es : List (Event A)) (s : Worker A)
      → s.running ≡ false
      → (run size max es s).flushes ≡ s.flushes
  unfolding run
  flushes-run size max [] s h = refl
  flushes-run size max (e ∷ rest) s h =
      let (still, same) = flushes-step size max e s h in
      flushes-run size max rest (step size max e s) still ∙ same

  -- When the context of a running worker is cancelled, the worker writes every item that was
  -- accepted before, in order; whatever happens afterwards, it writes nothing more, not even an
  -- item that is accepted then.
  pub run-shutdown :
      (size max : ℕ) (es : List (Event A)) (s : Worker A)
      → s.running ≡ true
      → concat (run size max (done ∷ es) s).flushes ≡ in_order s
  unfolding run step stop
  run-shutdown size max es s h = ground (
    arith,
    flushes-run size max es (stop max s) refl,
    flushes-stop max s,
    ap concat (flushes-run size max es (stop max s) refl),
  )
