-- ===== src/Batch/Order.antt =====
-- The items that the workers of app/internal/tasks/batch/batch.go write, and their order.
use tasks_service.Prelude.{ℕ, ◌≡◌, refl, sym, ap, ◌∙◌, List, [], ◌∷◌, ◌++◌, arith, if◌then◌else◌}
use mathlib.Core.List.{append_assoc, append-nil}
use tasks_service.Batch.{
  Worker, Event, put, take, tick, done, flush, add, drain, enqueue, receive, stop, step, run,
}

module _ {ℓ} {A : Type ℓ} where
  unfoldable pub concat : List (List A) → List A
  concat [] = []
  concat (xs ∷ rest) = xs ++ concat rest

  -- What was flushed, and then what waits in the batch.
  abbrev pub collected : Worker A → List A
  collected s = concat s.flushes ++ s.batch

  -- What was collected, and then what waits in the channel.
  abbrev pub in_order : Worker A → List A
  in_order s = collected s ++ s.channel

  concat-append_one :
      (xss : List (List A)) (xs : List A) → concat (xss ++ xs ∷ []) ≡ concat xss ++ xs
  unfolding concat
  concat-append_one [] xs = append-nil xs
  concat-append_one (ys ∷ rest) xs =
      ap (λ t. ys ++ t) (concat-append_one rest xs) ∙ sym (append_assoc ys (concat rest) xs)

  collected-flush : (s : Worker A) → collected (flush s) ≡ collected s
  collected-flush s =
      ground (arith, concat-append_one s.flushes s.batch, append-nil (concat s.flushes ++ s.batch))

  collected-add : (max : ℕ) (x : A) (s : Worker A) → collected (add max x s) ≡ collected s ++ x ∷ []
  unfolding add
  collected-add max x s = ground (
    arith,
    collected-flush (record s { batch = s.batch ++ x ∷ [] }),
    append_assoc (concat s.flushes) s.batch (x ∷ []),
  )

  pub channel-flush : (s : Worker A) → (flush s).channel ≡ s.channel
  channel-flush s = ground arith

  channel-add : (max : ℕ) (x : A) (s : Worker A) → (add max x s).channel ≡ s.channel
  unfolding add
  channel-add max x s = ground arith

  pub channel-drain : (max : ℕ) (xs : List A) (s : Worker A) → (drain max xs s).channel ≡ s.channel
  unfolding drain
  channel-drain max [] s = channel-flush s
  channel-drain max (x ∷ rest) s = channel-drain max rest (add max x s) ∙ channel-add max x s

  collected-drain :
      (max : ℕ) (xs : List A) (s : Worker A) → collected (drain max xs s) ≡ collected s ++ xs
  unfolding drain
  collected-drain max [] s = collected-flush s ∙ sym (append-nil (collected s))
  collected-drain max (x ∷ rest) s =
      collected-drain max rest (add max x s)
      ∙ ap (λ t. t ++ rest) (collected-add max x s)
      ∙ append_assoc (collected s) (x ∷ []) rest

  in_order-receive :
      (max : ℕ) (xs : List A) (s : Worker A)
      → s.channel ≡ xs
      → in_order (receive max xs s) ≡ in_order s
  unfolding receive
  in_order-receive max [] s h = refl
  in_order-receive max (x ∷ rest) s h =
      let t : Worker A = record s { channel = rest } in
      rw (channel-add max x t) (
        rw h
          (ap (λ c. c ++ rest) (collected-add max x t) ∙ append_assoc (collected s) (x ∷ []) rest))

  pub in_order-stop : (max : ℕ) (s : Worker A) → in_order (stop max s) ≡ in_order s
  unfolding stop
  in_order-stop max s =
      let t : Worker A = record s { channel = [] } in
      rw (channel-drain max s.channel (flush t)) (
        rw (channel-flush t) (
          append-nil (collected (drain max s.channel (flush t)))
          ∙ collected-drain max s.channel (flush t)
          ∙ ap (λ c. c ++ s.channel) (collected-flush t)))

  -- What an event adds to the items that `EnqueueCreate` or `EnqueueDelete` answered true to.
  abbrev pub accepted : ℕ → Event A → Worker A → List A
  accepted size (put x) s = if (enqueue size x s).0 then x ∷ [] else []
  accepted size _ s = []

  unfoldable pub all_accepted : ℕ → ℕ → List (Event A) → Worker A → List A
  all_accepted size max [] s = []
  all_accepted size max (e ∷ rest) s =
      accepted size e s ++ all_accepted size max rest (step size max e s)

  in_order-step :
      (size max : ℕ) (e : Event A) (s : Worker A)
      → in_order (step size max e s) ≡ in_order s ++ accepted size e s
  unfolding step enqueue
  in_order-step size max (put x) s =
      ground (arith, append_assoc (collected s) s.channel (x ∷ []), append-nil (in_order s))
  in_order-step size max take s =
      ground (arith, in_order-receive max s.channel s refl, append-nil (in_order s))
  in_order-step size max tick s =
      ground (arith, collected-flush s, channel-flush s, append-nil (in_order s))
  in_order-step size max done s = ground (arith, in_order-stop max s, append-nil (in_order s))

  -- Whatever happens, in whatever order, the flushes one after another, then the batch, then the
  -- channel are what they were at first, followed by the items that were accepted since, in the
  -- order in which they were accepted: none is lost, none is written twice, and none overtakes
  -- another.
  pub run-in_order :
      (size max : ℕ) (es : List (Event A)) (s : Worker A)
      → in_order (run size max es s) ≡ in_order s ++ all_accepted size max es s
  unfolding run all_accepted
  run-in_order size max [] s = sym (append-nil (in_order s))
  run-in_order size max (e ∷ rest) s =
      run-in_order size max rest (step size max e s)
      ∙ ap (λ t. t ++ all_accepted size max rest (step size max e s)) (in_order-step size max e s)
      ∙ append_assoc (in_order s) (accepted size e s)
          (all_accepted size max rest (step size max e s))
