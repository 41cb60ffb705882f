-- ===== src/Resilience/Attempts.antt =====
-- How often the middlewares of app/pkg/api/resilience/middleware.go call their handler.
use tasks_service.Prelude.{
  ℕ, zero, suc, ◌+◌, ◌≡◌, ◌≤◌, ◌<◌, ◌⊎◌, inl, inr, refl, Bool, true, false, List, leb, arith,
  if◌then◌else◌,
}
use tasks_service.Resilience.{
  Response, Action, Guards, State, Outcome, refused, failed, succeeded, record_actions,
  new_recorder, too_many, unavailable, max_retries, call, call_if, execute, attempts, or_again,
  middleware, write_reply, write_middleware,
}

module _ {ℓ κ} {G : Type ℓ} {W : Type κ} (lib : Guards G) (handler : W → List Action × W) where
  -- A response that does not show a failure of the handler.
  abbrev pub IsShown : Response → Type 0
  IsShown r = (r.status < 500) ⊎ ((r ≡ unavailable) ⊎ (r ≡ too_many))

  -- What one execution yields: no call, or one call and its recorded response.
  abbrev IsExecuted : State G W → Outcome × State G W → Type κ
  IsExecuted s (refused, t) = (t.calls ≡ s.calls) × (t.world ≡ s.world)
  IsExecuted s (failed r, t) =
      (t.calls ≡ suc s.calls)
      × ((r ≡ record_actions new_recorder (handler s.world).0) × (t.world ≡ (handler s.world).1))
  IsExecuted s (succeeded r, t) =
      (t.calls ≡ suc s.calls)
      × ((r ≡ record_actions new_recorder (handler s.world).0) × (t.world ≡ (handler s.world).1))

  call-IsExecuted : (s : State G W) → IsExecuted s (call lib handler s)
  call-IsExecuted s = go (leb 500 (record_actions new_recorder (handler s.world).0).status)
    where
      go :
          (b : Bool)
          → IsExecuted s (
            if b
                then failed (record_actions new_recorder (handler s.world).0)
                else succeeded (record_actions new_recorder (handler s.world).0),
            (call lib handler s).1,
          )
      go true = (refl, (refl, refl))
      go false = (refl, (refl, refl))

  call_if-IsExecuted : (s : State G W) (p : Bool × G) → IsExecuted s (call_if lib handler s p)
  call_if-IsExecuted s (true, g) = call-IsExecuted (record s { guards = g })
  call_if-IsExecuted s (false, g) = (refl, refl)

  execute-IsExecuted : (s : State G W) → IsExecuted s (execute lib handler s)
  unfolding execute
  execute-IsExecuted s = call_if-IsExecuted s (lib.admits s.guards)

  execute_calls : (s : State G W) → (execute lib handler s).1.calls ≤ suc s.calls
  execute_calls s = go (execute lib handler s) (execute-IsExecuted s)
    where
      go : (p : Outcome × State G W) → IsExecuted s p → p.1.calls ≤ suc s.calls
      go (refused, t) h = omega (arith, h.0)
      go (failed r, t) h = omega (arith, h.0)
      go (succeeded r, t) h = omega (arith, h.0)

  -- A response that succeeded has no status of a server's error.
  execute_succeeded :
      (s : State G W) (r : Response) → (execute lib handler s).0 ≡ succeeded r → r.status < 500
  unfolding execute
  execute_succeeded s r = go (lib.admits s.guards)
    where
      go : (p : Bool × G) → (call_if lib handler s p).0 ≡ succeeded r → r.status < 500
      go (false, g) h = cc
      go (true, g) h = ground arith

  IsFew : ℕ → Response × State G W → Type 0
  IsFew n p = (p.1.calls ≤ n) × IsShown p.0

  again-IsFew :
      (n : ℕ) (p : Outcome × State G W) (again : Response × State G W)
      → p.1.calls ≤ n
      → ((r : Response) → p.0 ≡ succeeded r → r.status < 500)
      → IsFew n again
      → IsFew n (or_again lib handler p again)
  unfolding IsFew
  again-IsFew n (refused, t) again few good h = h
  again-IsFew n (failed r, t) again few good h = h
  again-IsFew n (succeeded r, t) again few good h = (few, inl (good r refl))

  attempts-IsFew : (n : ℕ) (s : State G W) → IsFew (s.calls + n) (attempts lib handler n s)
  unfolding attempts IsFew
  attempts-IsFew zero s = (omega arith, inr (inl refl))
  attempts-IsFew (suc n) s =
      let done = execute lib handler s in
      let (few, shown) = attempts-IsFew n done.1 in
      again-IsFew (s.calls + suc n) done (attempts lib handler n done.1)
        (omega (arith, execute_calls s)) (execute_succeeded s)
        (omega (arith, few, execute_calls s), shown)

  -- A request behind the retrying middleware calls its handler three times at most, and the reply
  -- never shows a server's error of the handler: its status is below 500, or it is one of the
  -- middleware's own replies, that the service is unavailable or that there are too many requests.
  pub middleware_lem :
      (s : State G W)
      → ((middleware lib handler s).1.calls ≤ s.calls + 3) × IsShown (middleware lib handler s).0
  unfolding middleware IsFew
  middleware_lem s = limited (lib.limiter s.guards)
    where
      limited :
          (p : Bool × G)
          → IsFew (s.calls + 3) (
              if p.0
              then attempts lib handler max_retries (record s { guards = p.1 })
              else (too_many, record s { guards = p.1 }))
      limited (true, g) = attempts-IsFew 3 (record s { guards = g })
      limited (false, g) = (omega arith, inr (inr refl))

  -- The reply of a write: the handler's own, from its one call, or a refusal without any call.
  abbrev pub IsWrittenOnce : State G W → Response × State G W → Type κ
  IsWrittenOnce s p =
      ((p.1.calls ≡ suc s.calls)
        × ((p.0 ≡ record_actions new_recorder (handler s.world).0)
            × (p.1.world ≡ (handler s.world).1)))
      ⊎ ((p.1.calls ≡ s.calls) × ((p.1.world ≡ s.world) × ((p.0 ≡ unavailable) ⊎ (p.0 ≡ too_many))))

  written :
      (s : State G W) (p : Outcome × State G W)
      → IsExecuted s p
      → IsWrittenOnce s (write_reply lib handler p)
  written s (refused, t) h = inr (h.0, (h.1, inl refl))
  written s (failed r, t) h = inl h
  written s (succeeded r, t) h = inl h

  -- A request behind the middleware for writes is never retried: either its handler is called once
  -- and its reply is passed on, a server's error included, or the handler is not called, nothing that
  -- it acts on has changed, and the reply is one of the middleware's own.
  pub write_middleware_lem : (s : State G W) → IsWrittenOnce s (write_middleware lib handler s)
  unfolding write_middleware
  write_middleware_lem s = limited (lib.limiter s.guards)
    where
      limited :
          (p : Bool × G)
          → IsWrittenOnce s (
              if p.0
              then write_reply lib handler (execute lib handler (record s { guards = p.1 }))
              else (too_many, record s { guards = p.1 }))
      limited (true, g) = written s _ (execute-IsExecuted (record s { guards = g }))
      limited (false, g) = inr (refl, (refl, inr refl))
