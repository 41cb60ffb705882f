-- ===== src/Utils/Tries/Bounds.antt =====
-- How often app/pkg/utils/repeatable/repeatable.go calls its function, and what it returns.
use tasks_service.Prelude.{
  ℕ, zero, suc, ◌≡◌, ◌≢◌, ◌<◌, ◌⊎◌, inl, inr, refl, Option, none, some, arith,
}
use tasks_service.Utils.Tries.{or_else_again, tries, do_with_tries}

module _ {ℓ κ} {E : Type ℓ} {W : Type κ} (fn : W → Option E × W) where
  -- The world after `k` calls.
  unfoldable pub calls : ℕ → W → W
  calls zero w = w
  calls (suc k) w = calls k (fn w).1

  -- The first `k` calls return errors.
  abbrev pub Failing : ℕ → W → Type ℓ
  Failing zero w = Unit
  Failing (suc k) w = ((fn w).0 ≢ none) × Failing k (fn w).1

  -- Either a call within the attempts is the first to succeed and the last to be made, or all fail
  -- and an error is returned.
  abbrev pub IsOutcome : ℕ → W → Option E × W → Type (ℓ ⊔ κ)
  IsOutcome n w r =
      ((k : ℕ) × (k < n)
        × Failing k w
        × ((fn (calls k w)).0 ≡ none)
        × (r ≡ (none, calls (suc k) w)))
      ⊎ (Failing n w × (r.1 ≡ calls n w) × (r.0 ≢ none))

  later :
      (n : ℕ) (w w' : W) (e : E) (r : Option E × W)
      → fn w ≡ (some e, w')
      → IsOutcome n w' r
      → IsOutcome (suc n) w r
  unfolding calls
  later n w w' e r f (inl (k, lt, failing, ok, same)) =
      inl (suc k, omega arith, rw f ((λ h. cc), failing), rw f ok, rw f same)
  later n w w' e r f (inr (failing, world, error)) =
      inr (rw f ((λ h. cc), failing), rw f world, error)

  -- A round of the loop, from what holds of the rest of it.
  round :
      (n : ℕ) (w : W) (r : Option E × W)
      → fn w ≡ r
      → ((e : E) (v : W) → IsOutcome n v (tries fn n (some e) v))
      → IsOutcome (suc n) w (or_else_again fn r (λ e v. tries fn n (some e) v))
  unfolding calls
  round n w (none, v) f rest = inl (0, omega arith, tt, rw (f, calls) refl, rw (f, calls) refl)
  round n w (some e, v) f rest = later n w v e (tries fn n (some e) v) f (rest e v)

  tries_lem : (n : ℕ) (last : E) (w : W) → IsOutcome n w (tries fn n (some last) w)
  unfolding tries calls
  tries_lem zero last w = inr (tt, refl, λ h. cc)
  tries_lem (suc n) last w = round n w (fn w) refl (tries_lem n)

  -- With at least one attempt the function is called until it succeeds, as often as there are
  -- attempts at most: the loop returns no error right after the first call that succeeds, and an
  -- error once all attempts have failed.
  pub do_with_tries_lem : (n : ℕ) (w : W) → IsOutcome (suc n) w (do_with_tries fn (suc n) w)
  unfolding do_with_tries tries
  do_with_tries_lem n w = round n w (fn w) refl (tries_lem n)
