-- ===== src/Utils/Tries.antt =====
-- app/pkg/utils/repeatable/repeatable.go
pub mod Bounds
use tasks_service.Prelude.{
  ℕ, zero, suc, ◌+◌, ◌≡◌, ◌≤◌, ◌<◌, refl, Option, none, some, arith, Option-cases, inl, inr, ◌⊎◌,
}

module _ {ℓ κ} {E : Type ℓ} {W : Type κ} (fn : W → Option E × W) where
  -- One round of the loop: what `fn` returned, and the rest of the loop.
  abbrev pub or_else_again : Option E × W → (E → W → Option E × W) → Option E × W
  or_else_again (none, w) again = (none, w)
  or_else_again (some e, w) again = again e w

  -- DoWithTries with the error that `err` holds so far; no error is none.
  unfoldable pub tries : ℕ → Option E → W → Option E × W
  tries zero last w = (last, w)
  tries (suc attempts) last w = or_else_again (fn w) (λ e w'. tries attempts (some e) w')

  unfoldable pub do_with_tries : ℕ → W → Option E × W
  do_with_tries attempts = tries attempts none
