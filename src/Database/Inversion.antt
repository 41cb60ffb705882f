-- ===== src/Database/Inversion.antt =====
-- What a chain of database calls did when it returned a value.
use tasks_service.Prelude.{ℕ, ◌≡◌, refl, String, Option, none, some, arith, inl, inr, Bool-cases}
use tasks_service.Database.{
  Result, ok, err, World, Exec, sql, transaction, ◌>>=◌, after_call, settle, continue, finish,
}

module _ {ℓ κ} {T : Type ℓ} {A : Type κ} where
  finish_ok :
      (what : String) (w : World T) (r : Option (A × T)) (a : A)
      → (finish what w r).0 ≡ ok a
      → r ≡ some (a, (finish what w r).1.tables)
  finish_ok what w none a h = cc
  finish_ok what w (some (b, t)) a h = cc

  -- A statement that returned has run, on the tables at its start.
  pub sql_ok :
      (what : String) (run : ℕ → ℕ → T → Option (A × T)) (w : World T) (a : A)
      → (sql what run w).0 ≡ ok a
      → run w.now w.calls w.tables ≡ some (a, (sql what run w).1.tables)
  unfolding sql
  sql_ok what run w a = elim (Bool-cases (w.fails w.calls)) [
    | inl e ↦ rw e (λ h. cc)
    | inr e ↦ rw e (finish_ok what (after_call w) (run w.now w.calls w.tables) a)
  ]

  settle_ok :
      (what : String) (before : T) (r : Result A × World T) (a : A)
      → (settle what before r).0 ≡ ok a
      → (r.0 ≡ ok a) × ((settle what before r).1.tables ≡ r.1.tables)
  settle_ok what before (err e, w) a h = cc
  settle_ok what before (ok b, w) a h = ground arith

  -- A transaction that returned is its body.
  pub transaction_ok :
      (what : String) (body : Exec T A) (w : World T) (a : A)
      → (transaction what body w).0 ≡ ok a
      → ((body (after_call w)).0 ≡ ok a)
        × ((transaction what body w).1.tables ≡ (body (after_call w)).1.tables)
  unfolding transaction
  transaction_ok what body w a = elim (Bool-cases (w.fails w.calls)) [
    | inl e ↦ rw e (λ h. cc)
    | inr e ↦ rw e (settle_ok what w.tables (body (after_call w)) a)
  ]

module _ {ℓ κ μ} {T : Type ℓ} {A : Type κ} {B : Type μ} where
  continue_ok :
      (f : A → Exec T B) (r : Result A × World T) (b : B)
      → (continue f r).0 ≡ ok b
      → (a : A) × (r.0 ≡ ok a) × (continue f r ≡ f a r.1)
  continue_ok f (ok a, w) b h = (a, refl, refl)
  continue_ok f (err e, w) b h = cc

  -- A chain that returned has passed its first step.
  pub bind_ok :
      (m : Exec T A) (f : A → Exec T B) (w : World T) (b : B)
      → ((m >>= f) w).0 ≡ ok b
      → (a : A) × ((m w).0 ≡ ok a) × ((m >>= f) w ≡ f a (m w).1)
  unfolding ◌>>=◌
  bind_ok m f w b h = continue_ok f (m w) b h

pub of_ok {ℓ} : {A : Type ℓ} {x y : A} → ok x ≡ ok y → x ≡ y
of_ok h = cc
