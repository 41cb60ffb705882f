-- ===== src/Database/Rules.antt =====
-- Rules for invariants and atomicity of chains of database calls.
use tasks_service.Prelude.{
  ℕ, ◌≡◌, refl, Bool, true, false, String, Option, none, some, arith, if◌then◌else◌, Bool-cases,
  Option-cases, inl, inr, ◌∙◌, ◌≢◌, ◌⊎◌,
}
use tasks_service.Database.{
  Error, Result, ok, err, World, Exec, pure, raise, sql, transaction, ◌>>=◌, after_call, settle,
  continue, finish,
}

-- From tables with `Q` the call `m` leaves tables with `P`, whether it returns or fails.
pub record Leads {ℓ κ μ} {T : Type ℓ} {A : Type κ} (Q P : T → Type μ) (m : Exec T A)
    : Type (ℓ ⊔ μ) where
  pub at : (w : World T) → Q w.tables → P (m w).1.tables

abbrev pub Keeps {ℓ κ μ} : {T : Type ℓ} {A : Type κ} → (T → Type μ) → Exec T A → Type (ℓ ⊔ μ)
Keeps P m = Leads P P m

-- A failure of `m` leaves the tables as they were.
pub record Atomic {ℓ κ} {T : Type ℓ} {A : Type κ} (m : Exec T A) : Type (ℓ ⊔ κ) where
  pub at : (w : World T) (e : Error) → (m w).0 ≡ err e → (m w).1.tables ≡ w.tables

-- `m` never changes the tables.
pub record Reads {ℓ κ} {T : Type ℓ} {A : Type κ} (m : Exec T A) : Type ℓ where
  pub at : (w : World T) → (m w).1.tables ≡ w.tables

pub ok≢err {ℓ} : {A : Type ℓ} (a : A) (e : Error) → ok a ≢ err e
ok≢err a e h = cc

module _ {ℓ κ μ} {T : Type ℓ} {A : Type κ} (Q P : T → Type μ) (weaken : (t : T) → Q t → P t) where
  pub Leads-pure : (a : A) → Leads Q P (pure a)
  Leads-pure a = record { at = λ w h. weaken w.tables h }

  pub Leads-raise : (e : Error) → Leads Q P (raise {A = A} e)
  Leads-raise e = record { at = λ w h. weaken w.tables h }

  -- A statement need only be followed where it succeeds.
  pub Leads-sql :
      (what : String) (run : ℕ → ℕ → T → Option (A × T))
      → ((now n : ℕ) (t : T) (a : A) (t' : T) → run now n t ≡ some (a, t') → Q t → P t')
      → Leads Q P (sql what run)
  unfolding sql
  Leads-sql what run step = record {
    at = λ w h. elim (Bool-cases (w.fails w.calls)) [
      | inl e ↦ rw e (weaken w.tables h)
      | inr e ↦ rw e (elim (Option-cases (run w.now w.calls w.tables)) [
        | inl f ↦ rw f (weaken w.tables h)
        | inr ((a, t), f) ↦ rw f (step w.now w.calls w.tables a t f h)
      ])
    ];
  }

  settle-Leads :
      (what : String) (before : T) (r : Result A × World T)
      → P before
      → P r.1.tables
      → P (settle what before r).1.tables
  settle-Leads what before (err e, w) hb h = hb
  settle-Leads what before (ok a, w) hb h = ground arith

  pub Leads-transaction :
      (what : String) (body : Exec T A) → Leads Q P body → Leads Q P (transaction what body)
  unfolding transaction
  Leads-transaction what body k = record {
    at = λ w h. elim (Bool-cases (w.fails w.calls)) [
      | inl e ↦ rw e (weaken w.tables h)
      | inr e ↦ rw e (
          settle-Leads what w.tables (body (after_call w)) (weaken w.tables h)
            (k.at (after_call w) h))
    ];
  }

module _ {ℓ κ μ ν} {T : Type ℓ} {A : Type κ} {B : Type μ} where
  continue-Leads :
      (R P : T → Type ν) (f : A → Exec T B) (r : Result A × World T)
      → ((t : T) → R t → P t)
      → ((a : A) → Leads R P (f a))
      → R r.1.tables
      → P (continue f r).1.tables
  continue-Leads R P f (ok a, w) weaken k h = (k a).at w h
  continue-Leads R P f (err e, w) weaken k h = weaken w.tables h

  pub Leads-bind :
      (Q R P : T → Type ν) (m : Exec T A) (f : A → Exec T B)
      → ((t : T) → R t → P t)
      → Leads Q R m
      → ((a : A) → Leads R P (f a))
      → Leads Q P (m >>= f)
  unfolding ◌>>=◌
  Leads-bind Q R P m f weaken km kf = record {
    at = λ w h. continue-Leads R P f (m w) weaken kf (km.at w h);
  }

module _ {ℓ κ μ} {T : Type ℓ} {A : Type κ} {P : T → Type μ} where
  pub Keeps-pure : (a : A) → Keeps P (pure a)
  Keeps-pure = Leads-pure P P (λ t h. h)

  pub Keeps-raise : (e : Error) → Keeps P (raise {A = A} e)
  Keeps-raise = Leads-raise P P (λ t h. h)

  pub Keeps-sql :
      (what : String) (run : ℕ → ℕ → T → Option (A × T))
      → ((now n : ℕ) (t : T) (a : A) (t' : T) → run now n t ≡ some (a, t') → P t → P t')
      → Keeps P (sql what run)
  Keeps-sql = Leads-sql P P (λ t h. h)

  pub Keeps-transaction :
      (what : String) (body : Exec T A) → Keeps P body → Keeps P (transaction what body)
  Keeps-transaction = Leads-transaction P P (λ t h. h)

  pub Keeps-if : (b : Bool) (m n : Exec T A) → Keeps P m → Keeps P n → Keeps P (if b then m else n)
  Keeps-if true m n km kn = km
  Keeps-if false m n km kn = kn

  pub Leads-if :
      (Q : T → Type μ) (b : Bool) (m n : Exec T A)
      → Leads Q P m
      → Leads Q P n
      → Leads Q P (if b then m else n)
  Leads-if Q true m n km kn = km
  Leads-if Q false m n km kn = kn

pub Keeps-bind {ℓ κ μ ν} :
    {T : Type ℓ} {A : Type κ} {B : Type μ} {P : T → Type ν} (m : Exec T A) (f : A → Exec T B)
    → Keeps P m
    → ((a : A) → Keeps P (f a))
    → Keeps P (m >>= f)
Keeps-bind {P} m f = Leads-bind P P P m f (λ t h. h)

pub ruleset keeps_rules = (Keeps-pure, Keeps-raise, Keeps-if, Keeps-bind, Keeps-transaction)

module _ {ℓ κ} {T : Type ℓ} {A : Type κ} where
  pub Atomic-pure : (a : A) → Atomic (pure {T = T} a)
  Atomic-pure a = record { at = λ w e h. refl }

  pub Atomic-raise : (e : Error) → Atomic (raise {T = T} {A = A} e)
  Atomic-raise e = record { at = λ w f h. refl }

  pub Atomic-if : (b : Bool) (m n : Exec T A) → Atomic m → Atomic n → Atomic (if b then m else n)
  Atomic-if true m n km kn = km
  Atomic-if false m n km kn = kn

  finish_error :
      (what : String) (w : World T) (r : Option (A × T)) (e : Error)
      → (finish what w r).0 ≡ err e
      → (finish what w r).1.tables ≡ w.tables
  finish_error what w none e h = refl
  finish_error what w (some (a, t)) e h = cc

  pub Atomic-sql : (what : String) (run : ℕ → ℕ → T → Option (A × T)) → Atomic (sql what run)
  unfolding sql
  Atomic-sql what run = record {
    at = λ w e. elim (Bool-cases (w.fails w.calls)) [
      | inl f ↦ rw f (λ h. refl)
      | inr f ↦ rw f (finish_error what (after_call w) (run w.now w.calls w.tables) e)
    ];
  }

  settle_error :
      (what : String) (before : T) (r : Result A × World T) (e : Error)
      → (settle what before r).0 ≡ err e
      → (settle what before r).1.tables ≡ before
  settle_error what before (err c, w) e h = refl
  settle_error what before (ok a, w) e h = ground arith

  -- Whatever the body does: the deferred rollback undoes it.
  pub Atomic-transaction : (what : String) (body : Exec T A) → Atomic (transaction what body)
  unfolding transaction
  Atomic-transaction what body = record {
    at = λ w e. elim (Bool-cases (w.fails w.calls)) [
      | inl f ↦ rw f (λ h. refl)
      | inr f ↦ rw f (settle_error what w.tables (body (after_call w)) e)
    ];
  }

  pub Reads-sql :
      (what : String) (run : ℕ → ℕ → T → Option (A × T))
      → ((now n : ℕ) (t : T) (a : A) (t' : T) → run now n t ≡ some (a, t') → t' ≡ t)
      → Reads (sql what run)
  unfolding sql
  Reads-sql what run same = record {
    at = λ w. elim (Bool-cases (w.fails w.calls)) [
      | inl e ↦ rw e
      | inr e ↦ rw e (elim (Option-cases (run w.now w.calls w.tables)) [
        | inl f ↦ rw f
        | inr ((a, t), f) ↦ rw f (same w.now w.calls w.tables a t f)
      ])
    ];
  }

  pub Reads-pure : (a : A) → Reads (pure {T = T} a)
  Reads-pure a = record { at = λ w. refl }

  pub Reads-raise : (e : Error) → Reads (raise {T = T} {A = A} e)
  Reads-raise e = record { at = λ w. refl }

  pub Atomic-Reads : (m : Exec T A) → Reads m → Atomic m
  Atomic-Reads m r = record { at = λ w e h. r.at w }

module _ {ℓ κ μ} {T : Type ℓ} {A : Type κ} {B : Type μ} where
  continue-Atomic :
      (f : A → Exec T B) (r : Result A × World T) (t : T) (e : Error)
      → ((a : A) → Atomic (f a))
      → r.1.tables ≡ t
      → (continue f r).0 ≡ err e
      → (continue f r).1.tables ≡ t
  continue-Atomic f (ok a, w) t e k h g = (k a).at w e g ∙ h
  continue-Atomic f (err c, w) t e k h g = h

  -- Reads may stand before the one step that writes.
  pub Atomic-bind :
      (m : Exec T A) (f : A → Exec T B) → Reads m → ((a : A) → Atomic (f a)) → Atomic (m >>= f)
  unfolding ◌>>=◌
  Atomic-bind m f r k = record { at = λ w e h. continue-Atomic f (m w) w.tables e k (r.at w) h }

  continue-Atomic_total :
      (f : A → Exec T B) (r : Result A × World T) (t : T) (e : Error)
      → ((a : A) (w : World T) (c : Error) → (f a w).0 ≢ err c)
      → ((c : Error) → r.0 ≡ err c → r.1.tables ≡ t)
      → (continue f r).0 ≡ err e
      → (continue f r).1.tables ≡ t
  continue-Atomic_total f (ok a, w) t e total h g = absurd (total a w e g)
  continue-Atomic_total f (err c, w) t e total h g = h c refl

  -- What cannot fail may follow.
  pub Atomic-bind_total :
      (m : Exec T A) (f : A → Exec T B)
      → Atomic m
      → ((a : A) (w : World T) (c : Error) → (f a w).0 ≢ err c)
      → Atomic (m >>= f)
  unfolding ◌>>=◌
  Atomic-bind_total m f k total = record {
    at = λ w e. continue-Atomic_total f (m w) w.tables e total (k.at w);
  }

  -- After a write that succeeded, the rest either cannot fail or follows a write of nothing.
  pub Atomic-write :
      (what : String) (run : ℕ → ℕ → T → Option (A × T)) (f : A → Exec T B)
      → ((now n : ℕ) (t : T) (a : A) (t' : T)
          → run now n t ≡ some (a, t')
          → ((t' ≡ t) × Atomic (f a)) ⊎ ((w : World T) (e : Error) → (f a w).0 ≢ err e))
      → Atomic (sql what run >>= f)
  unfolding ◌>>=◌ sql
  Atomic-write what run f cases = record {
    at = λ w e. elim (Bool-cases (w.fails w.calls)) [
      | inl g ↦ rw g (λ h. refl)
      | inr g ↦ rw g (elim (Option-cases (run w.now w.calls w.tables)) [
        | inl r ↦ rw r (λ h. refl)
        | inr ((a, t), r) ↦ rw r (elim (cases w.now w.calls w.tables a t r) [
          | inl (same, k) ↦ λ h. k.at (record (after_call w) { tables = t }) e h ∙ same
          | inr never ↦ λ h. absurd (never (record (after_call w) { tables = t }) e h)
        ])
      ])
    ];
  }

  continue-Reads :
      (f : A → Exec T B) (r : Result A × World T) (t : T)
      → ((a : A) → Reads (f a))
      → r.1.tables ≡ t
      → (continue f r).1.tables ≡ t
  continue-Reads f (ok a, w) t k h = (k a).at w ∙ h
  continue-Reads f (err c, w) t k h = h

  pub Reads-bind :
      (m : Exec T A) (f : A → Exec T B) → Reads m → ((a : A) → Reads (f a)) → Reads (m >>= f)
  unfolding ◌>>=◌
  Reads-bind m f r k = record { at = λ w. continue-Reads f (m w) w.tables k (r.at w) }

pub ruleset atomic_rules =
    (Atomic-pure, Atomic-raise, Atomic-if, Atomic-sql, Atomic-transaction, Atomic-bind)
