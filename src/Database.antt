-- ===== src/Database.antt =====
-- A call of the database as the repositories make it (app/pkg/client/postgres/postgres.go): the
-- state that the calls share, one call of `Query`, `QueryRow` or `Exec`, and a transaction.
-- Statements are atomic. A call fails when the environment says so (a lost connection, a timeout)
-- or when the statement itself fails (a cast, a constraint); a failed commit is rolled back.
pub mod Rules
pub mod Inversion
use tasks_service.Prelude.{
  ℕ, suc, ◌≡◌, Bool, true, false, String, Option, none, some, if◌then◌else◌,
}

-- The errors that the repositories and the services return, named for their messages; `driver` is
-- an error of the database client, with the text that the code wraps it in.
pub data Error : Type 0 where
  driver : String → Error
  self_task no_own_subtask no_friend_subtask : Error
  already_handled no_rights no_access pending_addressee no_subtask : Error
  not_found invalid_uuid deadline_expired no_fields bad_transition : Error
  no_name name_taken no_tag : Error

pub data Result {ℓ} (A : Type ℓ) : Type ℓ where
  ok : A → Result A
  err : Error → Result A

-- What the database and the uuid package do with texts, and what the database generates: code that
-- is not under src/.
pub record Platform : Type 0 where
  -- `s::uuid` in its canonical spelling, or none where the cast fails
  pub uuid : String → Option String
  -- a text that is read as a TIMESTAMPTZ
  pub timestamp : String → Option ℕ
  -- the id that `gen_random_uuid()` yields in the n-th call
  pub gen_uuid : ℕ → String
  -- `uuid.Parse(s)` of github.com/google/uuid returns no error
  pub parse_uuid : String → Bool

-- `fails n` says whether the n-th call fails for a reason outside the statement.
pub record World {ℓ} (T : Type ℓ) : Type ℓ where
  pub tables : T
  pub calls : ℕ
  pub fails : ℕ → Bool
  pub now : ℕ

abbrev pub Exec {ℓ κ} : Type ℓ → Type κ → Type (ℓ ⊔ κ)
Exec T A = World T → Result A × World T

-- The world after one more call that changes nothing.
abbrev pub after_call {ℓ} : {T : Type ℓ} → World T → World T
after_call w = record w { calls = suc w.calls }

module _ {ℓ κ} {T : Type ℓ} {A : Type κ} where
  abbrev pub pure : A → Exec T A
  pure a w = (ok a, w)

  abbrev pub raise : Error → Exec T A
  raise e w = (err e, w)

  abbrev pub finish : String → World T → Option (A × T) → Result A × World T
  finish what w none = (err (driver what), w)
  finish what w (some (a, t)) = (ok a, record w { tables = t })

  -- One statement. `run` gives its result and the new tables, or none where it fails; it is given
  -- the time and the number of the call, from which generated ids come.
  unfoldable pub sql : String → (ℕ → ℕ → T → Option (A × T)) → Exec T A
  sql what run w =
      if w.fails w.calls
      then (err (driver what), after_call w)
      else finish what (after_call w) (run w.now w.calls w.tables)

  -- What the deferred `tx.Rollback` does to the result of a failed transaction.
  abbrev pub settle : String → T → Result A × World T → Result A × World T
  settle what before (err e, w) = (err e, record w { tables = before })
  settle what before (ok a, w) =
      if w.fails w.calls
      then (err (driver what), record w { tables = before; calls = suc w.calls })
      else (ok a, after_call w)

  -- `tx, err := db.Begin(ctx)`, the body, and `return tx.Commit(ctx)`.
  unfoldable pub transaction : String → Exec T A → Exec T A
  transaction what body w =
      if w.fails w.calls
      then (err (driver "begin tx"), after_call w)
      else settle what w.tables (body (after_call w))

module _ {ℓ κ μ} {T : Type ℓ} {A : Type κ} {B : Type μ} where
  abbrev pub continue : (A → Exec T B) → Result A × World T → Result B × World T
  continue f (ok a, w) = f a w
  continue f (err e, w) = (err e, w)

  infixl 5 ◌>>=◌ ◌>>◌
  unfoldable pub ◌>>=◌ : Exec T A → (A → Exec T B) → Exec T B
  ◌>>=◌ m f w = continue f (m w)

  abbrev pub ◌>>◌ : Exec T A → Exec T B → Exec T B
  m >> n = m >>= λ _. n
