-- ===== src/Tasks/Tags.antt =====
-- The calls on tasks and tags that leave the rows of the tasks and the outbox as they are.
use tasks_service.Prelude.{ℕ, ◌≡◌, String, Option, none, some, arith}
use tasks_service.Database.{Platform, sql}
use tasks_service.Database.Rules.{Keeps, Keeps-pure, Keeps-raise, Keeps-sql, Keeps-if, Keeps-bind}
use tasks_service.Tasks.Domain.{Task}
use tasks_service.Tasks.Tables.{Tables, Generators}
use tasks_service.Tasks.Repository.{
  scan_row, ensure_affected, select_user, select_default_tag, select_custom_tag, insert_custom_tag,
  or_insert_tag, or_custom_tag, resolve_tag, patch_tag, select_updated,
}

module _ (pg : Platform) (gen : Generators) where
  select_user_same :
      (task : String) (now n : ℕ) (t : Tables) (a : Option String) (t' : Tables)
      → select_user pg gen task now n t ≡ some (a, t')
      → (t.tasks ≡ t'.tasks) × (t.outbox ≡ t'.outbox)
  unfolding select_user
  select_user_same task now n t a t' h = ground arith

  select_custom_tag_same :
      (name user : String) (now n : ℕ) (t : Tables) (a : Option String) (t' : Tables)
      → select_custom_tag pg gen name user now n t ≡ some (a, t')
      → (t.tasks ≡ t'.tasks) × (t.outbox ≡ t'.outbox)
  unfolding select_custom_tag
  select_custom_tag_same name user now n t a t' h = ground arith

  select_default_tag_same :
      (name : String) (now n : ℕ) (t : Tables) (a : Option String) (t' : Tables)
      → select_default_tag pg gen name now n t ≡ some (a, t')
      → (t.tasks ≡ t'.tasks) × (t.outbox ≡ t'.outbox)
  unfolding select_default_tag
  select_default_tag_same name now n t a t' h = ground arith

  insert_custom_tag_same :
      (name user : String) (now n : ℕ) (t : Tables) (a : String) (t' : Tables)
      → insert_custom_tag pg gen name user now n t ≡ some (a, t')
      → (t.tasks ≡ t'.tasks) × (t.outbox ≡ t'.outbox)
  unfolding insert_custom_tag
  insert_custom_tag_same name user now n t a t' h = ground arith

  pub select_updated_same :
      (task : String) (now n : ℕ) (t : Tables) (a : Option Task) (t' : Tables)
      → select_updated pg gen task now n t ≡ some (a, t')
      → (t.tasks ≡ t'.tasks) × (t.outbox ≡ t'.outbox)
  unfolding select_updated
  select_updated_same task now n t a t' h = ground arith

-- What depends on the rows of the tasks and on the outbox alone.
abbrev pub IsStable : (Tables → Type 0) → Type 0
IsStable P = (t t' : Tables) → t.tasks ≡ t'.tasks → t.outbox ≡ t'.outbox → P t → P t'

module _ (P : Tables → Type 0) (stable : IsStable P) where
  pub other-Keeps :
      {A : Type 0} (what : String) (run : ℕ → ℕ → Tables → Option (A × Tables))
      → ((now n : ℕ) (t : Tables) (a : A) (t' : Tables)
          → run now n t ≡ some (a, t')
          → (t.tasks ≡ t'.tasks) × (t.outbox ≡ t'.outbox))
      → Keeps P (sql what run)
  other-Keeps what run same =
      Keeps-sql what run
        λ now n t a t' h v. let (tasks, outbox) = same now n t a t' h in stable t t' tasks outbox v

  pub scan_row-Keeps : {A : Type 0} (what : String) (o : Option A) → Keeps P (scan_row what o)
  scan_row-Keeps what none = Keeps-raise _
  scan_row-Keeps what (some a) = Keeps-pure a

  pub affected-Keeps : (n : ℕ) → Keeps P (ensure_affected n)
  affected-Keeps n = Keeps-if _ _ _ (Keeps-raise _) (Keeps-pure tt)

module _ (P : Tables → Type 0) (stable : IsStable P) (pg : Platform) (gen : Generators) where
  insert_tag-Keeps :
      (name user : String) (o : Option String) → Keeps P (or_insert_tag pg gen name user o)
  insert_tag-Keeps name user none =
      other-Keeps P stable _ _ (insert_custom_tag_same pg gen name user)
  insert_tag-Keeps name user (some id) = Keeps-pure id

  custom_tag-Keeps :
      (name user : String) (o : Option String) → Keeps P (or_custom_tag pg gen name user o)
  custom_tag-Keeps name user none =
      Keeps-bind _ _ (other-Keeps P stable _ _ (select_custom_tag_same pg gen name user))
        (insert_tag-Keeps name user)
  custom_tag-Keeps name user (some id) = Keeps-pure id

  resolve_tag-Keeps : (task name : String) → Keeps P (resolve_tag pg gen task name)
  unfolding resolve_tag
  resolve_tag-Keeps task name =
      Keeps-bind _ _ (other-Keeps P stable _ _ (select_user_same pg gen task)) λ found.
        Keeps-bind _ _ (scan_row-Keeps P stable _ found) λ user.
          Keeps-bind _ _ (other-Keeps P stable _ _ (select_default_tag_same pg gen name))
            (custom_tag-Keeps name user)

  pub patch_tag-Keeps : (task : String) (o : Option String) → Keeps P (patch_tag pg gen task o)
  patch_tag-Keeps task none = Keeps-pure none
  patch_tag-Keeps task (some name) =
      Keeps-if _ _ _ (Keeps-pure none)
        (Keeps-bind _ _ (resolve_tag-Keeps task name) (λ tag. Keeps-pure (some tag)))
