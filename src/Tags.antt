-- ===== src/Tags.antt =====
-- app/internal/tags: the tags of a user, in PostgreSQL (db/postgres/postgres.go), with the part of the
-- service (service/service.go) that stands on it.
pub mod Cached
pub mod Changes
pub mod Service
mod Examples
use tasks_service.Prelude.{
  ℕ, Bool, true, false, not, ◌&&◌, ◌==◌, String, Option, none, some, List, [], ◌∷◌, ◌++◌, any, find,
  select, map, update_where, if◌then◌else◌, ◌>>=◌ as and_then,
}
use tasks_service.Database.{
  Platform, World, Exec, Result, ok, err, pure, raise, sql, driver, invalid_uuid, no_name,
  name_taken, no_tag, ◌>>=◌, ◌>>◌,
}
use tasks_service.Tasks.Tables.{Tables, TagRow}

-- model.Tags; a default tag has no user.
pub record Tag : Type 0 where
  pub id : String
  pub name : String
  pub user_id : Option String

abbrev pub has_tag_id : String → TagRow → Bool
has_tag_id id r = r.tag_id == id

abbrev pub is_tag_of : String → String → TagRow → Bool
is_tag_of id user r = r.tag_id == id && r.user_id == user

-- UNIQUE (name, user_id)
abbrev pub is_named : String → String → TagRow → Bool
is_named name user r = r.name == name && r.user_id == user

-- `name = $1 AND user_id = $3 AND tag_id != $2`
abbrev pub is_other_named : String → String → String → TagRow → Bool
is_other_named id name user r = is_named name user r && not (r.tag_id == id)

abbrev pub rename : String → TagRow → TagRow
rename name r = record r { name = name }

abbrev pub to_default : TagRow → Tag
to_default r = record { id = r.tag_id; name = r.name; user_id = none }

abbrev pub to_custom : TagRow → Tag
to_custom r = record { id = r.tag_id; name = r.name; user_id = some r.user_id }

module _ (pg : Platform) where
  abbrev with_ids {ℓ} :
      {A : Type ℓ} → String → String → (String → String → Option (A × Tables)) → Option (A × Tables)
  with_ids tag user f = and_then (pg.uuid tag) λ id. and_then (pg.uuid user) λ u. f id u

  unfoldable pub select_exists : String → ℕ → ℕ → Tables → Option (Bool × Tables)
  select_exists tag now n t =
      and_then (pg.uuid tag) λ id. some (any (has_tag_id id) t.custom_tags, t)

  unfoldable pub find_tag_by_id : String → Exec Tables Bool
  find_tag_by_id tag = sql "find tag" (select_exists tag)

  unfoldable pub insert_tag : String → String → ℕ → ℕ → Tables → Option (String × Tables)
  insert_tag name user now n t = and_then (pg.uuid user) λ u.
      if any (is_named name u) t.custom_tags
      then none
      else some (
        pg.gen_uuid n,
        record t {
          custom_tags =
              t.custom_tags ++ record { tag_id = pg.gen_uuid n; name = name; user_id = u } ∷ [];
        },
      )

  unfoldable pub create_tags : String → String → Exec Tables String
  create_tags name user = sql "create tag" (insert_tag name user)

  unfoldable pub select_other : String → String → String → ℕ → ℕ → Tables → Option (Bool × Tables)
  select_other tag name user now n t =
      with_ids tag user λ id u. some (any (is_other_named id name u) t.custom_tags, t)

  -- The constraint on the names refuses a name that another tag of the user has.
  unfoldable pub update_row : String → String → String → ℕ → ℕ → Tables → Option (Unit {0} × Tables)
  update_row tag name user now n t = with_ids tag user λ id u.
      if any (is_tag_of id u) t.custom_tags && any (is_other_named id name u) t.custom_tags
      then none
      else some
          (tt, record t { custom_tags = update_where (is_tag_of id u) (rename name) t.custom_tags })

  unfoldable pub update_tags : String → String → String → Exec Tables (Unit {0})
  update_tags tag name user =
      if not (pg.parse_uuid tag)
      then raise invalid_uuid
      else if name == ""
      then raise no_name
      else do
        taken ← sql "check duplicate name" (select_other tag name user)
        if taken then raise name_taken else sql "update tag" (update_row tag name user)

  unfoldable pub delete_row : String → String → ℕ → ℕ → Tables → Option (Unit {0} × Tables)
  delete_row tag user now n t = with_ids tag user λ id u.
      some (tt, record t { custom_tags = select (λ r. not (is_tag_of id u r)) t.custom_tags })

  unfoldable pub delete_tags : String → String → Exec Tables (Unit {0})
  delete_tags tag user =
      if not (pg.parse_uuid tag) then raise invalid_uuid else sql "delete tag" (delete_row tag user)

  -- The default tags, then those of the user.
  unfoldable pub find_all_by_user : String → Exec Tables (List Tag)
  find_all_by_user user = sql "find all tags" λ now n t. and_then (pg.uuid user) λ u. some (
    map to_default t.default_tags
        ++ map to_custom (select (λ (r : TagRow). r.user_id == u) t.custom_tags),
    t,
  )

  abbrev pub scan_custom : Option TagRow → Exec Tables Tag
  scan_custom none = raise (driver "no rows")
  scan_custom (some r) = pure (to_custom r)

  unfoldable pub or_find_custom : String → String → Option TagRow → Exec Tables Tag
  or_find_custom tag user (some r) = pure (to_default r)
  or_find_custom tag user none =
      sql "find custom tag"
        (λ now n t. with_ids tag user λ id u. some (find (is_tag_of id u) t.custom_tags, t))
      >>= scan_custom

  unfoldable pub find_one_tags : String → String → Exec Tables Tag
  find_one_tags tag user = do
    found ←
        sql "find default tag"
          (λ now n t. and_then (pg.uuid tag) λ id. some (find (has_tag_id id) t.default_tags, t))
    or_find_custom tag user found

  -- What UpdateTags and DeleteTags of the service ask first: `ok` is false where the call failed.
  abbrev pub guarded {ℓ} :
      {A : Type ℓ} → Result Bool × World Tables → Exec Tables A → Result A × World Tables
  guarded (err e, w) m = raise no_tag w
  guarded (ok exists, w) m = if exists then m w else raise no_tag w

  unfoldable pub service_update_tags : String → String → String → Exec Tables (Unit {0})
  service_update_tags tag name user w = guarded (find_tag_by_id tag w) (update_tags tag name user)

  unfoldable pub service_delete_tags : String → String → Exec Tables (Unit {0})
  service_delete_tags tag user w = guarded (find_tag_by_id tag w) (delete_tags tag user)
