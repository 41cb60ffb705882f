-- ===== src/Tags/Changes.antt =====
-- What a change of a tag in app/internal/tags does, and to whom.
use tasks_service.Prelude.{
  ℕ, suc, ◌≡◌, refl, Bool, true, false, ◌==◌, String, some, List, [], ◌∷◌, any, update_where, arith,
}
use tasks_service.Database.{Platform, World, ok, sql, after_call, ◌>>=◌}
use tasks_service.Tasks.Tables.{Tables, TagRow}
use tasks_service.Tags.{
  has_tag_id, is_tag_of, is_other_named, rename, select_exists, find_tag_by_id, select_other,
  update_row, update_tags, service_update_tags,
}

rename_nothing :
    (p : TagRow → Bool) (name : String) (rows : List TagRow)
    → any p rows ≡ false
    → update_where p (rename name) rows ≡ rows
unfolding any update_where
rename_nothing p name [] h = refl
rename_nothing p name (r ∷ rows) h = ground (arith, rename_nothing p name rows)

module _ (pg : Platform) (tag name user id u : String) (w : World Tables)
    (up : w.fails w.calls ≡ false) (tag_id : pg.uuid tag ≡ some id)
    (user_id : pg.uuid user ≡ some u) where
  find_tag_by_id_lem :
      find_tag_by_id pg tag w ≡ (ok (any (has_tag_id id) w.tables.custom_tags), after_call w)
  unfolding find_tag_by_id select_exists sql
  find_tag_by_id_lem = rw (up, tag_id) refl

  select_other_lem :
      sql "check duplicate name" (select_other pg tag name user) w
      ≡ (ok (any (is_other_named id name u) w.tables.custom_tags), after_call w)
  unfolding select_other sql
  select_other_lem = rw (up, tag_id, user_id) refl

  update_row_foreign :
      any (is_tag_of id u) w.tables.custom_tags ≡ false
      → sql "update tag" (update_row pg tag name user) w ≡ (ok tt, after_call w)
  unfolding update_row sql
  update_row_foreign foreign =
      rw
        (
          up,
          tag_id,
          user_id,
          foreign,
          rename_nothing (is_tag_of id u) name w.tables.custom_tags foreign,
        )
        refl

-- A tag of another user passes the check of UpdateTags, which asks for no user: with a name that is
-- free the caller is told of success, and nothing has changed.
pub update_foreign_tag :
    (pg : Platform) (tag name user id u : String) (w : World Tables)
    → ((n : ℕ) → w.fails n ≡ false)
    → pg.parse_uuid tag ≡ true
    → pg.uuid tag ≡ some id
    → pg.uuid user ≡ some u
    → (name == "") ≡ false
    → any (has_tag_id id) w.tables.custom_tags ≡ true
    → any (is_tag_of id u) w.tables.custom_tags ≡ false
    → any (is_other_named id name u) w.tables.custom_tags ≡ false
    → ((service_update_tags pg tag name user w).0 ≡ ok tt)
      × ((service_update_tags pg tag name user w).1.tables ≡ w.tables)
unfolding service_update_tags update_tags ◌>>=◌
update_foreign_tag pg tag name user id u w up parsed e f named there foreign free =
    rw
      (
        find_tag_by_id_lem pg tag name user id u w (up w.calls) e f,
        there,
        parsed,
        named,
        select_other_lem pg tag name user id u (after_call w) (up (suc w.calls)) e f,
        free,
        update_row_foreign pg tag name user id u (after_call (after_call w))
            (up (suc (suc w.calls))) e f foreign,
      )
      (refl, refl)
