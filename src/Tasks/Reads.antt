-- ===== src/Tasks/Reads.antt =====
-- The methods of app/internal/tasks/repository/postgres/postgres.go that read tasks.
pub mod Owners
mod Examples
use tasks_service.Prelude.{
  ℕ, Bool, true, false, not, ◌==◌, ◌&&◌, ◌||◌, String, Option, none, some, List, [], ◌∷◌, ◌<>◌,
  select, find, map, leb, nat_eq, or_else, if◌then◌else◌, ◌>>=◌ as and_then,
}
use mathlib.Core.Option
use tasks_service.Database.{Platform, World, Exec, Result, ok, err, pure, raise, sql, driver, ◌>>=◌}
use tasks_service.Api.Sort.{Options}
use tasks_service.Api.Filter.{Field}
use tasks_service.Tasks.Domain.{Task, Subtask, new_status}
use tasks_service.Tasks.Tables.{Tables, TaskRow, TagRow, SubtaskRow, has_task_id, is_of_task}
use tasks_service.Tasks.Repository.{scan_row, shown_status, tag_id_is, model_to_entity, is_some}
use tasks_service.Tasks.Subtasks.{subtask_model_to_entity, order_by_num}
use tasks_service.Tasks.Admin.{or_false}
use tasks_service.Tasks.Filters.{Where, attach, build_filter_conditions}

-- model.TaskList
pub record TaskList : Type 0 where
  pub id : String
  pub title : String
  pub description : String
  pub status : String
  pub priory : String
  pub due_date : ℕ
  pub user_id : String
  pub tag_id : Option String
  pub tag_name : Option String
  pub admin_deleted : Bool
  pub admin_deleted_at : Option ℕ

-- A row of `tasks` with the name of its tag, as the queries of lists return it.
abbrev pub Listed : Type 0
Listed = TaskRow × Option String

-- One round of scanTasks.
abbrev pub scan_task : ℕ → Listed → TaskList
scan_task now (r, name) = record {
  id = r.task_id;
  title = r.title;
  description = r.description;
  status = shown_status now (new_status r.status) r.due_date;
  priory = r.priory;
  due_date = r.due_date;
  user_id = r.user_id;
  tag_id = r.tag_id;
  tag_name = name;
  admin_deleted = or_false r.admin_deleted;
  admin_deleted_at = r.admin_deleted_at;
}

-- scanTasks: the clock is read at the rows.
abbrev pub scan_tasks : List Listed → Exec Tables (List TaskList)
scan_tasks rows w = (ok (map (scan_task w.now) rows), w)

abbrev pub named : Option TagRow → Option String
named = Option.map (λ (r : TagRow). r.name)

abbrev pub find_tag : List TagRow → Option String → Option TagRow
find_tag tags none = none
find_tag tags (some id) = find (tag_id_is id) tags

-- `custom_tag ct ON t.tag_id = ct.tag_id AND ct.user_id = …`
abbrev pub find_tag_of : String → List TagRow → Option String → Option TagRow
find_tag_of user tags none = none
find_tag_of user tags (some id) = find (λ (r : TagRow). r.tag_id == id && r.user_id == user) tags

abbrev pub or_blank : Option String → String
or_blank none = ""
or_blank (some s) = s

-- COALESCE(ct.name, dt.name, '') in the lists of the administrator
abbrev pub with_tag : Tables → TaskRow → Listed
with_tag t r = (
  r,
  some (
      or_blank (
        named (
          or_else (find_tag_of r.user_id t.custom_tags r.tag_id)
            (find_tag t.default_tags r.tag_id)))),
)

-- ORDER BY created_at DESC
unfoldable pub insert_newest : TaskRow → List TaskRow → List TaskRow
insert_newest r [] = r ∷ []
insert_newest r (q ∷ rest) =
    let later = insert_newest r rest in
    if leb q.created_at r.created_at then r ∷ q ∷ rest else q ∷ later

unfoldable pub newest_first : List TaskRow → List TaskRow
newest_first [] = []
newest_first (r ∷ rest) = insert_newest r (newest_first rest)

-- The code of a status in FindAllFiltered.
abbrev pub filter_code : String → String
filter_code status =
    if status == "in_progress" then "2" else if status == "completed" then "3" else "1"

-- The tasks of FindByUser: those of the user, without those whose deletion the user acknowledged.
abbrev pub is_shown_to : String → TaskRow → Bool
is_shown_to user r = r.user_id == user && not (or_false r.admin_deleted && or_false r.user_ack)

-- COALESCE(ct.name, dt.name) with `custom_tag ct ON t.tag_id = ct.tag_id`
abbrev pub with_any_tag : Tables → TaskRow → Listed
with_any_tag t r =
    (r, named (or_else (find_tag t.custom_tags r.tag_id) (find_tag t.default_tags r.tag_id)))

-- buildOrderBy
unfoldable pub build_order_by : Options → String
build_order_by o = if o.fields == "" then "" else o.fields <> " " <> o.order

abbrev pub has_tag : String → TaskRow → Bool
has_tag id r = elim r.tag_id [ none ↦ false | some i ↦ i == id ]

abbrev pub matches : String → (String → Bool) → Bool
matches value test = value == "" || test value

module _ (pg : Platform) where
  abbrev with_id {ℓ} : {A : Type ℓ} → String → (String → A) → Tables → Option (A × Tables)
  with_id s f t = and_then (pg.uuid s) λ id. some (f id, t)

  unfoldable pub select_task : String → ℕ → ℕ → Tables → Option (Option Task × Tables)
  select_task task now n t =
      with_id task
        (λ id.
          Option.map
            (λ (r : TaskRow). record (model_to_entity now t r) {
              reminder_60m_sent_at = r.reminder_60m_sent_at;
              reminder_15m_sent_at = r.reminder_15m_sent_at;
              reminder_5m_sent_at = r.reminder_5m_sent_at;
            })
            (find (has_task_id id) t.tasks))
        t

  unfoldable pub select_subtasks : String → ℕ → ℕ → Tables → Option (List Subtask × Tables)
  select_subtasks task now n t =
      with_id task
        (λ id. map subtask_model_to_entity (order_by_num (select (is_of_task id) t.subtasks))) t

  -- An error of the second query leaves the task without subtasks.
  abbrev pub with_subtasks :
      Task → Result (List Subtask) × World Tables → Result Task × World Tables
  with_subtasks task (ok subtasks, w) = (ok (record task { subtasks = subtasks }), w)
  with_subtasks task (err e, w) = (ok task, w)

  unfoldable pub find_by_id : String → Exec Tables Task
  find_by_id id = do
    found ← sql "find task" (select_task id)
    task ← scan_row "no rows" found
    λ w. with_subtasks task (sql "find subtasks" (select_subtasks id) w)

  unfoldable pub find_all : Exec Tables (List TaskList)
  find_all =
      sql "query FindAll" (λ now n t. some (map (with_tag t) (newest_first t.tasks), t))
      >>= scan_tasks

  -- The WHERE of FindAllFiltered; none where a bound is no time.
  unfoldable pub filtered : String → String → String → String → List TaskRow → Option (List TaskRow)
  filtered from to status priory rows =
      let kept = λ (low high : ℕ).
        select
          (λ (r : TaskRow).
            (from == "" || leb low r.created_at)
            && ((to == "" || leb r.created_at high)
                && (matches status (λ s. r.status == filter_code s)
                    && matches priory (λ p. r.priory == p))))
          rows in
      and_then (if from == "" then some 0 else pg.timestamp from)
        λ low. and_then (if to == "" then some 0 else pg.timestamp to) λ high. some (kept low high)

  unfoldable pub find_all_filtered : String → String → String → String → Exec Tables (List TaskList)
  find_all_filtered from to status priory =
      sql "query FindAllFiltered" (λ now n t.
        and_then (filtered from to status priory t.tasks)
          λ rows. some (map (with_tag t) (newest_first rows), t))
      >>= scan_tasks

  -- FindByTag: rows with the tag, joined with the user's tags and with the default tags; one of the
  -- joins has to meet a row.
  unfoldable pub select_by_tag : String → String → ℕ → ℕ → Tables → Option (List Listed × Tables)
  select_by_tag user tag now n t = and_then (pg.uuid user) λ u. and_then (pg.uuid tag) λ id.
      let own = find (λ (r : TagRow). r.tag_id == id && r.user_id == u) t.custom_tags in
      let common = find (tag_id_is id) t.default_tags in
      let rows = select (has_tag id) t.tasks in
      some (
        if is_some own || is_some common
            then map (λ r. (r, named (or_else own common))) rows
            else [],
        t,
      )

  unfoldable pub find_by_tag : String → String → Exec Tables (List TaskList)
  find_by_tag user tag = sql "query FindByTag" (select_by_tag user tag) >>= scan_tasks

  -- `refine clauses order rows` is what PostgreSQL makes of the rows by the clauses of the filters
  -- and the text after ORDER BY, which are texts of the request; none where the query fails.
  module _ (parse_time : String → Option ℕ)
      (refine : Where → String → List Listed → Option (List Listed)) where
    unfoldable pub select_of_user :
        String → Where → String → ℕ → ℕ → Tables → Option (List Listed × Tables)
    select_of_user user clauses order now n t = and_then (pg.uuid user) λ u.
        and_then (refine clauses order (map (with_any_tag t) (select (is_shown_to u) t.tasks)))
          λ rows. some (rows, t)

    -- A slice of the arguments that is out of range is a panic, none.
    unfoldable pub find_with : String → String → Option Where → Exec Tables (Option (List TaskList))
    find_with user order none = pure none
    find_with user order (some clauses) = do
      rows ← sql "query FindByUser" (select_of_user user clauses order)
      tasks ← scan_tasks rows
      pure (some tasks)

    unfoldable pub find_by_user :
        String → Options → List Field → Exec Tables (Option (List TaskList))
    find_by_user user o fs =
        let built = build_filter_conditions parse_time fs in
        find_with user (build_order_by o) (attach built.conditions built.args)
