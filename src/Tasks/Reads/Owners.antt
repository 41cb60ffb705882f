-- ===== src/Tasks/Reads/Owners.antt =====
-- Whose tasks the lists of app/internal/tasks/repository/postgres/postgres.go hold.
use tasks_service.Prelude.{
  ℕ, ◌≡◌, sym, ap, ◌∙◌, true, String, Option, some, List, map, select, All, All-map, All-compose,
  subst, All-select_test, &&-eq-true, of_some, >>=-eq-some, eq_iff,
}
use tasks_service.Database.{Platform, World, Result, ok, sql, ◌>>=◌}
use tasks_service.Database.Inversion.{sql_ok, bind_ok, of_ok}
use tasks_service.Api.Sort.{Options}
use tasks_service.Api.Filter.{Field}
use tasks_service.Tasks.Tables.{Tables, TaskRow}
use tasks_service.Tasks.Filters.{Where}
use tasks_service.Tasks.Filters.Marks.{clauses, attach-build_filter_conditions}
use tasks_service.Tasks.Reads.{
  TaskList, Listed, scan_task, is_shown_to, with_any_tag, build_order_by, select_of_user, find_with,
  find_by_user,
}

-- The rows that PostgreSQL returns are among those that it chooses from.
abbrev pub IsRefinement : (Where → String → List Listed → Option (List Listed)) → Type 1
IsRefinement refine =
    (P : Listed → Type 0) (clauses : Where) (order : String) (rows kept : List Listed)
    → refine clauses order rows ≡ some kept
    → All P rows
    → All P kept

abbrev pub IsOwn : String → TaskList → Type 0
IsOwn user t = t.user_id ≡ user

-- The task and its owner.
abbrev pub owner_of : TaskList → String × String
owner_of t = (t.id, t.user_id)

abbrev pub row_owner : TaskRow → String × String
row_owner r = (r.task_id, r.user_id)

module _ (pg : Platform) where
  module _ (parse_time : String → Option ℕ)
      (refine : Where → String → List Listed → Option (List Listed)) where
    abbrev Owned : String → Listed → Type 0
    Owned u r = r.0.user_id ≡ u

    shown_own :
        (u : String) (t : Tables)
        → All (Owned u) (map (with_any_tag t) (select (is_shown_to u) t.tasks))
    shown_own u t = All-compose (Owned u) (with_any_tag t) (select (is_shown_to u) t.tasks) (
        All-map (λ (r : TaskRow). is_shown_to u r ≡ true) (λ (r : TaskRow). r.user_id ≡ u)
          (select (is_shown_to u) t.tasks) (λ r h. (eq_iff r.user_id u).0 (&&-eq-true _ _ h).0)
          (All-select_test (is_shown_to u) t.tasks))

    selected_own :
        (user u order : String) (clauses : Where) (now n : ℕ) (t t' : Tables) (rows : List Listed)
        → IsRefinement refine
        → pg.uuid user ≡ some u
        → select_of_user pg parse_time refine user clauses order now n t ≡ some (rows, t')
        → All (Owned u) rows
    unfolding select_of_user
    selected_own user u order clauses now n t t' rows keeps e h =
        let (id, e', h1) = >>=-eq-some (pg.uuid user) _ h in
        let (kept, f, h2) = >>=-eq-some (refine clauses order _) _ h1 in
        let same = ap (λ (p : List Listed × Tables). p.0) (of_some h2) in
        subst (All (Owned u)) same (
          keeps (Owned u) clauses order _ kept f (
            subst
              (λ (i : String).
                All (Owned u) (map (with_any_tag t) (select (is_shown_to i) t.tasks)))
              (of_some (sym e ∙ e')) (shown_own u t)))

    -- For an id of a user that is a uuid, and a database that only chooses among the rows and
    -- orders them: FindByUser, when it succeeds, returns a list of tasks, all of them of the user,
    -- whatever the filters and the order of the request are; it never panics.
    pub find_by_user-IsOwn :
        (user u : String) (o : Options) (fs : List Field) (w : World Tables)
        (r : Option (List TaskList))
        → IsRefinement refine
        → pg.uuid user ≡ some u
        → (find_by_user pg parse_time refine user o fs w).0 ≡ ok r
        → (tasks : List TaskList) × (r ≡ some tasks) × All (IsOwn u) tasks
    unfolding find_by_user find_with ◌>>=◌
    find_by_user-IsOwn user u o fs w r keeps e =
        rw (attach-build_filter_conditions parse_time fs) λ h.
          let (rows, h1, same) = bind_ok (sql "query FindByUser" _) _ w r h in
          let listed =
            of_ok
              (ap (λ (p : Result (Option (List TaskList)) × World Tables). p.0) (sym same) ∙ h) in
          (
            map (scan_task _) rows,
            sym listed,
            All-compose (IsOwn u) (scan_task _) rows (
                selected_own user u (build_order_by o) (clauses parse_time fs) w.now w.calls
                  w.tables _ rows keeps e (sql_ok "query FindByUser" _ w rows h1)),
          )
