-- ===== src/Tasks/Reads/Examples.antt =====
-- Runs of FindByUser and FindByTag at concrete tables, and the theorems applied to them.
use tasks_service.Prelude.{
  ℕ, String, subst, of_some, ◌≡◌, refl, false, not, ◌==◌, Option, none, some, List, [], ◌∷◌, All,
  select, find, any, cut, split, if◌then◌else◌,
}
use tasks_service.Database.{Platform, World, sql, ◌>>=◌}
use tasks_service.Api.Sort.{Options}
use tasks_service.Api.Filter.{Field}
use tasks_service.Utils.Operator.{get_sql_operator}
use tasks_service.Tasks.Tables.{TaskRow, TagRow, Tables}
use tasks_service.Tasks.Filters.{
  Where, text, time, attach, build_filter_conditions, field_condition, sql_condition, parse_value,
  replace_marks,
}
use tasks_service.Tasks.Filters.Marks.{clauses, attach-build_filter_conditions}
use tasks_service.Tasks.Reads.{TaskList, Listed, find_by_user, find_with, select_of_user, scan_task}
use tasks_service.Tasks.Reads.Owners.{IsOwn, IsRefinement, find_by_user-IsOwn}

abbrev pg : Platform
pg = record {
  uuid = λ s. if s == "" then none else some s;
  timestamp = λ s. none;
  gen_uuid = λ n. "g";
  parse_uuid = λ s. not (s == "");
}

abbrev read_time : String → Option ℕ
read_time s = if s == "noon" then some 12 else none

-- One clause with an argument, one without a known operator, and one with two arguments.
abbrev wanted : List Field
wanted =
    record { name = "title"; value = "a"; operator = "like" }
    ∷ record { name = "status"; value = "2"; operator = "near" }
    ∷ record { name = "due_date"; value = "noon:night"; operator = "between" }
    ∷ []

abbrev wanted_clauses : Where
wanted_clauses =
    ("t.title ILIKE ?", text "%a%" ∷ [])
    ∷ ("t.due_date BETWEEN ? AND ?", time 12 ∷ text "night" ∷ [])
    ∷ []

wanted_test : clauses read_time wanted ≡ wanted_clauses
unfolding clauses field_condition sql_condition parse_value replace_marks get_sql_operator any split
    cut
wanted_test = refl

attach-build_filter_conditions_example :
    attach
      (build_filter_conditions read_time wanted).conditions
      (build_filter_conditions read_time wanted).args
    ≡ some (clauses read_time wanted)
attach-build_filter_conditions_example = attach-build_filter_conditions read_time wanted

abbrev row : String → String → TaskRow
row id user = record {
  task_id = id;
  title = "trip";
  description = "";
  status = "2";
  priory = "red";
  due_date = 0;
  created_at = 7;
  user_id = user;
  tag_id = some "g1";
  admin_deleted = none;
  admin_deleted_at = none;
  user_ack = none;
  reminder_60m_sent_at = none;
  reminder_15m_sent_at = none;
  reminder_5m_sent_at = none;
}

abbrev work : TagRow
work = record { tag_id = "g1"; name = "work"; user_id = "" }

abbrev two_users : World Tables
two_users = record {
  tables = record {
    tasks = row "t1" "u1" ∷ row "t2" "u2" ∷ [];
    subtasks = [];
    default_tags = work ∷ [];
    custom_tags = [];
    outbox = [];
  };
  calls = 0;
  fails = λ n. false;
  now = 100;
}

-- A database that keeps all rows.
abbrev keep_all : Where → String → List Listed → Option (List Listed)
keep_all clauses order rows = some rows

keep_all-IsRefinement : IsRefinement keep_all
keep_all-IsRefinement P clauses order rows kept e all = subst (All P) (of_some e) all

abbrev by_title : Options
by_title = record { fields = "title"; order = "ASC" }

find_by_user-IsOwn_example :
    (tasks : List TaskList) × (some (scan_task 100 (row "t1" "u1", some "work") ∷ []) ≡ some tasks)
    × All (IsOwn "u1") tasks
unfolding find_by_user find_with select_of_user sql ◌>>=◌ build_filter_conditions attach
    field_condition any select find
find_by_user-IsOwn_example =
    find_by_user-IsOwn pg read_time keep_all "u1" "u1" by_title [] two_users _ keep_all-IsRefinement
      refl refl

-- Two users ask for the default tag, and both see the tasks of both.
abbrev seen : List TaskList
seen = scan_task 100 (row "t1" "u1", some "work") ∷ scan_task 100 (row "t2" "u2", some "work") ∷ []
