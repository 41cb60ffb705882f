-- ===== src/SharedTasks/Examples.antt =====
-- Runs of the requests on shared tasks at concrete tables, and the theorems applied to them.
use tasks_service.Prelude.{
  ℕ, zero, suc, ◌≡◌, ◌≢◌, refl, Bool, true, false, String, Option, none, some, List, [], ◌∷◌, ◌==◌,
  eq_iff, All, find, any, count, update_where, if◌then◌else◌,
}
use tasks_service.Database.{World, ok, Error, Platform, already_handled, sql, transaction, ◌>>=◌}
use tasks_service.SharedTasks.Domain.{
  SubtaskInput, SharedSubtask, UpdateInput, validate_subtasks_for_proposal,
}
use tasks_service.SharedTasks.Tables.{Tables, TaskRow, SubtaskRow}
use tasks_service.SharedTasks.Repository
use tasks_service.SharedTasks.Repository.Statements.{
  by_participant, read_due, insert_task, insert_subtask, set_status, counter_task, select_task,
  delete_task,
}
use tasks_service.SharedTasks.Service
use tasks_service.SharedTasks.Requests.{Request, propose, accept, reject, perform, serve}
use tasks_service.SharedTasks.Atomicity.{failed_request_unchanged}
use tasks_service.SharedTasks.Invariant.{serve-IsWellFormed}
use tasks_service.SharedTasks.Invariant.Rows.{IsWellFormed, HasTwoUsers}
use tasks_service.SharedTasks.Lifecycle.{perform-Edge}
use tasks_service.SharedTasks.Lifecycle.Rows.{Edge, status_of}
use tasks_service.SharedTasks.Validation.{is_assigned_to, validate_subtasks_for_proposal_lem}
use tasks_service.SharedTasks.Negotiation.{respond_once, counter_then_respond}
use tasks_service.SharedTasks.Proposal.{self_task_stored}
use tasks_service.SharedTasks.Assignees.{is_for, propose_assigns_both}
use tasks_service.SharedTasks.Deletion.{IsDeleted, delete_lem, delete_respelled}

-- Ids are read as they are, but for one that has a second spelling; the empty text is no id.
abbrev sample_uuid : String → Option String
sample_uuid s = if s == "" then none else if s == "U2" then some "u2" else some s

abbrev sample_id : ℕ → String
sample_id zero = "g0"
sample_id (suc zero) = "g1"
sample_id (suc (suc zero)) = "g2"
sample_id _ = "g3"

abbrev sample : Platform
sample = record {
  uuid = sample_uuid;
  timestamp = λ s. none;
  gen_uuid = sample_id;
  parse_uuid = λ s. true;
}

abbrev at_rest : Tables → World Tables
at_rest t = record { tables = t; calls = 0; fails = λ n. false; now = 100 }

abbrev no_rows : Tables
no_rows = record { tasks = []; subtasks = []; names = λ s. none }

abbrev offer : TaskRow
offer = record {
  id = "t1";
  proposer_id = "u1";
  addressee_id = "u2";
  title = "trip";
  description = "";
  priority = "red";
  due_date = none;
  status = "pending";
  created_at = 7;
  updated_at = 7;
  admin_deleted = some false;
  admin_deleted_at = none;
  user_ack = some false;
}

abbrev pack : SubtaskRow
pack = record {
  id = "s1";
  shared_task_id = "t1";
  title = "pack";
  assignee_id = "u2";
  is_done = false;
  order_num = 0;
}

abbrev one_offer : Tables
one_offer = record { tasks = offer ∷ []; subtasks = pack ∷ []; names = λ s. none }

abbrev parts : String → String → List SubtaskInput
parts p a =
    record { title = "tickets"; assignee_id = p } ∷ record { title = "hotel"; assignee_id = a } ∷ []

users_differ : ◌≢◌ {A = String} "u1" "u2"
users_differ h = cc ((eq_iff "u1" "u2").1 h)

spellings_differ : ◌≢◌ {A = String} "U2" "u2"
spellings_differ h = cc ((eq_iff "U2" "u2").1 h)

-- There is no task t2 to accept.
failed_request_unchanged_example :
    (perform sample (accept "t2" "u2") (at_rest one_offer)).1.tables ≡ one_offer
unfolding perform Service.accept Repository.respond sql ◌>>=◌ set_status count update_where
failed_request_unchanged_example =
    failed_request_unchanged sample (accept "t2" "u2") (at_rest one_offer) already_handled refl

abbrev script : List Request
script =
    propose "u1" "u2" "trip" "" "" "" (parts "u1" "u2") ∷ accept "g1" "u2" ∷ reject "g1" "u2" ∷ []

serve-IsWellFormed_example : IsWellFormed (serve sample script (at_rest no_rows)).tables
serve-IsWellFormed_example =
    serve-IsWellFormed sample script (at_rest no_rows) ((refl, refl), (tt, (tt, tt)))
      (record { distinct_ids = tt; two_users = tt; valid_status = tt; owned = tt })

perform-Edge_example :
    Edge
      (some "pending")
      (status_of "t1" (perform sample (accept "t1" "u2") (at_rest one_offer)).1.tables.tasks)
unfolding find any
perform-Edge_example = perform-Edge sample "t1" (accept "t1" "u2") (at_rest one_offer) (refl, tt)

validate_subtasks_for_proposal_lem_example :
    validate_subtasks_for_proposal "u1" "u2" (record { assignee_id = "u1" } ∷ []) ≡ (
      if any (is_assigned_to "u1") (record { assignee_id = "u1" } ∷ [])
      then if any (is_assigned_to "u2") (record { assignee_id = "u1" } ∷ [])
        then none
        else some Error.no_friend_subtask
      else some Error.no_own_subtask)
validate_subtasks_for_proposal_lem_example =
    validate_subtasks_for_proposal_lem "u1" "u2" (record { assignee_id = "u1" } ∷ [])

respond_once_example :
    (Repository.respond sample "t1" "u2" "rejected"
      (Repository.respond sample "t1" "u2" "accepted" (at_rest one_offer)).1).0
    ≢ ok tt
unfolding Repository.respond sql ◌>>=◌ set_status count update_where any
respond_once_example =
    respond_once sample "t1" "u2" "u2" "accepted" "rejected" (at_rest one_offer) (refl, tt)
      (λ h. cc) refl

abbrev revision : UpdateInput
revision = record {
  title = "trip";
  description = "longer";
  priority = "blue";
  due_date = "";
  subtasks = none;
}

-- The counter-proposal in the second spelling of the addressee's id.
counter_then_respond_example :
    (Repository.respond sample "t1" "u2" "accepted"
      (Repository.counter_propose sample "t1" "U2" revision (at_rest one_offer)).1).0
    ≢ ok tt
unfolding Repository.counter_propose Repository.replace_subtasks transaction sql ◌>>=◌ counter_task
    read_due count update_where any
counter_then_respond_example =
    counter_then_respond sample "t1" "U2" "t1" "u2" "accepted" revision (at_rest one_offer)
      (users_differ, tt) refl refl refl

abbrev packed : Bool → SharedSubtask
packed b = record {
  id = "s1";
  shared_task_id = "t1";
  title = "pack";
  assignee_id = "u2";
  assignee_name = "";
  is_done = b;
  order = 0;
}

-- "U2" and "u2" are one user, who makes a proposal to himself.
self_task_stored_example :
    ((Service.propose sample "u2" "U2" "trip" "" "" "" (parts "u2" "U2") (at_rest no_rows)).0
      ≡ ok "g1")
    × ¬ All HasTwoUsers
        (Service.propose sample "u2" "U2" "trip" "" "" ""
          (parts "u2" "U2")
          (at_rest no_rows)).1.tables.tasks
unfolding Service.propose Service.candidates Repository.propose Repository.insert_subtasks
    transaction sql ◌>>=◌ insert_task insert_subtask read_due validate_subtasks_for_proposal any
self_task_stored_example =
    self_task_stored sample "u2" "U2" "trip" "" "" "" (parts "u2" "U2") (at_rest no_rows) "g1" refl
      refl refl refl

propose_assigns_both_example :
    (any
        (is_for "g1" "u1")
        (Service.propose sample "u1" "u2" "trip" "" "" ""
          (parts "u1" "u2")
          (at_rest no_rows)).1.tables.subtasks
      ≡ true)
    × (any
          (is_for "g1" "u2")
          (Service.propose sample "u1" "u2" "trip" "" "" ""
            (parts "u1" "u2")
            (at_rest no_rows)).1.tables.subtasks
        ≡ true)
unfolding Service.propose Service.candidates Repository.propose Repository.insert_subtasks
    transaction sql ◌>>=◌ insert_task insert_subtask read_due validate_subtasks_for_proposal any
propose_assigns_both_example =
    propose_assigns_both sample "u1" "u2" "trip" "" "" "" (parts "u1" "u2") (at_rest no_rows) "g1"
      "u1" "u2" refl refl refl refl refl

delete_lem_example :
    (row : TaskRow) × (find (by_participant "t1" "u1") one_offer.tasks ≡ some row)
    × ¬ ((row.status ≡ "pending") × (row.addressee_id ≡ "u1"))
    × IsDeleted "t1" "u1" (Repository.delete sample "t1" "u1" (at_rest one_offer)).1.tables
    × (◌≡◌ {A = String × String} ("", "") (Repository.notice "u1" row))
unfolding Repository.delete Repository.delete_found sql ◌>>=◌ select_task delete_task find count
delete_lem_example = delete_lem sample "t1" "u1" "t1" (at_rest one_offer) ("", "") refl refl refl

delete_respelled_example :
    ((Repository.delete sample "t1" "U2" (at_rest one_offer)).0 ≡ ok ("", ""))
    × IsDeleted "t1" "u2" (Repository.delete sample "t1" "U2" (at_rest one_offer)).1.tables
unfolding find
delete_respelled_example =
    delete_respelled sample "t1" "U2" "t1" "u2" (at_rest one_offer) offer refl refl spellings_differ
      refl refl refl refl refl
