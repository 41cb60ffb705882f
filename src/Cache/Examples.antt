-- ===== src/Cache/Examples.antt =====
-- Runs of the cache at concrete requests, and the theorems applied to them.
use tasks_service.Prelude.{
  ℕ, String, Option, nat_eq, ◌≡◌, ◌≢◌, refl, inl, false, none, some, List, [], ◌∷◌, ◌==◌, map, any,
  split, cut, if◌then◌else◌,
}
use tasks_service.Tasks.Reads.{TaskList}
use tasks_service.Tasks.Domain.{Task, new_status}
use tasks_service.Cache.Specification.{Stored, Runs}
use tasks_service.Cache.Refinement.{trace, serve-Refines}
use tasks_service.Cache.{
  get_task, set_task, get_list, set_list, invalidate_user_lists, user_list_key, delete_task,
}
use tasks_service.Cache.Entries.{
  to_cache_task, from_cache_task, to_cache_list_task, from_cache_list_task,
}
use tasks_service.Cache.Redis.{
  first, Keys, Server, pipeline, get, smembers, delete_keys, run_all, effect, del, members,
}
use tasks_service.Cache.Requests.{
  cache_task, Request, cache_list, drop_task, wait, list_key, perform, serve,
}
use tasks_service.Cache.Tracking.Gone.{empty, invalidated_lists_gone}
use tasks_service.Cache.Tracking.Race.{answering, race, raced_list_survives}

abbrev pack : TaskList
pack = record {
  id = "t1";
  title = "pack";
  description = "all";
  status = "0";
  priory = "green";
  due_date = 5;
  user_id = "u1";
  tag_id = none;
  tag_name = none;
  admin_deleted = false;
  admin_deleted_at = none;
}

abbrev asked : List Request
asked =
    cache_list "u1" (pack ∷ []) ∷ wait 7 ∷ cache_list "u2:page:1" (pack ∷ []) ∷ drop_task "t1" ∷ []

abbrev served : Server
served = serve asked (empty (λ n. none) 0)

-- The list is there before the invalidation.
served_test :
    (get_list (list_key "u1") served).0 ≡ some (some (record pack { description = "" } ∷ []))
unfolding get_list get serve perform set_list pipeline run_all effect user_list_key split cut any
    delete_task delete_keys del
served_test = refl

invalidated_lists_gone_example :
    (get_list (list_key "u1") (invalidate_user_lists "u1" served).1).0 ≢ some (some (pack ∷ []))
unfolding get_list get serve perform set_list pipeline run_all effect user_list_key split cut any
    invalidate_user_lists smembers delete_keys del delete_task
invalidated_lists_gone_example =
    invalidated_lists_gone "u1" asked (λ n. none) 0 (pack ∷ []) (λ n. inl refl) refl

-- The set of the user names one list, and another is cached meanwhile.
abbrev one_list : Keys
one_list k =
    if k == "user_list_keys:u1"
    then some (record { value = members (list_key "u1:page:1" ∷ []); expires = none })
    else none

raced_list_survives_example :
    let (ok, raced) = race "u1" (pack ∷ []) (answering one_list 0 9) in
    let (ok_again, after) = invalidate_user_lists "u1" raced in
    (ok ≡ some tt)
    × (ok_again ≡ some tt)
    × ((get_list (list_key "u1") after).0
        ≡ some (some (map from_cache_list_task (map to_cache_list_task (pack ∷ [])))))
unfolding smembers any split cut
raced_list_survives_example =
    raced_list_survives "u1" (pack ∷ []) (list_key "u1:page:1" ∷ []) one_list 0 9 refl refl refl

abbrev trip : Task
trip = record {
  id = "t1";
  title = "trip";
  description = "";
  priority = "red";
  status = "in_progress";
  due_date = 5;
  user_id = "u1";
  tag_id = none;
  tag_name = "";
  created_at = 0;
  subtasks = [];
  reminder_60m_sent_at = none;
  reminder_15m_sent_at = none;
  reminder_5m_sent_at = none;
}

-- The connection of the second call fails after one command.
abbrev breaking : ℕ → Option ℕ
breaking n = if nat_eq n 1 then some 1 else none

abbrev put_and_dropped : List Request
put_and_dropped =
    cache_task trip ∷ cache_task (record trip { title = "tour" }) ∷ drop_task "t2" ∷ wait 7 ∷ []

tour_test :
    (get_task "t1" (serve put_and_dropped (empty breaking 0))).0
    ≡ some (record trip { title = "tour" })
unfolding get_task get serve perform set_task delete_task delete_keys del pipeline run_all first
    effect any to_cache_task from_cache_task new_status
tour_test = refl

serve-Refines_example :
    (m' : Stored) × Runs (trace put_and_dropped (empty breaking 0)) (λ id. none) m'
    × ((id : String) (t : Task)
        → (get_task id (serve put_and_dropped (empty breaking 0))).0 ≡ some t
        → (s : Task) × (m' id ≡ some s) × (t ≡ from_cache_task (to_cache_task s)))
serve-Refines_example = serve-Refines put_and_dropped (λ id. none) (empty breaking 0) (λ id. tt)
