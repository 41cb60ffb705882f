-- ===== src/Cache/Tracking/Race.antt =====
-- Two clients of app/internal/tasks/repository/redis/redis.go: one invalidates the lists of a user
-- while the other caches one.
use tasks_service.Prelude.{
  ℕ, ◌≡◌, refl, true, false, String, Option, none, some, List, [], ◌∷◌, ◌++◌, map, arith, eq_iff,
  eq_refl, any-append_last, ◌==◌, any, is_empty, suc, ltb, ◌+◌, ◌*◌,
}
use tasks_service.Cache.Tracking.{entry}
use tasks_service.Cache.Tracking.Members.{map_same}
use tasks_service.Tasks.Reads.{TaskList}
use tasks_service.Cache.Entries.{CacheListTask, to_cache_list_task, from_cache_list_task}
use tasks_service.Cache.{
  hour, list_keys_of, get_list, delete_members, invalidate_user_lists, set_list,
}
use tasks_service.Cache.Redis.{
  json_list, run, set, sadd, expire, contains, del, Keys, Server, pipeline, smembers, get,
  delete_keys, run_all, effect,
}
use tasks_service.Cache.Requests.{list_key}
use tasks_service.Cache.Tracking.Commands.{del_lem}
use tasks_service.Cache.Tracking.KeyNames.{
  owner, user_list_key_lem, list_key-is_data_key, list_keys_of-is_tracking, data_key-not_tracking,
}

-- A server that answers every call.
abbrev pub answering : Keys → ℕ → ℕ → Server
answering keys calls now = record { keys = keys; calls = calls; cut = λ n. none; now = now }

-- Between SMEMBERS and DEL of one client's InvalidateUserLists, the SetList of another.
abbrev pub race : String → List TaskList → Server → Option (Unit {0}) × Server
race rest tasks w =
    let (ms, seen) = smembers (list_keys_of (owner rest)) w in
    delete_members (λ k. k) (list_keys_of (owner rest))
      (ms, (set_list (list_key rest) tasks seen).1)

-- What SetList leaves.
abbrev listed : String → List TaskList → ℕ → Keys → Keys
listed rest tasks now keys = run now (expire (list_keys_of (owner rest)) (25 * hour)) (
    run now (sadd (list_keys_of (owner rest)) (list_key rest))
      (run now (set (list_key rest) (json_list (map to_cache_list_task tasks)) (24 * hour)) keys))

race_lem :
    (rest : String) (tasks : List TaskList) (ms : List String) (keys : Keys) (calls now : ℕ)
    → (smembers (list_keys_of (owner rest)) (answering keys calls now)).0 ≡ some ms
    → is_empty ms ≡ false
    → race rest tasks (answering keys calls now) ≡ (
      some tt,
      answering
          (del (ms ++ list_keys_of (owner rest) ∷ []) (listed rest tasks now keys))
          (suc (suc (suc calls)))
          now,
    )
unfolding smembers set_list pipeline delete_keys run_all
race_lem rest tasks ms keys calls now e full =
    rw (e, full, map_same ms, user_list_key_lem rest) refl

-- With no set there is nothing to invalidate.
invalidate-untracked :
    (user : String) (keys : Keys) (calls now : ℕ)
    → keys (list_keys_of user) ≡ none
    → invalidate_user_lists user (answering keys calls now)
      ≡ (some tt, answering keys (suc calls) now)
unfolding smembers invalidate_user_lists
invalidate-untracked user keys calls now gone = rw gone refl

get_list-live :
    (key : String) (l : List CacheListTask) (t : ℕ) (keys : Keys) (calls now : ℕ)
    → keys key ≡ entry (json_list l) (some t)
    → ltb now t ≡ true
    → (get_list key (answering keys calls now)).0 ≡ some (some (map from_cache_list_task l))
unfolding get_list get
get_list-live key l t keys calls now there late = rw (there, late) refl

append-lacks :
    (k s : String) (ms : List String)
    → contains k ms ≡ false
    → (s == k) ≡ false
    → contains k (ms ++ s ∷ []) ≡ false
unfolding any
append-lacks k s [] h d = ground arith
append-lacks k s (m ∷ ms) h d = ground (arith, append-lacks k s ms)

set_differs : (rest user : String) → (list_keys_of user == list_key rest) ≡ false
set_differs rest user = ground (
  arith,
  eq_iff (list_keys_of user) (list_key rest),
  list_keys_of-is_tracking user,
  data_key-not_tracking (list_key rest) (list_key-is_data_key rest),
)

listed_key :
    (rest : String) (tasks : List TaskList) (now : ℕ) (keys : Keys)
    → listed rest tasks now keys (list_key rest)
      ≡ entry (json_list (map to_cache_list_task tasks)) (some (now + 24 * hour))
unfolding effect
listed_key rest tasks now keys = ground (
  arith,
  eq_iff (list_key rest) (list_keys_of (owner rest)),
  eq_iff (list_keys_of (owner rest)) (list_key rest),
  set_differs rest (owner rest),
  eq_refl (list_key rest),
)

raced_keys :
    (rest : String) (tasks : List TaskList) (ms : List String) (keys : Keys) (now : ℕ)
    → contains (list_key rest) ms ≡ false
    → (del
          (ms ++ list_keys_of (owner rest) ∷ [])
          (listed rest tasks now keys)
          (list_keys_of (owner rest))
        ≡ none)
      × (del (ms ++ list_keys_of (owner rest) ∷ []) (listed rest tasks now keys) (list_key rest)
          ≡ entry (json_list (map to_cache_list_task tasks)) (some (now + 24 * hour)))
unfolding effect
raced_keys rest tasks ms keys now other = (
  rw
      (
        del_lem (ms ++ list_keys_of (owner rest) ∷ []) (listed rest tasks now keys)
            (list_keys_of (owner rest)),
        any-append_last (λ j. j == list_keys_of (owner rest)) ms (list_keys_of (owner rest))
            (eq_refl (list_keys_of (owner rest))),
      )
      refl,
  rw
      (
        del_lem (ms ++ list_keys_of (owner rest) ∷ []) (listed rest tasks now keys) (list_key rest),
        append-lacks (list_key rest) (list_keys_of (owner rest)) ms other
            (set_differs rest (owner rest)),
      )
      (listed_key rest tasks now keys),
)

-- On a server that answers every call: where SMEMBERS finds some keys of a user's lists without a
-- certain one, and another client caches a list under that one before DEL, then InvalidateUserLists
-- returns no error, and neither does a further one, and GetList still finds the list after both.
pub raced_list_survives :
    (rest : String) (tasks : List TaskList) (ms : List String) (keys : Keys) (calls now : ℕ)
    → (smembers (list_keys_of (owner rest)) (answering keys calls now)).0 ≡ some ms
    → is_empty ms ≡ false
    → contains (list_key rest) ms ≡ false
    → let (ok, raced) = race rest tasks (answering keys calls now) in
      let (ok_again, after) = invalidate_user_lists (owner rest) raced in
      (ok ≡ some tt)
      × (ok_again ≡ some tt)
      × ((get_list (list_key rest) after).0
          ≡ some (some (map from_cache_list_task (map to_cache_list_task tasks))))
raced_list_survives rest tasks ms keys calls now e full other =
    let (gone, there) = raced_keys rest tasks ms keys now other in
    rw
      (
        race_lem rest tasks ms keys calls now e full,
        invalidate-untracked (owner rest) _ (suc (suc (suc calls))) now gone,
      )
      (refl, refl, get_list-live (list_key rest) _ _ _ _ now there (ground arith))
