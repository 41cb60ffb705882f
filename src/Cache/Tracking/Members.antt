-- ===== src/Cache/Tracking/Members.antt =====
-- What the members of a set of list keys can be: app/internal/tasks/repository/redis/redis.go.
use tasks_service.Prelude.{
  ℕ, ◌≡◌, refl, ap, true, false, ◌==◌, String, Option, none, some, List, [], ◌∷◌, ◌++◌, map, any,
  arith, eq_iff, is_empty,
}
use tasks_service.Cache.{task_key}
use tasks_service.Cache.Redis.{
  Value, json_task, json_list, members, Entry, if_live, members_of, contains,
}
use tasks_service.Cache.Tracking.{entry, is_key_set, all_data_keys, is_held, is_tracking}
use tasks_service.Cache.Tracking.KeyNames.{task_key-is_data_key}

-- A live set that holds a key has it among its members.
entry-held_member :
    (now t : ℕ) (k : String) (v : Value) (x : Option ℕ) (ms : List String)
    → members_of (if_live now (entry v x)) ≡ some ms
    → is_empty ms ≡ false
    → is_held k t (entry v x) ≡ true
    → contains k ms ≡ true
entry-held_member now t k (members js) x ms e full h = ground arith
entry-held_member now t k (json_task c) x ms e full h = cc
entry-held_member now t k (json_list l) x ms e full h = cc

pub held_member :
    (now t : ℕ) (k : String) (b : Option Entry) (ms : List String)
    → members_of (if_live now b) ≡ some ms
    → is_empty ms ≡ false
    → is_held k t b ≡ true
    → contains k ms ≡ true
held_member now t k none ms e full h = cc
held_member now t k (some b) ms e full h = entry-held_member now t k b.value b.expires ms e full h

entry-data_members :
    (now : ℕ) (v : Value) (x : Option ℕ) (ms : List String)
    → is_key_set (entry v x) ≡ true
    → members_of (if_live now (entry v x)) ≡ some ms
    → all_data_keys ms ≡ true
unfolding all_data_keys
entry-data_members now (members js) x ms h e = ground arith
entry-data_members now (json_task c) x ms h e = cc
entry-data_members now (json_list l) x ms h e = cc

pub data_members :
    (now : ℕ) (b : Option Entry) (ms : List String)
    → is_key_set b ≡ true
    → members_of (if_live now b) ≡ some ms
    → all_data_keys ms ≡ true
unfolding all_data_keys
data_members now none ms h e = ground arith
data_members now (some b) ms h e = entry-data_members now b.value b.expires ms h e

-- Among keys of data and one other key, the key of a set can only be that one.
pub contains-data_keys :
    (s x : String) (ms : List String)
    → all_data_keys ms ≡ true
    → is_tracking s ≡ true
    → contains s (ms ++ x ∷ []) ≡ (x == s)
unfolding all_data_keys any
contains-data_keys s x [] h t = ground arith
contains-data_keys s x (m ∷ ms) h t = ground (arith, eq_iff m s, contains-data_keys s x ms)

pub task_keys-data_keys : (ids : List String) → all_data_keys (map task_key ids) ≡ true
unfolding all_data_keys
task_keys-data_keys [] = refl
task_keys-data_keys (id ∷ ids) = ground (arith, task_key-is_data_key id, task_keys-data_keys ids)

pub map_same : (ms : List String) → map (λ k. k) ms ≡ ms
map_same [] = refl
map_same (m ∷ ms) = ap (◌∷◌ m) (map_same ms)
