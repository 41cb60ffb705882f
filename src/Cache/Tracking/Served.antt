-- ===== src/Cache/Tracking/Served.antt =====
-- What requests on the cache keep: app/internal/tasks/repository/redis/redis.go.
use tasks_service.Prelude.{
  ℕ, ◌*◌, ◌≡◌, ◌⊎◌, refl, sym, ap, ◌∙◌, inl, inr, true, false, Bool-cases, ◌==◌, String, Option,
  none, some, List, [], ◌∷◌, ◌++◌, map, any-append_left, arith, eq_iff, of_some, is_empty,
}
use tasks_service.Tasks.Domain.{Task}
use tasks_service.Tasks.Reads.{TaskList}
use tasks_service.Cache.Entries.{CacheListTask, to_cache_list_task, to_cache_task}
use tasks_service.Cache.{
  hour, task_key, user_key, tag_key, list_keys_of, user_list_key, tag_command, set_task,
  delete_task, set_list, delete_members, invalidate_user_lists, invalidate_user_task_caches,
  invalidate_tag_tasks,
}
use tasks_service.Cache.Redis.{
  Command, set, sadd, expire, json_task, json_list, Keys, Server, live, members_of, run, run_all,
  del, first, after_call, pipeline, smembers, delete_keys,
}
use tasks_service.Cache.Requests.{
  Request, cache_task, drop_task, cache_list, drop_lists, drop_tasks, drop_tagged, wait, list_key,
  perform,
}
use tasks_service.Cache.Tracking.{IsTracked, is_data_key, is_tracking}
use tasks_service.Cache.Tracking.Commands.{
  set-IsTracked, sadd-IsTracked, expire-IsTracked, set_list-IsTracked, del-IsTracked,
  wait-IsTracked,
}
use tasks_service.Cache.Tracking.Members.{
  held_member, data_members, contains-data_keys, task_keys-data_keys, map_same,
}
use tasks_service.Cache.Tracking.KeyNames.{
  task_key-is_data_key, tag_key-is_data_key, list_key-is_data_key, list_keys_of-is_tracking,
  user_key-not_tracking, data_key-not_tracking, owner, user_list_key_lem,
}

-- Each call reaches the server as a whole or not at all.
abbrev pub IsWhole : Server → Type 0
IsWhole w = (n : ℕ) → (w.cut n ≡ none) ⊎ (w.cut n ≡ some 0)

-- The list under a key, beside the set of the keys of its user.
abbrev pub Tracked : String → Server → Type 0
Tracked rest w = IsTracked (list_key rest) (list_keys_of (owner rest)) w.now w.keys

module _ (rest : String) where
  abbrev k : String
  k = list_key rest

  abbrev s : String
  s = list_keys_of (owner rest)

  is_data : is_data_key k ≡ true
  is_data = list_key-is_data_key rest

  is_set : is_tracking s ≡ true
  is_set = list_keys_of-is_tracking (owner rest)

  abbrev Holds : ℕ → Keys → Type 0
  Holds = IsTracked k s

  -- What the commands of a pipeline keep, the pipeline keeps.
  pipeline-Tracked :
      (cs : List Command) (w : Server)
      → IsWhole w
      → (Holds w.now w.keys → Holds w.now (run_all w.now cs w.keys).1)
      → Tracked rest w
      → Tracked rest (pipeline cs w).1
  unfolding pipeline first run_all
  pipeline-Tracked cs w whole keep i = elim (whole w.calls) [
    | inl e ↦ rw (e, pipeline) (keep i)
    | inr e ↦ rw (e, pipeline) i
  ]

  delete-Tracked :
      (ks : List String) (w : Server)
      → IsWhole w
      → (Holds w.now w.keys → Holds w.now (del ks w.keys))
      → Tracked rest w
      → Tracked rest (delete_keys ks w).1
  unfolding delete_keys
  delete-Tracked ks w whole keep i = elim (whole w.calls) [
    | inl e ↦ rw (e, delete_keys) (keep i)
    | inr e ↦ rw (e, delete_keys) i
  ]

  tagged-Tracked :
      (now : ℕ) (id : String) (tag : Option String) (keys : Keys)
      → Holds now keys
      → Holds now (run_all now (tag_command id tag) keys).1
  unfolding run_all
  tagged-Tracked now id none keys i = i
  tagged-Tracked now id (some tag) keys i = elim (Bool-cases (tag == "")) [
    | inl e ↦ rw (e, run_all) i
    | inr e ↦
        rw (e, run_all)
          (sadd-IsTracked k s is_data is_set now (tag_key tag) id keys
            (λ t. ground (arith, tag_key-is_data_key tag)) i)
  ]

  set_task-Tracked :
      (task : Task) (w : Server) → IsWhole w → Tracked rest w → Tracked rest (set_task task w).1
  unfolding set_task run_all
  set_task-Tracked task w whole = pipeline-Tracked _ w whole λ i.
      tagged-Tracked w.now task.id task.tag_id _ (
        sadd-IsTracked k s is_data is_set w.now (user_key task.user_id) task.id _
          (λ t. ground (arith, user_key-not_tracking task.user_id))
          (set-IsTracked k s is_data is_set w.now (24 * hour) (task_key task.id)
            (json_task (to_cache_task task)) w.keys (task_key-is_data_key task.id) refl i))

  -- The commands of SetList, for the same key and for another.
  listed-Tracked :
      (now : ℕ) (other : String) (l : List CacheListTask) (keys : Keys)
      → Holds now keys
      → Holds now (
          run now (expire (list_keys_of (owner other)) (25 * hour)) (
            run now
              (sadd (list_keys_of (owner other)) (list_key other))
              (run now (set (list_key other) (json_list l) (24 * hour)) keys)))
  listed-Tracked now other l keys i = elim (Bool-cases (list_key other == k)) [
    | inl same ↦
        let keys_same = (eq_iff (list_key other) k).0 same in
        let sets_same =
          of_some
            (sym (user_list_key_lem other) ∙ ap user_list_key keys_same ∙ user_list_key_lem rest) in
        rw (keys_same, sets_same) (set_list-IsTracked k s is_data is_set now l keys i)
    | inr differ ↦
        expire-IsTracked k s is_data is_set now (25 * hour) (list_keys_of (owner other)) _
          (ground (
            arith,
            eq_iff k (list_keys_of (owner other)),
            is_data,
            data_key-not_tracking k,
            list_keys_of-is_tracking (owner other),
          ))
          refl
          (sadd-IsTracked k s is_data is_set now (list_keys_of (owner other)) (list_key other) _
            (λ t. list_key-is_data_key other)
            (set-IsTracked k s is_data is_set now (24 * hour) (list_key other) (json_list l) keys
              (list_key-is_data_key other) differ i))
  ]

  set_list-Tracked :
      (other : String) (tasks : List TaskList) (w : Server)
      → IsWhole w
      → Tracked rest w
      → Tracked rest (set_list (list_key other) tasks w).1
  unfolding set_list run_all
  set_list-Tracked other tasks w whole = pipeline-Tracked _ w whole λ i.
      rw (user_list_key_lem other)
        (listed-Tracked w.now other (map to_cache_list_task tasks) w.keys i)

  -- The keys that are deleted with the set are its members.
  pub members-Tracked :
      (now : ℕ) (u : String) (ms : List String) (keys : Keys)
      → members_of (live now (list_keys_of u) keys) ≡ some ms
      → is_empty ms ≡ false
      → Holds now keys
      → Holds now (del (ms ++ list_keys_of u ∷ []) keys)
  members-Tracked now u ms keys e full i =
      let kinds =
        data_members now (keys (list_keys_of u)) ms
          (i.sets (list_keys_of u) (list_keys_of-is_tracking u)) e in
      del-IsTracked k s is_data is_set now (ms ++ list_keys_of u ∷ []) keys
        (λ gone t held.
          let same =
            (eq_iff (list_keys_of u) s).0
              (sym (contains-data_keys s (list_keys_of u) ms kinds is_set) ∙ gone) in
          any-append_left (λ j. j == k) ms (list_keys_of u ∷ [])
            (held_member now t k (keys (list_keys_of u)) ms e full (rw same held)))
        i

  -- No key of a set of lists is deleted.
  other_keys-Tracked :
      (now : ℕ) (ids : List String) (x : String) (keys : Keys)
      → is_tracking x ≡ false
      → Holds now keys
      → Holds now (del (map task_key ids ++ x ∷ []) keys)
  other_keys-Tracked now ids x keys kind i =
      del-IsTracked k s is_data is_set now (map task_key ids ++ x ∷ []) keys
        (λ gone t held. ground (
          arith,
          eq_iff x s,
          is_set,
          kind,
          contains-data_keys s x (map task_key ids) (task_keys-data_keys ids) is_set,
        ))
        i

  -- SMEMBERS changes nothing and answers with the members, or fails.
  pub smembers_lem :
      (key : String) (w : Server)
      → IsWhole w
      → (smembers key w ≡ (members_of (live w.now key w.keys), after_call w))
        ⊎ (smembers key w ≡ (none, after_call w))
  unfolding smembers
  smembers_lem key w whole = elim (whole w.calls) [
    | inl e ↦ inl (rw (e, smembers) refl)
    | inr e ↦ inr (rw (e, smembers) refl)
  ]

  deleted-Tracked :
      (key_of : String → String) (key : String) (o : Option (List String)) (w : Server)
      → IsWhole w
      → ((ms : List String)
          → o ≡ some ms
          → is_empty ms ≡ false
          → Holds w.now w.keys
          → Holds w.now (del (map key_of ms ++ key ∷ []) w.keys))
      → Tracked rest w
      → Tracked rest (delete_members key_of key (o, w)).1
  deleted-Tracked key_of key none w whole keep i = i
  deleted-Tracked key_of key (some ms) w whole keep i = elim (Bool-cases (is_empty ms)) [
    | inl e ↦ rw e i
    | inr e ↦ rw e (delete-Tracked (map key_of ms ++ key ∷ []) w whole (keep ms refl e) i)
  ]

  invalidated-Tracked :
      (key_of : String → String) (key : String) (w : Server)
      → IsWhole w
      → ((ms : List String)
          → members_of (live w.now key w.keys) ≡ some ms
          → is_empty ms ≡ false
          → Holds w.now w.keys
          → Holds w.now (del (map key_of ms ++ key ∷ []) w.keys))
      → Tracked rest w
      → Tracked rest (delete_members key_of key (smembers key w)).1
  invalidated-Tracked key_of key w whole keep i = elim (smembers_lem key w whole) [
    | inl e ↦ rw e (deleted-Tracked key_of key _ (after_call w) whole keep i)
    | inr e ↦ rw e i
  ]

  pub perform-Tracked :
      (r : Request) (w : Server) → IsWhole w → Tracked rest w → Tracked rest (perform r w)
  unfolding perform delete_task invalidate_user_lists invalidate_user_task_caches
      invalidate_tag_tasks
  perform-Tracked (cache_task task) w whole i = set_task-Tracked task w whole i
  perform-Tracked (drop_task id) w whole i =
      delete-Tracked (task_key id ∷ []) w whole
        (other_keys-Tracked w.now [] (task_key id) w.keys
          (data_key-not_tracking (task_key id) (task_key-is_data_key id)))
        i
  perform-Tracked (cache_list other tasks) w whole i = set_list-Tracked other tasks w whole i
  perform-Tracked (drop_lists u) w whole i =
      invalidated-Tracked (λ k. k) (list_keys_of u) w whole
        (λ ms e full h. rw (map_same ms) (members-Tracked w.now u ms w.keys e full h)) i
  perform-Tracked (drop_tasks u) w whole i =
      invalidated-Tracked task_key (user_key u) w whole
        (λ ms e full h. other_keys-Tracked w.now ms (user_key u) w.keys (user_key-not_tracking u) h)
        i
  perform-Tracked (drop_tagged tag) w whole i =
      invalidated-Tracked task_key (tag_key tag) w whole
        (λ ms e full h.
          other_keys-Tracked w.now ms (tag_key tag) w.keys
            (data_key-not_tracking (tag_key tag) (tag_key-is_data_key tag)) h)
        i
  perform-Tracked (wait d) w whole i = wait-IsTracked k s is_data is_set w.now d w.keys i
