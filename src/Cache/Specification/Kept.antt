-- ===== src/Cache/Specification/Kept.antt =====
-- What the methods of app/internal/tasks/repository/redis/redis.go that are not on one task leave of
-- the cached tasks.
use tasks_service.Prelude.{
  ℕ, zero, suc, ◌≡◌, refl, sym, ◌∙◌, inl, inr, false, Bool-cases, Option-cases, ◌==◌, String,
  Option, none, some, List, [], ◌∷◌, subst, is_empty, All,
}
use tasks_service.Tasks.Domain.{Task}
use tasks_service.Tasks.Reads.{TaskList}
use tasks_service.Cache.{
  task_key, tag_command, set_list, delete_members, invalidate_user_lists,
  invalidate_user_task_caches, invalidate_tag_tasks,
}
use tasks_service.Cache.Entries.{to_cache_task}
use tasks_service.Cache.Redis.{
  Value, Entry, Command, Keys, Server, json_task, json_list, members, key_of, run, run_all, first,
  pipeline, smembers, delete_keys, del, contains,
}
use tasks_service.Cache.Requests.{
  Request, cache_task, drop_task, cache_list, drop_lists, drop_tasks, drop_tagged, wait, list_key,
  perform,
}
use tasks_service.Cache.Specification.{Stored, is_own}
use tasks_service.Cache.Tracking.Commands.{del_lem}
use tasks_service.Cache.Tracking.KeyNames.{
  tag_key-ne, list_key-ne, list_keys_of-ne, user_list_key_lem, owner,
}

-- A cached task is the stored one.
abbrev pub FitsValue : Option Task → Value → Type 0
FitsValue o (json_task v) = (t : Task) × (o ≡ some t) × (to_cache_task t ≡ v)
FitsValue o (json_list l) = Unit {0}
FitsValue o (members ms) = Unit {0}

abbrev pub Fits : Option Task → Option Entry → Type 0
Fits o none = Unit {0}
Fits o (some e) = FitsValue o e.value

-- The server is a state of the specification.
abbrev pub Refines : Stored → Server → Type 0
Refines m w = (id : String) → Fits (m id) (w.keys (task_key id))

abbrev pub IsOther : String → Command → Type 0
IsOther id c = (task_key id == key_of c) ≡ false

pub run_all-other :
    (id : String) (now : ℕ) (cs : List Command) (keys : Keys)
    → All (IsOther id) cs
    → (run_all now cs keys).1 (task_key id) ≡ keys (task_key id)
unfolding run_all
run_all-other id now [] keys h = refl
run_all-other id now (c ∷ cs) keys h = run_all-other id now cs (run now c keys) h.1 ∙ rw h.0 refl

pub All-first : (P : Command → Type 0) (n : ℕ) (cs : List Command) → All P cs → All P (first n cs)
unfolding first
All-first P zero cs h = tt
All-first P (suc n) [] h = tt
All-first P (suc n) (c ∷ cs) h = (h.0, All-first P n cs h.1)

-- What a pipeline of other commands leaves under the key of a task.
pipeline-other :
    (id : String) (cs : List Command) (w : Server)
    → All (IsOther id) cs
    → (pipeline cs w).1.keys (task_key id) ≡ w.keys (task_key id)
unfolding pipeline
pipeline-other id cs w h = elim (Option-cases (w.cut w.calls)) [
  | inl e ↦ rw (e, pipeline) (run_all-other id w.now cs w.keys h)
  | inr (n, e) ↦
      rw (e, pipeline) (run_all-other id w.now (first n cs) w.keys (All-first (IsOther id) n cs h))
]

pub tag_command-IsOther :
    (id task : String) (tag : Option String) → All (IsOther id) (tag_command task tag)
tag_command-IsOther id task none = tt
tag_command-IsOther id task (some tag) = elim (Bool-cases (tag == "")) [
  | inl e ↦ rw e tt
  | inr e ↦ rw e (tag_key-ne id tag, tt)
]

set_list-other :
    (id rest : String) (tasks : List TaskList) (w : Server)
    → (set_list (list_key rest) tasks w).1.keys (task_key id) ≡ w.keys (task_key id)
unfolding set_list
set_list-other id rest tasks w = rw (user_list_key_lem rest) (
    pipeline-other id _ w (
      list_key-ne id rest,
      (list_keys_of-ne id (owner rest), (list_keys_of-ne id (owner rest), tt)),
    ))

-- A deletion only forgets.
Fits-del :
    (o : Option Task) (ks : List String) (keys : Keys) (j : String)
    → Fits o (keys j)
    → Fits o (del ks keys j)
Fits-del o ks keys j h =
    rw (del_lem ks keys j) (elim (Bool-cases (contains j ks)) [ inl e ↦ rw e tt | inr e ↦ rw e h ])

Fits-delete_keys :
    (o : Option Task) (ks : List String) (w : Server) (j : String) (n : Option ℕ)
    → w.cut w.calls ≡ n
    → Fits o (w.keys j)
    → Fits o ((delete_keys ks w).1.keys j)
unfolding delete_keys
Fits-delete_keys o ks w j none e h = rw (e, delete_keys) (Fits-del o ks w.keys j h)
Fits-delete_keys o ks w j (some zero) e h = rw (e, delete_keys) h
Fits-delete_keys o ks w j (some (suc n)) e h = rw (e, delete_keys) (Fits-del o ks w.keys j h)

Fits-delete_members :
    (o : Option Task) (key_of : String → String) (key : String) (ms : Option (List String))
    (w : Server) (j : String)
    → Fits o (w.keys j)
    → Fits o ((delete_members key_of key (ms, w)).1.keys j)
Fits-delete_members o key_of key none w j h = h
Fits-delete_members o key_of key (some ms) w j h = elim (Bool-cases (is_empty ms)) [
  | inl e ↦ rw e h
  | inr e ↦ rw e (Fits-delete_keys o _ w j (w.cut w.calls) refl h)
]

smembers-keys : (key : String) (w : Server) → (smembers key w).1.keys ≡ w.keys
unfolding smembers
smembers-keys key w = elim (Option-cases (w.cut w.calls)) [
  | inl e ↦ rw (e, smembers) refl
  | inr (n, e) ↦ rw (e, smembers) refl
]

Fits-invalidate :
    (o : Option Task) (key_of : String → String) (key : String) (w : Server) (j : String)
    → Fits o (w.keys j)
    → Fits o ((delete_members key_of key (smembers key w)).1.keys j)
Fits-invalidate o key_of key w j h =
    Fits-delete_members o key_of key (smembers key w).0 (smembers key w).1 j
      (subst (λ (keys : Keys). Fits o (keys j)) (sym (smembers-keys key w)) h)

-- Requests that are not on one task.
pub Refines-kept :
    (r : Request) (m : Stored) (w : Server)
    → is_own r ≡ false
    → Refines m w
    → Refines m (perform r w)
unfolding perform invalidate_user_lists invalidate_user_task_caches invalidate_tag_tasks
Refines-kept (cache_task task) m w other h id = cc
Refines-kept (drop_task gone) m w other h id = cc
Refines-kept (cache_list rest tasks) m w other h id =
    subst (Fits (m id)) (sym (set_list-other id rest tasks w)) (h id)
Refines-kept (drop_lists user) m w other h id = Fits-invalidate (m id) _ _ w _ (h id)
Refines-kept (drop_tasks user) m w other h id = Fits-invalidate (m id) _ _ w _ (h id)
Refines-kept (drop_tagged tag) m w other h id = Fits-invalidate (m id) _ _ w _ (h id)
Refines-kept (wait d) m w other h id = h id
