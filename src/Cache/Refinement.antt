-- ===== src/Cache/Refinement.antt =====
-- That app/internal/tasks/repository/redis/redis.go keeps to its specification for cached tasks.
use tasks_service.Prelude.{
  ℕ, zero, suc, ◌*◌, ◌≡◌, refl, sym, ap, ◌∙◌, inl, inr, Bool, Bool-cases, Option-cases, ◌==◌,
  String, Option, none, some, List, [], ◌∷◌, subst, arith, eq_iff, eq_refl, All, of_some,
}
use tasks_service.Tasks.Domain.{Task}
use tasks_service.Cache.{
  hour, task_key, user_key, tag_command, set_task, get_task, read_task, delete_task,
}
use tasks_service.Cache.Entries.{to_cache_task, from_cache_task}
use tasks_service.Cache.Redis.{
  Value, Entry, Command, Server, set, sadd, json_task, json_list, members, run, run_all, effect,
  first, pipeline, delete_keys, del, get, text_of, if_live, is_live,
}
use tasks_service.Cache.Requests.{
  Request, cache_task, drop_task, cache_list, drop_lists, drop_tasks, drop_tagged, wait, perform,
  serve,
}
use tasks_service.Cache.Specification.{
  Stored, insert, remove, Allowed, stored, not_stored, dropped, not_dropped, kept, reply, Runs,
  finished, next,
}
use tasks_service.Cache.Tracking.{entry}
use tasks_service.Cache.Tracking.KeyNames.{user_key-ne, task_key-ne}
use tasks_service.Cache.Specification.Kept.{
  FitsValue, Fits, Refines, IsOther, run_all-other, All-first, tag_command-IsOther, Refines-kept,
}

-- What is left when the first command of SetTask has run, and others of its commands.
Refines-insert :
    (task : Task) (m : Stored) (w w' : Server) (cs : List Command)
    → ((id : String) → All (IsOther id) cs)
    → w'.keys
      ≡ (run_all w.now cs (
          run w.now (set (task_key task.id) (json_task (to_cache_task task)) (24 * hour)) w.keys)).1
    → Refines m w
    → Refines (insert task m) w'
unfolding effect
Refines-insert task m w w' cs others e h id = elim (Bool-cases (id == task.id)) [
  | inl same ↦
      subst (λ (i : String). Fits (insert task m i) (w'.keys (task_key i)))
        (sym ((eq_iff id task.id).0 same))
        (rw
          (
            e,
            run_all-other task.id w.now cs _ (others task.id),
            eq_refl (task_key task.id),
            eq_refl task.id,
          )
          (task, refl, refl))
  | inr differ ↦
      rw (e, run_all-other id w.now cs _ (others id), differ, task_key-ne id task.id differ) (h id)
]

-- The commands of SetTask after the first.
abbrev rest_of : Task → List Command
rest_of task = sadd (user_key task.user_id) task.id ∷ tag_command task.id task.tag_id

rest_of-IsOther : (task : Task) (id : String) → All (IsOther id) (rest_of task)
rest_of-IsOther task id = (user_key-ne id task.user_id, tag_command-IsOther id task.id task.tag_id)

abbrev Kept : Request → Stored → Server → Type 0
Kept r m w = (m' : Stored) × Allowed (reply r w) r m m' × Refines m' (perform r w)

set_task-Refines :
    (task : Task) (m : Stored) (w : Server) (n : Option ℕ)
    → w.cut w.calls ≡ n
    → Refines m w
    → Kept (cache_task task) m w
unfolding perform set_task pipeline first run_all
set_task-Refines task m w none e h = (
  insert task m,
  stored _ task m,
  Refines-insert task m w (set_task task w).1 (rest_of task) (rest_of-IsOther task)
      (rw (e, pipeline) refl) h,
)
set_task-Refines task m w (some (suc n)) e h = (
  insert task m,
  stored _ task m,
  Refines-insert task m w (set_task task w).1 (first n (rest_of task))
      (λ id. All-first (IsOther id) n (rest_of task) (rest_of-IsOther task id))
      (rw (e, pipeline) refl) h,
)
set_task-Refines task m w (some zero) e h =
    (m, rw (e, pipeline) (not_stored task m), λ id. rw (e, perform, pipeline) (h id))

del-removes :
    (id : String) (m : Stored) (w w' : Server)
    → w'.keys ≡ del (task_key id ∷ []) w.keys
    → Refines m w
    → Refines (remove id m) w'
unfolding del
del-removes id m w w' e h i = elim (Bool-cases (i == id)) [
  | inl same ↦
      subst (λ (i : String). Fits (remove id m i) (w'.keys (task_key i)))
        (sym ((eq_iff i id).0 same)) (rw (e, eq_refl (task_key id)) tt)
  | inr differ ↦ rw (e, task_key-ne i id differ, differ) (h i)
]

delete_task-Refines :
    (id : String) (m : Stored) (w : Server) (n : Option ℕ)
    → w.cut w.calls ≡ n
    → Refines m w
    → Kept (drop_task id) m w
unfolding perform delete_task delete_keys
delete_task-Refines id m w none e h = (
  remove id m,
  dropped _ id m,
  del-removes id m w (delete_task id w).1 (rw (e, delete_keys) refl) h,
)
delete_task-Refines id m w (some (suc n)) e h = (
  remove id m,
  dropped _ id m,
  del-removes id m w (delete_task id w).1 (rw (e, delete_keys) refl) h,
)
delete_task-Refines id m w (some zero) e h =
    (m, rw (e, delete_keys) (not_dropped id m), λ i. rw (e, perform, delete_keys) (h i))

perform-Refines : (r : Request) (m : Stored) (w : Server) → Refines m w → Kept r m w
perform-Refines (cache_task task) m w h = set_task-Refines task m w (w.cut w.calls) refl h
perform-Refines (drop_task id) m w h = delete_task-Refines id m w (w.cut w.calls) refl h
perform-Refines (cache_list rest tasks) m w h = (m, kept _ _ m refl, Refines-kept _ m w refl h)
perform-Refines (drop_lists user) m w h = (m, kept _ _ m refl, Refines-kept _ m w refl h)
perform-Refines (drop_tasks user) m w h = (m, kept _ _ m refl, Refines-kept _ m w refl h)
perform-Refines (drop_tagged tag) m w h = (m, kept _ _ m refl, Refines-kept _ m w refl h)
perform-Refines (wait d) m w h = (m, kept _ _ m refl, Refines-kept _ m w refl h)

value_read :
    (o : Option Task) (v : Value) (x : Option ℕ) (now : ℕ) (t : Task)
    → FitsValue o v
    → read_task (text_of (if_live now (entry v x))) ≡ some t
    → (s : Task) × (o ≡ some s) × (t ≡ from_cache_task (to_cache_task s))
value_read o (json_list l) x now t h e = ground arith
value_read o (members ms) x now t h e = ground arith
value_read o (json_task v) x now t (s, same, cached) e =
    elim (Bool-cases (is_live now (record { value = json_task v; expires = x }))) [
      | inl alive ↦ (s, same, sym (of_some (rw alive at e)) ∙ ap from_cache_task (sym cached))
      | inr dead ↦ let gone = rw dead at e in cc
    ]

entry_read :
    (o : Option Task) (b : Option Entry) (now : ℕ) (t : Task)
    → Fits o b
    → read_task (text_of (if_live now b)) ≡ some t
    → (s : Task) × (o ≡ some s) × (t ≡ from_cache_task (to_cache_task s))
entry_read o none now t h e = cc
entry_read o (some b) now t h e = value_read o b.value b.expires now t h e

read-Refines :
    (m : Stored) (w : Server) (id : String) (t : Task)
    → Refines m w
    → (get_task id w).0 ≡ some t
    → (s : Task) × (m id ≡ some s) × (t ≡ from_cache_task (to_cache_task s))
unfolding get_task get
read-Refines m w id t h = elim (Option-cases (w.cut w.calls)) [
  | inl up ↦ rw (up, get) (entry_read (m id) (w.keys (task_key id)) w.now t (h id))
  | inr (n, down) ↦ rw (down, get) (λ e. cc)
]

-- The requests with whether they is_ok.
abbrev pub trace : List Request → Server → List (Request × Bool)
trace [] w = []
trace (r ∷ rs) w = (r, reply r w) ∷ trace rs (perform r w)

-- From a server in a state of the specification: whatever requests are served and wherever
-- connections fail, there is a run of the specification in which each request does what is allowed
-- for its reply, and a task that GetTask then returns is the one that was stored last under its id
-- in that run, as it was cached.
pub serve-Refines :
    (rs : List Request) (m : Stored) (w : Server)
    → Refines m w
    → (m' : Stored) × Runs (trace rs w) m m'
      × ((id : String) (t : Task)
          → (get_task id (serve rs w)).0 ≡ some t
          → (s : Task) × (m' id ≡ some s) × (t ≡ from_cache_task (to_cache_task s)))
unfolding serve
serve-Refines [] m w h = (m, finished m, λ id t e. read-Refines m w id t h e)
serve-Refines (r ∷ rs) m w h =
    let (m1, step, h1) = perform-Refines r m w h in
    let (m', rest, reads) = serve-Refines rs m1 (perform r w) h1 in
    (m', next (reply r w) r (trace rs (perform r w)) m m1 m' step rest, reads)
