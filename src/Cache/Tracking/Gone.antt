-- ===== src/Cache/Tracking/Gone.antt =====
-- What app/internal/tasks/repository/redis/redis.go serves after an invalidation.
use tasks_service.Prelude.{
  ℕ, ◌≡◌, ◌≢◌, ◌⊎◌, refl, sym, ◌∙◌, inl, inr, Bool, true, false, ◌==◌, String, Option, none, some,
  List, [], ◌∷◌, ◌++◌, any, any-append_last, subst, arith, map, leb, eq_refl,
}
use tasks_service.Tasks.Reads.{TaskList}
use tasks_service.Cache.{
  list_keys_of, get_list, read_list, delete_members, invalidate_user_lists, set_task, delete_task,
  set_list, invalidate_user_task_caches, invalidate_tag_tasks,
}
use tasks_service.Cache.Redis.{
  Value, Command, json_task, json_list, members, Entry, Server, live, if_live, members_of, del,
  after_call, smembers, delete_keys, pipeline, get, text_of,
}
use tasks_service.Cache.Requests.{
  Request, cache_task, drop_task, cache_list, drop_lists, drop_tasks, drop_tagged, wait, list_key,
  perform, serve,
}
use tasks_service.Cache.Tracking.{entry, is_held, is_tracked, is_list}
use tasks_service.Cache.Tracking.Commands.{del_lem}
use tasks_service.Cache.Tracking.Members.{map_same}
use tasks_service.Cache.Tracking.KeyNames.{owner}
use tasks_service.Cache.Tracking.Served.{
  IsWhole, Tracked, members-Tracked, perform-Tracked, smembers_lem,
}

-- Whether calls fail is not up to the calls.
pipeline-cut : (cs : List Command) (w : Server) → (pipeline cs w).1.cut ≡ w.cut
unfolding pipeline
pipeline-cut cs w = ground arith

delete_keys-cut : (ks : List String) (w : Server) → (delete_keys ks w).1.cut ≡ w.cut
unfolding delete_keys
delete_keys-cut ks w = ground arith

smembers-cut : (key : String) (w : Server) → (smembers key w).1.cut ≡ w.cut
unfolding smembers
smembers-cut key w = ground arith

delete_members-cut :
    (key_of : String → String) (key : String) (p : Option (List String) × Server)
    → (delete_members key_of key p).1.cut ≡ p.1.cut
delete_members-cut key_of key (none, w) = refl
delete_members-cut key_of key (some ms, w) =
    ground (arith, delete_keys-cut (map key_of ms ++ key ∷ []) w)

perform-cut : (r : Request) (w : Server) → (perform r w).cut ≡ w.cut
unfolding perform set_task delete_task set_list invalidate_user_lists invalidate_user_task_caches
    invalidate_tag_tasks
perform-cut (cache_task task) w = pipeline-cut _ w
perform-cut (drop_task id) w = delete_keys-cut _ w
perform-cut (cache_list other tasks) w = pipeline-cut _ w
perform-cut (drop_lists u) w = delete_members-cut _ _ (smembers _ w) ∙ smembers-cut _ w
perform-cut (drop_tasks u) w = delete_members-cut _ _ (smembers _ w) ∙ smembers-cut _ w
perform-cut (drop_tagged tag) w = delete_members-cut _ _ (smembers _ w) ∙ smembers-cut _ w
perform-cut (wait d) w = refl

perform-IsWhole : (r : Request) (w : Server) → IsWhole w → IsWhole (perform r w)
perform-IsWhole r w whole =
    subst (λ (c : ℕ → Option ℕ). (n : ℕ) → (c n ≡ none) ⊎ (c n ≡ some 0)) (sym (perform-cut r w))
      whole

serve-IsWhole : (rs : List Request) (w : Server) → IsWhole w → IsWhole (serve rs w)
unfolding serve
serve-IsWhole [] w whole = whole
serve-IsWhole (r ∷ rs) w whole = serve-IsWhole rs (perform r w) (perform-IsWhole r w whole)

-- When every call reaches the server as a whole or not at all, then after any requests by
-- any users each cached list that has not expired is in the set of the keys of the user its
-- key names, and that set lives at least as long, if this was so before.
serve-Tracked :
    (rest : String) (rs : List Request) (w : Server)
    → IsWhole w
    → Tracked rest w
    → Tracked rest (serve rs w)
unfolding serve
serve-Tracked rest [] w whole i = i
serve-Tracked rest (r ∷ rs) w whole i =
    serve-Tracked rest rs (perform r w) (perform-IsWhole r w whole)
      (perform-Tracked rest r w whole i)

is_listed : Option Entry → Bool
is_listed none = false
is_listed (some e) = is_list e.value

-- Where the set is empty or gone there is no list.
entry_unheld :
    (now t : ℕ) (k : String) (v : Value) (x : Option ℕ)
    → members_of (if_live now (entry v x)) ≡ some []
    → leb t now ≡ false
    → is_held k t (entry v x) ≡ false
unfolding any
entry_unheld now t k (members []) x e late = ground arith
entry_unheld now t k (members (j ∷ js)) none e late = ground arith
entry_unheld now t k (members (j ∷ js)) (some t') e late = ground arith
entry_unheld now t k (json_task c) x e late = refl
entry_unheld now t k (json_list l) x e late = refl

unheld :
    (now t : ℕ) (k : String) (b : Option Entry)
    → members_of (if_live now b) ≡ some []
    → leb t now ≡ false
    → is_held k t b ≡ false
unheld now t k none e late = refl
unheld now t k (some b) e late = entry_unheld now t k b.value b.expires e late

unlisted_entry :
    (now : ℕ) (k : String) (v : Value) (x : Option ℕ) (b : Option Entry)
    → is_tracked now k (entry v x) b ≡ true
    → members_of (if_live now b) ≡ some []
    → is_listed (if_live now (entry v x)) ≡ false
unfolding is_listed
unlisted_entry now k (members ms) x b i e = ground arith
unlisted_entry now k (json_task c) x b i e = ground arith
unlisted_entry now k (json_list l) none b i e = cc
unlisted_entry now k (json_list l) (some t) b i e = ground (arith, unheld now t k b)

unlisted :
    (now : ℕ) (k : String) (a b : Option Entry)
    → is_tracked now k a b ≡ true
    → members_of (if_live now b) ≡ some []
    → is_listed (if_live now a) ≡ false
unfolding is_listed
unlisted now k none b i e = refl
unlisted now k (some a) b i e = unlisted_entry now k a.value a.expires b i e

-- A list is read only where one is live.
entry_unread :
    (v : Value) (x : Option ℕ) (ls : List TaskList)
    → is_list v ≡ false
    → read_list (text_of (entry v x)) ≢ some (some ls)
entry_unread (members ms) x ls h = λ e. cc
entry_unread (json_task c) x ls h = λ e. cc
entry_unread (json_list l) x ls h = cc

text_unread :
    (o : Option Entry) (ls : List TaskList)
    → is_listed o ≡ false
    → read_list (text_of o) ≢ some (some ls)
unfolding is_listed
text_unread none ls h = λ e. cc
text_unread (some e) ls h = entry_unread e.value e.expires ls h

read_unlisted :
    (key : String) (w : Server) (ls : List TaskList)
    → is_listed (live w.now key w.keys) ≡ false
    → (get_list key w).0 ≢ some (some ls)
unfolding get_list get
read_unlisted key w ls h = λ e. ground (arith, text_unread (live w.now key w.keys) ls h)

-- Where the set has no member the list is not read.
unread :
    (rest : String) (w : Server) (ls : List TaskList)
    → Tracked rest w
    → members_of (live w.now (list_keys_of (owner rest)) w.keys) ≡ some []
    → (get_list (list_key rest) w).0 ≢ some (some ls)
unread rest w ls i e = read_unlisted (list_key rest) w ls (
    unlisted w.now (list_key rest) (w.keys (list_key rest)) (w.keys (list_keys_of (owner rest)))
      i.tracked e)

deleted_unread :
    (rest : String) (o : Option (List String)) (w : Server) (ls : List TaskList)
    → IsWhole w
    → Tracked rest w
    → ((ms : List String)
        → o ≡ some ms
        → members_of (live w.now (list_keys_of (owner rest)) w.keys) ≡ some ms)
    → (delete_members (λ k. k) (list_keys_of (owner rest)) (o, w)).0 ≡ some tt
    → (get_list (list_key rest) (delete_members (λ k. k) (list_keys_of (owner rest)) (o, w)).1).0
      ≢ some (some ls)
unfolding delete_keys
deleted_unread rest none w ls whole i seen ok = cc
deleted_unread rest (some []) w ls whole i seen ok = unread rest w ls i (seen [] refl)
deleted_unread rest (some (m ∷ ms)) w ls whole i seen ok = elim (whole w.calls) [
  | inl up ↦
      let after : Server = record (after_call w) {
        keys = del (m ∷ ms ++ list_keys_of (owner rest) ∷ []) w.keys;
      } in
      rw (up, delete_keys, map_same ms)
        (unread rest after ls
          (members-Tracked rest w.now (owner rest) (m ∷ ms) w.keys (seen (m ∷ ms) refl) refl i)
          (rw
            (
              del_lem (m ∷ ms ++ list_keys_of (owner rest) ∷ []) w.keys (list_keys_of (owner rest)),
              any-append_last (λ j. j == list_keys_of (owner rest)) (m ∷ ms)
                  (list_keys_of (owner rest)) (eq_refl (list_keys_of (owner rest))),
            )
            refl))
  | inr down ↦ λ e. ground (arith, down, ok)
]

invalidated_unread :
    (rest : String) (w : Server) (ls : List TaskList)
    → IsWhole w
    → Tracked rest w
    → (invalidate_user_lists (owner rest) w).0 ≡ some tt
    → (get_list (list_key rest) (invalidate_user_lists (owner rest) w).1).0 ≢ some (some ls)
unfolding invalidate_user_lists
invalidated_unread rest w ls whole i =
    elim (smembers_lem rest (list_keys_of (owner rest)) w whole) [
      | inl e ↦ rw e (deleted_unread rest _ (after_call w) ls whole i (λ ms seen. seen))
      | inr e ↦ rw e (λ ok. cc)
    ]

-- On an empty server nothing has to be in a set.
abbrev pub empty : (ℕ → Option ℕ) → ℕ → Server
empty cut now = record { keys = λ k. none; calls = 0; cut = cut; now = now }

empty-Tracked : (rest : String) (cut : ℕ → Option ℕ) (now : ℕ) → Tracked rest (empty cut now)
empty-Tracked rest cut now = record { sets = λ j t. refl; tracked = refl }

-- On a server that was empty when the requests began, and that every call reaches as a whole or not
-- at all: when InvalidateUserLists returns no error for a user after any requests by any users, one
-- after the other, GetList finds no list of that user, whatever key it was cached under.
pub invalidated_lists_gone :
    (rest : String) (rs : List Request) (cut : ℕ → Option ℕ) (now : ℕ) (ls : List TaskList)
    → IsWhole (empty cut now)
    → (invalidate_user_lists (owner rest) (serve rs (empty cut now))).0 ≡ some tt
    → (get_list (list_key rest) (invalidate_user_lists (owner rest) (serve rs (empty cut now))).1).0
      ≢ some (some ls)
invalidated_lists_gone rest rs cut now ls whole =
    invalidated_unread rest (serve rs (empty cut now)) ls (serve-IsWhole rs (empty cut now) whole)
      (serve-Tracked rest rs (empty cut now) whole (empty-Tracked rest cut now))
