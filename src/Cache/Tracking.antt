-- ===== src/Cache/Tracking.antt =====
-- The lists that app/internal/tasks/repository/redis/redis.go caches for a user, and the set of
-- their keys, by which they are invalidated: predicates on what two keys hold.
pub mod KeyNames
pub mod Values
pub mod Commands
pub mod Members
pub mod Served
pub mod Gone
pub mod Race
use Prim.Native.Char.{code}
use Prim.Native.String
use tasks_service.Prelude.{
  eq_refl, any-append_last, ℕ, zero, suc, ◌+◌, ◌*◌, ◌≡◌, refl, Bool, true, false, not, ◌&&◌, ◌||◌,
  ◌==◌, String, Option, none, some, List, [], ◌∷◌, ltb, leb, nat_eq, if◌then◌else◌, arith, eq_iff,
  inl, inr, Bool-cases, any, any-append_left, ◌++◌,
}
use tasks_service.Cache.Entries.{CacheListTask}
use tasks_service.Cache.{hour, list_keys_of, user_list_key}
use tasks_service.Cache.Redis.{
  Value, Entry, json_task, json_list, members, Keys, Command, set, sadd, expire, key_of, put,
  contains, is_live, if_live, effect, run, add_member, set_expiry, del,
}

-- The code of the n-th character, or 0.
unfoldable pub code_at : ℕ → String → ℕ
code_at n String.[] = 0
code_at zero (String.◌∷◌ c s) = code c
code_at (suc n) (String.◌∷◌ c s) = code_at n s

-- The key of a set of list keys: "user_l…".
abbrev pub is_tracking : String → Bool
is_tracking s = nat_eq (code_at 0 s) 117 && nat_eq (code_at 5 s) 108

-- A key of a list or of a task: "t…".
abbrev pub is_data_key : String → Bool
is_data_key k = nat_eq (code_at 0 k) 116

unfoldable pub all_data_keys : List String → Bool
all_data_keys [] = true
all_data_keys (m ∷ ms) = is_data_key m && all_data_keys ms

-- Nothing, or a set of such keys.
abbrev pub is_key_set : Option Entry → Bool
is_key_set none = true
is_key_set (some e) = elim e.value [
  | members ms ↦ all_data_keys ms
  | json_task t ↦ false
  | json_list l ↦ false
]

abbrev pub is_list : Value → Bool
is_list (json_list l) = true
is_list (json_task t) = false
is_list (members ms) = false

abbrev pub outlives : ℕ → Option ℕ → Bool
outlives t none = true
outlives t (some t') = leb t t'

-- The set has the key, and lives on until `t` at least.
abbrev pub is_held : String → ℕ → Option Entry → Bool
is_held k t none = false
is_held k t (some f) = elim f.value [
  | members ms ↦ contains k ms && outlives t f.expires
  | json_task c ↦ false
  | json_list l ↦ false
]

abbrev pub is_timed : ℕ → String → Option ℕ → Option Entry → Bool
is_timed now k none b = false
is_timed now k (some t) b = leb t (now + 24 * hour) && (leb t now || is_held k t b)

-- What the key of a list holds, beside what the key of its set holds: a list that has not expired
-- is in the set.
abbrev pub is_tracked : ℕ → String → Option Entry → Option Entry → Bool
is_tracked now k none b = true
is_tracked now k (some e) b = not (is_list e.value) || is_timed now k e.expires b

-- The keys of sets hold sets of such keys.
abbrev pub HasKeySets : Keys → Type 0
HasKeySets keys = (j : String) → is_tracking j ≡ true → is_key_set (keys j) ≡ true

-- For a list key and the key of its set.
pub record IsTracked (k s : String) (now : ℕ) (keys : Keys) : Type 0 where
  pub sets : HasKeySets keys
  pub tracked : is_tracked now k (keys k) (keys s) ≡ true

abbrev pub entry : Value → Option ℕ → Option Entry
entry v x = some (record { value = v; expires = x })
