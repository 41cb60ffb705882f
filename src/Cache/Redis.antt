-- ===== src/Cache/Redis.antt =====
-- The Redis server as app/internal/tasks/repository/redis/redis.go uses it: its keys with the times
-- at which they expire, its commands, and calls that may fail.
use tasks_service.Prelude.{
  ℕ, zero, suc, ◌+◌, Bool, true, false, ◌||◌, ◌==◌, String, Option, none, some, List, [], ◌∷◌, ◌++◌,
  any, ltb, if◌then◌else◌,
}
use tasks_service.Cache.Entries.{CacheTask, CacheListTask}

-- A text that is the JSON of a task or of a list, or a set of texts.
pub data Value : Type 0 where
  json_task : CacheTask → Value
  json_list : List CacheListTask → Value
  members : List String → Value

-- Without a time the key does not expire.
pub record Entry : Type 0 where
  pub value : Value
  pub expires : Option ℕ

abbrev pub Keys : Type 0
Keys = String → Option Entry

abbrev pub put : String → Option Entry → Keys → Keys
put key e keys j = if j == key then e else keys j

abbrev pub is_live : ℕ → Entry → Bool
is_live now e = elim e.expires [ none ↦ true | some t ↦ ltb now t ]

abbrev pub if_live : ℕ → Option Entry → Option Entry
if_live now none = none
if_live now (some e) = if is_live now e then some e else none

-- What a command sees under a key.
abbrev pub live : ℕ → String → Keys → Option Entry
live now key keys = if_live now (keys key)

-- Times to live are in the unit of the clock.
pub data Command : Type 0 where
  set : String → Value → ℕ → Command
  sadd : String → String → Command
  expire : String → ℕ → Command

abbrev pub contains : String → List String → Bool
contains m ms = any (λ j. j == m) ms

abbrev pub key_of : Command → String
key_of (set key value ttl) = key
key_of (sadd key m) = key
key_of (expire key ttl) = key

-- SADD on what the key holds; on a text it is the error WRONGTYPE, and changes nothing.
abbrev pub add_member : String → Option Entry → Option Entry
add_member m none = some (record { value = members (m ∷ []); expires = none })
add_member m (some e) = elim e.value [
  | members ms ↦ some (if contains m ms then e else record e { value = members (ms ++ m ∷ []) })
  | json_task t ↦ some e
  | json_list l ↦ some e
]

abbrev pub set_expiry : ℕ → Option Entry → Option Entry
set_expiry t none = none
set_expiry t (some e) = some (record e { expires = some t })

-- What the key of a command holds after it, from what it held.
unfoldable pub effect : ℕ → Command → Option Entry → Option Entry
effect now (set key value ttl) old = some (record { value = value; expires = some (now + ttl) })
effect now (sadd key m) old = add_member m (if_live now old)
effect now (expire key ttl) old = set_expiry (now + ttl) (if_live now old)

abbrev pub run : ℕ → Command → Keys → Keys
run now c keys = put (key_of c) (effect now c (keys (key_of c))) keys

-- SADD answers WRONGTYPE.
abbrev pub is_refused : ℕ → Command → Keys → Bool
is_refused now (sadd key m) keys = elim (live now key keys) [
  | none ↦ false
  | some e ↦ elim e.value [ members ms ↦ false | json_task t ↦ true | json_list l ↦ true ]
]
is_refused now (set key value ttl) keys = false
is_refused now (expire key ttl) keys = false

-- The commands of a pipeline, and whether one was refused; the others run all the same.
unfoldable pub run_all : ℕ → List Command → Keys → Bool × Keys
run_all now [] keys = (false, keys)
run_all now (c ∷ cs) keys =
    let (refused, after) = run_all now cs (run now c keys) in
    (is_refused now c keys || refused, after)

unfoldable pub del : List String → Keys → Keys
del [] keys = keys
del (k ∷ ks) keys = del ks (put k none keys)

-- `cut n` is none where the n-th call succeeds, and else how many of its commands reach the server
-- before the connection fails.
pub record Server : Type 0 where
  pub keys : Keys
  pub calls : ℕ
  pub cut : ℕ → Option ℕ
  pub now : ℕ

unfoldable pub first {ℓ} : {A : Type ℓ} → ℕ → List A → List A
first zero cs = []
first (suc n) [] = []
first (suc n) (c ∷ cs) = c ∷ first n cs

-- An error is none.
abbrev pub Cached {ℓ} : Type ℓ → Type ℓ
Cached A = Server → Option A × Server

abbrev pub after_call : Server → Server
after_call w = record w { calls = suc w.calls }

unfoldable pub pipeline : List Command → Cached (Unit {0})
pipeline cs w = elim (w.cut w.calls) [
  | none ↦
      let (refused, keys) = run_all w.now cs w.keys in
      (if refused then none else some tt, record (after_call w) { keys = keys })
  | some n ↦ (none, record (after_call w) { keys = (run_all w.now (first n cs) w.keys).1 })
]

-- The reply to GET: none for a key that is not there, and an error on a set.
abbrev pub text_of : Option Entry → Option (Option Value)
text_of none = some none
text_of (some e) = elim e.value [
  | members ms ↦ none
  | json_task t ↦ some (some (json_task t))
  | json_list l ↦ some (some (json_list l))
]

unfoldable pub get : String → Cached (Option Value)
get key w = elim (w.cut w.calls) [
  | some n ↦ (none, after_call w)
  | none ↦ (text_of (live w.now key w.keys), after_call w)
]

abbrev pub members_of : Option Entry → Option (List String)
members_of none = some []
members_of (some e) = elim e.value [
  | members ms ↦ some ms
  | json_task t ↦ none
  | json_list l ↦ none
]

-- SMEMBERS
unfoldable pub smembers : String → Cached (List String)
smembers key w = elim (w.cut w.calls) [
  | some n ↦ (none, after_call w)
  | none ↦ (members_of (live w.now key w.keys), after_call w)
]

-- DEL of several keys is one command.
unfoldable pub delete_keys : List String → Cached (Unit {0})
delete_keys ks w = elim (w.cut w.calls) [
  | none ↦ (some tt, record (after_call w) { keys = del ks w.keys })
  | some zero ↦ (none, after_call w)
  | some (suc n) ↦ (none, record (after_call w) { keys = del ks w.keys })
]
