-- ===== src/Tags/Cached.antt =====
-- app/internal/tags/db/redis/redis.go: the cached tags. Of the Redis server it uses SET with a time to
-- live, GET and DEL of one key.
use tasks_service.Prelude.{
  ℕ, suc, ◌+◌, ◌*◌, Bool, ◌==◌, String, Option, none, some, List, [], ◌<>◌, ltb, if◌then◌else◌,
}
use tasks_service.Cache.{hour}
use tasks_service.Tags.{Tag}

-- What JSON a key holds: a tag, the body of an update, which has a name only, or a list of tags.
pub data Value : Type 0 where
  json_tag : Tag → Value
  json_dto : String → Value
  json_tags : List Tag → Value

pub record Entry : Type 0 where
  pub value : Value
  pub expires : ℕ

-- `fails n` says whether the n-th call fails.
pub record Server : Type 0 where
  pub keys : String → Option Entry
  pub calls : ℕ
  pub fails : ℕ → Bool
  pub now : ℕ

-- An error is none.
abbrev pub Cached {ℓ} : Type ℓ → Type ℓ
Cached A = Server → Option A × Server

abbrev pub after_call : Server → Server
after_call w = record w { calls = suc w.calls }

abbrev pub put : String → Option Entry → Server → Server
put key e w = record (after_call w) { keys = λ j. if j == key then e else w.keys j }

unfoldable pub set : String → Value → Cached (Unit {0})
set key value w =
    if w.fails w.calls
    then (none, after_call w)
    else (some tt, put key (some (record { value = value; expires = w.now + 24 * hour })) w)

unfoldable pub del : String → Cached (Unit {0})
del key w = if w.fails w.calls then (none, after_call w) else (some tt, put key none w)

abbrev pub live : ℕ → Option Entry → Option Value
live now none = none
live now (some e) = if ltb now e.expires then some e.value else none

unfoldable pub get : String → Cached (Option Value)
get key w =
    if w.fails w.calls then (none, after_call w) else (some (live w.now (w.keys key)), after_call w)

-- `user:%s:tag:%s`
abbrev pub tag_key : String → String → String
tag_key user id = "user:" <> user <> ":tag:" <> id

unfoldable pub create_tags_redis : Tag → String → Cached (Unit {0})
create_tags_redis tag user = set (tag_key user tag.id) (json_tag tag)

unfoldable pub update_tags_redis : String → String → String → Cached (Unit {0})
update_tags_redis id name user = set (tag_key user id) (json_dto name)

unfoldable pub delete_tags_redis : String → String → Cached (Unit {0})
delete_tags_redis id user = del (tag_key user id)

-- The body of an update is read as a tag without an id and without a user; a list is no tag.
abbrev pub read_tag : Option (Option Value) → Option Tag
read_tag none = none
read_tag (some none) = none
read_tag (some (some v)) = elim v [
  | json_tag tag ↦ some tag
  | json_dto name ↦ some (record { id = ""; name = name; user_id = none })
  | json_tags tags ↦ none
]

unfoldable pub find_one_tags_redis : String → String → Cached Tag
find_one_tags_redis id user w = let (reply, w') = get (tag_key user id) w in (read_tag reply, w')

-- A missing key is no error; a tag is no list.
abbrev pub read_tags : Option (Option Value) → Option (List Tag)
read_tags none = none
read_tags (some none) = some []
read_tags (some (some v)) = elim v [
  | json_tags tags ↦ some tags
  | json_tag tag ↦ none
  | json_dto name ↦ none
]

unfoldable pub find_all_tags_redis : String → Cached (List Tag)
find_all_tags_redis user w = let (reply, w') = get user w in (read_tags reply, w')

unfoldable pub set_tag_to_cache_list : String → List Tag → Cached (Unit {0})
set_tag_to_cache_list key tags = set key (json_tags tags)

unfoldable pub delete_tag_list_cache : String → Cached (Unit {0})
delete_tag_list_cache user = del user
