-- ===== src/Tags/Examples.antt =====
-- Changes of tags at concrete tables, and the theorem applied to one.
use tasks_service.Prelude.{◌≡◌, refl, false, not, ◌==◌, none, some, [], ◌∷◌, any, if◌then◌else◌}
use tasks_service.Database.{Platform, World, ok}
use tasks_service.Tasks.Tables.{Tables}
use tasks_service.Tags.{service_update_tags}
use tasks_service.Tags.Changes.{update_foreign_tag}
use tasks_service.Tags.Cached.{Server, set, get, update_tags_redis, find_one_tags_redis}

abbrev pg : Platform
pg = record {
  uuid = λ s. if s == "" then none else some s;
  timestamp = λ s. none;
  gen_uuid = λ n. "g";
  parse_uuid = λ s. not (s == "");
}

-- One tag, of the user "u1".
abbrev one_tag : World Tables
one_tag = record {
  tables = record {
    tasks = [];
    subtasks = [];
    default_tags = [];
    custom_tags = record { tag_id = "g1"; name = "work"; user_id = "u1" } ∷ [];
    outbox = [];
  };
  calls = 0;
  fails = λ n. false;
  now = 0;
}

update_foreign_tag_example :
    ((service_update_tags pg "g1" "home" "u2" one_tag).0 ≡ ok tt)
    × ((service_update_tags pg "g1" "home" "u2" one_tag).1.tables ≡ one_tag.tables)
unfolding any
update_foreign_tag_example =
    update_foreign_tag pg "g1" "home" "u2" "g1" "u2" one_tag (λ n. refl) refl refl refl refl refl
      refl refl

abbrev cold : Server
cold = record { keys = λ k. none; calls = 0; fails = λ n. false; now = 0 }

-- After an update the cache holds a tag without an id.
updated_tag :
    (find_one_tags_redis "g1" "u1" (update_tags_redis "g1" "home" "u1" cold).1).0
    ≡ some (record { id = ""; name = "home"; user_id = none })
unfolding find_one_tags_redis update_tags_redis get set
updated_tag = refl
