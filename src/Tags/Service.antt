-- ===== src/Tags/Service.antt =====
-- The methods of app/internal/tags/service/service.go that pass a call on. Logging is left out.
use tasks_service.Prelude.{String, List}
use tasks_service.Database.{Platform, Exec}
use tasks_service.Tasks.Tables.{Tables}
use tasks_service.Tags
use tasks_service.Tags.{Tag}
use tasks_service.Tags.Cached
use tasks_service.Tags.Cached.{Cached}

module _ (pg : Platform) where
  unfoldable pub create_tags : String → String → Exec Tables String
  create_tags = Tags.create_tags pg

  unfoldable pub find_one_tags : String → String → Exec Tables Tag
  find_one_tags = Tags.find_one_tags pg

  unfoldable pub find_all_tags : String → Exec Tables (List Tag)
  find_all_tags = Tags.find_all_by_user pg

unfoldable pub create_tags_redis : Tag → String → Cached (Unit {0})
create_tags_redis = Cached.create_tags_redis

unfoldable pub update_tags_redis : String → String → String → Cached (Unit {0})
update_tags_redis = Cached.update_tags_redis

unfoldable pub delete_tags_redis : String → String → Cached (Unit {0})
delete_tags_redis = Cached.delete_tags_redis

unfoldable pub find_one_tags_redis : String → String → Cached Tag
find_one_tags_redis = Cached.find_one_tags_redis

unfoldable pub find_all_tags_redis : String → Cached (List Tag)
find_all_tags_redis = Cached.find_all_tags_redis

unfoldable pub set_tag_list : String → List Tag → Cached (Unit {0})
set_tag_list = Cached.set_tag_to_cache_list

unfoldable pub invalidate_tag_list_cache : String → Cached (Unit {0})
invalidate_tag_list_cache = Cached.delete_tag_list_cache
