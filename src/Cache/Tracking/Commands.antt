-- ===== src/Cache/Tracking/Commands.antt =====
-- What the commands of app/internal/tasks/repository/redis/redis.go keep of the tracking of lists.
use tasks_service.Prelude.{
  eq_refl, ℕ, ◌+◌, ◌*◌, ◌≡◌, refl, true, false, ◌&&◌, ◌==◌, String, none, List, [], ◌∷◌, leb,
  if◌then◌else◌, arith, eq_iff, inl, inr, Bool-cases, any,
}
use tasks_service.Cache.Entries.{CacheListTask}
use tasks_service.Cache.{hour}
use tasks_service.Cache.Redis.{
  Value, json_list, Keys, set, sadd, expire, put, contains, effect, run, del,
}
use tasks_service.Cache.Tracking.{is_data_key, is_tracking, is_list, is_held, HasKeySets, IsTracked}
use tasks_service.Cache.Tracking.Values.{
  add_member-is_key_set, add_member-tracked_list, add_member-tracked_set, set_expiry-tracked,
  set_expiry-is_key_set, fresh-held, wait-tracked, untracked,
}

pub del_lem :
    (ks : List String) (keys : Keys) (j : String)
    → del ks keys j ≡ (if contains j ks then none else keys j)
unfolding del any
del_lem [] keys j = refl
del_lem (x ∷ ks) keys j = ground (arith, eq_iff x j, eq_iff j x, del_lem ks (put x none keys) j)

pub set-HasKeySets :
    (now ttl : ℕ) (key : String) (v : Value) (keys : Keys)
    → is_data_key key ≡ true
    → HasKeySets keys
    → HasKeySets (run now (set key v ttl) keys)
unfolding effect
set-HasKeySets now ttl key v keys kind h j t = ground (arith, eq_iff j key, h j t)

pub sadd-HasKeySets :
    (now : ℕ) (key m : String) (keys : Keys)
    → (is_tracking key ≡ true → is_data_key m ≡ true)
    → HasKeySets keys
    → HasKeySets (run now (sadd key m) keys)
unfolding effect
sadd-HasKeySets now key m keys member h j t =
    ground (arith, eq_iff j key, member, h j t, add_member-is_key_set now m (keys key))

pub expire-HasKeySets :
    (now ttl : ℕ) (key : String) (keys : Keys)
    → HasKeySets keys
    → HasKeySets (run now (expire key ttl) keys)
unfolding effect
expire-HasKeySets now ttl key keys h j t =
    ground (arith, eq_iff j key, h j t, set_expiry-is_key_set now (now + ttl) (keys key))

pub del-HasKeySets : (ks : List String) (keys : Keys) → HasKeySets keys → HasKeySets (del ks keys)
del-HasKeySets ks keys h j t = ground (arith, del_lem ks keys j, h j t)

module _ (k s : String) (list_key : is_data_key k ≡ true) (set_key : is_tracking s ≡ true) where
  pub set-IsTracked :
      (now ttl : ℕ) (key : String) (v : Value) (keys : Keys)
      → is_data_key key ≡ true
      → (is_list v && key == k) ≡ false
      → IsTracked k s now keys
      → IsTracked k s now (run now (set key v ttl) keys)
  unfolding effect
  set-IsTracked now ttl key v keys kind other i = record {
    sets = set-HasKeySets now ttl key v keys kind i.sets;
    tracked = ground (arith, eq_iff k key, eq_iff key k, eq_iff s key, i.tracked);
  }

  pub sadd-IsTracked :
      (now : ℕ) (key m : String) (keys : Keys)
      → (is_tracking key ≡ true → is_data_key m ≡ true)
      → IsTracked k s now keys
      → IsTracked k s now (run now (sadd key m) keys)
  unfolding effect
  sadd-IsTracked now key m keys member i = record {
    sets = sadd-HasKeySets now key m keys member i.sets;
    tracked = ground (
      arith,
      eq_iff k key,
      eq_iff s key,
      i.tracked,
      add_member-tracked_list now k m (keys k) (keys s),
      add_member-tracked_set now k m (keys k) (keys s),
    );
  }

  pub expire-IsTracked :
      (now ttl : ℕ) (key : String) (keys : Keys)
      → (k == key) ≡ false
      → leb (24 * hour) ttl ≡ true
      → IsTracked k s now keys
      → IsTracked k s now (run now (expire key ttl) keys)
  unfolding effect
  expire-IsTracked now ttl key keys other long i = record {
    sets = expire-HasKeySets now ttl key keys i.sets;
    tracked =
        ground
          (arith, eq_iff s key, i.tracked, set_expiry-tracked now (now + ttl) k (keys k) (keys s));
  }

  -- The three commands of SetList for the key itself.
  pub set_list-IsTracked :
      (now : ℕ) (l : List CacheListTask) (keys : Keys)
      → IsTracked k s now keys
      → IsTracked k s now (
          run now
            (expire s (25 * hour))
            (run now (sadd s k) (run now (set k (json_list l) (24 * hour)) keys)))
  unfolding effect
  set_list-IsTracked now l keys i = record {
    sets = expire-HasKeySets now (25 * hour) s _ (
        sadd-HasKeySets now s k _ (λ t. list_key)
          (set-HasKeySets now (24 * hour) k (json_list l) keys list_key i.sets));
    tracked = ground (
      arith,
      eq_iff k s,
      eq_iff s k,
      eq_refl k,
      eq_refl s,
      i.sets s set_key,
      fresh-held now (now + 25 * hour) (now + 24 * hour) k (keys s),
    );
  }

  -- A deletion that takes the set takes the list too, unless it has expired.
  pub del-IsTracked :
      (now : ℕ) (ks : List String) (keys : Keys)
      → (contains s ks ≡ true → (t : ℕ) → is_held k t (keys s) ≡ true → contains k ks ≡ true)
      → IsTracked k s now keys
      → IsTracked k s now (del ks keys)
  del-IsTracked now ks keys with_set i = record {
    sets = del-HasKeySets ks keys i.sets;
    tracked =
        rw (del_lem ks keys k, del_lem ks keys s)
          (elim (Bool-cases (contains k ks)) [
            | inl gone ↦ rw gone refl
            | inr kept ↦ rw kept (elim (Bool-cases (contains s ks)) [
              | inl set_gone ↦ rw set_gone (
                  untracked now k (keys k) (keys s) i.tracked
                    λ t. ground (arith, with_set set_gone t))
              | inr set_kept ↦ rw set_kept i.tracked
            ])
          ]);
  }

  pub wait-IsTracked :
      (now d : ℕ) (keys : Keys) → IsTracked k s now keys → IsTracked k s (now + d) keys
  wait-IsTracked now d keys i = record {
    sets = i.sets;
    tracked = wait-tracked now d k (keys k) (keys s) i.tracked;
  }
