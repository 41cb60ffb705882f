-- ===== src/Cache/Tracking/Values.antt =====
-- What one command of app/internal/tasks/repository/redis/redis.go makes of a list and of the set of
-- its user's lists, as values.
use tasks_service.Prelude.{
  eq_refl, any-append_last, ℕ, ◌+◌, ◌*◌, ◌≡◌, refl, true, false, ◌==◌, String, Option, none, some,
  List, [], ◌∷◌, ltb, leb, arith, inl, inr, Bool-cases, any, any-append_left, ◌++◌,
}
use tasks_service.Cache.{hour}
use tasks_service.Cache.Redis.{
  Value, Entry, json_task, json_list, members, if_live, add_member, set_expiry,
}
use tasks_service.Cache.Tracking.{
  entry, all_data_keys, is_key_set, is_data_key, is_held, is_timed, is_tracked,
}

pub all_data_keys-append :
    (ms : List String) (m : String)
    → all_data_keys ms ≡ true
    → is_data_key m ≡ true
    → all_data_keys (ms ++ m ∷ []) ≡ true
unfolding all_data_keys
all_data_keys-append [] m h d = ground arith
all_data_keys-append (x ∷ ms) m h d = ground (arith, all_data_keys-append ms m)

pub entry-is_key_set :
    (now : ℕ) (m : String) (v : Value) (x : Option ℕ)
    → is_data_key m ≡ true
    → is_key_set (entry v x) ≡ true
    → is_key_set (add_member m (if_live now (entry v x))) ≡ true
unfolding all_data_keys
entry-is_key_set now m (members ms) x d h = ground (arith, all_data_keys-append ms m)
entry-is_key_set now m (json_task c) x d h = cc
entry-is_key_set now m (json_list l) x d h = cc

pub add_member-is_key_set :
    (now : ℕ) (m : String) (b : Option Entry)
    → is_data_key m ≡ true
    → is_key_set b ≡ true
    → is_key_set (add_member m (if_live now b)) ≡ true
unfolding all_data_keys
add_member-is_key_set now m none d h = ground arith
add_member-is_key_set now m (some e) d h = entry-is_key_set now m e.value e.expires d h

-- A member that is added leaves a list as it is, and makes no list.
pub entry-tracked_list :
    (now : ℕ) (k m : String) (v : Value) (x : Option ℕ) (b : Option Entry)
    → is_tracked now k (entry v x) b ≡ true
    → is_tracked now k (add_member m (if_live now (entry v x))) b ≡ true
entry-tracked_list now k m (members ms) x b h = ground arith
entry-tracked_list now k m (json_task c) x b h = ground arith
entry-tracked_list now k m (json_list l) x b h = ground arith

pub add_member-tracked_list :
    (now : ℕ) (k m : String) (a b : Option Entry)
    → is_tracked now k a b ≡ true
    → is_tracked now k (add_member m (if_live now a)) b ≡ true
add_member-tracked_list now k m none b h = refl
add_member-tracked_list now k m (some e) b h = entry-tracked_list now k m e.value e.expires b h

-- A set that holds a key until `t` still does with one more member.
pub entry-held :
    (now : ℕ) (k m : String) (t : ℕ) (v : Value) (x : Option ℕ)
    → leb t now ≡ false
    → is_held k t (entry v x) ≡ true
    → is_held k t (add_member m (if_live now (entry v x))) ≡ true
entry-held now k m t (members ms) none late h =
    ground (arith, any-append_left (λ j. j == k) ms (m ∷ []))
entry-held now k m t (members ms) (some t') late h =
    ground (arith, any-append_left (λ j. j == k) ms (m ∷ []))
entry-held now k m t (json_task c) x late h = cc
entry-held now k m t (json_list l) x late h = cc

pub add_member-held :
    (now : ℕ) (k m : String) (t : ℕ) (b : Option Entry)
    → leb t now ≡ false
    → is_held k t b ≡ true
    → is_held k t (add_member m (if_live now b)) ≡ true
add_member-held now k m t none late h = cc
add_member-held now k m t (some e) late h = entry-held now k m t e.value e.expires late h

pub add_member-timed :
    (now : ℕ) (k m : String) (x : Option ℕ) (b : Option Entry)
    → is_timed now k x b ≡ true
    → is_timed now k x (add_member m (if_live now b)) ≡ true
add_member-timed now k m none b h = cc
add_member-timed now k m (some t) b h = ground (arith, add_member-held now k m t b)

pub add_member-tracked_set :
    (now : ℕ) (k m : String) (a b : Option Entry)
    → is_tracked now k a b ≡ true
    → is_tracked now k a (add_member m (if_live now b)) ≡ true
add_member-tracked_set now k m none b h = refl
add_member-tracked_set now k m (some e) b h = ground (arith, add_member-timed now k m e.expires b)

-- EXPIRE of a set, to at least the end of any list's life.
pub entry_expire-held :
    (now t end : ℕ) (k : String) (v : Value) (x : Option ℕ)
    → leb t end ≡ true
    → leb t now ≡ false
    → is_held k t (entry v x) ≡ true
    → is_held k t (set_expiry end (if_live now (entry v x))) ≡ true
entry_expire-held now t end k (members ms) none le late h = ground arith
entry_expire-held now t end k (members ms) (some t') le late h = ground arith
entry_expire-held now t end k (json_task c) x le late h = cc
entry_expire-held now t end k (json_list l) x le late h = cc

pub set_expiry-held :
    (now t end : ℕ) (k : String) (b : Option Entry)
    → leb t end ≡ true
    → leb t now ≡ false
    → is_held k t b ≡ true
    → is_held k t (set_expiry end (if_live now b)) ≡ true
set_expiry-held now t end k none le late h = cc
set_expiry-held now t end k (some e) le late h =
    entry_expire-held now t end k e.value e.expires le late h

pub set_expiry-timed :
    (now end : ℕ) (k : String) (x : Option ℕ) (b : Option Entry)
    → leb (now + 24 * hour) end ≡ true
    → is_timed now k x b ≡ true
    → is_timed now k x (set_expiry end (if_live now b)) ≡ true
set_expiry-timed now end k none b le h = cc
set_expiry-timed now end k (some t) b le h = ground (arith, set_expiry-held now t end k b)

pub set_expiry-tracked :
    (now end : ℕ) (k : String) (a b : Option Entry)
    → leb (now + 24 * hour) end ≡ true
    → is_tracked now k a b ≡ true
    → is_tracked now k a (set_expiry end (if_live now b)) ≡ true
set_expiry-tracked now end k none b le h = refl
set_expiry-tracked now end k (some e) b le h =
    ground (arith, set_expiry-timed now end k e.expires b)

pub set_expiry-is_key_set :
    (now end : ℕ) (b : Option Entry)
    → is_key_set b ≡ true
    → is_key_set (set_expiry end (if_live now b)) ≡ true
set_expiry-is_key_set now end none h = refl
set_expiry-is_key_set now end (some e) h = ground arith

-- After SADD and EXPIRE the set holds the key, for as long as EXPIRE says.
pub entry_fresh :
    (now end t : ℕ) (k : String) (v : Value) (x : Option ℕ)
    → leb t end ≡ true
    → is_key_set (entry v x) ≡ true
    → is_held k t (set_expiry end (if_live now (add_member k (if_live now (entry v x))))) ≡ true
unfolding any
entry_fresh now end t k (members ms) none le h =
    ground (arith, eq_refl k, any-append_last (λ j. j == k) ms k)
entry_fresh now end t k (members ms) (some t') le h = elim (Bool-cases (ltb now t')) [
  | inl alive ↦ rw alive (ground (arith, alive, eq_refl k, any-append_last (λ j. j == k) ms k))
  | inr dead ↦ rw dead (ground (arith, eq_refl k))
]
entry_fresh now end t k (json_task c) x le h = cc
entry_fresh now end t k (json_list l) x le h = cc

pub fresh-held :
    (now end t : ℕ) (k : String) (b : Option Entry)
    → leb t end ≡ true
    → is_key_set b ≡ true
    → is_held k t (set_expiry end (if_live now (add_member k (if_live now b)))) ≡ true
unfolding any
fresh-held now end t k none le h = ground (arith, eq_refl k)
fresh-held now end t k (some e) le h = entry_fresh now end t k e.value e.expires le h

-- The clock only makes lists expire.
pub wait-timed :
    (now d : ℕ) (k : String) (x : Option ℕ) (b : Option Entry)
    → is_timed now k x b ≡ true
    → is_timed (now + d) k x b ≡ true
wait-timed now d k none b h = cc
wait-timed now d k (some t) b h = ground arith

pub wait-tracked :
    (now d : ℕ) (k : String) (a b : Option Entry)
    → is_tracked now k a b ≡ true
    → is_tracked (now + d) k a b ≡ true
wait-tracked now d k none b h = refl
wait-tracked now d k (some e) b h = ground (arith, wait-timed now d k e.expires b)

-- A set that is deleted takes a list with it only if the list has expired.
pub untracked-timed :
    (now : ℕ) (k : String) (x : Option ℕ) (b : Option Entry)
    → is_timed now k x b ≡ true
    → ((t : ℕ) → is_held k t b ≡ false)
    → is_timed now k x none ≡ true
untracked-timed now k none b h f = cc
untracked-timed now k (some t) b h f = ground (arith, f t)

pub entry-untracked :
    (now : ℕ) (k : String) (v : Value) (x : Option ℕ) (b : Option Entry)
    → is_tracked now k (entry v x) b ≡ true
    → ((t : ℕ) → is_held k t b ≡ false)
    → is_tracked now k (entry v x) none ≡ true
entry-untracked now k (members ms) x b h f = refl
entry-untracked now k (json_task c) x b h f = refl
entry-untracked now k (json_list l) x b h f = untracked-timed now k x b h f

pub untracked :
    (now : ℕ) (k : String) (a b : Option Entry)
    → is_tracked now k a b ≡ true
    → ((t : ℕ) → is_held k t b ≡ false)
    → is_tracked now k a none ≡ true
untracked now k none b h f = refl
untracked now k (some e) b h f = entry-untracked now k e.value e.expires b h f
