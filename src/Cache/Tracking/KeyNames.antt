-- ===== src/Cache/Tracking/KeyNames.antt =====
-- How the keys of app/internal/tasks/repository/redis/redis.go differ.
use Prim.Native.Char.{Char, code}
use text.Mathlib.TextLemmas.{append_cancel_left, nil-append, cons-append, append_assoc}
use tasks_service.Prelude.{
  ◌==◌, eq_iff, ℕ, zero, suc, ◌≡◌, ◌≢◌, refl, ap, ◌∙◌, Bool, true, false, String, Option, none,
  some, List, [], ◌∷◌, ◌<>◌, Bool-cases, inl, inr, onto_first, cut, split, split-append, Lacks,
  lacks, arith, nat_eq,
}
use mathlib.Core.Option
use tasks_service.Cache.{
  task_key, user_key, tag_key, list_keys_of, before_cut, tracking_key, user_list_key,
}
use tasks_service.Cache.Requests.{list_key}
use tasks_service.Cache.Tracking.{code_at, is_tracking, is_data_key}

-- The text has an n-th character.
unfoldable pub is_longer : ℕ → String → Bool
is_longer n String.[] = false
is_longer zero (String.◌∷◌ c s) = true
is_longer (suc n) (String.◌∷◌ c s) = is_longer n s

pub code_at-append :
    (n : ℕ) (s t : String) → is_longer n s ≡ true → code_at n (s <> t) ≡ code_at n s
unfolding code_at is_longer
code_at-append n String.[] t h = cc
code_at-append zero (String.◌∷◌ c s) t h = rw cons-append refl
code_at-append (suc n) (String.◌∷◌ c s) t h = rw cons-append (code_at-append n s t h)

pub task_key-is_data_key : (id : String) → is_data_key (task_key id) ≡ true
unfolding code_at is_longer
task_key-is_data_key id = rw (code_at-append 0 "task:" id refl)

pub tag_key-is_data_key : (tag : String) → is_data_key (tag_key tag) ≡ true
unfolding code_at is_longer
tag_key-is_data_key tag = rw (code_at-append 0 "tag_tasks:" tag refl)

pub list_key-is_data_key : (rest : String) → is_data_key (list_key rest) ≡ true
unfolding code_at is_longer
list_key-is_data_key rest = rw (code_at-append 0 "tasks:user:" rest refl)

pub list_keys_of-is_tracking : (user : String) → is_tracking (list_keys_of user) ≡ true
unfolding code_at is_longer
list_keys_of-is_tracking user =
    rw (code_at-append 0 "user_list_keys:" user refl, code_at-append 5 "user_list_keys:" user refl)

pub user_key-not_tracking : (user : String) → is_tracking (user_key user) ≡ false
unfolding code_at is_longer
user_key-not_tracking user =
    rw (code_at-append 0 "user_tasks:" user refl, code_at-append 5 "user_tasks:" user refl)

pub data_key-not_tracking : (k : String) → is_data_key k ≡ true → is_tracking k ≡ false
data_key-not_tracking k h = ground arith

-- The user in the key of a list.
abbrev first_part : List String → String
first_part [] = ""
first_part (p ∷ ps) = p

abbrev pub owner : String → String
owner rest = first_part (split 58 (before_cut rest (cut 59 rest)))

before_cut_cons :
    (c : Char) (s : String) (o : Option (String × String)) (sep : ℕ)
    → before_cut (String.◌∷◌ c s) (Option.map (λ (p : String × String). (String.◌∷◌ c p.0, p.1)) o)
      ≡ String.◌∷◌ c (before_cut s o)
before_cut_cons c s none sep = refl
before_cut_cons c s (some p) sep = refl

before_cut-append :
    (sep : ℕ) (s t : String)
    → Lacks sep s
    → before_cut (s <> t) (cut sep (s <> t)) ≡ s <> before_cut t (cut sep t)
unfolding cut lacks
before_cut-append sep String.[] t h = rw (nil-append, nil-append) refl
before_cut-append sep (String.◌∷◌ c s) t h =
    rw (cons-append c s t, cons-append)
      (ground (arith, before_cut_cons c (s <> t) (cut sep (s <> t)) sep, before_cut-append sep s t))

split-list_key :
    (rest : String) → split 58 ("tasks:user:" <> rest) ≡ "tasks" ∷ "user" ∷ split 58 rest
unfolding lacks
split-list_key rest =
    ap (split 58) (
      append_assoc "tasks" ":user:" rest
      ∙ ap (λ v. "tasks" <> v)
          (cons-append ":" "user:" rest
            ∙ ap (String.◌∷◌ ":") (
                append_assoc "user" ":" rest
                ∙ ap (λ v. "user" <> v)
                    (cons-append ":" "" rest ∙ ap (String.◌∷◌ ":") (nil-append rest)))))
    ∙ split-append ":" "tasks" _ refl
    ∙ ap (◌∷◌ "tasks") (split-append ":" "user" rest refl)

part_key :
    (parts : List String)
    → parts ≢ []
    → tracking_key ("tasks" ∷ "user" ∷ parts) ≡ some (list_keys_of (first_part parts))
part_key [] h = absurd (h refl)
part_key (p ∷ ps) h = refl

onto_first-ne-nil : (c : Char) (ps : List String) → onto_first c ps ≢ []
onto_first-ne-nil c [] = λ h. cc
onto_first-ne-nil c (p ∷ ps) = λ h. cc

split-ne-nil : (sep : ℕ) (s : String) → split sep s ≢ []
unfolding split
split-ne-nil sep String.[] = λ h. cc
split-ne-nil sep (String.◌∷◌ c s) = elim (Bool-cases (nat_eq (code c) sep)) [
  | inl e ↦ rw e (λ h. cc)
  | inr e ↦ rw e (onto_first-ne-nil c (split sep s))
]

-- The key of a list is tracked for the user that it names.
pub user_list_key_lem :
    (rest : String) → user_list_key (list_key rest) ≡ some (list_keys_of (owner rest))
unfolding user_list_key lacks
user_list_key_lem rest =
    rw (before_cut-append 59 "tasks:user:" rest refl, split-list_key)
      (part_key (split 58 (before_cut rest (cut 59 rest))) (split-ne-nil 58 _))

-- The key of a task is none of the others.
pub user_key-ne : (id user : String) → (task_key id == user_key user) ≡ false
unfolding code_at is_longer
user_key-ne id user = ground (
  arith,
  eq_iff (task_key id) (user_key user),
  code_at-append 0 "task:" id refl,
  code_at-append 0 "user_tasks:" user refl,
)

pub tag_key-ne : (id tag : String) → (task_key id == tag_key tag) ≡ false
unfolding code_at is_longer
tag_key-ne id tag = ground (
  arith,
  eq_iff (task_key id) (tag_key tag),
  code_at-append 2 "task:" id refl,
  code_at-append 2 "tag_tasks:" tag refl,
)

pub list_key-ne : (id rest : String) → (task_key id == list_key rest) ≡ false
unfolding code_at is_longer
list_key-ne id rest = ground (
  arith,
  eq_iff (task_key id) (list_key rest),
  code_at-append 4 "task:" id refl,
  code_at-append 4 "tasks:user:" rest refl,
)

pub list_keys_of-ne : (id user : String) → (task_key id == list_keys_of user) ≡ false
unfolding code_at is_longer
list_keys_of-ne id user = ground (
  arith,
  eq_iff (task_key id) (list_keys_of user),
  code_at-append 0 "task:" id refl,
  code_at-append 0 "user_list_keys:" user refl,
)

pub task_key-ne :
    (id other : String) → (id == other) ≡ false → (task_key id == task_key other) ≡ false
task_key-ne id other h = ground (
  arith,
  eq_iff (task_key id) (task_key other),
  eq_iff id other,
  append_cancel_left "task:" id other,
)
