-- ===== src/Utils/Examples.antt =====
-- The utilities of app/pkg/utils at concrete inputs, and the theorems applied to them.
use mathlib.Core.List.{Perm, Pairwise-pair}
use mathlib.Core.List.Perm
use tasks_service.Prelude.{
  ℕ, ◌≡◌, ◌+◌, refl, String, Option, none, some, List, [], ◌∷◌, ◌==◌, arith, eq_iff, ltb,
  if◌then◌else◌,
}
use tasks_service.Api.Sort.{Options}
use tasks_service.Api.Filter.{Field, FilterOption}
use tasks_service.Utils.CacheKey.{build_cache_key}
use tasks_service.Utils.CacheKey.Order.{IsByName, HasDistinctNames, build_cache_key-perm}
use tasks_service.Utils.Tries.{do_with_tries}
use tasks_service.Utils.Tries.Bounds.{IsOutcome, do_with_tries_lem}

abbrev by_status : Field
by_status = record { name = "status"; value = "1"; operator = "eq" }

abbrev by_title : Field
by_title = record { name = "title"; value = "trip"; operator = "like" }

abbrev two_filters : FilterOption
two_filters = record { fields = by_title ∷ by_status ∷ []; limit = 20 }

abbrev two_sorted : FilterOption
two_sorted = record { fields = by_status ∷ by_title ∷ []; limit = 20 }

-- Sorts two fields.
abbrev sort_two : List Field → List Field
sort_two (f ∷ g ∷ []) = if g.name == "status" then g ∷ f ∷ [] else f ∷ g ∷ []
sort_two fs = fs

abbrev by_due : Options
by_due = record { fields = "due_date"; order = "asc" }

sorted-IsByName : IsByName (by_status ∷ by_title ∷ [])
sorted-IsByName = (Pairwise-pair (λ f g. hlevel)).1 (λ h. cc)

swapped-HasDistinctNames : HasDistinctNames (by_title ∷ by_status ∷ [])
swapped-HasDistinctNames =
    (Pairwise-pair (λ f g. hlevel)).1 (λ h. ground (arith, eq_iff "title" "status"))

swapped_perm : Perm (by_status ∷ by_title ∷ []) (by_title ∷ by_status ∷ [])
swapped_perm = Perm.swap _ _ _

build_cache_key-perm_example :
    build_cache_key sort_two "u1" two_filters by_due
    ≡ build_cache_key sort_two "u1" two_sorted by_due
build_cache_key-perm_example =
    build_cache_key-perm sort_two "u1" two_filters two_sorted by_due (sorted-IsByName, swapped_perm)
      (sorted-IsByName, Perm.rfl) swapped-HasDistinctNames (Perm.symm swapped_perm) refl

-- Fails twice.
abbrev connect : ℕ → Option String × ℕ
connect n = if ltb n 2 then (some "refused", n + 1) else (none, n + 1)

do_with_tries_lem_example : IsOutcome connect 4 0 (do_with_tries connect 4 0)
do_with_tries_lem_example = do_with_tries_lem connect 3 0
