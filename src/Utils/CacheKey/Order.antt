-- ===== src/Utils/CacheKey/Order.antt =====
-- The keys of app/pkg/utils/CacheKey/build.go do not depend on the order of the filters.
use Prim.Native.Nat.{Ordering, compare as compare_ℕ}
use Prim.Native.Char.{code}
use Prim.Native.String.compare
use Prim.Native.String.{compare, then}
use text.Mathlib.TextPositions.{compare_refl}
use mathlib.Core.Logic.Or
use text.Mathlib.TextEquality.{path_by_compare, IsScalar-prop}
use mathlib.Core.List.{Mem, Perm, Pairwise, mem-cons_self, mem-cons, rel_of_Pairwise-cons}
use mathlib.Core.List.Perm
use mathlib.Core.List.Pairwise
use tasks_service.Prelude.{◌≡◌, ◌≢◌, refl, sym, ap₂, ◌∙◌, String, List, [], ◌∷◌, arith}
use tasks_service.Api.Sort.{Options}
use tasks_service.Api.Filter.{Field, FilterOption}
use tasks_service.Utils.CacheKey.{key_with, build_cache_key}

-- What `sort.Slice` promises: no later field has a smaller name.
abbrev pub IsByName : List Field → Type 0
IsByName = Pairwise (λ f g. compare g.name f.name ≢ Ordering.lt)

-- No two filters have the same name.
abbrev pub HasDistinctNames : List Field → Type 0
HasDistinctNames = Pairwise (λ f g. f.name ≢ g.name)

then_flip :
    (o p r q : Ordering)
    → (o ≡ Ordering.gt → p ≡ Ordering.lt)
    → (o ≡ Ordering.eq → p ≡ Ordering.eq)
    → (r ≡ Ordering.gt → q ≡ Ordering.lt)
    → then o r ≡ Ordering.gt
    → then p q ≡ Ordering.lt
then_flip Ordering.lt p r q gt eq tail h = cc
then_flip Ordering.eq p r q gt eq tail h = rw (eq refl) (tail h)
then_flip Ordering.gt p r q gt eq tail h = rw (gt refl) refl

compare_flip : (s t : String) → compare s t ≡ Ordering.gt → compare t s ≡ Ordering.lt
compare_flip String.[] String.[] h = cc
compare_flip String.[] (String.◌∷◌ d t) h = absurd (ground (arith, compare.nil-cons d t))
compare_flip (String.◌∷◌ c s) String.[] h = compare.nil-cons c s
compare_flip (String.◌∷◌ c s) (String.◌∷◌ d t) h =
    compare.cons-cons d c t s
    ∙ then_flip (compare_ℕ (code c) (code d)) (compare_ℕ (code d) (code c)) (compare s t)
        (compare t s) (λ e. ground arith) (λ e. ground arith) (compare_flip s t)
        (sym (compare.cons-cons c d s t) ∙ h)

names_equal : (s t : String) → compare s t ≢ Ordering.lt → compare t s ≢ Ordering.lt → s ≡ t
names_equal s t p q = decided (compare s t) refl
  where
    decided : (o : Ordering) → compare s t ≡ o → s ≡ t
    decided Ordering.lt e = absurd (p e)
    decided Ordering.eq e = path_by_compare s t e
    decided Ordering.gt e = absurd (q (compare_flip s t e))

Field-set : IsSet Field
Field-set = hlevel (IsScalar-prop)

ne_prop : (f g : Field) → IsProp (compare f.name g.name ≢ Ordering.lt)
ne_prop f g = hlevel

-- The head of a sorted list is not after any of its fields.
head_first :
    (f g : Field) (fs : List Field)
    → IsByName (g ∷ fs)
    → Mem f (g ∷ fs)
    → compare f.name g.name ≢ Ordering.lt
head_first f g fs s m =
    Or.elim (ne_prop f g) (mem-cons.0 m) (λ e. rw e (λ h. ground (arith, compare_refl g.name)))
      (λ k. rel_of_Pairwise-cons s k)

only_head :
    (f g : Field) (fs : List Field)
    → HasDistinctNames (f ∷ fs)
    → f.name ≡ g.name
    → Mem g (f ∷ fs)
    → f ≡ g
only_head f g fs d e m =
    Or.elim (Field-set f g) (mem-cons.0 m) (λ h. sym h) (λ k. absurd (rel_of_Pairwise-cons d k e))

sorted_unique :
    (fs gs : List Field) → HasDistinctNames fs → IsByName fs → IsByName gs → Perm fs gs → fs ≡ gs
sorted_unique [] gs d s t p = Perm.nil-eq p
sorted_unique (f ∷ fs) [] d s t p = Perm.eq-nil p
sorted_unique (f ∷ fs) (g ∷ gs) d s t p =
    let forth = (Perm.mem_iff p).0 mem-cons_self in
    let back = (Perm.mem_iff p).1 mem-cons_self in
    let name = names_equal f.name g.name (head_first f g gs t forth) (head_first g f fs s back) in
    let heads = only_head f g fs d name back in
    let tails = Perm.cons_inv (Perm.trans p (Perm.symm (Perm.cons' heads Perm.rfl))) in
    ap₂ ◌∷◌ heads
      (sorted_unique fs gs (Pairwise.of_cons d) (Pairwise.of_cons s) (Pairwise.of_cons t) tails)

-- `by_name` sorts this list, as `sort.Slice` does.
abbrev pub IsSorting : (List Field → List Field) → List Field → Type 0
IsSorting by_name fs = IsByName (by_name fs) × Perm (by_name fs) fs

-- Two lists of filters that differ in their order only, and in which no two filters have one name,
-- give the same key with any function that sorts both by name.
pub build_cache_key-perm :
    (by_name : List Field → List Field) (user : String) (f g : FilterOption) (o : Options)
    → IsSorting by_name f.fields
    → IsSorting by_name g.fields
    → HasDistinctNames f.fields
    → Perm f.fields g.fields
    → f.limit ≡ g.limit
    → build_cache_key by_name user f o ≡ build_cache_key by_name user g o
unfolding build_cache_key key_with
build_cache_key-perm by_name user f g o (sorted, keeps) (sorted', keeps') distinct same limit =
    let distinct' =
      Perm.pairwise (λ f g. hlevel) (λ f g e h. e (sym h)) (Perm.symm keeps) distinct in
    let lists =
      sorted_unique (by_name f.fields) (by_name g.fields) distinct' sorted sorted'
        (Perm.trans keeps (Perm.trans same (Perm.symm keeps'))) in
    rw (lists, limit) refl
