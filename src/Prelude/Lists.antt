-- ===== src/Prelude/Lists.antt =====
-- Lists over the native numbers, and the table operations that SQL statements are made of.
use Prim.Native.Nat.{ℕ, suc, ◌+◌}
use mathlib.Core.Path.{◌≡◌, refl}
use mathlib.Core.Bool.{Bool, true, false, not, ◌&&◌, ◌||◌}
use mathlib.Core.Option
use mathlib.Core.Option.{Option, none, some}
use mathlib.Core.List.{List, [], ◌∷◌, ◌++◌, map}
use native.Mathlib.Omega.{arith}
use tasks_service.Prelude.Tests.{nat_eq, if◌then◌else◌}

module _ {ℓ} {A : Type ℓ} where
  abbrev pub length : List A → ℕ
  length [] = 0
  length (x ∷ xs) = suc (length xs)

  pub length-append : (xs ys : List A) → length (xs ++ ys) ≡ length xs + length ys
  length-append [] ys = omega arith
  length-append (x ∷ xs) ys = omega (arith, length-append xs ys)

  abbrev pub is_empty : List A → Bool
  is_empty [] = true
  is_empty (x ∷ xs) = false

  -- The first row that passes the test.
  unfoldable pub find : (A → Bool) → List A → Option A
  find p [] = none
  find p (x ∷ xs) = let rest = find p xs in if p x then some x else rest

  -- The rows that pass the test, in their order.
  unfoldable pub select : (A → Bool) → List A → List A
  select p [] = []
  select p (x ∷ xs) = let rest = select p xs in if p x then x ∷ rest else rest

  -- The number of rows that pass the test: what an UPDATE or a DELETE reports as affected.
  unfoldable pub count : (A → Bool) → List A → ℕ
  count p [] = 0
  count p (x ∷ xs) = let rest = count p xs in if p x then suc rest else rest

  -- UPDATE … SET f WHERE p.
  unfoldable pub update_where : (A → Bool) → (A → A) → List A → List A
  update_where p f [] = []
  update_where p f (x ∷ xs) = let rest = update_where p f xs in if p x then f x ∷ rest else x ∷ rest

  -- Some element passes the test.
  unfoldable pub any : (A → Bool) → List A → Bool
  any p [] = false
  any p (x ∷ xs) = let rest = any p xs in if p x then true else rest

  abbrev pub All {κ} : (A → Type κ) → List A → Type κ
  All P [] = Unit
  All P (x ∷ xs) = P x × All P xs

  pub All-append {κ} : (P : A → Type κ) (xs ys : List A) → All P xs → All P ys → All P (xs ++ ys)
  All-append P [] ys hx hy = hy
  All-append P (x ∷ xs) ys hx hy = (hx.0, All-append P xs ys hx.1 hy)

  pub All-map {κ μ} :
      (P : A → Type κ) (Q : A → Type μ) (xs : List A) → ((x : A) → P x → Q x) → All P xs → All Q xs
  All-map P Q [] f h = tt
  All-map P Q (x ∷ xs) f h = (f x h.0, All-map P Q xs f h.1)

  pub All-update_where {κ} :
      (P : A → Type κ) (p : A → Bool) (f : A → A) (xs : List A)
      → ((x : A) → p x ≡ true → P x → P (f x))
      → All P xs
      → All P (update_where p f xs)
  unfolding update_where
  All-update_where P p f [] keep h = tt
  All-update_where P p f (x ∷ xs) keep h =
      ground (arith, keep x, All-update_where P p f xs keep h.1)

  pub All-select {κ} :
      (P : A → Type κ) (p : A → Bool) (xs : List A) → All P xs → All P (select p xs)
  unfolding select
  All-select P p [] h = tt
  All-select P p (x ∷ xs) h = ground (arith, All-select P p xs h.1)

  -- An UPDATE that affects no row changes nothing.
  pub update_where-eq_of_count :
      (p : A → Bool) (f : A → A) (xs : List A) → count p xs ≡ 0 → update_where p f xs ≡ xs
  unfolding update_where count
  update_where-eq_of_count p f [] h = refl
  update_where-eq_of_count p f (x ∷ xs) h = ground (arith, update_where-eq_of_count p f xs)

  pub update_where-eq_of_find :
      (p : A → Bool) (f : A → A) (xs : List A) → find p xs ≡ none → update_where p f xs ≡ xs
  unfolding update_where find
  update_where-eq_of_find p f [] h = refl
  update_where-eq_of_find p f (x ∷ xs) h = ground (arith, update_where-eq_of_find p f xs)

  pub select-eq_of_true : (p : A → Bool) (xs : List A) → ((x : A) → p x ≡ true) → select p xs ≡ xs
  unfolding select
  select-eq_of_true p [] h = refl
  select-eq_of_true p (x ∷ xs) h = ground (arith, h x, select-eq_of_true p xs h)

  pub select-eq_of_count :
      (p : A → Bool) (xs : List A) → count p xs ≡ 0 → select (λ x. not (p x)) xs ≡ xs
  unfolding select count
  select-eq_of_count p [] h = refl
  select-eq_of_count p (x ∷ xs) h = ground (arith, select-eq_of_count p xs)

  pub any-false_of_count :
      (p q : A → Bool) (xs : List A) → count p xs ≡ 0 → any (λ x. p x && q x) xs ≡ false
  unfolding any count
  any-false_of_count p q [] h = refl
  any-false_of_count p q (x ∷ xs) h = ground (arith, any-false_of_count p q xs)

  pub any-append_left : (p : A → Bool) (xs ys : List A) → any p xs ≡ true → any p (xs ++ ys) ≡ true
  unfolding any
  any-append_left p [] ys h = cc
  any-append_left p (x ∷ xs) ys h = ground (arith, any-append_left p xs ys)

  pub any-update_where :
      (q p : A → Bool) (f : A → A) (xs : List A)
      → ((x : A) → q (f x) ≡ q x)
      → any q (update_where p f xs) ≡ any q xs
  unfolding any update_where
  any-update_where q p f [] same = refl
  any-update_where q p f (x ∷ xs) same = ground (arith, same x, any-update_where q p f xs same)

  -- What is found outside the deleted rows is still found.
  pub any-select-not :
      (p q : A → Bool) (xs : List A)
      → any q xs ≡ true
      → any (λ x. p x && q x) xs ≡ false
      → any q (select (λ x. not (p x)) xs) ≡ true
  unfolding any select
  any-select-not p q [] h g = cc
  any-select-not p q (x ∷ xs) h g = ground (arith, any-select-not p q xs)

  pub any-select-false :
      (p q : A → Bool) (xs : List A) → any q xs ≡ false → any q (select p xs) ≡ false
  unfolding any select
  any-select-false p q [] h = refl
  any-select-false p q (x ∷ xs) h = ground (arith, any-select-false p q xs)

  -- Every element that is kept passes the test.
  pub All-select_test : (p : A → Bool) (xs : List A) → All (λ x. p x ≡ true) (select p xs)
  unfolding select
  All-select_test p [] = tt
  All-select_test p (x ∷ xs) = ground (arith, All-select_test p xs)

  pub any-append : (p : A → Bool) (xs ys : List A) → any p (xs ++ ys) ≡ (any p xs || any p ys)
  unfolding any
  any-append p [] ys = refl
  any-append p (x ∷ xs) ys = ground (arith, any-append p xs ys)

  abbrev pub or_else : Option A → Option A → Option A
  or_else none b = b
  or_else (some a) b = some a

  pub find-append :
      (p : A → Bool) (xs ys : List A) → find p (xs ++ ys) ≡ or_else (find p xs) (find p ys)
  unfolding find
  find-append p [] ys = refl
  find-append p (x ∷ xs) ys = ground (arith, find-append p xs ys)

  abbrev pub when {κ} : {B : Type κ} → (A → Bool) → (A → B) → (A → B) → A → B
  when p f g x = if p x then f x else g x

  -- What a search finds after an UPDATE that leaves its test alone.
  pub find-update_where :
      (q p : A → Bool) (f : A → A) (xs : List A)
      → ((x : A) → q (f x) ≡ q x)
      → find q (update_where p f xs) ≡ Option.map (when p f (λ x. x)) (find q xs)
  unfolding find update_where
  find-update_where q p f [] same = refl
  find-update_where q p f (x ∷ xs) same = ground (arith, same x, find-update_where q p f xs same)

  pub find-eq-none : (p : A → Bool) (xs : List A) → any p xs ≡ false → find p xs ≡ none
  unfolding find any
  find-eq-none p [] h = refl
  find-eq-none p (x ∷ xs) h = ground (arith, find-eq-none p xs)

  pub find_passes : (p : A → Bool) (xs : List A) (x : A) → find p xs ≡ some x → p x ≡ true
  unfolding find
  find_passes p [] x h = cc
  find_passes p (y ∷ xs) x h = ground (arith, find_passes p xs x)

  -- A change that undoes itself, made twice to the same rows.
  pub update_where_twice :
      (p : A → Bool) (f : A → A) (xs : List A)
      → ((x : A) → p (f x) ≡ p x)
      → ((x : A) → f (f x) ≡ x)
      → update_where p f (update_where p f xs) ≡ xs
  unfolding update_where
  update_where_twice p f [] same back = refl
  update_where_twice p f (x ∷ xs) same back =
      ground (arith, same x, back x, update_where_twice p f xs same back)

  pub any-select-not_self :
      (p : A → Bool) (xs : List A) → any p (select (λ x. not (p x)) xs) ≡ false
  unfolding any select
  any-select-not_self p [] = refl
  any-select-not_self p (x ∷ xs) = ground (arith, any-select-not_self p xs)

  pub any-select_excluded :
      (p q : A → Bool) (xs : List A)
      → ((x : A) → p x ≡ true → q x ≡ false)
      → any q (select p xs) ≡ false
  unfolding any select
  any-select_excluded p q [] h = refl
  any-select_excluded p q (x ∷ xs) h = ground (arith, h x, any-select_excluded p q xs h)

  pub any_of_find :
      (p q : A → Bool) (xs : List A) (x : A)
      → find p xs ≡ some x
      → ((y : A) → p y ≡ true → q y ≡ true)
      → any q xs ≡ true
  unfolding any find
  any_of_find p q [] x h g = cc
  any_of_find p q (y ∷ ys) x h g = ground (arith, g y, any_of_find p q ys x)

  pub count_of_find :
      (p : A → Bool) (xs : List A) (x : A) → find p xs ≡ some x → nat_eq (count p xs) 0 ≡ false
  unfolding count find
  count_of_find p [] x h = cc
  count_of_find p (y ∷ ys) x h = ground (arith, count_of_find p ys x)

  pub any-append_last :
      (p : A → Bool) (xs : List A) (x : A) → p x ≡ true → any p (xs ++ x ∷ []) ≡ true
  unfolding any
  any-append_last p [] x h = rw h refl
  any-append_last p (y ∷ xs) x h = ground (arith, any-append_last p xs x h)

-- What holds of the images holds of the mapped list.
pub All-compose {ℓ κ μ} :
    {A : Type ℓ} {B : Type κ} (P : B → Type μ) (f : A → B) (xs : List A)
    → All (λ x. P (f x)) xs
    → All P (map f xs)
All-compose P f [] h = tt
All-compose P f (x ∷ xs) h = (h.0, All-compose P f xs h.1)
