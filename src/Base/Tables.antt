-- ===== src/Base/Tables.antt =====
-- Lists as the program's arrays: membership, filters and tests, and the laws of membership as
-- equations between truth values.
use Prim.Native.Nat.{ℕ, suc, ◌+◌, ◌≤◌, ◌<◌}
use mathlib.Core.Path.{◌≡◌, refl, ap}
use mathlib.Core.Logic.{inl, inr, ◌↔◌}
use mathlib.Core.Bool.{Bool, true, false, ◌&&◌, ◌||◌}
use mathlib.Core.Option.{Option, none, some}
use mathlib.Core.List.{List, [], ◌∷◌, ◌++◌}
use native.Mathlib.Omega.{arith}
use sso_requests.Base.Tests.{if◌then◌else◌, Eq, ◌==◌, Bool-cases, is_some}

module _ {ℓ} {A : Type ℓ} where
  abbrev pub length : List A → ℕ
  length [] = 0
  length (x ∷ xs) = suc (length xs)

  -- `xs.filter(p)`, `xs.some(p)`, `xs.every(p)`, `xs.find(p)`.
  abbrev pub filter : (A → Bool) → List A → List A
  filter p [] = []
  filter p (x ∷ xs) = if p x then x ∷ filter p xs else filter p xs

  abbrev pub any : (A → Bool) → List A → Bool
  any p [] = false
  any p (x ∷ xs) = p x || any p xs

  abbrev pub all : (A → Bool) → List A → Bool
  all p [] = true
  all p (x ∷ xs) = p x && all p xs

  abbrev pub find : (A → Bool) → List A → Option A
  find p [] = none
  find p (x ∷ xs) = if p x then some x else find p xs

  -- How many rows satisfy the test.
  abbrev pub count : (A → Bool) → List A → ℕ
  count p [] = 0
  count p (x ∷ xs) = if p x then suc (count p xs) else count p xs

  -- `UPDATE … SET f WHERE p`.
  abbrev pub update_where : (A → Bool) → (A → A) → List A → List A
  update_where p f [] = []
  update_where p f (x ∷ xs) = (if p x then f x else x) ∷ update_where p f xs

  pub count-append : (p : A → Bool) (xs ys : List A) → count p (xs ++ ys) ≡ count p xs + count p ys
  count-append p [] ys = omega arith
  count-append p (x ∷ xs) ys = ground (arith, count-append p xs ys)

  pub count-le-length : (p : A → Bool) (xs : List A) → count p xs ≤ length xs
  count-le-length p [] = omega arith
  count-le-length p (x ∷ xs) = ground (arith, count-le-length p xs)

  -- A count that an update of other columns leaves alone.
  pub count-update_where :
      (q p : A → Bool) (f : A → A)
      → ((x : A) → p x ≡ true → q (f x) ≡ q x)
      → (xs : List A) → count q (update_where p f xs) ≡ count q xs
  count-update_where q p f h [] = refl
  count-update_where q p f h (x ∷ xs) = ground (arith, h x, count-update_where q p f h xs)

  -- A count that an update can only lower.
  pub count-update_where-le :
      (q p : A → Bool) (f : A → A)
      → ((x : A) → p x ≡ true → q (f x) ≡ true → q x ≡ true)
      → (xs : List A) → count q (update_where p f xs) ≤ count q xs
  count-update_where-le q p f h [] = omega arith
  count-update_where-le q p f h (x ∷ xs) = ground (arith, h x, count-update_where-le q p f h xs)

  pub find-eq-some_holds : (p : A → Bool) (xs : List A) {a : A} → find p xs ≡ some a → p a ≡ true
  find-eq-some_holds p [] h = ground arith
  find-eq-some_holds p (x ∷ xs) {a} h = elim (Bool-cases (p x)) [
    | inl hit ↦ ground (arith, hit)
    | inr miss ↦ find-eq-some_holds p xs (ground (arith, miss))
  ]

  pub find-update_where :
      (p : A → Bool) (f : A → A) (xs : List A)
      → ((x : A) → p (f x) ≡ p x)
      → {a : A} → find p xs ≡ some a
      → find p (update_where p f xs) ≡ some (f a)
  find-update_where p f [] h k = cc
  find-update_where p f (x ∷ xs) h {a} k = elim (Bool-cases (p x)) [
    | inl hit ↦ ground (arith, hit, h x)
    | inr miss ↦ ground (arith, miss, find-update_where p f xs h {a = a} (ground (arith, miss)))
  ]

  pub any-find : (p : A → Bool) (xs : List A) → any p xs ≡ is_some (find p xs)
  any-find p [] = refl
  any-find p (x ∷ xs) = ground (arith, any-find p xs)

  pub find-eq-none-count : (p : A → Bool) (xs : List A) → find p xs ≡ none → count p xs ≡ 0
  find-eq-none-count p [] h = refl
  find-eq-none-count p (x ∷ xs) h = ground (arith, find-eq-none-count p xs)

  -- An update that selects no row changes nothing.
  pub update_where-none :
      (p : A → Bool) (f : A → A) (xs : List A) → count p xs ≡ 0 → update_where p f xs ≡ xs
  update_where-none p f [] h = refl
  update_where-none p f (x ∷ xs) h = ground (arith, update_where-none p f xs)

  pub count-filter : (q p : A → Bool) (xs : List A) → count q (filter p xs) ≤ count q xs
  count-filter q p [] = omega arith
  count-filter q p (x ∷ xs) = ground (arith, count-filter q p xs)

  pub length-filter : (p : A → Bool) (xs : List A) → length (filter p xs) ≡ count p xs
  length-filter p [] = refl
  length-filter p (x ∷ xs) = ground (arith, length-filter p xs)

  pub any-count : (p : A → Bool) (xs : List A) → any p xs ≡ false → count p xs ≡ 0
  any-count p [] h = refl
  any-count p (x ∷ xs) h = ground (arith, any-count p xs)

  pub count-any : (p : A → Bool) (xs : List A) → any p xs ≡ true → 0 < count p xs
  count-any p [] h = cc
  count-any p (x ∷ xs) h = ground (arith, count-any p xs)

  pub count_mono :
      (q p : A → Bool)
      → ((x : A) → q x ≡ true → p x ≡ true)
      → (xs : List A) → count q xs ≤ count p xs
  count_mono q p h [] = omega arith
  count_mono q p h (x ∷ xs) = ground (arith, h x, count_mono q p h xs)

  -- A test that an update makes false of every row.
  pub count-update_where_none :
      (q p : A → Bool) (f : A → A)
      → ((x : A) → p x ≡ true → q (f x) ≡ false)
      → ((x : A) → p x ≡ false → q x ≡ false)
      → (xs : List A) → count q (update_where p f xs) ≡ 0
  count-update_where_none q p f h k [] = refl
  count-update_where_none q p f h k (x ∷ xs) =
      ground (arith, h x, k x, count-update_where_none q p f h k xs)

-- A statement about every row of a table.
module _ {A : Type 0} (P : A → Type 0) where
  abbrev pub All : List A → Type 0
  All [] = Unit
  All (x ∷ xs) = P x × All xs

  pub All-find : (p : A → Bool) (xs : List A) {a : A} → All xs → find p xs ≡ some a → P a
  All-find p [] h k = cc
  All-find p (x ∷ xs) {a} h k = elim (Bool-cases (p x)) [
    | inl hit ↦ let e : x ≡ a = ground (arith, hit) in rw (← e) h.0
    | inr miss ↦ All-find p xs h.1 (ground (arith, miss))
  ]

module _ {A : Type 0} where
  -- A count that an update of other columns leaves alone, of rows that are known.
  pub count-update_where-All :
      (q p : A → Bool) (f : A → A) (xs : List A)
      → All (λ x. p x ≡ true → q (f x) ≡ q x) xs
      → count q (update_where p f xs) ≡ count q xs
  count-update_where-All q p f [] h = refl
  count-update_where-All q p f (x ∷ xs) h = ground (arith, h.0, count-update_where-All q p f xs h.1)

module _ {A : Type 0} (P Q : A → Type 0) (f : (a : A) → P a → Q a) where
  pub All-map : (xs : List A) → All P xs → All Q xs
  All-map [] h = tt
  All-map (x ∷ xs) h = (f x h.0, All-map xs h.1)

module _ {A : Type 0} ⦃e : Eq A⦄ where
  -- `xs.includes(a)`.
  abbrev pub includes : List A → A → Bool
  includes [] a = false
  includes (x ∷ xs) a = x == a || includes xs a

  pub includes-filter :
      (p : A → Bool) (xs : List A) (a : A) → includes (filter p xs) a ≡ includes xs a && p a
  includes-filter p [] a = refl
  includes-filter p (x ∷ xs) a = elim (Bool-cases (x == a)) [
    | inl same ↦ ground (arith, includes-filter p xs a, ap p ((e.beq_iff x a).0 same), same)
    | inr other ↦ ground (arith, includes-filter p xs a, other)
  ]

  pub includes-append :
      (xs ys : List A) (a : A) → includes (xs ++ ys) a ≡ includes xs a || includes ys a
  includes-append [] ys a = refl
  includes-append (x ∷ xs) ys a = ground (arith, includes-append xs ys a)

  -- `every` over a list is the test at each of its members.
  pub all_iff :
      (q : A → Bool) (xs : List A)
      → (all q xs ≡ true) ↔ ((a : A) → includes xs a ≡ true → q a ≡ true)
  all_iff q [] = (λ h a m. cc, λ h. refl)
  all_iff q (x ∷ xs) = (
    λ h a m. elim (Bool-cases (x == a)) [
      | inl same ↦ ground (arith, ap q ((e.beq_iff x a).0 same))
      | inr other ↦ (all_iff q xs).0 (ground arith) a (ground (arith, other))
    ],
    λ h.
        ground
          (arith, h x, (e.beq_iff x x).1 refl, (all_iff q xs).1 (λ a m. h a (ground (arith, m)))),
  )
