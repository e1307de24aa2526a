-- ===== src/Base/Sorting.antt =====
-- `ORDER BY … LIMIT …`: a stable sort by a comparison, and the first rows.
use Prim.Native.Nat.{ℕ, zero, suc, ◌≤◌}
use mathlib.Core.Logic.{inl, inr}
use mathlib.Core.Path.{◌≡◌, refl, subst}
use mathlib.Core.Bool.{Bool, true}
use mathlib.Core.Option.{Option, none, some}
use mathlib.Core.List.{List, [], ◌∷◌}
use native.Mathlib.Omega.{arith}
use sso_requests.Base.Tests.{if◌then◌else◌, leb, Bool-cases}
use sso_requests.Base.Tables.{count, length, All, filter}

module _ {ℓ} {A : Type ℓ} where
  -- `before x y`: `x` may stand in front of `y`.
  abbrev pub insert_ordered : (A → A → Bool) → A → List A → List A
  insert_ordered before x [] = x ∷ []
  insert_ordered before x (y ∷ ys) =
      if before x y then x ∷ y ∷ ys else y ∷ insert_ordered before x ys

  abbrev pub order_by : (A → A → Bool) → List A → List A
  order_by before [] = []
  order_by before (x ∷ xs) = insert_ordered before x (order_by before xs)

  abbrev pub take : ℕ → List A → List A
  take zero xs = []
  take (suc n) [] = []
  take (suc n) (x ∷ xs) = x ∷ take n xs

  abbrev pub head? : List A → Option A
  head? [] = none
  head? (x ∷ xs) = some x

  count-insert_ordered :
      (q : A → Bool) (before : A → A → Bool) (x : A) (ys : List A)
      → count q (insert_ordered before x ys) ≡ (if q x then suc (count q ys) else count q ys)
  count-insert_ordered q before x [] = refl
  count-insert_ordered q before x (y ∷ ys) = ground (arith, count-insert_ordered q before x ys)

  -- Sorting keeps the rows, each as often.
  pub count-order_by :
      (q : A → Bool) (before : A → A → Bool) (xs : List A)
      → count q (order_by before xs) ≡ count q xs
  count-order_by q before [] = refl
  count-order_by q before (x ∷ xs) =
      ground
        (arith, count-insert_ordered q before x (order_by before xs), count-order_by q before xs)

  length-insert_ordered :
      (before : A → A → Bool) (x : A) (ys : List A)
      → length (insert_ordered before x ys) ≡ suc (length ys)
  length-insert_ordered before x [] = refl
  length-insert_ordered before x (y ∷ ys) = ground (arith, length-insert_ordered before x ys)

  pub length-order_by :
      (before : A → A → Bool) (xs : List A) → length (order_by before xs) ≡ length xs
  length-order_by before [] = refl
  length-order_by before (x ∷ xs) =
      ground (arith, length-insert_ordered before x (order_by before xs), length-order_by before xs)

-- The first row of a table ordered by a key has the least key.
module _ {A : Type 0} (key : A → ℕ) where
  abbrev pub by_key : A → A → Bool
  by_key x y = leb (key x) (key y)

  abbrev first_of : A → Option A → A
  first_of x none = x
  first_of x (some y) = if leb (key x) (key y) then x else y

  head?-insert_ordered :
      (x : A) (ys : List A) → head? (insert_ordered by_key x ys) ≡ some (first_of x (head? ys))
  head?-insert_ordered x [] = refl
  head?-insert_ordered x (y ∷ ys) = ground arith

  pub head?-order_by_nonempty :
      (x : A) (xs : List A)
      → head? (order_by by_key (x ∷ xs)) ≡ some (first_of x (head? (order_by by_key xs)))
  head?-order_by_nonempty x xs = head?-insert_ordered x (order_by by_key xs)

  All-weaken : (n m : ℕ) (xs : List A) → n ≤ m → All (λ x. m ≤ key x) xs → All (λ x. n ≤ key x) xs
  All-weaken n m [] h k = tt
  All-weaken n m (x ∷ xs) h k = (omega arith, All-weaken n m xs h k.1)

  pub head?-order_by_least :
      (xs : List A) (a : A) → head? (order_by by_key xs) ≡ some a → All (λ x. key a ≤ key x) xs
  head?-order_by_least [] a h = tt
  head?-order_by_least (x ∷ []) a h =
      let e : x ≡ a = ground arith in
      subst (λ z. All (λ w. key z ≤ key w) (x ∷ [])) e (omega arith, tt)
  head?-order_by_least (x ∷ y ∷ xs) a h =
      let b : A = first_of y (head? (order_by by_key xs)) in
      let found : head? (order_by by_key (y ∷ xs)) ≡ some b = head?-order_by_nonempty y xs in
      let least = head?-order_by_least (y ∷ xs) b found in
      let e : first_of x (some b) ≡ a = ground (arith, found, head?-order_by_nonempty x (y ∷ xs)) in
      elim (Bool-cases (leb (key x) (key b))) [
        | inl front ↦
            let q : x ≡ a = ground (arith, e, front) in
            subst (λ z. All (λ w. key z ≤ key w) (x ∷ y ∷ xs)) q
              (omega arith, All-weaken (key x) (key b) (y ∷ xs) (ground (arith, front)) least)
        | inr behind ↦
            let q : b ≡ a = ground (arith, e, behind) in
            subst (λ z. All (λ w. key z ≤ key w) (x ∷ y ∷ xs)) q (ground (arith, behind), least)
      ]

-- Sorting keeps what holds of every row.
module _ {A : Type 0} (P : A → Type 0) (before : A → A → Bool) where
  All-insert_ordered : (x : A) (ys : List A) → P x → All P ys → All P (insert_ordered before x ys)
  All-insert_ordered x [] h k = (h, tt)
  All-insert_ordered x (y ∷ ys) h k = elim (Bool-cases (before x y)) [
    | inl front ↦ rw front (h, k)
    | inr behind ↦ rw behind (k.0, All-insert_ordered x ys h k.1)
  ]

  pub All-order_by : (xs : List A) → All P xs → All P (order_by before xs)
  All-order_by [] h = tt
  All-order_by (x ∷ xs) h = All-insert_ordered x (order_by before xs) h.0 (All-order_by xs h.1)

module _ {A : Type 0} where
  pub All-head? : (P : A → Type 0) (xs : List A) {a : A} → All P xs → head? xs ≡ some a → P a
  All-head? P [] h k = cc
  All-head? P (x ∷ xs) {a} h k = let e : x ≡ a = cc in rw (← e) h.0

  pub All-filter : (p : A → Bool) (xs : List A) → All (λ x. p x ≡ true) (filter p xs)
  All-filter p [] = tt
  All-filter p (x ∷ xs) = elim (Bool-cases (p x)) [
    | inl hit ↦ rw hit (hit, All-filter p xs)
    | inr miss ↦ rw miss (All-filter p xs)
  ]
