-- ===== src/Base/Maps.antt =====
-- A JavaScript `Map` as the list of its entries; a key stands there once.
use Prim.Native.Nat.{ℕ}
use mathlib.Core.Path.{◌≡◌, refl}
use mathlib.Core.Bool.{Bool, false, ◌&&◌}
use mathlib.Core.Option.{Option, none, some}
use mathlib.Core.List.{List, [], ◌∷◌, map}
use native.Mathlib.Omega.{arith}
use sso_requests.Base.Tests.{if◌then◌else◌, nat_beq, nat_beq_iff, nat_eq}
use sso_requests.Base.Tables.{filter, any, includes}

module _ {A : Type 0} where
  -- `m.get(k)`.
  abbrev pub map_get : ℕ → List (ℕ × A) → Option A
  map_get k [] = none
  map_get k ((j, a) ∷ m) = if nat_beq j k then some a else map_get k m

  abbrev pub HasUniqueKeys : List (ℕ × A) → Type 0
  HasUniqueKeys [] = Unit
  HasUniqueKeys ((k, a) ∷ m) = (map_get k m ≡ none) × HasUniqueKeys m

  -- A test of the value under a key; it fails where there is none.
  abbrev pub holds : (A → Bool) → Option A → Bool
  holds q none = false
  holds q (some a) = q a

  pub any-map_get :
      (q : A → Bool) (k : ℕ) (m : List (ℕ × A))
      → HasUniqueKeys m
      → any (λ e. nat_beq e.0 k && q e.1) m ≡ holds q (map_get k m)
  any-map_get q k [] h = refl
  any-map_get q k ((j, a) ∷ m) h = ground (arith, any-map_get q k m h.1, nat_beq_iff j k)

  pub includes-keys :
      (q : A → Bool) (k : ℕ) (m : List (ℕ × A))
      → includes (map (λ e. e.0) (filter (λ e. q e.1) m)) k ≡ any (λ e. nat_beq e.0 k && q e.1) m
  includes-keys q k [] = refl
  includes-keys q k ((j, a) ∷ m) = ground (arith, includes-keys q k m)
