-- ===== src/Base/Maps.antt =====
-- JavaScript's `Map`: entries in the order of first insertion; a write to a key that is present
-- replaces its value in place.
use mathlib.Core.Path.{◌≡◌, refl}
use mathlib.Core.Logic.{◌≢◌, ◌⊎◌, inl, inr}
use mathlib.Core.Option.{Option, none, some}
use mathlib.Core.List.{List, [], ◌∷◌}
use native.Mathlib.Omega.{arith}
use serverless_order_integra.Base.Tests.{if◌then◌else◌, Bool-cases}
use serverless_order_integra.Base.Equality.{Equality}

abbrev pub Map {ℓ κ} : Type ℓ → Type κ → Type (ℓ ⊔ κ)
Map K V = List (K × V)

module _ {ℓ κ} {K : Type ℓ} {V : Type κ} ⦃e : Equality K⦄ where
  unfoldable pub get : K → Map K V → Option V
  get k [] = none
  get k ((j, v) ∷ m) = if e.equals j k then some v else get k m

  unfoldable pub set : K → V → Map K V → Map K V
  set k v [] = (k, v) ∷ []
  set k v ((j, w) ∷ m) = if e.equals j k then (j, v) ∷ m else (j, w) ∷ set k v m

  pub get-set :
      (k j : K) (v : V) (m : Map K V)
      → get j (set k v m) ≡ (if e.equals k j then some v else get j m)
  unfolding get set
  get-set k j v [] = refl
  get-set k j v ((i, w) ∷ m) =
      ground (arith, e.equals_iff k j, e.equals_iff i k, e.equals_iff i j, get-set k j v m)

  pub get-set_self : (k : K) (v : V) (m : Map K V) → get k (set k v m) ≡ some v
  get-set_self k v m = rw (get-set, (e.equals_iff k k).1 refl)

  pub get-set_ne : (k j : K) (v : V) (m : Map K V) → k ≢ j → get j (set k v m) ≡ get j m
  get-set_ne k j v m h = elim (Bool-cases (e.equals k j)) [
    | inl p ↦ absurd (h ((e.equals_iff k j).0 p))
    | inr p ↦ rw (get-set, p)
  ]

  -- What a read finds after a write: the value written at that key, or what was there before.
  pub get-set-cases :
      (k j : K) (v : V) (m : Map K V) {w : V}
      → get j (set k v m) ≡ some w
      → ((k ≡ j) × (v ≡ w)) ⊎ (get j m ≡ some w)
  get-set-cases k j v m h = elim (Bool-cases (e.equals k j)) [
    | inl y ↦ inl ((e.equals_iff k j).0 y, cc (get-set k j v m, y))
    | inr n ↦ inr (cc (get-set k j v m, n))
  ]
